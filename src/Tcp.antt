-- ===== src/Tcp.antt =====
-- `send_all`, `listen_on` and `connect_to` of src/gateway/tcp.cpp. The system calls are parameters:
-- `send k n` is what the `k`-th call returns when it is offered `n` bytes.
pub mod Written
pub mod Opened
mod Tests
use multi_instrument_orderbo.Prelude.{
  ℕ, zero, suc, Bool, true, false, Option, none, some, List, [], ◌∷◌, ◌++◌, length, take, drop,
  ◌==◌, if◌then◌else◌, ◌>>=◌, ℤ, pos, negsuc,
}

-- What a call of `send_all` has done: the bytes that `send` has taken, the answer, and the number of
-- the next system call.
pub record Sending : Type 0 where
  pub written : List ℕ
  pub ok : Bool
  pub calls : ℕ

abbrev pub stopped : ℕ → Bool → Sending
stopped k ok = record { written = []; ok = ok; calls = k }

-- `n` bytes of the rest, and what follows.
abbrev pub took : ℕ → List ℕ → Sending → Sending
took n rest r = record r { written = take n rest ++ r.written }

-- The loop, on the bytes `data + sent` that are left. The fuel counts the system calls; `none` is
-- its end.
unfoldable pub send_all : ℕ → (ℕ → ℕ → ℤ) → ℕ → List ℕ → Option Sending
send_all fuel send k [] = some (stopped k true)
send_all zero send k (b ∷ rest) = none
send_all (suc fuel) send k (b ∷ rest) = elim (send k (length (b ∷ rest))) [
  | negsuc n ↦ some (stopped (suc k) false)
  | pos n ↦ elim n [
    | zero ↦ some (stopped (suc k) false)
    | suc m ↦ do
      r ← send_all fuel send (suc k) (drop (suc m) (b ∷ rest))
      some (took (suc m) (b ∷ rest) r)
  ]
]

pub data TcpError : Type 0 where
  socket_failed bind_failed listen_failed inet_pton_failed connect_failed : TcpError

-- What opening a socket gives: an exception, with the sockets that were closed before it, or the
-- socket.
pub data Opening : Type 0 where
  fails : TcpError → List ℕ → Opening
  opens : ℕ → Opening

abbrev is_zero : ℤ → Bool
is_zero (pos n) = n == 0
is_zero (negsuc n) = false

abbrev is_one : ℤ → Bool
is_one (pos n) = n == 1
is_one (negsuc n) = false

-- `socket` is what the call of that name returns, `none` for the invalid socket; `bind` and `listen`
-- are called on it.
unfoldable pub listen_on : Option ℕ → (ℕ → ℕ → ℤ) → (ℕ → ℕ → ℤ) → ℕ → ℕ → Opening
listen_on none bind listen port backlog = fails socket_failed []
listen_on (some s) bind listen port backlog =
    if is_zero (bind s port)
    then if is_zero (listen s backlog) then opens s else fails listen_failed (s ∷ [])
    else fails bind_failed (s ∷ [])

-- The same for a client. `inet_pton` reads the host, `connect` is called on the socket.
unfoldable pub connect_to : Option ℕ → (List ℕ → ℤ) → (ℕ → List ℕ → ℕ → ℤ) → List ℕ → ℕ → Opening
connect_to none inet_pton connect host port = fails socket_failed []
connect_to (some s) inet_pton connect host port =
    if is_one (inet_pton host)
    then if is_zero (connect s host port) then opens s else fails connect_failed (s ∷ [])
    else fails inet_pton_failed (s ∷ [])
