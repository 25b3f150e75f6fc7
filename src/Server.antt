-- ===== src/Server.antt =====
-- `Server` of include/ordbk/gateway/server.hpp and src/gateway/server.cpp: the sockets of the
-- sessions, and the loop of one session's thread. The system calls are parameters: `listen_on` and
-- `accept_one` by what they return (`none` for an exception and for the invalid socket), `recv_some`
-- by the bytes that it gives, and `send` as in Tcp. The sessions share one engine without a lock;
-- what is modelled is a session whose calls of the engine no other thread interrupts.
pub mod Sockets
pub mod Numbers
pub mod Iterations
pub mod Replies
mod Tests
use multi_instrument_orderbo.Prelude.{
  ℕ, zero, suc, ◌+◌, ◌==◌, ◌%◌, ◌^◌, Bool, true, false, if◌then◌else◌, not, ◌&&◌, Option, none,
  some, List, [], ◌∷◌, ◌++◌, ◌>>=◌, length, ℤ, add64,
}
use multi_instrument_orderbo.Framer.{has_error}
use multi_instrument_orderbo.Session.{
  Session, SessionState, not_logged_on, active, closing, on_bytes, take_outbound, new_session,
}
use multi_instrument_orderbo.Engine.{Engine}
use multi_instrument_orderbo.Dispatcher.{Readings, pump}
use multi_instrument_orderbo.Tcp.{Sending, send_all}

-- `listener` is `none` for the invalid socket. `closed` lists the calls of `close_socket`, and
-- `threads` the sessions that have a thread, each with its socket and its number.
pub record Server : Type 0 where
  pub running : Bool
  pub listener : Option ℕ
  pub session_sockets : List ℕ
  pub next_session_id : ℕ
  pub threads : List (ℕ × ℕ)
  pub closed : List ℕ

abbrev pub new_server : Server
new_server = record {
  running = false;
  listener = none;
  session_sockets = [];
  next_session_id = 1;
  threads = [];
  closed = [];
}

-- The Boolean is whether the accept thread is started: not where the server runs already, and not
-- where `listen_on` throws.
unfoldable pub start : Option ℕ → Server → Server × Bool
start listening srv = if srv.running then (srv, false) else elim listening [
  | none ↦ (record srv { running = true }, false)
  | some l ↦ (record srv { running = true; listener = some l }, true)
]

abbrev pub to_close : Option ℕ → List ℕ
to_close none = []
to_close (some l) = l ∷ []

-- An iteration of `accept_loop` on a socket.
unfoldable pub accept : ℕ → Server → Server
accept s srv = record srv {
  next_session_id = add64 srv.next_session_id 1;
  session_sockets = srv.session_sockets ++ s ∷ [];
  threads = srv.threads ++ (s, srv.next_session_id) ∷ [];
}

-- `accept_loop`, on what `accept_one` returns, while nobody stops the server.
unfoldable pub accept_loop : List (Option ℕ) → Server → Server
unfolding accept
accept_loop [] srv = srv
accept_loop (none ∷ answers) srv = srv
accept_loop (some s ∷ answers) srv =
    let rest = accept_loop answers (accept s srv) in if srv.running then rest else srv

-- `erase` of the first place at which the socket stands.
unfoldable pub forget : ℕ → List ℕ → List ℕ
forget sock [] = []
forget sock (s ∷ sockets) = if s == sock then sockets else s ∷ forget sock sockets

-- `session_loop` behind its loop.
unfoldable pub end_session : ℕ → Server → Server
unfolding forget
end_session sock srv = record srv {
  closed = srv.closed ++ sock ∷ [];
  session_sockets = forget sock srv.session_sockets;
}

-- `stop` up to the end of its lock: nobody is told of a session that is accepted from here on.
unfoldable pub halt : Server → Server
halt srv = record srv {
  running = false;
  listener = none;
  session_sockets = [];
  closed = srv.closed ++ to_close srv.listener ++ srv.session_sockets;
}

-- What the accept thread does behind `halt`: it may hold a socket that `accept_one` has given it, and
-- leaves the loop at its next test of `running_`.
abbrev pub accept_late : Option ℕ → Server → Server
accept_late none srv = srv
accept_late (some s) srv = accept s srv

-- The ends of the sessions' threads, in the order in which they come.
unfoldable pub end_all : List ℕ → Server → Server
unfolding end_session
end_all [] srv = srv
end_all (sock ∷ sockets) srv = end_all sockets (end_session sock srv)

-- `stop`, where the joins return: `late` is what the accept thread still takes, and `ends` are the
-- sockets of the threads that end behind `halt`. What other threads do before the end of its lock is
-- taken to have come before the call.
unfoldable pub stop : Option ℕ → List ℕ → Server → Server
unfolding halt accept end_all
stop late ends srv =
    let joined = end_all ends (accept_late late (halt srv)) in
    if srv.running then record joined { threads = [] } else srv

abbrev pub is_closing : SessionState → Bool
is_closing not_logged_on = false
is_closing active = false
is_closing closing = true

-- What an iteration of `session_loop` reads: `running_`, and the bytes that `recv_some` gives.
pub record Arrival : Type 0 where
  pub running : Bool
  pub bytes : List ℕ

-- What the loop leaves behind: session and engine, the bytes that the socket has taken, and whether
-- it took all it was given.
pub record Conversation : Type 0 where
  pub session : Session
  pub engine : Engine
  pub written : List ℕ
  pub all_sent : Bool

abbrev pub ended : Session → Engine → Conversation
ended s e = record { session = s; engine = e; written = []; all_sent = true }

abbrev pub behind : List ℕ → Conversation → Conversation
behind bytes r = record r { written = bytes ++ r.written }

-- `send_all` of the outbound bytes; without any there is no call.
abbrev pub send_outbound : (ℕ → ℕ → ℤ) → ℕ → List ℕ → Option Sending
send_outbound calls k [] = some (record { written = []; ok = true; calls = k })
send_outbound calls k (b ∷ bytes) = send_all (length (b ∷ bytes)) calls k (b ∷ bytes)

-- The loop, over the arrivals that come; behind them, `recv_some` answers 0 or -1, or the server has
-- stopped. `k` is the number of the next system call, and `clock` gives the readings of each
-- iteration.
unfoldable pub session_loop :
    (ℕ → ℕ → ℤ) → ℕ → (ℕ → ℕ → Readings) → List Arrival → Session → Engine → Option Conversation
unfolding on_bytes has_error pump take_outbound send_all
session_loop calls k clock [] s e = some (ended s e)
session_loop calls k clock (a ∷ arrivals) s e = elim (a.running && not (is_closing s.state)) [
  | false ↦ some (ended s e)
  | true ↦
      let s1 = on_bytes a.bytes s in
      elim (has_error s1.framer.error) [
        | true ↦ some (ended s1 e)
        | false ↦ do
          (s2, e2) ← pump (suc (length s1.framer.buf)) (clock 0) s1 e
          sent ← send_outbound calls k (take_outbound s2).1
          elim sent.ok [
            | false ↦ some (record {
              session = (take_outbound s2).0;
              engine = e2;
              written = sent.written;
              all_sent = false;
            })
            | true ↦ do
              r ←
                  session_loop calls sent.calls (λ i. clock (suc i)) arrivals (take_outbound s2).0
                    e2
              some (behind sent.written r)
          ]
      ]
]
