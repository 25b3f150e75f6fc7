-- ===== src/Tcp/Opened.antt =====
-- The sockets that `listen_on` and `connect_to` leave open.
use multi_instrument_orderbo.Prelude.{ℕ, ◌≡◌, Option, none, some, List, [], ◌∷◌, ℤ, arith}
use multi_instrument_orderbo.Tcp.{Opening, fails, opens, listen_on, connect_to}

abbrev of_socket : Option ℕ → List ℕ
of_socket none = []
of_socket (some s) = s ∷ []

-- The sockets closed, and the one that the caller gets.
abbrev pub closed_or_kept : Opening → List ℕ
closed_or_kept (fails e closed) = closed
closed_or_kept (opens s) = s ∷ []

-- Whatever the system calls answer, a socket that was opened is either closed before the exception or
-- given to the caller, and not both: none is lost.
pub opening-sockets :
    (socket : Option ℕ) (bind listen : ℕ → ℕ → ℤ) (inet_pton : List ℕ → ℤ)
    (connect : ℕ → List ℕ → ℕ → ℤ) (host : List ℕ) (port backlog : ℕ)
    → (closed_or_kept (listen_on socket bind listen port backlog) ≡ of_socket socket)
      × (closed_or_kept (connect_to socket inet_pton connect host port) ≡ of_socket socket)
unfolding listen_on connect_to
opening-sockets none bind listen inet_pton connect host port backlog = ground arith
opening-sockets (some s) bind listen inet_pton connect host port backlog = ground arith
