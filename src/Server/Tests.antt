-- ===== src/Server/Tests.antt =====
-- A session of which the client sends a logout, and a server with one session.
use multi_instrument_orderbo.Prelude.{
  ℕ, ◌≡◌, refl, ap, true, Option, none, some, List, [], ◌∷◌, ◌++◌, ℤ, pos, pos_part, arith,
}
use multi_instrument_orderbo.Framer.{feed, next, next_body}
use multi_instrument_orderbo.Codec.{
  encode, decode_header, read_word, decode_body, encode_into, encode_body, encode_header,
  write_word,
}
use multi_instrument_orderbo.Session.{new_session, closing}
use multi_instrument_orderbo.Engine.{Engine}
use multi_instrument_orderbo.OrderBook.Example.{links}
use multi_instrument_orderbo.Dispatcher.{Readings}
use multi_instrument_orderbo.Matcher.Example.{clock, pool}
use multi_instrument_orderbo.Tcp.Written.{IsSend}
use multi_instrument_orderbo.Server.{
  Server, Arrival, Conversation, session_loop, new_server, start, accept,
}
use multi_instrument_orderbo.Server.Replies.{Replied, session_loop-Replied, session_loop-closed}
use multi_instrument_orderbo.Server.Sockets.{Stopped, stop-Stopped}

abbrev engine : Engine
engine = record { links = links; pool = pool; matchers = []; book_ptrs = [] }

abbrev all_at_once : ℕ → ℕ → ℤ
all_at_once k n = pos n

all_at_once-IsSend : IsSend all_at_once
all_at_once-IsSend k n m e = omega (arith, ap pos_part e)

abbrev readings : ℕ → ℕ → Readings
readings i j = record { arrived = 3; clock = clock }

-- The header of a logout in one chunk, and the rest of it in another.
abbrev arrivals : List Arrival
arrivals =
    record { running = true; bytes = 1 ∷ 2 ∷ 0 ∷ 0 ∷ [] }
    ∷ record { running = true; bytes = 1 ∷ 0 ∷ 0 ∷ 0 ∷ [] }
    ∷ []

abbrev some_or {ℓ} : {A : Type ℓ} → A → Option A → A
some_or a none = a
some_or a (some b) = b

abbrev blank : Conversation
blank = record { session = new_session 1; engine = engine; written = []; all_sent = true }

abbrev conversation : Conversation
conversation = some_or blank (session_loop all_at_once 0 readings arrivals (new_session 1) engine)

runs : session_loop all_at_once 0 readings arrivals (new_session 1) engine ≡ some conversation
unfolding session_loop feed next decode_header read_word next_body decode_body encode encode_into
    encode_body encode_header write_word
runs = refl

closed : conversation.session.state ≡ closing
unfolding session_loop feed next decode_header read_word next_body decode_body encode encode_into
    encode_body encode_header write_word
closed = refl

session_loop-Replied_example : Replied (new_session 1) conversation
session_loop-Replied_example =
    session_loop-Replied all_at_once all_at_once-IsSend arrivals 0 readings (new_session 1) engine
      conversation refl runs

session_loop-closed_example :
    session_loop all_at_once 0 readings (arrivals ++ arrivals) (new_session 1) engine
    ≡ some conversation
session_loop-closed_example =
    session_loop-closed all_at_once arrivals arrivals 0 readings (new_session 1) engine conversation
      runs closed

abbrev one_session : Server
one_session = accept 5 (start (some 3) new_server).0

-- One more session comes late, and its thread ends first.
stop-Stopped_example : Stopped (some 6) (6 ∷ 5 ∷ []) one_session
unfolding accept start
stop-Stopped_example = stop-Stopped (some 6) (6 ∷ 5 ∷ []) one_session refl (λ a. omega arith)
