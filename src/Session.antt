-- ===== src/Session.antt =====
-- `Session` of include/ordbk/protocol/session.hpp and src/protocol/session.cpp: one connection, with
-- a framer for what comes in and a buffer for what goes out.
pub mod Exchange
use multi_instrument_orderbo.Prelude.{ℕ, ◌+◌, ◌%◌, ◌^◌, Option, List, [], ◌++◌}
use multi_instrument_orderbo.Protocol.{MessageBody, DecodedMessage}
use multi_instrument_orderbo.Codec.{encode}
use multi_instrument_orderbo.Framer.{Framer, new_framer, feed, next}

pub data SessionState : Type 0 where
  not_logged_on active closing : SessionState

pub record Session : Type 0 where
  pub session_id : ℕ
  pub state : SessionState
  pub client_id : ℕ
  pub out_seq : ℕ
  pub framer : Framer
  pub outbound : List ℕ

abbrev pub new_session : ℕ → Session
new_session session_id = record {
  session_id = session_id;
  state = not_logged_on;
  client_id = 0;
  out_seq = 0;
  framer = new_framer;
  outbound = [];
}

unfoldable pub on_bytes : List ℕ → Session → Session
on_bytes data_in s = record s { framer = feed data_in s.framer }

unfoldable pub next_inbound : Session → Session × Option DecodedMessage
next_inbound s = let (f, m) = next s.framer in (record s { framer = f }, m)

-- `++out_seq_` on `uint32_t`.
abbrev pub next_outbound_seq : ℕ → ℕ
next_outbound_seq out_seq = (out_seq + 1) % 2 ^ 32

unfoldable pub emit : MessageBody → Session → Session
emit body s =
    let seq = next_outbound_seq s.out_seq in
    record s { out_seq = seq; outbound = s.outbound ++ encode seq body }

unfoldable pub take_outbound : Session → Session × List ℕ
take_outbound s = (record s { outbound = [] }, s.outbound)

abbrev pub set_state : SessionState → Session → Session
set_state st s = record s { state = st }

abbrev pub set_client : ℕ → Session → Session
set_client cid s = record s { client_id = cid }
