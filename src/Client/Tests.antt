-- ===== src/Client/Tests.antt =====
-- A logon and a heartbeat on the way from a session to a client.
use multi_instrument_orderbo.Prelude.{
  ℕ, ◌≤◌, ◌≡◌, refl, ap, true, some, List, [], ◌∷◌, take, drop, length, ℤ, pos, pos_part, arith,
}
use multi_instrument_orderbo.Protocol.{MessageBody, logon_msg, heartbeat_msg}
use multi_instrument_orderbo.Codec.{encode, encode_into, encode_body, encode_header, write_word, le}
use multi_instrument_orderbo.Session.{new_session, take_outbound, emit}
use multi_instrument_orderbo.Session.Exchange.{emit_all, numbered}
use multi_instrument_orderbo.Tcp.{Sending, send_all}
use multi_instrument_orderbo.Tcp.Written.{IsSend}
use multi_instrument_orderbo.Client.Receiving.{joined, Delivered, client_of, recv_many-Delivered}
use multi_instrument_orderbo.Client.Wire.{emit_all-Delivered}

abbrev all_at_once : ℕ → ℕ → ℤ
all_at_once k n = pos n

all_at_once-IsSend : IsSend all_at_once
all_at_once-IsSend k n m e = omega (arith, ap pos_part e)

abbrev bodies : List MessageBody
bodies = logon_msg 9 ∷ heartbeat_msg ∷ []

abbrev bytes : List ℕ
bytes = (take_outbound (emit_all bodies (new_session 1))).1

abbrev sending : Sending
sending = record { written = bytes; ok = true; calls = 1 }

abbrev chunks : List (List ℕ)
chunks = take 3 bytes ∷ drop 3 bytes ∷ []

bytes_sent : send_all 20 all_at_once 0 bytes ≡ some sending
unfolding send_all take_outbound emit encode encode_into encode_body encode_header write_word le
bytes_sent = refl

bytes_in : length bytes ≤ 20
unfolding take_outbound emit encode encode_into encode_body encode_header write_word le
bytes_in = omega arith

chunks_joined : joined chunks ≡ bytes
unfolding take_outbound emit encode encode_into encode_body encode_header write_word le
chunks_joined = refl

emit_all-Delivered_example : Delivered (numbered 0 bodies) 0 chunks (client_of 0 [])
emit_all-Delivered_example =
    emit_all-Delivered bodies (new_session 1) all_at_once 20 0 0 sending chunks
      (omega arith, (tt, tt)) refl all_at_once-IsSend bytes_in bytes_sent refl chunks_joined

recv_many-Delivered_example : Delivered (numbered 0 bodies) 0 chunks (client_of 0 [])
unfolding take_outbound emit encode encode_into encode_body encode_header write_word
recv_many-Delivered_example =
    recv_many-Delivered (numbered 0 bodies) chunks [] 0
      (omega arith, omega arith, (omega arith, tt, tt)) chunks_joined
