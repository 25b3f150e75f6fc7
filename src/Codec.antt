-- ===== src/Codec.antt =====
-- src/protocol/codec.cpp: the little-endian wire format. A byte is a number below 256. A writer is
-- the bytes before its position and the size of its buffer; a reader is the bytes behind its
-- position. `none` is a result `false` or `nullopt`, after which no caller uses the buffer.
pub mod Words
pub mod RoundTrip
mod Tests
use multi_instrument_orderbo.Prelude.{
  ℕ, zero, suc, ◌+◌, ◌*◌, ◌/◌, ◌%◌, ◌^◌, ltb, leb, ◌==◌, if◌then◌else◌, Option, none, some, List,
  [], ◌∷◌, ◌++◌, ◌>>=◌, ℤ, to_i64, to_u64, length, take, drop,
}
use multi_instrument_orderbo.Protocol.{
  MsgType, logon, logout, heartbeat, new_order, cancel_order, order_ack, order_reject, fill,
  cancelled, other_msg, msg_byte, msg_of_byte, RejectReason, reason_byte, reason_of_byte,
  MessageHeader, NewOrderMsg, CancelOrderMsg, OrderAckMsg, OrderRejectMsg, FillMsg, MessageBody,
  logon_msg, logout_msg, heartbeat_msg, new_order_msg, cancel_order_msg, order_ack_msg,
  order_reject_msg, fill_msg, cancelled_msg, header_size, max_body_size, protocol_version,
}

pub record BufferWriter : Type 0 where
  pub size : ℕ
  pub written : List ℕ

abbrev pub new_writer : ℕ → BufferWriter
new_writer size = record { size = size; written = [] }

abbrev pub BufferReader : Type 0
BufferReader = List ℕ

-- The bytes of a word, the lowest first: `(v >> (8 * i)) & 0xFF` for `i` below `n`.
unfoldable pub le : ℕ → ℕ → List ℕ
le zero v = []
le (suc n) v = v % 256 ∷ le n (v / 256)

unfoldable pub write_word : ℕ → ℕ → BufferWriter → Option BufferWriter
unfolding le
write_word n v w =
    if ltb w.size (length w.written + n)
    then none
    else some (record w { written = w.written ++ le n v })

abbrev pub write_u8 : ℕ → BufferWriter → Option BufferWriter
write_u8 v w = write_word 1 v w

abbrev pub write_u16 : ℕ → BufferWriter → Option BufferWriter
write_u16 v w = write_word 2 v w

abbrev pub write_u32 : ℕ → BufferWriter → Option BufferWriter
write_u32 v w = write_word 4 v w

abbrev pub write_u64 : ℕ → BufferWriter → Option BufferWriter
write_u64 v w = write_word 8 v w

abbrev pub write_i64 : ℤ → BufferWriter → Option BufferWriter
write_i64 v w = write_u64 (to_u64 v) w

-- The word of some bytes: the `|` of the bytes, each shifted to its place, is their sum.
unfoldable pub value : List ℕ → ℕ
value [] = 0
value (b ∷ bs) = b + 256 * value bs

unfoldable pub read_word : ℕ → BufferReader → Option (ℕ × BufferReader)
unfolding value
read_word n r = if ltb (length r) n then none else some (value (take n r), drop n r)

abbrev pub read_u8 : BufferReader → Option (ℕ × BufferReader)
read_u8 r = read_word 1 r

abbrev pub read_u16 : BufferReader → Option (ℕ × BufferReader)
read_u16 r = read_word 2 r

abbrev pub read_u32 : BufferReader → Option (ℕ × BufferReader)
read_u32 r = read_word 4 r

abbrev pub read_u64 : BufferReader → Option (ℕ × BufferReader)
read_u64 r = read_word 8 r

unfoldable pub read_i64 : BufferReader → Option (ℤ × BufferReader)
read_i64 r = do (u, r') ← read_u64 r; some (to_i64 u, r')

unfoldable pub encode_header : MessageHeader → BufferWriter → Option BufferWriter
encode_header h w = do
  w₁ ← write_u8 h.version w
  w₂ ← write_u8 (msg_byte h.msg_type) w₁
  w₃ ← write_u16 h.body_length w₂
  write_u32 h.sequence w₃

unfoldable pub decode_header : BufferReader → Option MessageHeader
decode_header r = do
  (version, r₁) ← read_u8 r
  (mt, r₂) ← read_u8 r₁
  (body_length, r₃) ← read_u16 r₂
  (sequence, r₄) ← read_u32 r₃
  some (record {
    version = version;
    msg_type = msg_of_byte mt;
    body_length = body_length;
    sequence = sequence;
  })

unfoldable pub encode_body : MessageBody → BufferWriter → Option BufferWriter
encode_body (logon_msg client_id) w = write_u32 client_id w
encode_body logout_msg w = some w
encode_body heartbeat_msg w = some w
encode_body (new_order_msg m) w = do
  w₁ ← write_u64 m.client_order_id w
  w₂ ← write_u32 m.instrument_id w₁
  w₃ ← write_u8 m.side w₂
  w₄ ← write_u8 m.order_type w₃
  w₅ ← write_u8 m.tif w₄
  w₆ ← write_u8 0 w₅
  w₇ ← write_i64 m.price w₆
  write_u64 m.quantity w₇
encode_body (cancel_order_msg m) w = do
  w₁ ← write_u64 m.client_order_id w
  write_u32 m.instrument_id w₁
encode_body (order_ack_msg m) w = do
  w₁ ← write_u64 m.client_order_id w
  write_u64 m.server_order_id w₁
encode_body (order_reject_msg m) w = do
  w₁ ← write_u64 m.client_order_id w
  write_u8 (reason_byte m.reason) w₁
encode_body (fill_msg m) w = do
  w₁ ← write_u64 m.client_order_id w
  w₂ ← write_u64 m.server_order_id w₁
  w₃ ← write_i64 m.price w₂
  w₄ ← write_u64 m.quantity w₃
  write_u8 m.post_status w₄
encode_body (cancelled_msg client_order_id) w = write_u64 client_order_id w

abbrev pub type_of : MessageBody → MsgType
type_of (logon_msg client_id) = logon
type_of logout_msg = logout
type_of heartbeat_msg = heartbeat
type_of (new_order_msg m) = new_order
type_of (cancel_order_msg m) = cancel_order
type_of (order_ack_msg m) = order_ack
type_of (order_reject_msg m) = order_reject
type_of (fill_msg m) = fill
type_of (cancelled_msg client_order_id) = cancelled

abbrev pub header_for : ℕ → MessageBody → ℕ → MessageHeader
header_for seq body body_len = record {
  version = protocol_version;
  msg_type = type_of body;
  body_length = body_len % 2 ^ 16;
  sequence = seq;
}

-- `encode` into a span of `size` bytes: the bytes that it has written, none of them for a result 0.
unfoldable pub encode_into : ℕ → ℕ → MessageBody → List ℕ
encode_into size seq body =
    if ltb size header_size then [] else elim (encode_body body (new_writer max_body_size)) [
      | none ↦ []
      | some bw ↦
          let body_len = length bw.written in
          if ltb size (header_size + body_len)
          then []
          else if ltb max_body_size body_len
          then []
          else elim (encode_header (header_for seq body body_len) (new_writer size)) [
            | none ↦ []
            | some hw ↦ hw.written ++ bw.written
          ]
    ]

-- `encode` into a fresh vector.
unfoldable pub encode : ℕ → MessageBody → List ℕ
encode seq body = encode_into (header_size + max_body_size) seq body

-- The cases of `decode_body`.
decode_new_order : BufferReader → Option MessageBody
unfolding read_i64
decode_new_order r = do
  (client_order_id, r₁) ← read_u64 r
  (instrument_id, r₂) ← read_u32 r₁
  (side, r₃) ← read_u8 r₂
  (order_type, r₄) ← read_u8 r₃
  (tif, r₅) ← read_u8 r₄
  (pad, r₆) ← read_u8 r₅
  (price, r₇) ← read_i64 r₆
  (quantity, r₈) ← read_u64 r₇
  some (
      new_order_msg (record {
        client_order_id = client_order_id;
        instrument_id = instrument_id;
        side = side;
        order_type = order_type;
        tif = tif;
        price = price;
        quantity = quantity;
      }))

decode_fill : BufferReader → Option MessageBody
unfolding read_i64
decode_fill r = do
  (client_order_id, r₁) ← read_u64 r
  (server_order_id, r₂) ← read_u64 r₁
  (price, r₃) ← read_i64 r₂
  (quantity, r₄) ← read_u64 r₃
  (post_status, r₅) ← read_u8 r₄
  some (
      fill_msg (record {
        client_order_id = client_order_id;
        server_order_id = server_order_id;
        price = price;
        quantity = quantity;
        post_status = post_status;
      }))

unfoldable pub decode_body : MsgType → BufferReader → Option MessageBody
unfolding decode_new_order decode_fill
decode_body logon r = do (client_id, r₁) ← read_u32 r; some (logon_msg client_id)
decode_body logout r = some logout_msg
decode_body heartbeat r = some heartbeat_msg
decode_body new_order r = decode_new_order r
decode_body cancel_order r = do
  (client_order_id, r₁) ← read_u64 r
  (instrument_id, r₂) ← read_u32 r₁
  some (
      cancel_order_msg
        (record { client_order_id = client_order_id; instrument_id = instrument_id }))
decode_body order_ack r = do
  (client_order_id, r₁) ← read_u64 r
  (server_order_id, r₂) ← read_u64 r₁
  some (
      order_ack_msg
        (record { client_order_id = client_order_id; server_order_id = server_order_id }))
decode_body order_reject r = do
  (client_order_id, r₁) ← read_u64 r
  (reason, r₂) ← read_u8 r₁
  some (
      order_reject_msg
        (record { client_order_id = client_order_id; reason = reason_of_byte reason }))
decode_body fill r = decode_fill r
decode_body cancelled r = do
  (client_order_id, r₁) ← read_u64 r
  some (cancelled_msg client_order_id)
decode_body (other_msg b) r = none
