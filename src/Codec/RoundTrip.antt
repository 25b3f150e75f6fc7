-- ===== src/Codec/RoundTrip.antt =====
-- `encode` against `decode_header` and `decode_body`.
use multi_instrument_orderbo.Prelude.{
  ℕ, ◌+◌, ◌%◌, ◌^◌, ◌≤◌, ◌<◌, ◌≡◌, refl, ap, some, List, [], ◌++◌, length, arith, to_u64,
}
use multi_instrument_orderbo.Protocol.{
  MessageHeader, MessageBody, logon_msg, logout_msg, heartbeat_msg, new_order_msg, cancel_order_msg,
  order_ack_msg, order_reject_msg, fill_msg, cancelled_msg, header_size, max_body_size,
  protocol_version, msg_byte, msg_of_byte, reason_byte, IsBody,
}
use multi_instrument_orderbo.Codec.{
  new_writer, le, write_word, encode_header, decode_header, encode_body, decode_body,
  decode_new_order, decode_fill, type_of, header_for, encode_into, encode,
}
use multi_instrument_orderbo.Codec.Words.{read_word-then, read_i64-then}

-- The bytes of a body.
abbrev pub body_bytes : MessageBody → List ℕ
unfolding le
body_bytes (logon_msg client_id) = le 4 client_id
body_bytes logout_msg = []
body_bytes heartbeat_msg = []
body_bytes (new_order_msg m) =
    le 8 m.client_order_id
    ++ le 4 m.instrument_id
    ++ le 1 m.side
    ++ le 1 m.order_type
    ++ le 1 m.tif
    ++ le 1 0
    ++ le 8 (to_u64 m.price)
    ++ le 8 m.quantity
    ++ []
body_bytes (cancel_order_msg m) = le 8 m.client_order_id ++ le 4 m.instrument_id ++ []
body_bytes (order_ack_msg m) = le 8 m.client_order_id ++ le 8 m.server_order_id ++ []
body_bytes (order_reject_msg m) = le 8 m.client_order_id ++ le 1 (reason_byte m.reason) ++ []
body_bytes (fill_msg m) =
    le 8 m.client_order_id
    ++ le 8 m.server_order_id
    ++ le 8 (to_u64 m.price)
    ++ le 8 m.quantity
    ++ le 1 m.post_status
    ++ []
body_bytes (cancelled_msg client_order_id) = le 8 client_order_id

encode_body_lem :
    (b : MessageBody)
    → encode_body b (new_writer max_body_size)
      ≡ some (record { size = max_body_size; written = body_bytes b })
unfolding encode_body write_word le body_bytes
encode_body_lem (logon_msg client_id) = refl
encode_body_lem logout_msg = refl
encode_body_lem heartbeat_msg = refl
encode_body_lem (new_order_msg m) = refl
encode_body_lem (cancel_order_msg m) = refl
encode_body_lem (order_ack_msg m) = refl
encode_body_lem (order_reject_msg m) = refl
encode_body_lem (fill_msg m) = refl
encode_body_lem (cancelled_msg client_order_id) = refl

decode_body_lem : (b : MessageBody) → IsBody b → decode_body (type_of b) (body_bytes b) ≡ some b
unfolding decode_body decode_new_order decode_fill le body_bytes
decode_body_lem (logon_msg client_id) h = read_word-then 4 client_id [] _ _ h refl
decode_body_lem logout_msg h = refl
decode_body_lem heartbeat_msg h = refl
decode_body_lem (new_order_msg m) h = read_word-then 8 m.client_order_id _ _ _ h.0 (
    read_word-then 4 m.instrument_id _ _ _ h.1 (
      read_word-then 1 m.side _ _ _ h.2 (
        read_word-then 1 m.order_type _ _ _ h.3 (
          read_word-then 1 m.tif _ _ _ h.4 (
            read_word-then 1 0 _ _ _ (omega arith)
              (read_i64-then m.price _ _ _ h.5 (read_word-then 8 m.quantity [] _ _ h.6 refl)))))))
decode_body_lem (cancel_order_msg m) h =
    read_word-then 8 m.client_order_id _ _ _ h.0 (read_word-then 4 m.instrument_id [] _ _ h.1 refl)
decode_body_lem (order_ack_msg m) h =
    read_word-then 8 m.client_order_id _ _ _ h.0
      (read_word-then 8 m.server_order_id [] _ _ h.1 refl)
decode_body_lem (order_reject_msg m) h = read_word-then 8 m.client_order_id _ _ _ h.0 (
    read_word-then 1 (reason_byte m.reason) [] _ _ h.1.1 (
      ap (λ r. some (order_reject_msg (record { client_order_id = m.client_order_id; reason = r })))
        h.1.0))
decode_body_lem (fill_msg m) h = read_word-then 8 m.client_order_id _ _ _ h.0 (
    read_word-then 8 m.server_order_id _ _ _ h.1 (
      read_i64-then m.price _ _ _ h.2
        (read_word-then 8 m.quantity _ _ _ h.3 (read_word-then 1 m.post_status [] _ _ h.4 refl))))
decode_body_lem (cancelled_msg client_order_id) h = read_word-then 8 client_order_id [] _ _ h refl

body_bytes-short : (b : MessageBody) → length (body_bytes b) ≤ 33
unfolding body_bytes le
body_bytes-short (logon_msg client_id) = omega arith
body_bytes-short logout_msg = omega arith
body_bytes-short heartbeat_msg = omega arith
body_bytes-short (new_order_msg m) = omega arith
body_bytes-short (cancel_order_msg m) = omega arith
body_bytes-short (order_ack_msg m) = omega arith
body_bytes-short (order_reject_msg m) = omega arith
body_bytes-short (fill_msg m) = omega arith
body_bytes-short (cancelled_msg client_order_id) = omega arith

-- The bytes of a header.
abbrev pub header_bytes : MessageHeader → List ℕ
unfolding le
header_bytes h =
    le 1 h.version ++ le 1 (msg_byte h.msg_type) ++ le 2 h.body_length ++ le 4 h.sequence ++ []

encode_header_lem :
    (h : MessageHeader) (size : ℕ)
    → header_size ≤ size
    → encode_header h (new_writer size) ≡ some (record { size = size; written = header_bytes h })
unfolding encode_header write_word le header_bytes
encode_header_lem h size k = ground (arith, k)

msg_of_byte-type : (b : MessageBody) → msg_of_byte (msg_byte (type_of b)) ≡ type_of b
msg_of_byte-type (logon_msg client_id) = refl
msg_of_byte-type logout_msg = refl
msg_of_byte-type heartbeat_msg = refl
msg_of_byte-type (new_order_msg m) = refl
msg_of_byte-type (cancel_order_msg m) = refl
msg_of_byte-type (order_ack_msg m) = refl
msg_of_byte-type (order_reject_msg m) = refl
msg_of_byte-type (fill_msg m) = refl
msg_of_byte-type (cancelled_msg client_order_id) = refl

msg_byte-small : (b : MessageBody) → msg_byte (type_of b) < 256
msg_byte-small (logon_msg client_id) = omega arith
msg_byte-small logout_msg = omega arith
msg_byte-small heartbeat_msg = omega arith
msg_byte-small (new_order_msg m) = omega arith
msg_byte-small (cancel_order_msg m) = omega arith
msg_byte-small (order_ack_msg m) = omega arith
msg_byte-small (order_reject_msg m) = omega arith
msg_byte-small (fill_msg m) = omega arith
msg_byte-small (cancelled_msg client_order_id) = omega arith

decode_header_lem :
    (seq : ℕ) (b : MessageBody) (n : ℕ)
    → seq < 2 ^ 32
    → decode_header (header_bytes (header_for seq b n)) ≡ some (header_for seq b n)
unfolding decode_header le header_bytes
decode_header_lem seq b n h = read_word-then 1 protocol_version _ _ _ (omega arith) (
    read_word-then 1 (msg_byte (type_of b)) _ _ _ (msg_byte-small b) (
      read_word-then 2 (n % 2 ^ 16) _ _ _ (omega arith) (
        read_word-then 4 seq [] _ _ h
          (ap (λ t. some (record (header_for seq b n) { msg_type = t })) (msg_of_byte-type b)))))

-- What `encode` gives for a message.
pub record Encoded (seq : ℕ) (b : MessageBody) : Type 0 where
  pub head : List ℕ
  pub rest : List ℕ
  pub bytes : encode seq b ≡ head ++ rest
  pub head_size : length head ≡ header_size
  pub rest_size : length rest ≤ max_body_size
  pub header : MessageHeader
  pub header_read : decode_header head ≡ some header
  pub version_kept : header.version ≡ protocol_version
  pub length_kept : header.body_length ≡ length rest
  pub sequence_kept : header.sequence ≡ seq
  pub body_read : decode_body header.msg_type rest ≡ some b

encode_lem :
    (seq : ℕ) (b : MessageBody)
    → encode seq b ≡ header_bytes (header_for seq b (length (body_bytes b))) ++ body_bytes b
unfolding encode encode_into
encode_lem seq b = rw (encode_body_lem b) (
    rw
      (encode_header_lem (header_for seq b (length (body_bytes b))) (header_size + max_body_size)
        (omega arith))
      (ground (arith, body_bytes-short b)))

-- Every message whose fields fit their types is encoded, and its header and body are read back as
-- they were.
pub encode-Encoded : (seq : ℕ) (b : MessageBody) → seq < 2 ^ 32 → IsBody b → Encoded seq b
unfolding header_bytes le
encode-Encoded seq b h k = record {
  head = header_bytes (header_for seq b (length (body_bytes b)));
  rest = body_bytes b;
  bytes = encode_lem seq b;
  head_size = refl;
  rest_size = omega (arith, body_bytes-short b);
  header = header_for seq b (length (body_bytes b));
  header_read = decode_header_lem seq b (length (body_bytes b)) h;
  version_kept = refl;
  length_kept = omega (arith, body_bytes-short b);
  sequence_kept = refl;
  body_read = decode_body_lem b k;
}
