-- ===== src/Protocol.antt =====
-- include/ordbk/protocol/protocol.hpp and include/ordbk/protocol/messages.hpp: the message types,
-- the header and the bodies. A field of N bytes is a number below 256 ^ N.
use multi_instrument_orderbo.Prelude.{ℕ, ◌<◌, ◌^◌, ◌≡◌, if◌then◌else◌, ◌==◌, ℤ, IsI64}

abbrev pub protocol_version : ℕ
protocol_version = 1

abbrev pub header_size : ℕ
header_size = 8

abbrev pub max_body_size : ℕ
max_body_size = 4096

-- An enumeration over `uint8_t` also holds the bytes that name no enumerator.
pub data MsgType : Type 0 where
  logon logout heartbeat new_order cancel_order order_ack order_reject fill cancelled : MsgType
  other_msg : ℕ → MsgType

abbrev pub msg_byte : MsgType → ℕ
msg_byte logon = 1
msg_byte logout = 2
msg_byte heartbeat = 3
msg_byte new_order = 16
msg_byte cancel_order = 17
msg_byte order_ack = 32
msg_byte order_reject = 33
msg_byte fill = 34
msg_byte cancelled = 35
msg_byte (other_msg b) = b

-- `static_cast<MsgType>(b)`
abbrev pub msg_of_byte : ℕ → MsgType
msg_of_byte b =
    if b == 1
    then logon
    else if b == 2
    then logout
    else if b == 3
    then heartbeat
    else if b == 16
    then new_order
    else if b == 17
    then cancel_order
    else if b == 32
    then order_ack
    else if b == 33
    then order_reject
    else if b == 34
    then fill
    else if b == 35
    then cancelled
    else other_msg b

pub data RejectReason : Type 0 where
  unknown unknown_instrument invalid_quantity invalid_price invalid_tif : RejectReason
  not_logged_on duplicate_order_id insufficient_liquidity : RejectReason
  other_reason : ℕ → RejectReason

abbrev pub reason_byte : RejectReason → ℕ
reason_byte unknown = 0
reason_byte unknown_instrument = 1
reason_byte invalid_quantity = 2
reason_byte invalid_price = 3
reason_byte invalid_tif = 4
reason_byte not_logged_on = 5
reason_byte duplicate_order_id = 6
reason_byte insufficient_liquidity = 7
reason_byte (other_reason b) = b

-- `static_cast<RejectReason>(b)`
abbrev pub reason_of_byte : ℕ → RejectReason
reason_of_byte b =
    if b == 0
    then unknown
    else if b == 1
    then unknown_instrument
    else if b == 2
    then invalid_quantity
    else if b == 3
    then invalid_price
    else if b == 4
    then invalid_tif
    else if b == 5
    then not_logged_on
    else if b == 6
    then duplicate_order_id
    else if b == 7
    then insufficient_liquidity
    else other_reason b

pub record MessageHeader : Type 0 where
  pub version : ℕ
  pub msg_type : MsgType
  pub body_length : ℕ
  pub sequence : ℕ

pub record NewOrderMsg : Type 0 where
  pub client_order_id : ℕ
  pub instrument_id : ℕ
  pub side : ℕ
  pub order_type : ℕ
  pub tif : ℕ
  pub price : ℤ
  pub quantity : ℕ

pub record CancelOrderMsg : Type 0 where
  pub client_order_id : ℕ
  pub instrument_id : ℕ

pub record OrderAckMsg : Type 0 where
  pub client_order_id : ℕ
  pub server_order_id : ℕ

pub record OrderRejectMsg : Type 0 where
  pub client_order_id : ℕ
  pub reason : RejectReason

pub record FillMsg : Type 0 where
  pub client_order_id : ℕ
  pub server_order_id : ℕ
  pub price : ℤ
  pub quantity : ℕ
  pub post_status : ℕ

-- The variant. A message with a single field is that field.
pub data MessageBody : Type 0 where
  logon_msg : ℕ → MessageBody
  logout_msg heartbeat_msg : MessageBody
  new_order_msg : NewOrderMsg → MessageBody
  cancel_order_msg : CancelOrderMsg → MessageBody
  order_ack_msg : OrderAckMsg → MessageBody
  order_reject_msg : OrderRejectMsg → MessageBody
  fill_msg : FillMsg → MessageBody
  cancelled_msg : ℕ → MessageBody

pub record DecodedMessage : Type 0 where
  pub header : MessageHeader
  pub body : MessageBody

-- The values that each field's C++ type has.
abbrev pub IsReason : RejectReason → Type 0
IsReason r = (reason_of_byte (reason_byte r) ≡ r) × (reason_byte r < 256)

abbrev pub IsBody : MessageBody → Type 0
IsBody (logon_msg client_id) = client_id < 2 ^ 32
IsBody logout_msg = Unit {0}
IsBody heartbeat_msg = Unit {0}
IsBody (new_order_msg m) =
    (m.client_order_id < 2 ^ 64)
    × (m.instrument_id < 2 ^ 32)
    × (m.side < 256)
    × (m.order_type < 256)
    × (m.tif < 256)
    × IsI64 m.price
    × (m.quantity < 2 ^ 64)
IsBody (cancel_order_msg m) = (m.client_order_id < 2 ^ 64) × (m.instrument_id < 2 ^ 32)
IsBody (order_ack_msg m) = (m.client_order_id < 2 ^ 64) × (m.server_order_id < 2 ^ 64)
IsBody (order_reject_msg m) = (m.client_order_id < 2 ^ 64) × IsReason m.reason
IsBody (fill_msg m) =
    (m.client_order_id < 2 ^ 64)
    × (m.server_order_id < 2 ^ 64)
    × IsI64 m.price
    × (m.quantity < 2 ^ 64)
    × (m.post_status < 256)
IsBody (cancelled_msg client_order_id) = client_order_id < 2 ^ 64
