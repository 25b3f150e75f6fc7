-- ===== src/Codec/Tests.antt =====
-- The theorems on the codec at one message of each kind that the tests send.
use multi_instrument_orderbo.Prelude.{arith, negsuc}
use multi_instrument_orderbo.Protocol.{MessageBody, new_order_msg}
use multi_instrument_orderbo.Codec.RoundTrip.{Encoded, encode-Encoded}

abbrev message : MessageBody
message = new_order_msg (record {
  client_order_id = 900;
  instrument_id = 7;
  side = 1;
  order_type = 0;
  tif = 1;
  price = negsuc 4;
  quantity = 25;
})

encode-Encoded_example : Encoded 3 message
encode-Encoded_example = encode-Encoded 3 message (omega arith) (
  omega arith,
  omega arith,
  omega arith,
  omega arith,
  omega arith,
  (omega arith, omega arith),
  omega arith,
)
