-- ===== src/Types.antt =====
-- include/ordbk/core/types.hpp and include/ordbk/orderbook/order.hpp, trade.hpp: the strong types
-- and the order record. Ids and quantities are unsigned words, prices and timestamps are `int64_t`
-- ticks. The two links of an order that make up a price level stand in Level.
use multi_instrument_orderbo.Prelude.{
  ℕ, Bool, true, false, ltb, ◌==◌, if◌then◌else◌, ℤ, pos, add64, sub64,
}

abbrev pub zero_qty : ℕ
zero_qty = 0

-- `operator+` and `operator-` on `Quantity`.
abbrev pub add_qty : ℕ → ℕ → ℕ
add_qty = add64

abbrev pub sub_qty : ℕ → ℕ → ℕ
sub_qty = sub64

unfoldable pub qty_min : ℕ → ℕ → ℕ
qty_min a b = if ltb a b then a else b

-- The code compares a side with `Buy` only, so every other byte acts as `sell`.
pub data Side : Type 0 where
  buy sell : Side

-- An enumeration over `uint8_t` also holds the bytes that name no enumerator.
pub data OrderType : Type 0 where
  limit market : OrderType
  other_type : ℕ → OrderType

pub data TimeInForce : Type 0 where
  gtc ioc fok day : TimeInForce
  other_tif : ℕ → TimeInForce

pub data OrderStatus : Type 0 where
  new partially_filled filled cancelled rejected : OrderStatus

abbrev pub opposite : Side → Side
opposite buy = sell
opposite sell = buy

abbrev pub is_limit : OrderType → Bool
is_limit limit = true
is_limit market = false
is_limit (other_type b) = false

abbrev pub is_market : OrderType → Bool
is_market limit = false
is_market market = true
is_market (other_type b) = false

abbrev pub is_ioc : TimeInForce → Bool
is_ioc ioc = true
is_ioc gtc = false
is_ioc fok = false
is_ioc day = false
is_ioc (other_tif b) = false

abbrev pub is_fok : TimeInForce → Bool
is_fok fok = true
is_fok gtc = false
is_fok ioc = false
is_fok day = false
is_fok (other_tif b) = false

-- `tif == GTC || tif == Day`
abbrev pub is_resting_tif : TimeInForce → Bool
is_resting_tif gtc = true
is_resting_tif day = true
is_resting_tif ioc = false
is_resting_tif fok = false
is_resting_tif (other_tif b) = false

-- `Order`, less `level_prev` and `level_next`.
pub record Order : Type 0 where
  pub id : ℕ
  pub limit_price : ℤ
  pub initial_qty : ℕ
  pub filled_qty : ℕ
  pub instrument : ℕ
  pub client : ℕ
  pub status : OrderStatus
  pub side : Side
  pub type : OrderType
  pub tif : TimeInForce
  pub ts : ℤ
  pub enqueue_ns : ℤ
  pub match_complete_ns : ℤ

-- `Order{}`
abbrev pub blank_order : Order
blank_order = record {
  id = 0;
  limit_price = pos 0;
  initial_qty = 0;
  filled_qty = zero_qty;
  instrument = 0;
  client = 0;
  status = new;
  side = buy;
  type = limit;
  tif = gtc;
  ts = pos 0;
  enqueue_ns = pos 0;
  match_complete_ns = pos 0;
}

unfoldable pub remaining : Order → ℕ
remaining o = sub_qty o.initial_qty o.filled_qty

unfoldable pub is_fully_filled : Order → Bool
is_fully_filled o = o.filled_qty == o.initial_qty

abbrev pub is_terminal_status : OrderStatus → Bool
is_terminal_status new = false
is_terminal_status partially_filled = false
is_terminal_status filled = true
is_terminal_status cancelled = true
is_terminal_status rejected = true

unfoldable pub is_terminal : Order → Bool
is_terminal o = is_terminal_status o.status

pub record Trade : Type 0 where
  pub maker_id : ℕ
  pub taker_id : ℕ
  pub instrument : ℕ
  pub price : ℤ
  pub quantity : ℕ
  pub ts : ℤ
