-- ===== src/Dispatcher.antt =====
-- `Dispatcher` of include/ordbk/gateway/dispatcher.hpp and src/gateway/dispatcher.cpp: the messages
-- of a session as calls of the engine. A handler takes the session and the engine and gives both
-- back; `none` is a fault of a callee. The clock readings of one message are an argument.
pub mod Handlers
pub mod Guards
pub mod Talk
pub mod Emitted
pub mod Output
pub mod Placing
pub mod Orders
pub mod Handled
pub mod Market
pub mod NewOrders
pub mod Opening
pub mod Faults
pub mod Rejects
mod Tests
use multi_instrument_orderbo.Prelude.{
  ℕ, zero, suc, Bool, true, false, ◌&&◌, ◌||◌, ◌==◌, if◌then◌else◌, Option, none, some, List, [],
  ◌∷◌, ◌>>=◌, ℤ, pos, leb_ℤ, to_i64,
}
use multi_instrument_orderbo.Types.{
  Order, Side, buy, sell, OrderType, limit, market, other_type, TimeInForce, gtc, ioc, fok, day,
  other_tif, OrderStatus, new, partially_filled, filled, cancelled, rejected, Trade, zero_qty,
  is_terminal,
}
use multi_instrument_orderbo.Level.{unlink}
use multi_instrument_orderbo.Protocol.{
  MessageBody, logon_msg, logout_msg, heartbeat_msg, new_order_msg, cancel_order_msg, order_ack_msg,
  order_reject_msg, fill_msg, cancelled_msg, NewOrderMsg, CancelOrderMsg, RejectReason, unknown,
  unknown_instrument, invalid_quantity, invalid_price, invalid_tif, not_logged_on,
  insufficient_liquidity, OrderRejectMsg, OrderAckMsg, FillMsg,
}
use multi_instrument_orderbo.Session
use multi_instrument_orderbo.Session.{
  Session, SessionState, active, closing, emit, next_inbound, set_state, set_client,
}
use multi_instrument_orderbo.Matcher.{Clock, set_order}
use multi_instrument_orderbo.Engine.{Engine, acquire_order, release_order, submit, cancel, book}

-- The casts of a byte to an enumeration.
abbrev pub side_of_byte : ℕ → Side
side_of_byte b = if b == 0 then buy else sell

abbrev pub type_of_byte : ℕ → OrderType
type_of_byte b = if b == 0 then limit else if b == 1 then market else other_type b

abbrev pub tif_of_byte : ℕ → TimeInForce
tif_of_byte b =
    if b == 0
    then gtc
    else if b == 1
    then ioc
    else if b == 2
    then fok
    else if b == 3
    then day
    else other_tif b

-- The cast of a status to a byte.
abbrev pub status_byte : OrderStatus → ℕ
status_byte new = 0
status_byte partially_filled = 1
status_byte filled = 2
status_byte cancelled = 3
status_byte rejected = 4

abbrev pub is_rejected : OrderStatus → Bool
is_rejected new = false
is_rejected partially_filled = false
is_rejected filled = false
is_rejected cancelled = false
is_rejected rejected = true

abbrev pub is_active : SessionState → Bool
is_active st = elim st [ Session.not_logged_on ↦ false | active ↦ true | closing ↦ false ]

abbrev pub is_new_session : SessionState → Bool
is_new_session st = elim st [ Session.not_logged_on ↦ true | active ↦ false | closing ↦ false ]

abbrev pub has_book : ℕ → Engine → Bool
has_book id e = elim (book id e) [ none ↦ false | some p ↦ true ]

unfoldable pub classify : OrderStatus → NewOrderMsg → Engine → RejectReason
unfolding book
classify st m e =
    if is_rejected st
    then if has_book m.instrument_id e
      then if m.quantity == 0
        then invalid_quantity
        else if m.order_type == 0 && leb_ℤ m.price (pos 0)
        then invalid_price
        else if m.order_type == 1 && (m.tif == 0 || m.tif == 3)
        then invalid_tif
        else if m.tif == 2
        then insufficient_liquidity
        else unknown
      else unknown_instrument
    else unknown

abbrev pub reject : ℕ → RejectReason → MessageBody
reject client_order_id reason =
    order_reject_msg (record { client_order_id = client_order_id; reason = reason })

unfoldable pub handle_logon : ℕ → Session → Session
unfolding emit
handle_logon client_id s =
    if is_new_session s.state
    then emit (logon_msg client_id) (set_state active (set_client client_id s))
    else s

unfoldable pub handle_logout : Session → Session
unfolding emit
handle_logout s = emit logout_msg (set_state closing s)

unfoldable pub handle_heartbeat : Session → Session
unfolding emit
handle_heartbeat s = emit heartbeat_msg s

-- The readings of `now_ns` for one message: at its arrival, and those of the matcher.
pub record Readings : Type 0 where
  pub arrived : ℕ
  pub clock : Clock

-- `Order{...}`
abbrev pub order_of : NewOrderMsg → Session → Readings → Order
order_of m s c = record {
  id = m.client_order_id;
  limit_price = m.price;
  initial_qty = m.quantity;
  filled_qty = zero_qty;
  instrument = m.instrument_id;
  client = s.client_id;
  status = new;
  side = side_of_byte m.side;
  type = type_of_byte m.order_type;
  tif = tif_of_byte m.tif;
  ts = pos 0;
  enqueue_ns = to_i64 c.arrived;
  match_complete_ns = pos 0;
}

abbrev pub place : ℕ → Order → Engine → Engine
place o r e = record e { pool = set_order o r e.pool; links = unlink o e.links }

abbrev pub fill_of : NewOrderMsg → OrderStatus → Trade → MessageBody
fill_of m st t = fill_msg (record {
  client_order_id = m.client_order_id;
  server_order_id = m.client_order_id;
  price = t.price;
  quantity = t.quantity;
  post_status = status_byte st;
})

unfoldable pub emit_fills : NewOrderMsg → OrderStatus → List Trade → Session → Session
unfolding emit
emit_fills m st [] s = s
emit_fills m st (t ∷ ts) s = emit_fills m st ts (emit (fill_of m st t) s)

-- The answer to an order that the engine has dealt with.
unfoldable pub report : NewOrderMsg → OrderStatus → List Trade → Engine → Session → Session
unfolding emit emit_fills classify
report m st trades e s =
    if is_rejected st
    then emit (reject m.client_order_id (classify rejected m e)) s
    else emit_fills m st trades (
        emit
          (order_ack_msg
            (record { client_order_id = m.client_order_id; server_order_id = m.client_order_id }))
          s)

unfoldable pub release_terminal : ℕ → Engine → Option Engine
release_terminal o e = if is_terminal (e.pool.storage o) then release_order o e else some e

-- The handler once it has a slot for the order.
unfoldable pub place_order :
    ℕ → Readings → NewOrderMsg → ℕ → Session → Engine → Option (Session × Engine)
unfolding submit report release_terminal
place_order fuel c m o s e = do
  (e', trades) ← submit fuel c.clock o (place o (order_of m s c) e)
  e'' ← release_terminal o e'
  some (report m (e'.pool.storage o).status trades e' s, e'')

unfoldable pub handle_new_order :
    ℕ → Readings → NewOrderMsg → Session → Engine → Option (Session × Engine)
unfolding emit place_order
handle_new_order fuel c m s e =
    if is_active s.state
    then (do
      (e', got) ← acquire_order e
      elim got [
        | none ↦ some (emit (reject m.client_order_id unknown) s, e')
        | some o ↦ place_order fuel c m o s e'
      ])
    else some (emit (reject m.client_order_id not_logged_on) s, e)

unfoldable pub handle_cancel : CancelOrderMsg → Session → Engine → Option (Session × Engine)
unfolding emit cancel
handle_cancel m s e =
    if is_active s.state
    then (do
      (e', ok) ← cancel m.instrument_id m.client_order_id e
      some (
        emit (if ok then cancelled_msg m.client_order_id else reject m.client_order_id unknown) s,
        e',
      ))
    else some (emit (reject m.client_order_id not_logged_on) s, e)

-- The visitor of `pump`; the messages of a server are ignored.
unfoldable pub dispatch : ℕ → Readings → MessageBody → Session → Engine → Option (Session × Engine)
unfolding handle_logon handle_logout handle_heartbeat handle_new_order handle_cancel
dispatch fuel c (logon_msg client_id) s e = some (handle_logon client_id s, e)
dispatch fuel c logout_msg s e = some (handle_logout s, e)
dispatch fuel c heartbeat_msg s e = some (handle_heartbeat s, e)
dispatch fuel c (new_order_msg m) s e = handle_new_order fuel c m s e
dispatch fuel c (cancel_order_msg m) s e = handle_cancel m s e
dispatch fuel c (order_ack_msg m) s e = some (s, e)
dispatch fuel c (order_reject_msg m) s e = some (s, e)
dispatch fuel c (fill_msg m) s e = some (s, e)
dispatch fuel c (cancelled_msg id) s e = some (s, e)

-- The loop, with the readings of each message to come. The matcher's fuel is the pool's capacity
-- and one. Here `none` is also the end of the loop's own fuel.
unfoldable pub pump : ℕ → (ℕ → Readings) → Session → Engine → Option (Session × Engine)
unfolding next_inbound dispatch
pump zero clock s e = none
pump (suc fuel) clock s e =
    let (s1, got) = next_inbound s in
    elim got [
      | none ↦ some (s1, e)
      | some msg ↦ do
        (s2, e2) ← dispatch (suc e.pool.capacity) (clock 0) msg.body s1 e
        pump fuel (λ i. clock (suc i)) s2 e2
    ]
