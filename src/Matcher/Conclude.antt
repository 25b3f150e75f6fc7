-- ===== src/Matcher/Conclude.antt =====
-- The end of `Matcher::submit`, after `match`: where the taker and the book end.
use multi_instrument_orderbo.Prelude.{
  ℕ, ◌<◌, ◌≡◌, ap, true, false, ◌||◌, inl, inr, Bool-cases, arith, count,
}
use multi_instrument_orderbo.Types.{
  Order, OrderStatus, new, filled, cancelled, is_market, is_ioc, is_fully_filled,
}
use multi_instrument_orderbo.OrderBook.View.{View, Models, resting}
use multi_instrument_orderbo.OrderBook.Add.{enqueue, add_resting-Models, count-enqueue}
use multi_instrument_orderbo.OrderBook.Rekey.{SameKeys, Models-SameKeys}
use multi_instrument_orderbo.Pool.{Pool}
use multi_instrument_orderbo.Pool.Stack.{IsValid}
use multi_instrument_orderbo.Matcher.{State, order, set_status, filled_or, conclude}
use multi_instrument_orderbo.Matcher.Step.{Ready}

-- Where the taker ends: filled and out of the book; dropped with a rest that may not wait; or at
-- rest in the book, once.
pub data Outcome (taker : ℕ) (o : Order) (v : View) : Type 0 where
  complete :
      o.status ≡ filled
      → o.filled_qty ≡ o.initial_qty
      → count taker (resting v) ≡ 0
      → Outcome taker o v
  dropped :
      (is_market o.type || is_ioc o.tif) ≡ true
      → o.filled_qty < o.initial_qty
      → o.status ≡ filled_or cancelled o.filled_qty
      → count taker (resting v) ≡ 0
      → Outcome taker o v
  rests :
      (is_market o.type || is_ioc o.tif) ≡ false
      → o.filled_qty < o.initial_qty
      → o.status ≡ filled_or new o.filled_qty
      → count taker (resting v) ≡ 1
      → Outcome taker o v

-- The view after the end of `submit`: the same, or with the taker behind the others at its price.
pub data Lands (taker : ℕ) (w : State) (v : View) : View → Type 0 where
  stays : Lands taker w v v
  joins :
      (orders : ℕ → Order)
      → (orders taker).side ≡ (order w taker).side
      → (orders taker).limit_price ≡ (order w taker).limit_price
      → (order w taker).filled_qty < (order w taker).initial_qty
      → (is_market (order w taker).type || is_ioc (order w taker).tif) ≡ false
      → Lands taker w v (enqueue orders taker v)

-- The end of `submit`.
pub record Concluded (taker : ℕ) (w : State) (v : View) (w' : State) : Type 0 where
  pub view : View
  pub models : Models w'.pool.storage w'.links w'.book view
  pub outcome : Outcome taker (order w' taker) view
  pub lands : Lands taker w v view
  pub qty_kept : (order w' taker).filled_qty ≡ (order w taker).filled_qty
  pub initial_kept : (order w' taker).initial_qty ≡ (order w taker).initial_qty
  pub pool_valid : IsValid w'.pool
  pub lent : w'.pool.stack_top < w'.pool.capacity

set_status-SameKeys :
    (o : ℕ) (st : OrderStatus) (p : Pool) (a : ℕ)
    → SameKeys (p.storage a) ((set_status o st p).storage a)
set_status-SameKeys o st p a = ground (arith, ap p.storage {x = o} {y = a})

set_status-same :
    (o : ℕ) (st : OrderStatus) (p : Pool)
    → (set_status o st p).storage o ≡ record (p.storage o) { status = st }
set_status-same o st p = ground arith

module _ (taker : ℕ) (w : State) (v : View) (r : Ready taker w v) where
  pub Models-status :
      (st : OrderStatus) → Models (set_status taker st w.pool).storage w.links w.book v
  Models-status st =
      Models-SameKeys w.pool.storage _ (set_status-SameKeys taker st w.pool) w.links w.book v
        r.models

  not_full :
      is_fully_filled (order w taker) ≡ false
      → (order w taker).filled_qty < (order w taker).initial_qty
  unfolding is_fully_filled
  not_full e = ground (arith, r.taker_filled, e)

  lent : w.pool.stack_top < w.pool.capacity
  lent = omega (arith, r.room)

  conclude_full : is_fully_filled (order w taker) ≡ true → Concluded taker w v (conclude taker w)
  unfolding conclude is_fully_filled
  conclude_full e =
      rw (e, conclude)
        (record {
          view = v;
          models = Models-status filled;
          outcome = complete (ground (arith)) (ground (arith, e)) r.aside;
          lands = stays;
          qty_kept = ground arith;
          initial_kept = ground arith;
          pool_valid = record { sized = r.pool_valid.sized; within = r.pool_valid.within };
          lent = lent;
        })

  conclude_dropped :
      is_fully_filled (order w taker) ≡ false
      → (is_market (order w taker).type || is_ioc (order w taker).tif) ≡ true
      → Concluded taker w v (conclude taker w)
  unfolding conclude
  conclude_dropped e f =
      rw (e, f, conclude)
        (record {
          view = v;
          models = Models-status (filled_or cancelled (order w taker).filled_qty);
          outcome =
              dropped (ground (arith, f)) (ground (arith, not_full e)) (ground (arith)) r.aside;
          lands = stays;
          qty_kept = ground arith;
          initial_kept = ground arith;
          pool_valid = record { sized = r.pool_valid.sized; within = r.pool_valid.within };
          lent = lent;
        })

  abbrev rest_status : OrderStatus
  rest_status = filled_or new (order w taker).filled_qty

  abbrev rest_orders : ℕ → Order
  rest_orders = (set_status taker rest_status w.pool).storage

  conclude_rests :
      is_fully_filled (order w taker) ≡ false
      → (is_market (order w taker).type || is_ioc (order w taker).tif) ≡ false
      → Concluded taker w v (conclude taker w)
  unfolding conclude
  conclude_rests e f =
      rw (e, f, conclude)
        (record {
          view = enqueue rest_orders taker v;
          models =
              add_resting-Models rest_orders taker w.links w.book v (Models-status rest_status)
                r.aside;
          outcome =
              rests (ground (arith, f)) (ground (arith, not_full e)) (ground (arith))
                (ground (arith, count-enqueue rest_orders taker v taker, r.aside));
          lands =
              joins rest_orders (ground (arith)) (ground (arith)) (not_full e) (ground (arith, f));
          qty_kept = ground arith;
          initial_kept = ground arith;
          pool_valid = record { sized = r.pool_valid.sized; within = r.pool_valid.within };
          lent = lent;
        })

  pub concluded : Concluded taker w v (conclude taker w)
  concluded = elim (Bool-cases (is_fully_filled (order w taker))) [
    | inl e ↦ conclude_full e
    | inr e ↦ elim (Bool-cases (is_market (order w taker).type || is_ioc (order w taker).tif)) [
      | inl f ↦ conclude_dropped e f
      | inr f ↦ conclude_rests e f
    ]
  ]
