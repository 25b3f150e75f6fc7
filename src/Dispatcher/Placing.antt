-- ===== src/Dispatcher/Placing.antt =====
-- An order in a slot fresh from the pool, before `Engine::submit`.
use multi_instrument_orderbo.Prelude.{
  ℕ, ◌+◌, ◌≤◌, ◌<◌, ◌≡◌, ◌≢◌, sym, ap, subst, [], ◌∷◌, length, arith, count, u64_mod,
}
use multi_instrument_orderbo.Types.{Order}
use multi_instrument_orderbo.Level.{unlink}
use multi_instrument_orderbo.OrderBook.View.{View, Models, resting}
use multi_instrument_orderbo.OrderBook.Rekey.{SameKeys}
use multi_instrument_orderbo.OrderBook.Outside.{Models-Same}
use multi_instrument_orderbo.OrderBook.Frame.{SameLinks}
use multi_instrument_orderbo.Pool.{free}
use multi_instrument_orderbo.Pool.Stack.{IsValid, Acquired}
use multi_instrument_orderbo.Matcher.Step.{IsOpen, Ready}
use multi_instrument_orderbo.Engine.{Slot, Engine, view}
use multi_instrument_orderbo.Dispatcher.{place}

-- An instrument's book is in order, and no slot of its orders is free.
pub record IsTrading (sl : Slot) (e : Engine) (v : View) : Type 0 where
  pub models : Models e.pool.storage e.links sl.book v
  pub open_orders : (a : ℕ) → 0 < count a (resting v) → IsOpen (e.pool.storage a)
  pub pool_valid : IsValid e.pool
  pub apart : (a : ℕ) → count a (free e.pool) + count a (resting v) ≤ 1
  pub room : e.pool.stack_top + length (resting v) ≤ e.pool.capacity

-- The engine with the order written to a slot that the pool has just given out.
module _ (r : Order) (sl : Slot) (e : Engine) (v : View) (t : IsTrading sl e v)
    (g : Acquired e.pool) where
  abbrev pub lent_out : Engine
  lent_out = record e { pool = g.pool; links = unlink g.slot e.links }

  abbrev pub placed : Engine
  placed = place g.slot r lent_out

  aside : count g.slot (resting v) ≡ 0
  aside = omega (arith, t.apart g.slot, g.taken g.slot, here)
    where
      here : count g.slot (g.slot ∷ []) ≡ 1
      here = ground arith

  not_slot : (a : ℕ) → 0 < count a (resting v) → g.slot ≢ a
  not_slot a k same = absurd (omega (arith, k, ap (λ x. count x (resting v)) same, aside))

  pub storage_kept : (a : ℕ) → 0 < count a (resting v) → placed.pool.storage a ≡ e.pool.storage a
  storage_kept a k = ground (arith, not_slot a k, ap (λ f. f a) g.blank)

  pub links_kept : (a : ℕ) → g.slot ≢ a → SameLinks e.links placed.links a
  unfolding unlink
  links_kept a ne = (ground (arith, ne), ground (arith, ne))

  SameKeys-of_eq : (x y : Order) → y ≡ x → SameKeys x y
  SameKeys-of_eq x y h = (ap (λ z. z.id) h, ap (λ z. z.side) h, ap (λ z. z.limit_price) h)

  pub placed-order : placed.pool.storage g.slot ≡ r
  placed-order = ground arith

  pub placed-Ready : r.filled_qty ≡ 0 → r.initial_qty < u64_mod → Ready g.slot (view sl placed) v
  placed-Ready unfilled word = record {
    models =
        Models-Same e.pool.storage placed.pool.storage e.links placed.links sl.book v
          (λ a k. (links_kept a (not_slot a k), SameKeys-of_eq _ _ (storage_kept a k))) t.models;
    open_orders = λ a k. subst IsOpen (sym (storage_kept a k)) (t.open_orders a k);
    aside = aside;
    taker_filled =
        subst (λ x. x.filled_qty ≤ x.initial_qty) (sym placed-order) (omega (arith, unfilled));
    taker_word = subst (λ x. x.initial_qty < u64_mod) (sym placed-order) word;
    pool_valid = record { sized = g.valid.sized; within = g.valid.within };
    room = omega (arith, g.top, g.capacity_kept, t.room);
  }
