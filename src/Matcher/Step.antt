-- ===== src/Matcher/Step.antt =====
-- One round of `Matcher::match`: the invariant, the maker and the two writes of the fill.
use multi_instrument_orderbo.Prelude.{
  ℕ, ◌+◌, ◌≤◌, ◌<◌, ◌≡◌, ◌≢◌, ap, ◌∙◌, subst, refl, true, false, none, some, List, [], ◌∷◌, ℤ,
  u64_mod, sub64, add64, count, length, ◌⊎◌, some-eq, arith,
}
use native.Mathlib.Decide.{ℕ_discrete}
use multi_instrument_orderbo.Types.{Order, Side, opposite, remaining, qty_min, add_qty}
use multi_instrument_orderbo.OrderBook.{peek_top}
use multi_instrument_orderbo.OrderBook.View.{Queues, View, Models, Placed, with_queues, resting}
use multi_instrument_orderbo.OrderBook.Pop.{first_order, drop_first, peek_top_lem}
use multi_instrument_orderbo.HashMap.{delete}
use multi_instrument_orderbo.OrderBook.Frame.{SameLinks}
use multi_instrument_orderbo.OrderBook.Rekey.{SameKeys}
use multi_instrument_orderbo.Pool.{free}
use multi_instrument_orderbo.Pool.Stack.{IsValid}
use multi_instrument_orderbo.Matcher.{
  State, order, refuses, next_maker, fill_of, fill_both, settle_maker,
}

-- Less than the whole quantity is filled, which a word holds.
pub record IsOpen (o : Order) : Type 0 where
  pub unfilled : o.filled_qty < o.initial_qty
  pub word : o.initial_qty < u64_mod

-- What holds before each round: the book models the view, its orders are open, the taker is no
-- part of it, and the pool has lent out the taker and every resting order.
pub record Ready (taker : ℕ) (w : State) (v : View) : Type 0 where
  pub models : Models w.pool.storage w.links w.book v
  pub open_orders : (a : ℕ) → 0 < count a (resting v) → IsOpen (order w a)
  pub aside : count taker (resting v) ≡ 0
  pub taker_filled : (order w taker).filled_qty ≤ (order w taker).initial_qty
  pub taker_word : (order w taker).initial_qty < u64_mod
  pub pool_valid : IsValid w.pool
  pub room : w.pool.stack_top + length (resting v) < w.pool.capacity

pub first_order-some :
    (q : Queues) (m : ℕ)
    → first_order q ≡ some m
    → (p : ℤ) × (xs : List ℕ) × (rest : Queues) × (q ≡ (p, m ∷ xs) ∷ rest)
first_order-some [] m e = cc
first_order-some ((p, []) ∷ q) m e = cc
first_order-some ((p, x ∷ xs) ∷ q) m e = (p, xs, q, ap (λ y. (p, y ∷ xs) ∷ q) (some-eq e))

-- What `next_maker` has checked.
pub record IsNext (taker maker : ℕ) (w : State) : Type 0 where
  pub wanted : 0 < remaining (order w taker)
  pub on_top : peek_top (opposite (order w taker).side) w.book ≡ some maker
  pub accepted : refuses (order w taker) (order w maker).limit_price ≡ false

pub next_maker-IsNext :
    (taker maker : ℕ) (w : State) → next_maker taker w ≡ some maker → IsNext taker maker w
unfolding next_maker
next_maker-IsNext taker maker w e = ground arith

-- Why `next_maker` finds none: the taker is full, the other side is empty, or its best price is one
-- that the taker refuses.
pub data Stopped (taker : ℕ) (w : State) (v : View) : Type 0 where
  full : remaining (order w taker) ≡ 0 → Stopped taker w v
  no_maker : v (opposite (order w taker).side) ≡ [] → Stopped taker w v
  too_dear :
      (p : ℤ) (xs : List ℕ) (q : Queues)
      → v (opposite (order w taker).side) ≡ (p, xs) ∷ q
      → refuses (order w taker) p ≡ true
      → Stopped taker w v

next_maker-on_top :
    (taker : ℕ) (w : State) (v : View) (p : ℤ) (x : ℕ) (xs : List ℕ) (q : Queues)
    → Ready taker w v
    → next_maker taker w ≡ none
    → v (opposite (order w taker).side) ≡ (p, x ∷ xs) ∷ q
    → 0 < remaining (order w taker)
    → refuses (order w taker) p ≡ true
unfolding next_maker
next_maker-on_top taker w v p x xs q r e top more =
    let opp = opposite (order w taker).side in
    let shown = peek_top_lem w.pool.storage w.links w.book v opp r.models ∙ ap first_order top in
    let place = subst (Placed w.pool.storage opp) top (r.models.placed opp) in
    ground (arith, shown, place.1.0.1, e, more)

pub next_maker-Stopped :
    (taker : ℕ) (w : State) (v : View)
    → Ready taker w v
    → next_maker taker w ≡ none
    → Stopped taker w v
next_maker-Stopped taker w v r e = by_queues (v (opposite (order w taker).side)) refl
  where
    opp : Side
    opp = opposite (order w taker).side

    by_queues : (q : Queues) → v opp ≡ q → Stopped taker w v
    by_queues [] top = no_maker top
    by_queues ((p, []) ∷ q) top =
        absurd ((subst (Placed w.pool.storage opp) top (r.models.placed opp)).0 refl)
    by_queues ((p, x ∷ xs) ∷ q) top = elim (ℕ_discrete (remaining (order w taker)) 0) [
      | yes z ↦ full z
      | no nz ↦
          let more : 0 < remaining (order w taker) = omega (arith, nz) in
          too_dear p (x ∷ xs) q top (next_maker-on_top taker w v p x xs q r e top more)
    ]

-- A round that ends with the maker full: the maker has left the top of its side for the pool, and
-- the orders that still rest are as they were.
pub record Closed (taker maker : ℕ) (w after : State) (v view : View) : Type 0 where
  pub price : ℤ
  pub queue : List ℕ
  pub others : Queues
  pub top : v (opposite (order w taker).side) ≡ (price, maker ∷ queue) ∷ others
  pub view_after :
      view ≡ with_queues (opposite (order w taker).side) (drop_first price queue others) v
  pub maker_closed : fill_of taker maker w ≡ remaining (order w maker)
  pub orders_kept : (a : ℕ) → 0 < count a (resting view) → order after a ≡ order w a
  pub fewer : length (resting view) < length (resting v)
  pub left : (a : ℕ) → count a (resting view) + count a (maker ∷ []) ≡ count a (resting v)
  pub unindexed : after.book.order_map ≡ delete (order w maker).id w.book.order_map

-- The two states have the same links and record of a slot.
abbrev pub Untouched : State → State → ℕ → Type 0
Untouched w after a = SameLinks w.links after.links a × (order after a ≡ order w a)

-- A completed round.
pub record Round (taker maker : ℕ) (w : State) (v : View) : Type 0 where
  pub after : State
  pub view : View
  pub runs : settle_maker taker maker (fill_both taker maker w) ≡ some after
  pub ready : Ready taker after view
  pub slots_kept :
      (a : ℕ)
      → count a (free after.pool) + count a (resting view)
        ≡ count a (free w.pool) + count a (resting v)
  pub top_kept :
      after.pool.stack_top + length (resting view) ≡ w.pool.stack_top + length (resting v)
  pub capacity_kept : after.pool.capacity ≡ w.pool.capacity
  pub keys_kept : (a : ℕ) → SameKeys (order w a) (order after a)
  pub outside : (a : ℕ) → a ≢ taker → count a (resting v) ≡ 0 → Untouched w after a
  pub some_qty : 0 < fill_of taker maker w
  pub taker_after :
      order after taker
      ≡ record (order w taker) { filled_qty = (order w taker).filled_qty + fill_of taker maker w }
  pub progress :
      (((order w taker).filled_qty + fill_of taker maker w ≡ (order w taker).initial_qty)
        × (view ≡ v)
        × (after.book ≡ w.book))
      ⊎ Closed taker maker w after v view

-- Both records of a trade after the fill.
module _ (taker maker : ℕ) (w : State) (ne : taker ≢ maker) where
  pub fill_both-taker : order (fill_both taker maker w) taker ≡ record (order w taker) {
    filled_qty = add_qty (order w taker).filled_qty (fill_of taker maker w);
  }
  unfolding fill_both
  fill_both-taker = ground (arith, ne)

  pub fill_both-maker : order (fill_both taker maker w) maker ≡ record (order w maker) {
    filled_qty = add_qty (order w maker).filled_qty (fill_of taker maker w);
  }
  unfolding fill_both
  fill_both-maker = ground (arith, ne)

pub fill_both-other :
    (taker maker : ℕ) (w : State) (a : ℕ)
    → a ≢ taker
    → a ≢ maker
    → order (fill_both taker maker w) a ≡ order w a
unfolding fill_both
fill_both-other taker maker w a ne ne' = ground (arith, ne, ne')

pub fill_both-SameKeys :
    (taker maker : ℕ) (w : State) (a : ℕ) → SameKeys (order w a) (order (fill_both taker maker w) a)
unfolding fill_both
fill_both-SameKeys taker maker w a = ground arith

-- The quantities of a round: something is traded, neither order is overfilled, and one is filled.
pub record Fills (t m : Order) (fill : ℕ) : Type 0 where
  pub some_qty : 0 < fill
  pub taker_sum : add_qty t.filled_qty fill ≡ t.filled_qty + fill
  pub maker_sum : add_qty m.filled_qty fill ≡ m.filled_qty + fill
  pub taker_room : t.filled_qty + fill ≤ t.initial_qty
  pub maker_room : m.filled_qty + fill ≤ m.initial_qty
  pub one_filled : (t.filled_qty + fill ≡ t.initial_qty) ⊎ (m.filled_qty + fill ≡ m.initial_qty)

pub Fills-of :
    (t m : Order)
    → 0 < remaining t
    → t.filled_qty ≤ t.initial_qty
    → t.initial_qty < u64_mod
    → IsOpen m
    → Fills t m (qty_min (remaining t) (remaining m))
unfolding remaining qty_min sub64 add64
Fills-of t m h k l o = ground arith
