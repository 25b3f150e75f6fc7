-- ===== src/OrderBook/Query.antt =====
-- What `OrderBook` answers, in terms of its view: `best_bid` and `best_ask`, `bid_qty_at` and
-- `ask_qty_at`, `find`.
use multi_instrument_orderbo.Prelude.{
  ℕ, ◌+◌, ◌≤◌, ◌<◌, ◌≡◌, refl, ap, subst, ◌∙◌, Option, none, some, List, [], ◌∷◌, length, ℤ, arith,
  add64-exact, u64_mod, Option-cases, inl, inr,
}
use multi_instrument_orderbo.Types.{Side, remaining, zero_qty}
use multi_instrument_orderbo.Level.{Links}
use multi_instrument_orderbo.Level.Chain.{Holds, walk-IsChain}
use multi_instrument_orderbo.OrderedMap.{find}
use multi_instrument_orderbo.OrderedMap.Related.{Related, find-Found}
use multi_instrument_orderbo.HashMap.{lookup}
use multi_instrument_orderbo.OrderBook.{
  Orders, OrderBook, Levels, levels, price_order, best, first_price, sum_remaining, qty_at,
  find_order,
}
use multi_instrument_orderbo.OrderBook.View.{Queues, View, Models, Located}

abbrev pub best_price : Queues → Option ℤ
best_price [] = none
best_price ((p, xs) ∷ q) = some p

-- `best_bid` and `best_ask` are the price of the first queue of the side, and nothing where the side
-- has none.
pub best_lem :
    (orders : Orders) (lk : Links) (b : OrderBook) (v : View) (s : Side)
    → Models orders lk b v
    → best s b ≡ best_price (v s)
unfolding best
best_lem orders lk b v s h = top (levels s b) (v s) (h.linked s)
  where
    top : (m : Levels) (q : Queues) → Related (Holds lk) m q → first_price m ≡ best_price q
    top [] [] r = refl
    top [] (_ ∷ q) r = absurd r
    top (_ ∷ m) [] r = absurd r
    top ((j, l) ∷ m) ((p, xs) ∷ q) r = ap some r.0

-- The quantity that a queue wants, without a bound.
abbrev pub wanted : Orders → List ℕ → ℕ
wanted orders [] = 0
wanted orders (o ∷ os) = remaining (orders o) + wanted orders os

sum_remaining-wanted :
    (orders : Orders) (os : List ℕ) (n : ℕ)
    → n + wanted orders os < u64_mod
    → sum_remaining orders os n ≡ n + wanted orders os
unfolding sum_remaining
sum_remaining-wanted orders [] n h = omega arith
sum_remaining-wanted orders (o ∷ os) n h =
    let sum = add64-exact n (remaining (orders o)) (omega (arith, h)) in
    ap (sum_remaining orders os) sum
    ∙ sum_remaining-wanted orders os (n + remaining (orders o)) (omega (arith, h))
    ∙ omega arith

-- `bid_qty_at` and `ask_qty_at` add up what the orders of the queue at the price still want, while
-- the sum fits a word.
qty_at-wanted :
    (fuel : ℕ) (orders : Orders) (lk : Links) (b : OrderBook) (v : View) (s : Side) (p : ℤ)
    (queue : List ℕ)
    → Models orders lk b v
    → find (price_order s) p (v s) ≡ some queue
    → length queue ≤ fuel
    → wanted orders queue < u64_mod
    → qty_at fuel s p orders lk b ≡ wanted orders queue
unfolding qty_at
qty_at-wanted fuel orders lk b v s p queue h e enough fits =
    let f = find-Found (price_order s) (Holds lk) p (levels s b) (v s) queue (h.linked s) e in
    rw (f.found, qty_at)
      (ap (λ os. sum_remaining orders os zero_qty)
          (walk-IsChain lk fuel queue none f.value.head enough f.holds.chain)
        ∙ sum_remaining-wanted orders queue 0 (omega (arith, fits))
        ∙ omega arith)

-- What `find` returns rests in the book under that id.
pub find_order-Located :
    (id o : ℕ) (orders : Orders) (lk : Links) (b : OrderBook) (v : View)
    → Models orders lk b v
    → find_order id b ≡ some o
    → ((orders o).id ≡ id) × ((s : Side) × (p : ℤ) × Located v s p o)
unfolding find_order
find_order-Located id o orders lk b v h e = elim (Option-cases (lookup id b.order_map)) [
  | inl absent ↦ absurd (ground (arith, e, absent))
  | inr (loc, entry) ↦
      let (same_id, place) = h.listed id loc entry in
      let same : loc.order ≡ o = ground (arith, e, entry) in
      subst (λ i. ((orders i).id ≡ id) × ((s : Side) × (p : ℤ) × Located v s p i)) same
        (same_id, (loc.side, loc.price, place))
]
