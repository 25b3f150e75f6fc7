-- ===== src/Matcher/Liquidity.antt =====
-- `Matcher::can_fully_fill` in terms of the view: what it adds up, and what it answers.
use multi_instrument_orderbo.Prelude.{
  ℕ, ◌+◌, ◌≤◌, ◌<◌, ◌≡◌, refl, ap, ◌∙◌, true, false, if◌then◌else◌, ◌==◌, leb, none, some, List, [],
  ◌∷◌, length, length-append, u64_mod, ℤ, sub64, inl, inr, ◌⊎◌, Bool-cases, arith,
}
use multi_instrument_orderbo.Types.{Order, Side, buy, sell, opposite, remaining, sub_qty}
use multi_instrument_orderbo.Level.{Links, PriceLevel, walk}
use multi_instrument_orderbo.Level.Chain.{Holds, walk-IsChain}
use multi_instrument_orderbo.OrderedMap.Related.{Related}
use multi_instrument_orderbo.OrderBook.{Orders, Levels, levels}
use multi_instrument_orderbo.OrderBook.View.{Queues, View, slots, resting}
use multi_instrument_orderbo.OrderBook.Query.{wanted}
use multi_instrument_orderbo.Matcher.{
  State, order, refuses, consume, can_fill_levels, can_fully_fill,
}
use multi_instrument_orderbo.Matcher.Step.{Ready}

-- What the queues up to the first price that the taker refuses still want together, without a
-- bound.
abbrev pub available : Orders → Order → Queues → ℕ
available orders taker [] = 0
available orders taker ((p, xs) ∷ q) =
    if refuses taker p then 0 else wanted orders xs + available orders taker q

-- A level ends the walk when it offers enough, and otherwise is taken off the need.
consume_lem :
    (orders : Orders) (os : List ℕ) (need : ℕ)
    → need < u64_mod
    → ((consume orders os need ≡ none) × (need ≤ wanted orders os))
      ⊎ ((n : ℕ) × (consume orders os need ≡ some n) × (n + wanted orders os ≡ need))
unfolding consume sub64
consume_lem orders [] need h = inr (need, refl, omega arith)
consume_lem orders (o ∷ os) need h = elim (Bool-cases (leb need (remaining (orders o)))) [
  | inl e ↦ inl (rw (e, consume) refl, ground (arith, e))
  | inr e ↦
      let less : sub64 need (remaining (orders o)) + remaining (orders o) ≡ need =
        ground (arith, e, h) in
      elim (consume_lem orders os (sub_qty need (remaining (orders o))) (omega (arith, less, h))) [
        | inl (stops, enough) ↦ inl (rw (e, consume) stops, omega (arith, enough, less))
        | inr (n, goes, sum) ↦ inr (n, rw (e, consume) goes, omega (arith, sum, less))
      ]
]

-- What the walk answers at a level.
module _ (fuel : ℕ) (orders : Orders) (lk : Links) (taker : Order) (need : ℕ) where
  walk_ends :
      (p : ℤ) (l : PriceLevel) (m : Levels)
      → refuses taker p ≡ true
      → can_fill_levels fuel orders lk taker ((p, l) ∷ m) need ≡ (need == 0)
  unfolding can_fill_levels
  walk_ends p l m e = rw e refl

  walk_enough :
      (p : ℤ) (l : PriceLevel) (m : Levels)
      → refuses taker p ≡ false
      → consume orders (walk fuel lk l.head) need ≡ none
      → can_fill_levels fuel orders lk taker ((p, l) ∷ m) need ≡ true
  unfolding can_fill_levels
  walk_enough p l m e f = rw (e, f) refl

  walk_on :
      (p : ℤ) (l : PriceLevel) (m : Levels) (n : ℕ)
      → refuses taker p ≡ false
      → consume orders (walk fuel lk l.head) need ≡ some n
      → can_fill_levels fuel orders lk taker ((p, l) ∷ m) need
        ≡ can_fill_levels fuel orders lk taker m n
  unfolding can_fill_levels
  walk_on p l m n e f = rw (e, f) refl

can_fill_levels-available :
    (fuel : ℕ) (orders : Orders) (lk : Links) (taker : Order) (m : Levels) (q : Queues) (need : ℕ)
    → Related (Holds lk) m q
    → length (slots q) ≤ fuel
    → need < u64_mod
    → can_fill_levels fuel orders lk taker m need ≡ leb need (available orders taker q)
unfolding can_fill_levels
can_fill_levels-available fuel orders lk taker [] [] need r enough h = ground arith
can_fill_levels-available fuel orders lk taker [] (_ ∷ q) need r enough h = absurd r
can_fill_levels-available fuel orders lk taker (_ ∷ m) [] need r enough h = absurd r
can_fill_levels-available fuel orders lk taker ((j, l) ∷ m) ((p, xs) ∷ q) need r enough h =
    elim (Bool-cases (refuses taker p)) [
      | inl e ↦
          walk_ends fuel orders lk taker need j l m (ap (refuses taker) r.0 ∙ e) ∙ ground (arith, e)
      | inr e ↦
          let accepted = ap (refuses taker) r.0 ∙ e in
          let sum = length-append xs (slots q) in
          let visits =
            ap (λ os. consume orders os need)
              (walk-IsChain lk fuel xs none l.head (omega (arith, sum, enough)) r.1.chain) in
          elim (consume_lem orders xs need h) [
            | inl (stops, fits) ↦
                walk_enough fuel orders lk taker need j l m accepted (visits ∙ stops)
                ∙ ground (arith, e, fits)
            | inr (n, goes, left) ↦
                walk_on fuel orders lk taker need j l m n accepted (visits ∙ goes)
                ∙ can_fill_levels-available fuel orders lk taker m q n r.2
                    (omega (arith, sum, enough)) (omega (arith, left, h))
                ∙ ground (arith, e, left)
          ]
    ]

remaining_word :
    (o : Order) → o.filled_qty ≤ o.initial_qty → o.initial_qty < u64_mod → remaining o < u64_mod
unfolding remaining sub64
remaining_word o h k = ground arith

-- In a state that is `Ready`, `can_fully_fill` answers whether the orders up to the first price that
-- the taker refuses want at least what the taker does.
pub can_fully_fill-available :
    (taker : ℕ) (w : State) (v : View)
    → Ready taker w v
    → can_fully_fill w (order w taker)
      ≡ leb
          (remaining (order w taker))
          (available w.pool.storage (order w taker) (v (opposite (order w taker).side)))
unfolding can_fully_fill
can_fully_fill-available taker w v r =
    let opp = opposite (order w taker).side in
    can_fill_levels-available w.pool.capacity w.pool.storage w.links (order w taker)
      (levels opp w.book) (v opp) _ (r.models.linked opp) (omega (arith, length-side opp v, r.room))
      (remaining_word (order w taker) r.taker_filled r.taker_word)
  where
    length-side : (s : Side) (v : View) → length (slots (v s)) ≤ length (resting v)
    length-side buy v = omega (arith, length-append (slots (v buy)) (slots (v sell)))
    length-side sell v = omega (arith, length-append (slots (v buy)) (slots (v sell)))
