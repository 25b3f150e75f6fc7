-- ===== src/OrderBook/View.antt =====
-- What an order book stands for: on each side, for each price in order, the queue of the orders at
-- that price, oldest first.
use multi_instrument_orderbo.Prelude.{
  ℕ, ◌+◌, ◌≤◌, ◌<◌, ◌≡◌, ◌≢◌, refl, Option, none, some, List, [], ◌∷◌, ◌++◌, ℤ, arith, count,
  count-append, All, inl, inr, Bool-cases, some-eq, ap, sym, subst,
}
use multi_instrument_orderbo.Types.{Side, buy, sell, opposite}
use multi_instrument_orderbo.Level.{Links}
use multi_instrument_orderbo.Level.Chain.{Holds}
use multi_instrument_orderbo.OrderedMap.{find, assign, remove, IsSorted}
use multi_instrument_orderbo.OrderedMap.Related.{Related, Elsewhere}
use multi_instrument_orderbo.OrderedMap.Laws.{find_past, find_short, find_hit}
use multi_instrument_orderbo.HashMap.{lookup}
use multi_instrument_orderbo.OrderBook.{Orders, OrderBook, Locator, levels, price_order, better}

abbrev pub Queues : Type 0
Queues = List (ℤ × List ℕ)

abbrev pub View : Type 0
View = Side → Queues

abbrev pub with_queues : Side → Queues → View → View
with_queues buy q v buy = q
with_queues buy q v sell = v sell
with_queues sell q v buy = v buy
with_queues sell q v sell = q

pub with_queues_self : (s : Side) (q : Queues) (v : View) → with_queues s q v s ≡ q
with_queues_self buy q v = refl
with_queues_self sell q v = refl

abbrev pub slots : Queues → List ℕ
slots [] = []
slots ((p, xs) ∷ q) = xs ++ slots q

-- Every order that rests in the book.
abbrev pub resting : View → List ℕ
resting v = slots (v buy) ++ slots (v sell)

abbrev pub queue_or_empty : Option (List ℕ) → List ℕ
queue_or_empty none = []
queue_or_empty (some xs) = xs

-- Each queue has an order, and each order in it has the side and the price of its place.
abbrev pub Placed : Orders → Side → Queues → Type 0
Placed orders side [] = Unit {0}
Placed orders side ((p, xs) ∷ q) =
    (xs ≢ [])
    × All (λ o. ((orders o).side ≡ side) × ((orders o).limit_price ≡ p)) xs
    × Placed orders side q

-- The order rests in the queue at that place.
abbrev pub Located : View → Side → ℤ → ℕ → Type 0
Located v side price o =
    (queue : List ℕ) × (find (price_order side) price (v side) ≡ some queue) × (0 < count o queue)

-- The index entry points to a resting order with that id.
abbrev pub Listed : Orders → View → ℕ → Locator → Type 0
Listed orders v id loc = ((orders loc.order).id ≡ id) × Located v loc.side loc.price loc.order

-- The book holds exactly the orders of the view. No slot rests twice.
pub record Models (orders : Orders) (lk : Links) (b : OrderBook) (v : View) : Type 0 where
  pub linked : (s : Side) → Related (Holds lk) (levels s b) (v s)
  pub sorted : (s : Side) → IsSorted (price_order s) (v s)
  pub placed : (s : Side) → Placed orders s (v s)
  pub unique : (a : ℕ) → count a (resting v) ≤ 1
  pub listed : (id : ℕ) (loc : Locator) → lookup id b.order_map ≡ some loc → Listed orders v id loc

-- The orders of one side are among the resting ones.
pub count-side : (a : ℕ) (s : Side) (v : View) → count a (slots (v s)) ≤ count a (resting v)
count-side a buy v = omega (arith, count-append a (slots (v buy)) (slots (v sell)))
count-side a sell v = omega (arith, count-append a (slots (v buy)) (slots (v sell)))

pub count-sides :
    (a : ℕ) (s : Side) (v : View)
    → count a (slots (v s)) + count a (slots (v (opposite s))) ≡ count a (resting v)
count-sides a buy v = omega (arith, count-append a (slots (v buy)) (slots (v sell)))
count-sides a sell v = omega (arith, count-append a (slots (v buy)) (slots (v sell)))

-- What a write to one side's queues does to the number of resting orders.
pub count-with_queues :
    (a : ℕ) (s : Side) (q : Queues) (v : View)
    → count a (resting (with_queues s q v)) + count a (slots (v s))
      ≡ count a (slots q) + count a (resting v)
count-with_queues a buy q v =
    omega
      (arith, count-append a q' (slots (v sell)), count-append a (slots (v buy)) (slots (v sell)))
  where
    q' : List ℕ
    q' = slots q
count-with_queues a sell q v =
    omega
      (arith, count-append a (slots (v buy)) q', count-append a (slots (v buy)) (slots (v sell)))
  where
    q' : List ℕ
    q' = slots q

module _ (s : Side) (a : ℕ) (k : ℤ) where
  -- The queue at a price is part of the side.
  pub count-find :
      (q : Queues) (xs : List ℕ)
      → find (price_order s) k q ≡ some xs
      → count a xs ≤ count a (slots q)
  unfolding find
  count-find [] xs e = cc
  count-find ((p, ys) ∷ q) xs e = elim (Bool-cases (better s p k)) [
    | inl f ↦ omega (arith, count-append a ys (slots q), count-find q xs (rw f at e))
    | inr f ↦ elim (Bool-cases (better s k p)) [
      | inl g ↦ absurd (cc (rw (f, g) at e))
      | inr g ↦
          let same : some ys ≡ some xs = rw (f, g) at e in
          omega (arith, count-append a ys (slots q), ap (count a) (some-eq same))
    ]
  ]

  -- A write of the queue at a price.
  pub count-assign :
      (q : Queues) (ys : List ℕ)
      → count a (slots (assign (price_order s) k ys q))
          + count a (queue_or_empty (find (price_order s) k q))
        ≡ count a ys + count a (slots q)
  unfolding find assign
  count-assign [] ys = omega (arith, count-append a ys [])
  count-assign ((p, xs) ∷ q) ys = elim (Bool-cases (better s p k)) [
    | inl f ↦ rw f (
        omega (
          arith,
          count-append a xs (slots q),
          count-append a xs (slots (assign (price_order s) k ys q)),
          count-assign q ys,
        ))
    | inr f ↦ elim (Bool-cases (better s k p)) [
      | inl g ↦ rw (f, g) (omega (arith, count-append a ys (xs ++ slots q)))
      | inr g ↦ rw (f, g) (omega (arith, count-append a ys (slots q), count-append a xs (slots q)))
    ]
  ]

  pub count-remove :
      (q : Queues)
      → count a (slots (remove (price_order s) k q))
          + count a (queue_or_empty (find (price_order s) k q))
        ≡ count a (slots q)
  unfolding find remove
  count-remove [] = refl
  count-remove ((p, xs) ∷ q) = elim (Bool-cases (better s p k)) [
    | inl f ↦ rw f (
        omega (
          arith,
          count-append a xs (slots q),
          count-append a xs (slots (remove (price_order s) k q)),
          count-remove q,
        ))
    | inr f ↦ elim (Bool-cases (better s k p)) [
      | inl g ↦ rw (f, g) (omega arith)
      | inr g ↦ rw (f, g) (omega (arith, count-append a xs (slots q)))
    ]
  ]

module _ (s : Side) (k : ℤ) where
  abbrev Bounded : List ℕ → List ℕ → List ℕ → Type 0
  Bounded xs zs ys = (a : ℕ) → count a xs + count a ys ≤ count a zs

  Elsewhere-Bounded :
      (xs xs' zs zs' : List ℕ) (q : Queues)
      → ((a : ℕ) → count a xs' + count a zs ≤ count a zs' + count a xs)
      → Elsewhere (price_order s) k (Bounded xs zs) q
      → Elsewhere (price_order s) k (Bounded xs' zs') q
  Elsewhere-Bounded xs xs' zs zs' [] h e = tt
  Elsewhere-Bounded xs xs' zs zs' ((p, ys) ∷ q) h e =
      ((λ ne a. omega (arith, h a, e.0 ne a)), Elsewhere-Bounded xs xs' zs zs' q h e.1)

  Elsewhere-all : (q : Queues) → Elsewhere (price_order s) k (Bounded [] (slots q)) q
  Elsewhere-all [] = tt
  Elsewhere-all ((p, ys) ∷ q) = (
    (λ ne a. omega (arith, count-append a ys (slots q))),
    Elsewhere-Bounded [] [] (slots q) (ys ++ slots q) q
        (λ a. omega (arith, count-append a ys (slots q))) (Elsewhere-all q),
  )

  -- The queue at a price and the queue at another price are together no more than the side.
  pub Elsewhere-find :
      (q : Queues)
      → Elsewhere
          (price_order s)
          k
          (Bounded (queue_or_empty (find (price_order s) k q)) (slots q))
          q
  unfolding find
  Elsewhere-find [] = tt
  Elsewhere-find ((p, ys) ∷ q) = elim (Bool-cases (better s p k)) [
    | inl f ↦ subst Goal (sym (find_past (price_order s) k p ys q f)) (
      (λ ne a. omega (arith, count-append a ys (slots q), count-remove s a k q)),
      Elsewhere-Bounded (queue_or_empty (find (price_order s) k q)) _ (slots q) (ys ++ slots q) q
          (λ a. omega (arith, count-append a ys (slots q))) (Elsewhere-find q),
    )
    | inr f ↦ elim (Bool-cases (better s k p)) [
      | inl g ↦
          subst Goal (sym (find_short (price_order s) k p ys q f g)) (Elsewhere-all ((p, ys) ∷ q))
      | inr g ↦ subst Goal (sym (find_hit (price_order s) k p ys q f g)) (
        (λ ne. elim ne [ inl e ↦ absurd (cc) | inr e ↦ absurd (cc) ]),
        Elsewhere-Bounded [] ys (slots q) (ys ++ slots q) q
            (λ a. omega (arith, count-append a ys (slots q))) (Elsewhere-all q),
      )
    ]
  ]
    where
      Goal : Option (List ℕ) → Type 0
      Goal r =
          Elsewhere (price_order s) k (Bounded (queue_or_empty r) (ys ++ slots q)) ((p, ys) ∷ q)
