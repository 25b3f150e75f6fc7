-- ===== src/OrderBook/Outside.antt =====
-- The book under writes to slots that do not rest in it.
use multi_instrument_orderbo.Prelude.{
  ℕ, ◌<◌, ◌≡◌, List, [], ◌∷◌, ℤ, ◌∙◌, All, arith, count, count-append,
}
use multi_instrument_orderbo.Types.{Side}
use multi_instrument_orderbo.Level.{Links}
use multi_instrument_orderbo.Level.Chain.{Holds, Agree, Holds-Agree}
use multi_instrument_orderbo.OrderedMap.Related.{Related}
use multi_instrument_orderbo.OrderBook.{Orders, OrderBook, Levels, levels}
use multi_instrument_orderbo.OrderBook.View.{
  Queues, View, Placed, Models, resting, slots, count-side, count-find,
}
use multi_instrument_orderbo.OrderBook.Frame.{SameLinks}
use multi_instrument_orderbo.OrderBook.Rekey.{SameKeys}

Agree-of_all :
    (lk lk' : Links) (xs : List ℕ)
    → ((a : ℕ) → 0 < count a xs → SameLinks lk lk' a)
    → Agree lk lk' xs
Agree-of_all lk lk' [] h = tt
Agree-of_all lk lk' (x ∷ xs) h =
    let here = h x (ground arith) in
    (here.0, here.1, Agree-of_all lk lk' xs (λ a k. h a (omega (arith, k))))

module _ (orders orders' : Orders) (lk lk' : Links) where
  -- Nothing that the book reads of these slots has changed.
  abbrev Same : List ℕ → Type 0
  Same xs = (a : ℕ) → 0 < count a xs → SameLinks lk lk' a × SameKeys (orders a) (orders' a)

  Related-Same :
      (m : Levels) (q : Queues) → Same (slots q) → Related (Holds lk) m q → Related (Holds lk') m q
  Related-Same [] [] same r = tt
  Related-Same [] (_ ∷ q) same r = absurd r
  Related-Same (_ ∷ m) [] same r = absurd r
  Related-Same ((j, l) ∷ m) ((p, ys) ∷ q) same r = (
    r.0,
    Holds-Agree lk lk' l ys
        (Agree-of_all lk lk' ys (λ a k. (same a (omega (arith, k, count-append a ys (slots q)))).0))
        r.1,
    Related-Same m q (λ a k. same a (omega (arith, k, count-append a ys (slots q)))) r.2,
  )

  All-Same :
      (s : Side) (p : ℤ) (xs : List ℕ)
      → Same xs
      → All (λ o. ((orders o).side ≡ s) × ((orders o).limit_price ≡ p)) xs
      → All (λ o. ((orders' o).side ≡ s) × ((orders' o).limit_price ≡ p)) xs
  All-Same s p [] same h = tt
  All-Same s p (x ∷ xs) same h =
      let here = (same x (ground arith)).1 in
      ((here.1 ∙ h.0.0, here.2 ∙ h.0.1), All-Same s p xs (λ a k. same a (omega (arith, k))) h.1)

  Placed-Same : (s : Side) (q : Queues) → Same (slots q) → Placed orders s q → Placed orders' s q
  Placed-Same s [] same h = tt
  Placed-Same s ((p, ys) ∷ q) same h = (
    h.0,
    All-Same s p ys (λ a k. same a (omega (arith, k, count-append a ys (slots q)))) h.1,
    Placed-Same s q (λ a k. same a (omega (arith, k, count-append a ys (slots q)))) h.2,
  )

  -- A book goes on to model its view when links and records change at other slots only.
  pub Models-Same :
      (b : OrderBook) (v : View) → Same (resting v) → Models orders lk b v → Models orders' lk' b v
  Models-Same b v same h = record {
    linked = λ s. Related-Same (levels s b) (v s) (on_side s) (h.linked s);
    sorted = h.sorted;
    placed = λ s. Placed-Same s (v s) (on_side s) (h.placed s);
    unique = h.unique;
    listed = λ id loc e.
        let (same_id, place) = h.listed id loc e in
        let rests : 0 < count loc.order (resting v) = omega (
          arith,
          count-find loc.side loc.order loc.price (v loc.side) place.0 place.1,
          count-side loc.order loc.side v,
          place.2,
        ) in
        ((same loc.order rests).1.0 ∙ same_id, place);
  }
    where
      on_side : (s : Side) → Same (slots (v s))
      on_side s a k = same a (omega (arith, k, count-side a s v))
