-- ===== src/OrderBook/Rekey.antt =====
-- The book under a change of order fields other than the id, the side and the price.
use multi_instrument_orderbo.Prelude.{ℕ, ◌≡◌, List, [], ◌∷◌, ℤ, ◌∙◌, All}
use multi_instrument_orderbo.Types.{Order, Side}
use multi_instrument_orderbo.Level.{Links}
use multi_instrument_orderbo.OrderBook.{Orders, OrderBook}
use multi_instrument_orderbo.OrderBook.View.{Queues, View, Placed, Models}

-- What the book reads of two records is the same.
abbrev pub SameKeys : Order → Order → Type 0
SameKeys o o' = (o'.id ≡ o.id) × (o'.side ≡ o.side) × (o'.limit_price ≡ o.limit_price)

module _ (orders orders' : Orders) (same : (a : ℕ) → SameKeys (orders a) (orders' a)) where
  All-SameKeys :
      (s : Side) (p : ℤ) (xs : List ℕ)
      → All (λ o. ((orders o).side ≡ s) × ((orders o).limit_price ≡ p)) xs
      → All (λ o. ((orders' o).side ≡ s) × ((orders' o).limit_price ≡ p)) xs
  All-SameKeys s p [] h = tt
  All-SameKeys s p (x ∷ xs) h = (((same x).1 ∙ h.0.0, (same x).2 ∙ h.0.1), All-SameKeys s p xs h.1)

  Placed-SameKeys : (s : Side) (q : Queues) → Placed orders s q → Placed orders' s q
  Placed-SameKeys s [] h = tt
  Placed-SameKeys s ((p, xs) ∷ q) h = (h.0, All-SameKeys s p xs h.1, Placed-SameKeys s q h.2)

  pub Models-SameKeys :
      (lk : Links) (b : OrderBook) (v : View) → Models orders lk b v → Models orders' lk b v
  Models-SameKeys lk b v h = record {
    linked = h.linked;
    sorted = h.sorted;
    placed = λ s. Placed-SameKeys s (v s) (h.placed s);
    unique = h.unique;
    listed = λ id loc e.
        let (same_id, place) = h.listed id loc e in ((same loc.order).0 ∙ same_id, place);
  }
