-- ===== src/OrderBook/Uncrossed.antt =====
-- A book that is not crossed: `best_bid` below `best_ask`. The prices of a side in terms of the
-- view, and what writes to the view do to them.
use multi_instrument_orderbo.Prelude.{
  ℕ, ◌≡◌, refl, subst, false, Option, none, some, List, [], ◌∷◌, ℤ, leb_ℤ, inl, inr, ◌⊎◌,
  Bool-cases,
}
use multi_instrument_orderbo.Types.{Side, buy, sell}
use multi_instrument_orderbo.Level.{Links}
use multi_instrument_orderbo.OrderedMap.{find, assign, remove}
use multi_instrument_orderbo.OrderBook.{Orders, OrderBook, price_order, better, best}
use multi_instrument_orderbo.OrderBook.View.{Queues, View, Models, with_queues}
use multi_instrument_orderbo.OrderBook.Pop.{drop_first}
use multi_instrument_orderbo.OrderBook.Settle.{settle_queue}
use multi_instrument_orderbo.OrderBook.Query.{best_price, best_lem}

-- There is a queue at the price.
abbrev pub HasPrice : ℤ → Queues → Type 0
HasPrice k [] = ⊥
HasPrice k ((p, xs) ∷ q) = (p ≡ k) ⊎ HasPrice k q

-- Every ask is above every bid.
abbrev pub IsUncrossed : View → Type 0
IsUncrossed v = (bid ask : ℤ) → HasPrice bid (v buy) → HasPrice ask (v sell) → leb_ℤ ask bid ≡ false

-- No price is new.
abbrev pub Shrinks : View → View → Type 0
Shrinks v v' = (s : Side) (k : ℤ) → HasPrice k (v' s) → HasPrice k (v s)

pub Shrinks-IsUncrossed : (v v' : View) → Shrinks v v' → IsUncrossed v → IsUncrossed v'
Shrinks-IsUncrossed v v' h u bid ask hb ha = u bid ask (h buy bid hb) (h sell ask ha)

pub HasPrice-drop_first :
    (k p : ℤ) (x : ℕ) (xs : List ℕ) (q : Queues)
    → HasPrice k (drop_first p xs q)
    → HasPrice k ((p, x ∷ xs) ∷ q)
HasPrice-drop_first k p x [] q h = inr h
HasPrice-drop_first k p x (y ∷ ys) q h = h

module _ (s : Side) (k : ℤ) where
  pub HasPrice-assign :
      (i : ℤ) (ys : List ℕ) (q : Queues)
      → HasPrice i (assign (price_order s) k ys q)
      → (k ≡ i) ⊎ HasPrice i q
  unfolding assign
  HasPrice-assign i ys [] h = h
  HasPrice-assign i ys ((p, xs) ∷ q) h = elim (Bool-cases (better s p k)) [
    | inl f ↦
        let after : (p ≡ i) ⊎ HasPrice i (assign (price_order s) k ys q) = rw f at h in
        elim after [ inl e ↦ inr (inl e) | inr t ↦ behind (HasPrice-assign i ys q t) ]
    | inr f ↦ elim (Bool-cases (better s k p)) [
      | inl g ↦ rw (f, g) at h
      | inr g ↦
          let after : (k ≡ i) ⊎ HasPrice i q = rw (f, g) at h in
          elim after [ inl e ↦ inl e | inr t ↦ inr (inr t) ]
    ]
  ]
    where
      behind : (k ≡ i) ⊎ HasPrice i q → (k ≡ i) ⊎ HasPrice i ((p, xs) ∷ q)
      behind (inl e) = inl e
      behind (inr t) = inr (inr t)

  pub HasPrice-remove :
      (i : ℤ) (q : Queues) → HasPrice i (remove (price_order s) k q) → HasPrice i q
  unfolding remove
  HasPrice-remove i [] h = h
  HasPrice-remove i ((p, xs) ∷ q) h = elim (Bool-cases (better s p k)) [
    | inl f ↦
        let after : (p ≡ i) ⊎ HasPrice i (remove (price_order s) k q) = rw f at h in
        elim after [ inl e ↦ inl e | inr t ↦ inr (HasPrice-remove i q t) ]
    | inr f ↦ elim (Bool-cases (better s k p)) [
      | inl g ↦ rw (f, g) at h
      | inr g ↦ inr (rw (f, g) at h)
    ]
  ]

  pub HasPrice-find : (q : Queues) (xs : List ℕ) → find (price_order s) k q ≡ some xs → HasPrice k q
  unfolding find
  HasPrice-find [] xs e = cc
  HasPrice-find ((p, ys) ∷ q) xs e = elim (Bool-cases (better s p k)) [
    | inl f ↦ inr (HasPrice-find q xs (rw f at e))
    | inr f ↦ elim (Bool-cases (better s k p)) [
      | inl g ↦ absurd (cc (rw (f, g) at e))
      | inr g ↦ inl ((price_order s).before_connex p k f g)
    ]
  ]

  -- A queue written back at its price.
  pub HasPrice-settle_queue :
      (i : ℤ) (ys : List ℕ) (q : Queues)
      → HasPrice k q
      → HasPrice i (settle_queue s k ys q)
      → HasPrice i q
  HasPrice-settle_queue i [] q here h = HasPrice-remove i q h
  HasPrice-settle_queue i (y ∷ ys) q here h = elim (HasPrice-assign i (y ∷ ys) q h) [
    | inl e ↦ subst (λ j. HasPrice j q) e here
    | inr old ↦ old
  ]

pub Shrinks-with_queues :
    (s : Side) (q : Queues) (v : View)
    → ((k : ℤ) → HasPrice k q → HasPrice k (v s))
    → Shrinks v (with_queues s q v)
Shrinks-with_queues buy q v h buy k p = h k p
Shrinks-with_queues buy q v h sell k p = p
Shrinks-with_queues sell q v h buy k p = p
Shrinks-with_queues sell q v h sell k p = h k p

-- The best ask is above the best bid where both exist.
abbrev pub IsQuoted : Option ℤ → Option ℤ → Type 0
IsQuoted none ask = Unit {0}
IsQuoted (some bid) none = Unit {0}
IsQuoted (some bid) (some ask) = leb_ℤ ask bid ≡ false

-- What an uncrossed view says of `best_bid` and `best_ask`.
pub best-IsQuoted :
    (orders : Orders) (lk : Links) (b : OrderBook) (v : View)
    → Models orders lk b v
    → IsUncrossed v
    → IsQuoted (best buy b) (best sell b)
best-IsQuoted orders lk b v h u =
    rw (best_lem orders lk b v buy h, best_lem orders lk b v sell h) (quoted (v buy) (v sell) u)
  where
    quoted :
        (bids asks : Queues)
        → ((bid ask : ℤ) → HasPrice bid bids → HasPrice ask asks → leb_ℤ ask bid ≡ false)
        → IsQuoted (best_price bids) (best_price asks)
    quoted [] asks u = tt
    quoted (_ ∷ bids) [] u = tt
    quoted ((bid, _) ∷ bids) ((ask, _) ∷ asks) u = u bid ask (inl refl) (inl refl)
