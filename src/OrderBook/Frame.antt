-- ===== src/OrderBook/Frame.antt =====
-- How a change of one level carries over to the whole book: the other levels keep their orders,
-- the order of prices and the placement survive a write, and index entries stay good.
use multi_instrument_orderbo.Prelude.{
  ℕ, ◌+◌, ◌≤◌, ◌<◌, ◌≡◌, ◌≢◌, refl, false, some, List, [], ◌∷◌, ℤ, arith, count, count-append, All,
  inl, inr, Bool-cases, ap, sym, ◌∙◌, Disjoint, Disjoint-of_count, Disjoint-singleton,
  NotIn-of_count, subst,
}
use native.Mathlib.Decide.{ℕ_discrete}
use multi_instrument_orderbo.Types.{Side, buy, sell, opposite}
use multi_instrument_orderbo.Level.{Links}
use multi_instrument_orderbo.Level.Chain.{Holds, Agree, Holds-Agree}
use multi_instrument_orderbo.OrderedMap.{find, assign, remove}
use multi_instrument_orderbo.OrderedMap.Laws.{find-assign_self, find-assign_ne}
use multi_instrument_orderbo.OrderedMap.Related.{Related, Elsewhere, Elsewhere-map, Transfers}
use multi_instrument_orderbo.OrderBook.{
  Orders, OrderBook, Locator, Levels, levels, with_levels, price_order, better,
}
use multi_instrument_orderbo.OrderBook.View.{
  Queues, View, with_queues, slots, queue_or_empty, Placed, Located,
}

-- The links of a slot are as they were.
abbrev pub SameLinks : Links → Links → ℕ → Type 0
SameLinks lk lk' a = (lk'.level_prev a ≡ lk.level_prev a) × (lk'.level_next a ≡ lk.level_next a)

-- A fact about both sides after one of them is written.
pub with_queues_all :
    (P : Side → Queues → Type 0) (s : Side) (q : Queues) (v : View)
    → P s q
    → P (opposite s) (v (opposite s))
    → (t : Side) → P t (with_queues s q v t)
with_queues_all P buy q v h k buy = h
with_queues_all P buy q v h k sell = k
with_queues_all P sell q v h k buy = k
with_queues_all P sell q v h k sell = h

pub linked_all :
    (lk : Links) (s : Side) (m : Levels) (b : OrderBook) (q : Queues) (v : View)
    → Related (Holds lk) m q
    → Related (Holds lk) (levels (opposite s) b) (v (opposite s))
    → (t : Side) → Related (Holds lk) (levels t (with_levels s m b)) (with_queues s q v t)
linked_all lk buy m b q v h k buy = h
linked_all lk buy m b q v h k sell = k
linked_all lk sell m b q v h k buy = k
linked_all lk sell m b q v h k sell = h

-- The index is no part of the levels.
pub linked_index :
    (s : Side) (m : Levels) (b : OrderBook) (map : List (ℕ × Locator)) {lk : Links} {v : View}
    → ((t : Side) → Related (Holds lk) (levels t (with_levels s m b)) (v t))
    → (t : Side)
    → Related (Holds lk) (levels t (record (with_levels s m b) { order_map = map })) (v t)
linked_index s m b map h buy = h buy
linked_index s m b map h sell = h sell

-- The links change at the orders `zs` only.
module _ (lk lk' : Links) (zs : List ℕ)
    (frame : (ys : List ℕ) → Disjoint zs ys → Agree lk lk' ys) where
  pub SameLinks-of_frame : (a : ℕ) → count a zs ≡ 0 → SameLinks lk lk' a
  SameLinks-of_frame a h =
      let kept = frame (a ∷ []) (Disjoint-singleton a zs (NotIn-of_count a zs h)) in
      (kept.0, kept.1)

  -- Levels that share no order with `zs` are as they were.
  pub Related-frame :
      (m : Levels) (q : Queues)
      → ((a : ℕ) → count a zs + count a (slots q) ≤ 1)
      → Related (Holds lk) m q
      → Related (Holds lk') m q
  Related-frame [] [] u r = tt
  Related-frame [] (_ ∷ q) u r = absurd r
  Related-frame (_ ∷ m) [] u r = absurd r
  Related-frame ((j, l) ∷ m) ((p, ys) ∷ q) u r = (
    r.0,
    Holds-Agree lk lk' l ys (frame ys apart) r.1,
    Related-frame m q (λ a. omega (arith, u a, count-append a ys (slots q))) r.2,
  )
    where
      apart : Disjoint zs ys
      apart = Disjoint-of_count zs ys (λ a. omega (arith, u a, count-append a ys (slots q)))

  pub Transfers-frame :
      (s : Side) (k : ℤ) (q : Queues)
      → Elsewhere (price_order s) k (λ ys. (a : ℕ) → count a zs + count a ys ≤ 1) q
      → Transfers (price_order s) (Holds lk) (Holds lk') k q
  Transfers-frame s k q e =
      Elsewhere-map (price_order s) k _ _ q
        (λ ys u l. Holds-Agree lk lk' l ys (frame ys (Disjoint-of_count zs ys u))) e

module _ (orders : Orders) (s : Side) (k : ℤ) where
  abbrev pub AtPlace : ℕ → Type 0
  AtPlace o = ((orders o).side ≡ s) × ((orders o).limit_price ≡ k)

  pub Placed-assign :
      (xs : List ℕ) (q : Queues)
      → xs ≢ []
      → All AtPlace xs
      → Placed orders s q
      → Placed orders s (assign (price_order s) k xs q)
  unfolding assign
  Placed-assign xs [] ne h t = (ne, h, tt)
  Placed-assign xs ((p, ys) ∷ q) ne h t = elim (Bool-cases (better s p k)) [
    | inl f ↦ rw f (t.0, t.1, Placed-assign xs q ne h t.2)
    | inr f ↦ elim (Bool-cases (better s k p)) [
      | inl g ↦ rw (f, g) (ne, h, t)
      | inr g ↦ rw (f, g) (ne, h, t.2)
    ]
  ]

  pub Placed-remove :
      (q : Queues) → Placed orders s q → Placed orders s (remove (price_order s) k q)
  unfolding remove
  Placed-remove [] t = tt
  Placed-remove ((p, ys) ∷ q) t = elim (Bool-cases (better s p k)) [
    | inl f ↦ rw f (t.0, t.1, Placed-remove q t.2)
    | inr f ↦ elim (Bool-cases (better s k p)) [ inl g ↦ rw (f, g) t | inr g ↦ rw (f, g) t.2 ]
  ]

  price_connex : (p : ℤ) → better s p k ≡ false → better s k p ≡ false → p ≡ k
  price_connex p = (price_order s).before_connex p k

  -- The orders found at a price have that place.
  pub Placed-find :
      (q : Queues) → Placed orders s q → All AtPlace (queue_or_empty (find (price_order s) k q))
  unfolding find
  Placed-find [] t = tt
  Placed-find ((p, ys) ∷ q) t = elim (Bool-cases (better s p k)) [
    | inl f ↦ rw f (Placed-find q t.2)
    | inr f ↦ elim (Bool-cases (better s k p)) [
      | inl g ↦ rw (f, g) tt
      | inr g ↦
          rw (f, g)
            (subst (λ j. All (λ o. ((orders o).side ≡ s) × ((orders o).limit_price ≡ j)) ys)
              (price_connex p f g) t.1)
    ]
  ]

pub ℤ-discrete : Discrete ℤ
ℤ-discrete = hlevel ℕ_discrete

found-assign :
    (s : Side) (k price : ℤ) (o : ℕ) (ys xs : List ℕ) (q : Queues)
    → find (price_order s) price q ≡ some xs
    → 0 < count o xs
    → count o (queue_or_empty (find (price_order s) k q)) ≤ count o ys
    → (zs : List ℕ) × (find (price_order s) price (assign (price_order s) k ys q) ≡ some zs)
      × (0 < count o zs)
found-assign s k price o ys xs q e m h = elim (ℤ-discrete price k) [
  | yes same ↦
      let at_k : find (price_order s) k q ≡ some xs =
        subst (λ j. find (price_order s) j q ≡ some xs) same e in
      (
        ys,
        subst (λ j. find (price_order s) j (assign (price_order s) k ys q) ≡ some ys) (sym same)
            (find-assign_self (price_order s) k ys q),
        omega (arith, m, h, ap (λ r. count o (queue_or_empty r)) at_k),
      )
  | no ne ↦ (xs, find-assign_ne (price_order s) k price ys q ne ∙ e, m)
]

-- A write of one queue that keeps an order keeps its place.
pub Located-assign :
    (s t : Side) (k price : ℤ) (o : ℕ) (ys : List ℕ) (v : View)
    → Located v t price o
    → (s ≡ t → count o (queue_or_empty (find (price_order s) k (v s))) ≤ count o ys)
    → Located (with_queues s (assign (price_order s) k ys (v s)) v) t price o
Located-assign buy buy k price o ys v l h =
    found-assign buy k price o ys l.0 (v buy) l.1 l.2 (h refl)
Located-assign buy sell k price o ys v l h = l
Located-assign sell buy k price o ys v l h = l
Located-assign sell sell k price o ys v l h =
    found-assign sell k price o ys l.0 (v sell) l.1 l.2 (h refl)

pub Located-assign_self :
    (s : Side) (k : ℤ) (o : ℕ) (ys : List ℕ) (v : View)
    → 0 < count o ys
    → Located (with_queues s (assign (price_order s) k ys (v s)) v) s k o
Located-assign_self buy k o ys v h = (ys, find-assign_self (price_order buy) k ys (v buy), h)
Located-assign_self sell k o ys v h = (ys, find-assign_self (price_order sell) k ys (v sell), h)
