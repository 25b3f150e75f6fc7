-- ===== src/OrderBook/Add.antt =====
-- `OrderBook::add_resting`: the order goes to the end of the queue at its price.
use multi_instrument_orderbo.Prelude.{
  ℕ, ◌+◌, ◌≤◌, ◌≡◌, ◌≢◌, refl, ◌==◌, if◌then◌else◌, none, some, List, [], ◌∷◌, ◌++◌, ℤ, arith,
  count, count-append, All, inl, inr, Disjoint, subst, Option-cases, NotIn-of_count, Unique-cons,
}
use multi_instrument_orderbo.Types.{Order, Side, buy, sell, opposite}
use multi_instrument_orderbo.Level.{Links, PriceLevel, push_back}
use multi_instrument_orderbo.Level.Chain.{Holds, Agree}
use multi_instrument_orderbo.Level.Refine.{push_back-Holds, push_back-Agree, empty_level-Holds}
use multi_instrument_orderbo.OrderedMap.{find, assign, IsSorted}
use multi_instrument_orderbo.OrderedMap.Laws.{assign-IsSorted}
use multi_instrument_orderbo.OrderedMap.Related.{
  Related, Elsewhere, Elsewhere-map, assign-Related, find-Found, find-none,
}
use multi_instrument_orderbo.HashMap.{lookup, lookup-emplace, lookup-emplace_cases}
use multi_instrument_orderbo.OrderBook.{
  Orders, OrderBook, Locator, Levels, levels, with_levels, price_order, add_resting, level_or_empty,
}
use multi_instrument_orderbo.OrderBook.View.{
  Queues, View, with_queues, slots, resting, queue_or_empty, Placed, Located, Listed, Models,
  count-remove, count-assign, count-with_queues, Elsewhere-find, count-side, count-sides,
}
use multi_instrument_orderbo.OrderBook.Frame.{
  with_queues_all, linked_all, Related-frame, Transfers-frame, Placed-assign, Placed-find,
  Located-assign, Located-assign_self, AtPlace, SameLinks, SameLinks-of_frame,
}

-- The queue at a price.
abbrev pub queue_at : Side → ℤ → View → List ℕ
queue_at s p v = queue_or_empty (find (price_order s) p (v s))

-- The view with the order behind all others at its price.
unfoldable pub enqueue : Orders → ℕ → View → View
unfolding find assign
enqueue orders o v =
    let s = (orders o).side in
    let p = (orders o).limit_price in
    with_queues s (assign (price_order s) p (queue_at s p v ++ (o ∷ [])) (v s)) v

level_or_empty-Holds :
    (lk : Links) (s : Side) (p : ℤ) (m : Levels) (q : Queues)
    → Related (Holds lk) m q
    → Holds lk
        (level_or_empty (find (price_order s) p m))
        (queue_or_empty (find (price_order s) p q))
level_or_empty-Holds lk s p m q r = elim (Option-cases (find (price_order s) p q)) [
  | inl e ↦ rw (e, find-none (price_order s) (Holds lk) p m q r e) (empty_level-Holds lk)
  | inr (xs, e) ↦
      let f = find-Found (price_order s) (Holds lk) p m q xs r e in rw (e, f.found) f.holds
]

All-snoc : (P : ℕ → Type 0) (xs : List ℕ) (o : ℕ) → All P xs → P o → All P (xs ++ (o ∷ []))
All-snoc P [] o h p = (p, tt)
All-snoc P (x ∷ xs) o h p = (h.0, All-snoc P xs o h.1 p)

snoc-ne-nil : (xs : List ℕ) (o : ℕ) → xs ++ (o ∷ []) ≢ []
snoc-ne-nil [] o = λ e. cc
snoc-ne-nil (x ∷ xs) o = λ e. cc

abbrev pub locator_of : Order → ℕ → Locator
locator_of r o = record { side = r.side; price = r.limit_price; order = o }

-- The book behind an order that was added, and each entry of its index.
pub record Added (orders : Orders) (o : ℕ) (lk : Links) (b : OrderBook) (v : View) : Type 0 where
  pub models :
      Models orders (add_resting orders o lk b).0 (add_resting orders o lk b).1 (enqueue orders o v)
  pub index :
      (id : ℕ)
      → lookup id (add_resting orders o lk b).1.order_map ≡ (
          if (orders o).id == id
          then elim (lookup (orders o).id b.order_map) [
            | none ↦ some (locator_of (orders o) o)
            | some first ↦ some first
          ]
          else lookup id b.order_map)

module _ (orders : Orders) (o : ℕ) (lk : Links) (b : OrderBook) (v : View)
    (h : Models orders lk b v) (fresh : count o (resting v) ≡ 0) where
  abbrev s : Side
  s = (orders o).side

  abbrev p : ℤ
  p = (orders o).limit_price

  abbrev old : List ℕ
  old = queue_at s p v

  abbrev list : PriceLevel
  list = level_or_empty (find (price_order s) p (levels s b))

  abbrev lk' : Links
  lk' = (push_back o lk list).0

  abbrev moved : Queues
  moved = assign (price_order s) p (old ++ (o ∷ [])) (v s)

  holds : Holds lk list old
  holds = level_or_empty-Holds lk s p (levels s b) (v s) (h.linked s)

  more : (a : ℕ) → count a (o ∷ resting v) ≤ 1
  more = Unique-cons o (resting v) fresh h.unique

  fresh_old : (a : ℕ) → count a old ≤ count a (resting v)
  fresh_old a = omega (arith, count-remove s a p (v s), count-side a s v)

  -- A list that shares no order with the old queue, and does not hold the new one.
  frame : (ys : List ℕ) → Disjoint (o ∷ old) ys → Agree lk lk' ys
  frame ys d = push_back-Agree o lk list old ys holds d.0 d.1

  elsewhere : Elsewhere (price_order s) p (λ ys. (a : ℕ) → count a (o ∷ old) + count a ys ≤ 1) (v s)
  elsewhere =
      Elsewhere-map (price_order s) p _ _ (v s) (λ ys u a. at_most a ys (u a))
        (Elsewhere-find s p (v s))
    where
      at_most :
          (a : ℕ) (ys : List ℕ)
          → count a old + count a ys ≤ count a (slots (v s))
          → count a (o ∷ old) + count a ys ≤ 1
      at_most a ys u = omega (arith, u, more a, count-side a s v)

  linked' :
      (t : Side)
      → Related
          (Holds lk')
          (levels t
            (with_levels s (assign (price_order s) p (push_back o lk list).1 (levels s b)) b))
          (with_queues s moved v t)
  linked' =
      linked_all lk' s _ b moved v
        (assign-Related (price_order s) (Holds lk) (Holds lk') p _ _ (levels s b) (v s) (h.sorted s)
          (h.linked s) (Transfers-frame lk lk' (o ∷ old) frame s p (v s) elsewhere)
          (push_back-Holds o lk list old holds
            (NotIn-of_count o old (omega (arith, fresh_old o, fresh)))))
        (Related-frame lk lk' (o ∷ old) frame (levels (opposite s) b) (v (opposite s))
          (λ a. omega (arith, more a, count-sides a s v, count-remove s a p (v s)))
          (h.linked (opposite s)))

  unique' : (a : ℕ) → count a (resting (with_queues s moved v)) ≤ 1
  unique' a = omega (
    arith,
    more a,
    count-with_queues a s moved v,
    count-assign s a p (v s) (old ++ (o ∷ [])),
    count-append a old (o ∷ []),
  )

  here : Located (with_queues s moved v) s p o
  here = Located-assign_self s p o (old ++ (o ∷ [])) v (ground (arith, count-append o old (o ∷ [])))

  kept :
      (t : Side) (price : ℤ) (i : ℕ)
      → Located v t price i
      → Located (with_queues s moved v) t price i
  kept t price i l =
      Located-assign s t p price i (old ++ (o ∷ [])) v l
        (λ e. omega (arith, count-append i old (o ∷ [])))

  linked_order_map :
      (t : Side)
      → Related (Holds lk') (levels t (add_resting orders o lk b).1) (with_queues s moved v t)
  unfolding add_resting
  linked_order_map buy = linked' buy
  linked_order_map sell = linked' sell

  listed' :
      (id : ℕ) (loc : Locator)
      → lookup id (add_resting orders o lk b).1.order_map ≡ some loc
      → Listed orders (with_queues s moved v) id loc
  unfolding add_resting
  listed' id loc e = elim (lookup-emplace_cases _ id _ loc b.order_map e) [
    | inl old_entry ↦
        let (same_id, place) = h.listed id loc old_entry in
        (same_id, kept loc.side loc.price loc.order place)
    | inr (same, place) ↦ subst (Listed orders (with_queues s moved v) id) place (same, here)
  ]

  pub add_resting-Models :
      let (links, book) = add_resting orders o lk b in Models orders links book (enqueue orders o v)
  unfolding add_resting enqueue
  add_resting-Models = record {
    linked = linked_order_map;
    sorted =
        with_queues_all (λ t q. IsSorted (price_order t) q) s moved v
          (assign-IsSorted (price_order s) p _ (v s) (h.sorted s)) (h.sorted _);
    placed =
        with_queues_all (Placed orders) s moved v
          (Placed-assign orders s p _ (v s) (snoc-ne-nil old o)
            (All-snoc (AtPlace orders s p) old o (Placed-find orders s p (v s) (h.placed s))
              (refl, refl))
            (h.placed s))
          (h.placed _);
    unique = unique';
    listed = listed';
  }

  -- `add_resting` of an order that does not rest yet, in a book that models its view: the book goes
  -- on to model a view with the order behind all others at its price. In the index, the order's id
  -- leads to the order where it led nowhere before, and else to the first order with that id as
  -- before; every other id leads where it did.
  pub add_resting-Added : Added orders o lk b v
  unfolding add_resting
  add_resting-Added = record {
    models = add_resting-Models;
    index = λ id. lookup-emplace (orders o).id id (locator_of (orders o) o) b.order_map;
  }

  pub add_resting-SameLinks :
      (a : ℕ) → a ≢ o → count a (resting v) ≡ 0 → SameLinks lk (add_resting orders o lk b).0 a
  unfolding add_resting
  add_resting-SameLinks a ne out =
      SameLinks-of_frame lk lk' (o ∷ old) frame a (ground (arith, ne, fresh_old a, out))

-- One order more rests in the book.
pub count-enqueue :
    (orders : Orders) (o : ℕ) (v : View) (a : ℕ)
    → count a (resting (enqueue orders o v)) ≡ count a (o ∷ []) + count a (resting v)
unfolding enqueue
count-enqueue orders o v a = omega (
  arith,
  count-with_queues a side (assign (price_order side) price queue (v side)) v,
  count-assign side a price (v side) queue,
  count-append a (queue_at side price v) (o ∷ []),
)
  where
    side : Side
    side = (orders o).side

    price : ℤ
    price = (orders o).limit_price

    queue : List ℕ
    queue = queue_at side price v ++ (o ∷ [])
