-- ===== src/OrderBook/Cancel.antt =====
-- `OrderBook::cancel_and_get`: an order leaves its queue, and a queue without orders its side.
use multi_instrument_orderbo.Prelude.{
  ℕ, ◌+◌, ◌<◌, ◌≡◌, ◌≢◌, refl, none, some, List, [], ◌∷◌, ◌++◌, arith, count, count-append, All, ap,
  sym, ◌∙◌, Disjoint, subst,
}
use native.Mathlib.Decide.{ℕ_discrete}
use multi_instrument_orderbo.Types.{Side, opposite}
use multi_instrument_orderbo.Level.{Links, PriceLevel, erase}
use multi_instrument_orderbo.Level.Chain.{Holds, Agree}
use multi_instrument_orderbo.Level.Erase.{erase-Holds, erase-Agree}
use multi_instrument_orderbo.OrderedMap.{find, IsSorted}
use multi_instrument_orderbo.OrderedMap.Related.{Related, Elsewhere-map, find-Found}
use multi_instrument_orderbo.HashMap.{lookup, delete, lookup-delete}
use multi_instrument_orderbo.OrderBook.{
  Orders, OrderBook, Locator, levels, price_order, cancel_and_get, unlist, settle,
}
use multi_instrument_orderbo.OrderBook.View.{
  View, with_queues, resting, queue_or_empty, Placed, Listed, Models, count-with_queues, count-side,
  count-sides, count-remove, Elsewhere-find,
}
use multi_instrument_orderbo.OrderBook.Frame.{
  SameLinks, SameLinks-of_frame, with_queues_all, Related-frame, Transfers-frame, Placed-find,
  AtPlace,
}
use multi_instrument_orderbo.OrderBook.Settle.{
  settle_queue, count-settle_queue, settle_queue-IsSorted, Placed-settle_queue, All-drop_middle,
  Located-settle_queue, settle-Related, settle-order_map, levels_index,
}

-- What `cancel_and_get` does where the index has an entry.
pub record Taken (orders : Orders) (id : ℕ) (lk : Links) (b : OrderBook) (v : View) (o : ℕ)
    : Type 0 where
  pub links : Links
  pub book : OrderBook
  pub runs : cancel_and_get id lk b ≡ some (links, book, some o)
  pub models : Models orders links book v
  pub unindexed : book.order_map ≡ delete id b.order_map
  pub links_kept : (a : ℕ) → count a (resting v) ≡ 0 → a ≢ o → SameLinks lk links a

module _ (orders : Orders) (lk : Links) (b : OrderBook) (v : View) (h : Models orders lk b v)
    (loc : Locator) (front back : List ℕ)
    (at_price : find (price_order loc.side) loc.price (v loc.side)
      ≡ some (front ++ loc.order ∷ back)) where
  abbrev s : Side
  s = loc.side

  abbrev queue : List ℕ
  queue = front ++ loc.order ∷ back

  abbrev without : View
  without = with_queues s (settle_queue s loc.price (front ++ back) (v s)) v

  abbrev b' : OrderBook
  b' = record b { order_map = delete (orders loc.order).id b.order_map }

  queue_found :
      (a : ℕ) → count a (queue_or_empty (find (price_order s) loc.price (v s))) ≡ count a queue
  queue_found a = ap (λ r. count a (queue_or_empty r)) at_price

  count-queue : (a : ℕ) → count a queue ≡ count a (front ++ back) + count a (loc.order ∷ [])
  count-queue a = omega (arith, count-append a front (loc.order ∷ back), count-append a front back)

  -- The order, and it alone, rests no longer.
  pub count-without :
      (a : ℕ) → count a (resting without) + count a (loc.order ∷ []) ≡ count a (resting v)
  count-without a = omega (
    arith,
    count-with_queues a s (settle_queue s loc.price (front ++ back) (v s)) v,
    count-settle_queue a s loc.price (front ++ back) (v s),
    queue_found a,
    count-queue a,
  )

  linked_without :
      (l : PriceLevel)
      → Holds lk l queue
      → let (lk', l') = erase loc.order lk l in
        (t : Side) → Related (Holds lk') (levels t (settle s loc.price l' b')) (without t)
  linked_without l holds =
      settle-Related lk lk' s loc.price (erase loc.order lk l).1 (front ++ back) b' v (h.sorted s)
        (subst (λ m. Related (Holds lk) m (v s)) (levels_index s b _) (h.linked s))
        (Transfers-frame lk lk' queue frame s loc.price (v s) (
          Elsewhere-map (price_order s) loc.price _ _ (v s)
            (λ ys u a. omega (arith, u a, queue_found a, count-side a s v, h.unique a))
            (Elsewhere-find s loc.price (v s))))
        (erase-Holds lk l front loc.order back holds)
        (Related-frame lk lk' queue frame (levels (opposite s) b') (v (opposite s))
          (λ a.
            omega (
              arith,
              h.unique a,
              count-sides a s v,
              count-remove s a loc.price (v s),
              queue_found a,
            ))
          (subst (λ m. Related (Holds lk) m (v (opposite s))) (levels_index (opposite s) b _)
            (h.linked _)))
    where
      lk' : Links
      lk' = (erase loc.order lk l).0

      frame : (ys : List ℕ) → Disjoint queue ys → Agree lk lk' ys
      frame ys d = erase-Agree lk l front loc.order back holds ys d

  Listed-without :
      (id : ℕ) (e : Locator)
      → lookup id (delete (orders loc.order).id b.order_map) ≡ some e
      → Listed orders without id e
  Listed-without id e found = elim (ℕ_discrete (orders loc.order).id id) [
    | yes same ↦ absurd (ground (arith, found, lookup-delete (orders loc.order).id id b.order_map))
    | no ne ↦
        let (same_id, place) =
          h.listed id e
            (ground (arith, found, lookup-delete (orders loc.order).id id b.order_map)) in
        (
          same_id,
          Located-settle_queue s e.side loc.price e.price e.order (front ++ back) v (h.sorted s)
              place (λ m. stays e.order (λ eq. ne (ap (λ i. (orders i).id) (sym eq) ∙ same_id)) m),
        )
  ]
    where
      stays :
          (i : ℕ)
          → i ≢ loc.order
          → 0 < count i (queue_or_empty (find (price_order s) loc.price (v s)))
          → 0 < count i (front ++ back)
      stays i other m = ground (arith, other, queue_found i, count-queue i, m)

  Models-without :
      (l : PriceLevel)
      → Holds lk l queue
      → let (lk', l') = erase loc.order lk l in Models orders lk' (settle s loc.price l' b') without
  Models-without l holds = record {
    linked = linked_without l holds;
    sorted =
        with_queues_all (λ t q. IsSorted (price_order t) q) s _ v
          (settle_queue-IsSorted s loc.price (front ++ back) (v s) (h.sorted s)) (h.sorted _);
    placed =
        with_queues_all (Placed orders) s _ v
          (Placed-settle_queue orders s loc.price (front ++ back) (v s)
            (All-drop_middle (AtPlace orders s loc.price) front loc.order back (
              subst (λ r. All (AtPlace orders s loc.price) (queue_or_empty r)) at_price
                (Placed-find orders s loc.price (v s) (h.placed s))))
            (h.placed s))
          (h.placed _);
    unique = λ a. omega (arith, count-without a, h.unique a);
    listed = λ id e found.
        Listed-without id e (ap (lookup id) (sym (settle-order_map s loc.price _ b')) ∙ found);
  }

  Taken-at :
      (l : PriceLevel)
      → find (price_order s) loc.price (levels s b) ≡ some l
      → Holds lk l queue
      → lookup (orders loc.order).id b.order_map ≡ some loc
      → Taken orders (orders loc.order).id lk b without loc.order
  unfolding cancel_and_get unlist
  Taken-at l found holds entry = record {
    links = (erase loc.order lk l).0;
    book = settle s loc.price (erase loc.order lk l).1 b';
    runs = rw (entry, cancel_and_get) (rw (at_level, unlist) refl);
    models = Models-without l holds;
    unindexed = settle-order_map s loc.price _ b';
    links_kept = λ a out ne.
        SameLinks-of_frame lk (erase loc.order lk l).0 queue
          (λ ys d. erase-Agree lk l front loc.order back holds ys d) a (apart a out ne);
  }
    where
      apart : (a : ℕ) → count a (resting without) ≡ 0 → a ≢ loc.order → count a queue ≡ 0
      apart a out ne = ground (
        arith,
        ne,
        out,
        count-without a,
        queue_found a,
        count-remove s a loc.price (v s),
        count-side a s v,
      )

      at_level : find (price_order s) loc.price (levels s b') ≡ some l
      at_level = ap (find (price_order s) loc.price) (sym (levels_index s b _)) ∙ found

  -- The order that the index names leaves the book; all others keep their places.
  pub cancel_and_get-Taken :
      (id : ℕ) → lookup id b.order_map ≡ some loc → Taken orders id lk b without loc.order
  cancel_and_get-Taken id entry =
      let f =
        find-Found (price_order s) (Holds lk) loc.price (levels s b) (v s) queue (h.linked s)
          at_price in
      let same = (h.listed id loc entry).0 in
      subst (λ i. Taken orders i lk b without loc.order) same
        (Taken-at f.value f.found f.holds (ap (λ i. lookup i b.order_map) same ∙ entry))

-- An id that the index does not have changes nothing.
pub cancel_and_get_unknown :
    (id : ℕ) (lk : Links) (b : OrderBook)
    → lookup id b.order_map ≡ none
    → cancel_and_get id lk b ≡ some (lk, b, none)
unfolding cancel_and_get
cancel_and_get_unknown id lk b e = rw (e, cancel_and_get)
