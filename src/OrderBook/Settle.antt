-- ===== src/OrderBook/Settle.antt =====
-- A queue that has changed, in terms of the view: written back at its price, or taken off the side
-- with its last order.
use multi_instrument_orderbo.Prelude.{
  ℕ, ◌+◌, ◌<◌, ◌≡◌, ◌≢◌, refl, some, List, [], ◌∷◌, ◌++◌, ℤ, arith, count, All, ap, sym, ◌∙◌, subst,
}
use multi_instrument_orderbo.Types.{Side, buy, sell, opposite}
use multi_instrument_orderbo.Level.{Links, PriceLevel}
use multi_instrument_orderbo.Level.Chain.{Holds}
use multi_instrument_orderbo.Level.Refine.{is_empty_nil, is_empty_cons}
use multi_instrument_orderbo.OrderedMap.{find, assign, remove, IsSorted}
use multi_instrument_orderbo.OrderedMap.Laws.{
  assign-IsSorted, remove-IsSorted, find-remove_ne, find-assign_self, find-assign_ne,
}
use multi_instrument_orderbo.OrderedMap.Related.{Related, Transfers, assign-Related, remove-Related}
use multi_instrument_orderbo.OrderBook.{Orders, OrderBook, Locator, levels, price_order, settle}
use multi_instrument_orderbo.OrderBook.View.{
  Queues, View, with_queues, slots, queue_or_empty, Placed, Located, count-assign, count-remove,
}
use multi_instrument_orderbo.OrderBook.Frame.{
  linked_all, Placed-assign, Placed-remove, AtPlace, ℤ-discrete,
}

-- The queues with a new queue at a price, which goes when it has no order.
abbrev pub settle_queue : Side → ℤ → List ℕ → Queues → Queues
settle_queue s k [] q = remove (price_order s) k q
settle_queue s k (y ∷ ys) q = assign (price_order s) k (y ∷ ys) q

pub count-settle_queue :
    (a : ℕ) (s : Side) (k : ℤ) (ys : List ℕ) (q : Queues)
    → count a (slots (settle_queue s k ys q)) + count a (queue_or_empty (find (price_order s) k q))
      ≡ count a ys + count a (slots q)
count-settle_queue a s k [] q = omega (arith, count-remove s a k q)
count-settle_queue a s k (y ∷ ys) q = count-assign s a k q (y ∷ ys)

pub settle_queue-IsSorted :
    (s : Side) (k : ℤ) (ys : List ℕ) (q : Queues)
    → IsSorted (price_order s) q
    → IsSorted (price_order s) (settle_queue s k ys q)
settle_queue-IsSorted s k [] q h = remove-IsSorted (price_order s) k q h
settle_queue-IsSorted s k (y ∷ ys) q h = assign-IsSorted (price_order s) k (y ∷ ys) q h

pub Placed-settle_queue :
    (orders : Orders) (s : Side) (k : ℤ) (ys : List ℕ) (q : Queues)
    → All (AtPlace orders s k) ys
    → Placed orders s q
    → Placed orders s (settle_queue s k ys q)
Placed-settle_queue orders s k [] q h t = Placed-remove orders s k q t
Placed-settle_queue orders s k (y ∷ ys) q h t = Placed-assign orders s k (y ∷ ys) q (λ e. cc) h t

pub All-drop_middle :
    (P : ℕ → Type 0) (front : List ℕ) (o : ℕ) (back : List ℕ)
    → All P (front ++ o ∷ back)
    → All P (front ++ back)
All-drop_middle P [] o back h = h.1
All-drop_middle P (x ∷ front) o back h = (h.0, All-drop_middle P front o back h.1)

find-settle_queue_self :
    (s : Side) (k : ℤ) (i : ℕ) (ys : List ℕ) (q : Queues)
    → 0 < count i ys
    → find (price_order s) k (settle_queue s k ys q) ≡ some ys
find-settle_queue_self s k i [] q m = absurd (omega arith)
find-settle_queue_self s k i (y ∷ ys) q m = find-assign_self (price_order s) k (y ∷ ys) q

find-settle_queue_ne :
    (s : Side) (k price : ℤ) (ys : List ℕ) (q : Queues)
    → IsSorted (price_order s) q
    → price ≢ k
    → find (price_order s) price (settle_queue s k ys q) ≡ find (price_order s) price q
find-settle_queue_ne s k price [] q o ne = find-remove_ne (price_order s) k price q o ne
find-settle_queue_ne s k price (y ∷ ys) q o ne =
    find-assign_ne (price_order s) k price (y ∷ ys) q ne

found-settle_queue :
    (s : Side) (k price : ℤ) (i : ℕ) (ys xs : List ℕ) (q : Queues)
    → IsSorted (price_order s) q
    → find (price_order s) price q ≡ some xs
    → 0 < count i xs
    → (0 < count i (queue_or_empty (find (price_order s) k q)) → 0 < count i ys)
    → (zs : List ℕ) × (find (price_order s) price (settle_queue s k ys q) ≡ some zs)
      × (0 < count i zs)
found-settle_queue s k price i ys xs q o e m h = elim (ℤ-discrete price k) [
  | yes same ↦
      let at_k : find (price_order s) k q ≡ some xs =
        subst (λ j. find (price_order s) j q ≡ some xs) same e in
      let stays : 0 < count i ys =
        h (omega (arith, m, ap (λ r. count i (queue_or_empty r)) at_k)) in
      (
        ys,
        subst (λ j. find (price_order s) j (settle_queue s k ys q) ≡ some ys) (sym same)
            (find-settle_queue_self s k i ys q stays),
        stays,
      )
  | no ne ↦ (xs, find-settle_queue_ne s k price ys q o ne ∙ e, m)
]

-- An order that stays in the queue, or stands elsewhere, keeps its place.
pub Located-settle_queue :
    (s t : Side) (k price : ℤ) (i : ℕ) (ys : List ℕ) (v : View)
    → IsSorted (price_order s) (v s)
    → Located v t price i
    → (0 < count i (queue_or_empty (find (price_order s) k (v s))) → 0 < count i ys)
    → Located (with_queues s (settle_queue s k ys (v s)) v) t price i
Located-settle_queue buy buy k price i ys v o l h =
    found-settle_queue buy k price i ys l.0 (v buy) o l.1 l.2 h
Located-settle_queue buy sell k price i ys v o l h = l
Located-settle_queue sell buy k price i ys v o l h = l
Located-settle_queue sell sell k price i ys v o l h =
    found-settle_queue sell k price i ys l.0 (v sell) o l.1 l.2 h

-- The levels after `settle`.
pub settle-Related :
    (lk lk' : Links) (s : Side) (k : ℤ) (l : PriceLevel) (ys : List ℕ) (b : OrderBook) (v : View)
    → IsSorted (price_order s) (v s)
    → Related (Holds lk) (levels s b) (v s)
    → Transfers (price_order s) (Holds lk) (Holds lk') k (v s)
    → Holds lk' l ys
    → Related (Holds lk') (levels (opposite s) b) (v (opposite s))
    → (t : Side)
    → Related
        (Holds lk')
        (levels t (settle s k l b))
        (with_queues s (settle_queue s k ys (v s)) v t)
unfolding settle
settle-Related lk lk' s k l [] b v o r tr h other = rw (is_empty_nil lk' l h) (
    linked_all lk' s _ b _ v
      (remove-Related (price_order s) (Holds lk) (Holds lk') k (levels s b) (v s) o r tr) other)
settle-Related lk lk' s k l (y ∷ ys) b v o r tr h other = rw (is_empty_cons lk' l y ys h) (
    linked_all lk' s _ b _ v
      (assign-Related (price_order s) (Holds lk) (Holds lk') k l (y ∷ ys) (levels s b) (v s) o r tr
        h)
      other)

pub settle-order_map :
    (s : Side) (k : ℤ) (l : PriceLevel) (b : OrderBook) → (settle s k l b).order_map ≡ b.order_map
unfolding settle
settle-order_map buy k l b = ground arith
settle-order_map sell k l b = ground arith

pub levels_index :
    (s : Side) (b : OrderBook) (map : List (ℕ × Locator))
    → levels s b ≡ levels s (record b { order_map = map })
levels_index buy b map = refl
levels_index sell b map = refl
