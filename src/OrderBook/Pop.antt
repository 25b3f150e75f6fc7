-- ===== src/OrderBook/Pop.antt =====
-- `OrderBook::peek_top` and `pop_top`: the oldest order at the best price.
use multi_instrument_orderbo.Prelude.{
  ℕ, suc, ◌+◌, ◌<◌, ◌≡◌, ◌≢◌, refl, if◌then◌else◌, Option, none, some, List, [], ◌∷◌, ℤ, arith,
  count, count-append, inl, inr, Bool-cases, some-eq, ap, sym, ◌∙◌, subst, length, length-append,
}
use native.Mathlib.Decide.{ℕ_discrete}
use multi_instrument_orderbo.Types.{Side, buy, sell, opposite}
use multi_instrument_orderbo.Level.{Links, PriceLevel, is_empty}
use multi_instrument_orderbo.Level.Chain.{Holds}
use multi_instrument_orderbo.Level.Refine.{Popped, pop_front-Popped, is_empty_nil, is_empty_cons}
use multi_instrument_orderbo.OrderedMap.{find, IsSorted}
use multi_instrument_orderbo.OrderedMap.Related.{Related, Related-cons}
use multi_instrument_orderbo.HashMap.{lookup, delete, lookup-delete}
use multi_instrument_orderbo.OrderBook.{
  Orders, OrderBook, Locator, Levels, levels, with_levels, price_order, better, peek_top, pop_top,
  top_of, pop_level,
}
use multi_instrument_orderbo.OrderBook.View.{
  Queues, View, with_queues, slots, resting, Placed, Located, Listed, Models, count-with_queues,
  count-side, count-sides,
}
use multi_instrument_orderbo.OrderBook.Frame.{
  with_queues_all, linked_all, linked_index, Related-frame, SameLinks, SameLinks-of_frame,
}

-- The first order of the best queue, and the queues without it.
abbrev pub first_order : Queues → Option ℕ
first_order [] = none
first_order ((p, []) ∷ q) = none
first_order ((p, x ∷ xs) ∷ q) = some x

abbrev pub drop_first : ℤ → List ℕ → Queues → Queues
drop_first p [] q = q
drop_first p (y ∷ ys) q = (p, y ∷ ys) ∷ q

-- `peek_top` shows the first order of the best queue, and null on an empty side.
pub peek_top_lem :
    (orders : Orders) (lk : Links) (b : OrderBook) (v : View) (s : Side)
    → Models orders lk b v
    → peek_top s b ≡ first_order (v s)
unfolding peek_top
peek_top_lem orders lk b v s h = top (levels s b) (v s) (h.linked s)
  where
    top : (m : Levels) (q : Queues) → Related (Holds lk) m q → top_of m ≡ first_order q
    top [] [] r = refl
    top [] (_ ∷ q) r = absurd r
    top (_ ∷ m) [] r = absurd r
    top ((j, l) ∷ m) ((p, []) ∷ q) r = r.1.chain
    top ((j, l) ∷ m) ((p, x ∷ xs) ∷ q) r = r.1.chain.0

count-drop_first :
    (a : ℕ) (p : ℤ) (xs : List ℕ) (q : Queues)
    → count a (slots (drop_first p xs q)) ≡ count a xs + count a (slots q)
count-drop_first a p [] q = omega arith
count-drop_first a p (y ∷ ys) q = omega (arith, count-append a ys (slots q))

Placed-drop_first :
    (orders : Orders) (s : Side) (p : ℤ) (x : ℕ) (xs : List ℕ) (q : Queues)
    → Placed orders s ((p, x ∷ xs) ∷ q)
    → Placed orders s (drop_first p xs q)
Placed-drop_first orders s p x [] q t = t.2
Placed-drop_first orders s p x (y ∷ ys) q t = ((λ e. cc), t.1.1, t.2)

IsSorted-drop_first :
    (s : Side) (p : ℤ) (x : ℕ) (xs : List ℕ) (q : Queues)
    → IsSorted (price_order s) ((p, x ∷ xs) ∷ q)
    → IsSorted (price_order s) (drop_first p xs q)
IsSorted-drop_first s p x [] q t = t.1
IsSorted-drop_first s p x (y ∷ ys) q t = t

-- Another order of the side keeps its place.
find-drop_first :
    (s : Side) (p price : ℤ) (x o : ℕ) (xs zs : List ℕ) (q : Queues)
    → o ≢ x
    → find (price_order s) price ((p, x ∷ xs) ∷ q) ≡ some zs
    → 0 < count o zs
    → (ys : List ℕ) × (find (price_order s) price (drop_first p xs q) ≡ some ys) × (0 < count o ys)
unfolding find
find-drop_first s p price x o [] zs q ne e m = elim (Bool-cases (better s p price)) [
  | inl f ↦ (zs, rw f at e, m)
  | inr f ↦ elim (Bool-cases (better s price p)) [
    | inl g ↦ absurd (cc (rw (f, g) at e))
    | inr g ↦
        let same : some (x ∷ []) ≡ some zs = rw (f, g) at e in
        absurd (ground (arith, ap (count o) (some-eq same), ne))
  ]
]
find-drop_first s p price x o (y ∷ ys) zs q ne e m = elim (Bool-cases (better s p price)) [
  | inl f ↦ (zs, rw f (rw f at e), m)
  | inr f ↦ elim (Bool-cases (better s price p)) [
    | inl g ↦ absurd (cc (rw (f, g) at e))
    | inr g ↦
        let same : some (x ∷ y ∷ ys) ≡ some zs = rw (f, g) at e in
        (y ∷ ys, rw (f, g), ground (arith, ap (count o) (some-eq same), ne))
  ]
]

Located-drop_first :
    (s t : Side) (p price : ℤ) (x o : ℕ) (xs : List ℕ) (q : Queues) (v : View)
    → v s ≡ (p, x ∷ xs) ∷ q
    → o ≢ x
    → Located v t price o
    → Located (with_queues s (drop_first p xs q) v) t price o
Located-drop_first buy buy p price x o xs q v e ne l =
    find-drop_first buy p price x o xs l.0 q ne (ap (find (price_order buy) price) (sym e) ∙ l.1)
      l.2
Located-drop_first buy sell p price x o xs q v e ne l = l
Located-drop_first sell buy p price x o xs q v e ne l = l
Located-drop_first sell sell p price x o xs q v e ne l =
    find-drop_first sell p price x o xs l.0 q ne (ap (find (price_order sell) price) (sym e) ∙ l.1)
      l.2

-- What `pop_top` does where the order `x` is on top of the side.
pub record PoppedTop (orders : Orders) (s : Side) (lk : Links) (b : OrderBook) (x : ℕ) (xs : List ℕ)
    (v : View) : Type 0 where
  pub links : Links
  pub book : OrderBook
  pub runs : pop_top orders s lk b ≡ some (links, book)
  pub models : Models orders links book v
  pub unindexed : book.order_map ≡ delete (orders x).id b.order_map
  pub links_kept : (a : ℕ) → count a (x ∷ xs) ≡ 0 → SameLinks lk links a

length-drop_first :
    (p : ℤ) (xs : List ℕ) (q : Queues)
    → length (slots (drop_first p xs q)) ≡ length xs + length (slots q)
length-drop_first p [] q = omega arith
length-drop_first p (y ∷ ys) q = omega (arith, length-append ys (slots q))

length-with_queues :
    (s : Side) (v : View) (p : ℤ) (x : ℕ) (xs : List ℕ) (q : Queues)
    → v s ≡ (p, x ∷ xs) ∷ q
    → suc (length (resting (with_queues s (drop_first p xs q) v))) ≡ length (resting v)
length-with_queues buy v p x xs q e = omega (
  arith,
  length-append (slots (drop_first p xs q)) (slots (v sell)),
  length-append (slots (v buy)) (slots (v sell)),
  length-drop_first p xs q,
  ap (λ r. length (slots r)) e,
  length-append xs (slots q),
)
length-with_queues sell v p x xs q e = omega (
  arith,
  length-append (slots (v buy)) (slots (drop_first p xs q)),
  length-append (slots (v buy)) (slots (v sell)),
  length-drop_first p xs q,
  ap (λ r. length (slots r)) e,
  length-append xs (slots q),
)

Related-drop_first :
    (lk : Links) (p : ℤ) (l : PriceLevel) (m : Levels) (xs : List ℕ) (q : Queues)
    → Holds lk l xs
    → Related (Holds lk) m q
    → Related (Holds lk) (if is_empty l then m else (p, l) ∷ m) (drop_first p xs q)
Related-drop_first lk p l m [] q h r = rw (is_empty_nil lk l h) r
Related-drop_first lk p l m (y ∷ ys) q h r = rw (is_empty_cons lk l y ys h) (refl, h, r)

module _ (orders : Orders) (lk : Links) (b : OrderBook) (v : View) (h : Models orders lk b v)
    (s : Side) (p : ℤ) (x : ℕ) (xs : List ℕ) (q : Queues) (top : v s ≡ (p, x ∷ xs) ∷ q) where
  abbrev left : View
  left = with_queues s (drop_first p xs q) v

  count-side_top : (a : ℕ) → count a (slots (v s)) ≡ count a (x ∷ xs) + count a (slots q)
  count-side_top a = rw top (count-append a (x ∷ xs) (slots q))

  pub count-left : (a : ℕ) → count a (resting left) + count a (x ∷ []) ≡ count a (resting v)
  count-left a = omega (
    arith,
    count-with_queues a s (drop_first p xs q) v,
    count-drop_first a p xs q,
    count-side_top a,
  )

  -- One order less rests in the book.
  pub length-left : suc (length (resting left)) ≡ length (resting v)
  length-left = length-with_queues s v p x xs q top

  Listed-left :
      (id : ℕ) (loc : Locator)
      → lookup id (delete (orders x).id b.order_map) ≡ some loc
      → Listed orders left id loc
  Listed-left id loc e = elim (ℕ_discrete (orders x).id id) [
    | yes same ↦ absurd (ground (arith, e, lookup-delete (orders x).id id b.order_map))
    | no ne ↦
        let (same_id, place) =
          h.listed id loc (ground (arith, e, lookup-delete (orders x).id id b.order_map)) in
        (
          same_id,
          Located-drop_first s loc.side p loc.price x loc.order xs q v top
              (λ eq. ne (ap (λ i. (orders i).id) (sym eq) ∙ same_id)) place,
        )
  ]

  -- Any book over levels that stand for the remaining queues models them.
  Models-left :
      (lk' : Links) (b' : OrderBook)
      → ((t : Side) → Related (Holds lk') (levels t b') (left t))
      → b'.order_map ≡ delete (orders x).id b.order_map
      → Models orders lk' b' left
  Models-left lk' b' linked same = record {
    linked = linked;
    sorted =
        with_queues_all (λ t r. IsSorted (price_order t) r) s (drop_first p xs q) v
          (IsSorted-drop_first s p x xs q (subst (IsSorted (price_order s)) top (h.sorted s)))
          (h.sorted _);
    placed =
        with_queues_all (Placed orders) s (drop_first p xs q) v
          (Placed-drop_first orders s p x xs q (subst (Placed orders s) top (h.placed s)))
          (h.placed _);
    unique = λ a. omega (arith, count-left a, h.unique a);
    listed = λ id loc e. Listed-left id loc (ap (lookup id) (sym same) ∙ e);
  }

  pop_linked :
      (l : PriceLevel) (m : Levels) (popped : Popped lk l x xs)
      → Related (Holds lk) m q
      → (t : Side)
      → Related
          (Holds popped.links)
          (levels t (with_levels s (if is_empty popped.level then m else (p, popped.level) ∷ m) b))
          (left t)
  pop_linked l m popped rel =
      linked_all popped.links s _ b (drop_first p xs q) v
        (Related-drop_first popped.links p popped.level m xs q popped.holds (
          Related-frame lk popped.links (x ∷ xs) popped.frame m q
            (λ a. omega (arith, h.unique a, count-side a s v, count-side_top a)) rel))
        (Related-frame lk popped.links (x ∷ xs) popped.frame (levels (opposite s) b)
          (v (opposite s)) (λ a. omega (arith, h.unique a, count-sides a s v, count-side_top a))
          (h.linked _))

  pop_top_at :
      (l : PriceLevel) (m : Levels)
      → levels s b ≡ (p, l) ∷ m
      → Holds lk l (x ∷ xs)
      → Related (Holds lk) m q
      → Popped lk l x xs
      → PoppedTop orders s lk b x xs left
  unfolding pop_top pop_level
  pop_top_at l m at_top holds rel popped = record {
    links = popped.links;
    book = record (with_levels s (if is_empty popped.level then m else (p, popped.level) ∷ m) b) {
      order_map = delete (orders x).id b.order_map;
    };
    runs = rw (at_top, pop_level) (simp (holds.chain.0, popped.runs));
    models = Models-left popped.links _ (linked_index s _ b _ (pop_linked l m popped rel)) refl;
    unindexed = refl;
    links_kept = SameLinks-of_frame lk popped.links (x ∷ xs) popped.frame;
  }

  -- `pop_top` succeeds on a side with an order and takes exactly that order out of the book.
  pub pop_top-PoppedTop : PoppedTop orders s lk b x xs left
  pop_top-PoppedTop =
      let (l, m, at_top, holds, rel) =
        Related-cons (Holds lk) (levels s b) p (x ∷ xs) q
          (subst (Related (Holds lk) (levels s b)) top (h.linked s)) in
      pop_top_at l m at_top holds rel (pop_front-Popped lk l x xs holds)
