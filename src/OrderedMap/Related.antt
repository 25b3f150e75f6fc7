-- ===== src/OrderedMap/Related.antt =====
-- Two maps over the same keys whose values are related entry by entry: how a map of price levels
-- stands for a map of lists. A write to both keeps that.
use multi_instrument_orderbo.Prelude.{
  ◌≡◌, true, none, some, List, [], ◌∷◌, refl, arith, Bool-cases, inl, inr, ◌⊎◌, subst, some-eq, ap,
}
use multi_instrument_orderbo.OrderedMap.{KeyOrder, find, assign, remove, Behind, IsSorted}
use multi_instrument_orderbo.OrderedMap.Laws.{Behind-trans}

abbrev pub Related : {K V W : Type 0} → (V → W → Type 0) → List (K × V) → List (K × W) → Type 0
Related R [] [] = Unit {0}
Related R [] (e ∷ n) = ⊥
Related R (e ∷ m) [] = ⊥
Related R ((j, v) ∷ m) ((i, w) ∷ n) = (j ≡ i) × R v w × Related R m n

-- A value found in the second map, with the related one of the first.
pub record Found {K V W : Type 0} (ord : KeyOrder K) (R : V → W → Type 0) (k : K) (m : List (K × V))
    (w : W) : Type 0 where
  pub value : V
  pub found : find ord k m ≡ some value
  pub holds : R value w

module _ {K : Type 0} (ord : KeyOrder K) where
  open ord use {before}

  -- What `P` asks of the values at keys other than `k`.
  abbrev pub Elsewhere : {W : Type 0} → K → (W → Type 0) → List (K × W) → Type 0
  Elsewhere k P [] = Unit {0}
  Elsewhere k P ((j, w) ∷ n) = (((before j k ≡ true) ⊎ (before k j ≡ true)) → P w) × Elsewhere k P n

  pub Elsewhere-map :
      {W : Type 0} (k : K) (P Q : W → Type 0) (n : List (K × W))
      → ((w : W) → P w → Q w)
      → Elsewhere k P n
      → Elsewhere k Q n
  Elsewhere-map k P Q [] h e = tt
  Elsewhere-map k P Q ((j, w) ∷ n) h e = ((λ ne. h w (e.0 ne)), Elsewhere-map k P Q n h e.1)

module _ {K V W : Type 0} (ord : KeyOrder K) (R : V → W → Type 0) where
  open ord use {before}

  pub find-Found :
      (k : K) (m : List (K × V)) (n : List (K × W)) (w : W)
      → Related R m n
      → find ord k n ≡ some w
      → Found ord R k m w
  unfolding find
  find-Found k [] [] w r e = cc
  find-Found k [] (_ ∷ n) w r e = absurd r
  find-Found k (_ ∷ m) [] w r e = absurd r
  find-Found k ((j, v) ∷ m) ((i, x) ∷ n) w r e = elim (Bool-cases (before i k)) [
    | inl f ↦
        let rest = find-Found k m n w r.2 (rw f at e) in
        record { value = rest.value; found = rw (r.0, f) rest.found; holds = rest.holds }
    | inr f ↦ elim (Bool-cases (before k i)) [
      | inl g ↦ absurd (cc (rw (f, g) at e))
      | inr g ↦
          let same : some x ≡ some w = rw (f, g) at e in
          record { value = v; found = rw (r.0, f, g); holds = subst (R v) (some-eq same) r.1 }
    ]
  ]

  pub find-none :
      (k : K) (m : List (K × V)) (n : List (K × W))
      → Related R m n
      → find ord k n ≡ none
      → find ord k m ≡ none
  unfolding find
  find-none k [] [] r e = refl
  find-none k [] (_ ∷ n) r e = absurd r
  find-none k (_ ∷ m) [] r e = absurd r
  find-none k ((j, v) ∷ m) ((i, x) ∷ n) r e = rw r.0 (ground (arith, find-none k m n r.2))

module _ {K V W : Type 0} (ord : KeyOrder K) (R R' : V → W → Type 0) (k : K) where
  open ord use {before}

  -- The values at other keys, as they are now to be related.
  abbrev pub Transfers : List (K × W) → Type 0
  Transfers n = Elsewhere ord k (λ x. (u : V) → R u x → R' u x) n

  Related-Behind :
      (m : List (K × V)) (n : List (K × W))
      → Behind ord k n
      → Related R m n
      → Transfers n
      → Related R' m n
  Related-Behind [] [] b r t = tt
  Related-Behind [] (_ ∷ n) b r t = absurd r
  Related-Behind (_ ∷ m) [] b r t = absurd r
  Related-Behind ((j, x) ∷ m) ((i, y) ∷ n) b r t =
      (r.0, t.0 (inr b.0) x r.1, Related-Behind m n b.1 r.2 t.1)

  Behind-eq : (i : K) (n : List (K × W)) → i ≡ k → Behind ord i n → Behind ord k n
  Behind-eq i n e b = subst (λ j. Behind ord j n) e b

  -- A write at one key of both maps.
  pub assign-Related :
      (v : V) (w : W) (m : List (K × V)) (n : List (K × W))
      → IsSorted ord n
      → Related R m n
      → Transfers n
      → R' v w
      → Related R' (assign ord k v m) (assign ord k w n)
  unfolding assign
  assign-Related v w [] [] s r t h = (refl, h, tt)
  assign-Related v w [] (_ ∷ n) s r t h = absurd r
  assign-Related v w (_ ∷ m) [] s r t h = absurd r
  assign-Related v w ((j, x) ∷ m) ((i, y) ∷ n) s r t h = elim (Bool-cases (before i k)) [
    | inl e ↦ rw (r.0, e) (refl, t.0 (inl e) x r.1, assign-Related v w m n s.1 r.2 t.1 h)
    | inr e ↦ elim (Bool-cases (before k i)) [
      | inl f ↦
          rw (r.0, e, f)
            (
              refl,
              h,
              (refl, t.0 (inr f) x r.1, Related-Behind m n (Behind-trans ord k i n f s.0) r.2 t.1),
            )
      | inr f ↦
          rw (r.0, e, f)
            (refl, h, Related-Behind m n (Behind-eq i n (ord.before_connex i k e f) s.0) r.2 t.1)
    ]
  ]

  -- The removal of one key from both maps.
  pub remove-Related :
      (m : List (K × V)) (n : List (K × W))
      → IsSorted ord n
      → Related R m n
      → Transfers n
      → Related R' (remove ord k m) (remove ord k n)
  unfolding remove
  remove-Related [] [] s r t = tt
  remove-Related [] (_ ∷ n) s r t = absurd r
  remove-Related (_ ∷ m) [] s r t = absurd r
  remove-Related ((j, x) ∷ m) ((i, y) ∷ n) s r t = elim (Bool-cases (before i k)) [
    | inl e ↦ rw (r.0, e) (refl, t.0 (inl e) x r.1, remove-Related m n s.1 r.2 t.1)
    | inr e ↦ elim (Bool-cases (before k i)) [
      | inl f ↦
          rw (r.0, e, f)
            (refl, t.0 (inr f) x r.1, Related-Behind m n (Behind-trans ord k i n f s.0) r.2 t.1)
      | inr f ↦
          rw (r.0, e, f)
            (Related-Behind m n (Behind-eq i n (ord.before_connex i k e f) s.0) r.2 t.1)
    ]
  ]

pub Related-cons :
    {K V W : Type 0} (R : V → W → Type 0) (m : List (K × V)) (k : K) (w : W) (n : List (K × W))
    → Related R m ((k, w) ∷ n)
    → (v : V) × (m' : List (K × V)) × (m ≡ (k, v) ∷ m') × R v w × Related R m' n
Related-cons R [] k w n r = absurd r
Related-cons R ((j, v) ∷ m) k w n r = (v, m, ap (λ i. (i, v) ∷ m) r.0, r.1, r.2)
