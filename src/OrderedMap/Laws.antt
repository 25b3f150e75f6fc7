-- ===== src/OrderedMap/Laws.antt =====
-- The laws of a map, and that its writes keep the entries in order.
use multi_instrument_orderbo.Prelude.{
  ◌≡◌, true, false, none, some, List, [], ◌∷◌, refl, sym, ap, ◌∙◌, arith, ◌≢◌, Bool-cases, inl, inr,
}
use multi_instrument_orderbo.OrderedMap.{KeyOrder, find, assign, remove, Behind, IsSorted}

module _ {ℓ} {K : Type ℓ} (ord : KeyOrder K) where
  open ord use {before}

  pub before_asym : (a b : K) → before a b ≡ true → before b a ≡ false
  before_asym a b e = elim (Bool-cases (before b a)) [
    | inl f ↦ absurd (cc (ord.before_trans a b a e f, ord.before_irrefl a))
    | inr f ↦ f
  ]

module _ {ℓ κ} {K : Type ℓ} {V : Type κ} (ord : KeyOrder K) where
  open ord use {before}

  pub Behind-trans :
      (k j : K) (m : List (K × V)) → before k j ≡ true → Behind ord j m → Behind ord k m
  Behind-trans k j [] e b = tt
  Behind-trans k j ((i, w) ∷ m) e b = (ord.before_trans k j i e b.0, Behind-trans k j m e b.1)

  -- A read after a write at one key.
  pub find-assign_self : (k : K) (v : V) (m : List (K × V)) → find ord k (assign ord k v m) ≡ some v
  unfolding find assign
  find-assign_self k v [] = ground (arith, ord.before_irrefl k)
  find-assign_self k v ((j, w) ∷ m) = ground (arith, ord.before_irrefl k, find-assign_self k v m)

  pub Behind-assign :
      (k j : K) (v : V) (m : List (K × V))
      → before j k ≡ true
      → Behind ord j m
      → Behind ord j (assign ord k v m)
  unfolding assign
  Behind-assign k j v [] e b = (e, tt)
  Behind-assign k j v ((i, w) ∷ m) e b = ground (arith, Behind-assign k j v m e b.1)

  pub Behind-remove : (k j : K) (m : List (K × V)) → Behind ord j m → Behind ord j (remove ord k m)
  unfolding remove
  Behind-remove k j [] b = tt
  Behind-remove k j ((i, w) ∷ m) b = ground (arith, Behind-remove k j m b.1)

  pub assign-IsSorted :
      (k : K) (v : V) (m : List (K × V)) → IsSorted ord m → IsSorted ord (assign ord k v m)
  unfolding assign
  assign-IsSorted k v [] s = (tt, tt)
  assign-IsSorted k v ((j, w) ∷ m) s = elim (Bool-cases (before j k)) [
    | inl e ↦ rw e (Behind-assign k j v m e s.0, assign-IsSorted k v m s.1)
    | inr e ↦ elim (Bool-cases (before k j)) [
      | inl f ↦ rw (e, f) ((f, Behind-trans k j m f s.0), s)
      | inr f ↦ ground (arith, ord.before_connex j k e f)
    ]
  ]

  pub remove-IsSorted : (k : K) (m : List (K × V)) → IsSorted ord m → IsSorted ord (remove ord k m)
  unfolding remove
  remove-IsSorted k [] s = tt
  remove-IsSorted k ((j, w) ∷ m) s =
      ground (arith, Behind-remove k j m s.0, remove-IsSorted k m s.1)

  pub find-Behind :
      (k j : K) (m : List (K × V)) → before k j ≡ true → Behind ord j m → find ord k m ≡ none
  unfolding find
  find-Behind k j [] e b = refl
  find-Behind k j ((i, w) ∷ m) e b =
      let ahead = ord.before_trans k j i e b.0 in
      ground (arith, ahead, before_asym ord k i, find-Behind k j m e b.1)

  find_eq : (k j : K) (m : List (K × V)) → j ≡ k → Behind ord j m → find ord k m ≡ none
  unfolding find
  find_eq k j [] e b = refl
  find_eq k j ((i, w) ∷ m) e b =
      let ahead : before k i ≡ true = ap (λ x. before x i) (sym e) ∙ b.0 in
      ground (arith, ahead, before_asym ord k i, find_eq k j m e b.1)

  -- A read after a write at another key.
  pub find-assign_ne :
      (k j : K) (v : V) (m : List (K × V)) → j ≢ k → find ord j (assign ord k v m) ≡ find ord j m
  unfolding find assign
  find-assign_ne k j v [] ne = ground (arith, ord.before_connex j k)
  find-assign_ne k j v ((i, w) ∷ m) ne = elim (Bool-cases (before i k)) [
    | inl e ↦ rw e (ground (arith, find-assign_ne k j v m ne))
    | inr e ↦ elim (Bool-cases (before k i)) [
      | inl f ↦
          rw (e, f)
            (ground (arith, ne, ord.before_connex j k, ord.before_trans j k i, before_asym ord j i))
      | inr f ↦
          rw (e, f)
            (ground (
              arith,
              ne,
              ord.before_connex j k,
              ord.before_connex i k e f,
              ap (λ x. before x j) (ord.before_connex i k e f),
              ap (before j) (ord.before_connex i k e f),
            ))
    ]
  ]

  -- A key that was erased is gone.
  pub find-remove_self :
      (k : K) (m : List (K × V)) → IsSorted ord m → find ord k (remove ord k m) ≡ none
  unfolding find remove
  find-remove_self k [] s = refl
  find-remove_self k ((j, w) ∷ m) s = elim (Bool-cases (before j k)) [
    | inl e ↦ rw e (ground (arith, find-remove_self k m s.1))
    | inr e ↦ elim (Bool-cases (before k j)) [
      | inl f ↦ rw (e, f) (ground (arith))
      | inr f ↦ rw (e, f) (find_eq k j m (ord.before_connex j k e f) s.0)
    ]
  ]

  -- The three cases of a search at an entry.
  pub find_past :
      (k j : K) (v : V) (m : List (K × V))
      → before j k ≡ true
      → find ord k ((j, v) ∷ m) ≡ find ord k m
  unfolding find
  find_past k j v m e = rw e

  pub find_short :
      (k j : K) (v : V) (m : List (K × V))
      → before j k ≡ false
      → before k j ≡ true
      → find ord k ((j, v) ∷ m) ≡ none
  unfolding find
  find_short k j v m e f = rw (e, f)

  pub find_hit :
      (k j : K) (v : V) (m : List (K × V))
      → before j k ≡ false
      → before k j ≡ false
      → find ord k ((j, v) ∷ m) ≡ some v
  unfolding find
  find_hit k j v m e f = rw (e, f)

  -- An erasure leaves every other key.
  pub find-remove_ne :
      (k j : K) (m : List (K × V))
      → IsSorted ord m
      → j ≢ k
      → find ord j (remove ord k m) ≡ find ord j m
  unfolding find remove
  find-remove_ne k j [] s ne = refl
  find-remove_ne k j ((i, w) ∷ m) s ne = elim (Bool-cases (before i k)) [
    | inl e ↦ rw e (ground (arith, find-remove_ne k j m s.1 ne))
    | inr e ↦ elim (Bool-cases (before k i)) [
      | inl f ↦ rw (e, f) refl
      | inr f ↦
          rw (e, f)
            (elim (Bool-cases (before i j)) [
              | inl g ↦ rw g refl
              | inr g ↦ elim (Bool-cases (before j i)) [
                | inl g' ↦ rw (g, g') (find-Behind j i m g' s.0)
                | inr g' ↦ absurd (ne (ord.before_connex j i g' g ∙ ord.before_connex i k e f))
              ]
            ])
    ]
  ]
