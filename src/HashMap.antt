-- ===== src/HashMap.antt =====
-- `std::unordered_map` with integer keys, as the code uses it: a list of entries, of which the
-- first at a key counts. Nothing here depends on the order of the entries.
use multi_instrument_orderbo.Prelude.{
  ℕ, ◌≡◌, refl, if◌then◌else◌, ◌==◌, Option, none, some, List, [], ◌∷◌, arith, Option-cases, inl,
  inr, ap, ◌⊎◌, some-eq,
}
use native.Mathlib.Decide.{ℕ_discrete}

module _ {ℓ} {V : Type ℓ} where
  -- `find(k)`, `none` for `end()`.
  unfoldable pub lookup : ℕ → List (ℕ × V) → Option V
  lookup k [] = none
  lookup k ((j, v) ∷ m) = if j == k then some v else lookup k m

  -- `emplace(k, v)` leaves an entry that is there as it is.
  unfoldable pub emplace : ℕ → V → List (ℕ × V) → List (ℕ × V)
  unfolding lookup
  emplace k v m = elim (lookup k m) [ some w ↦ m | none ↦ (k, v) ∷ m ]

  -- `erase(k)`
  unfoldable pub delete : ℕ → List (ℕ × V) → List (ℕ × V)
  delete k [] = []
  delete k ((j, v) ∷ m) = if j == k then delete k m else (j, v) ∷ delete k m

  pub lookup-emplace :
      (k j : ℕ) (v : V) (m : List (ℕ × V))
      → lookup j (emplace k v m)
        ≡ (if k == j then elim (lookup k m) [ none ↦ some v | some w ↦ some w ] else lookup j m)
  unfolding emplace lookup
  lookup-emplace k j v m = elim (Option-cases (lookup k m)) [
    | inl e ↦ rw (e, emplace) refl
    | inr (w, e) ↦ rw (e, emplace) (keep w e)
  ]
    where
      keep : (w : V) → lookup k m ≡ some w → lookup j m ≡ (if k == j then some w else lookup j m)
      keep w e = ground (arith, e, λ (f : k ≡ j). ap (λ i. lookup i m) f)

  pub lookup-delete :
      (k j : ℕ) (m : List (ℕ × V)) → lookup j (delete k m) ≡ (if k == j then none else lookup j m)
  unfolding lookup delete
  lookup-delete k j [] = ground arith
  lookup-delete k j ((i, v) ∷ m) = ground (arith, lookup-delete k j m)

  -- What an entry can be after `emplace`: an old one, or the new one.
  pub lookup-emplace_cases :
      (k j : ℕ) (v w : V) (m : List (ℕ × V))
      → lookup j (emplace k v m) ≡ some w
      → (lookup j m ≡ some w) ⊎ ((k ≡ j) × (v ≡ w))
  unfolding emplace lookup
  lookup-emplace_cases k j v w m e = elim (Option-cases (lookup k m)) [
    | inl absent ↦ new (rw (absent, emplace) at e)
    | inr (u, present) ↦ inl (rw (present, emplace) at e)
  ]
    where
      new :
          (if k == j then some v else lookup j m) ≡ some w
          → (lookup j m ≡ some w) ⊎ ((k ≡ j) × (v ≡ w))
      new f = elim (ℕ_discrete k j) [
        | yes same ↦ inr (same, some-eq (ground (arith, f)))
        | no ne ↦ inl (ground (arith, f))
      ]
