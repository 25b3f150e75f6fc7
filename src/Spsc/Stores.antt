-- ===== src/Spsc/Stores.antt =====
-- Reads of a function behind a write.
use multi_instrument_orderbo.Prelude.{ℕ, ◌≡◌, ◌≢◌, refl, sym, subst, arith}
use native.Mathlib.Decide.{ℕ_discrete}
use multi_instrument_orderbo.Spsc.{store}

-- A read behind a write.
pub store_cases {ℓ ℓ'} :
    {A : Type ℓ} (P : ℕ → A → Type ℓ') (i : ℕ) (v : A) (f : ℕ → A)
    → P i v
    → ((j : ℕ) → i ≢ j → P j (f j))
    → (j : ℕ) → P j (store i v f j)
store_cases P i v f here there j = elim (ℕ_discrete i j) [
  | yes same ↦ subst (λ k. P k (store i v f k)) same (subst (P i) (sym at_i) here)
  | no ne ↦ subst (P j) (sym (at_j ne)) (there j ne)
]
  where
    at_i : store i v f i ≡ v
    at_i = ground arith

    at_j : i ≢ j → store i v f j ≡ f j
    at_j ne = ground (arith, ne)

-- A read of two maps behind writes at the same key.
pub two_stores {ℓ ℓ' ℓ''} :
    {A : Type ℓ} {B : Type ℓ'} (P : ℕ → A → B → Type ℓ'') (i : ℕ) (u : A) (v : B) (f : ℕ → A)
    (g : ℕ → B)
    → P i u v
    → ((j : ℕ) → i ≢ j → P j (f j) (g j))
    → (j : ℕ) → P j (store i u f j) (store i v g j)
two_stores P i u v f g here there =
    store_cases (λ j y. P j (store i u f j) y) i v g
      (store_cases (λ j x. (i ≡ j) → P j x v) i u f (λ e. here) (λ j ne e. absurd (ne e)) i refl)
      (λ j ne.
        store_cases (λ k x. (j ≡ k) → P k x (g k)) i u f (λ e. absurd (ne (sym e)))
          (λ k ok e. there k ok) j refl)
