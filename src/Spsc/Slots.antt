-- ===== src/Spsc/Slots.antt =====
-- The slots of a ring by the number of elements that went through it.
use multi_instrument_orderbo.Prelude.{
  ℕ, suc, ◌+◌, ◌-◌, ◌%◌, ◌≤◌, ◌<◌, ◌≡◌, ◌≢◌, ap, ◌∙◌, if◌then◌else◌, List, [], ◌∷◌, ◌++◌, length,
  arith, Bool-cases, inl, inr, ltb, ltb→lt,
}
use native.Mathlib.Nat.{mod-eq_of_lt, add-mod_right}
use multi_instrument_orderbo.Spsc.{store}

-- Two counts less than a round apart have different slots.
pub mod-ne : (a b c : ℕ) → a < b → b < a + c → a % c ≢ b % c
mod-ne a b c h k e = grind (arith, e)

module _ {ℓ} {A : Type ℓ} (c : ℕ) where
  -- The slots from the count `n` on hold these elements.
  abbrev pub Slots : (ℕ → A) → ℕ → List A → Type ℓ
  Slots buffer n [] = Unit {ℓ}
  Slots buffer n (x ∷ xs) = (buffer (n % c) ≡ x) × Slots buffer (suc n) xs

  pub Slots-store :
      (buffer : ℕ → A) (v : A) (t n : ℕ) (xs : List A)
      → n + length xs ≤ t
      → t < n + c
      → Slots buffer n xs
      → Slots (store (t % c) v buffer) n xs
  Slots-store buffer v t n [] h k s = tt
  Slots-store buffer v t n (x ∷ xs) h k s =
      let ne = mod-ne n t c (omega arith) k in
      (ground (arith, ne, s.0), Slots-store buffer v t (suc n) xs (omega arith) (omega arith) s.1)

  pub Slots-snoc :
      (buffer : ℕ → A) (v : A) (n : ℕ) (xs : List A)
      → Slots buffer n xs
      → buffer ((n + length xs) % c) ≡ v
      → Slots buffer n (xs ++ v ∷ [])
  Slots-snoc buffer v n [] s e = (ap (λ i. buffer (i % c)) (omega arith) ∙ e, tt)
  Slots-snoc buffer v n (x ∷ xs) s e =
      (s.0, Slots-snoc buffer v (suc n) xs s.1 (ap (λ i. buffer (i % c)) (omega arith) ∙ e))

wrap : (i q c : ℕ) → i < c → q < c → (i + q) % c ≡ (if ltb (i + q) c then i + q else i + q - c)
wrap i q c h k = elim (Bool-cases (ltb (i + q) c)) [
  | inl e ↦ rw e (mod-eq_of_lt (ltb→lt _ _ e))
  | inr e ↦
      let over : i + q ≡ (i + q - c) + c = ground (arith, e) in
      rw e (ap (λ n. n % c) over ∙ add-mod_right (i + q - c) c ∙ mod-eq_of_lt (omega arith))
]

-- The distance between two slots gives back the number of elements.
pub mod_distance : (i q c : ℕ) → i < c → q < c → ((i + q) % c + c - i) % c ≡ q
mod_distance i q c h k = elim (Bool-cases (ltb (i + q) c)) [
  | inl e ↦
      let at : (i + q) % c ≡ i + q = ground (arith, wrap i q c h k, e) in
      ap (λ n. n % c) (omega (arith, at)) ∙ add-mod_right q c ∙ mod-eq_of_lt k
  | inr e ↦
      let at : (i + q) % c ≡ i + q - c = ground (arith, wrap i q c h k, e) in
      let plain : (i + q) % c + c - i ≡ q = ground (arith, e, at) in
      ap (λ n. n % c) plain ∙ mod-eq_of_lt k
]
