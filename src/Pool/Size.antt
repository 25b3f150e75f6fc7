-- ===== src/Pool/Size.antt =====
-- How many different slots fit below the capacity of a pool.
use multi_instrument_orderbo.Prelude.{
  ℕ, zero, suc, ◌+◌, ◌≤◌, ◌<◌, ◌≡◌, refl, List, [], ◌∷◌, length, count, take, arith,
}
use native.Mathlib.Decide.{ℕ_discrete}

-- How often the slots below a bound stand in a list.
tally : ℕ → List ℕ → ℕ
tally zero xs = 0
tally (suc n) xs = count n xs + tally n xs

tally_bound : (n : ℕ) (xs : List ℕ) → ((a : ℕ) → count a xs ≤ 1) → tally n xs ≤ n
unfolding tally
tally_bound zero xs h = omega arith
tally_bound (suc n) xs h = omega (arith, h n, tally_bound n xs h)

tally-cons_above : (n x : ℕ) (xs : List ℕ) → n ≤ x → tally n (x ∷ xs) ≡ tally n xs
unfolding tally
tally-cons_above zero x xs h = refl
tally-cons_above (suc n) x xs h = ground (arith, h, tally-cons_above n x xs)

tally-cons : (n x : ℕ) (xs : List ℕ) → x < n → tally n (x ∷ xs) ≡ suc (tally n xs)
unfolding tally
tally-cons zero x xs h = absurd (omega arith)
tally-cons (suc n) x xs h = elim (ℕ_discrete x n) [
  | yes same ↦ ground (arith, same, tally-cons_above n x xs)
  | no ne ↦ ground (arith, ne, h, tally-cons n x xs)
]

tally-length : (n : ℕ) (xs : List ℕ) → ((a : ℕ) → n ≤ a → count a xs ≡ 0) → length xs ≤ tally n xs
unfolding tally
tally-length n [] h = omega arith
tally-length n (x ∷ xs) h =
    let below : x < n = ground (arith, h x) in
    omega (arith, tally-cons n x xs below, tally-length n xs (λ a k. ground (arith, h a k)))

-- A list of different slots below a bound is no longer than the bound.
pub length_bound :
    (n : ℕ) (xs : List ℕ)
    → ((a : ℕ) → count a xs ≤ 1)
    → ((a : ℕ) → n ≤ a → count a xs ≡ 0)
    → length xs ≤ n
length_bound n xs once below = omega (arith, tally_bound n xs once, tally-length n xs below)

pub length-take_all : (xs : List ℕ) (n : ℕ) → n ≤ length xs → length (take n xs) ≡ n
length-take_all xs zero h = refl
length-take_all [] (suc n) h = absurd (omega arith)
length-take_all (x ∷ xs) (suc n) h = omega (arith, length-take_all xs n (omega arith))
