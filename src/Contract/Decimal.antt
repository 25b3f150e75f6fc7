-- ===== src/Contract/Decimal.antt =====
-- Numbers printed with a fixed number of digits, and read back.
use multi_instrument_orderbo.Prelude.{
  ℕ, zero, suc, ◌+◌, ◌-◌, ◌*◌, ◌/◌, ◌%◌, ◌≤◌, ◌<◌, ◌≡◌, refl, sym, ap, ap₂, ◌∙◌, false, ltb, ltb→lt,
  some, List, [], ◌∷◌, ◌++◌, length, length-append, append_assoc, append-nil, Bool-cases, inl, inr,
  arith,
}
use multi_instrument_orderbo.Contract.{replicate, digits, padded, parse_int}

-- `w` digits of a number, the lowest last.
abbrev pub fixed : ℕ → ℕ → List ℕ
fixed zero n = []
fixed (suc w) n = fixed w (n / 10) ++ (b'0' + n % 10) ∷ []

-- a * 10 ^ w
abbrev pub scale : ℕ → ℕ → ℕ
scale zero a = a
scale (suc w) a = 10 * scale w a

pub length-fixed : (w n : ℕ) → length (fixed w n) ≡ w
length-fixed zero n = refl
length-fixed (suc w) n =
    omega (arith, length-append (fixed w (n / 10)) ((b'0' + n % 10) ∷ []), length-fixed w (n / 10))

fixed_zeros : (w : ℕ) → fixed w 0 ≡ replicate w b'0'
fixed_zeros zero = refl
fixed_zeros (suc w) = ap (λ xs. xs ++ b'0' ∷ []) (fixed_zeros w) ∙ snoc_zeros w
  where
    snoc_zeros : (n : ℕ) → replicate n b'0' ++ b'0' ∷ [] ≡ b'0' ∷ replicate n b'0'
    snoc_zeros zero = refl
    snoc_zeros (suc n) = ap (◌∷◌ b'0') (snoc_zeros n)

more_digits : (w n : ℕ) → n < scale (suc w) 1 → ltb n 10 ≡ false → 0 < w
more_digits zero n h e = absurd (ground (arith, h, e))
more_digits (suc w) n h e = omega arith

-- Any number that fits the places is printed with exactly that many digits.
fixed-digits :
    (w fuel n : ℕ)
    → n < scale w 1
    → w ≤ fuel
    → 0 < w
    → replicate (w - length (digits fuel n)) b'0' ++ digits fuel n ≡ fixed w n
unfolding digits
fixed-digits zero fuel n h k p = absurd (omega arith)
fixed-digits (suc w) zero n h k p = absurd (omega arith)
fixed-digits (suc w) (suc fuel) n h k p = elim (Bool-cases (ltb n 10)) [
  | inl e ↦
      let small = ltb→lt n 10 e in
      rw e (
        ap₂ (λ xs i. xs ++ (b'0' + i) ∷ [])
          (ap (λ m. replicate m b'0') (omega arith)
            ∙ sym (fixed_zeros w)
            ∙ ap (fixed w) (omega (arith, small)))
          (omega (arith, small)))
  | inr e ↦
      let ds = digits fuel (n / 10) in
      let d : ℕ = b'0' + n % 10 in
      let ih =
        fixed-digits w fuel (n / 10) (omega (arith, h)) (omega (arith, k)) (more_digits w n h e) in
      rw e (
        ap (λ m. replicate m b'0' ++ (ds ++ d ∷ [])) (omega (arith, length-append ds (d ∷ [])))
        ∙ sym (append_assoc (replicate (w - length ds) b'0') ds (d ∷ []))
        ∙ ap (λ xs. xs ++ d ∷ []) ih)
]

pub parse_int-fixed :
    (w v n : ℕ) (rest : List ℕ)
    → n < scale w 1
    → parse_int v (fixed w n ++ rest) ≡ parse_int (scale w v + n) rest
unfolding parse_int
parse_int-fixed zero v n rest h = ap (λ i. parse_int i rest) (omega (arith, h))
parse_int-fixed (suc w) v n rest h =
    ap (parse_int v) (append_assoc (fixed w (n / 10)) ((b'0' + n % 10) ∷ []) rest)
    ∙ parse_int-fixed w v (n / 10) ((b'0' + n % 10) ∷ rest) (omega (arith, h))
    ∙ ground arith

-- `padded` prints a number that fits with exactly the digits asked for.
pub padded-fixed : (w n : ℕ) → n < scale w 1 → w ≤ 20 → 0 < w → padded w n ≡ fixed w n
unfolding padded
padded-fixed w n h k p = fixed-digits w 20 n h k p

scale_zero : (w : ℕ) → scale w 0 ≡ 0
scale_zero zero = refl
scale_zero (suc w) = omega (arith, scale_zero w)

pub parse_int-fixed_all : (w n : ℕ) → n < scale w 1 → parse_int 0 (fixed w n) ≡ some n
unfolding parse_int
parse_int-fixed_all w n h =
    ap (parse_int 0) (sym (append-nil (fixed w n)))
    ∙ parse_int-fixed w 0 n [] h
    ∙ ap some (omega (arith, scale_zero w))
