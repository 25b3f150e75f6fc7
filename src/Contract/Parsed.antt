-- ===== src/Contract/Parsed.antt =====
-- What `from_occ` accepts.
use multi_instrument_orderbo.Prelude.{
  ℕ, zero, suc, ◌+◌, ◌-◌, ◌*◌, ◌/◌, ◌≤◌, ◌<◌, ◌≡◌, refl, subst, ◌||◌, ltb, some, List, [], ◌∷◌,
  >>=-eq-some, length, take, drop, get_elem?, arith, Bool-cases, inl, inr, some-eq,
}
use multi_instrument_orderbo.Contract.{
  Contract, OptionType, parse_int, trim, substr, type_of_char, from_occ,
}
use multi_instrument_orderbo.Contract.Decimal.{scale}
use multi_instrument_orderbo.Contract.Symbol.{read_as, IsRegular, NoTrailingSpace}

scale_mono : (w a b : ℕ) → a ≤ b → scale w a ≤ scale w b
scale_mono zero a b h = h
scale_mono (suc w) a b h = omega (arith, scale_mono w a b h)

scale_ten : (w a : ℕ) → scale w (10 * a) ≡ 10 * scale w a
scale_ten zero a = refl
scale_ten (suc w) a = omega (arith, scale_ten w a)

-- A number has no more digits than were read.
parse_int-lt : (xs : List ℕ) (v r : ℕ) → parse_int v xs ≡ some r → r < scale (length xs) (v + 1)
unfolding parse_int
parse_int-lt [] v r e = ground (arith, e)
parse_int-lt (x ∷ xs) v r e = elim (Bool-cases (ltb x 48 || ltb 57 x)) [
  | inl bad ↦ absurd (ground (arith, e, bad))
  | inr digit ↦
      let ih = parse_int-lt xs (v * 10 + (x - 48)) r (ground (arith, e, digit)) in
      let step =
        scale_mono (length xs) (v * 10 + (x - 48) + 1) (10 * (v + 1)) (ground (arith, digit)) in
      omega (arith, ih, step, scale_ten (length xs) (v + 1))
]

length-take-le : (n : ℕ) (xs : List ℕ) → length (take n xs) ≤ n
length-take-le zero xs = omega arith
length-take-le (suc n) [] = omega arith
length-take-le (suc n) (x ∷ xs) = omega (arith, length-take-le n xs)

scale_width : (w n : ℕ) → w ≤ n → scale w 1 ≤ scale n 1
scale_width zero zero h = omega arith
scale_width zero (suc n) h = omega (arith, scale_width zero n (omega arith))
scale_width (suc w) zero h = absurd (omega arith)
scale_width (suc w) (suc n) h = omega (arith, scale_width w n (omega arith))

parse_int-substr-lt :
    (at n r : ℕ) (s : List ℕ) → parse_int 0 (substr at n s) ≡ some r → r < scale n 1
parse_int-substr-lt at n r s e = omega (
  arith,
  parse_int-lt (substr at n s) 0 r e,
  scale_width (length (substr at n s)) n (length-take-le n (drop at s)),
)

length-trim-le : (xs : List ℕ) → length (trim xs) ≤ length xs
unfolding trim
length-trim-le [] = omega arith
length-trim-le (x ∷ xs) = ground (arith, length-trim-le xs)

trim-NoTrailingSpace : (xs : List ℕ) → NoTrailingSpace (trim xs)
unfolding trim
trim-NoTrailingSpace [] = tt
trim-NoTrailingSpace (x ∷ xs) = ground (arith, trim-NoTrailingSpace xs)

module _ (occ : List ℕ) (yy mm dd n : ℕ) (t : OptionType)
    (ey : parse_int 0 (substr 6 2 occ) ≡ some yy) (em : parse_int 0 (substr 8 2 occ) ≡ some mm)
    (ed : parse_int 0 (substr 10 2 occ) ≡ some dd)
    (en : parse_int 0 (substr 13 8 occ) ≡ some n) where
  read_as-IsRegular : IsRegular (read_as (take 6 occ) yy mm dd t n)
  read_as-IsRegular = record {
    root_short = omega (arith, length-trim-le (take 6 occ), length-take-le 6 occ);
    root_tight = trim-NoTrailingSpace (take 6 occ);
    century = (yy, parse_int-substr-lt 6 2 yy occ ey, refl);
    month_short = parse_int-substr-lt 8 2 mm occ em;
    day_short = parse_int-substr-lt 10 2 dd occ ed;
    cents = (n / 10, omega (arith, parse_int-substr-lt 13 8 n occ en), refl);
    style_default = refl;
    multiplier_default = refl;
    settlement_default = refl;
  }

-- A symbol that `from_occ` accepts gives a contract that a symbol can hold, and has at least 21
-- characters.
pub from_occ-IsRegular :
    (occ : List ℕ) (c : Contract) → from_occ occ ≡ some c → IsRegular c × (21 ≤ length occ)
unfolding from_occ
from_occ-IsRegular occ c e = elim (Bool-cases (ltb (length occ) 21)) [
  | inl short ↦ absurd (ground (arith, e, short))
  | inr long ↦
      let (yy, ey, e₁) = >>=-eq-some (parse_int 0 (substr 6 2 occ)) _ c (rw long at e) in
      let (mm, em, e₂) = >>=-eq-some (parse_int 0 (substr 8 2 occ)) _ c e₁ in
      let (dd, ed, e₃) = >>=-eq-some (parse_int 0 (substr 10 2 occ)) _ c e₂ in
      let (t, et, e₄) = >>=-eq-some (type_of_char (get_elem? occ 12)) _ c e₃ in
      let (n, en, e₅) = >>=-eq-some (parse_int 0 (substr 13 8 occ)) _ c e₄ in
      (
        subst IsRegular (some-eq e₅) (read_as-IsRegular occ yy mm dd n t ey em ed en),
        ground (arith, long),
      )
]
