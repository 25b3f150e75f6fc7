-- ===== src/Contract/Symbol.antt =====
-- `occ_symbol` against `from_occ`.
use multi_instrument_orderbo.Prelude.{
  ℕ, zero, suc, ◌+◌, ◌*◌, ◌/◌, ◌%◌, ◌≤◌, ◌<◌, ◌≡◌, ◌≢◌, refl, sym, ap, ap₂, subst, ◌∙◌, false, ltb,
  some, List, [], ◌∷◌, ◌++◌, some->>=, length, length-append, drop-append-length,
  take-append-length, take, drop, get_elem?, ℤ, pos, arith,
}
use multi_instrument_orderbo.Contract.{
  OptionType, call, put, american, physical, Contract, replicate, padded, times_ten, strike_digits,
  type_char, occ_symbol, parse_int, trim, substr, type_of_char, from_occ,
}
use multi_instrument_orderbo.Contract.Decimal.{fixed, padded-fixed, parse_int-fixed_all}

-- The last character is no space.
abbrev pub NoTrailingSpace : List ℕ → Type 0
NoTrailingSpace [] = Unit {0}
NoTrailingSpace (x ∷ []) = x ≢ b' '
NoTrailingSpace (x ∷ y ∷ xs) = NoTrailingSpace (y ∷ xs)

-- What a symbol can hold: a root of at most six places, a date of this century with two digits to
-- each field, a strike of at most 9,999,999 cents, and what `from_occ` fills in by itself.
pub record IsRegular (c : Contract) : Type 0 where
  pub root_short : length c.underlying ≤ 6
  pub root_tight : NoTrailingSpace c.underlying
  pub century : (yy : ℕ) × (yy < 100) × (c.expiry.year ≡ 2000 + yy)
  pub month_short : c.expiry.month < 100
  pub day_short : c.expiry.day < 100
  pub cents : (n : ℕ) × (n < 10000000) × (c.strike ≡ pos n)
  pub style_default : c.style ≡ american
  pub multiplier_default : c.multiplier ≡ 100
  pub settlement_default : c.settlement ≡ physical

drop_nil : (n : ℕ) → drop {A = ℕ} n [] ≡ []
drop_nil zero = refl
drop_nil (suc n) = refl

drop-drop : (m n : ℕ) (xs : List ℕ) → drop (m + n) xs ≡ drop n (drop m xs)
drop-drop zero n xs = let e : 0 + n ≡ n = omega arith in ap (λ k. drop k xs) e
drop-drop (suc m) n [] = drop_nil (suc m + n) ∙ sym (drop_nil n)
drop-drop (suc m) n (x ∷ xs) =
    let e : suc m + n ≡ suc (m + n) = omega arith in ap (λ k. drop k (x ∷ xs)) e ∙ drop-drop m n xs

get_elem?-drop : (m i : ℕ) (xs : List ℕ) → get_elem? xs (m + i) ≡ get_elem? (drop m xs) i
get_elem?-drop zero i xs = let e : 0 + i ≡ i = omega arith in ap (get_elem? xs) e
get_elem?-drop (suc m) i [] = refl
get_elem?-drop (suc m) i (x ∷ xs) =
    let e : suc m + i ≡ suc (m + i) = omega arith in
    ap (get_elem? (x ∷ xs)) e ∙ get_elem?-drop m i xs

length-take : (n : ℕ) (xs : List ℕ) → n ≤ length xs → length (take n xs) ≡ n
length-take zero xs h = refl
length-take (suc n) [] h = absurd (omega arith)
length-take (suc n) (x ∷ xs) h = omega (arith, length-take n xs (omega arith))

take_all : (n : ℕ) (xs : List ℕ) → length xs ≤ n → take n xs ≡ xs
take_all zero [] h = refl
take_all zero (x ∷ xs) h = absurd (omega arith)
take_all (suc n) [] h = refl
take_all (suc n) (x ∷ xs) h = ap (◌∷◌ x) (take_all n xs (omega arith))

trim_spaces : (n m : ℕ) → trim (take n (replicate m b' ')) ≡ []
unfolding trim
trim_spaces zero m = refl
trim_spaces (suc n) zero = refl
trim_spaces (suc n) (suc m) = rw (trim_spaces n m, trim) refl

-- The spaces behind the root go, and nothing else.
trim-padded :
    (u : List ℕ) (n m : ℕ)
    → length u ≤ n
    → NoTrailingSpace u
    → trim (take n (u ++ replicate m b' ')) ≡ u
unfolding trim
trim-padded [] n m h t = trim_spaces n m
trim-padded (x ∷ xs) zero m h t = absurd (omega arith)
trim-padded (x ∷ []) (suc n) m h t = rw (trim_spaces n m, trim) (ground (arith, t))
trim-padded (x ∷ y ∷ xs) (suc n) m h t = rw (trim-padded (y ∷ xs) n m (omega arith) t, trim) refl

-- The fifteen places behind the root.
abbrev tail_of : ℕ → ℕ → ℕ → ℕ → ℕ → List ℕ
tail_of yy mm dd ch n = fixed 2 yy ++ fixed 2 mm ++ fixed 2 dd ++ (ch ∷ fixed 8 n)

-- What `from_occ` reads from a symbol of that form.
abbrev pub read_as : List ℕ → ℕ → ℕ → ℕ → OptionType → ℕ → Contract
read_as root yy mm dd t n = record {
  underlying = trim root;
  strike = pos (n / 10);
  expiry = record { year = 2000 + yy; month = mm; day = dd };
  option_type = t;
  style = american;
  multiplier = 100;
  settlement = physical;
}

module _ (root : List ℕ) (six : length root ≡ 6) (yy mm dd n : ℕ) (t : OptionType) (y : yy < 100)
    (m : mm < 100) (d : dd < 100) (k : n < 100000000) where
  abbrev occ : List ℕ
  occ = root ++ tail_of yy mm dd (type_char t) n

  behind_root : drop 6 occ ≡ tail_of yy mm dd (type_char t) n
  behind_root =
      subst (λ i. drop i occ ≡ tail_of yy mm dd (type_char t) n) six (drop-append-length root _)

  substr_at :
      (at len : ℕ) → substr (6 + at) len occ ≡ substr at len (tail_of yy mm dd (type_char t) n)
  substr_at at len = ap (take len) (drop-drop 6 at occ ∙ ap (drop at) behind_root)

  long_enough : ltb (length occ) 21 ≡ false
  long_enough = ground (arith, length-append root (tail_of yy mm dd (type_char t) n), six)

  type_read : type_of_char (get_elem? occ 12) ≡ some t
  unfolding type_of_char
  type_read =
      ap type_of_char (get_elem?-drop 6 6 occ ∙ ap (λ xs. get_elem? xs 6) behind_root) ∙ char_read t
    where
      char_read : (u : OptionType) → type_of_char (some (type_char u)) ≡ some u
      char_read call = refl
      char_read put = refl

  root_read : take 6 occ ≡ root
  root_read = subst (λ i. take i occ ≡ root) six (take-append-length root _)

  from_occ_lem : from_occ occ ≡ some (read_as root yy mm dd t n)
  unfolding from_occ
  from_occ_lem =
      rw (long_enough, from_occ)
        (some->>= _ _ yy _ (ap (parse_int 0) (substr_at 0 2) ∙ parse_int-fixed_all 2 yy y) (
          some->>= _ _ mm _ (ap (parse_int 0) (substr_at 2 2) ∙ parse_int-fixed_all 2 mm m) (
            some->>= _ _ dd _ (ap (parse_int 0) (substr_at 4 2) ∙ parse_int-fixed_all 2 dd d) (
              some->>= _ _ t _ type_read (
                some->>= _ _ n _ (ap (parse_int 0) (substr_at 7 8) ∙ parse_int-fixed_all 8 n k)
                  (ap (λ r. some (read_as r yy mm dd t n)) root_read))))))

root_of : List ℕ → List ℕ
root_of u = take 6 (take 6 u ++ replicate 6 b' ')

length-root_of : (u : List ℕ) → length (root_of u) ≡ 6
unfolding root_of
length-root_of u = length-take 6 _ (omega (arith, length-append (take 6 u) (replicate 6 b' ')))

trim-root_of : (u : List ℕ) → length u ≤ 6 → NoTrailingSpace u → trim (root_of u) ≡ u
unfolding root_of
trim-root_of u h t =
    ap (λ v. trim (take 6 (v ++ replicate 6 b' '))) (take_all 6 u h) ∙ trim-padded u 6 6 h t

strike_lem :
    (z : ℤ) (n : ℕ) → n < 10000000 → z ≡ pos n → strike_digits (times_ten z) ≡ fixed 8 (10 * n)
unfolding strike_digits
strike_lem z n k e =
    ap (λ i. strike_digits (times_ten i)) e
    ∙ padded-fixed 8 (10 * n) (omega arith) (omega arith) (omega arith)

occ_symbol_lem :
    (c : Contract) (yy n : ℕ)
    → yy < 100
    → c.expiry.year ≡ 2000 + yy
    → c.expiry.month < 100
    → c.expiry.day < 100
    → n < 10000000
    → c.strike ≡ pos n
    → occ_symbol c
      ≡ root_of c.underlying
        ++ tail_of yy c.expiry.month c.expiry.day (type_char c.option_type) (10 * n)
unfolding occ_symbol root_of
occ_symbol_lem c yy n y ey m d k en =
    let short_year : c.expiry.year % 100 ≡ yy = omega (arith, ey, y) in
    ap₂
      (λ date strike.
        root_of c.underlying ++ (take 6 date ++ (type_char c.option_type ∷ take 8 strike)))
      (ap₂ (λ xs ys. xs ++ ys)
        (ap₂ (λ xs ys. xs ++ ys)
          (ap (padded 2) short_year ∙ padded-fixed 2 yy y (omega arith) (omega arith))
          (padded-fixed 2 c.expiry.month m (omega arith) (omega arith)))
        (padded-fixed 2 c.expiry.day d (omega arith) (omega arith)))
      (strike_lem c.strike n k en)

-- The symbol of a contract that a symbol can hold is read back as that contract.
pub from_occ-occ_symbol : (c : Contract) → IsRegular c → from_occ (occ_symbol c) ≡ some c
from_occ-occ_symbol c h =
    let (yy, y, ey) = h.century in
    let (n, k, en) = h.cents in
    let same_root = trim-root_of c.underlying h.root_short h.root_tight in
    ap from_occ (occ_symbol_lem c yy n y ey h.month_short h.day_short k en)
    ∙ from_occ_lem (root_of c.underlying) (length-root_of c.underlying) yy c.expiry.month
        c.expiry.day (10 * n) c.option_type y h.month_short h.day_short (omega (arith, k))
    ∙ ap some (ground (arith, same_root, ey, en))
