-- ===== src/Contract.antt =====
-- include/ordbk/instruments/contract.hpp and src/instruments/contract.cpp: option contracts and
-- their OCC symbols. A string is the list of its character codes. `none` is the exception
-- `std::invalid_argument`.
pub mod Decimal
pub mod Symbol
pub mod Parsed
pub mod Dates
mod Tests
use multi_instrument_orderbo.Prelude.{
  ℕ, zero, suc, ◌+◌, ◌-◌, ◌*◌, ◌/◌, ◌%◌, Bool, true, false, ◌||◌, ◌&&◌, ltb, ◌==◌, if◌then◌else◌,
  Option, none, some, List, [], ◌∷◌, ◌++◌, ◌>>=◌, ℤ, pos, negsuc, length, get_elem?, take, drop,
}

pub data OptionType : Type 0 where
  call put : OptionType

pub data OptionStyle : Type 0 where
  american european : OptionStyle

pub data SettlementType : Type 0 where
  physical cash : SettlementType

pub record ExpiryDate : Type 0 where
  pub year : ℕ
  pub month : ℕ
  pub day : ℕ

-- The defaulted `operator<=>`: field by field, in order.
unfoldable pub date_before : ExpiryDate → ExpiryDate → Bool
date_before a b =
    if ltb a.year b.year
    then true
    else if ltb b.year a.year
    then false
    else if ltb a.month b.month
    then true
    else if ltb b.month a.month
    then false
    else ltb a.day b.day

pub record Contract : Type 0 where
  pub underlying : List ℕ
  pub strike : ℤ
  pub expiry : ExpiryDate
  pub option_type : OptionType
  pub style : OptionStyle
  pub multiplier : ℕ
  pub settlement : SettlementType

abbrev pub replicate : ℕ → ℕ → List ℕ
replicate zero c = []
replicate (suc n) c = c ∷ replicate n c

-- The decimal digits of a number, of which `fuel` bounds the number.
unfoldable pub digits : ℕ → ℕ → List ℕ
digits zero n = []
digits (suc fuel) n =
    let rest = digits fuel (n / 10) in
    if ltb n 10 then (b'0' + n) ∷ [] else rest ++ (b'0' + n % 10) ∷ []

-- `%0<width>d` of `snprintf` for a number that is not negative. No number here has more than twenty
-- digits.
unfoldable pub padded : ℕ → ℕ → List ℕ
unfolding digits
padded width n = let ds = digits 20 n in replicate (width - length ds) b'0' ++ ds

unfoldable pub to_string : ExpiryDate → List ℕ
unfolding padded
to_string d = padded 4 d.year ++ (b'-' ∷ padded 2 d.month) ++ (b'-' ∷ padded 2 d.day)

-- `to_underlying(strike) * 10`, and `%08lld` of it. A sign counts as one of the eight places.
abbrev pub times_ten : ℤ → ℤ
times_ten (pos n) = pos (10 * n)
times_ten (negsuc n) = negsuc (10 * n + 9)

unfoldable pub strike_digits : ℤ → List ℕ
unfolding padded
strike_digits (pos n) = padded 8 n
strike_digits (negsuc n) = b'-' ∷ padded 7 (n + 1)

abbrev pub type_char : OptionType → ℕ
type_char call = b'C'
type_char put = b'P'

-- The six places of the root, six of the date, one of the type and eight of the strike: what goes
-- beyond its places is cut off.
unfoldable pub occ_symbol : Contract → List ℕ
unfolding padded strike_digits
occ_symbol c =
    let root = take 6 (take 6 c.underlying ++ replicate 6 b' ') in
    let date = padded 2 (c.expiry.year % 100) ++ padded 2 c.expiry.month ++ padded 2 c.expiry.day in
    root ++ (take 6 date ++ (type_char c.option_type ∷ take 8 (strike_digits (times_ten c.strike))))

-- `parse_int`, from the value so far.
unfoldable pub parse_int : ℕ → List ℕ → Option ℕ
parse_int v [] = some v
parse_int v (ch ∷ sv) =
    if ltb ch b'0' || ltb b'9' ch then none else parse_int (v * 10 + (ch - b'0')) sv

-- The trailing spaces popped off.
unfoldable pub trim : List ℕ → List ℕ
trim [] = []
trim (x ∷ xs) = elim (trim xs) [ [] ↦ if x == b' ' then [] else x ∷ [] | y ∷ ys ↦ x ∷ y ∷ ys ]

-- `substr(at, n)`
abbrev pub substr : ℕ → ℕ → List ℕ → List ℕ
substr at n s = take n (drop at s)

unfoldable pub type_of_char : Option ℕ → Option OptionType
type_of_char none = none
type_of_char (some cp) = if cp == b'C' then some call else if cp == b'P' then some put else none

unfoldable pub from_occ : List ℕ → Option Contract
unfolding parse_int trim type_of_char
from_occ occ = if ltb (length occ) 21 then none else do
  yy ← parse_int 0 (substr 6 2 occ)
  mm ← parse_int 0 (substr 8 2 occ)
  dd ← parse_int 0 (substr 10 2 occ)
  option_type ← type_of_char (get_elem? occ 12)
  thousandths ← parse_int 0 (substr 13 8 occ)
  some (record {
    underlying = trim (take 6 occ);
    strike = pos (thousandths / 10);
    expiry = record { year = 2000 + yy; month = mm; day = dd };
    option_type = option_type;
    style = american;
    multiplier = 100;
    settlement = physical;
  })
