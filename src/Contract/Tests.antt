-- ===== src/Contract/Tests.antt =====
-- The theorems on `Contract` at the symbol of a call on SPY at 450 dollars.
use multi_instrument_orderbo.Prelude.{ℕ, ◌≡◌, ◌≤◌, refl, some, List, [], ◌∷◌, pos, arith, length}
use multi_instrument_orderbo.Contract.{
  Contract, call, american, physical, occ_symbol, from_occ, padded, strike_digits, digits,
  parse_int, trim, type_of_char,
}
use multi_instrument_orderbo.Contract.Symbol.{IsRegular, from_occ-occ_symbol}
use multi_instrument_orderbo.Contract.Parsed.{from_occ-IsRegular}

-- SPY
abbrev spy : List ℕ
spy = 83 ∷ 80 ∷ 89 ∷ []

abbrev contract : Contract
contract = record {
  underlying = spy;
  strike = pos 45000;
  expiry = record { year = 2025; month = 12; day = 19 };
  option_type = call;
  style = american;
  multiplier = 100;
  settlement = physical;
}

contract-IsRegular : IsRegular contract
contract-IsRegular = record {
  root_short = omega arith;
  root_tight = ground arith;
  century = (25, omega arith, refl);
  month_short = omega arith;
  day_short = omega arith;
  cents = (45000, omega arith, refl);
  style_default = refl;
  multiplier_default = refl;
  settlement_default = refl;
}

from_occ-occ_symbol_example : from_occ (occ_symbol contract) ≡ some contract
from_occ-occ_symbol_example = from_occ-occ_symbol contract contract-IsRegular

-- SPY   251219C00450000
abbrev symbol : List ℕ
symbol =
    83 ∷ 80 ∷ 89 ∷ 32 ∷ 32 ∷ 32 ∷ 50 ∷ 53 ∷ 49 ∷ 50 ∷ 49 ∷ 57 ∷ 67 ∷ 48 ∷ 48 ∷ 52 ∷ 53 ∷ 48 ∷ 48
    ∷ 48 ∷ 48 ∷ []

symbol_printed : occ_symbol contract ≡ symbol
unfolding occ_symbol padded digits strike_digits
symbol_printed = refl

symbol_parsed : from_occ symbol ≡ some contract
unfolding from_occ parse_int trim type_of_char
symbol_parsed = refl

from_occ-IsRegular_example : IsRegular contract × (21 ≤ length symbol)
from_occ-IsRegular_example = from_occ-IsRegular symbol contract symbol_parsed
