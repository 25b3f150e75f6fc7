-- ===== src/Contract/Dates.antt =====
-- The order of `ExpiryDate`.
use multi_instrument_orderbo.Prelude.{◌≡◌, true, false, arith}
use multi_instrument_orderbo.Contract.{ExpiryDate, date_before}
use multi_instrument_orderbo.OrderedMap.{KeyOrder}

pub date_before_irrefl : (a : ExpiryDate) → date_before a a ≡ false
unfolding date_before
date_before_irrefl a = ground arith

pub date_before_trans :
    (a b c : ExpiryDate) → date_before a b ≡ true → date_before b c ≡ true → date_before a c ≡ true
unfolding date_before
date_before_trans a b c e f = ground arith

pub date_before_connex :
    (a b : ExpiryDate) → date_before a b ≡ false → date_before b a ≡ false → a ≡ b
unfolding date_before
date_before_connex a b e f = ground arith

-- A date no earlier than one behind `a` is behind `a`.
pub date_before_later :
    (a b c : ExpiryDate) → date_before a b ≡ true → date_before c b ≡ false → date_before a c ≡ true
unfolding date_before
date_before_later a b c e f = ground arith

pub date_before_earlier :
    (a b c : ExpiryDate)
    → date_before a b ≡ true
    → date_before c b ≡ false
    → date_before c a ≡ false
unfolding date_before
date_before_earlier a b c e f = ground arith

abbrev pub date_order : KeyOrder ExpiryDate
date_order = record {
  before = date_before;
  before_irrefl = date_before_irrefl;
  before_trans = date_before_trans;
  before_connex = date_before_connex;
}
