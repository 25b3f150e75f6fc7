-- ===== src/Chain.antt =====
-- `Chain` of include/ordbk/instruments/chain.hpp and src/instruments/chain.cpp: the option contracts
-- of one underlying, by expiry, strike and type. `none` as a result of `remove_id` is the exception
-- of a map's `at`.
pub mod Slots
pub mod Index
pub mod Writes
pub mod Removal
pub mod Life
mod Tests
use multi_instrument_orderbo.Prelude.{
  ℕ, Bool, true, false, if◌then◌else◌, Option, none, some, List, [], ◌∷◌, ◌++◌, ◌>>=◌, ℤ,
}
use multi_instrument_orderbo.Types.{sell}
use multi_instrument_orderbo.HashMap.{lookup, emplace, delete}
use multi_instrument_orderbo.OrderedMap.{KeyOrder, find, assign, remove}
use multi_instrument_orderbo.OrderBook.{price_order}
use multi_instrument_orderbo.Contract.{OptionType, call, put, ExpiryDate, date_before, Contract}
use multi_instrument_orderbo.Contract.Dates.{date_order}

-- `std::less<Price>`, as on the sell side of a book.
abbrev pub strike_order : KeyOrder ℤ
strike_order = price_order sell

pub record StrikeSlot : Type 0 where
  pub call_id : Option ℕ
  pub put_id : Option ℕ

abbrev pub Strikes : Type 0
Strikes = List (ℤ × StrikeSlot)

abbrev pub Levels : Type 0
Levels = List (ExpiryDate × Strikes)

pub record Chain : Type 0 where
  pub underlying : List ℕ
  pub levels : Levels
  pub by_id : List (ℕ × (ExpiryDate × ℤ))
  pub id_to_type : List (ℕ × OptionType)

abbrev pub new_chain : List ℕ → Chain
new_chain underlying = record { underlying = underlying; levels = []; by_id = []; id_to_type = [] }

abbrev pub no_slot : StrikeSlot
no_slot = record { call_id = none; put_id = none }

-- What `operator[]` of each map gives.
abbrev pub strikes_or_empty : Option Strikes → Strikes
strikes_or_empty none = []
strikes_or_empty (some m) = m

abbrev pub slot_or_empty : Option StrikeSlot → StrikeSlot
slot_or_empty none = no_slot
slot_or_empty (some s) = s

abbrev pub id_of : OptionType → StrikeSlot → Option ℕ
id_of call s = s.call_id
id_of put s = s.put_id

abbrev pub with_id : OptionType → Option ℕ → StrikeSlot → StrikeSlot
with_id call v s = record s { call_id = v }
with_id put v s = record s { put_id = v }

unfoldable pub slot_at : ExpiryDate → ℤ → Levels → StrikeSlot
unfolding find
slot_at expiry strike m =
    slot_or_empty (find strike_order strike (strikes_or_empty (find date_order expiry m)))

-- `levels_[expiry][strike] = s`
unfoldable pub set_slot : ExpiryDate → ℤ → StrikeSlot → Levels → Levels
unfolding find assign
set_slot expiry strike s m =
    assign date_order expiry
      (assign strike_order strike s (strikes_or_empty (find date_order expiry m))) m

unfoldable pub add : ℕ → Contract → Chain → Chain × Bool
unfolding lookup emplace slot_at set_slot
add id c ch = elim (lookup id ch.by_id) [
  | some place ↦ (ch, false)
  | none ↦
      let s = slot_at c.expiry c.strike ch.levels in
      elim (id_of c.option_type s) [
        | some other ↦ (record ch { levels = set_slot c.expiry c.strike s ch.levels }, false)
        | none ↦
            let s' = with_id c.option_type (some id) s in
            (
              record ch {
                levels = set_slot c.expiry c.strike s' ch.levels;
                by_id = emplace id (c.expiry, c.strike) ch.by_id;
                id_to_type = emplace id c.option_type ch.id_to_type;
              },
              true,
            )
      ]
]

abbrev pub is_free : StrikeSlot → Bool
is_free s = elim s.call_id [
  | some i ↦ false
  | none ↦ elim s.put_id [ some i ↦ false | none ↦ true ]
]

-- The slot goes when it is free, and a date without strikes goes too.
unfoldable pub settle_strikes : ℤ → StrikeSlot → Strikes → Strikes
unfolding assign remove
settle_strikes strike s m =
    if is_free s then remove strike_order strike m else assign strike_order strike s m

unfoldable pub settle_dates : ExpiryDate → Strikes → Levels → Levels
unfolding assign remove
settle_dates expiry strikes m = elim strikes [
  | [] ↦ remove date_order expiry m
  | e ∷ es ↦ assign date_order expiry (e ∷ es) m
]

unfoldable pub remove_id : ℕ → Chain → Option (Chain × Bool)
unfolding lookup delete find settle_strikes settle_dates
remove_id id ch = elim (lookup id ch.by_id) [
  | none ↦ some (ch, false)
  | some place ↦ do
    type ← lookup id ch.id_to_type
    strikes ← find date_order place.0 ch.levels
    s ← find strike_order place.1 strikes
    let strikes' = settle_strikes place.1 (with_id type none s) strikes
    some (
      record ch {
        levels = settle_dates place.0 strikes' ch.levels;
        by_id = delete id ch.by_id;
        id_to_type = delete id ch.id_to_type;
      },
      true,
    )
]

unfoldable pub find_id : ExpiryDate → ℤ → OptionType → Chain → Option ℕ
unfolding find
find_id expiry strike type ch = do
  strikes ← find date_order expiry ch.levels
  s ← find strike_order strike strikes
  id_of type s

abbrev pub listed : Option ℕ → List ℕ
listed none = []
listed (some i) = i ∷ []

abbrev pub both_of : StrikeSlot → List ℕ
both_of s = listed s.call_id ++ listed s.put_id

-- A loop over the strikes of a date, in order.
abbrev pub over_strikes : (StrikeSlot → List ℕ) → Strikes → List ℕ
over_strikes f [] = []
over_strikes f ((strike, s) ∷ m) = f s ++ over_strikes f m

abbrev pub at_date : (StrikeSlot → List ℕ) → ExpiryDate → Chain → List ℕ
at_date f expiry ch = over_strikes f (strikes_or_empty (find date_order expiry ch.levels))

unfoldable pub at_expiry : ExpiryDate → Chain → List ℕ
unfolding find
at_expiry expiry ch = at_date both_of expiry ch

unfoldable pub calls_at : ExpiryDate → Chain → List ℕ
unfolding find
calls_at expiry ch = at_date (λ s. listed s.call_id) expiry ch

unfoldable pub puts_at : ExpiryDate → Chain → List ℕ
unfolding find
puts_at expiry ch = at_date (λ s. listed s.put_id) expiry ch

abbrev pub dates : Levels → List ExpiryDate
dates [] = []
dates ((expiry, strikes) ∷ m) = expiry ∷ dates m

abbrev pub expiries : Chain → List ExpiryDate
expiries ch = dates ch.levels

unfoldable pub due_levels : ExpiryDate → Levels → List ℕ
due_levels date [] = []
due_levels date ((expiry, strikes) ∷ m) =
    let rest = due_levels date m in
    if date_before date expiry then [] else over_strikes both_of strikes ++ rest

unfoldable pub expiring_on_or_before : ExpiryDate → Chain → List ℕ
unfolding due_levels
expiring_on_or_before date ch = due_levels date ch.levels
