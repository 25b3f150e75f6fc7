-- ===== src/Chain/Tests.antt =====
-- A chain of a call and a put at one strike, of which the call is removed again.
use multi_instrument_orderbo.Prelude.{ℕ, ◌≡◌, refl, true, none, some, List, [], ◌∷◌, pos}
use multi_instrument_orderbo.HashMap.{lookup, emplace, delete}
use multi_instrument_orderbo.OrderedMap.{find, assign, remove}
use multi_instrument_orderbo.Contract.{
  OptionType, call, put, Contract, american, physical, date_before,
}
use multi_instrument_orderbo.Chain.{
  Chain, new_chain, add, remove_id, slot_at, set_slot, settle_strikes, settle_dates,
}
use multi_instrument_orderbo.Chain.Life.{Run, fresh, adds, removes, InOrder, Run-InOrder}

abbrev spy : List ℕ
spy = b'S' ∷ b'P' ∷ b'Y' ∷ []

abbrev contract : OptionType → Contract
contract t = record {
  underlying = spy;
  strike = pos 45000;
  expiry = record { year = 2025; month = 12; day = 19 };
  option_type = t;
  style = american;
  multiplier = 100;
  settlement = physical;
}

abbrev both : Chain
both = (add 6 (contract put) (add 5 (contract call) (new_chain spy)).0).0

both-Run : Run spy both
both-Run = adds 6 (contract put) _ (adds 5 (contract call) (new_chain spy) fresh)

abbrev put_only : Chain
put_only = record {
  underlying = spy;
  levels =
      ((contract put).expiry, (pos 45000, record { call_id = none; put_id = some 6 }) ∷ []) ∷ [];
  by_id = (6, ((contract put).expiry, pos 45000)) ∷ [];
  id_to_type = (6, put) ∷ [];
}

call_removed : remove_id 5 both ≡ some (put_only, true)
unfolding remove_id add slot_at set_slot settle_strikes settle_dates lookup emplace delete find
    assign remove date_before
call_removed = refl

Run-InOrder_example : InOrder put_only
Run-InOrder_example = Run-InOrder spy put_only (removes 5 both put_only true both-Run call_removed)
