-- ===== src/Registry/Tests.antt =====
-- The lookups of a registry of two instruments.
use multi_instrument_orderbo.Prelude.{refl, none, [], ◌∷◌, pos}
use multi_instrument_orderbo.Registry.{
  InstrumentSpec, equity, future, Registry, new_registry, append_spec, add_spec, freeze,
}
use multi_instrument_orderbo.Registry.Keys.{Run, empty, adds, freezes, Found, Run-Found}

abbrev stock : InstrumentSpec
stock = record {
  id = 7;
  symbol = b'A' ∷ [];
  type = equity;
  tick_size = pos 1;
  lot_size = 1;
  currency = b'U' ∷ [];
  option_terms = none;
}

abbrev contract : InstrumentSpec
contract = record stock { id = 8; symbol = b'A' ∷ b'B' ∷ []; type = future }

abbrev one : Registry
one = append_spec stock new_registry

abbrev two : Registry
two = append_spec contract one

two-Run : Run (freeze two)
unfolding add_spec append_spec
two-Run = freezes two (adds one two contract (adds new_registry one stock empty refl) refl)

Run-Found_example : Found (freeze two)
Run-Found_example = Run-Found (freeze two) two-Run
