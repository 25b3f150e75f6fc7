-- ===== src/Registry.antt =====
-- `InstrumentRegistry` of include/ordbk/instruments/instrument_registry.hpp and
-- src/instruments/instrument_registry.cpp, and `InstrumentSpec` of
-- include/ordbk/instruments/instrument_spec.hpp. A symbol is the list of its character codes. The
-- exceptions of `add` are values.
pub mod Keys
mod Tests
use multi_instrument_orderbo.Prelude.{
  ℕ, Bool, true, false, ◌&&◌, ◌==◌, if◌then◌else◌, Option, none, some, List, [], ◌∷◌, ◌++◌, ◌>>=◌,
  length, get_elem?, ℤ,
}
use multi_instrument_orderbo.HashMap.{lookup, emplace}
use multi_instrument_orderbo.Contract.{Contract}
use multi_instrument_orderbo.Chain.{Chain, new_chain, add}

pub data InstrumentType : Type 0 where
  equity future option : InstrumentType

pub record InstrumentSpec : Type 0 where
  pub id : ℕ
  pub symbol : List ℕ
  pub type : InstrumentType
  pub tick_size : ℤ
  pub lot_size : ℕ
  pub currency : List ℕ
  pub option_terms : Option Contract

-- `==` on strings.
abbrev pub same_text : List ℕ → List ℕ → Bool
same_text [] [] = true
same_text [] (y ∷ ys) = false
same_text (x ∷ xs) [] = false
same_text (x ∷ xs) (y ∷ ys) = x == y && same_text xs ys

-- `std::unordered_map` with strings as keys: `find`, `emplace` of a new key, and a write through
-- the iterator of a key that is there.
module _ {ℓ} {V : Type ℓ} where
  unfoldable pub text_lookup : List ℕ → List (List ℕ × V) → Option V
  text_lookup k [] = none
  text_lookup k ((j, v) ∷ m) = if same_text j k then some v else text_lookup k m

  unfoldable pub text_set : List ℕ → V → List (List ℕ × V) → List (List ℕ × V)
  text_set k v [] = (k, v) ∷ []
  text_set k v ((j, w) ∷ m) = if same_text j k then (j, v) ∷ m else (j, w) ∷ text_set k v m

pub record Registry : Type 0 where
  pub instruments : List InstrumentSpec
  pub id_map : List (ℕ × ℕ)
  pub sym_map : List (List ℕ × ℕ)
  pub chains : List (List ℕ × Chain)
  pub frozen : Bool

abbrev pub new_registry : Registry
new_registry = record { instruments = []; id_map = []; sym_map = []; chains = []; frozen = false }

pub data AddError : Type 0 where
  frozen_error duplicate_id duplicate_symbol : AddError

-- What `add` of a specification gives.
pub data AddResult : Type 0 where
  throws : AddError → AddResult
  added : Registry → AddResult

abbrev pub chain_or_new : List ℕ → Option Chain → Chain
chain_or_new underlying none = new_chain underlying
chain_or_new underlying (some ch) = ch

abbrev pub contract_of : InstrumentSpec → Option Contract
contract_of spec = elim spec.type [ equity ↦ none | future ↦ none | option ↦ spec.option_terms ]

-- The chain index; the answer of `Chain::add` is not looked at.
unfoldable pub index_chain : InstrumentSpec → List (List ℕ × Chain) → List (List ℕ × Chain)
unfolding text_lookup text_set add
index_chain spec chains = elim (contract_of spec) [
  | none ↦ chains
  | some c ↦
      text_set c.underlying
        (add spec.id c (chain_or_new c.underlying (text_lookup c.underlying chains))).0 chains
]

unfoldable pub append_spec : InstrumentSpec → Registry → Registry
unfolding index_chain text_set emplace
append_spec spec r = record r {
  chains = index_chain spec r.chains;
  id_map = emplace spec.id (length r.instruments) r.id_map;
  sym_map = text_set spec.symbol (length r.instruments) r.sym_map;
  instruments = r.instruments ++ spec ∷ [];
}

unfoldable pub add_spec : InstrumentSpec → Registry → AddResult
unfolding lookup text_lookup append_spec
add_spec spec r = if r.frozen then throws frozen_error else elim (lookup spec.id r.id_map) [
  | some i ↦ throws duplicate_id
  | none ↦ elim (text_lookup spec.symbol r.sym_map) [
    | some i ↦ throws duplicate_symbol
    | none ↦ added (append_spec spec r)
  ]
]

abbrev pub freeze : Registry → Registry
freeze r = record r { frozen = true }

unfoldable pub option_chain : List ℕ → Registry → Option Chain
unfolding text_lookup
option_chain underlying r = text_lookup underlying r.chains

unfoldable pub find_spec : ℕ → Registry → Option InstrumentSpec
unfolding lookup
find_spec id r = do i ← lookup id r.id_map; get_elem? r.instruments i

unfoldable pub find_symbol : List ℕ → Registry → Option InstrumentSpec
unfolding text_lookup
find_symbol symbol r = do i ← text_lookup symbol r.sym_map; get_elem? r.instruments i

abbrev pub names : List (List ℕ × Chain) → List (List ℕ)
names [] = []
names ((underlying, ch) ∷ m) = underlying ∷ names m

abbrev pub option_underlyings : Registry → List (List ℕ)
option_underlyings r = names r.chains
