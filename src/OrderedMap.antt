-- ===== src/OrderedMap.antt =====
-- `std::map` as the code uses it: a list of entries kept in the order of the map's comparator.
-- Keys that the comparator puts neither before nor behind one another are one key.
pub mod Laws
pub mod Related
use multi_instrument_orderbo.Prelude.{
  ◌≡◌, Bool, true, false, if◌then◌else◌, Option, none, some, List, [], ◌∷◌, ◌<◌, All,
}

-- What a comparator such as `std::less` promises.
pub record KeyOrder {ℓ} (K : Type ℓ) : Type ℓ where
  pub before : K → K → Bool
  pub before_irrefl : (a : K) → before a a ≡ false
  pub before_trans : (a b c : K) → before a b ≡ true → before b c ≡ true → before a c ≡ true
  pub before_connex : (a b : K) → before a b ≡ false → before b a ≡ false → a ≡ b

module _ {ℓ κ} {K : Type ℓ} {V : Type κ} (ord : KeyOrder K) where
  open ord use {before}

  -- `find(k)`, `none` for `end()`.
  unfoldable pub find : K → List (K × V) → Option V
  find k [] = none
  find k ((j, v) ∷ m) = if before j k then find k m else if before k j then none else some v

  -- `m[k] = v`: the entry is made in its place where there is none.
  unfoldable pub assign : K → V → List (K × V) → List (K × V)
  assign k v [] = (k, v) ∷ []
  assign k v ((j, w) ∷ m) =
      if before j k
      then (j, w) ∷ assign k v m
      else if before k j
      then (k, v) ∷ (j, w) ∷ m
      else (k, v) ∷ m

  -- `erase(k)`
  unfoldable pub remove : K → List (K × V) → List (K × V)
  remove k [] = []
  remove k ((j, w) ∷ m) =
      if before j k then (j, w) ∷ remove k m else if before k j then (j, w) ∷ m else m

  -- Every key of the map stands behind `k`.
  abbrev pub Behind : K → List (K × V) → Type 0
  Behind k [] = Unit {0}
  Behind k ((j, v) ∷ m) = (before k j ≡ true) × Behind k m

  abbrev pub IsSorted : List (K × V) → Type 0
  IsSorted [] = Unit {0}
  IsSorted ((j, v) ∷ m) = Behind j m × IsSorted m
