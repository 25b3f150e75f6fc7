-- ===== src/Sweeper.antt =====
-- `Sweeper` of include/ordbk/matching/sweeper.hpp and src/matching/sweeper.cpp: instruments by
-- expiry. `by_expiry` is the multimap, a list of entries in the order of the dates, those of one
-- date in the order of their insertion.
pub mod Swept
mod Tests
use multi_instrument_orderbo.Prelude.{
  ℕ, Bool, true, false, ◌==◌, if◌then◌else◌, Option, none, some, List, [], ◌∷◌,
}
use multi_instrument_orderbo.Contract.{ExpiryDate, date_before}
use multi_instrument_orderbo.HashMap.{lookup, emplace, delete}

abbrev pub Expiries : Type 0
Expiries = List (ExpiryDate × ℕ)

pub record Sweeper : Type 0 where
  pub by_expiry : Expiries
  pub id_to_expiry : List (ℕ × ExpiryDate)

abbrev pub new_sweeper : Sweeper
new_sweeper = record { by_expiry = []; id_to_expiry = [] }

-- `emplace` of the multimap: behind the entries of the same date.
unfoldable pub insert : ExpiryDate → ℕ → Expiries → Expiries
insert expiry id [] = (expiry, id) ∷ []
insert expiry id ((j, i) ∷ m) =
    if date_before expiry j then (expiry, id) ∷ (j, i) ∷ m else (j, i) ∷ insert expiry id m

unfoldable pub register_instrument : ℕ → ExpiryDate → Sweeper → Sweeper
unfolding emplace insert
register_instrument id expiry s = record {
  by_expiry = insert expiry id s.by_expiry;
  id_to_expiry = emplace id expiry s.id_to_expiry;
}

-- The loop over `equal_range(expiry)`: the first entry with the id goes.
unfoldable pub erase_entry : ExpiryDate → ℕ → Expiries → Expiries
erase_entry expiry id [] = []
erase_entry expiry id ((j, i) ∷ m) =
    if date_before j expiry
    then (j, i) ∷ erase_entry expiry id m
    else if date_before expiry j
    then (j, i) ∷ m
    else if i == id
    then m
    else (j, i) ∷ erase_entry expiry id m

unfoldable pub unregister : ℕ → Sweeper → Sweeper
unfolding lookup delete erase_entry
unregister id s = elim (lookup id s.id_to_expiry) [
  | none ↦ s
  | some expiry ↦ record {
    by_expiry = erase_entry expiry id s.by_expiry;
    id_to_expiry = delete id s.id_to_expiry;
  }
]

-- The loop of `sweep`, with the index passed on.
unfoldable pub sweep_loop : ExpiryDate → Expiries → List (ℕ × ExpiryDate) → Sweeper × List ℕ
unfolding delete
sweep_loop today [] index = (record { by_expiry = []; id_to_expiry = index }, [])
sweep_loop today ((j, i) ∷ m) index =
    let rest = sweep_loop today m (delete i index) in
    if date_before today j
    then (record { by_expiry = (j, i) ∷ m; id_to_expiry = index }, [])
    else (rest.0, i ∷ rest.1)

-- The callback runs for each expired instrument, in order; it does not reach the sweeper. No callback
-- is one that changes nothing.
abbrev pub notify {ℓ} : {S : Type ℓ} → (ℕ → S → S) → List ℕ → S → S
notify callback [] s = s
notify callback (i ∷ is) s = notify callback is (callback i s)

unfoldable pub sweep {ℓ} :
    {S : Type ℓ} → (ℕ → S → S) → ExpiryDate → Sweeper → S → Sweeper × List ℕ × S
unfolding sweep_loop
sweep callback today w s =
    let (w', expired) = sweep_loop today w.by_expiry w.id_to_expiry in
    (w', expired, notify callback expired s)
