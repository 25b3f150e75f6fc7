-- ===== src/Sweeper/Swept.antt =====
-- What `sweep` takes out of the sweeper, and the order of its entries.
use multi_instrument_orderbo.Prelude.{
  ℕ, ◌≡◌, refl, ap, Bool, true, false, ◌==◌, if◌then◌else◌, none, List, [], ◌∷◌, ◌++◌, All, arith,
  Bool-cases, Option-cases, ◌||◌, ◌∙◌, inl, inr,
}
use multi_instrument_orderbo.Contract.{ExpiryDate, date_before}
use multi_instrument_orderbo.Contract.Dates.{date_order, date_before_later, date_before_earlier}
use multi_instrument_orderbo.OrderedMap.Laws.{before_asym}
use multi_instrument_orderbo.HashMap.{lookup, delete, lookup-delete}
use multi_instrument_orderbo.Sweeper.{
  Expiries, Sweeper, new_sweeper, insert, register_instrument, unregister, erase_entry, sweep_loop,
  sweep, notify,
}

-- No entry is dated before `k`.
abbrev pub NoneBefore : ExpiryDate → Expiries → Type 0
NoneBefore k m = All (λ e. date_before e.0 k ≡ false) m

abbrev pub IsOrdered : Expiries → Type 0
IsOrdered [] = Unit {0}
IsOrdered ((j, i) ∷ m) = NoneBefore j m × IsOrdered m

date_before_asym : (a b : ExpiryDate) → date_before a b ≡ true → date_before b a ≡ false
date_before_asym a b e = before_asym date_order a b e

NoneBefore-insert :
    (k expiry : ExpiryDate) (id : ℕ) (m : Expiries)
    → date_before expiry k ≡ false
    → NoneBefore k m
    → NoneBefore k (insert expiry id m)
unfolding insert
NoneBefore-insert k expiry id [] e h = (e, tt)
NoneBefore-insert k expiry id ((j, i) ∷ m) e h =
    ground (arith, NoneBefore-insert k expiry id m e h.1)

NoneBefore-weaken :
    (k j : ExpiryDate) (m : Expiries) → date_before k j ≡ true → NoneBefore j m → NoneBefore k m
NoneBefore-weaken k j [] e h = tt
NoneBefore-weaken k j ((d, i) ∷ m) e h =
    (date_before_earlier k j d e h.0, NoneBefore-weaken k j m e h.1)

insert-IsOrdered :
    (expiry : ExpiryDate) (id : ℕ) (m : Expiries) → IsOrdered m → IsOrdered (insert expiry id m)
unfolding insert
insert-IsOrdered expiry id [] h = (tt, tt)
insert-IsOrdered expiry id ((j, i) ∷ m) h = elim (Bool-cases (date_before expiry j)) [
  | inl e ↦ rw e ((date_before_asym expiry j e, NoneBefore-weaken expiry j m e h.0), h)
  | inr e ↦ rw e (NoneBefore-insert j expiry id m e h.0, insert-IsOrdered expiry id m h.1)
]

NoneBefore-erase_entry :
    (k expiry : ExpiryDate) (id : ℕ) (m : Expiries)
    → NoneBefore k m
    → NoneBefore k (erase_entry expiry id m)
unfolding erase_entry
NoneBefore-erase_entry k expiry id [] h = tt
NoneBefore-erase_entry k expiry id ((j, i) ∷ m) h =
    ground (arith, NoneBefore-erase_entry k expiry id m h.1)

erase_entry-IsOrdered :
    (expiry : ExpiryDate) (id : ℕ) (m : Expiries)
    → IsOrdered m
    → IsOrdered (erase_entry expiry id m)
unfolding erase_entry
erase_entry-IsOrdered expiry id [] h = tt
erase_entry-IsOrdered expiry id ((j, i) ∷ m) h =
    ground (arith, erase_entry-IsOrdered expiry id m h.1, NoneBefore-erase_entry j expiry id m h.0)

-- The three ways to change the sweeper keep its entries in order.
pub register_instrument-IsOrdered :
    (id : ℕ) (expiry : ExpiryDate) (w : Sweeper)
    → IsOrdered w.by_expiry
    → IsOrdered (register_instrument id expiry w).by_expiry
unfolding register_instrument
register_instrument-IsOrdered id expiry w h = insert-IsOrdered expiry id w.by_expiry h

pub unregister-IsOrdered :
    (id : ℕ) (w : Sweeper) → IsOrdered w.by_expiry → IsOrdered (unregister id w).by_expiry
unfolding unregister
unregister-IsOrdered id w h = elim (Option-cases (lookup id w.id_to_expiry)) [
  | inl e ↦ rw (e, unregister) h
  | inr (expiry, e) ↦ rw (e, unregister) (erase_entry-IsOrdered expiry id w.by_expiry h)
]

abbrev pub ids : Expiries → List ℕ
ids [] = []
ids ((j, i) ∷ m) = i ∷ ids m

abbrev pub is_in : ℕ → List ℕ → Bool
is_in id [] = false
is_in id (i ∷ is) = i == id || is_in id is

-- What the loop of `sweep` has done.
pub record Swept (today : ExpiryDate) (m : Expiries) (index : List (ℕ × ExpiryDate)) : Type 0 where
  pub gone : Expiries
  pub expired : (sweep_loop today m index).1 ≡ ids gone
  pub split : m ≡ gone ++ (sweep_loop today m index).0.by_expiry
  pub due : All (λ e. date_before today e.0 ≡ false) gone
  pub kept : All (λ e. date_before today e.0 ≡ true) (sweep_loop today m index).0.by_expiry
  pub ordered : IsOrdered (sweep_loop today m index).0.by_expiry
  pub unlisted :
      (id : ℕ)
      → lookup id (sweep_loop today m index).0.id_to_expiry
        ≡ (if is_in id (ids gone) then none else lookup id index)

later_entries :
    (today j : ExpiryDate) (m : Expiries)
    → date_before today j ≡ true
    → NoneBefore j m
    → All (λ e. date_before today e.0 ≡ true) m
later_entries today j [] e h = tt
later_entries today j ((d, i) ∷ m) e h =
    (date_before_later today j d e h.0, later_entries today j m e h.1)

forget :
    (id i : ℕ) (is : List ℕ) (index : List (ℕ × ExpiryDate))
    → (if is_in id is then none else lookup id (delete i index))
      ≡ (if i == id || is_in id is then none else lookup id index)
forget id i is index = ground (arith, lookup-delete i id index)

sweep_loop-Swept :
    (today : ExpiryDate) (m : Expiries) (index : List (ℕ × ExpiryDate))
    → IsOrdered m
    → Swept today m index
unfolding sweep_loop
sweep_loop-Swept today [] index h = record {
  gone = [];
  expired = refl;
  split = refl;
  due = tt;
  kept = tt;
  ordered = tt;
  unlisted = λ id. refl;
}
sweep_loop-Swept today ((j, i) ∷ m) index h = elim (Bool-cases (date_before today j)) [
  | inl e ↦ record {
    gone = [];
    expired = rw (e, sweep_loop) refl;
    split = rw (e, sweep_loop) refl;
    due = tt;
    kept = rw (e, sweep_loop) (e, later_entries today j m e h.0);
    ordered = rw (e, sweep_loop) h;
    unlisted = λ id. rw (e, sweep_loop) refl;
  }
  | inr e ↦
      let r = sweep_loop-Swept today m (delete i index) h.1 in
      record {
        gone = (j, i) ∷ r.gone;
        expired = rw (e, sweep_loop) (ap (◌∷◌ i) r.expired);
        split = rw (e, sweep_loop) (ap (◌∷◌ (j, i)) r.split);
        due = (e, r.due);
        kept = rw (e, sweep_loop) r.kept;
        ordered = rw (e, sweep_loop) r.ordered;
        unlisted = λ id. rw (e, sweep_loop) (r.unlisted id ∙ forget id i (ids r.gone) index);
      }
]

-- A run of a sweeper from its construction on.
pub data Run : Sweeper → Type 0 where
  fresh : Run new_sweeper
  registers :
      (id : ℕ) (expiry : ExpiryDate) (w : Sweeper) → Run w → Run (register_instrument id expiry w)
  unregisters : (id : ℕ) (w : Sweeper) → Run w → Run (unregister id w)
  sweeps :
      (today : ExpiryDate) (w : Sweeper)
      → Run w
      → Run (sweep_loop today w.by_expiry w.id_to_expiry).0

-- However a sweeper is used, its entries stand in the order of their dates, as `sweep` needs them.
Run-IsOrdered : (w : Sweeper) → Run w → IsOrdered w.by_expiry
Run-IsOrdered _ fresh = tt
Run-IsOrdered _ (registers id expiry w r) =
    register_instrument-IsOrdered id expiry w (Run-IsOrdered w r)
Run-IsOrdered _ (unregisters id w r) = unregister-IsOrdered id w (Run-IsOrdered w r)
Run-IsOrdered _ (sweeps today w r) =
    (sweep_loop-Swept today w.by_expiry w.id_to_expiry (Run-IsOrdered w r)).ordered

-- What `sweep` has done, with the state `s` of its callback.
pub record SweepDone {ℓ} {S : Type ℓ} (callback : ℕ → S → S) (today : ExpiryDate) (w : Sweeper)
    (s : S) : Type ℓ where
  pub after : Sweeper
  pub gone : Expiries
  pub runs : sweep callback today w s ≡ (after, ids gone, notify callback (ids gone) s)
  pub split : w.by_expiry ≡ gone ++ after.by_expiry
  pub due : All (λ e. date_before today e.0 ≡ false) gone
  pub kept : All (λ e. date_before today e.0 ≡ true) after.by_expiry
  pub ordered : IsOrdered after.by_expiry
  pub unlisted :
      (id : ℕ)
      → lookup id after.id_to_expiry
        ≡ (if is_in id (ids gone) then none else lookup id w.id_to_expiry)

-- On a sweeper that was used by its operations only, `sweep` takes out exactly the entries dated today or
-- before, which stand in front, and keeps exactly those dated later, in order. The index loses the
-- instruments that went and no other, and the callback runs once for each entry that went, in order.
pub sweep-SweepDone {ℓ} :
    {S : Type ℓ} (callback : ℕ → S → S) (today : ExpiryDate) (w : Sweeper) (s : S)
    → Run w
    → SweepDone callback today w s
unfolding sweep
sweep-SweepDone callback today w s h =
    let d = sweep_loop-Swept today w.by_expiry w.id_to_expiry (Run-IsOrdered w h) in
    record {
      after = (sweep_loop today w.by_expiry w.id_to_expiry).0;
      gone = d.gone;
      runs =
          ap (λ is. ((sweep_loop today w.by_expiry w.id_to_expiry).0, is, notify callback is s))
            d.expired;
      split = d.split;
      due = d.due;
      kept = d.kept;
      ordered = d.ordered;
      unlisted = d.unlisted;
    }
