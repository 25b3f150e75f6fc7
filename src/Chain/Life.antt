-- ===== src/Chain/Life.antt =====
-- A `Chain` from its construction on: what `find` gives, and that `remove` does not fault.
use multi_instrument_orderbo.Prelude.{
  ℕ, ◌≡◌, refl, sym, ap, ap₂, ◌∙◌, subst, Bool, true, false, none, some, List, ℤ, arith, inl, inr,
  Option-cases, some-eq,
}
use multi_instrument_orderbo.HashMap.{lookup}
use multi_instrument_orderbo.OrderedMap.{find}
use multi_instrument_orderbo.Contract.{OptionType, call, put, ExpiryDate, Contract}
use multi_instrument_orderbo.Contract.Dates.{date_order}
use multi_instrument_orderbo.Chain.{
  Levels, Chain, strike_order, new_chain, no_slot, id_of, slot_at, set_slot, add, remove_id,
  find_id,
}
use multi_instrument_orderbo.Chain.Slots.{
  key-cases, slot_at-same, slot_at-other, set_slot-IsOrdered,
}
use multi_instrument_orderbo.Chain.Index.{IsConsistent}
use multi_instrument_orderbo.Chain.Writes.{with_contract-IsConsistent}
use multi_instrument_orderbo.Chain.Removal.{
  without_contract, without_contract-IsConsistent, remove_id-runs,
}

-- A run of a chain.
pub data Run (underlying : List ℕ) : Chain → Type 0 where
  fresh : Run underlying (new_chain underlying)
  adds : (id : ℕ) (c : Contract) (ch : Chain) → Run underlying ch → Run underlying (add id c ch).0
  removes :
      (id : ℕ) (ch ch' : Chain) (ok : Bool)
      → Run underlying ch
      → remove_id id ch ≡ some (ch', ok)
      → Run underlying ch'

id_of-empty : (t : OptionType) → id_of t no_slot ≡ none
id_of-empty call = refl
id_of-empty put = refl

new_chain-IsConsistent : (underlying : List ℕ) → IsConsistent (new_chain underlying)
unfolding lookup slot_at find
new_chain-IsConsistent underlying = record {
  ordered = record { dates = tt; strikes = tt };
  indexed = λ id place e. absurd (ground (arith, e));
  untyped = λ id e. refl;
  filed = λ e k t id g. absurd (ground (arith, g, id_of-empty t));
}

-- `add` that finds the place taken has at most made the slot again as it was.
rewritten-slot :
    (e e' : ExpiryDate) (k k' : ℤ) (m : Levels)
    → slot_at e' k' (set_slot e k (slot_at e k m) m) ≡ slot_at e' k' m
rewritten-slot e e' k k' m = elim (key-cases date_order e' e) [
  | inr far ↦ slot_at-other e e' k k' _ m (λ same. absurd (far same))
  | inl same ↦ elim (key-cases strike_order k' k) [
    | inr apart ↦ slot_at-other e e' k k' _ m (λ _. apart)
    | inl equal ↦
        ap₂ (λ d x. slot_at d x (set_slot e k (slot_at e k m) m)) same equal
        ∙ slot_at-same e k _ m
        ∙ sym (ap₂ (λ d x. slot_at d x m) same equal)
  ]
]

rewritten-IsConsistent :
    (e : ExpiryDate) (k : ℤ) (ch : Chain)
    → IsConsistent ch
    → IsConsistent (record ch { levels = set_slot e k (slot_at e k ch.levels) ch.levels })
rewritten-IsConsistent e k ch h = record {
  ordered = set_slot-IsOrdered e k _ ch.levels h.ordered;
  indexed = λ id place g.
      let (t, typed, at) = h.indexed id place g in
      (t, typed, ap (id_of t) (rewritten-slot e place.0 k place.1 ch.levels) ∙ at);
  untyped = h.untyped;
  filed = λ e' k' t id g.
      h.filed e' k' t id (ap (id_of t) (sym (rewritten-slot e e' k k' ch.levels)) ∙ g);
}

add-IsConsistent :
    (id : ℕ) (c : Contract) (ch : Chain) → IsConsistent ch → IsConsistent (add id c ch).0
unfolding add
add-IsConsistent id c ch h = elim (Option-cases (lookup id ch.by_id)) [
  | inr (place, f) ↦ rw (f, add) h
  | inl f ↦ elim (Option-cases (id_of c.option_type (slot_at c.expiry c.strike ch.levels))) [
    | inr (other, g) ↦ rw (f, g, add) (rewritten-IsConsistent c.expiry c.strike ch h)
    | inl g ↦
        rw (f, g, add) (with_contract-IsConsistent id c.expiry c.strike c.option_type ch h f g)
  ]
]

-- What `remove` does with an id that the index has.
record Removed (id : ℕ) (ch : Chain) : Type 0 where
  after : Chain
  runs : remove_id id ch ≡ some (after, true)
  consistent : IsConsistent after

remove_id-Removed :
    (id : ℕ) (place : ExpiryDate × ℤ) (ch : Chain)
    → IsConsistent ch
    → lookup id ch.by_id ≡ some place
    → Removed id ch
remove_id-Removed id place ch h f =
    let (t, typed, at) = h.indexed id place f in
    record {
      after = without_contract id place.0 place.1 t ch h f typed;
      runs = remove_id-runs id place.0 place.1 t ch h f typed;
      consistent = without_contract-IsConsistent id place.0 place.1 t ch h f typed;
    }

remove_id-IsConsistent :
    (id : ℕ) (ch ch' : Chain) (ok : Bool)
    → remove_id id ch ≡ some (ch', ok)
    → IsConsistent ch
    → IsConsistent ch'
unfolding remove_id
remove_id-IsConsistent id ch ch' ok e h = elim (Option-cases (lookup id ch.by_id)) [
  | inl f ↦ subst IsConsistent (ap (λ r. r.0) (some-eq (rw (f, remove_id) at e))) h
  | inr (place, f) ↦
      let r = remove_id-Removed id place ch h f in
      subst IsConsistent (ap (λ x. x.0) (some-eq (sym r.runs ∙ e))) r.consistent
]

Run-IsConsistent : (underlying : List ℕ) (ch : Chain) → Run underlying ch → IsConsistent ch
Run-IsConsistent underlying _ fresh = new_chain-IsConsistent underlying
Run-IsConsistent underlying _ (adds id c ch r) =
    add-IsConsistent id c ch (Run-IsConsistent underlying ch r)
Run-IsConsistent underlying _ (removes id ch ch' ok r e) =
    remove_id-IsConsistent id ch ch' ok e (Run-IsConsistent underlying ch r)

find_id-slot_at :
    (e : ExpiryDate) (k : ℤ) (t : OptionType) (ch : Chain)
    → find_id e k t ch ≡ id_of t (slot_at e k ch.levels)
unfolding find_id slot_at find
find_id-slot_at e k t ch = elim (Option-cases (find date_order e ch.levels)) [
  | inl f ↦ rw (f, find_id) (sym (id_of-empty t))
  | inr (strikes, f) ↦ elim (Option-cases (find strike_order k strikes)) [
    | inl g ↦ rw (f, find_id) (rw g (sym (id_of-empty t)))
    | inr (s, g) ↦ rw (f, find_id) (rw g refl)
  ]
]

-- What holds of a chain at any time.
pub record InOrder (ch : Chain) : Type 0 where
  pub found_listed :
      (e : ExpiryDate) (k : ℤ) (t : OptionType) (id : ℕ)
      → find_id e k t ch ≡ some id
      → (lookup id ch.by_id ≡ some (e, k)) × (lookup id ch.id_to_type ≡ some t)
  pub listed_found :
      (id : ℕ) (place : ExpiryDate × ℤ)
      → lookup id ch.by_id ≡ some place
      → (t : OptionType) × (lookup id ch.id_to_type ≡ some t)
        × (find_id place.0 place.1 t ch ≡ some id)
  pub removable : (id : ℕ) → (ch' : Chain) × (ok : Bool) × (remove_id id ch ≡ some (ch', ok))

-- In a chain used by `add` and `remove` only, `find` gives an id exactly for the expiry, strike and
-- type under which the index has it, and `remove` of any id runs without an exception.
pub Run-InOrder : (underlying : List ℕ) (ch : Chain) → Run underlying ch → InOrder ch
unfolding remove_id
Run-InOrder underlying ch r =
    let h = Run-IsConsistent underlying ch r in
    record {
      found_listed = λ e k t id g. h.filed e k t id (sym (find_id-slot_at e k t ch) ∙ g);
      listed_found = λ id place g.
          let (t, typed, at) = h.indexed id place g in
          (t, typed, find_id-slot_at place.0 place.1 t ch ∙ at);
      removable = λ id. elim (Option-cases (lookup id ch.by_id)) [
        | inl f ↦ (ch, false, rw (f, remove_id) refl)
        | inr (place, f) ↦ let d = remove_id-Removed id place ch h f in (d.after, true, d.runs)
      ];
    }
