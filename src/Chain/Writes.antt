-- ===== src/Chain/Writes.antt =====
-- `Chain::add` and `Chain::remove` keep levels and index in agreement.
use multi_instrument_orderbo.Prelude.{
  ℕ, ◌≡◌, ◌⊎◌, sym, ap, ap₂, ◌∙◌, none, some, ℤ, inl, inr, some-eq,
}
use native.Mathlib.Decide.{ℕ_discrete}
use multi_instrument_orderbo.HashMap.{lookup, emplace}
use multi_instrument_orderbo.Contract.{OptionType, ExpiryDate}
use multi_instrument_orderbo.Chain.{Levels, Chain, id_of, with_id, slot_at, set_slot}
use multi_instrument_orderbo.Chain.Slots.{slot_at-same, slot_at-other, set_slot-IsOrdered}
use multi_instrument_orderbo.Chain.Index.{
  IsConsistent, IsWrite, IsOwn, entry_own, entry-cases, own-eq, emplace_new, emplace_old,
  emplace_ne,
}

-- An id that is in no slot goes into the free slot of its contract.
module _ (id : ℕ) (e : ExpiryDate) (k : ℤ) (t : OptionType) (ch : Chain) (h : IsConsistent ch)
    (fresh : lookup id ch.by_id ≡ none) (empty : id_of t (slot_at e k ch.levels) ≡ none) where
  abbrev filled : Levels
  filled = set_slot e k (with_id t (some id) (slot_at e k ch.levels)) ch.levels

  abbrev pub with_contract : Chain
  with_contract = record ch {
    levels = filled;
    by_id = emplace id (e, k) ch.by_id;
    id_to_type = emplace id t ch.id_to_type;
  }

  filled-IsWrite : IsWrite e k t (some id) ch.levels filled
  filled-IsWrite = record {
    same = slot_at-same e k _ ch.levels;
    other = λ e' k' far. slot_at-other e e' k k' _ ch.levels far;
  }

  cases :
      (e' : ExpiryDate) (k' : ℤ) (t' : OptionType)
      → IsOwn e k t (some id) ch.levels filled filled-IsWrite e' k' t'
        ⊎ (id_of t' (slot_at e' k' filled) ≡ id_of t' (slot_at e' k' ch.levels))
  cases = entry-cases e k t (some id) ch.levels filled filled-IsWrite

  own : id_of t (slot_at e k filled) ≡ some id
  own = entry_own e k t (some id) ch.levels filled filled-IsWrite

  indexed_old :
      (j : ℕ) (place : ExpiryDate × ℤ)
      → lookup j ch.by_id ≡ some place
      → (t' : OptionType) × (lookup j with_contract.id_to_type ≡ some t')
        × (id_of t' (slot_at place.0 place.1 filled) ≡ some j)
  indexed_old j place g =
      let (t', typed, at) = h.indexed j place g in
      elim (cases place.0 place.1 t') [
        | inl here ↦ absurd (
            cc (
              sym at
              ∙ own-eq e k t (some id) ch.levels filled filled-IsWrite ch.levels place.0 place.1 t'
                  here
              ∙ empty))
        | inr kept ↦ (t', emplace_old id j t t' ch.id_to_type typed, kept ∙ at)
      ]

  indexed_new :
      (j : ℕ) (place : ExpiryDate × ℤ)
      → lookup j with_contract.by_id ≡ some place
      → (t' : OptionType) × (lookup j with_contract.id_to_type ≡ some t')
        × (id_of t' (slot_at place.0 place.1 filled) ≡ some j)
  indexed_new j place g = elim (ℕ_discrete id j) [
    | yes same ↦
        let here : (e, k) ≡ place = some-eq (
          sym (emplace_new id (e, k) ch.by_id fresh)
          ∙ ap (λ i. lookup i with_contract.by_id) same
          ∙ g) in
        (
          t,
          ap (λ i. lookup i with_contract.id_to_type) (sym same)
              ∙ emplace_new id t ch.id_to_type (h.untyped id fresh),
          ap (λ p. id_of t (slot_at p.0 p.1 filled)) (sym here) ∙ own ∙ ap some same,
        )
    | no ne ↦ indexed_old j place (sym (emplace_ne id j (e, k) ch.by_id ne) ∙ g)
  ]

  filed_new :
      (e' : ExpiryDate) (k' : ℤ) (t' : OptionType) (j : ℕ)
      → id_of t' (slot_at e' k' filled) ≡ some j
      → (lookup j with_contract.by_id ≡ some (e', k'))
        × (lookup j with_contract.id_to_type ≡ some t')
  filed_new e' k' t' j g = elim (cases e' k' t') [
    | inl here ↦
        let same : id ≡ j = some-eq (
          sym own
          ∙ sym (own-eq e k t (some id) ch.levels filled filled-IsWrite filled e' k' t' here)
          ∙ g) in
        (
          ap (λ i. lookup i with_contract.by_id) (sym same)
              ∙ emplace_new id (e, k) ch.by_id fresh
              ∙ ap some (ap₂ (λ x y. (x, y)) (sym here.0) (sym here.1)),
          ap (λ i. lookup i with_contract.id_to_type) (sym same)
              ∙ emplace_new id t ch.id_to_type (h.untyped id fresh)
              ∙ ap some (sym here.2),
        )
    | inr kept ↦
        let (placed, typed) = h.filed e' k' t' j (sym kept ∙ g) in
        (
          emplace_old id j (e, k) (e', k') ch.by_id placed,
          emplace_old id j t t' ch.id_to_type typed,
        )
  ]

  untyped_new :
      (j : ℕ) → lookup j with_contract.by_id ≡ none → lookup j with_contract.id_to_type ≡ none
  untyped_new j g = elim (ℕ_discrete id j) [
    | yes same ↦ absurd (
        cc (
          sym (emplace_new id (e, k) ch.by_id fresh)
          ∙ ap (λ i. lookup i with_contract.by_id) same
          ∙ g))
    | no ne ↦
        emplace_ne id j t ch.id_to_type ne
        ∙ h.untyped j (sym (emplace_ne id j (e, k) ch.by_id ne) ∙ g)
  ]

  pub with_contract-IsConsistent : IsConsistent with_contract
  with_contract-IsConsistent = record {
    ordered = set_slot-IsOrdered e k _ ch.levels h.ordered;
    indexed = indexed_new;
    untyped = untyped_new;
    filed = filed_new;
  }
