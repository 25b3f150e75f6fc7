-- ===== src/Chain/Removal.antt =====
-- `Chain::remove` of an id that the index has.
use multi_instrument_orderbo.Prelude.{
  ℕ, ◌≡◌, ◌≢◌, ◌⊎◌, refl, sym, ap, ◌∙◌, subst, true, none, some, ℤ, arith, inl, inr, Option-cases,
  some-eq,
}
use native.Mathlib.Decide.{ℕ_discrete}
use multi_instrument_orderbo.HashMap.{lookup, delete, lookup-delete}
use multi_instrument_orderbo.OrderedMap.{find}
use multi_instrument_orderbo.Contract.{OptionType, call, put, ExpiryDate}
use multi_instrument_orderbo.Contract.Dates.{date_order}
use multi_instrument_orderbo.Chain.{
  Levels, Chain, strike_order, no_slot, strikes_or_empty, slot_or_empty, id_of, with_id, slot_at,
  remove_id,
}
use multi_instrument_orderbo.Chain.Slots.{
  slot_in, strikes_in, settled, settled-IsOrdered, settled-same, settled-other,
}
use multi_instrument_orderbo.Chain.Index.{
  IsConsistent, IsWrite, IsOwn, entry_own, entry-cases, own-eq,
}

id_of-no_slot : (t : OptionType) → id_of t no_slot ≡ none
id_of-no_slot call = refl
id_of-no_slot put = refl

-- An id leaves the slot of its contract.
module _ (id : ℕ) (e : ExpiryDate) (k : ℤ) (t : OptionType) (ch : Chain) (h : IsConsistent ch)
    (placed : lookup id ch.by_id ≡ some (e, k)) (typed : lookup id ch.id_to_type ≡ some t) where
  abbrev emptied : Levels
  emptied = settled e k (with_id t none (slot_at e k ch.levels)) ch.levels

  abbrev pub without_contract : Chain
  without_contract = record ch {
    levels = emptied;
    by_id = delete id ch.by_id;
    id_to_type = delete id ch.id_to_type;
  }

  pub emptied-IsWrite : IsWrite e k t none ch.levels emptied
  emptied-IsWrite = record {
    same = settled-same e k _ ch.levels h.ordered;
    other = λ e' k' far. settled-other e e' k k' _ ch.levels h.ordered far;
  }

  pub removal-cases :
      (e' : ExpiryDate) (k' : ℤ) (t' : OptionType)
      → IsOwn e k t none ch.levels emptied emptied-IsWrite e' k' t'
        ⊎ (id_of t' (slot_at e' k' emptied) ≡ id_of t' (slot_at e' k' ch.levels))
  removal-cases = entry-cases e k t none ch.levels emptied emptied-IsWrite

  pub gone : id_of t (slot_at e k emptied) ≡ none
  gone = entry_own e k t none ch.levels emptied emptied-IsWrite

  there : id_of t (slot_at e k ch.levels) ≡ some id
  there =
      let (t', typed', at) = h.indexed id (e, k) placed in
      subst (λ x. id_of x (slot_at e k ch.levels) ≡ some id) (some-eq (sym typed' ∙ typed)) at

  indexed_left :
      (j : ℕ) (place : ExpiryDate × ℤ)
      → lookup j (delete id ch.by_id) ≡ some place
      → (t' : OptionType) × (lookup j (delete id ch.id_to_type) ≡ some t')
        × (id_of t' (slot_at place.0 place.1 emptied) ≡ some j)
  indexed_left j place g = elim (ℕ_discrete id j) [
    | yes same ↦ absurd (ground (arith, g, lookup-delete id j ch.by_id, same))
    | no ne ↦
        let old : lookup j ch.by_id ≡ some place =
          ground (arith, g, lookup-delete id j ch.by_id, ne) in
        let (t', typed', at) = h.indexed j place old in
        elim (removal-cases place.0 place.1 t') [
          | inl here ↦ absurd (
              ne (
                some-eq (
                  sym there
                  ∙ sym (
                      own-eq e k t none ch.levels emptied emptied-IsWrite ch.levels place.0 place.1
                        t' here)
                  ∙ at)))
          | inr kept ↦ (t', ground (arith, typed', lookup-delete id j ch.id_to_type, ne), kept ∙ at)
        ]
  ]

  filed_left :
      (e' : ExpiryDate) (k' : ℤ) (t' : OptionType) (j : ℕ)
      → id_of t' (slot_at e' k' emptied) ≡ some j
      → (lookup j (delete id ch.by_id) ≡ some (e', k'))
        × (lookup j (delete id ch.id_to_type) ≡ some t')
  filed_left e' k' t' j g = elim (removal-cases e' k' t') [
    | inl here ↦ absurd (
        cc (
          sym g ∙ own-eq e k t none ch.levels emptied emptied-IsWrite emptied e' k' t' here ∙ gone))
    | inr kept ↦
        let (place, typed') = h.filed e' k' t' j (sym kept ∙ g) in
        let ne : id ≢ j = λ same.
          let at : ◌≡◌ {A = ExpiryDate × ℤ} (e', k') (e, k) =
            some-eq (sym place ∙ ap (λ i. lookup i ch.by_id) (sym same) ∙ placed) in
          let own_type : t' ≡ t =
            some-eq (sym typed' ∙ ap (λ i. lookup i ch.id_to_type) (sym same) ∙ typed) in
          let here : IsOwn e k t none ch.levels emptied emptied-IsWrite e' k' t' =
            (ap (λ p. p.0) at, ap (λ p. p.1) at, own_type) in
          cc (
            sym g
            ∙ own-eq e k t none ch.levels emptied emptied-IsWrite emptied e' k' t' here
            ∙ gone) in
        (
          ground (arith, place, lookup-delete id j ch.by_id, ne),
          ground (arith, typed', lookup-delete id j ch.id_to_type, ne),
        )
  ]

  untyped_left :
      (j : ℕ) → lookup j (delete id ch.by_id) ≡ none → lookup j (delete id ch.id_to_type) ≡ none
  untyped_left j g =
      ground (arith, g, lookup-delete id j ch.by_id, lookup-delete id j ch.id_to_type, h.untyped j)

  pub without_contract-IsConsistent : IsConsistent without_contract
  without_contract-IsConsistent = record {
    ordered = settled-IsOrdered e k _ ch.levels h.ordered;
    indexed = indexed_left;
    untyped = untyped_left;
    filed = filed_left;
  }

  -- The lookups of `remove` succeed.
  not_free : slot_at e k ch.levels ≢ no_slot
  not_free = λ free. cc (sym there ∙ ap (id_of t) free ∙ id_of-no_slot t)

  found_strikes : find date_order e ch.levels ≡ some (strikes_in e ch.levels)
  unfolding slot_at find
  found_strikes = elim (Option-cases (find date_order e ch.levels)) [
    | inl f ↦ absurd (not_free (ap (λ r. slot_in k (strikes_or_empty r)) f))
    | inr (m, f) ↦ f ∙ ap some (sym (ap strikes_or_empty f))
  ]

  found_slot : find strike_order k (strikes_in e ch.levels) ≡ some (slot_at e k ch.levels)
  unfolding slot_at
  found_slot = elim (Option-cases (find strike_order k (strikes_in e ch.levels))) [
    | inl f ↦ absurd (not_free (ap slot_or_empty f))
    | inr (s, f) ↦ f ∙ ap some (sym (ap slot_or_empty f))
  ]

  pub remove_id-runs : remove_id id ch ≡ some (without_contract, true)
  unfolding remove_id
  remove_id-runs = rw (placed, remove_id) (rw typed (rw found_strikes (rw found_slot refl)))
