-- ===== src/Chain/Index.antt =====
-- The levels of a `Chain` and its index of ids, through `add` and `remove`.
use multi_instrument_orderbo.Prelude.{
  ℕ, ◌≡◌, ◌≢◌, ◌⊎◌, refl, sym, ap, ◌∙◌, subst, Option, none, some, List, ℤ, arith, inl, inr,
}
use multi_instrument_orderbo.HashMap.{lookup, emplace, lookup-emplace}
use multi_instrument_orderbo.Contract.{OptionType, call, put, ExpiryDate}
use multi_instrument_orderbo.Contract.Dates.{date_order}
use multi_instrument_orderbo.Chain.{
  StrikeSlot, Levels, Chain, strike_order, id_of, with_id, slot_at,
}
use multi_instrument_orderbo.Chain.Slots.{key-cases, IsOrdered}

-- The levels and the index agree: an id is in the slot of its contract and in no other.
pub record IsConsistent (ch : Chain) : Type 0 where
  pub ordered : IsOrdered ch.levels
  pub indexed :
      (id : ℕ) (place : ExpiryDate × ℤ)
      → lookup id ch.by_id ≡ some place
      → (t : OptionType) × (lookup id ch.id_to_type ≡ some t)
        × (id_of t (slot_at place.0 place.1 ch.levels) ≡ some id)
  pub untyped : (id : ℕ) → lookup id ch.by_id ≡ none → lookup id ch.id_to_type ≡ none
  pub filed :
      (e : ExpiryDate) (k : ℤ) (t : OptionType) (id : ℕ)
      → id_of t (slot_at e k ch.levels) ≡ some id
      → (lookup id ch.by_id ≡ some (e, k)) × (lookup id ch.id_to_type ≡ some t)

pub type-cases : (t t' : OptionType) → (t' ≡ t) ⊎ (t' ≢ t)
type-cases call call = inl refl
type-cases call put = inr (λ e. cc)
type-cases put call = inr (λ e. cc)
type-cases put put = inl refl

id_of-with_id : (t : OptionType) (v : Option ℕ) (s : StrikeSlot) → id_of t (with_id t v s) ≡ v
id_of-with_id call v s = refl
id_of-with_id put v s = refl

id_of-with_id_ne :
    (t t' : OptionType) (v : Option ℕ) (s : StrikeSlot)
    → t' ≢ t
    → id_of t' (with_id t v s) ≡ id_of t' s
id_of-with_id_ne call call v s ne = absurd (ne refl)
id_of-with_id_ne call put v s ne = refl
id_of-with_id_ne put call v s ne = refl
id_of-with_id_ne put put v s ne = absurd (ne refl)

place-cases : (e e' : ExpiryDate) (k k' : ℤ) → ((e' ≡ e) × (k' ≡ k)) ⊎ ((e' ≡ e) → k' ≢ k)
place-cases e e' k k' = elim (key-cases date_order e' e) [
  | inr far ↦ inr (λ same. absurd (far same))
  | inl same ↦ elim (key-cases strike_order k' k) [
    | inl equal ↦ inl (same, equal)
    | inr apart ↦ inr (λ _. apart)
  ]
]

-- A write of one id into one slot.
pub record IsWrite (e : ExpiryDate) (k : ℤ) (t : OptionType) (v : Option ℕ) (m m' : Levels)
    : Type 0 where
  pub same : slot_at e k m' ≡ with_id t v (slot_at e k m)
  pub other : (e' : ExpiryDate) (k' : ℤ) → ((e' ≡ e) → k' ≢ k) → slot_at e' k' m' ≡ slot_at e' k' m

module _ (e : ExpiryDate) (k : ℤ) (t : OptionType) (v : Option ℕ) (m m' : Levels)
    (w : IsWrite e k t v m m') where
  pub entry_own : id_of t (slot_at e k m') ≡ v
  entry_own = ap (id_of t) w.same ∙ id_of-with_id t v (slot_at e k m)

  abbrev pub IsOwn : ExpiryDate → ℤ → OptionType → Type 0
  IsOwn e' k' t' = (e' ≡ e) × (k' ≡ k) × (t' ≡ t)

  pub entry-cases :
      (e' : ExpiryDate) (k' : ℤ) (t' : OptionType)
      → IsOwn e' k' t' ⊎ (id_of t' (slot_at e' k' m') ≡ id_of t' (slot_at e' k' m))
  entry-cases e' k' t' = elim (place-cases e e' k k') [
    | inr far ↦ inr (ap (id_of t') (w.other e' k' far))
    | inl (p, q) ↦ elim (type-cases t t') [
      | inl r ↦ inl (p, q, r)
      | inr ne ↦ inr (
          subst (λ d. id_of t' (slot_at d k' m') ≡ id_of t' (slot_at d k' m)) (sym p)
            (subst (λ x. id_of t' (slot_at e x m') ≡ id_of t' (slot_at e x m)) (sym q)
              (ap (id_of t') w.same ∙ id_of-with_id_ne t t' v (slot_at e k m) ne)))
    ]
  ]

  pub own-eq :
      (x : Levels) (e' : ExpiryDate) (k' : ℤ) (t' : OptionType)
      → IsOwn e' k' t'
      → id_of t' (slot_at e' k' x) ≡ id_of t (slot_at e k x)
  own-eq x e' k' t' (p, q, r) =
      ap (λ d. id_of t' (slot_at d k' x)) p
      ∙ ap (λ z. id_of t' (slot_at e z x)) q
      ∙ ap (λ y. id_of y (slot_at e k x)) r

module _ {V : Type 0} where
  pub emplace_new :
      (id : ℕ) (v : V) (m : List (ℕ × V)) → lookup id m ≡ none → lookup id (emplace id v m) ≡ some v
  emplace_new id v m h = ground (arith, lookup-emplace id id v m, h)

  pub emplace_old :
      (id j : ℕ) (v w : V) (m : List (ℕ × V))
      → lookup j m ≡ some w
      → lookup j (emplace id v m) ≡ some w
  emplace_old id j v w m h =
      ground (arith, lookup-emplace id j v m, h, λ (f : id ≡ j). ap (λ x. lookup x m) f)

  pub emplace_ne :
      (id j : ℕ) (v : V) (m : List (ℕ × V)) → id ≢ j → lookup j (emplace id v m) ≡ lookup j m
  emplace_ne id j v m ne = ground (arith, lookup-emplace id j v m, ne)
