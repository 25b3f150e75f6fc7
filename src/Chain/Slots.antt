-- ===== src/Chain/Slots.antt =====
-- The slots of a `Chain` after a write at one place.
use multi_instrument_orderbo.Prelude.{
  ◌≡◌, ◌≢◌, ◌⊎◌, sym, ap, ap₂, ◌∙◌, subst, true, none, [], ◌∷◌, ℤ, arith, inl, inr, Bool-cases, All,
}
use multi_instrument_orderbo.OrderedMap.{KeyOrder, find, assign, remove, IsSorted}
use multi_instrument_orderbo.OrderedMap.Laws.{
  find-assign_self, find-assign_ne, find-remove_self, find-remove_ne, assign-IsSorted,
  remove-IsSorted,
}
use multi_instrument_orderbo.Contract.{ExpiryDate, date_before}
use multi_instrument_orderbo.Contract.Dates.{date_order}
use multi_instrument_orderbo.Chain.{
  StrikeSlot, Strikes, Levels, strike_order, no_slot, strikes_or_empty, slot_or_empty, slot_at,
  set_slot, is_free, settle_strikes, settle_dates,
}

-- Two keys are one key or not.
pub key-cases {ℓ} : {K : Type ℓ} (ord : KeyOrder K) (a b : K) → (a ≡ b) ⊎ (a ≢ b)
key-cases ord a b = elim (Bool-cases (ord.before a b)) [
  | inl e ↦ inr (λ same. cc (ord.before_irrefl b, subst (λ x. ord.before x b ≡ true) same e))
  | inr e ↦ elim (Bool-cases (ord.before b a)) [
    | inl f ↦ inr (λ same. cc (ord.before_irrefl b, subst (λ x. ord.before b x ≡ true) same f))
    | inr f ↦ inl (ord.before_connex a b e f)
  ]
]

-- The slot at a strike of one date.
abbrev pub slot_in : ℤ → Strikes → StrikeSlot
slot_in strike m = slot_or_empty (find strike_order strike m)

abbrev pub strikes_in : ExpiryDate → Levels → Strikes
strikes_in expiry m = strikes_or_empty (find date_order expiry m)

pub slot_at-same :
    (e : ExpiryDate) (k : ℤ) (s : StrikeSlot) (m : Levels) → slot_at e k (set_slot e k s m) ≡ s
unfolding slot_at set_slot
slot_at-same e k s m =
    ap (λ r. slot_in k (strikes_or_empty r)) (find-assign_self date_order e _ m)
    ∙ ap slot_or_empty (find-assign_self strike_order k s (strikes_in e m))

pub slot_at-other :
    (e e' : ExpiryDate) (k k' : ℤ) (s : StrikeSlot) (m : Levels)
    → ((e' ≡ e) → k' ≢ k)
    → slot_at e' k' (set_slot e k s m) ≡ slot_at e' k' m
unfolding slot_at set_slot
slot_at-other e e' k k' s m ne = elim (key-cases date_order e' e) [
  | inr far ↦ ap (λ r. slot_in k' (strikes_or_empty r)) (find-assign_ne date_order e e' _ m far)
  | inl same ↦
      subst
        (λ d.
          slot_in k'
            (strikes_in d (assign date_order e (assign strike_order k s (strikes_in e m)) m))
          ≡ slot_in k' (strikes_in d m))
        (sym same)
        (ap (λ r. slot_in k' (strikes_or_empty r)) (find-assign_self date_order e _ m)
          ∙ ap slot_or_empty (find-assign_ne strike_order k k' s (strikes_in e m) (ne same)))
]

is_free-eq : (s : StrikeSlot) → is_free s ≡ true → no_slot ≡ s
is_free-eq s h =
    let parts : (none ≡ s.call_id) × (none ≡ s.put_id) = ground (arith, h) in
    ap₂ (λ c p. record { call_id = c; put_id = p }) parts.0 parts.1

slot_in-same :
    (k : ℤ) (s : StrikeSlot) (m : Strikes)
    → IsSorted strike_order m
    → slot_in k (settle_strikes k s m) ≡ s
unfolding settle_strikes
slot_in-same k s m h = elim (Bool-cases (is_free s)) [
  | inl f ↦
      rw (f, settle_strikes)
        (ap slot_or_empty (find-remove_self strike_order k m h) ∙ is_free-eq s f)
  | inr f ↦ rw (f, settle_strikes) (ap slot_or_empty (find-assign_self strike_order k s m))
]

slot_in-other :
    (k k' : ℤ) (s : StrikeSlot) (m : Strikes)
    → IsSorted strike_order m
    → k' ≢ k
    → slot_in k' (settle_strikes k s m) ≡ slot_in k' m
unfolding settle_strikes
slot_in-other k k' s m h ne = elim (Bool-cases (is_free s)) [
  | inl f ↦ rw (f, settle_strikes) (ap slot_or_empty (find-remove_ne strike_order k k' m h ne))
  | inr f ↦ rw (f, settle_strikes) (ap slot_or_empty (find-assign_ne strike_order k k' s m ne))
]

strikes_in-same :
    (e : ExpiryDate) (strikes : Strikes) (m : Levels)
    → IsSorted date_order m
    → strikes_in e (settle_dates e strikes m) ≡ strikes
unfolding settle_dates
strikes_in-same e [] m h = ap strikes_or_empty (find-remove_self date_order e m h)
strikes_in-same e (s ∷ strikes) m h = ap strikes_or_empty (find-assign_self date_order e _ m)

strikes_in-other :
    (e e' : ExpiryDate) (strikes : Strikes) (m : Levels)
    → IsSorted date_order m
    → e' ≢ e
    → strikes_in e' (settle_dates e strikes m) ≡ strikes_in e' m
unfolding settle_dates
strikes_in-other e e' [] m h ne = ap strikes_or_empty (find-remove_ne date_order e e' m h ne)
strikes_in-other e e' (s ∷ strikes) m h ne =
    ap strikes_or_empty (find-assign_ne date_order e e' _ m ne)

-- What `remove` of a contract makes of the levels.
abbrev pub settled : ExpiryDate → ℤ → StrikeSlot → Levels → Levels
settled e k s m = settle_dates e (settle_strikes k s (strikes_in e m)) m

-- Dates in order, and the strikes of each date in order.
pub record IsOrdered (m : Levels) : Type 0 where
  pub dates : IsSorted date_order m
  pub strikes : All (λ x. IsSorted strike_order x.1) m

module _ (P : Strikes → Type 0) where
  All-find : (e : ExpiryDate) (m : Levels) → P [] → All (λ x. P x.1) m → P (strikes_in e m)
  unfolding find
  All-find e [] h a = h
  All-find e ((d, w) ∷ m) h a = elim (Bool-cases (date_before d e)) [
    | inl f ↦ rw f (All-find e m h a.1)
    | inr f ↦ elim (Bool-cases (date_before e d)) [ inl g ↦ rw (f, g) h | inr g ↦ rw (f, g) a.0 ]
  ]

  All-assign :
      (e : ExpiryDate) (w : Strikes) (m : Levels)
      → P w
      → All (λ x. P x.1) m
      → All (λ x. P x.1) (assign date_order e w m)
  unfolding assign
  All-assign e w [] h a = (h, tt)
  All-assign e w ((d, v) ∷ m) h a = elim (Bool-cases (date_before d e)) [
    | inl f ↦ rw f (a.0, All-assign e w m h a.1)
    | inr f ↦ elim (Bool-cases (date_before e d)) [
      | inl g ↦ rw (f, g) (h, a)
      | inr g ↦ rw (f, g) (h, a.1)
    ]
  ]

  All-remove :
      (e : ExpiryDate) (m : Levels) → All (λ x. P x.1) m → All (λ x. P x.1) (remove date_order e m)
  unfolding remove
  All-remove e [] a = tt
  All-remove e ((d, v) ∷ m) a = elim (Bool-cases (date_before d e)) [
    | inl f ↦ rw f (a.0, All-remove e m a.1)
    | inr f ↦ elim (Bool-cases (date_before e d)) [ inl g ↦ rw (f, g) a | inr g ↦ rw (f, g) a.1 ]
  ]

pub strikes_in-IsSorted :
    (e : ExpiryDate) (m : Levels) → IsOrdered m → IsSorted strike_order (strikes_in e m)
strikes_in-IsSorted e m h = All-find (IsSorted strike_order) e m tt h.strikes

pub set_slot-IsOrdered :
    (e : ExpiryDate) (k : ℤ) (s : StrikeSlot) (m : Levels)
    → IsOrdered m
    → IsOrdered (set_slot e k s m)
unfolding set_slot
set_slot-IsOrdered e k s m h = record {
  dates = assign-IsSorted date_order e _ m h.dates;
  strikes =
      All-assign (IsSorted strike_order) e _ m
        (assign-IsSorted strike_order k s _ (strikes_in-IsSorted e m h)) h.strikes;
}

settle_strikes-IsSorted :
    (k : ℤ) (s : StrikeSlot) (m : Strikes)
    → IsSorted strike_order m
    → IsSorted strike_order (settle_strikes k s m)
unfolding settle_strikes
settle_strikes-IsSorted k s m h = elim (Bool-cases (is_free s)) [
  | inl f ↦ rw (f, settle_strikes) (remove-IsSorted strike_order k m h)
  | inr f ↦ rw (f, settle_strikes) (assign-IsSorted strike_order k s m h)
]

settle_dates-IsOrdered :
    (e : ExpiryDate) (w : Strikes) (m : Levels)
    → IsSorted strike_order w
    → IsOrdered m
    → IsOrdered (settle_dates e w m)
unfolding settle_dates
settle_dates-IsOrdered e [] m k h = record {
  dates = remove-IsSorted date_order e m h.dates;
  strikes = All-remove (IsSorted strike_order) e m h.strikes;
}
settle_dates-IsOrdered e (x ∷ w) m k h = record {
  dates = assign-IsSorted date_order e _ m h.dates;
  strikes = All-assign (IsSorted strike_order) e _ m k h.strikes;
}

pub settled-IsOrdered :
    (e : ExpiryDate) (k : ℤ) (s : StrikeSlot) (m : Levels)
    → IsOrdered m
    → IsOrdered (settled e k s m)
settled-IsOrdered e k s m h =
    settle_dates-IsOrdered e _ m (settle_strikes-IsSorted k s _ (strikes_in-IsSorted e m h)) h

pub settled-same :
    (e : ExpiryDate) (k : ℤ) (s : StrikeSlot) (m : Levels)
    → IsOrdered m
    → slot_at e k (settled e k s m) ≡ s
unfolding slot_at
settled-same e k s m h =
    ap (slot_in k) (strikes_in-same e _ m h.dates)
    ∙ slot_in-same k s (strikes_in e m) (strikes_in-IsSorted e m h)

pub settled-other :
    (e e' : ExpiryDate) (k k' : ℤ) (s : StrikeSlot) (m : Levels)
    → IsOrdered m
    → ((e' ≡ e) → k' ≢ k)
    → slot_at e' k' (settled e k s m) ≡ slot_at e' k' m
unfolding slot_at
settled-other e e' k k' s m h ne = elim (key-cases date_order e' e) [
  | inr far ↦ ap (slot_in k') (strikes_in-other e e' _ m h.dates far)
  | inl same ↦
      subst (λ d. slot_in k' (strikes_in d (settled e k s m)) ≡ slot_in k' (strikes_in d m))
        (sym same)
        (ap (slot_in k') (strikes_in-same e _ m h.dates)
          ∙ slot_in-other k k' s (strikes_in e m) (strikes_in-IsSorted e m h) (ne same))
]
