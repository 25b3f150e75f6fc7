-- ===== src/Spsc/Calls.antt =====
-- `push` and `pop` undisturbed, as runs of the steps of Threads.
use multi_instrument_orderbo.Prelude.{
  ℕ, ◌<◌, ◌≡◌, refl, ap, subst, ◌∙◌, true, ◌==◌, Bool-cases, Option, none, some, some-eq, List, [],
  ◌∷◌, ◌++◌, append-nil, length, arith, inl, inr,
}
use multi_instrument_orderbo.Spsc.{Ring, push, pop, is_empty}
use multi_instrument_orderbo.Spsc.Threads.{
  System, Run, push_check, push_store, push_publish, pop_check, pop_read, pop_release, idle,
  waiting, next_slot,
}
use multi_instrument_orderbo.Spsc.Queue.{Run-Holds, Run-answers, count_left}

length-zero {ℓ} : {A : Type ℓ} (xs : List A) → length xs ≡ 0 → xs ≡ []
length-zero [] h = refl
length-zero (x ∷ xs) h = absurd (omega (arith, h))

module _ {ℓ} {A : Type ℓ} where
  -- The ring while no call runs.
  abbrev pub at_rest : Ring A → System A
  at_rest r = record { ring = r; producer = idle; consumer = waiting }

  -- The history of a ring: what was pushed and what was popped.
  abbrev pub Queued : ℕ → A → List A → List A → Ring A → Type ℓ
  Queued c default sent got r = Run c default sent got (at_rest r)

  module _ (c : ℕ) (default : A) (sent got : List A) (r r' : Ring A)
      (h : Queued c default sent got r) where
    pub Queued-push : (v : A) → push c v r ≡ (r', true) → Queued c default (sent ++ v ∷ []) got r'
    unfolding push
    Queued-push v e = elim (Bool-cases (next_slot c r.tail == r.head)) [
      | inl full ↦ absurd (ground (arith, e, full))
      | inr room ↦
          subst (Queued c default (sent ++ v ∷ []) got) (ground (arith, e, room))
            (push_publish v (push_store v (push_check v h refl room) refl) refl)
    ]

    pub Queued-pop : (v : A) → pop c r ≡ (r', some v) → Queued c default sent (got ++ v ∷ []) r'
    unfolding pop
    Queued-pop v e = elim (Bool-cases (r.head == r.tail)) [
      | inl empty ↦ absurd (ground (arith, e, empty))
      | inr some_left ↦
          let run =
            pop_release (r.buffer r.head) (pop_read (pop_check h refl some_left) refl) refl in
          let same : ◌≡◌ {A = Ring A × Option A}
              (record r { head = next_slot c r.head }, some (r.buffer r.head)) (r', some v) =
            ground (arith, e, some_left) in
          subst (λ u. Queued c default sent (got ++ u ∷ []) r') (some-eq (ap (λ t. t.1) same))
            (subst (Queued c default sent (got ++ r.buffer r.head ∷ [])) (ap (λ t. t.0) same) run)
    ]

    pub Queued-empty : 0 < c → pop c r ≡ (r', none) → (r' ≡ r) × (sent ≡ got)
    unfolding pop is_empty
    Queued-empty some_slots e = elim (Bool-cases (r.head == r.tail)) [
      | inl empty ↦
          let held = Run-Holds c default sent got (at_rest r) some_slots h in
          let none_left = (Run-answers c default default sent got (at_rest r) some_slots h).1 in
          let nothing : length held.queue ≡ 0 =
            ground (arith, empty, none_left, count_left c some_slots held) in
          (
            ground (arith, e, empty),
            held.split ∙ ap (λ q. got ++ q) (length-zero held.queue nothing) ∙ append-nil got,
          )
      | inr some_left ↦ absurd (ground (arith, e, some_left))
    ]
