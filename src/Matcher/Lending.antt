-- ===== src/Matcher/Lending.antt =====
-- The slots of the pool through `Matcher::submit`: each is free, or rests in the book, or is out.
use multi_instrument_orderbo.Prelude.{
  ℕ, suc, ◌+◌, ◌≤◌, ◌≡◌, refl, sym, ap, ◌∙◌, subst, ◌||◌, List, [], ◌∷◌, length, count, arith, inl,
  inr, Bool-cases,
}
use multi_instrument_orderbo.Types.{Trade, is_fully_filled, is_market, is_ioc}
use multi_instrument_orderbo.Pool.{Pool, free}
use multi_instrument_orderbo.OrderBook.View.{View, resting}
use multi_instrument_orderbo.OrderBook.Add.{count-enqueue}
use multi_instrument_orderbo.OrderBook.Lengths.{length-enqueue}
use multi_instrument_orderbo.Matcher.{State, Clock, order, conclude, stamp}
use multi_instrument_orderbo.Matcher.Run.{Rounds, done, more}
use multi_instrument_orderbo.Matcher.Conclude.{Lands, stays, joins}
use multi_instrument_orderbo.Matcher.Submit.{Submitted}

-- What the free slots and the orders of the book come to together.
abbrev pub placed_slots : Pool → View → ℕ → ℕ
placed_slots p v a = count a (free p) + count a (resting v)

abbrev pub placed_size : Pool → View → ℕ
placed_size p v = p.stack_top + length (resting v)

module _ (taker : ℕ) (w' : State) (v' : View) where
  Rounds-slots :
      (w : State) (v : View) (ts : List Trade)
      → Rounds taker w' v' w v ts
      → (a : ℕ) → placed_slots w'.pool v' a ≡ placed_slots w.pool v a
  Rounds-slots w v ts done a = refl
  Rounds-slots w v ts (more {ts = rest} maker ready e r rs) a =
      Rounds-slots r.after r.view rest rs a ∙ r.slots_kept a

  Rounds-size :
      (w : State) (v : View) (ts : List Trade)
      → Rounds taker w' v' w v ts
      → (placed_size w'.pool v' ≡ placed_size w.pool v) × (w'.pool.capacity ≡ w.pool.capacity)
  Rounds-size w v ts done = (refl, refl)
  Rounds-size w v ts (more {ts = rest} maker ready e r rs) =
      let ih = Rounds-size r.after r.view rest rs in (ih.0 ∙ r.top_kept, ih.1 ∙ r.capacity_kept)

-- The end of `submit` takes no slot and gives none back.
abbrev SamePool : Pool → Pool → Type 0
SamePool p q = (free q ≡ free p) × (q.stack_top ≡ p.stack_top) × (q.capacity ≡ p.capacity)

conclude-SamePool : (taker : ℕ) (w : State) → SamePool w.pool (conclude taker w).pool
unfolding conclude
conclude-SamePool taker w = elim (Bool-cases (is_fully_filled (order w taker))) [
  | inl e ↦ rw (e, conclude) (refl, refl, refl)
  | inr e ↦ elim (Bool-cases (is_market (order w taker).type || is_ioc (order w taker).tif)) [
    | inl f ↦ rw (e, f, conclude) (refl, refl, refl)
    | inr f ↦ rw (e, f, conclude) (refl, refl, refl)
  ]
]

stamp-SamePool : (taker : ℕ) (c : Clock) (w : State) → SamePool w.pool (stamp taker c w).pool
unfolding stamp
stamp-SamePool taker c w = (refl, refl, refl)

Lands-length :
    (taker : ℕ) (w : State) (v v' : View)
    → Lands taker w v v'
    → length (resting v') ≤ suc (length (resting v))
Lands-length taker w v v' stays = omega arith
Lands-length taker w v v' (joins orders side price less waits) =
    omega (arith, length-enqueue orders taker v)

Lands-count :
    (taker : ℕ) (w : State) (v v' : View)
    → Lands taker w v v'
    → (a : ℕ) → count a (resting v') ≤ count a (taker ∷ []) + count a (resting v)
Lands-count taker w v v' stays a = omega arith
Lands-count taker w v v' (joins orders side price less waits) a =
    omega (arith, count-enqueue orders taker v a)

-- An order that does not rest has left the view as it was.
Lands-stays :
    (taker : ℕ) (w : State) (v v' : View)
    → Lands taker w v v'
    → count taker (resting v') ≡ 0
    → v' ≡ v
Lands-stays taker w v v' stays h = refl
Lands-stays taker w v v' (joins orders side price less waits) h =
    absurd (ground (arith, h, count-enqueue orders taker v taker))

module _ (fuel : ℕ) (c : Clock) (taker : ℕ) (w : State) (v : View)
    (s : Submitted fuel c taker w v) where
  same_pool : SamePool s.matched.after.pool s.after.pool
  same_pool =
      let m = s.matched in
      subst (λ x. SamePool m.after.pool x.pool) (sym s.ends)
        (
          (stamp-SamePool taker c (conclude taker m.after)).0 ∙ (conclude-SamePool taker m.after).0,
          (stamp-SamePool taker c (conclude taker m.after)).1 ∙ (conclude-SamePool taker m.after).1,
          (stamp-SamePool taker c (conclude taker m.after)).2 ∙ (conclude-SamePool taker m.after).2,
        )

  rounds_slots : (a : ℕ) → placed_slots s.after.pool s.matched.view a ≡ placed_slots w.pool v a
  rounds_slots a =
      let m = s.matched in
      ap (λ f. count a f + count a (resting m.view)) same_pool.0
      ∙ Rounds-slots taker m.after m.view w v m.new m.rounds a

  rounds_size : placed_size s.after.pool s.matched.view ≡ placed_size w.pool v
  rounds_size =
      let m = s.matched in
      ap (λ n. n + length (resting m.view)) same_pool.1
      ∙ (Rounds-size taker m.after m.view w v m.new m.rounds).0

  pub Submitted-capacity : s.after.pool.capacity ≡ w.pool.capacity
  Submitted-capacity =
      same_pool.2
      ∙ (Rounds-size taker s.matched.after s.matched.view w v s.matched.new s.matched.rounds).1

  -- The taker at most comes in.
  pub Submitted-slots :
      (a : ℕ) → placed_slots s.after.pool s.view a ≤ placed_slots w.pool v a + count a (taker ∷ [])
  Submitted-slots a =
      omega
        (arith, rounds_slots a, Lands-count taker s.matched.after s.matched.view s.view s.lands a)

  pub Submitted-size : placed_size s.after.pool s.view ≤ placed_size w.pool v + 1
  Submitted-size =
      omega (arith, rounds_size, Lands-length taker s.matched.after s.matched.view s.view s.lands)

  -- A taker that does not rest is neither free nor in the book.
  pub Submitted-slots_out :
      count taker (resting s.view) ≡ 0
      → (a : ℕ) → placed_slots s.after.pool s.view a ≡ placed_slots w.pool v a
  Submitted-slots_out h a =
      ap (λ u. placed_slots s.after.pool u a)
        (Lands-stays taker s.matched.after s.matched.view s.view s.lands h)
      ∙ rounds_slots a

  pub Submitted-size_out :
      count taker (resting s.view) ≡ 0 → placed_size s.after.pool s.view ≡ placed_size w.pool v
  Submitted-size_out h =
      ap (placed_size s.after.pool)
        (Lands-stays taker s.matched.after s.matched.view s.view s.lands h)
      ∙ rounds_size
