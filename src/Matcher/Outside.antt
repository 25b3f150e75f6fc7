-- ===== src/Matcher/Outside.antt =====
-- What `Matcher::submit` does not touch: the slots that are neither the taker's nor in the book.
use multi_instrument_orderbo.Prelude.{
  ℕ, ◌+◌, ◌≤◌, ◌<◌, ◌≡◌, ◌≢◌, refl, sym, ap, ◌∙◌, subst, ◌||◌, [], ◌∷◌, List, count, inl, inr,
  Bool-cases, arith,
}
use native.Mathlib.Decide.{ℕ_discrete}
use multi_instrument_orderbo.Types.{OrderStatus, Trade, new, is_market, is_ioc, is_fully_filled}
use multi_instrument_orderbo.OrderBook.View.{View, resting}
use multi_instrument_orderbo.OrderBook.{add_resting}
use multi_instrument_orderbo.OrderBook.Frame.{SameLinks}
use multi_instrument_orderbo.OrderBook.Add.{add_resting-SameLinks, count-enqueue}
use multi_instrument_orderbo.Matcher.{State, Clock, order, set_status, filled_or, conclude, stamp}
use multi_instrument_orderbo.Matcher.Step.{IsOpen, Ready, Untouched}
use multi_instrument_orderbo.Matcher.Run.{Rounds, done, more}
use multi_instrument_orderbo.Matcher.Conclude.{Lands, stays, joins, Models-status}
use multi_instrument_orderbo.Matcher.Submit.{Submitted}

-- The rounds of `match`: orders only leave the book, and the other slots keep their links and records.
Rounds-within :
    (taker : ℕ) (w' : State) (v' : View) (w : State) (v : View) (ts : List Trade)
    → Rounds taker w' v' w v ts
    → (a : ℕ) → count a (resting v') ≤ count a (resting v)
Rounds-within taker w' v' w v ts done a = omega arith
Rounds-within taker w' v' w v ts (more {ts = rest} maker ready e r rs) a =
    let ih = Rounds-within taker w' v' r.after r.view rest rs a in
    elim r.progress [
      | inl (whole, same, book) ↦ omega (arith, ih, ap (λ u. count a (resting u)) same)
      | inr c ↦ omega (arith, ih, c.left a)
    ]

Untouched-trans :
    (a : ℕ) (w1 w2 w3 : State) → Untouched w1 w2 a → Untouched w2 w3 a → Untouched w1 w3 a
Untouched-trans a w1 w2 w3 h k = ((k.0.0 ∙ h.0.0, k.0.1 ∙ h.0.1), k.1 ∙ h.1)

Rounds-Untouched :
    (taker : ℕ) (w' : State) (v' : View) (w : State) (v : View) (ts : List Trade)
    → Rounds taker w' v' w v ts
    → (a : ℕ) → a ≢ taker
    → count a (resting v) ≡ 0
    → Untouched w w' a
Rounds-Untouched taker w' v' w v ts done a ne out = ((refl, refl), refl)
Rounds-Untouched taker w' v' w v ts (more {ts = rest} maker ready e r rs) a ne out =
    let still : count a (resting r.view) ≡ 0 = elim r.progress [
      | inl (whole, same, book) ↦ ap (λ u. count a (resting u)) same ∙ out
      | inr c ↦ omega (arith, out, c.left a)
    ] in
    Untouched-trans a w r.after w' (r.outside a ne out)
      (Rounds-Untouched taker w' v' r.after r.view rest rs a ne still)

module _ (taker : ℕ) (w : State) (v : View) (r : Ready taker w v) (a : ℕ) (ne : a ≢ taker) where
  order-conclude : order (conclude taker w) a ≡ order w a
  unfolding conclude
  order-conclude = elim (Bool-cases (is_fully_filled (order w taker))) [
    | inl e ↦ rw (e, conclude) (ground (arith, ne))
    | inr e ↦ elim (Bool-cases (is_market (order w taker).type || is_ioc (order w taker).tif)) [
      | inl f ↦ rw (e, f, conclude) (ground (arith, ne))
      | inr f ↦ rw (e, f, conclude) (ground (arith, ne))
    ]
  ]

  conclude-Untouched : count a (resting v) ≡ 0 → Untouched w (conclude taker w) a
  unfolding conclude
  conclude-Untouched out = elim (Bool-cases (is_fully_filled (order w taker))) [
    | inl e ↦ (rw (e, conclude) (refl, refl), order-conclude)
    | inr e ↦ elim (Bool-cases (is_market (order w taker).type || is_ioc (order w taker).tif)) [
      | inl f ↦ (rw (e, f, conclude) (refl, refl), order-conclude)
      | inr f ↦ (rw (e, f, conclude) rests, order-conclude)
    ]
  ]
    where
      st : OrderStatus
      st = filled_or new (order w taker).filled_qty

      rests :
          SameLinks w.links
            (add_resting (set_status taker st w.pool).storage taker w.links w.book).0
            a
      rests =
          add_resting-SameLinks (set_status taker st w.pool).storage taker w.links w.book v
            (Models-status taker w v r st) r.aside a ne out

stamp-Untouched :
    (taker : ℕ) (c : Clock) (w : State) (a : ℕ) → a ≢ taker → Untouched w (stamp taker c w) a
unfolding stamp
stamp-Untouched taker c w a ne = ((refl, refl), ground (arith, ne))

count-Lands :
    (taker : ℕ) (w : State) (v v' : View)
    → Lands taker w v v'
    → (a : ℕ) → count a (resting v') ≤ count a (taker ∷ []) + count a (resting v)
count-Lands taker w v v' stays a = omega arith
count-Lands taker w v v' (joins orders side price less not_market) a =
    omega (arith, count-enqueue orders taker v a)

-- The end of `submit`, in terms of where it began.
module _ (fuel : ℕ) (c : Clock) (taker : ℕ) (w : State) (v : View)
    (s : Submitted fuel c taker w v) where
  -- The book takes in the taker at most.
  pub Submitted-within :
      (a : ℕ) → count a (resting s.view) ≤ count a (taker ∷ []) + count a (resting v)
  Submitted-within a = omega (
    arith,
    count-Lands taker s.matched.after s.matched.view s.view s.lands a,
    Rounds-within taker s.matched.after s.matched.view w v s.matched.new s.matched.rounds a,
  )

  pub Submitted-Untouched : (a : ℕ) → a ≢ taker → count a (resting v) ≡ 0 → Untouched w s.after a
  Submitted-Untouched a ne out =
      let m = s.matched in
      let within = Rounds-within taker m.after m.view w v m.new m.rounds a in
      let concluded =
        Untouched-trans a w m.after (conclude taker m.after)
          (Rounds-Untouched taker m.after m.view w v m.new m.rounds a ne out)
          (conclude-Untouched taker m.after m.view m.ready a ne (omega (arith, out, within))) in
      subst (λ x. Untouched w x a) (sym s.ends)
        (Untouched-trans a w (conclude taker m.after) (stamp taker c (conclude taker m.after))
          concluded (stamp-Untouched taker c (conclude taker m.after) a ne))

  -- Every order that rests is open.
  order_after : (a : ℕ) → a ≢ taker → order s.after a ≡ order s.matched.after a
  order_after a ne =
      ap (λ x. order x a) s.ends
      ∙ (stamp-Untouched taker c (conclude taker s.matched.after) a ne).1
      ∙ order-conclude taker s.matched.after s.matched.view s.matched.ready a ne

  IsOpen-stays : (a : ℕ) → 0 < count a (resting s.matched.view) → IsOpen (order s.after a)
  IsOpen-stays a m =
      let ne : a ≢ taker = λ e.
        absurd
          (omega (arith, m, ap (λ i. count i (resting s.matched.view)) e, s.matched.ready.aside)) in
      subst IsOpen (sym (order_after a ne)) (s.matched.ready.open_orders a m)

  IsOpen-taker :
      (order s.matched.after taker).filled_qty < (order s.matched.after taker).initial_qty
      → IsOpen (order s.after taker)
  IsOpen-taker less =
      let same = s.initial_kept ∙ sym (ap (λ o. o.initial_qty) s.matched.taker_after) in
      record {
        unfilled = omega (arith, less, s.qty_kept, same);
        word = omega (arith, same, s.matched.ready.taker_word);
      }

  IsOpen-Lands :
      (v' : View)
      → Lands taker s.matched.after s.matched.view v'
      → (a : ℕ) → 0 < count a (resting v')
      → IsOpen (order s.after a)
  IsOpen-Lands v' stays a m = IsOpen-stays a m
  IsOpen-Lands v' (joins orders side price less not_market) a m = elim (ℕ_discrete a taker) [
    | yes same ↦ subst (λ i. IsOpen (order s.after i)) (sym same) (IsOpen-taker less)
    | no other ↦
        IsOpen-stays a (ground (arith, m, other, count-enqueue orders taker s.matched.view a))
  ]

  pub Submitted-IsOpen : (a : ℕ) → 0 < count a (resting s.view) → IsOpen (order s.after a)
  Submitted-IsOpen a m = IsOpen-Lands s.view s.lands a m
