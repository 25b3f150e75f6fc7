-- ===== src/Matcher/Priority.antt =====
-- The trades of `Matcher::match` are those of the plan: price-time priority.
use multi_instrument_orderbo.Prelude.{
  ℕ, ◌-◌, ◌≡◌, ◌≢◌, refl, sym, ap, ◌∙◌, subst, true, false, none, some, List, [], ◌∷◌, ◌++◌, ℤ,
  count, inl, inr, arith,
}
use multi_instrument_orderbo.Types.{Trade, opposite, remaining, qty_min}
use multi_instrument_orderbo.OrderBook.View.{
  Queues, View, slots, with_queues_self, Placed, count-side,
}
use multi_instrument_orderbo.OrderBook.Pop.{drop_first, peek_top_lem}
use multi_instrument_orderbo.Matcher.{
  State, order, refuses, next_maker, fill_of, trade_of, match_loop,
}
use multi_instrument_orderbo.Matcher.Step.{
  Ready, Closed, Round, full, no_maker, too_dear, next_maker-Stopped, IsNext, next_maker-IsNext,
  first_order-some,
}
use multi_instrument_orderbo.Matcher.Taker.{same_side, less_wanted, none_wanted}
use multi_instrument_orderbo.Matcher.Run.{Rounds, done, more, Enough, match_loop-Matched}
use multi_instrument_orderbo.Matcher.Plan.{
  offers, plan, trade_with, offers-drop_first, plan_full, plan_refused, plan_accepted, All-offers,
  plan-kept,
}

-- The plan for the taker of a state.
abbrev pub planned : ℕ → State → View → List Trade
planned taker w v =
    plan w.pool.storage (order w taker) (offers (v (opposite (order w taker).side)))
      (remaining (order w taker))

-- The first trade of the plan is the trade of the maker on top.
module _ (taker maker : ℕ) (w : State) (v : View) (ready : Ready taker w v)
    (n : IsNext taker maker w) (p : ℤ) (xs : List ℕ) (q : Queues)
    (top : v (opposite (order w taker).side) ≡ (p, maker ∷ xs) ∷ q) where
  top_price : (order w maker).limit_price ≡ p
  top_price =
      let opp = opposite (order w taker).side in
      (subst (Placed w.pool.storage opp) top (ready.models.placed opp)).1.0.1

  top_trade :
      trade_with
        (order w taker)
        p
        (order w maker)
        (qty_min (remaining (order w taker)) (remaining (order w maker)))
      ≡ trade_of taker maker w
  unfolding trade_of fill_of
  top_trade = rw (← top_price) refl

  planned-top :
      planned taker w v
      ≡ trade_of taker maker w
        ∷ plan w.pool.storage
            (order w taker)
            (offers (drop_first p xs q))
            (remaining (order w taker) - fill_of taker maker w)
  unfolding fill_of
  planned-top =
      let t = order w taker in
      let at_top =
        ap (λ qs. plan w.pool.storage t (offers qs) (remaining t)) top
        ∙ ap (λ os. plan w.pool.storage t os (remaining t)) (offers-drop_first p maker xs q) in
      let accepted : refuses t p ≡ false = ap (refuses t) (sym top_price) ∙ n.accepted in
      let first =
        plan_accepted w.pool.storage t p maker (offers (drop_first p xs q)) (remaining t) n.wanted
          accepted in
      let later =
        plan w.pool.storage t (offers (drop_first p xs q)) (remaining t - fill_of taker maker w) in
      at_top ∙ first ∙ ap (λ x. x ∷ later) top_trade

module _ (taker maker : ℕ) (w : State) (v : View) (ready : Ready taker w v)
    (n : IsNext taker maker w) (r : Round taker maker w v) where
  abbrev need : ℕ
  need = remaining (order w taker) - fill_of taker maker w

  need_after : remaining (order r.after taker) ≡ need
  need_after = omega (arith, less_wanted taker maker w v ready r)

  -- The plan goes on with what is left.
  planned-Closed :
      (c : Closed taker maker w r.after v r.view)
      → planned taker r.after r.view
        ≡ plan w.pool.storage (order w taker) (offers (drop_first c.price c.queue c.others)) need
  planned-Closed c =
      let opp = opposite (order w taker).side in
      let left = drop_first c.price c.queue c.others in
      let at_opp : r.view opp ≡ left = ap (λ u. u opp) c.view_after ∙ with_queues_self opp left v in
      let same = All-offers {P = λ a. order r.after a ≡ order w a} left (λ a m.
        c.orders_kept a
          (omega (arith, m, count-side a opp r.view, ap (λ qs. count a (slots qs)) at_opp))) in
      ap
        (λ s.
          plan r.after.pool.storage (order r.after taker) (offers (r.view (opposite s)))
            (remaining (order r.after taker)))
        (same_side taker maker w v ready r)
      ∙ ap
          (λ qs.
            plan r.after.pool.storage (order r.after taker) (offers qs)
              (remaining (order r.after taker)))
          at_opp
      ∙ ap (λ k. plan r.after.pool.storage (order r.after taker) (offers left) k) need_after
      ∙ ap (λ t. plan r.after.pool.storage t (offers left) need) r.taker_after
      ∙ plan-kept w.pool.storage r.after.pool.storage (order w taker) _ (offers left) need same

  planned-full :
      need ≡ 0
      → (os : List (ℤ × ℕ))
      → planned taker r.after r.view ≡ plan w.pool.storage (order w taker) os need
  planned-full e os =
      ap (plan r.after.pool.storage (order r.after taker) _) (need_after ∙ e)
      ∙ plan_full r.after.pool.storage (order r.after taker) _
      ∙ sym (plan_full w.pool.storage (order w taker) os)
      ∙ ap (plan w.pool.storage (order w taker) os) (sym e)

  planned-Round : planned taker w v ≡ trade_of taker maker w ∷ planned taker r.after r.view
  planned-Round = elim r.progress [
    | inl (whole, same, book) ↦
        let (p, xs, q, top) =
          first_order-some (v (opposite (order w taker).side)) maker
            (sym (peek_top_lem w.pool.storage w.links w.book v _ ready.models) ∙ n.on_top) in
        planned-top taker maker w v ready n p xs q top
        ∙ ap (λ ts. trade_of taker maker w ∷ ts)
            (sym (
              planned-full (omega (arith, need_after, none_wanted taker maker w v ready r whole))
                _))
    | inr c ↦
        planned-top taker maker w v ready n c.price c.queue c.others c.top
        ∙ ap (λ ts. trade_of taker maker w ∷ ts) (sym (planned-Closed c))
  ]

planned-stopped :
    (taker : ℕ) (w : State) (v : View)
    → Ready taker w v
    → next_maker taker w ≡ none
    → planned taker w v ≡ []
planned-stopped taker w v r e = elim (next_maker-Stopped taker w v r e) [
  | full nothing ↦
      ap (plan w.pool.storage (order w taker) _) nothing
      ∙ plan_full w.pool.storage (order w taker) _
  | no_maker empty ↦
      ap (λ q. plan w.pool.storage (order w taker) (offers q) (remaining (order w taker))) empty
  | too_dear p xs q top refused ↦
      ap (λ qs. plan w.pool.storage (order w taker) (offers qs) (remaining (order w taker))) top
      ∙ dear p xs q (subst (Placed w.pool.storage _) top (r.models.placed _)).0 refused
]
  where
    dear :
        (p : ℤ) (xs : List ℕ) (q : Queues)
        → xs ≢ []
        → refuses (order w taker) p ≡ true
        → plan w.pool.storage (order w taker) (offers ((p, xs) ∷ q)) (remaining (order w taker))
          ≡ []
    dear p [] q ne e = absurd (ne refl)
    dear p (x ∷ xs) q ne e = plan_refused w.pool.storage (order w taker) p x _ _ e

Rounds-planned :
    (taker : ℕ) (w' : State) (v' : View) (w : State) (v : View) (ts : List Trade)
    → Rounds taker w' v' w v ts
    → Ready taker w' v'
    → next_maker taker w' ≡ none
    → ts ≡ planned taker w v
Rounds-planned taker w' v' w v ts done r e = sym (planned-stopped taker w' v' r e)
Rounds-planned taker w' v' w v ts (more {ts = rest} maker ready at r rs) last e =
    ap (λ us. trade_of taker maker w ∷ us)
      (Rounds-planned taker w' v' r.after r.view rest rs last e)
    ∙ sym (planned-Round taker maker w v ready (next_maker-IsNext taker maker w at) r)

-- In a state that is `Ready`, with rounds `Enough`, the trades that `match` adds are those of the
-- plan: the taker meets the resting orders of the other side in the order of price and then of
-- arrival, each at its own price and for all that one of the two still wants, up to the first price
-- that the taker refuses.
pub match_loop-planned :
    (fuel taker : ℕ) (w : State) (v : View) (trades : List Trade)
    → Ready taker w v
    → Enough fuel taker w v
    → (after : State) × (match_loop fuel taker w trades ≡ some (after, trades ++ planned taker w v))
match_loop-planned fuel taker w v trades r h =
    let m = match_loop-Matched fuel taker w v trades r h in
    let all = Rounds-planned taker m.after m.view w v m.new m.rounds m.ready m.stopped in
    (m.after, m.runs ∙ ap (λ ts. some (m.after, trades ++ ts)) all)
