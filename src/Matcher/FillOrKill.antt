-- ===== src/Matcher/FillOrKill.antt =====
-- A fill-or-kill order of `Matcher::submit`.
use multi_instrument_orderbo.Prelude.{
  ℕ, suc, ◌+◌, ◌≤◌, ◌<◌, ◌≡◌, sym, ap, ◌∙◌, true, false, leb, some, [], count, inl, inr, ◌⊎◌,
  Bool-cases, arith,
}
use multi_instrument_orderbo.Types.{Order, opposite, is_fok, remaining, rejected, filled}
use multi_instrument_orderbo.OrderBook.View.{View, resting}
use multi_instrument_orderbo.Matcher.{
  State, Clock, order, set_status, can_fully_fill, is_malformed, is_refused, submit,
}
use multi_instrument_orderbo.Matcher.Step.{Ready}
use multi_instrument_orderbo.Matcher.Run.{traded}
use multi_instrument_orderbo.Matcher.Conclude.{Outcome, complete, dropped, rests}
use multi_instrument_orderbo.Matcher.Submit.{Submitted, submit-Submitted, submit_refused}
use multi_instrument_orderbo.Matcher.Liquidity.{available, can_fully_fill-available}
use multi_instrument_orderbo.Matcher.Taker.{none_left}
use multi_instrument_orderbo.Matcher.Supply.{Supplied, Supplied-Rounds, Supplied-stopped}

is_complete :
    (taker : ℕ) (o : Order) (v : View)
    → o.filled_qty ≡ o.initial_qty
    → Outcome taker o v
    → (o.status ≡ filled) × (count taker (resting v) ≡ 0)
is_complete taker o v e (complete st _ out) = (st, out)
is_complete taker o v e (dropped _ less _ _) = absurd (omega arith)
is_complete taker o v e (rests _ less _ _) = absurd (omega arith)

-- The order is filled to the last unit, or it is rejected and nothing else has changed.
pub record FilledWhole (c : Clock) (taker : ℕ) (w : State) (v : View) : Type 0 where
  pub within_reach :
      remaining (order w taker)
      ≤ available w.pool.storage (order w taker) (v (opposite (order w taker).side))
  pub submitted : Submitted (suc w.pool.capacity) c taker w v
  pub status_filled : (order submitted.after taker).status ≡ filled
  pub all_traded :
      (order w taker).filled_qty + traded submitted.trades ≡ (order w taker).initial_qty
  pub not_resting : count taker (resting submitted.view) ≡ 0

pub record Killed (c : Clock) (taker : ℕ) (w : State) (v : View) : Type 0 where
  pub out_of_reach :
      available w.pool.storage (order w taker) (v (opposite (order w taker).side))
      < remaining (order w taker)
  pub unchanged :
      submit (suc w.pool.capacity) c taker w
      ≡ some (record w { pool = set_status taker rejected w.pool }, [])

module _ (c : Clock) (taker : ℕ) (w : State) (v : View) (r : Ready taker w v)
    (fok : is_fok (order w taker).tif ≡ true)
    (valid : is_malformed (order w taker) w.book ≡ false) where
  accepts : can_fully_fill w (order w taker) ≡ true → is_refused taker w ≡ false
  unfolding is_refused
  accepts e = rw (e, valid, is_refused) (ground (arith, fok))

  FilledWhole-of : Supplied taker w v → FilledWhole c taker w v
  FilledWhole-of h =
      let accepted : is_refused taker w ≡ false =
        accepts (can_fully_fill-available taker w v r ∙ ground (arith, h)) in
      let s = submit-Submitted c taker w v r accepted in
      let m = s.matched in
      let nothing : remaining (order m.after taker) ≡ 0 =
        Supplied-stopped taker m.after m.view m.ready m.stopped
          (Supplied-Rounds taker m.after m.view w v m.new m.rounds h) in
      let whole : (order s.after taker).filled_qty ≡ (order s.after taker).initial_qty =
        s.qty_kept
        ∙ none_left (order m.after taker) m.ready.taker_filled m.ready.taker_word nothing
        ∙ ap (λ o. o.initial_qty) m.taker_after
        ∙ sym s.initial_kept in
      let (status_filled, not_resting) =
        is_complete taker (order s.after taker) s.view whole s.outcome in
      record {
        within_reach = h;
        submitted = s;
        status_filled = status_filled;
        all_traded = sym s.conserved ∙ whole ∙ s.initial_kept;
        not_resting = not_resting;
      }

  refuses_it : can_fully_fill w (order w taker) ≡ false → is_refused taker w ≡ true
  unfolding is_refused
  refuses_it e = rw (e, valid, is_refused) (ground (arith, fok))

  Killed-of :
      available w.pool.storage (order w taker) (v (opposite (order w taker).side))
        < remaining (order w taker)
      → Killed c taker w v
  Killed-of h =
      let short : can_fully_fill w (order w taker) ≡ false =
        can_fully_fill-available taker w v r ∙ ground (arith, h) in
      record {
        out_of_reach = h;
        unchanged = submit_refused (suc w.pool.capacity) c taker w (refuses_it short);
      }

-- `submit` of a fill-or-kill order that passes the other tests, in a state that is `Ready`: where the
-- orders up to the first price that the taker refuses want at least as much as it does, it is filled
-- to the last unit by its trades and does not rest; otherwise it is rejected, with no trade and
-- nothing else changed.
pub submit-FilledOrKilled :
    (c : Clock) (taker : ℕ) (w : State) (v : View)
    → Ready taker w v
    → is_fok (order w taker).tif ≡ true
    → is_malformed (order w taker) w.book ≡ false
    → FilledWhole c taker w v ⊎ Killed c taker w v
submit-FilledOrKilled c taker w v r fok valid =
    let reach = available w.pool.storage (order w taker) (v (opposite (order w taker).side)) in
    elim (Bool-cases (leb (remaining (order w taker)) reach)) [
      | inl e ↦ inl (FilledWhole-of c taker w v r fok valid (ground (arith, e)))
      | inr e ↦ inr (Killed-of c taker w v r fok valid (ground (arith, e)))
    ]
