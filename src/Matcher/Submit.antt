-- ===== src/Matcher/Submit.antt =====
-- `Matcher::submit` on an order that passes its tests: where the taker and the book end.
use multi_instrument_orderbo.Prelude.{
  ℕ, suc, ◌+◌, ◌<◌, ◌≡◌, refl, sym, ap, ◌∙◌, subst, true, false, some, List, [], ℤ, inr, arith, All,
  to_i64,
}
use multi_instrument_orderbo.Types.{Order, Trade, rejected}
use multi_instrument_orderbo.OrderBook.View.{View, Models}
use multi_instrument_orderbo.OrderBook.Rekey.{SameKeys, Models-SameKeys}
use multi_instrument_orderbo.Pool.Stack.{IsValid}
use multi_instrument_orderbo.Matcher.{
  State, Clock, order, set_status, is_refused, conclude, stamp, submit,
}
use multi_instrument_orderbo.Matcher.Step.{Ready}
use multi_instrument_orderbo.Matcher.Conclude.{
  Outcome, complete, dropped, rests, Lands, Concluded, concluded,
}
use multi_instrument_orderbo.Matcher.Run.{IsFair, Matched, match_loop-Matched, traded}

-- The stamp of the completion time touches nothing else of the order.
order-stamp :
    (taker : ℕ) (c : Clock) (w : State)
    → order (stamp taker c w) taker
      ≡ record (order w taker) { match_complete_ns = to_i64 c.completed }
unfolding stamp
order-stamp taker c w = ground arith

stamp-SameKeys :
    (taker : ℕ) (c : Clock) (w : State) (a : ℕ) → SameKeys (order w a) (order (stamp taker c w) a)
unfolding stamp
stamp-SameKeys taker c w a = ground arith

stamp-Models :
    (taker : ℕ) (c : Clock) (w : State) (v : View)
    → Models w.pool.storage w.links w.book v
    → Models (stamp taker c w).pool.storage (stamp taker c w).links (stamp taker c w).book v
unfolding stamp
stamp-Models taker c w v h =
    Models-SameKeys w.pool.storage _ (stamp-SameKeys taker c w) w.links w.book v h

stamp-IsValid :
    (taker : ℕ) (c : Clock) (w : State) → IsValid w.pool → IsValid (stamp taker c w).pool
unfolding stamp
stamp-IsValid taker c w v = record { sized = v.sized; within = v.within }

stamp-lent :
    (taker : ℕ) (c : Clock) (w : State)
    → w.pool.stack_top < w.pool.capacity
    → (stamp taker c w).pool.stack_top < (stamp taker c w).pool.capacity
unfolding stamp
stamp-lent taker c w h = h

Outcome-stamp :
    (taker : ℕ) (o : Order) (at : ℤ) (v : View)
    → Outcome taker o v
    → Outcome taker (record o { match_complete_ns = at }) v
Outcome-stamp taker o at v (complete a b c) = complete a b c
Outcome-stamp taker o at v (dropped a b c d) = dropped a b c d
Outcome-stamp taker o at v (rests a b c d) = rests a b c d

-- A refused order gets its status, and that is all.
pub submit_refused :
    (fuel : ℕ) (c : Clock) (taker : ℕ) (w : State)
    → is_refused taker w ≡ true
    → submit fuel c taker w ≡ some (record w { pool = set_status taker rejected w.pool }, [])
unfolding submit
submit_refused fuel c taker w e = rw (e, submit) refl

-- What `submit` has done.
pub record Submitted (fuel : ℕ) (c : Clock) (taker : ℕ) (w : State) (v : View) : Type 0 where
  pub matched : Matched fuel taker w v []
  pub after : State
  pub view : View
  pub trades : List Trade
  pub ends : after ≡ stamp taker c (conclude taker matched.after)
  pub runs : submit fuel c taker w ≡ some (after, trades)
  pub models : Models after.pool.storage after.links after.book view
  pub outcome : Outcome taker (order after taker) view
  pub lands : Lands taker matched.after matched.view view
  pub fair : All (IsFair (order w taker)) trades
  pub pool_valid : IsValid after.pool
  pub lent : after.pool.stack_top < after.pool.capacity
  pub conserved : (order after taker).filled_qty ≡ (order w taker).filled_qty + traded trades
  pub qty_kept : (order after taker).filled_qty ≡ (order matched.after taker).filled_qty
  pub initial_kept : (order after taker).initial_qty ≡ (order w taker).initial_qty

Submitted-of :
    (fuel : ℕ) (c : Clock) (taker : ℕ) (w : State) (v : View)
    → is_refused taker w ≡ false
    → (m : Matched fuel taker w v []) → Concluded taker m.after m.view (conclude taker m.after)
    → Submitted fuel c taker w v
unfolding submit
Submitted-of fuel c taker w v e m d = record {
  matched = m;
  after = stamp taker c (conclude taker m.after);
  view = d.view;
  trades = m.new;
  ends = refl;
  runs = rw (e, submit) (rw m.runs refl);
  models = stamp-Models taker c (conclude taker m.after) d.view d.models;
  outcome =
      subst (λ o. Outcome taker o d.view) (sym (order-stamp taker c (conclude taker m.after)))
        (Outcome-stamp taker (order (conclude taker m.after) taker) _ d.view d.outcome);
  lands = d.lands;
  fair = m.fair;
  pool_valid = stamp-IsValid taker c (conclude taker m.after) d.pool_valid;
  lent = stamp-lent taker c (conclude taker m.after) d.lent;
  conserved =
      ap (λ o. o.filled_qty) (order-stamp taker c (conclude taker m.after))
      ∙ d.qty_kept
      ∙ ap (λ o. o.filled_qty) m.taker_after;
  qty_kept = ap (λ o. o.filled_qty) (order-stamp taker c (conclude taker m.after)) ∙ d.qty_kept;
  initial_kept =
      ap (λ o. o.initial_qty) (order-stamp taker c (conclude taker m.after))
      ∙ d.initial_kept
      ∙ ap (λ o. o.initial_qty) m.taker_after;
}

-- In a state that is `Ready`, an order that `submit` does not refuse is matched to the end without
-- a fault. The book then models its orders. The taker is filled by what its trades, all fair to it,
-- say, and ends filled, dropped (market or immediate-or-cancel) or at rest in the book. The pool's
-- stack stays within its array, with a slot out.
pub submit-Submitted :
    (c : Clock) (taker : ℕ) (w : State) (v : View)
    → Ready taker w v
    → is_refused taker w ≡ false
    → Submitted (suc w.pool.capacity) c taker w v
submit-Submitted c taker w v r e =
    let m =
      match_loop-Matched (suc w.pool.capacity) taker w v [] r
        (omega (arith), inr (omega (arith, r.room))) in
    Submitted-of (suc w.pool.capacity) c taker w v e m (concluded taker m.after m.view m.ready)
