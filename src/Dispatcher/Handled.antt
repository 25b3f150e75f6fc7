-- ===== src/Dispatcher/Handled.antt =====
-- `Dispatcher::handle_new_order` in terms of what `Matcher::submit` does with the order in its slot.
use multi_instrument_orderbo.Prelude.{count, ℕ, suc, ◌≡◌, ap, ◌∙◌, subst, true, some, arith}
use multi_instrument_orderbo.Types.{Order, is_terminal, is_terminal_status}
use multi_instrument_orderbo.HashMap.{lookup}
use multi_instrument_orderbo.OrderBook.View.{View}
use multi_instrument_orderbo.Pool.Stack.{Acquired}
use multi_instrument_orderbo.Protocol.{NewOrderMsg}
use multi_instrument_orderbo.Session.{Session}
use multi_instrument_orderbo.Matcher.Conclude.{Outcome, complete, dropped, rests}
use multi_instrument_orderbo.Engine.{Slot, Engine, view, submit}
use multi_instrument_orderbo.Dispatcher.{
  Readings, is_active, order_of, report, release_terminal, handle_new_order,
}
use multi_instrument_orderbo.Dispatcher.Placing.{IsTrading, placed, placed-order}
use multi_instrument_orderbo.OrderBook.View.{resting}
use multi_instrument_orderbo.Matcher.Submit.{Submitted}
use multi_instrument_orderbo.Engine.{put_back}
use multi_instrument_orderbo.Engine.Routing.{submit-runs}
use multi_instrument_orderbo.Dispatcher.Orders.{place_order-runs, handle_new_order-runs}

-- An order with a terminal status does not rest.
pub Outcome-terminal :
    (o : ℕ) (r : Order) (v : View) → Outcome o r v → is_terminal r ≡ true → count o (resting v) ≡ 0
unfolding is_terminal
Outcome-terminal o r v (complete st whole out) h = out
Outcome-terminal o r v (dropped which less st out) h = out
Outcome-terminal o r v (rests which less st once) h =
    absurd (ground (arith, ap is_terminal_status st, h))

module _ (c : Readings) (m : NewOrderMsg) (s : Session) (sl : Slot) (e : Engine) (v : View)
    (t : IsTrading sl e v) (g : Acquired e.pool) where
  abbrev r : Order
  r = order_of m s c

  abbrev e1 : Engine
  e1 = placed r sl e v t g

  abbrev k : ℕ
  k = (e1.pool.storage g.slot).instrument

  module _ (sub : Submitted (suc e1.pool.capacity) c.clock g.slot (view sl e1) v) where
    abbrev matched : Engine
    matched = put_back k sub.after e1

    pub handled :
        (after : Engine)
        → is_active s.state ≡ true
        → lookup m.instrument_id e.matchers ≡ some sl
        → release_terminal g.slot matched ≡ some after
        → handle_new_order (suc e.pool.capacity) c m s e
          ≡ some (report m (matched.pool.storage g.slot).status sub.trades matched s, after)
    handled after on here freed =
        let key = ap (λ x. x.instrument) (placed-order r sl e v t g) in
        let ran =
          submit-runs (suc e1.pool.capacity) c.clock g.slot e1 sl sub.after sub.trades
            (ap (λ j. lookup j e.matchers) key ∙ here) sub.runs in
        handle_new_order-runs (suc e.pool.capacity) c m s e g on
        ∙ place_order-runs (suc e.pool.capacity) c m g.slot s _ matched after sub.trades
            (subst (λ n. submit (suc n) c.clock g.slot e1 ≡ some (matched, sub.trades))
              g.capacity_kept ran)
            freed
