-- ===== src/Dispatcher/Orders.antt =====
-- `Dispatcher::handle_new_order` from the message to the answers.
use multi_instrument_orderbo.Prelude.{
  ℕ, suc, ◌+◌, ◌<◌, ◌≤◌, leb, ◌⊎◌, ◌≡◌, refl, sym, ap, ◌∙◌, subst, true, false, ◌||◌, some, List,
  [], ◌∷◌, map, arith, inl, inr, Bool-cases, All, u64_mod, ◌&&◌, not,
}
use multi_instrument_orderbo.Types.{
  opposite, remaining, Order, OrderStatus, new, cancelled, Trade, is_fok, is_terminal,
}
use multi_instrument_orderbo.HashMap.{lookup}
use multi_instrument_orderbo.Level.{unlink}
use multi_instrument_orderbo.OrderBook.View.{View, Models, count-side}
use multi_instrument_orderbo.Pool.Stack.{IsValid, Acquired, acquire-Acquired, release-Released}
use multi_instrument_orderbo.Protocol.{MessageBody, order_ack_msg, NewOrderMsg}
use multi_instrument_orderbo.Session.{Session, active, emit}
use multi_instrument_orderbo.Session.Exchange.{emit_all}
use multi_instrument_orderbo.Matcher.{State, is_malformed, is_refused, can_fully_fill, filled_or}
use multi_instrument_orderbo.Matcher.Step.{Ready}
use multi_instrument_orderbo.Matcher.Liquidity.{available, can_fully_fill-available}
use multi_instrument_orderbo.Matcher.Supply.{available-kept}
use multi_instrument_orderbo.Matcher.Run.{IsFair, traded}
use multi_instrument_orderbo.Matcher.Conclude.{Outcome, complete, dropped, rests}
use multi_instrument_orderbo.Engine.{Slot, Engine, view, submit}
use multi_instrument_orderbo.Engine.Routing.{submit-Routed}
use multi_instrument_orderbo.Dispatcher.{
  Readings, is_active, is_rejected, order_of, place, fill_of, emit_fills, report, release_terminal,
  place_order, handle_new_order,
}
use multi_instrument_orderbo.Dispatcher.Placing.{
  IsTrading, storage_kept, placed, placed-order, placed-Ready,
}

abbrev pub ack : NewOrderMsg → MessageBody
ack m =
    order_ack_msg
      (record { client_order_id = m.client_order_id; server_order_id = m.client_order_id })

-- The answers to an order that the engine took.
abbrev pub answers : NewOrderMsg → OrderStatus → List Trade → List MessageBody
answers m st ts = ack m ∷ map (fill_of m st) ts

emit_fills-emit_all :
    (m : NewOrderMsg) (st : OrderStatus) (ts : List Trade) (s : Session)
    → emit_fills m st ts s ≡ emit_all (map (fill_of m st) ts) s
unfolding emit_fills
emit_fills-emit_all m st [] s = refl
emit_fills-emit_all m st (t ∷ ts) s = emit_fills-emit_all m st ts (emit (fill_of m st t) s)

report-answers :
    (m : NewOrderMsg) (st : OrderStatus) (ts : List Trade) (e : Engine) (s : Session)
    → is_rejected st ≡ false
    → report m st ts e s ≡ emit_all (answers m st ts) s
unfolding report
report-answers m st ts e s h = rw (h, report) (emit_fills-emit_all m st ts (emit (ack m) s))

filled_or-accepted :
    (st : OrderStatus) (q : ℕ) → is_rejected st ≡ false → is_rejected (filled_or st q) ≡ false
filled_or-accepted st q h = ground (arith, h)

Outcome-accepted : (o : ℕ) (r : Order) (v : View) → Outcome o r v → is_rejected r.status ≡ false
Outcome-accepted o r v (complete st _ _) = ap is_rejected st
Outcome-accepted o r v (dropped _ _ st _) =
    ap is_rejected st ∙ filled_or-accepted cancelled r.filled_qty refl
Outcome-accepted o r v (rests _ _ st _) =
    ap is_rejected st ∙ filled_or-accepted new r.filled_qty refl

-- What `release_terminal` leaves.
release_terminal-runs :
    (o : ℕ) (e : Engine)
    → IsValid e.pool
    → e.pool.stack_top < e.pool.capacity
    → (e' : Engine) × (release_terminal o e ≡ some e')
unfolding release_terminal
release_terminal-runs o e v h = elim (Bool-cases (is_terminal (e.pool.storage o))) [
  | inl f ↦
      let r = release-Released o e.pool v h in
      (record e { pool = r.pool }, rw (f, release_terminal) (rw r.runs refl))
  | inr f ↦ (e, rw (f, release_terminal) refl)
]

-- A fill-or-kill order has enough of the other side within reach.
abbrev pub IsFillable : Order → Engine → View → Type 0
IsFillable r e v =
    (is_fok r.tif ≡ false) ⊎ (remaining r ≤ available e.pool.storage r (v (opposite r.side)))

can_fully_fill-placed :
    (r : Order) (sl : Slot) (e : Engine) (v : View) (t : IsTrading sl e v) (g : Acquired e.pool)
    → Ready g.slot (view sl (placed r sl e v t g)) v
    → remaining r ≤ available e.pool.storage r (v (opposite r.side))
    → can_fully_fill (view sl (placed r sl e v t g)) r ≡ true
can_fully_fill-placed r sl e v t g ready h =
    let e1 = placed r sl e v t g in
    let opp = opposite r.side in
    let same =
      available-kept e.pool.storage e1.pool.storage r r (v opp) (λ p. refl)
        (λ a k. storage_kept r sl e v t g a (omega (arith, k, count-side a opp v))) in
    let stored = placed-order r sl e v t g in
    subst
      (λ x.
        can_fully_fill (view sl e1) x
        ≡ leb (remaining x) (available e1.pool.storage x (v (opposite x.side))))
      stored (can_fully_fill-available g.slot (view sl e1) v ready)
    ∙ ground (arith, same, h)

is_refused-of :
    (o : ℕ) (w : State) (r : Order)
    → w.pool.storage o ≡ r
    → is_malformed r w.book ≡ false
    → (is_fok r.tif ≡ false) ⊎ (can_fully_fill w r ≡ true)
    → is_refused o w ≡ false
unfolding is_refused
is_refused-of o w r e h f =
    subst (λ x. (is_malformed x w.book || (is_fok x.tif && not (can_fully_fill w x))) ≡ false)
      (sym e) (elim f [ inl g ↦ ground (arith, h, g) | inr g ↦ ground (arith, h, g) ])

-- The matcher takes the order in its slot.
pub accepts-placed :
    (r : Order) (sl : Slot) (e : Engine) (v : View) (t : IsTrading sl e v) (g : Acquired e.pool)
    → Ready g.slot (view sl (placed r sl e v t g)) v
    → is_malformed r sl.book ≡ false
    → IsFillable r e v
    → is_refused g.slot (view sl (placed r sl e v t g)) ≡ false
accepts-placed r sl e v t g ready sound fillable =
    is_refused-of g.slot (view sl (placed r sl e v t g)) r (placed-order r sl e v t g) sound
      (elim fillable [ inl f ↦ inl f | inr h ↦ inr (can_fully_fill-placed r sl e v t g ready h) ])

-- What a session gets and what the engine does for a new order.
pub record Answered (c : Readings) (m : NewOrderMsg) (s : Session) (e : Engine) : Type 0 where
  pub slot : ℕ
  pub matched : Engine
  pub after : Engine
  pub trades : List Trade
  pub queues : View
  pub book_slot : Slot
  pub runs :
      handle_new_order (suc e.pool.capacity) c m s e
      ≡ some (emit_all (answers m (matched.pool.storage slot).status trades) s, after)
  pub fair : All (IsFair (order_of m s c)) trades
  pub all_reported : (matched.pool.storage slot).filled_qty ≡ traded trades
  pub outcome : Outcome slot (matched.pool.storage slot) queues
  pub own_slot : lookup m.instrument_id matched.matchers ≡ some book_slot
  pub models : Models matched.pool.storage matched.links book_slot.book queues
  pub released : release_terminal slot matched ≡ some after

pub place_order-runs :
    (fuel : ℕ) (c : Readings) (m : NewOrderMsg) (o : ℕ) (s : Session) (e e1 e2 : Engine)
    (trades : List Trade)
    → submit fuel c.clock o (place o (order_of m s c) e) ≡ some (e1, trades)
    → release_terminal o e1 ≡ some e2
    → place_order fuel c m o s e ≡ some (report m (e1.pool.storage o).status trades e1 s, e2)
unfolding place_order
place_order-runs fuel c m o s e e1 e2 trades h k = rw (h, place_order) (rw k refl)

pub handle_new_order-runs :
    (fuel : ℕ) (c : Readings) (m : NewOrderMsg) (s : Session) (e : Engine) (g : Acquired e.pool)
    → is_active s.state ≡ true
    → handle_new_order fuel c m s e
      ≡ place_order fuel c m g.slot s (record e { pool = g.pool; links = unlink g.slot e.links })
unfolding handle_new_order
handle_new_order-runs fuel c m s e g h = rw (h, handle_new_order) (rw g.runs refl)

-- In an active session, for an instrument whose book is in order and while the pool has a free slot,
-- an order that is not malformed and, where it is fill-or-kill, finds as much as it wants among the
-- resting orders up to the first price it refuses, is handled to the end without a fault. The session sends an acknowledgement and one fill for each trade; the trades are fair to the order,
-- their quantities add up to what is filled of it, and the book goes on to model its orders.
pub handle_new_order-Answered :
    (c : Readings) (m : NewOrderMsg) (s : Session) (e : Engine) (sl : Slot) (v : View)
    → s.state ≡ active
    → lookup m.instrument_id e.matchers ≡ some sl
    → IsTrading sl e v
    → 0 < e.pool.stack_top
    → m.quantity < u64_mod
    → is_malformed (order_of m s c) sl.book ≡ false
    → IsFillable (order_of m s c) e v
    → Answered c m s e
handle_new_order-Answered c m s e sl v on here t some_free word sound fillable =
    let r = order_of m s c in
    let g = acquire-Acquired e.pool t.pool_valid some_free in
    let e1 = placed r sl e v t g in
    let stored : e1.pool.storage g.slot ≡ r = placed-order r sl e v t g in
    let key = ap (λ x. x.instrument) stored in
    let ready = placed-Ready r sl e v t g refl word in
    let d =
      submit-Routed c.clock g.slot e1 sl v (ap (λ k. lookup k e.matchers) key ∙ here) ready
        (accepts-placed r sl e v t g ready sound fillable) in
    let (after, freed) = release_terminal-runs g.slot d.after d.pool_valid d.lent in
    record {
      slot = g.slot;
      matched = d.after;
      after = after;
      trades = d.trades;
      queues = d.queues;
      book_slot = d.slot;
      runs =
          handle_new_order-runs (suc e.pool.capacity) c m s e g (ap is_active on)
          ∙ place_order-runs (suc e.pool.capacity) c m g.slot s _ d.after after d.trades
              (subst (λ n. submit (suc n) c.clock g.slot e1 ≡ some (d.after, d.trades))
                g.capacity_kept d.runs)
              freed
          ∙ ap (λ x. some (x, after))
              (report-answers m _ d.trades d.after s
                (Outcome-accepted g.slot _ d.queues d.outcome));
      fair = subst (λ x. All (IsFair x) d.trades) stored d.fair;
      all_reported = d.conserved ∙ ap (λ x. x.filled_qty + traded d.trades) stored ∙ omega arith;
      outcome = d.outcome;
      own_slot = ap (λ k. lookup k d.after.matchers) (sym key) ∙ d.own_slot;
      models = d.models;
      released = freed;
    }
