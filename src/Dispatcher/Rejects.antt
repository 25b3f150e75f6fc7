-- ===== src/Dispatcher/Rejects.antt =====
-- `Dispatcher::handle_new_order` on an order that the matcher refuses, and the reason it names.
use multi_instrument_orderbo.Prelude.{
  ℕ, suc, ◌<◌, ◌≡◌, refl, ap, ◌∙◌, Bool, true, not, some, [], arith, count,
}
use multi_instrument_orderbo.Types.{OrderStatus, rejected, is_terminal, is_terminal_status}
use multi_instrument_orderbo.HashMap.{lookup}
use multi_instrument_orderbo.Level.{unlink}
use multi_instrument_orderbo.Pool.{Pool, free}
use multi_instrument_orderbo.Pool.Stack.{IsValid, Acquired, Released, release-Released}
use multi_instrument_orderbo.Protocol.{NewOrderMsg, RejectReason}
use multi_instrument_orderbo.Session.{Session, active, emit}
use multi_instrument_orderbo.Matcher
use multi_instrument_orderbo.Matcher.{
  State, Clock, set_status, is_malformed, is_refused, can_fully_fill,
}
use multi_instrument_orderbo.Engine.{Slot, Engine, view, put_back, submit, book}
use multi_instrument_orderbo.Engine.Slots.{lookup-replace}
use multi_instrument_orderbo.Dispatcher.{
  Readings, is_active, is_rejected, has_book, order_of, place, reject, classify, report,
  release_terminal, handle_new_order,
}
use multi_instrument_orderbo.Dispatcher.Orders.{place_order-runs, handle_new_order-runs}
use multi_instrument_orderbo.Dispatcher.Faults.{Fault, is_refused-fields, classify-Fault}

submit_refused :
    (fuel : ℕ) (c : Clock) (o : ℕ) (e : Engine) (sl : Slot)
    → lookup (e.pool.storage o).instrument e.matchers ≡ some sl
    → is_refused o (view sl e) ≡ true
    → submit fuel c o e
      ≡ some (
        put_back
            (e.pool.storage o).instrument
            (record (view sl e) { pool = set_status o rejected e.pool })
            e,
        [],
      )
unfolding submit Matcher.submit
submit_refused fuel c o e sl here h = rw (here, submit) (rw (h, Matcher.submit) refl)

-- What a session gets and what is left of the engine for an order that is refused.
pub record Refused (c : Readings) (m : NewOrderMsg) (s : Session) (e : Engine) (short : Bool)
    : Type 0 where
  pub after : Engine
  pub reason : RejectReason
  pub runs :
      handle_new_order (suc e.pool.capacity) c m s e
      ≡ some (emit (reject m.client_order_id reason) s, after)
  pub named : Fault m short reason
  pub books_kept : (j : ℕ) → lookup j after.matchers ≡ lookup j e.matchers
  pub free_kept : (a : ℕ) → count a (free after.pool) ≡ count a (free e.pool)
  pub pool_valid : IsValid after.pool

module _ (c : Readings) (m : NewOrderMsg) (s : Session) (e : Engine) (sl : Slot)
    (here : lookup m.instrument_id e.matchers ≡ some sl) (g : Acquired e.pool) where
  abbrev stored : Engine
  stored = place g.slot (order_of m s c) (record e { pool = g.pool; links = unlink g.slot e.links })

  -- The test of the liquidity in the book.
  abbrev short : Bool
  short = not (can_fully_fill (view sl stored) (order_of m s c))

  abbrev marked : Pool
  marked = set_status g.slot rejected stored.pool

  stored-order : stored.pool.storage g.slot ≡ order_of m s c
  stored-order = ground arith

  abbrev sent : Engine
  sent =
      put_back (stored.pool.storage g.slot).instrument (record (view sl stored) { pool = marked })
        stored

  abbrev left : Released g.slot marked → Engine
  left r = record sent { pool = r.pool }

  own_book : lookup (stored.pool.storage g.slot).instrument e.matchers ≡ some sl
  own_book = ap (λ x. lookup x.instrument e.matchers) stored-order ∙ here

  left-books :
      (r : Released g.slot marked) (j : ℕ) → lookup j (left r).matchers ≡ lookup j e.matchers
  left-books r j =
      let k = (stored.pool.storage g.slot).instrument in
      ground (
        arith,
        lookup-replace k j (record { book = sl.book; stats = sl.stats }) e.matchers,
        own_book,
        λ (f : k ≡ j). ap (λ x. lookup x e.matchers) f,
      )

  sent-order : (sent.pool.storage g.slot).status ≡ rejected
  sent-order = ground arith

  release-runs : (r : Released g.slot marked) → release_terminal g.slot sent ≡ some (left r)
  unfolding release_terminal is_terminal
  release-runs r = rw (sent-terminal, release_terminal) (rw r.runs refl)
    where
      sent-terminal : is_terminal (sent.pool.storage g.slot) ≡ true
      sent-terminal = ap is_terminal_status sent-order

  report_rejected :
      (st : OrderStatus)
      → st ≡ rejected
      → report m st [] sent s ≡ emit (reject m.client_order_id (classify rejected m sent)) s
  unfolding report
  report_rejected st h = rw (ap is_rejected h, report) refl

  refused-runs :
      (r : Released g.slot marked)
      → is_active s.state ≡ true
      → is_refused g.slot (view sl stored) ≡ true
      → handle_new_order (suc e.pool.capacity) c m s e
        ≡ some (emit (reject m.client_order_id (classify rejected m sent)) s, left r)
  refused-runs r on h =
      handle_new_order-runs (suc e.pool.capacity) c m s e g on
      ∙ place_order-runs (suc e.pool.capacity) c m g.slot s _ sent (left r) []
          (submit_refused (suc e.pool.capacity) c.clock g.slot stored sl own_book h)
          (release-runs r)
      ∙ ap (λ x. some (x, left r)) (report_rejected _ sent-order)

  -- In an active session, for an instrument of which the engine has a book, while the pool lends a slot
  -- and has room to take it back, an order that the matcher refuses in that slot is answered by one rejection. Its
  -- reason is the first fault of the message in the order quantity, limit price, time in force, and
  -- insufficient liquidity only for a fill-or-kill order that has none of these and that the book
  -- cannot fill. Every instrument keeps its book, and the pool has the same free slots as before.
  pub handle_new_order-Refused :
      s.state ≡ active
      → has_book m.instrument_id e ≡ true
      → sl.book.instrument ≡ m.instrument_id
      → g.pool.stack_top < g.pool.capacity
      → is_refused g.slot (view sl stored) ≡ true
      → Refused c m s e short
  unfolding book
  handle_new_order-Refused on known own lent h =
      let r =
        release-Released g.slot marked (record { sized = g.valid.sized; within = g.valid.within })
          lent in
      record {
        after = left r;
        reason = classify rejected m sent;
        runs = refused-runs r (ap is_active on) h;
        named =
            classify-Fault m short sent known
              (is_refused-fields g.slot (view sl stored) m s c stored-order own h);
        books_kept = left-books r;
        free_kept = λ a. omega (arith, r.freed a, g.taken a);
        pool_valid = r.valid;
      }
