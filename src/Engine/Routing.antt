-- ===== src/Engine/Routing.antt =====
-- `Engine::submit` and `Engine::expire_instrument` over the books of all instruments.
use multi_instrument_orderbo.Prelude.{
  ℕ, suc, ◌+◌, ◌≤◌, ◌<◌, ◌≡◌, ◌≢◌, refl, sym, ap, ◌∙◌, true, false, Option, none, some, List, [],
  length, arith, count, All,
}
use multi_instrument_orderbo.HashMap.{lookup, delete, lookup-delete}
use multi_instrument_orderbo.Types.{Trade, rejected}
use multi_instrument_orderbo.OrderBook.View.{View, Models, resting}
use multi_instrument_orderbo.Pool.{free}
use multi_instrument_orderbo.Pool.Stack.{IsValid}
use multi_instrument_orderbo.Matcher
use multi_instrument_orderbo.Matcher.{State, Clock, order, set_status, is_refused}
use multi_instrument_orderbo.Matcher.Step.{Ready}
use multi_instrument_orderbo.Matcher.Run.{IsFair, traded}
use multi_instrument_orderbo.Matcher.Conclude.{Outcome}
use multi_instrument_orderbo.Matcher.Submit.{submit-Submitted}
use multi_instrument_orderbo.Matcher.Retire.{cancel_all-AllCancelled, oldest, mark}
use multi_instrument_orderbo.Registry.{Registry}
use multi_instrument_orderbo.Engine.{
  Slot, Engine, view, put_back, submit, cancel, expire_instrument, book,
}
use multi_instrument_orderbo.Engine.Slots.{lookup-replace, pointer_to, Run, Run-book}

-- What `submit` does with an order of an instrument that the engine has.
pub record Routed (c : Clock) (o : ℕ) (e : Engine) : Type 0 where
  pub after : Engine
  pub slot : Slot
  pub queues : View
  pub trades : List Trade
  pub runs : submit (suc e.pool.capacity) c o e ≡ some (after, trades)
  pub own_slot : lookup (e.pool.storage o).instrument after.matchers ≡ some slot
  pub models : Models after.pool.storage after.links slot.book queues
  pub outcome : Outcome o (after.pool.storage o) queues
  pub fair : All (IsFair (e.pool.storage o)) trades
  pub conserved : (after.pool.storage o).filled_qty ≡ (e.pool.storage o).filled_qty + traded trades
  pub others_kept :
      (j : ℕ) → j ≢ (e.pool.storage o).instrument → lookup j after.matchers ≡ lookup j e.matchers
  pub pointers_kept : after.book_ptrs ≡ e.book_ptrs
  pub pool_valid : IsValid after.pool
  pub lent : after.pool.stack_top < after.pool.capacity

pub submit-runs :
    (fuel : ℕ) (c : Clock) (o : ℕ) (e : Engine) (sl : Slot) (w : State) (trades : List Trade)
    → lookup (e.pool.storage o).instrument e.matchers ≡ some sl
    → Matcher.submit fuel c o (view sl e) ≡ some (w, trades)
    → submit fuel c o e ≡ some (put_back (e.pool.storage o).instrument w e, trades)
unfolding submit
submit-runs fuel c o e sl w trades here ran = rw (here, submit) (rw ran refl)

-- An order of an instrument that the engine has, whose book models its orders, all of them open: where
-- the order does not rest in it, is not overfilled and has a quantity below 2 ^ 64, where the pool is
-- valid and its stack has room for the resting orders and one more, and where the matcher does not
-- refuse the order, it is matched to the end against the book of that instrument, which goes on to
-- model its orders. The order is filled by
-- what its trades, all fair to it, say. The books of the other instruments stay in place, and the
-- pool's stack stays within its array, with a slot out.
pub submit-Routed :
    (c : Clock) (o : ℕ) (e : Engine) (sl : Slot) (v : View)
    → lookup (e.pool.storage o).instrument e.matchers ≡ some sl
    → Ready o (view sl e) v
    → is_refused o (view sl e) ≡ false
    → Routed c o e
submit-Routed c o e sl v here ready accepted =
    let s = submit-Submitted c o (view sl e) v ready accepted in
    let k = (e.pool.storage o).instrument in
    let new_slot : Slot = record { book = s.after.book; stats = s.after.stats } in
    record {
      after = put_back k s.after e;
      slot = new_slot;
      queues = s.view;
      trades = s.trades;
      runs = submit-runs (suc e.pool.capacity) c o e sl s.after s.trades here s.runs;
      own_slot = ground (arith, lookup-replace k k new_slot e.matchers, here);
      models = s.models;
      outcome = s.outcome;
      fair = s.fair;
      conserved = s.conserved;
      others_kept = λ j ne. ground (arith, lookup-replace k j new_slot e.matchers, ne);
      pointers_kept = refl;
      pool_valid = s.pool_valid;
      lent = s.lent;
    }

-- The answers on an instrument that is not there.
pub record Absent (id : ℕ) (e : Engine) : Type 0 where
  pub submits :
      (fuel : ℕ) (c : Clock) (o : ℕ)
      → (e.pool.storage o).instrument ≡ id
      → submit fuel c o e ≡ some (record e { pool = set_status o rejected e.pool }, [])
  pub cancels : (order_id : ℕ) → cancel id order_id e ≡ some (e, false)
  pub expires : expire_instrument id e ≡ some (e, false)

Absent-of_lookup : (id : ℕ) (e : Engine) → lookup id e.matchers ≡ none → Absent id e
unfolding submit cancel expire_instrument
Absent-of_lookup id e h = record {
  submits = λ fuel c o same. rw (ap (λ k. lookup k e.matchers) same ∙ h, submit) refl;
  cancels = λ order_id. rw (h, cancel) refl;
  expires = rw (h, expire_instrument) refl;
}

-- In an engine that was built and run by its operations, where `book` of an instrument is null, an
-- order for it is rejected without a trade and without another change, and a cancellation and an
-- expiry answer `false` and change nothing.
book-Absent :
    (registry : Registry) (e : Engine) (id : ℕ) → Run registry e → book id e ≡ none → Absent id e
book-Absent registry e id r null =
    Absent-of_lookup id e (no_slot (lookup id e.matchers) (sym (Run-book registry e r id).0 ∙ null))
  where
    no_slot : (sl : Option Slot) → pointer_to id sl ≡ none → sl ≡ none
    no_slot none f = refl
    no_slot (some sl) f = absurd (ground (arith, f))

-- What `expire_instrument` does with an instrument that the engine has.
pub record Expired (id : ℕ) (sl : Slot) (e : Engine) (v : View) : Type 0 where
  pub after : Engine
  pub runs : expire_instrument id e ≡ some (after, true)
  pub null : book id after ≡ none
  pub absent : Absent id after
  pub others_kept : (j : ℕ) → j ≢ id → lookup j after.matchers ≡ lookup j e.matchers
  pub pointers_kept : (j : ℕ) → j ≢ id → book j after ≡ book j e
  pub pool_valid : IsValid after.pool
  pub freed : (a : ℕ) → count a (free after.pool) ≡ count a (oldest v) + count a (free e.pool)
  pub marked : (a : ℕ) → after.pool.storage a ≡ mark (oldest v) a (e.pool.storage a)

expire-runs :
    (id : ℕ) (e : Engine) (sl : Slot) (w : State)
    → lookup id e.matchers ≡ some sl
    → Matcher.cancel_all (view sl e) ≡ some w
    → expire_instrument id e
      ≡ some (
        record e {
          links = w.links;
          pool = w.pool;
          book_ptrs = delete id e.book_ptrs;
          matchers = delete id e.matchers;
        },
        true,
      )
unfolding expire_instrument
expire-runs id e sl w here ran = rw (here, expire_instrument) (rw ran refl)

-- Where the book of an instrument models its orders and the pool is valid, has a capacity above 0 and
-- room on its stack for the resting orders, the expiry of the instrument runs without a fault.
-- Afterwards `book` of it is null, orders for it are rejected and it
-- cannot expire again, and every other instrument keeps its book. Of its orders, the oldest at each
-- price are cancelled and back in the pool; no other slot is freed.
pub expire_instrument-Expired :
    (id : ℕ) (e : Engine) (sl : Slot) (v : View)
    → lookup id e.matchers ≡ some sl
    → Models e.pool.storage e.links sl.book v
    → IsValid e.pool
    → e.pool.stack_top + length (resting v) ≤ e.pool.capacity
    → 0 < e.pool.capacity
    → Expired id sl e v
unfolding book
expire_instrument-Expired id e sl v here models valid room some_room =
    let d = cancel_all-AllCancelled (view sl e) v models valid room some_room in
    record {
      after = record e {
        links = d.after.links;
        pool = d.after.pool;
        book_ptrs = delete id e.book_ptrs;
        matchers = delete id e.matchers;
      };
      runs = expire-runs id e sl d.after here d.runs;
      null = ground (arith, lookup-delete id id e.book_ptrs);
      absent = Absent-of_lookup id _ (ground (arith, lookup-delete id id e.matchers));
      others_kept = λ j ne. ground (arith, lookup-delete id j e.matchers, ne);
      pointers_kept = λ j ne. ground (arith, lookup-delete id j e.book_ptrs, ne);
      pool_valid = d.pool_valid;
      freed = d.freed;
      marked = d.marked;
    }
