-- ===== src/Dispatcher/Tests.antt =====
-- The theorems on `Dispatcher` at the engine of Matcher/Example, with one free slot.
use multi_instrument_orderbo.Prelude.{
  ℕ, ◌<◌, ◌≡◌, refl, true, sub64, inl, inr, ap, none, some, List, [], ◌∷◌, pos, arith, count,
}
use multi_instrument_orderbo.OrderBook.Example.{links, book, view, book-Models}
use multi_instrument_orderbo.HashMap.{lookup, emplace}
use multi_instrument_orderbo.Latency.{new_tracker}
use multi_instrument_orderbo.Matcher.{
  is_malformed, is_refused, can_fully_fill, can_fill_levels, consume, refuses, prices_cross,
}
use multi_instrument_orderbo.Level.{walk, unlink}
use multi_instrument_orderbo.Matcher.Step.{IsOpen}
use multi_instrument_orderbo.Matcher.Example.{pool, clock}
use multi_instrument_orderbo.Pool.{write, acquire, new_pool}
use multi_instrument_orderbo.Pool.Stack.{Acquired}
use multi_instrument_orderbo.Types.{blank_order, remaining}
use multi_instrument_orderbo.Engine
use multi_instrument_orderbo.Engine.{Slot, Engine, new_slot, new_engine, add_books}
use multi_instrument_orderbo.Protocol.{NewOrderMsg}
use multi_instrument_orderbo.Session.{Session, new_session, active, closing, next_inbound}
use multi_instrument_orderbo.Framer.{next, next_body, no_error}
use multi_instrument_orderbo.Codec.{decode_header, decode_body, read_word}
use multi_instrument_orderbo.Dispatcher.{Readings, pump, dispatch, handle_logout}
use multi_instrument_orderbo.Dispatcher.Placing.{IsTrading}
use multi_instrument_orderbo.Dispatcher.Guards.{Closed, pump-Closed}
use multi_instrument_orderbo.Dispatcher.Emitted.{Emits}
use multi_instrument_orderbo.Dispatcher.Output.{pump-Emits}
use multi_instrument_orderbo.OrderBook.View.{resting}
use multi_instrument_orderbo.Engine.Example.{views, views_cases, single-Books, registry}
use multi_instrument_orderbo.Engine.Fresh.{empty_view}
use multi_instrument_orderbo.Dispatcher.Market.{IsMarket}
use multi_instrument_orderbo.Dispatcher.NewOrders.{KeepsMarket, handle_new_order-KeepsMarket}
use multi_instrument_orderbo.Dispatcher.Opening.{new_engine-IsMarket}
use multi_instrument_orderbo.Dispatcher.Orders.{Answered, handle_new_order-Answered}
use multi_instrument_orderbo.Dispatcher.Rejects.{Refused, handle_new_order-Refused}

abbrev busy : Slot
busy = record { book = book; stats = new_tracker }

abbrev engine : Engine
engine = record { links = links; pool = pool; matchers = (7, busy) ∷ []; book_ptrs = (7, 7) ∷ [] }

abbrev session : Session
session = record (new_session 1) { state = active; client_id = 4 }

abbrev readings : Readings
readings = record { arrived = 3; clock = clock }

-- Buy eight at 101.
abbrev buy_eight : NewOrderMsg
buy_eight = record {
  client_order_id = 12;
  instrument_id = 7;
  side = 0;
  order_type = 0;
  tif = 0;
  price = pos 101;
  quantity = 8;
}

-- Buy a hundred or nothing, which is more than the book has.
abbrev buy_all : NewOrderMsg
buy_all = record buy_eight { tif = 2; quantity = 100 }

all-IsOpen : (a : ℕ) → 0 < count a (0 ∷ 1 ∷ []) → IsOpen (pool.storage a)
all-IsOpen a m = ground arith

engine-IsTrading : IsTrading busy engine view
engine-IsTrading = record {
  models = book-Models;
  open_orders = all-IsOpen;
  pool_valid = record { sized = refl; within = omega arith };
  apart = λ a. ground arith;
  room = omega arith;
}

handle_new_order-Answered_example : Answered readings buy_eight session engine
unfolding lookup is_malformed
handle_new_order-Answered_example =
    handle_new_order-Answered readings buy_eight session engine busy view refl refl engine-IsTrading
      (omega arith) (omega arith) refl (inl refl)

engine-IsMarket : IsMarket engine views
engine-IsMarket = record {
  books = single-Books;
  pool_valid = record { sized = refl; within = omega arith };
  apart = λ j a. elim (views_cases j) [
    | inl (here, at) ↦ ground (arith, ap (λ v. count a (resting v)) at)
    | inr at ↦ ground (arith, ap (λ v. count a (resting v)) at)
  ];
  below = λ j a h. elim (views_cases j) [
    | inl (here, at) ↦ ground (arith, h, ap (λ v. count a (resting v)) at)
    | inr at ↦ ground (arith, h, ap (λ v. count a (resting v)) at)
  ];
}

handle_new_order-KeepsMarket_example : KeepsMarket readings buy_eight session engine views
unfolding lookup is_malformed
handle_new_order-KeepsMarket_example =
    handle_new_order-KeepsMarket readings buy_eight session engine busy views refl refl
      engine-IsMarket (omega arith) (omega arith) refl (inl refl)

abbrev opened : Engine
opened = record {
  links = links;
  pool = new_pool 4;
  matchers = (7, new_slot 7) ∷ [];
  book_ptrs = (7, 7) ∷ [];
}

new_engine-IsMarket_example : IsMarket opened (λ j. empty_view)
unfolding new_engine add_books emplace lookup
new_engine-IsMarket_example = new_engine-IsMarket registry links 4 none opened refl

pool-acquire :
    acquire pool
    ≡ some (record pool { storage = write 3 blank_order pool.storage; stack_top = 0 }, some 3)
unfolding acquire
pool-acquire = refl

abbrev taken : Acquired pool
taken = record {
  pool = record pool { storage = write 3 blank_order pool.storage; stack_top = 0 };
  slot = 3;
  runs = pool-acquire;
  valid = record { sized = refl; within = omega arith };
  blank = refl;
  top = refl;
  capacity_kept = refl;
  taken = λ a. omega arith;
}

handle_new_order-Refused_example : Refused readings buy_all session engine true
unfolding lookup is_refused is_malformed Engine.book can_fully_fill can_fill_levels consume walk
    refuses prices_cross remaining sub64 unlink
handle_new_order-Refused_example =
    handle_new_order-Refused readings buy_all session engine busy refl taken refl refl refl
      (omega arith) refl

-- Sessions with a message that waits, a heartbeat or a logout.
abbrev with_bytes : List ℕ → Session → Session
with_bytes bytes s = record s { framer = record { buf = bytes; error = no_error } }

abbrev gone : Session
gone = with_bytes (1 ∷ 3 ∷ 0 ∷ 0 ∷ 0 ∷ 0 ∷ 0 ∷ 1 ∷ []) (record session { state = closing })

abbrev leaving : Session
leaving = with_bytes (1 ∷ 2 ∷ 0 ∷ 0 ∷ 0 ∷ 0 ∷ 0 ∷ 1 ∷ []) session

abbrev times : ℕ → Readings
times i = readings

pump-Closed_example : Closed 9 times gone engine
pump-Closed_example = pump-Closed 9 times gone engine refl (omega arith)

leaving-runs : pump 9 times leaving engine ≡ some (handle_logout (with_bytes [] session), engine)
unfolding pump dispatch next_inbound next next_body decode_header decode_body read_word
    handle_logout
leaving-runs = refl

pump-Emits_example : Emits leaving (handle_logout (with_bytes [] session))
pump-Emits_example =
    pump-Emits 9 times leaving (handle_logout (with_bytes [] session)) engine engine leaving-runs
