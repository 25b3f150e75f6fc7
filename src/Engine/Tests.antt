-- ===== src/Engine/Tests.antt =====
-- The theorems on `Engine` at an engine of two instruments, one with the book of Matcher/Example.
use multi_instrument_orderbo.Prelude.{ℕ, ◌≡◌, refl, none, some, [], ◌∷◌, arith}
use multi_instrument_orderbo.OrderBook.{OrderBook}
use multi_instrument_orderbo.OrderBook.Example.{locator, links, view, book-Models}
use multi_instrument_orderbo.HashMap.{lookup, emplace}
use multi_instrument_orderbo.Matcher.Example.{pool, clock, start-Ready, not_refused}
use multi_instrument_orderbo.Engine
use multi_instrument_orderbo.Engine.{
  Slot, Engine, new_slot, new_engine, add_books, expire_instrument, read_book,
}
use multi_instrument_orderbo.Engine.Slots.{Run, built, pointer_to, Run-book}
use multi_instrument_orderbo.Engine.Routing.{
  Routed, submit-Routed, Expired, expire_instrument-Expired,
}
use multi_instrument_orderbo.Engine.Example.{
  registry, busy, single, views, single-Books, taker_aside,
}
use multi_instrument_orderbo.Engine.Submits.{KeepsBooks, submit-KeepsBooks}
use multi_instrument_orderbo.Engine.Cancels.{Withdrawn, cancel-Withdrawn}
use multi_instrument_orderbo.Engine.Totals.{Combined, latency_snapshot-Combined}

abbrev engine : Engine
engine = record {
  links = links;
  pool = pool;
  matchers = (9, new_slot 9) ∷ (7, busy) ∷ [];
  book_ptrs = (9, 9) ∷ (7, 7) ∷ [];
}

abbrev fresh : Engine
fresh = record {
  links = links;
  pool = pool;
  matchers = (7, new_slot 7) ∷ [];
  book_ptrs = (7, 7) ∷ [];
}

fresh-Run : Run registry fresh
unfolding new_engine add_books emplace lookup
fresh-Run = built links pool none fresh refl

submit-Routed_example : Routed clock 2 engine
unfolding lookup
submit-Routed_example = submit-Routed clock 2 engine busy view refl start-Ready not_refused

Run-book_example :
    (Engine.book 7 fresh ≡ pointer_to 7 (lookup 7 fresh.matchers))
    × ((p : ℕ) → Engine.book 7 fresh ≡ some p → (b : OrderBook) × (read_book p fresh ≡ some b))
Run-book_example = Run-book registry fresh fresh-Run 7

expire_instrument-Expired_example : Expired 7 busy engine view
unfolding lookup
expire_instrument-Expired_example =
    expire_instrument-Expired 7 engine busy view refl book-Models
      (record { sized = refl; within = omega arith }) (omega arith) (omega arith)

latency_snapshot-Combined_example : Combined engine
latency_snapshot-Combined_example = latency_snapshot-Combined engine (refl, (refl, tt))

submit-KeepsBooks_example : KeepsBooks clock 2 single views
unfolding lookup
submit-KeepsBooks_example =
    submit-KeepsBooks clock 2 single busy views single-Books taker_aside refl start-Ready

cancel-Withdrawn_example : Withdrawn 7 11 1 single views
unfolding lookup
cancel-Withdrawn_example =
    cancel-Withdrawn 7 11 single busy views (locator 1) single-Books refl refl
      (record { sized = refl; within = omega arith }) (omega arith)
