-- ===== src/Engine.antt =====
-- `Engine` of include/ordbk/matching/engine.hpp and src/matching/engine.cpp: one book and one
-- matcher for each instrument. A raw book pointer is the instrument whose slot owns the book. The
-- pool is the one that the engine's caller shares with it. A `none` result is a fault of a callee or
-- the read of a book that is gone.
pub mod Slots
pub mod Routing
pub mod Books
pub mod Fresh
pub mod Submits
pub mod Cancels
pub mod Example
pub mod Totals
mod Tests
use multi_instrument_orderbo.Prelude.{
  ℕ, Bool, true, false, ◌==◌, if◌then◌else◌, Option, none, some, List, [], ◌∷◌, ◌>>=◌, ltb, add64,
}
use multi_instrument_orderbo.Types.{OrderStatus, rejected, Trade}
use multi_instrument_orderbo.Level.{Links, unlink}
use multi_instrument_orderbo.HashMap.{lookup, emplace, delete}
use multi_instrument_orderbo.Pool.{Pool, acquire, release}
use multi_instrument_orderbo.OrderBook.{OrderBook, new_book}
use multi_instrument_orderbo.Latency.{LatencyTracker, Snapshot, new_tracker, snapshot, zero_hist}
use multi_instrument_orderbo.Matcher
use multi_instrument_orderbo.Matcher.{State, Clock, set_status}
use multi_instrument_orderbo.Registry.{Registry, InstrumentSpec}

-- The book, and the matcher's own state.
pub record Slot : Type 0 where
  pub book : OrderBook
  pub stats : LatencyTracker

abbrev pub Slots : Type 0
Slots = List (ℕ × Slot)

pub record Engine : Type 0 where
  pub links : Links
  pub pool : Pool
  pub matchers : Slots
  pub book_ptrs : List (ℕ × ℕ)

abbrev pub new_slot : ℕ → Slot
new_slot instrument = record { book = new_book instrument; stats = new_tracker }

-- The loop of the constructor. An empty filter is `none`.
abbrev pub skips : Option (ℕ → Bool) → ℕ → Bool
skips none id = false
skips (some f) id = if f id then false else true

unfoldable pub add_books : Option (ℕ → Bool) → List InstrumentSpec → Engine → Engine
unfolding emplace
add_books filter [] e = e
add_books filter (spec ∷ specs) e =
    if skips filter spec.id
    then add_books filter specs e
    else add_books filter specs (record e {
      book_ptrs = emplace spec.id spec.id e.book_ptrs;
      matchers = emplace spec.id (new_slot spec.id) e.matchers;
    })

-- The constructor: `none` is its `std::logic_error`.
unfoldable pub new_engine : Registry → Links → Pool → Option (ℕ → Bool) → Option Engine
unfolding add_books
new_engine registry lk pool filter =
    if registry.frozen
    then some (
        add_books filter registry.instruments
          (record { links = lk; pool = pool; matchers = []; book_ptrs = [] }))
    else none

-- What the matcher of a slot sees, and the engine after a call of that matcher.
abbrev pub view : Slot → Engine → State
view sl e = record { links = e.links; pool = e.pool; book = sl.book; stats = sl.stats }

-- A write through the iterator at a key that is there.
unfoldable pub replace : ℕ → Slot → Slots → Slots
replace k sl [] = []
replace k sl ((j, old) ∷ m) = if j == k then (j, sl) ∷ m else (j, old) ∷ replace k sl m

abbrev pub put_back : ℕ → State → Engine → Engine
put_back k w e = record e {
  links = w.links;
  pool = w.pool;
  matchers = replace k (record { book = w.book; stats = w.stats }) e.matchers;
}

abbrev pub acquire_order : Engine → Option (Engine × Option ℕ)
acquire_order e = do
  (pool, got) ← acquire e.pool
  elim got [
    | none ↦ some (record e { pool = pool }, none)
    | some o ↦ some (record e { pool = pool; links = unlink o e.links }, some o)
  ]

abbrev pub release_order : ℕ → Engine → Option Engine
release_order o e = do pool ← release o e.pool; some (record e { pool = pool })

unfoldable pub submit : ℕ → Clock → ℕ → Engine → Option (Engine × List Trade)
unfolding lookup Matcher.submit replace
submit fuel c order e = elim (lookup (e.pool.storage order).instrument e.matchers) [
  | none ↦ some (record e { pool = set_status order rejected e.pool }, [])
  | some sl ↦ do
    (w, trades) ← Matcher.submit fuel c order (view sl e)
    some (put_back (e.pool.storage order).instrument w e, trades)
]

unfoldable pub cancel : ℕ → ℕ → Engine → Option (Engine × Bool)
unfolding lookup Matcher.cancel replace
cancel instrument id e = elim (lookup instrument e.matchers) [
  | none ↦ some (e, false)
  | some sl ↦ do (w, done) ← Matcher.cancel id (view sl e); some (put_back instrument w e, done)
]

unfoldable pub expire_instrument : ℕ → Engine → Option (Engine × Bool)
unfolding lookup Matcher.cancel_all delete
expire_instrument id e = elim (lookup id e.matchers) [
  | none ↦ some (e, false)
  | some sl ↦ do
    w ← Matcher.cancel_all (view sl e)
    some (
      record e {
        links = w.links;
        pool = w.pool;
        book_ptrs = delete id e.book_ptrs;
        matchers = delete id e.matchers;
      },
      true,
    )
]

-- The pointer that `book` returns, `none` for null.
unfoldable pub book : ℕ → Engine → Option ℕ
unfolding lookup
book id e = lookup id e.book_ptrs

-- The book that a pointer leads to, `none` once its slot is gone.
unfoldable pub read_book : ℕ → Engine → Option OrderBook
unfolding lookup
read_book p e = do sl ← lookup p e.matchers; some sl.book

abbrev pub add_hist : List ℕ → List ℕ → List ℕ
add_hist [] ys = []
add_hist (x ∷ xs) [] = x ∷ xs
add_hist (x ∷ xs) (y ∷ ys) = add64 x y ∷ add_hist xs ys

abbrev pub larger : ℕ → ℕ → ℕ
larger a b = if ltb a b then b else a

unfoldable pub combine : Slots → Snapshot → Snapshot
unfolding snapshot
combine [] acc = acc
combine ((id, sl) ∷ m) acc =
    let s = snapshot sl.stats in
    combine m (record acc {
      count = add64 acc.count s.count;
      max_ns = larger acc.max_ns s.max_ns;
      hist = add_hist acc.hist s.hist;
    })

unfoldable pub latency_snapshot : Engine → Snapshot
unfolding combine
latency_snapshot e =
    combine e.matchers (record { count = 0; mean_ns = 0; max_ns = 0; hist = zero_hist })
