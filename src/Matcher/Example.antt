-- ===== src/Matcher/Example.antt =====
-- A matcher over the small book of OrderBook/Example: a buy order of eight meets two sell orders of
-- five.
use multi_instrument_orderbo.Prelude.{ℕ, ◌<◌, ◌≡◌, refl, ap, [], ◌∷◌, arith, false, count}
use multi_instrument_orderbo.OrderBook.View.{resting}
use multi_instrument_orderbo.OrderBook.Example.{orders, links, book, view, book-Models}
use multi_instrument_orderbo.Types.{fok}
use multi_instrument_orderbo.OrderBook.Rekey.{SameKeys, Models-SameKeys}
use multi_instrument_orderbo.Pool.{Pool, write}
use multi_instrument_orderbo.Latency.{new_tracker}
use multi_instrument_orderbo.Matcher.{State, Clock, order, is_refused, is_malformed}
use multi_instrument_orderbo.Matcher.Step.{IsOpen, Ready}

abbrev pub pool : Pool
pool = record { storage = orders; capacity = 4; free_slots = 3 ∷ 0 ∷ 1 ∷ 2 ∷ []; stack_top = 1 }

abbrev pub start : State
start = record { links = links; pool = pool; book = book; stats = new_tracker }

abbrev pub clock : Clock
clock = record { started = 5; completed = 20; measured = 25 }

all-IsOpen : (a : ℕ) → 0 < count a (resting view) → IsOpen (order start a)
all-IsOpen a m = ground arith

pub start-Ready : Ready 2 start view
start-Ready = record {
  models = book-Models;
  open_orders = all-IsOpen;
  aside = refl;
  taker_filled = omega arith;
  taker_word = omega arith;
  pool_valid = record { sized = refl; within = omega arith };
  room = omega arith;
}

pub not_refused : is_refused 2 start ≡ false
unfolding is_refused is_malformed
not_refused = refl

-- The same with a fill-or-kill order.
abbrev pub fok_start : State
fok_start = record start {
  pool = record pool { storage = write 2 (record (orders 2) { tif = fok }) orders };
}

fok_start-SameKeys : (a : ℕ) → SameKeys (orders a) (order fok_start a)
fok_start-SameKeys a = ground (arith, ap orders {x = 2} {y = a})

fok_start-IsOpen : (a : ℕ) → 0 < count a (resting view) → IsOpen (order fok_start a)
fok_start-IsOpen a m = ground arith

pub fok_start-Ready : Ready 2 fok_start view
fok_start-Ready = record {
  models = Models-SameKeys orders _ fok_start-SameKeys links book view book-Models;
  open_orders = fok_start-IsOpen;
  aside = refl;
  taker_filled = omega arith;
  taker_word = omega arith;
  pool_valid = record { sized = refl; within = omega arith };
  room = omega arith;
}

pub not_malformed : is_malformed (order fok_start 2) fok_start.book ≡ false
unfolding is_malformed
not_malformed = refl
