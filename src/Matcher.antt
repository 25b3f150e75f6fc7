-- ===== src/Matcher.antt =====
-- `Matcher` of include/ordbk/matching/matcher.hpp and src/matching/matcher.cpp: an incoming order
-- (the taker) against one book. The state holds what the matcher's references reach: the links of
-- the levels, the pool with all order records, the book and the latency counters. The clock is
-- three readings, arguments of `submit`. `none` is a fault of a callee or, in `match_loop`, the end
-- of the fuel. A level is walked with the pool's capacity as fuel.
pub mod Step
pub mod Fill
pub mod Round
pub mod Run
pub mod Conclude
pub mod Submit
pub mod Liquidity
pub mod Taker
pub mod Supply
pub mod Plan
pub mod Priority
pub mod FillOrKill
pub mod Cancel
pub mod Retire
pub mod Outside
pub mod Entries
pub mod Indexed
pub mod Lending
pub mod Uncrossed
pub mod Example
mod Tests
use multi_instrument_orderbo.Prelude.{
  ℕ, zero, suc, Bool, true, false, not, ◌&&◌, ◌||◌, if◌then◌else◌, ◌==◌, ltb, leb, Option, none,
  some, List, [], ◌∷◌, ◌++◌, ◌>>=◌, ℤ, pos, leb_ℤ, sub64, to_i64,
}
use multi_instrument_orderbo.Types.{
  Order, Side, buy, sell, OrderStatus, new, partially_filled, filled, cancelled, rejected, Trade,
  opposite, is_limit, is_market, is_ioc, is_fok, is_resting_tif, remaining, is_fully_filled,
  qty_min, add_qty, sub_qty,
}
use multi_instrument_orderbo.Level.{Links, PriceLevel, walk}
use multi_instrument_orderbo.OrderBook.{
  Orders, OrderBook, Levels, levels, add_resting, cancel_and_get, peek_top, pop_top,
  clear_and_drain,
}
use multi_instrument_orderbo.Pool.{Pool, write, release}
use multi_instrument_orderbo.Latency.{LatencyTracker, record_ns}

pub record State : Type 0 where
  pub links : Links
  pub pool : Pool
  pub book : OrderBook
  pub stats : LatencyTracker

-- The order record behind a pointer, and a write of it.
abbrev pub order : State → ℕ → Order
order w o = w.pool.storage o

abbrev pub set_order : ℕ → Order → Pool → Pool
set_order o r p = record p { storage = write o r p.storage }

abbrev pub fill_order : ℕ → ℕ → Pool → Pool
fill_order o fill p =
    set_order o (record (p.storage o) { filled_qty = add_qty (p.storage o).filled_qty fill }) p

abbrev pub set_status : ℕ → OrderStatus → Pool → Pool
set_status o st p = set_order o (record (p.storage o) { status = st }) p

unfoldable pub prices_cross : Side → ℤ → ℤ → Bool
prices_cross buy taker_limit maker_price = leb_ℤ maker_price taker_limit
prices_cross sell taker_limit maker_price = leb_ℤ taker_limit maker_price

-- `taker.type == Limit && !prices_cross(...)`
unfoldable pub refuses : Order → ℤ → Bool
refuses taker price = is_limit taker.type && not (prices_cross taker.side taker.limit_price price)

-- The loop of `can_fully_fill` over one level: `none` is its `return true`, and otherwise the
-- quantity that is still needed.
unfoldable pub consume : Orders → List ℕ → ℕ → Option ℕ
consume orders [] need = some need
consume orders (o ∷ os) need =
    let r = remaining (orders o) in
    let rest = consume orders os (sub_qty need r) in if leb need r then none else rest

unfoldable pub can_fill_levels : ℕ → Orders → Links → Order → Levels → ℕ → Bool
can_fill_levels fuel orders lk taker [] need = need == 0
can_fill_levels fuel orders lk taker ((price, l) ∷ m) need =
    if refuses taker price then need == 0 else elim (consume orders (walk fuel lk l.head) need) [
      | none ↦ true
      | some need' ↦ can_fill_levels fuel orders lk taker m need'
    ]

unfoldable pub can_fully_fill : State → Order → Bool
can_fully_fill w taker =
    can_fill_levels w.pool.capacity w.pool.storage w.links taker
      (levels (opposite taker.side) w.book) (remaining taker)

-- The maker of the next round of `match`, `none` where the loop ends.
unfoldable pub next_maker : ℕ → State → Option ℕ
next_maker taker w =
    let t = order w taker in
    if ltb 0 (remaining t)
    then elim (peek_top (opposite t.side) w.book) [
      | none ↦ none
      | some m ↦ if refuses t (order w m).limit_price then none else some m
    ]
    else none

unfoldable pub fill_of : ℕ → ℕ → State → ℕ
fill_of taker maker w = qty_min (remaining (order w taker)) (remaining (order w maker))

unfoldable pub trade_of : ℕ → ℕ → State → Trade
trade_of taker maker w = record {
  maker_id = (order w maker).id;
  taker_id = (order w taker).id;
  instrument = (order w taker).instrument;
  price = (order w maker).limit_price;
  quantity = fill_of taker maker w;
  ts = (order w taker).ts;
}

-- The two writes of `filled_qty`, the taker's first.
unfoldable pub fill_both : ℕ → ℕ → State → State
fill_both taker maker w =
    let fill = fill_of taker maker w in
    record w { pool = fill_order maker fill (fill_order taker fill w.pool) }

-- What becomes of the maker: it leaves the book for the pool, or stays on top of it.
unfoldable pub settle_maker : ℕ → ℕ → State → Option State
settle_maker taker maker w =
    if is_fully_filled (order w maker)
    then (do
      let pool = set_status maker filled w.pool
      (lk, book) ← pop_top pool.storage (opposite (pool.storage taker).side) w.links w.book
      pool' ← release maker pool
      some (record w { links = lk; pool = pool'; book = book }))
    else some (record w { pool = set_status maker partially_filled w.pool })

unfoldable pub match_loop : ℕ → ℕ → State → List Trade → Option (State × List Trade)
match_loop zero taker w trades = none
match_loop (suc fuel) taker w trades = elim (next_maker taker w) [
  | none ↦ some (w, trades)
  | some maker ↦ elim (settle_maker taker maker (fill_both taker maker w)) [
    | none ↦ none
    | some w' ↦ match_loop fuel taker w' (trades ++ (trade_of taker maker w ∷ []))
  ]
]

-- The four tests of `submit` before the fill-or-kill test.
unfoldable pub is_malformed : Order → OrderBook → Bool
is_malformed o b =
    o.initial_qty == 0
    || not (o.instrument == b.instrument)
    || (is_limit o.type && leb_ℤ o.limit_price (pos 0))
    || (is_market o.type && is_resting_tif o.tif)

unfoldable pub is_refused : ℕ → State → Bool
is_refused taker w =
    is_malformed (order w taker) w.book
    || (is_fok (order w taker).tif && not (can_fully_fill w (order w taker)))

abbrev pub filled_or : OrderStatus → ℕ → OrderStatus
filled_or st q = if ltb 0 q then partially_filled else st

-- The end of `submit` after `match`: the taker's status, and the remainder put to rest.
unfoldable pub conclude : ℕ → State → State
conclude taker w =
    let t = order w taker in
    if is_fully_filled t
    then record w { pool = set_status taker filled w.pool }
    else if is_market t.type || is_ioc t.tif
    then record w { pool = set_status taker (filled_or cancelled t.filled_qty) w.pool }
    else let pool = set_status taker (filled_or new t.filled_qty) w.pool in
      let (lk, book) = add_resting pool.storage taker w.links w.book in
      record w { links = lk; pool = pool; book = book }

-- Readings of `now_ns` at the start, at the completion stamp and for the statistics.
pub record Clock : Type 0 where
  pub started : ℕ
  pub completed : ℕ
  pub measured : ℕ

unfoldable pub stamp : ℕ → Clock → State → State
stamp taker c w = record w {
  pool = set_order taker (record (order w taker) { match_complete_ns = to_i64 c.completed }) w.pool;
  stats = record_ns (sub64 c.measured c.started) w.stats;
}

unfoldable pub submit : ℕ → Clock → ℕ → State → Option (State × List Trade)
submit fuel c taker w =
    if is_refused taker w
    then some (record w { pool = set_status taker rejected w.pool }, [])
    else do
      (w', trades) ← match_loop fuel taker w []
      some (stamp taker c (conclude taker w'), trades)

unfoldable pub cancel : ℕ → State → Option (State × Bool)
cancel id w = do
  (lk, book, found) ← cancel_and_get id w.links w.book
  elim found [
    | none ↦ some (record w { links = lk; book = book }, false)
    | some o ↦ do
      pool ← release o (set_status o cancelled w.pool)
      some (record w { links = lk; pool = pool; book = book }, true)
  ]

-- The callback of `cancel_all`; a fault stays a fault.
unfoldable pub retire : ℕ → Option Pool → Option Pool
retire o p = do pool ← p; release o (set_status o cancelled pool)

unfoldable pub cancel_all : State → Option State
cancel_all w =
    let (lk, book, p) = clear_and_drain retire w.pool.capacity w.links w.book (some w.pool) in
    do pool ← p; some (record w { links = lk; pool = pool; book = book })
