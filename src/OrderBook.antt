-- ===== src/OrderBook.antt =====
-- `OrderBook` of include/ordbk/orderbook/orderbook.hpp and src/orderbook/orderbook.cpp: the price
-- levels of the two sides and the index by order id. An order is a slot of the pool; `orders` gives
-- the records in the slots, and the links of the levels are passed from call to call. A `none`
-- result is a fault: a null pointer, or an iterator at the end, that the code reads through.
pub mod View
pub mod Frame
pub mod Add
pub mod Pop
pub mod Rekey
pub mod Outside
pub mod Drain
pub mod Settle
pub mod Cancel
pub mod Query
pub mod Uncrossed
pub mod Lengths
pub mod Example
mod Tests
use multi_instrument_orderbo.Prelude.{
  ℕ, zero, suc, ◌≡◌, Bool, true, false, not, if◌then◌else◌, Option, none, some, List, [], ◌∷◌, ◌++◌,
  ◌>>=◌, ℤ, ltb_ℤ, ltb→lt, arith, eq_of_parts, refl,
}
use multi_instrument_orderbo.Types.{Order, Side, buy, sell, remaining, zero_qty, add_qty}
use multi_instrument_orderbo.Level.{
  Links, PriceLevel, empty_level, is_empty, push_back, pop_front, erase, unlink, walk,
}
use multi_instrument_orderbo.OrderedMap.{KeyOrder, find, assign, remove}
use multi_instrument_orderbo.HashMap.{lookup, emplace, delete}

abbrev pub Orders : Type 0
Orders = ℕ → Order

-- `std::greater` for the bids, `std::less` for the asks: the best price stands first.
abbrev pub better : Side → ℤ → ℤ → Bool
better buy a b = ltb_ℤ b a
better sell a b = ltb_ℤ a b

pub better_irrefl : (s : Side) (a : ℤ) → better s a a ≡ false
better_irrefl buy a = ground arith
better_irrefl sell a = ground arith

pub better_trans :
    (s : Side) (a b c : ℤ) → better s a b ≡ true → better s b c ≡ true → better s a c ≡ true
better_trans buy a b c e f = ground arith
better_trans sell a b c e f = ground arith

pub better_connex : (s : Side) (a b : ℤ) → better s a b ≡ false → better s b a ≡ false → a ≡ b
better_connex buy a b e f = ground (arith, eq_of_parts a b)
better_connex sell a b e f = ground (arith, eq_of_parts a b)

abbrev pub price_order : Side → KeyOrder ℤ
price_order s = record {
  before = better s;
  before_irrefl = better_irrefl s;
  before_trans = better_trans s;
  before_connex = better_connex s;
}

abbrev pub Levels : Type 0
Levels = List (ℤ × PriceLevel)

pub record Locator : Type 0 where
  pub side : Side
  pub price : ℤ
  pub order : ℕ

pub record OrderBook : Type 0 where
  pub instrument : ℕ
  pub bids : Levels
  pub asks : Levels
  pub order_map : List (ℕ × Locator)

abbrev pub new_book : ℕ → OrderBook
new_book id = record { instrument = id; bids = []; asks = []; order_map = [] }

-- The code branches on the side and does the same to `bids_` or to `asks_`.
abbrev pub levels : Side → OrderBook → Levels
levels buy b = b.bids
levels sell b = b.asks

abbrev pub with_levels : Side → Levels → OrderBook → OrderBook
with_levels buy m b = record b { bids = m }
with_levels sell m b = record b { asks = m }

abbrev level_or_empty : Option PriceLevel → PriceLevel
level_or_empty none = empty_level
level_or_empty (some l) = l

unfoldable pub add_resting : Orders → ℕ → Links → OrderBook → Links × OrderBook
unfolding find assign push_back emplace
add_resting orders o lk b =
    let side = (orders o).side in
    let price = (orders o).limit_price in
    let list = level_or_empty (find (price_order side) price (levels side b)) in
    let (lk', list') = push_back o lk list in
    let b' = with_levels side (assign (price_order side) price list' (levels side b)) b in
    (
      lk',
      record b' {
        order_map =
            emplace (orders o).id (record { side = side; price = price; order = o }) b.order_map;
      },
    )

-- The entry at a level that has changed: written back, or erased with its last order.
unfoldable pub settle : Side → ℤ → PriceLevel → OrderBook → OrderBook
unfolding assign remove is_empty
settle side price l b =
    if is_empty l
    then with_levels side (remove (price_order side) price (levels side b)) b
    else with_levels side (assign (price_order side) price l (levels side b)) b

unlist : Locator → Links → OrderBook → Option (Links × OrderBook × Option ℕ)
unfolding find settle erase
unlist loc lk b = elim (find (price_order loc.side) loc.price (levels loc.side b)) [
  | none ↦ none
  | some l ↦
      let (lk', l') = erase loc.order lk l in
      some (lk', settle loc.side loc.price l' b, some loc.order)
]

unfoldable pub cancel_and_get : ℕ → Links → OrderBook → Option (Links × OrderBook × Option ℕ)
unfolding lookup delete unlist
cancel_and_get id lk b = elim (lookup id b.order_map) [
  | none ↦ some (lk, b, none)
  | some loc ↦ unlist loc lk (record b { order_map = delete id b.order_map })
]

-- `OrderBook::find`
unfoldable pub find_order : ℕ → OrderBook → Option ℕ
unfolding lookup
find_order id b = elim (lookup id b.order_map) [ none ↦ none | some loc ↦ some loc.order ]

abbrev first_price : Levels → Option ℤ
first_price [] = none
first_price ((p, l) ∷ m) = some p

-- `best_bid` and `best_ask`
unfoldable pub best : Side → OrderBook → Option ℤ
best side b = first_price (levels side b)

sum_remaining : Orders → List ℕ → ℕ → ℕ
unfolding remaining
sum_remaining orders [] total = total
sum_remaining orders (o ∷ os) total = sum_remaining orders os (add_qty total (remaining (orders o)))

-- `bid_qty_at` and `ask_qty_at`; `fuel` bounds the walk over the level.
unfoldable pub qty_at : ℕ → Side → ℤ → Orders → Links → OrderBook → ℕ
unfolding find walk sum_remaining
qty_at fuel side price orders lk b = elim (find (price_order side) price (levels side b)) [
  | none ↦ zero_qty
  | some l ↦ sum_remaining orders (walk fuel lk l.head) zero_qty
]

abbrev top_of : Levels → Option ℕ
top_of [] = none
top_of ((p, l) ∷ m) = l.head

unfoldable pub peek_top : Side → OrderBook → Option ℕ
peek_top side b = top_of (levels side b)

-- `level_it = begin()`: its level is changed in place or the entry is erased.
pop_level : Orders → Levels → Links → Option (Links × Levels × ℕ)
unfolding pop_front is_empty
pop_level orders [] lk = none
pop_level orders ((p, l) ∷ m) lk = do
  o ← l.head
  (lk', l') ← pop_front lk l
  some (lk', (if is_empty l' then m else (p, l') ∷ m), (orders o).id)

unfoldable pub pop_top : Orders → Side → Links → OrderBook → Option (Links × OrderBook)
unfolding pop_level delete
pop_top orders side lk b = do
  (lk', m, id) ← pop_level orders (levels side b) lk
  some (lk', record (with_levels side m b) { order_map = delete id b.order_map })

-- The range `for` of `clear_and_drain` over one level. The links of the order are reset before the
-- iterator moves on through them.
unfoldable pub drain_level {ℓ} : {S : Type ℓ} → (ℕ → S → S) → ℕ → Option ℕ → Links → S → Links × S
unfolding unlink
drain_level callback zero cur lk s = (lk, s)
drain_level callback (suc fuel) none lk s = (lk, s)
drain_level callback (suc fuel) (some o) lk s =
    let lk' = unlink o lk in drain_level callback fuel (lk'.level_next o) lk' (callback o s)

unfoldable pub drain_levels {ℓ} : {S : Type ℓ} → (ℕ → S → S) → ℕ → Levels → Links → S → Links × S
unfolding drain_level
drain_levels callback fuel [] lk s = (lk, s)
drain_levels callback fuel ((p, l) ∷ m) lk s =
    let (lk', s') = drain_level callback fuel l.head lk s in drain_levels callback fuel m lk' s'

unfoldable pub clear_and_drain {ℓ} :
    {S : Type ℓ} → (ℕ → S → S) → ℕ → Links → OrderBook → S → Links × OrderBook × S
unfolding drain_levels
clear_and_drain callback fuel lk b s =
    let (lk₁, s₁) = drain_levels callback fuel b.bids lk s in
    let (lk₂, s₂) = drain_levels callback fuel b.asks lk₁ s₁ in
    (lk₂, record b { bids = []; asks = []; order_map = [] }, s₂)
