-- ===== src/OrderBook/Example.antt =====
-- A small book: two sell orders at one price, in the slots 0 and 1, and nothing on the other side.
use multi_instrument_orderbo.Prelude.{
  ℕ, ◌≡◌, refl, if◌then◌else◌, ◌==◌, none, some, [], ◌∷◌, arith, pos, some-eq, subst, sym,
}
use native.Mathlib.Decide.{ℕ_discrete}
use multi_instrument_orderbo.Types.{Order, Side, buy, sell, new, limit, gtc}
use multi_instrument_orderbo.Level.{Links, PriceLevel}
use multi_instrument_orderbo.Level.Chain.{Holds}
use multi_instrument_orderbo.OrderedMap.{find, IsSorted}
use multi_instrument_orderbo.OrderedMap.Related.{Related}
use multi_instrument_orderbo.HashMap.{lookup}
use multi_instrument_orderbo.OrderBook.{Orders, OrderBook, Locator, levels, price_order}
use multi_instrument_orderbo.OrderBook.View.{View, Placed, Located, Listed, Models}

abbrev pub limit_order : Side → ℕ → ℕ → ℕ → Order
limit_order side id price qty = record {
  id = id;
  limit_price = pos price;
  initial_qty = qty;
  filled_qty = 0;
  instrument = 7;
  client = 1;
  status = new;
  side = side;
  type = limit;
  tif = gtc;
  ts = pos 0;
  enqueue_ns = pos 0;
  match_complete_ns = pos 0;
}

abbrev pub orders : Orders
orders o =
    if o == 0
    then limit_order sell 10 100 5
    else if o == 1
    then limit_order sell 11 100 5
    else limit_order buy 12 101 8

abbrev pub links : Links
links = record {
  level_prev = λ o. if o == 1 then some 0 else none;
  level_next = λ o. if o == 0 then some 1 else none;
}

abbrev pub level : PriceLevel
level = record { head = some 0; tail = some 1 }

abbrev pub locator : ℕ → Locator
locator o = record { side = sell; price = pos 100; order = o }

abbrev pub book : OrderBook
book = record {
  instrument = 7;
  bids = [];
  asks = (pos 100, level) ∷ [];
  order_map = (10, locator 0) ∷ (11, locator 1) ∷ [];
}

abbrev pub view : View
view buy = []
view sell = (pos 100, 0 ∷ 1 ∷ []) ∷ []

pub level-Holds : Holds links level (0 ∷ 1 ∷ [])
level-Holds = record {
  chain = (refl, refl, (refl, refl, refl));
  ends = refl;
  distinct = ground arith;
}

book-linked : (s : Side) → Related (Holds links) (levels s book) (view s)
book-linked buy = tt
book-linked sell = (refl, level-Holds, tt)

book-IsSorted : (s : Side) → IsSorted (price_order s) (view s)
book-IsSorted buy = tt
book-IsSorted sell = (tt, tt)

book-Placed : (s : Side) → Placed orders s (view s)
book-Placed buy = tt
book-Placed sell = ((λ e. cc), ((refl, refl), ((refl, refl), tt)), tt)

first-Located : Located view sell (pos 100) 0
unfolding find
first-Located = (0 ∷ 1 ∷ [], refl, omega arith)

second-Located : Located view sell (pos 100) 1
unfolding find
second-Located = (0 ∷ 1 ∷ [], refl, omega arith)

book-Listed :
    (id : ℕ) (loc : Locator) → lookup id book.order_map ≡ some loc → Listed orders view id loc
unfolding lookup
book-Listed id loc e = elim (ℕ_discrete 10 id) [
  | yes same ↦
      let here : locator 0 ≡ loc =
        some-eq (subst (λ i. lookup i book.order_map ≡ some loc) (sym same) e) in
      subst (Listed orders view id) here (same, first-Located)
  | no ne ↦ elim (ℕ_discrete 11 id) [
    | yes same ↦
        let here : locator 1 ≡ loc =
          some-eq (subst (λ i. lookup i book.order_map ≡ some loc) (sym same) e) in
        subst (Listed orders view id) here (same, second-Located)
    | no ne' ↦ absurd (ground (arith, e, ne, ne'))
  ]
]

pub book-Models : Models orders links book view
book-Models = record {
  linked = book-linked;
  sorted = book-IsSorted;
  placed = book-Placed;
  unique = λ a. ground arith;
  listed = book-Listed;
}
