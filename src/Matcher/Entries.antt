-- ===== src/Matcher/Entries.antt =====
-- The index of the book at the end of `Matcher::submit`.
use multi_instrument_orderbo.Prelude.{
  ℕ, ◌<◌, ◌≡◌, ◌≢◌, refl, ap, ◌∙◌, false, ◌||◌, some, none, count, arith, inl, inr, Bool-cases,
}
use multi_instrument_orderbo.HashMap.{lookup, emplace, lookup-emplace}
use multi_instrument_orderbo.Types.{Order, OrderStatus, is_fully_filled, is_market, is_ioc, new}
use multi_instrument_orderbo.OrderBook.{Locator, Orders, add_resting}
use multi_instrument_orderbo.OrderBook.Add.{locator_of}
use multi_instrument_orderbo.OrderBook.View.{View, resting}
use multi_instrument_orderbo.Matcher.{State, order, set_status, filled_or, conclude}

-- The index has each resting order under its id.
abbrev pub IsIndexed : State → View → Type 0
IsIndexed w v =
    (a : ℕ)
    → 0 < count a (resting v)
    → (loc : Locator) × (lookup (order w a).id w.book.order_map ≡ some loc) × (loc.order ≡ a)

-- No resting order has the taker's id.
abbrev pub IsFresh : ℕ → State → Type 0
IsFresh taker w = lookup (order w taker).id w.book.order_map ≡ none

-- The index after `add_resting` of the taker, whatever its status.
module _ (taker : ℕ) (w : State) (st : OrderStatus) where
  abbrev rest_orders : Orders
  rest_orders = (set_status taker st w.pool).storage

  order_map-add_resting :
      (add_resting rest_orders taker w.links w.book).1.order_map
      ≡ emplace (rest_orders taker).id (locator_of (rest_orders taker) taker) w.book.order_map
  unfolding add_resting
  order_map-add_resting = refl

  same_id : (rest_orders taker).id ≡ (order w taker).id
  same_id = ground arith

  lookup-add_resting :
      (id : ℕ)
      → (order w taker).id ≢ id
      → lookup id (add_resting rest_orders taker w.links w.book).1.order_map
        ≡ lookup id w.book.order_map
  lookup-add_resting id ne =
      ap (lookup id) order_map-add_resting
      ∙ ground (
        arith,
        lookup-emplace (rest_orders taker).id id (locator_of (rest_orders taker) taker)
            w.book.order_map,
        same_id,
        ne,
      )

  lookup-add_resting_self :
      IsFresh taker w
      → lookup (order w taker).id (add_resting rest_orders taker w.links w.book).1.order_map
        ≡ some (locator_of (rest_orders taker) taker)
  lookup-add_resting_self fresh =
      ap (lookup (order w taker).id) order_map-add_resting
      ∙ ground (
        arith,
        lookup-emplace (rest_orders taker).id (order w taker).id
            (locator_of (rest_orders taker) taker) w.book.order_map,
        same_id,
        fresh,
        ap (λ i. lookup i w.book.order_map) same_id,
      )

not_filled : (o : Order) → o.filled_qty < o.initial_qty → is_fully_filled o ≡ false
unfolding is_fully_filled
not_filled o h = ground arith

module _ (taker : ℕ) (w : State) where
  pub id-set_status :
      (st : OrderStatus) (a : ℕ) → ((set_status taker st w.pool).storage a).id ≡ (order w a).id
  id-set_status st a = ground (arith, ap w.pool.storage {x = taker} {y = a})

  -- Another id is found as it was.
  pub lookup-conclude :
      (id : ℕ)
      → (order w taker).id ≢ id
      → lookup id (conclude taker w).book.order_map ≡ lookup id w.book.order_map
  unfolding conclude
  lookup-conclude id ne = elim (Bool-cases (is_fully_filled (order w taker))) [
    | inl e ↦ rw (e, conclude) refl
    | inr e ↦ elim (Bool-cases (is_market (order w taker).type || is_ioc (order w taker).tif)) [
      | inl f ↦ rw (e, f, conclude) refl
      | inr f ↦
          rw (e, f, conclude)
            (lookup-add_resting taker w (filled_or new (order w taker).filled_qty) id ne)
    ]
  ]

  -- The id of an order that goes to rest is found with its slot.
  pub lookup-conclude_self :
      IsFresh taker w
      → (order w taker).filled_qty < (order w taker).initial_qty
      → (is_market (order w taker).type || is_ioc (order w taker).tif) ≡ false
      → (loc : Locator) × (lookup (order w taker).id (conclude taker w).book.order_map ≡ some loc)
        × (loc.order ≡ taker)
  unfolding conclude locator_of
  lookup-conclude_self fresh less f =
      let st = filled_or new (order w taker).filled_qty in
      let e = not_filled (order w taker) less in
      (
        locator_of (rest_orders taker w st taker) taker,
        rw (e, f, conclude) (lookup-add_resting_self taker w st fresh),
        refl,
      )

  pub id-conclude : (a : ℕ) → (order (conclude taker w) a).id ≡ (order w a).id
  unfolding conclude
  id-conclude a = elim (Bool-cases (is_fully_filled (order w taker))) [
    | inl e ↦ rw (e, conclude) (id-set_status _ a)
    | inr e ↦ elim (Bool-cases (is_market (order w taker).type || is_ioc (order w taker).tif)) [
      | inl f ↦ rw (e, f, conclude) (id-set_status _ a)
      | inr f ↦ rw (e, f, conclude) (id-set_status _ a)
    ]
  ]
