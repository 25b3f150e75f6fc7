-- ===== src/Dispatcher/Faults.antt =====
-- The reason that `Dispatcher` names for an order that `Matcher::submit` refuses.
use multi_instrument_orderbo.Prelude.{
  ℕ, ◌≡◌, ◌≢◌, subst, Bool, true, false, ◌||◌, ◌&&◌, not, ◌==◌, arith, inl, inr, Bool-cases, pos,
  leb_ℤ,
}
use multi_instrument_orderbo.Types.{rejected, is_fok, is_limit, is_market, is_resting_tif}
use multi_instrument_orderbo.Protocol.{
  NewOrderMsg, RejectReason, invalid_quantity, invalid_price, invalid_tif, insufficient_liquidity,
}
use multi_instrument_orderbo.Session.{Session}
use multi_instrument_orderbo.Matcher.{State, is_malformed, is_refused, can_fully_fill}
use multi_instrument_orderbo.Engine.{Engine}
use multi_instrument_orderbo.Dispatcher.{
  Readings, has_book, order_of, type_of_byte, tif_of_byte, classify,
}

-- The tests on the fields of a message, in the order of the code.
abbrev pub bad_price : NewOrderMsg → Bool
bad_price m = m.order_type == 0 && leb_ℤ m.price (pos 0)

abbrev pub bad_tif : NewOrderMsg → Bool
bad_tif m = m.order_type == 1 && (m.tif == 0 || m.tif == 3)

-- The first fault of a message, and its reason; `short` is whether the book has too little for it.
pub data Fault (m : NewOrderMsg) (short : Bool) : RejectReason → Type 0 where
  no_quantity : m.quantity ≡ 0 → Fault m short invalid_quantity
  no_price : m.quantity ≢ 0 → bad_price m ≡ true → Fault m short invalid_price
  may_not_rest : m.quantity ≢ 0 → bad_price m ≡ false → bad_tif m ≡ true → Fault m short invalid_tif
  cannot_fill :
      m.quantity ≢ 0
      → bad_price m ≡ false
      → bad_tif m ≡ false
      → m.tif ≡ 2
      → short ≡ true
      → Fault m short insufficient_liquidity

is_limit_byte : (b : ℕ) → is_limit (type_of_byte b) ≡ (b == 0)
is_limit_byte b = ground arith

is_market_byte : (b : ℕ) → is_market (type_of_byte b) ≡ (b == 1)
is_market_byte b = ground arith

is_resting_byte : (b : ℕ) → is_resting_tif (tif_of_byte b) ≡ (b == 0 || b == 3)
is_resting_byte b = ground arith

is_fok_byte : (b : ℕ) → is_fok (tif_of_byte b) ≡ (b == 2)
is_fok_byte b = ground arith

-- The tests of `submit` on the fields of the message and on the book.
pub is_refused-fields :
    (o : ℕ) (w : State) (m : NewOrderMsg) (s : Session) (c : Readings)
    → w.pool.storage o ≡ order_of m s c
    → w.book.instrument ≡ m.instrument_id
    → is_refused o w ≡ true
    → (m.quantity == 0
        || bad_price m
        || bad_tif m
        || (m.tif == 2 && not (can_fully_fill w (order_of m s c))))
      ≡ true
unfolding is_refused is_malformed
is_refused-fields o w m s c stored here h =
    let tests : (is_malformed (order_of m s c) w.book
          || (is_fok (tif_of_byte m.tif) && not (can_fully_fill w (order_of m s c))))
        ≡ true =
      subst (λ x. (is_malformed x w.book || (is_fok x.tif && not (can_fully_fill w x))) ≡ true)
        stored h in
    ground (
      arith,
      tests,
      here,
      is_limit_byte m.order_type,
      is_market_byte m.order_type,
      is_resting_byte m.tif,
      is_fok_byte m.tif,
    )

pub classify-Fault :
    (m : NewOrderMsg) (short : Bool) (e : Engine)
    → has_book m.instrument_id e ≡ true
    → (m.quantity == 0 || bad_price m || bad_tif m || (m.tif == 2 && short)) ≡ true
    → Fault m short (classify rejected m e)
unfolding classify
classify-Fault m short e h k = elim (Bool-cases (m.quantity == 0)) [
  | inl q ↦ rw (h, q, classify) (no_quantity (ground (arith, q)))
  | inr q ↦
      let some_quantity : m.quantity ≢ 0 = ground (arith, q) in
      elim (Bool-cases (bad_price m)) [
        | inl p ↦ rw (h, q, p, classify) (no_price some_quantity p)
        | inr p ↦ elim (Bool-cases (bad_tif m)) [
          | inl t ↦ rw (h, q, p, t, classify) (may_not_rest some_quantity p t)
          | inr t ↦
              let fok : (m.tif == 2) ≡ true = ground (arith, q, p, t, k) in
              rw (h, q, p, t, fok, classify)
                (cannot_fill some_quantity p t (ground (arith, fok)) (ground (arith, q, p, t, k)))
        ]
      ]
]
