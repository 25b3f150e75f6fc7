-- ===== src/Matcher/Fill.antt =====
-- The two writes of `filled_qty` in a round of `Matcher::match`, and a write of the maker's status.
use multi_instrument_orderbo.Prelude.{
  ℕ, ◌+◌, ◌<◌, ◌≡◌, ◌≢◌, ap, List, ◌∷◌, ℤ, count, count-append, arith,
}
use multi_instrument_orderbo.Types.{Side, OrderStatus, opposite}
use multi_instrument_orderbo.OrderBook.View.{Queues, View, slots, resting, count-side}
use multi_instrument_orderbo.OrderBook.Rekey.{SameKeys}
use multi_instrument_orderbo.Matcher.{State, order, set_status, fill_of, fill_both}
use multi_instrument_orderbo.Matcher.Step.{
  IsOpen, Ready, IsNext, Fills, Fills-of, fill_both-taker, fill_both-maker, fill_both-other,
  fill_both-SameKeys,
}

-- What the writes leave where the maker is on top of its side.
pub record Filling (taker maker : ℕ) (w : State) (v : View) (p : ℤ) (xs : List ℕ) (q : Queues)
    : Type 0 where
  pub top : v (opposite (order w taker).side) ≡ (p, maker ∷ xs) ∷ q
  pub maker_open : IsOpen (order w maker)
  pub fills : Fills (order w taker) (order w maker) (fill_of taker maker w)
  pub taker_kept :
      (st : OrderStatus)
      → (set_status maker st (fill_both taker maker w).pool).storage taker
        ≡ record (order w taker) { filled_qty = (order w taker).filled_qty + fill_of taker maker w }
  pub same_keys :
      (st : OrderStatus) (a : ℕ)
      → SameKeys (order w a) ((set_status maker st (fill_both taker maker w).pool).storage a)
  pub other_kept :
      (st : OrderStatus) (a : ℕ)
      → a ≢ maker
      → 0 < count a (resting v)
      → (set_status maker st (fill_both taker maker w).pool).storage a ≡ order w a
  pub apart : (a : ℕ) → count a (resting v) ≡ 0 → count a (maker ∷ xs) ≡ 0
  pub untouched :
      (st : OrderStatus) (a : ℕ)
      → a ≢ taker
      → count a (resting v) ≡ 0
      → (set_status maker st (fill_both taker maker w).pool).storage a ≡ order w a
  pub maker_sum :
      (order (fill_both taker maker w) maker).filled_qty
      ≡ (order w maker).filled_qty + fill_of taker maker w
  pub maker_initial :
      (order (fill_both taker maker w) maker).initial_qty ≡ (order w maker).initial_qty

module _ (taker maker : ℕ) (w : State) (v : View) (r : Ready taker w v) (n : IsNext taker maker w)
    (p : ℤ) (xs : List ℕ) (q : Queues)
    (top : v (opposite (order w taker).side) ≡ (p, maker ∷ xs) ∷ q) where
  abbrev opp : Side
  opp = opposite (order w taker).side

  abbrev fill : ℕ
  fill = fill_of taker maker w

  abbrev mid : State
  mid = fill_both taker maker w

  maker_rests : 0 < count maker (resting v)
  maker_rests =
      let at_top = ap (λ z. count maker (slots z)) top in
      ground (arith, at_top, count-side maker opp v)

  ne : taker ≢ maker
  ne = λ e. absurd (omega (arith, ap (λ o. count o (resting v)) e, r.aside, maker_rests))

  fills : Fills (order w taker) (order w maker) fill
  unfolding fill_of
  fills =
      Fills-of (order w taker) (order w maker) n.wanted r.taker_filled r.taker_word
        (r.open_orders maker maker_rests)

  -- The taker's record after the fill and a write of the maker's status.
  taker_kept :
      (st : OrderStatus)
      → (set_status maker st mid.pool).storage taker
        ≡ record (order w taker) { filled_qty = (order w taker).filled_qty + fill }
  taker_kept st = ground (arith, ne, fill_both-taker taker maker w ne, fills.taker_sum)

  same_keys :
      (st : OrderStatus) (a : ℕ) → SameKeys (order w a) ((set_status maker st mid.pool).storage a)
  same_keys st a =
      ground (arith, fill_both-SameKeys taker maker w a, ap (order mid) {x = maker} {y = a})

  -- A resting order other than the maker is as it was.
  other_kept :
      (st : OrderStatus) (a : ℕ)
      → a ≢ maker
      → 0 < count a (resting v)
      → (set_status maker st mid.pool).storage a ≡ order w a
  other_kept st a ne' m =
      let not_taker : a ≢ taker =
        λ e. absurd (omega (arith, ap (λ o. count o (resting v)) e, r.aside, m)) in
      ground (arith, ne', fill_both-other taker maker w a not_taker ne')

  apart : (a : ℕ) → count a (resting v) ≡ 0 → count a (maker ∷ xs) ≡ 0
  apart a out = omega (
    arith,
    out,
    count-side a opp v,
    ap (λ z. count a (slots z)) top,
    count-append a (maker ∷ xs) (slots q),
  )

  -- A slot that is neither the taker's nor in the book is as it was.
  untouched :
      (st : OrderStatus) (a : ℕ)
      → a ≢ taker
      → count a (resting v) ≡ 0
      → (set_status maker st mid.pool).storage a ≡ order w a
  untouched st a not_taker out =
      let ne' : a ≢ maker = λ e. absurd (ground (arith, apart a out, e)) in
      ground (arith, ne', fill_both-other taker maker w a not_taker ne')

  maker_sum : (order mid maker).filled_qty ≡ (order w maker).filled_qty + fill
  maker_sum = ground (arith, fill_both-maker taker maker w ne, fills.maker_sum)

  maker_initial : (order mid maker).initial_qty ≡ (order w maker).initial_qty
  maker_initial = ground (arith, fill_both-maker taker maker w ne)

  pub Filling-of : Filling taker maker w v p xs q
  Filling-of = record {
    top = top;
    maker_open = r.open_orders maker maker_rests;
    fills = fills;
    taker_kept = taker_kept;
    same_keys = same_keys;
    other_kept = other_kept;
    apart = apart;
    untouched = untouched;
    maker_sum = maker_sum;
    maker_initial = maker_initial;
  }
