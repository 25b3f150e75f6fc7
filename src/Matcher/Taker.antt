-- ===== src/Matcher/Taker.antt =====
-- What a round of `Matcher::match` leaves of the taker.
use multi_instrument_orderbo.Prelude.{
  ℕ, ◌+◌, ◌≤◌, ◌<◌, ◌≡◌, refl, ap, ◌∙◌, ℤ, u64_mod, sub64, arith,
}
use multi_instrument_orderbo.Types.{Order, remaining}
use multi_instrument_orderbo.OrderBook.View.{View}
use multi_instrument_orderbo.Matcher.{State, order, refuses, fill_of}
use multi_instrument_orderbo.Matcher.Step.{Ready, Round}

pub refuses-filled :
    (o : Order) (n : ℕ) (p : ℤ) → refuses (record o { filled_qty = n }) p ≡ refuses o p
unfolding refuses
refuses-filled o n p = refl

remaining-filled :
    (o : Order) (n : ℕ)
    → o.filled_qty + n ≤ o.initial_qty
    → o.initial_qty < u64_mod
    → remaining (record o { filled_qty = o.filled_qty + n }) + n ≡ remaining o
unfolding remaining sub64
remaining-filled o n h k = ground arith

pub none_left :
    (o : Order)
    → o.filled_qty ≤ o.initial_qty
    → o.initial_qty < u64_mod
    → remaining o ≡ 0
    → o.filled_qty ≡ o.initial_qty
unfolding remaining sub64
none_left o h k e = ground arith

module _ (taker maker : ℕ) (w : State) (v : View) (ready : Ready taker w v)
    (r : Round taker maker w v) where
  pub same_side : (order r.after taker).side ≡ (order w taker).side
  same_side = ap (λ o. o.side) r.taker_after

  pub same_refusals : (p : ℤ) → refuses (order r.after taker) p ≡ refuses (order w taker) p
  same_refusals p = ap (λ o. refuses o p) r.taker_after ∙ refuses-filled (order w taker) _ p

  within : (order w taker).filled_qty + fill_of taker maker w ≤ (order w taker).initial_qty
  within = omega (
    arith,
    r.ready.taker_filled,
    ap (λ o. o.filled_qty) r.taker_after,
    ap (λ o. o.initial_qty) r.taker_after,
  )

  pub less_wanted :
      remaining (order r.after taker) + fill_of taker maker w ≡ remaining (order w taker)
  less_wanted =
      ap (λ o. remaining o + fill_of taker maker w) r.taker_after
      ∙ remaining-filled (order w taker) _ within ready.taker_word

  pub none_wanted :
      (order w taker).filled_qty + fill_of taker maker w ≡ (order w taker).initial_qty
      → remaining (order r.after taker) ≡ 0
  unfolding remaining sub64
  none_wanted e =
      ground (arith, e, ap (λ o. o.filled_qty) r.taker_after, ap (λ o. o.initial_qty) r.taker_after)
