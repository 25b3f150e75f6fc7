-- ===== src/Matcher/Plan.antt =====
-- The trades of a taker with a list of offers: what `Matcher::match` is to do.
use multi_instrument_orderbo.Prelude.{
  ℕ, ◌-◌, ◌<◌, ◌≡◌, refl, true, false, ◌||◌, ◌==◌, if◌then◌else◌, List, [], ◌∷◌, ℤ, count,
  count-append, arith, All,
}
use multi_instrument_orderbo.Types.{Order, Trade, remaining, qty_min}
use multi_instrument_orderbo.OrderBook.{Orders}
use multi_instrument_orderbo.OrderBook.View.{Queues, slots}
use multi_instrument_orderbo.OrderBook.Pop.{drop_first}
use multi_instrument_orderbo.Matcher.{refuses}
use multi_instrument_orderbo.Matcher.Taker.{refuses-filled}

-- The resting orders with their prices: best price first, oldest first at one price.
abbrev pub priced : ℤ → List ℕ → List (ℤ × ℕ) → List (ℤ × ℕ)
priced p [] rest = rest
priced p (x ∷ xs) rest = (p, x) ∷ priced p xs rest

abbrev pub offers : Queues → List (ℤ × ℕ)
offers [] = []
offers ((p, xs) ∷ q) = priced p xs (offers q)

abbrev pub trade_with : Order → ℤ → Order → ℕ → Trade
trade_with taker p maker fill = record {
  maker_id = maker.id;
  taker_id = taker.id;
  instrument = taker.instrument;
  price = p;
  quantity = fill;
  ts = taker.ts;
}

-- The trades of a taker that still wants a quantity, with each offer in turn as long as its price is
-- accepted: all the offer wants, or all the taker still does.
abbrev pub plan : Orders → Order → List (ℤ × ℕ) → ℕ → List Trade
plan orders taker [] need = []
plan orders taker ((p, o) ∷ os) need =
    let fill = qty_min need (remaining (orders o)) in
    let rest = plan orders taker os (need - fill) in
    if need == 0 || refuses taker p then [] else trade_with taker p (orders o) fill ∷ rest

pub offers-drop_first :
    (p : ℤ) (x : ℕ) (xs : List ℕ) (q : Queues)
    → offers ((p, x ∷ xs) ∷ q) ≡ (p, x) ∷ offers (drop_first p xs q)
offers-drop_first p x [] q = refl
offers-drop_first p x (y ∷ ys) q = refl

pub plan_full : (orders : Orders) (taker : Order) (os : List (ℤ × ℕ)) → plan orders taker os 0 ≡ []
plan_full orders taker [] = refl
plan_full orders taker ((p, o) ∷ os) = refl

pub plan_refused :
    (orders : Orders) (taker : Order) (p : ℤ) (o : ℕ) (os : List (ℤ × ℕ)) (need : ℕ)
    → refuses taker p ≡ true
    → plan orders taker ((p, o) ∷ os) need ≡ []
plan_refused orders taker p o os need e = ground (arith, e)

pub plan_accepted :
    (orders : Orders) (taker : Order) (p : ℤ) (o : ℕ) (os : List (ℤ × ℕ)) (need : ℕ)
    → 0 < need
    → refuses taker p ≡ false
    → plan orders taker ((p, o) ∷ os) need
      ≡ trade_with taker p (orders o) (qty_min need (remaining (orders o)))
        ∷ plan orders taker os (need - qty_min need (remaining (orders o)))
plan_accepted orders taker p o os need h e = ground (arith, h, e)

-- What holds of each resting order of a side holds of each offer.
All-priced :
    {P : ℕ → Type 0} (p : ℤ) (xs : List ℕ) (rest : List (ℤ × ℕ))
    → ((a : ℕ) → 0 < count a xs → P a)
    → All (λ e. P e.1) rest
    → All (λ e. P e.1) (priced p xs rest)
All-priced p [] rest h t = t
All-priced p (x ∷ xs) rest h t =
    (h x (ground arith), All-priced p xs rest (λ a m. h a (ground (arith, m))) t)

pub All-offers :
    {P : ℕ → Type 0} (q : Queues)
    → ((a : ℕ) → 0 < count a (slots q) → P a)
    → All (λ e. P e.1) (offers q)
All-offers [] h = tt
All-offers ((p, xs) ∷ q) h =
    All-priced p xs (offers q) (λ a m. h a (omega (arith, m, count-append a xs (slots q))))
      (All-offers q (λ a m. h a (omega (arith, m, count-append a xs (slots q)))))

-- The plan reads the records of the offers, and of the taker not what is filled.
pub plan-kept :
    (orders orders' : Orders) (taker : Order) (n : ℕ) (os : List (ℤ × ℕ)) (need : ℕ)
    → All (λ e. orders' e.1 ≡ orders e.1) os
    → plan orders' (record taker { filled_qty = n }) os need ≡ plan orders taker os need
plan-kept orders orders' taker n [] need h = refl
plan-kept orders orders' taker n ((p, o) ∷ os) need h =
    let same = refuses-filled taker n p in
    let rest =
      plan-kept orders orders' taker n os (need - qty_min need (remaining (orders o))) h.1 in
    rw (h.0, same, rest) refl
