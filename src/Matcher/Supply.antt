-- ===== src/Matcher/Supply.antt =====
-- The quantity within a taker's reach in the rounds of `Matcher::match`.
use multi_instrument_orderbo.Prelude.{
  ℕ, ◌+◌, ◌≤◌, ◌<◌, ◌≡◌, refl, ap, ◌∙◌, none, List, [], ◌∷◌, ℤ, count, count-append, inl, inr,
  arith,
}
use multi_instrument_orderbo.Types.{Order, Trade, opposite, remaining}
use multi_instrument_orderbo.OrderBook.{Orders}
use multi_instrument_orderbo.OrderBook.View.{Queues, View, slots, with_queues_self, count-side}
use multi_instrument_orderbo.OrderBook.Pop.{drop_first}
use multi_instrument_orderbo.OrderBook.Query.{wanted}
use multi_instrument_orderbo.Matcher.{State, order, refuses, next_maker, fill_of}
use multi_instrument_orderbo.Matcher.Step.{
  Ready, Closed, Round, full, no_maker, too_dear, next_maker-Stopped,
}
use multi_instrument_orderbo.Matcher.Run.{Rounds, done, more}
use multi_instrument_orderbo.Matcher.Taker.{same_side, same_refusals, less_wanted, none_wanted}
use multi_instrument_orderbo.Matcher.Liquidity.{available}

-- The orders within reach want at least what the taker does.
abbrev pub Supplied : ℕ → State → View → Type 0
Supplied taker w v =
    remaining (order w taker)
    ≤ available w.pool.storage (order w taker) (v (opposite (order w taker).side))

module _ (orders orders' : Orders) where
  -- Orders that are as they were want what they did.
  wanted-kept :
      (xs : List ℕ)
      → ((a : ℕ) → 0 < count a xs → orders' a ≡ orders a)
      → wanted orders' xs ≡ wanted orders xs
  wanted-kept [] h = refl
  wanted-kept (x ∷ xs) h =
      let head = ap remaining (h x (ground arith)) in
      omega (arith, head, wanted-kept xs (λ a m. h a (ground (arith, m))))

  pub available-kept :
      (taker taker' : Order) (q : Queues)
      → ((p : ℤ) → refuses taker' p ≡ refuses taker p)
      → ((a : ℕ) → 0 < count a (slots q) → orders' a ≡ orders a)
      → available orders' taker' q ≡ available orders taker q
  available-kept taker taker' [] same h = refl
  available-kept taker taker' ((p, xs) ∷ q) same h =
      let front = wanted-kept xs (λ a m. h a (omega (arith, count-append a xs (slots q), m))) in
      let back =
        available-kept taker taker' q same
          (λ a m. h a (omega (arith, count-append a xs (slots q), m))) in
      ground (arith, same p, front, back)

available-drop_first :
    (orders : Orders) (taker : Order) (p : ℤ) (x : ℕ) (xs : List ℕ) (q : Queues)
    → available orders taker ((p, x ∷ xs) ∷ q)
      ≤ remaining (orders x) + available orders taker (drop_first p xs q)
available-drop_first orders taker p x [] q = ground arith
available-drop_first orders taker p x (y ∷ ys) q = ground arith

module _ (taker maker : ℕ) (w : State) (v : View) (ready : Ready taker w v)
    (r : Round taker maker w v) where
  -- A round that leaves the maker in the book fills the taker.
  Supplied-full :
      (order w taker).filled_qty + fill_of taker maker w ≡ (order w taker).initial_qty
      → Supplied taker r.after r.view
  Supplied-full e = omega (arith, none_wanted taker maker w v ready r e)

  -- The maker that leaves has given all that it still wanted.
  Supplied-Closed :
      Supplied taker w v → Closed taker maker w r.after v r.view → Supplied taker r.after r.view
  Supplied-Closed h c =
      let opp = opposite (order w taker).side in
      let left = drop_first c.price c.queue c.others in
      let at_opp : r.view opp ≡ left = ap (λ u. u opp) c.view_after ∙ with_queues_self opp left v in
      let among : (a : ℕ) → 0 < count a (slots left) → order r.after a ≡ order w a = λ a m.
        c.orders_kept a
          (omega (arith, count-side a opp r.view, ap (λ q. count a (slots q)) at_opp, m)) in
      let supply =
        ap (λ s. available r.after.pool.storage (order r.after taker) (r.view (opposite s)))
          (same_side taker maker w v ready r)
        ∙ ap (available r.after.pool.storage (order r.after taker)) at_opp
        ∙ available-kept w.pool.storage r.after.pool.storage (order w taker) (order r.after taker)
            left (same_refusals taker maker w v ready r) among in
      omega (
        arith,
        h,
        ap (available w.pool.storage (order w taker)) c.top,
        available-drop_first w.pool.storage (order w taker) c.price maker c.queue c.others,
        c.maker_closed,
        less_wanted taker maker w v ready r,
        supply,
      )

  Supplied-Round : Supplied taker w v → Supplied taker r.after r.view
  Supplied-Round h = elim r.progress [
    | inl (whole, same, book) ↦ Supplied-full whole
    | inr c ↦ Supplied-Closed h c
  ]

pub Supplied-Rounds :
    (taker : ℕ) (w' : State) (v' : View) (w : State) (v : View) (ts : List Trade)
    → Rounds taker w' v' w v ts
    → Supplied taker w v
    → Supplied taker w' v'
Supplied-Rounds taker w' v' w v ts done h = h
Supplied-Rounds taker w' v' w v ts (more {ts = rest} maker ready e r rs) h =
    Supplied-Rounds taker w' v' r.after r.view rest rs (Supplied-Round taker maker w v ready r h)

-- Where something is within reach, `match` does not end with something wanted.
pub Supplied-stopped :
    (taker : ℕ) (w : State) (v : View)
    → Ready taker w v
    → next_maker taker w ≡ none
    → Supplied taker w v
    → remaining (order w taker) ≡ 0
Supplied-stopped taker w v r e h = elim (next_maker-Stopped taker w v r e) [
  | full nothing ↦ nothing
  | no_maker empty ↦ omega (arith, h, ap (available w.pool.storage (order w taker)) empty)
  | too_dear p xs q top refused ↦
      ground (arith, h, ap (available w.pool.storage (order w taker)) top, refused)
]
