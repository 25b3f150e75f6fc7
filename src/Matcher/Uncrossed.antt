-- ===== src/Matcher/Uncrossed.antt =====
-- The book of a matcher stays uncrossed: `Matcher::submit` and `Matcher::cancel` leave no bid at or
-- above an ask.
use multi_instrument_orderbo.Prelude.{
  ℕ, suc, ◌<◌, ◌≡◌, sym, none, subst, true, false, Bool-cases, some, List, [], ◌∷◌, ℤ, leb_ℤ, inl,
  inr, arith,
}
use multi_instrument_orderbo.Types.{Order, Side, buy, sell, Trade, opposite, rejected}
use multi_instrument_orderbo.OrderedMap.{assign, Behind, IsSorted}
use multi_instrument_orderbo.OrderBook.{price_order, better, best}
use multi_instrument_orderbo.OrderBook.View.{Queues, View, Models, with_queues}
use multi_instrument_orderbo.OrderBook.Pop.{drop_first}
use multi_instrument_orderbo.OrderBook.Add.{enqueue}
use multi_instrument_orderbo.OrderBook.Uncrossed.{
  HasPrice, IsUncrossed, IsQuoted, Shrinks, Shrinks-IsUncrossed, Shrinks-with_queues,
  HasPrice-drop_first, HasPrice-assign, best-IsQuoted,
}
use multi_instrument_orderbo.Matcher.{
  State, Clock, order, set_status, prices_cross, refuses, next_maker, is_refused, submit,
}
use multi_instrument_orderbo.Matcher.Step.{
  Ready, Round, Stopped, full, no_maker, too_dear, next_maker-Stopped,
}
use multi_instrument_orderbo.Matcher.Run.{Rounds, done, more}
use multi_instrument_orderbo.Matcher.Conclude.{Lands, stays, joins, Models-status}
use multi_instrument_orderbo.Matcher.Taker.{none_left}
use multi_instrument_orderbo.Matcher.Submit.{Submitted, submit-Submitted, submit_refused}

-- A queue at a price that crosses none of the other side.
pub IsUncrossed-assign :
    (s : Side) (k : ℤ) (ys : List ℕ) (v : View)
    → IsUncrossed v
    → ((f : ℤ) → HasPrice f (v (opposite s)) → prices_cross s k f ≡ false)
    → IsUncrossed (with_queues s (assign (price_order s) k ys (v s)) v)
unfolding prices_cross
IsUncrossed-assign buy k ys v u h bid ask hb ha = elim (HasPrice-assign buy k bid ys (v buy) hb) [
  | inl e ↦ subst (λ i. leb_ℤ ask i ≡ false) e (h ask ha)
  | inr old ↦ u bid ask old ha
]
IsUncrossed-assign sell k ys v u h bid ask hb ha =
    elim (HasPrice-assign sell k ask ys (v sell) ha) [
      | inl e ↦ subst (λ i. leb_ℤ i bid ≡ false) e (h bid hb)
      | inr old ↦ u bid ask hb old
    ]

Shrinks-Round :
    (taker maker : ℕ) (w : State) (v : View) (r : Round taker maker w v) → Shrinks v r.view
Shrinks-Round taker maker w v r = elim r.progress [
  | inl (whole, same, book) ↦ λ s k h. subst (λ u. HasPrice k (u s)) same h
  | inr c ↦
      let opp = opposite (order w taker).side in
      subst (Shrinks v) (sym c.view_after) (
        Shrinks-with_queues opp (drop_first c.price c.queue c.others) v (λ k h.
          subst (HasPrice k) (sym c.top) (HasPrice-drop_first k c.price maker c.queue c.others h)))
]

Shrinks-Rounds :
    (taker : ℕ) (w' : State) (v' : View) (w : State) (v : View) (ts : List Trade)
    → Rounds taker w' v' w v ts
    → Shrinks v v'
Shrinks-Rounds taker w' v' w v ts done s k h = h
Shrinks-Rounds taker w' v' w v ts (more {ts = rest} maker ready e r rs) s k h =
    Shrinks-Round taker maker w v r s k (Shrinks-Rounds taker w' v' r.after r.view rest rs s k h)

-- A price behind one that does not cross does not cross either.
dearer :
    (s : Side) (limit p f : ℤ)
    → prices_cross s limit p ≡ false
    → better (opposite s) p f ≡ true
    → prices_cross s limit f ≡ false
unfolding prices_cross
dearer buy limit p f e b = ground arith
dearer sell limit p f e b = ground arith

HasPrice-Behind :
    (s : Side) (p f : ℤ) (q : Queues)
    → Behind (price_order s) p q
    → HasPrice f q
    → better s p f ≡ true
HasPrice-Behind s p f [] b h = absurd h
HasPrice-Behind s p f ((j, xs) ∷ q) b (inl e) = subst (λ i. better s p i ≡ true) e b.0
HasPrice-Behind s p f ((j, xs) ∷ q) b (inr h) = HasPrice-Behind s p f q b.1 h

refuses-prices_cross :
    (o : Order) (p : ℤ) → refuses o p ≡ true → prices_cross o.side o.limit_price p ≡ false
unfolding refuses
refuses-prices_cross o p e = ground arith

-- Where `match` ends with something wanted, the taker's price crosses none of the other side.
Stopped-apart :
    (taker : ℕ) (w : State) (v : View)
    → Ready taker w v
    → Stopped taker w v
    → (order w taker).filled_qty < (order w taker).initial_qty
    → (f : ℤ) → HasPrice f (v (opposite (order w taker).side))
    → prices_cross (order w taker).side (order w taker).limit_price f ≡ false
Stopped-apart taker w v r (full nothing) less f h =
    absurd (omega (arith, less, none_left (order w taker) r.taker_filled r.taker_word nothing))
Stopped-apart taker w v r (no_maker empty) less f h = absurd (subst (HasPrice f) empty h)
Stopped-apart taker w v r (too_dear p xs q top refused) less f h =
    let t = order w taker in
    let apart = refuses-prices_cross t p refused in
    elim (subst (HasPrice f) top h) [
      | inl e ↦ subst (λ i. prices_cross t.side t.limit_price i ≡ false) e apart
      | inr later ↦
          let behind =
            (subst (IsSorted (price_order (opposite t.side))) top (r.models.sorted _)).0 in
          dearer t.side t.limit_price p f apart
            (HasPrice-Behind (opposite t.side) p f q behind later)
    ]

IsUncrossed-enqueue :
    (orders : ℕ → Order) (taker : ℕ) (w : State) (v : View)
    → (orders taker).side ≡ (order w taker).side
    → (orders taker).limit_price ≡ (order w taker).limit_price
    → IsUncrossed v
    → ((f : ℤ)
        → HasPrice f (v (opposite (order w taker).side))
        → prices_cross (order w taker).side (order w taker).limit_price f ≡ false)
    → IsUncrossed (enqueue orders taker v)
unfolding enqueue
IsUncrossed-enqueue orders taker w v side price u apart =
    IsUncrossed-assign (orders taker).side (orders taker).limit_price _ v u
      (λ f h. rw (side, price) (apart f (subst (λ s. HasPrice f (v (opposite s))) side h)))

Lands-IsUncrossed :
    (taker : ℕ) (w : State) (v v' : View)
    → Ready taker w v
    → next_maker taker w ≡ none
    → IsUncrossed v
    → Lands taker w v v'
    → IsUncrossed v'
Lands-IsUncrossed taker w v v' r e u stays = u
Lands-IsUncrossed taker w v v' r e u (joins orders side price less not_market) =
    IsUncrossed-enqueue orders taker w v side price u
      (Stopped-apart taker w v r (next_maker-Stopped taker w v r e) less)

-- A book that `submit` has matched an order against stays uncrossed.
pub Submitted-IsUncrossed :
    (fuel : ℕ) (c : Clock) (taker : ℕ) (w : State) (v : View) (s : Submitted fuel c taker w v)
    → IsUncrossed v
    → IsUncrossed s.view
Submitted-IsUncrossed fuel c taker w v s u =
    let m = s.matched in
    Lands-IsUncrossed taker m.after m.view s.view m.ready m.stopped
      (Shrinks-IsUncrossed v m.view (Shrinks-Rounds taker m.after m.view w v m.new m.rounds) u)
      s.lands

-- What `submit` leaves: a book that still models a view, with no bid at or above an ask.
pub record LeavesUncrossed (c : Clock) (taker : ℕ) (w : State) : Type 0 where
  pub after : State
  pub trades : List Trade
  pub view : View
  pub runs : submit (suc w.pool.capacity) c taker w ≡ some (after, trades)
  pub models : Models after.pool.storage after.links after.book view
  pub uncrossed : IsUncrossed view
  pub quoted : IsQuoted (best buy after.book) (best sell after.book)

module _ (c : Clock) (taker : ℕ) (w : State) (v : View) (r : Ready taker w v)
    (u : IsUncrossed v) where
  rejected-LeavesUncrossed : is_refused taker w ≡ true → LeavesUncrossed c taker w
  rejected-LeavesUncrossed e = record {
    after = record w { pool = set_status taker rejected w.pool };
    trades = [];
    view = v;
    runs = submit_refused (suc w.pool.capacity) c taker w e;
    models = Models-status taker w v r rejected;
    uncrossed = u;
    quoted = best-IsQuoted w.pool.storage w.links w.book v r.models u;
  }

  accepted-LeavesUncrossed : is_refused taker w ≡ false → LeavesUncrossed c taker w
  accepted-LeavesUncrossed e =
      let s = submit-Submitted c taker w v r e in
      let left = Submitted-IsUncrossed (suc w.pool.capacity) c taker w v s u in
      record {
        after = s.after;
        trades = s.trades;
        view = s.view;
        runs = s.runs;
        models = s.models;
        uncrossed = left;
        quoted = best-IsQuoted s.after.pool.storage s.after.links s.after.book s.view s.models left;
      }

-- Whatever the order, refused or not, `submit` in a state that is `Ready` and whose book is not
-- crossed leaves a book that is not crossed: `best_bid` is below `best_ask` where both exist.
pub submit-LeavesUncrossed :
    (c : Clock) (taker : ℕ) (w : State) (v : View)
    → Ready taker w v
    → IsUncrossed v
    → LeavesUncrossed c taker w
submit-LeavesUncrossed c taker w v r u = elim (Bool-cases (is_refused taker w)) [
  | inl e ↦ rejected-LeavesUncrossed c taker w v r u e
  | inr e ↦ accepted-LeavesUncrossed c taker w v r u e
]
