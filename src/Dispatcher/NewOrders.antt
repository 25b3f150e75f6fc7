-- ===== src/Dispatcher/NewOrders.antt =====
-- `Dispatcher::handle_new_order` over the books of all instruments and the pool: it leaves all of
-- them ready for the next order.
use multi_instrument_orderbo.Prelude.{
  ℕ, suc, ◌+◌, ◌≤◌, ◌<◌, ◌≡◌, ◌≢◌, refl, sym, ap, ◌∙◌, subst, true, false, some, [], ◌∷◌, count,
  arith, inl, inr, Bool-cases, u64_mod,
}
use native.Mathlib.Decide.{ℕ_discrete}
use multi_instrument_orderbo.HashMap.{lookup}
use multi_instrument_orderbo.Types.{Order, is_terminal}
use multi_instrument_orderbo.Pool.{Pool, free}
use multi_instrument_orderbo.Pool.Stack.{IsValid, Acquired, acquire-Acquired, release-Released}
use multi_instrument_orderbo.OrderBook.View.{View, resting}
use multi_instrument_orderbo.Session.{Session, active}
use multi_instrument_orderbo.Protocol.{NewOrderMsg}
use multi_instrument_orderbo.Matcher.{is_malformed}
use multi_instrument_orderbo.Matcher.Submit.{Submitted, submit-Submitted}
use multi_instrument_orderbo.Matcher.Lending.{
  Submitted-slots, Submitted-capacity, Submitted-slots_out,
}
use multi_instrument_orderbo.Engine.{Slot, Engine, view, put_back}
use multi_instrument_orderbo.Engine.Books.{Books, with_view, with_view_same, with_view_other}
use multi_instrument_orderbo.Engine.Submits.{Submitted-Books}
use multi_instrument_orderbo.Dispatcher.{
  Readings, is_active, order_of, report, release_terminal, handle_new_order,
}
use multi_instrument_orderbo.Dispatcher.Placing.{
  IsTrading, placed, links_kept, placed-order, placed-Ready,
}
use multi_instrument_orderbo.Dispatcher.Orders.{IsFillable, accepts-placed}
use multi_instrument_orderbo.Dispatcher.Handled.{Outcome-terminal, handled}
use multi_instrument_orderbo.Dispatcher.Market.{IsMarket, IsMarket-IsTrading, Books-aside}

-- What a new order leaves of the market.
pub record KeepsMarket (c : Readings) (m : NewOrderMsg) (s : Session) (e : Engine)
    (views : ℕ → View) : Type 0 where
  pub session : Session
  pub after : Engine
  pub views_after : ℕ → View
  pub runs : handle_new_order (suc e.pool.capacity) c m s e ≡ some (session, after)
  pub market : IsMarket after views_after
  pub others_kept : (j : ℕ) → m.instrument_id ≢ j → views_after j ≡ views j

module _ (c : Readings) (m : NewOrderMsg) (s : Session) (sl : Slot) (e : Engine) (views : ℕ → View)
    (mk : IsMarket e views) (here : lookup m.instrument_id e.matchers ≡ some sl)
    (g : Acquired e.pool) where
  abbrev k : ℕ
  k = m.instrument_id

  abbrev r : Order
  r = order_of m s c

  abbrev t : IsTrading sl e (views k)
  t = IsMarket-IsTrading e views k sl mk here

  abbrev e1 : Engine
  e1 = placed r sl e (views k) t g

  aside : (j : ℕ) → count g.slot (resting (views j)) ≡ 0
  aside j =
      let one : count g.slot (g.slot ∷ []) ≡ 1 = ground arith in
      omega (arith, mk.apart j g.slot, g.taken g.slot, one)

  placed-Books : Books e1 views
  placed-Books = Books-aside e views e1.links e1.pool mk.books (λ j a h.
      let ne : g.slot ≢ a =
        λ f. absurd (omega (arith, h, ap (λ i. count i (resting (views j))) f, aside j)) in
      (links_kept r sl e (views k) t g a ne, ground (arith, ne, ap (λ f. f a) g.blank)))

  module _ (sub : Submitted (suc e1.pool.capacity) c.clock g.slot (view sl e1) (views k)) where
    abbrev matched : Engine
    matched = put_back (e1.pool.storage g.slot).instrument sub.after e1

    matched-Books : Books matched (with_view k sub.view views)
    matched-Books =
        let key : (e1.pool.storage g.slot).instrument ≡ k =
          ap (λ x. x.instrument) (placed-order r sl e (views k) t g) in
        subst (λ i. Books (put_back i sub.after e1) (with_view k sub.view views)) (sym key)
          (Submitted-Books (suc e1.pool.capacity) c.clock g.slot e1 sl views k placed-Books aside
            here sub)

    -- The slots that are free or rest in the order's book were so before, but for the order's own.
    IsMarket-of :
        (pool : Pool)
        → Books (record matched { pool = pool }) (with_view k sub.view views)
        → IsValid pool
        → pool.capacity ≡ e.pool.capacity
        → ((a : ℕ)
            → count a (free pool) + count a (resting sub.view)
              ≤ count a (free e.pool) + count a (resting (views k)))
        → IsMarket (record matched { pool = pool }) (with_view k sub.view views)
    IsMarket-of pool books valid size within = record {
      books = books;
      pool_valid = valid;
      apart = λ j a. elim (ℕ_discrete k j) [
        | yes same ↦
            rw (with_view_same k j sub.view views same) (omega (arith, within a, mk.apart k a))
        | no ne ↦
            rw (with_view_other k j sub.view views ne)
              (omega (arith, within a, mk.apart k a, mk.apart j a, mk.books.apart k j a ne))
      ];
      below = λ j a h.
          let out = mk.below k a (omega (arith, h, size)) in
          elim (ℕ_discrete k j) [
            | yes same ↦ rw (with_view_same k j sub.view views same) (omega (arith, within a, out))
            | no ne ↦
                rw (with_view_other k j sub.view views ne)
                  (omega (arith, within a, out, mk.below j a (omega (arith, h, size))))
          ];
    }

    same_capacity : sub.after.pool.capacity ≡ e.pool.capacity
    same_capacity =
        Submitted-capacity (suc e1.pool.capacity) c.clock g.slot (view sl e1) (views k) sub
        ∙ g.capacity_kept

    KeepsMarket-of : is_active s.state ≡ true → KeepsMarket c m s e views
    unfolding release_terminal
    KeepsMarket-of on = elim (Bool-cases (is_terminal (sub.after.pool.storage g.slot))) [
      | inl f ↦
          let d = release-Released g.slot sub.after.pool sub.pool_valid sub.lent in
          let out = Outcome-terminal g.slot _ sub.view sub.outcome f in
          record {
            session = report m (matched.pool.storage g.slot).status sub.trades matched s;
            after = record matched { pool = d.pool };
            views_after = with_view k sub.view views;
            runs =
                handled c m s sl e (views k) t g sub _ on here
                  (rw (f, release_terminal) (rw d.runs refl));
            market =
                IsMarket-of d.pool
                  (Books-aside matched (with_view k sub.view views) matched.links d.pool
                    matched-Books (λ j a h. ((refl, refl), ap (λ x. x a) d.storage_kept)))
                  d.valid (d.capacity_kept ∙ same_capacity)
                  (λ a. omega (
                    arith,
                    Submitted-slots_out (suc e1.pool.capacity) c.clock g.slot (view sl e1) (views k)
                        sub out a,
                    d.freed a,
                    g.taken a,
                  ));
            others_kept = λ j ne. with_view_other k j sub.view views ne;
          }
      | inr f ↦ record {
        session = report m (matched.pool.storage g.slot).status sub.trades matched s;
        after = matched;
        views_after = with_view k sub.view views;
        runs = handled c m s sl e (views k) t g sub matched on here (rw (f, release_terminal));
        market = IsMarket-of sub.after.pool matched-Books sub.pool_valid same_capacity (λ a. omega (
          arith,
          Submitted-slots (suc e1.pool.capacity) c.clock g.slot (view sl e1) (views k) sub a,
          g.taken a,
        ));
        others_kept = λ j ne. with_view_other k j sub.view views ne;
      }
    ]

-- While all books are in order, and the slots that are free or rest in a book lie below the pool's
-- capacity with none twice among these: in an active session, for an instrument of the engine and
-- while a slot is free, an order that is not malformed and, where it is fill-or-kill, finds as much as
-- it wants among the resting orders up to the first price it refuses, is handled without a fault, and
-- all that is so again. The views of the other instruments stay.
pub handle_new_order-KeepsMarket :
    (c : Readings) (m : NewOrderMsg) (s : Session) (e : Engine) (sl : Slot) (views : ℕ → View)
    → s.state ≡ active
    → lookup m.instrument_id e.matchers ≡ some sl
    → IsMarket e views
    → 0 < e.pool.stack_top
    → m.quantity < u64_mod
    → is_malformed (order_of m s c) sl.book ≡ false
    → IsFillable (order_of m s c) e (views m.instrument_id)
    → KeepsMarket c m s e views
handle_new_order-KeepsMarket c m s e sl views on here mk some_free word sound fillable =
    let v = views m.instrument_id in
    let r = order_of m s c in
    let g = acquire-Acquired e.pool mk.pool_valid some_free in
    let t = IsMarket-IsTrading e views m.instrument_id sl mk here in
    let ready = placed-Ready r sl e v t g refl word in
    KeepsMarket-of c m s sl e views mk here g
      (submit-Submitted c.clock g.slot (view sl (placed r sl e v t g)) v ready
        (accepts-placed r sl e v t g ready sound fillable))
      (ap is_active on)
