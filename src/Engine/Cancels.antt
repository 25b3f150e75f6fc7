-- ===== src/Engine/Cancels.antt =====
-- `Engine::cancel` over the books of all instruments.
use multi_instrument_orderbo.Prelude.{
  ℕ, ◌+◌, ◌<◌, ◌≡◌, ◌≢◌, refl, sym, ap, subst, true, some, [], ◌∷◌, count, arith,
}
use multi_instrument_orderbo.HashMap.{lookup}
use multi_instrument_orderbo.OrderBook.View.{View, resting}
use multi_instrument_orderbo.Matcher
use multi_instrument_orderbo.Matcher.{State, Clock, order, set_status, is_refused}
use multi_instrument_orderbo.Matcher.Step.{IsOpen, Untouched}
use multi_instrument_orderbo.Engine.{Slot, Engine, view, put_back}
use multi_instrument_orderbo.Engine.Books.{
  Books, Books-put_back, with_view, with_view_same, with_view_other,
}
use multi_instrument_orderbo.OrderBook.{Locator}
use multi_instrument_orderbo.OrderBook.Uncrossed.{Shrinks-IsUncrossed}
use multi_instrument_orderbo.Pool.Stack.{IsValid}
use multi_instrument_orderbo.Matcher.Cancel.{CancelDone, cancel-CancelDone}
use multi_instrument_orderbo.Engine.{cancel}

cancel-runs :
    (instrument id : ℕ) (e : Engine) (sl : Slot) (w : State)
    → lookup instrument e.matchers ≡ some sl
    → Matcher.cancel id (view sl e) ≡ some (w, true)
    → cancel instrument id e ≡ some (put_back instrument w e, true)
unfolding cancel
cancel-runs instrument id e sl w here ran = rw (here, cancel) (rw ran refl)

-- What `cancel` of a resting order leaves of all books.
pub record Withdrawn (instrument id o : ℕ) (e : Engine) (views : ℕ → View) : Type 0 where
  pub after : Engine
  pub views_after : ℕ → View
  pub runs : cancel instrument id e ≡ some (after, true)
  pub books : Books after views_after
  pub others_kept : (j : ℕ) → instrument ≢ j → views_after j ≡ views j
  pub gone :
      (a : ℕ)
      → count a (resting (views_after instrument)) + count a (o ∷ [])
        ≡ count a (resting (views instrument))
  pub pool_valid : IsValid after.pool

module _ (k id : ℕ) (e : Engine) (sl : Slot) (views : ℕ → View) (loc : Locator)
    (books : Books e views) (here : lookup k e.matchers ≡ some sl)
    (d : CancelDone id loc.order (view sl e) (views k)) where
  -- The order of another book is not the one that is cancelled.
  elsewhere : (j a : ℕ) → k ≢ j → 0 < count a (resting (views j)) → Untouched (view sl e) d.after a
  elsewhere j a ne m =
      let not_here : a ≢ loc.order =
        λ f. absurd (ground (arith, f, m, d.gone a, books.apart k j a ne)) in
      (d.links_kept a not_here (omega (arith, m, books.apart k j a ne)), d.orders_kept a not_here)

  IsOpen-here : (a : ℕ) → 0 < count a (resting d.view) → IsOpen (order d.after a)
  IsOpen-here a m =
      let unique = (books.models k sl here).unique a in
      let not_here : a ≢ loc.order = λ f. absurd (ground (arith, f, m, d.gone a, unique)) in
      subst IsOpen (sym (d.orders_kept a not_here))
        (books.open_orders k a (omega (arith, m, d.gone a)))

  Withdrawn-of : Withdrawn k id loc.order e views
  Withdrawn-of = record {
    after = put_back k d.after e;
    views_after = with_view k d.view views;
    runs = cancel-runs k id e sl d.after here d.runs;
    books =
        Books-put_back k d.after d.view e sl views books here d.models IsOpen-here
          (Shrinks-IsUncrossed (views k) d.view d.shrinks (books.uncrossed k)) elsewhere
          (λ j a ne. omega (arith, d.gone a, books.apart k j a ne));
    others_kept = λ j ne. with_view_other k j d.view views ne;
    gone = λ a.
        omega
          (arith, d.gone a, ap (λ u. count a (resting u)) (with_view_same k k d.view views refl));
    pool_valid = d.pool_valid;
  }

-- Over the books of all instruments, each a model of its orders, all of them open, with no bid at or
-- above an ask, and no slot in two books: where the index of the instrument's book has the id, the
-- pool is valid and at least one of its slots is out, `cancel` answers `true`, takes that order and no other out of that book, leaves the views of the other
-- instruments, and keeps every book a model of its orders, all of them open, with no bid at or above
-- an ask, and no slot in two books.
pub cancel-Withdrawn :
    (k id : ℕ) (e : Engine) (sl : Slot) (views : ℕ → View) (loc : Locator)
    → Books e views
    → lookup k e.matchers ≡ some sl
    → lookup id sl.book.order_map ≡ some loc
    → IsValid e.pool
    → e.pool.stack_top < e.pool.capacity
    → Withdrawn k id loc.order e views
cancel-Withdrawn k id e sl views loc books here entry valid out =
    Withdrawn-of k id e sl views loc books here
      (cancel-CancelDone id (view sl e) (views k) loc (books.models k sl here) valid out entry)
