-- ===== src/Engine/Submits.antt =====
-- `Engine::submit` over the books of all instruments.
use multi_instrument_orderbo.Prelude.{
  ℕ, suc, ◌+◌, ◌≤◌, ◌<◌, ◌≡◌, ◌≢◌, refl, sym, ap, ◌∙◌, subst, true, false, some, List, [], ◌∷◌,
  count, arith, inl, inr, Bool-cases,
}
use native.Mathlib.Decide.{ℕ_discrete}
use multi_instrument_orderbo.HashMap.{lookup}
use multi_instrument_orderbo.Types.{Trade, rejected}
use multi_instrument_orderbo.OrderBook.View.{View, resting}
use multi_instrument_orderbo.Matcher
use multi_instrument_orderbo.Matcher.Conclude.{Models-status}
use multi_instrument_orderbo.Matcher.{State, Clock, order, set_status, is_refused}
use multi_instrument_orderbo.Matcher.Step.{IsOpen, Ready, Untouched}
use multi_instrument_orderbo.Matcher.Submit.{Submitted, submit-Submitted, submit_refused}
use multi_instrument_orderbo.Matcher.Outside.{
  Submitted-within, Submitted-Untouched, Submitted-IsOpen,
}
use multi_instrument_orderbo.Matcher.Uncrossed.{Submitted-IsUncrossed}
use multi_instrument_orderbo.Engine.{Slot, Engine, view, put_back, submit}
use multi_instrument_orderbo.Engine.Routing.{submit-runs}
use multi_instrument_orderbo.Engine.Books.{
  Books, Books-put_back, with_view, with_view_same, with_view_other,
}

-- What `submit` leaves of all books.
pub record KeepsBooks (c : Clock) (o : ℕ) (e : Engine) (views : ℕ → View) : Type 0 where
  pub after : Engine
  pub trades : List Trade
  pub views_after : ℕ → View
  pub runs : submit (suc e.pool.capacity) c o e ≡ some (after, trades)
  pub books : Books after views_after
  pub others_kept : (j : ℕ) → (e.pool.storage o).instrument ≢ j → views_after j ≡ views j
  pub within :
      (a : ℕ)
      → count a (resting (views_after (e.pool.storage o).instrument))
        ≤ count a (o ∷ []) + count a (resting (views (e.pool.storage o).instrument))

-- An order that rests in no book, submitted for the instrument `k`.
module _ (o : ℕ) (e : Engine) (sl : Slot) (views : ℕ → View) (k : ℕ) (books : Books e views)
    (aside : (j : ℕ) → count o (resting (views j)) ≡ 0) where
  elsewhere :
      (w : State)
      → ((a : ℕ) → a ≢ o → count a (resting (views k)) ≡ 0 → Untouched (view sl e) w a)
      → (j a : ℕ) → k ≢ j
      → 0 < count a (resting (views j))
      → Untouched (view sl e) w a
  elsewhere w untouched j a ne m =
      untouched a (λ f. absurd (omega (arith, m, ap (λ i. count i (resting (views j))) f, aside j)))
        (omega (arith, m, books.apart k j a ne))

  -- The taker rests in no other book, and the rest was there before.
  apart_from :
      (v : View)
      → ((a : ℕ) → count a (resting v) ≤ 1)
      → ((a : ℕ) → count a (resting v) ≤ count a (o ∷ []) + count a (resting (views k)))
      → (j a : ℕ) → k ≢ j
      → count a (resting v) + count a (resting (views j)) ≤ 1
  apart_from v unique within j a ne = elim (ℕ_discrete a o) [
    | yes same ↦
        let out = ap (λ i. count i (resting (views j))) same ∙ aside j in
        omega (arith, unique a, out)
    | no other ↦ ground (arith, within a, books.apart k j a ne, other)
  ]

pub Submitted-Books :
    (fuel : ℕ) (c : Clock) (o : ℕ) (e : Engine) (sl : Slot) (views : ℕ → View) (k : ℕ)
    → Books e views
    → ((j : ℕ) → count o (resting (views j)) ≡ 0)
    → lookup k e.matchers ≡ some sl
    → (s : Submitted fuel c o (view sl e) (views k))
    → Books (put_back k s.after e) (with_view k s.view views)
Submitted-Books fuel c o e sl views k books aside here s =
    Books-put_back k s.after s.view e sl views books here s.models
      (Submitted-IsOpen fuel c o (view sl e) (views k) s)
      (Submitted-IsUncrossed fuel c o (view sl e) (views k) s (books.uncrossed k))
      (elsewhere o e sl views k books aside s.after
        (Submitted-Untouched fuel c o (view sl e) (views k) s))
      (apart_from o e sl views k books aside s.view s.models.unique
        (Submitted-within fuel c o (view sl e) (views k) s))

module _ (c : Clock) (o : ℕ) (e : Engine) (sl : Slot) (views : ℕ → View) (books : Books e views)
    (aside : (j : ℕ) → count o (resting (views j)) ≡ 0)
    (here : lookup (e.pool.storage o).instrument e.matchers ≡ some sl)
    (ready : Ready o (view sl e) (views (e.pool.storage o).instrument)) where
  abbrev k : ℕ
  k = (e.pool.storage o).instrument

  KeepsBooks-of :
      (w : State) (v : View) (trades : List Trade)
      → Matcher.submit (suc e.pool.capacity) c o (view sl e) ≡ some (w, trades)
      → ((a : ℕ) → count a (resting v) ≤ count a (o ∷ []) + count a (resting (views k)))
      → Books (put_back k w e) (with_view k v views)
      → KeepsBooks c o e views
  KeepsBooks-of w v trades ran within kept = record {
    after = put_back k w e;
    trades = trades;
    views_after = with_view k v views;
    runs = submit-runs (suc e.pool.capacity) c o e sl w trades here ran;
    books = kept;
    others_kept = λ j ne. with_view_other k j v views ne;
    within = λ a.
        omega (arith, within a, ap (λ u. count a (resting u)) (with_view_same k k v views refl));
  }

  accepted-KeepsBooks : is_refused o (view sl e) ≡ false → KeepsBooks c o e views
  accepted-KeepsBooks f =
      let fuel = suc e.pool.capacity in
      let s = submit-Submitted c o (view sl e) (views k) ready f in
      KeepsBooks-of s.after s.view s.trades s.runs
        (Submitted-within fuel c o (view sl e) (views k) s)
        (Submitted-Books fuel c o e sl views k books aside here s)

  rejected_state : State
  rejected_state = record (view sl e) { pool = set_status o rejected e.pool }

  rejected-IsOpen : (a : ℕ) → 0 < count a (resting (views k)) → IsOpen (order rejected_state a)
  unfolding rejected_state
  rejected-IsOpen a m =
      let ne : a ≢ o =
        λ f. absurd (omega (arith, m, ap (λ i. count i (resting (views k))) f, aside k)) in
      let same : order rejected_state a ≡ e.pool.storage a = ground (arith, ne) in
      subst IsOpen (sym same) (books.open_orders k a m)

  rejected-KeepsBooks : is_refused o (view sl e) ≡ true → KeepsBooks c o e views
  unfolding rejected_state
  rejected-KeepsBooks f =
      KeepsBooks-of rejected_state (views k) []
        (submit_refused (suc e.pool.capacity) c o (view sl e) f) (λ a. omega arith)
        (Books-put_back k rejected_state (views k) e sl views books here
          (Models-status o (view sl e) (views k) ready rejected) rejected-IsOpen (books.uncrossed k)
          (elsewhere o e sl views k books aside rejected_state
            (λ a ne out. ((refl, refl), ground (arith, ne))))
          (λ j a ne. books.apart k j a ne))

-- Over the books of all instruments, which share the links and the pool, each a model of its orders,
-- all of them open, with no bid at or above an ask, and no slot in two books: an order that rests in
-- none of them, of an instrument that the engine has, that is not overfilled and has a quantity below
-- 2 ^ 64, with a valid pool whose stack has room for the resting orders of that book and one more.
-- `submit`, whether it refuses the order or not, runs without a fault and keeps all of this for the
-- books. The views of the other instruments stay, and that of the order's own takes in no slot but
-- the order's.
pub submit-KeepsBooks :
    (c : Clock) (o : ℕ) (e : Engine) (sl : Slot) (views : ℕ → View)
    → Books e views
    → ((j : ℕ) → count o (resting (views j)) ≡ 0)
    → lookup (e.pool.storage o).instrument e.matchers ≡ some sl
    → Ready o (view sl e) (views (e.pool.storage o).instrument)
    → KeepsBooks c o e views
submit-KeepsBooks c o e sl views books aside here ready =
    elim (Bool-cases (is_refused o (view sl e))) [
      | inl f ↦ rejected-KeepsBooks c o e sl views books aside here ready f
      | inr f ↦ accepted-KeepsBooks c o e sl views books aside here ready f
    ]
