-- ===== src/Engine/Books.antt =====
-- The books of all instruments of an `Engine` at once, over the links and the pool that they share.
use multi_instrument_orderbo.Prelude.{
  ℕ, ◌+◌, ◌≤◌, ◌<◌, ◌≡◌, ◌≢◌, sym, ap, ◌∙◌, subst, some, if◌then◌else◌, ◌==◌, count, arith, some-eq,
}
use native.Mathlib.Decide.{ℕ_discrete}
use multi_instrument_orderbo.HashMap.{lookup}
use multi_instrument_orderbo.OrderBook.View.{View, Models, resting}
use multi_instrument_orderbo.OrderBook.Outside.{Models-Same}
use multi_instrument_orderbo.OrderBook.Uncrossed.{IsUncrossed}
use multi_instrument_orderbo.Matcher.{State, order}
use multi_instrument_orderbo.Matcher.Step.{IsOpen, Untouched}
use multi_instrument_orderbo.Engine.{Slot, Engine, view, put_back}
use multi_instrument_orderbo.Engine.Slots.{lookup-replace}

-- Each instrument's book models its view, with orders that are open and no bid at or above an ask,
-- and no slot of the pool rests in two of the books.
pub record Books (e : Engine) (views : ℕ → View) : Type 0 where
  pub models :
      (j : ℕ) (sl : Slot)
      → lookup j e.matchers ≡ some sl
      → Models e.pool.storage e.links sl.book (views j)
  pub open_orders : (j a : ℕ) → 0 < count a (resting (views j)) → IsOpen (e.pool.storage a)
  pub apart : (i j a : ℕ) → i ≢ j → count a (resting (views i)) + count a (resting (views j)) ≤ 1
  pub uncrossed : (j : ℕ) → IsUncrossed (views j)

abbrev pub with_view : ℕ → View → (ℕ → View) → ℕ → View
with_view k v views j = if k == j then v else views j

pub with_view_same : (k j : ℕ) (v : View) (views : ℕ → View) → k ≡ j → with_view k v views j ≡ v
with_view_same k j v views e = ground (arith, e)

pub with_view_other :
    (k j : ℕ) (v : View) (views : ℕ → View) → k ≢ j → with_view k v views j ≡ views j
with_view_other k j v views ne = ground (arith, ne)

-- What a call for the instrument `k` leaves of all books: its own as given, and the slots of the
-- others untouched.
module _ (k : ℕ) (w : State) (v : View) (e : Engine) (sl : Slot) (views : ℕ → View)
    (books : Books e views) (here : lookup k e.matchers ≡ some sl)
    (models : Models w.pool.storage w.links w.book v)
    (open_here : (a : ℕ) → 0 < count a (resting v) → IsOpen (order w a))
    (uncrossed_here : IsUncrossed v)
    (elsewhere : (j a : ℕ) → k ≢ j → 0 < count a (resting (views j)) → Untouched (view sl e) w a)
    (apart_here : (j a : ℕ) → k ≢ j → count a (resting v) + count a (resting (views j)) ≤ 1) where
  own_slot : lookup k (put_back k w e).matchers ≡ some (record { book = w.book; stats = w.stats })
  own_slot =
      ground
        (arith, lookup-replace k k (record { book = w.book; stats = w.stats }) e.matchers, here)

  other_slot : (j : ℕ) → k ≢ j → lookup j (put_back k w e).matchers ≡ lookup j e.matchers
  other_slot j ne =
      ground (arith, lookup-replace k j (record { book = w.book; stats = w.stats }) e.matchers, ne)

  Models-elsewhere :
      (j : ℕ) (sl' : Slot)
      → k ≢ j
      → lookup j e.matchers ≡ some sl'
      → Models w.pool.storage w.links sl'.book (views j)
  Models-elsewhere j sl' ne there =
      Models-Same e.pool.storage w.pool.storage e.links w.links sl'.book (views j)
        (λ a m.
          let (links, same) = elsewhere j a ne m in
          (links, (ap (λ r. r.id) same, ap (λ r. r.side) same, ap (λ r. r.limit_price) same)))
        (books.models j sl' there)

  Models-after :
      (j : ℕ) (sl' : Slot)
      → lookup j (put_back k w e).matchers ≡ some sl'
      → Models w.pool.storage w.links sl'.book (with_view k v views j)
  Models-after j sl' there = elim (ℕ_discrete k j) [
    | yes same ↦
        let slot =
          some-eq (sym own_slot ∙ ap (λ i. lookup i (put_back k w e).matchers) same ∙ there) in
        rw (with_view_same k j v views same)
          (subst (λ x. Models w.pool.storage w.links x.book v) slot models)
    | no ne ↦
        rw (with_view_other k j v views ne)
          (Models-elsewhere j sl' ne (sym (other_slot j ne) ∙ there))
  ]

  IsOpen-after : (j a : ℕ) → 0 < count a (resting (with_view k v views j)) → IsOpen (order w a)
  IsOpen-after j a m = elim (ℕ_discrete k j) [
    | yes same ↦ open_here a (rw (with_view_same k j v views same) at m)
    | no ne ↦
        let there : 0 < count a (resting (views j)) = rw (with_view_other k j v views ne) at m in
        subst IsOpen (sym (elsewhere j a ne there).1) (books.open_orders j a there)
  ]

  apart_after :
      (i j a : ℕ)
      → i ≢ j
      → count a (resting (with_view k v views i)) + count a (resting (with_view k v views j)) ≤ 1
  apart_after i j a ne = elim (ℕ_discrete k i) [
    | yes same ↦
        let other : k ≢ j = λ f. ne (sym same ∙ f) in
        rw (with_view_same k i v views same, with_view_other k j v views other)
          (apart_here j a other)
    | no ni ↦ elim (ℕ_discrete k j) [
      | yes same ↦
          rw (with_view_other k i v views ni, with_view_same k j v views same)
            (omega (arith, apart_here i a ni))
      | no nj ↦
          rw (with_view_other k i v views ni, with_view_other k j v views nj) (books.apart i j a ne)
    ]
  ]

  IsUncrossed-after : (j : ℕ) → IsUncrossed (with_view k v views j)
  IsUncrossed-after j = elim (ℕ_discrete k j) [
    | yes same ↦ subst IsUncrossed (sym (with_view_same k j v views same)) uncrossed_here
    | no ne ↦ subst IsUncrossed (sym (with_view_other k j v views ne)) (books.uncrossed j)
  ]

  pub Books-put_back : Books (put_back k w e) (with_view k v views)
  Books-put_back = record {
    models = Models-after;
    open_orders = IsOpen-after;
    apart = apart_after;
    uncrossed = IsUncrossed-after;
  }
