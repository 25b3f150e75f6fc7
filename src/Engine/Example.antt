-- ===== src/Engine/Example.antt =====
-- An engine of one instrument, with the book of Matcher/Example.
use multi_instrument_orderbo.Prelude.{
  ℕ, true, none, pos, ◌+◌, ◌≤◌, ◌<◌, ◌≡◌, ◌≢◌, sym, ap, ◌∙◌, subst, some, [], ◌∷◌, if◌then◌else◌,
  ◌==◌, ◌⊎◌, inl, inr, count, arith, some-eq,
}
use native.Mathlib.Decide.{ℕ_discrete}
use multi_instrument_orderbo.HashMap.{lookup}
use multi_instrument_orderbo.OrderBook.View.{View, Models, resting}
use multi_instrument_orderbo.OrderBook.Uncrossed.{IsUncrossed}
use multi_instrument_orderbo.OrderBook.Example.{orders, links, book, view, book-Models}
use multi_instrument_orderbo.Latency.{new_tracker}
use multi_instrument_orderbo.Matcher.Step.{IsOpen}
use multi_instrument_orderbo.Matcher.Example.{pool, start-Ready}
use multi_instrument_orderbo.Registry.{Registry, InstrumentSpec, equity}
use multi_instrument_orderbo.Engine.{Slot, Engine}
use multi_instrument_orderbo.Engine.Books.{Books}

abbrev pub busy : Slot
busy = record { book = book; stats = new_tracker }

abbrev pub single : Engine
single = record { links = links; pool = pool; matchers = (7, busy) ∷ []; book_ptrs = (7, 7) ∷ [] }

abbrev empty_view : View
empty_view s = []

abbrev pub views : ℕ → View
views j = if 7 == j then view else empty_view

pub views_cases : (j : ℕ) → ((7 ≡ j) × (views j ≡ view)) ⊎ (views j ≡ empty_view)
views_cases j = elim (ℕ_discrete 7 j) [
  | yes same ↦ inl (same, ground (arith, same))
  | no ne ↦ inr (ground (arith, ne))
]

only_slot : (j : ℕ) (sl : Slot) → lookup j single.matchers ≡ some sl → (7 ≡ j) × (busy ≡ sl)
unfolding lookup
only_slot j sl e = elim (ℕ_discrete 7 j) [
  | yes same ↦ (same, some-eq (subst (λ i. lookup i single.matchers ≡ some sl) (sym same) e))
  | no ne ↦ absurd (ground (arith, e, ne))
]

single-Models :
    (j : ℕ) (sl : Slot)
    → lookup j single.matchers ≡ some sl
    → Models single.pool.storage single.links sl.book (views j)
single-Models j sl e =
    let (here, slot) = only_slot j sl e in
    subst (λ i. Models orders links sl.book (views i)) here
      (subst (λ s. Models orders links s.book view) slot book-Models)

single-IsOpen : (j a : ℕ) → 0 < count a (resting (views j)) → IsOpen (orders a)
single-IsOpen j a m = elim (views_cases j) [
  | inl (here, at) ↦ start-Ready.open_orders a (omega (arith, m, ap (λ v. count a (resting v)) at))
  | inr at ↦ absurd (omega (arith, m, ap (λ v. count a (resting v)) at))
]

single_apart : (i j a : ℕ) → i ≢ j → count a (resting (views i)) + count a (resting (views j)) ≤ 1
single_apart i j a ne = elim (views_cases i) [
  | inl (here, at) ↦ elim (views_cases j) [
    | inl (there, at') ↦ absurd (ne (sym here ∙ there))
    | inr at' ↦ omega (
      arith,
      book-Models.unique a,
      ap (λ v. count a (resting v)) at,
      ap (λ v. count a (resting v)) at',
    )
  ]
  | inr at ↦ elim (views_cases j) [
    | inl (there, at') ↦ omega (
      arith,
      book-Models.unique a,
      ap (λ v. count a (resting v)) at,
      ap (λ v. count a (resting v)) at',
    )
    | inr at' ↦ omega (arith, ap (λ v. count a (resting v)) at, ap (λ v. count a (resting v)) at')
  ]
]

single-IsUncrossed : (j : ℕ) → IsUncrossed (views j)
single-IsUncrossed j = elim (views_cases j) [
  | inl (here, at) ↦ subst IsUncrossed (sym at) (λ bid ask b a. absurd b)
  | inr at ↦ subst IsUncrossed (sym at) (λ bid ask b a. absurd b)
]

pub single-Books : Books single views
single-Books = record {
  models = single-Models;
  open_orders = single-IsOpen;
  apart = single_apart;
  uncrossed = single-IsUncrossed;
}

pub taker_aside : (j : ℕ) → count 2 (resting (views j)) ≡ 0
taker_aside j = elim (views_cases j) [
  | inl (here, at) ↦ ap (λ v. count 2 (resting v)) at
  | inr at ↦ ap (λ v. count 2 (resting v)) at
]

abbrev stock : InstrumentSpec
stock = record {
  id = 7;
  symbol = b'A' ∷ [];
  type = equity;
  tick_size = pos 1;
  lot_size = 1;
  currency = b'U' ∷ b'S' ∷ b'D' ∷ [];
  option_terms = none;
}

abbrev pub registry : Registry
registry = record {
  instruments = stock ∷ [];
  id_map = (7, 0) ∷ [];
  sym_map = (b'A' ∷ [], 0) ∷ [];
  chains = [];
  frozen = true;
}
