-- ===== src/Engine/Fresh.antt =====
-- The books of an `Engine` that the constructor has just built.
use multi_instrument_orderbo.Prelude.{
  ℕ, ◌≡◌, sym, ap, ◌∙◌, subst, Bool, Option, some, List, [], ◌∷◌, arith, inl, inr, Bool-cases,
  some-eq,
}
use multi_instrument_orderbo.HashMap.{lookup, lookup-emplace_cases}
use multi_instrument_orderbo.Types.{Side, buy, sell}
use multi_instrument_orderbo.Level.{Links}
use multi_instrument_orderbo.Level.Chain.{Holds}
use multi_instrument_orderbo.OrderedMap.Related.{Related}
use multi_instrument_orderbo.OrderBook.{Orders, new_book, levels}
use multi_instrument_orderbo.OrderBook.View.{View, Models}
use multi_instrument_orderbo.Pool.{Pool}
use multi_instrument_orderbo.Registry.{Registry, InstrumentSpec}
use multi_instrument_orderbo.Engine.{Slot, Engine, new_slot, skips, add_books, new_engine}
use multi_instrument_orderbo.Engine.Books.{Books}

abbrev pub empty_view : View
empty_view s = []

new_book-Models :
    (orders : Orders) (lk : Links) (id : ℕ) → Models orders lk (new_book id) empty_view
unfolding lookup
new_book-Models orders lk id = record {
  linked = on_side;
  sorted = λ s. tt;
  placed = λ s. tt;
  unique = λ a. omega arith;
  listed = λ i loc e. absurd (cc);
}
  where
    on_side : (s : Side) → Related (Holds lk) (levels s (new_book id)) []
    on_side buy = tt
    on_side sell = tt

-- Every slot is as the constructor makes it.
IsNew : Engine → Type 0
IsNew e = (j : ℕ) (sl : Slot) → lookup j e.matchers ≡ some sl → new_slot j ≡ sl

add_books-IsNew :
    (filter : Option (ℕ → Bool)) (specs : List InstrumentSpec) (e : Engine)
    → IsNew e
    → IsNew (add_books filter specs e)
unfolding add_books IsNew
add_books-IsNew filter [] e h = h
add_books-IsNew filter (spec ∷ specs) e h = elim (Bool-cases (skips filter spec.id)) [
  | inl skip ↦ rw skip (add_books-IsNew filter specs e h)
  | inr keep ↦ rw keep (
      add_books-IsNew filter specs _ (λ j sl found.
        elim (lookup-emplace_cases spec.id j (new_slot spec.id) sl e.matchers found) [
          | inl old ↦ h j sl old
          | inr (same, slot) ↦ ap new_slot (sym same) ∙ slot
        ]))
]

IsNew-Books : (e : Engine) → IsNew e → Books e (λ j. empty_view)
unfolding IsNew
IsNew-Books e h = record {
  models = λ j sl found.
      subst (λ x. Models e.pool.storage e.links x.book empty_view) (h j sl found)
        (new_book-Models e.pool.storage e.links j);
  open_orders = λ j a m. absurd (omega (arith, m));
  apart = λ i j a ne. omega arith;
  uncrossed = λ j bid ask b a. absurd b;
}

-- The constructor leaves an empty book, in order, for each instrument that it takes.
pub new_engine-Books :
    (registry : Registry) (lk : Links) (pool : Pool) (filter : Option (ℕ → Bool)) (e : Engine)
    → new_engine registry lk pool filter ≡ some e
    → Books e (λ j. empty_view)
unfolding new_engine IsNew lookup
new_engine-Books registry lk pool filter e h = elim (Bool-cases registry.frozen) [
  | inl frozen ↦
      let built : some (add_books filter registry.instruments blank) ≡ some e = rw frozen at h in
      subst (λ x. Books x (λ j. empty_view)) (some-eq built)
        (IsNew-Books _
          (add_books-IsNew filter registry.instruments blank (λ j sl found. absurd (cc))))
  | inr open_still ↦ absurd (cc (rw open_still at h))
]
  where
    blank : Engine
    blank = record { links = lk; pool = pool; matchers = []; book_ptrs = [] }
