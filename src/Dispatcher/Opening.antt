-- ===== src/Dispatcher/Opening.antt =====
-- An engine that the constructor has just built over a new pool: the market before its first order.
use multi_instrument_orderbo.Prelude.{
  ℕ, zero, suc, ◌+◌, ◌≤◌, ◌<◌, ◌≡◌, refl, sym, ap, ◌∙◌, Bool, Option, some, List, [], ◌∷◌, length,
  take, count, arith, inl, inr, Bool-cases, some-eq,
}
use multi_instrument_orderbo.Level.{Links}
use multi_instrument_orderbo.Pool.{Pool, iota, new_pool, free}
use multi_instrument_orderbo.Registry.{Registry, InstrumentSpec}
use multi_instrument_orderbo.Engine.{Engine, skips, add_books, new_engine}
use multi_instrument_orderbo.Engine.Fresh.{empty_view, new_engine-Books}
use multi_instrument_orderbo.Dispatcher.Market.{IsMarket}

length-iota : (n i : ℕ) → length (iota n i) ≡ n
length-iota zero i = refl
length-iota (suc n) i = omega (arith, length-iota n (suc i))

-- The slots from `i` on, each once.
count-iota_below : (n i a : ℕ) → a < i → count a (iota n i) ≡ 0
count-iota_below zero i a h = refl
count-iota_below (suc n) i a h = ground (arith, h, count-iota_below n (suc i) a (omega arith))

count-iota : (n i a : ℕ) → count a (iota n i) ≤ 1
count-iota zero i a = omega arith
count-iota (suc n) i a = ground (arith, count-iota n (suc i) a, count-iota_below n (suc i) a)

count-iota_above : (n i a : ℕ) → i + n ≤ a → count a (iota n i) ≡ 0
count-iota_above zero i a h = refl
count-iota_above (suc n) i a h = ground (arith, h, count-iota_above n (suc i) a (omega arith))

take_all : (xs : List ℕ) (n : ℕ) → length xs ≡ n → take n xs ≡ xs
take_all [] zero h = refl
take_all [] (suc n) h = absurd (omega arith)
take_all (x ∷ xs) zero h = absurd (omega arith)
take_all (x ∷ xs) (suc n) h = ap (λ ys. x ∷ ys) (take_all xs n (omega arith))

free-new_pool : (n : ℕ) → free (new_pool n) ≡ iota n 0
free-new_pool n = take_all (iota n 0) n (length-iota n 0)

pool-add_books :
    (filter : Option (ℕ → Bool)) (specs : List InstrumentSpec) (e : Engine)
    → (add_books filter specs e).pool ≡ e.pool
unfolding add_books
pool-add_books filter [] e = refl
pool-add_books filter (spec ∷ specs) e = elim (Bool-cases (skips filter spec.id)) [
  | inl skip ↦ rw skip (pool-add_books filter specs e)
  | inr keep ↦ rw keep (pool-add_books filter specs _)
]

pool-new_engine :
    (registry : Registry) (lk : Links) (pool : Pool) (filter : Option (ℕ → Bool)) (e : Engine)
    → new_engine registry lk pool filter ≡ some e
    → e.pool ≡ pool
unfolding new_engine
pool-new_engine registry lk pool filter e h = elim (Bool-cases registry.frozen) [
  | inl frozen ↦
      let built : some (add_books filter registry.instruments blank) ≡ some e = rw frozen at h in
      ap (λ x. x.pool) (sym (some-eq built)) ∙ pool-add_books filter registry.instruments blank
  | inr open_still ↦ absurd (cc (rw open_still at h))
]
  where
    blank : Engine
    blank = record { links = lk; pool = pool; matchers = []; book_ptrs = [] }

-- The constructor over a new pool leaves all books in order, and the slots that are free or rest in a
-- book below the pool's capacity with none twice among these.
pub new_engine-IsMarket :
    (registry : Registry) (lk : Links) (n : ℕ) (filter : Option (ℕ → Bool)) (e : Engine)
    → new_engine registry lk (new_pool n) filter ≡ some e
    → IsMarket e (λ j. empty_view)
new_engine-IsMarket registry lk n filter e h =
    let books = new_engine-Books registry lk (new_pool n) filter e h in
    let same = pool-new_engine registry lk (new_pool n) filter e h in
    let slots : (a : ℕ) → count a (free e.pool) ≡ count a (iota n 0) =
      λ a. ap (λ p. count a (free p)) same ∙ ap (count a) (free-new_pool n) in
    record {
      books = books;
      pool_valid = record {
        sized =
            ap (λ p. length p.free_slots) same ∙ length-iota n 0 ∙ sym (ap (λ p. p.capacity) same);
        within = omega (arith, ap (λ p. p.stack_top) same, ap (λ p. p.capacity) same);
      };
      apart = λ j a. omega (arith, slots a, count-iota n 0 a);
      below = λ j a above. omega (
        arith,
        slots a,
        count-iota_above n 0 a (omega (arith, above, ap (λ p. p.capacity) same)),
      );
    }
