-- ===== src/Engine/Slots.antt =====
-- The two maps of an `Engine`, through every operation.
use multi_instrument_orderbo.Prelude.{
  ℕ, ◌≡◌, ◌⊎◌, refl, sym, ap, ◌∙◌, Bool, ◌==◌, if◌then◌else◌, Option, none, some, List, [], ◌∷◌,
  ◌>>=◌, >>=-eq-some, arith, inl, inr, Option-cases, Bool-cases, some-eq, subst,
}
use multi_instrument_orderbo.HashMap.{lookup, emplace, delete, lookup-delete, lookup-emplace}
use multi_instrument_orderbo.Types.{Trade}
use multi_instrument_orderbo.Level.{Links}
use multi_instrument_orderbo.Pool.{Pool, acquire, release}
use multi_instrument_orderbo.OrderBook.{OrderBook}
use multi_instrument_orderbo.Registry.{Registry, InstrumentSpec}
use multi_instrument_orderbo.Matcher
use multi_instrument_orderbo.Matcher.{State, Clock}
use multi_instrument_orderbo.Engine.{
  Slot, Slots, Engine, view, new_slot, skips, add_books, new_engine, replace, put_back,
  acquire_order, release_order, submit, cancel, expire_instrument, book, read_book,
}

-- The pointer that belongs to an entry of `matchers`.
abbrev pub pointer_to : ℕ → Option Slot → Option ℕ
pointer_to id none = none
pointer_to id (some sl) = some id

-- Both maps have the same keys, and each pointer leads to the book of its own key.
abbrev pub IsLinked : Slots → List (ℕ × ℕ) → Type 0
IsLinked m ptrs = (id : ℕ) → lookup id ptrs ≡ pointer_to id (lookup id m)

pub lookup-replace :
    (k j : ℕ) (sl : Slot) (m : Slots)
    → lookup j (replace k sl m)
      ≡ (if k == j then elim (lookup k m) [ none ↦ none | some old ↦ some sl ] else lookup j m)
unfolding lookup replace
lookup-replace k j sl [] = ground arith
lookup-replace k j sl ((i, old) ∷ m) = ground (arith, lookup-replace k j sl m)

IsLinked-replace :
    (k : ℕ) (sl : Slot) (m : Slots) (ptrs : List (ℕ × ℕ))
    → IsLinked m ptrs
    → IsLinked (replace k sl m) ptrs
IsLinked-replace k sl m ptrs h id =
    ground (arith, h id, lookup-replace k id sl m, λ (f : k ≡ id). ap (λ i. lookup i m) f)

IsLinked-delete :
    (k : ℕ) (m : Slots) (ptrs : List (ℕ × ℕ))
    → IsLinked m ptrs
    → IsLinked (delete k m) (delete k ptrs)
IsLinked-delete k m ptrs h id = ground (arith, lookup-delete k id ptrs, lookup-delete k id m, h id)

IsLinked-emplace :
    (k : ℕ) (sl : Slot) (m : Slots) (ptrs : List (ℕ × ℕ))
    → IsLinked m ptrs
    → IsLinked (emplace k sl m) (emplace k k ptrs)
IsLinked-emplace k sl m ptrs h id = ground (
  arith,
  h id,
  h k,
  lookup-emplace k id k ptrs,
  lookup-emplace k id sl m,
  λ (f : k ≡ id). ap (λ i. lookup i m) f,
)

pub IsLinked-add_books :
    (filter : Option (ℕ → Bool)) (specs : List InstrumentSpec) (e : Engine)
    → IsLinked e.matchers e.book_ptrs
    → IsLinked (add_books filter specs e).matchers (add_books filter specs e).book_ptrs
unfolding add_books
IsLinked-add_books filter [] e h = h
IsLinked-add_books filter (spec ∷ specs) e h = elim (Bool-cases (skips filter spec.id)) [
  | inl skip ↦ rw skip (IsLinked-add_books filter specs e h)
  | inr keep ↦ rw keep (
      IsLinked-add_books filter specs _
        (IsLinked-emplace spec.id (new_slot spec.id) e.matchers e.book_ptrs h))
]

-- A call that the engine's owner may make.
pub data Step : Engine → Engine → Type 0 where
  acquires : (e e' : Engine) (got : Option ℕ) → acquire_order e ≡ some (e', got) → Step e e'
  releases : (e e' : Engine) (o : ℕ) → release_order o e ≡ some e' → Step e e'
  submits :
      (e e' : Engine) (fuel : ℕ) (c : Clock) (o : ℕ) (trades : List Trade)
      → submit fuel c o e ≡ some (e', trades)
      → Step e e'
  cancels :
      (e e' : Engine) (instrument id : ℕ) (ok : Bool)
      → cancel instrument id e ≡ some (e', ok)
      → Step e e'
  expires :
      (e e' : Engine) (id : ℕ) (ok : Bool) → expire_instrument id e ≡ some (e', ok) → Step e e'

acquires-maps :
    (e e' : Engine) (got : Option ℕ)
    → acquire_order e ≡ some (e', got)
    → (e'.matchers ≡ e.matchers) × (e'.book_ptrs ≡ e.book_ptrs)
unfolding acquire
acquires-maps e e' got h = ground (arith, h)

pub releases-maps :
    (e e' : Engine) (o : ℕ)
    → release_order o e ≡ some e'
    → (e'.matchers ≡ e.matchers) × (e'.book_ptrs ≡ e.book_ptrs)
unfolding release
releases-maps e e' o h = ground (arith, h)

-- The slot of one key is replaced, or nothing happens to the maps.
abbrev pub Touches : ℕ → Engine → Engine → Type 0
Touches k e e' =
    (e'.book_ptrs ≡ e.book_ptrs)
    × ((e'.matchers ≡ e.matchers) ⊎ ((sl : Slot) × (e'.matchers ≡ replace k sl e.matchers)))

put_back-Touches :
    {R : Type 0} (m : Option (State × R)) (k : ℕ) (e e' : Engine) (r : R)
    → ◌>>=◌ {B = Engine × R} m (λ x. some (put_back k x.0 e, x.1)) ≡ some (e', r)
    → Touches k e e'
put_back-Touches none k e e' r h = absurd (ground (arith, h))
put_back-Touches (some x) k e e' r h =
    subst (Touches k e) (ap (λ d. d.0) (some-eq h)) (refl, inr (_, refl))

pub submit-Touches :
    (fuel : ℕ) (c : Clock) (o : ℕ) (e e' : Engine) (trades : List Trade)
    → submit fuel c o e ≡ some (e', trades)
    → Touches (e.pool.storage o).instrument e e'
unfolding submit
submit-Touches fuel c o e e' trades h =
    elim (Option-cases (lookup (e.pool.storage o).instrument e.matchers)) [
      | inl f ↦
          subst (Touches (e.pool.storage o).instrument e)
            (ap (λ r. r.0) (some-eq (rw (f, submit) at h))) (refl, inl refl)
      | inr (sl, f) ↦
          put_back-Touches (Matcher.submit fuel c o (view sl e)) _ e e' trades (rw (f, submit) at h)
    ]

pub cancel-Touches :
    (instrument id : ℕ) (e e' : Engine) (ok : Bool)
    → cancel instrument id e ≡ some (e', ok)
    → Touches instrument e e'
unfolding cancel
cancel-Touches instrument id e e' ok h = elim (Option-cases (lookup instrument e.matchers)) [
  | inl f ↦
      subst (Touches instrument e) (ap (λ r. r.0) (some-eq (rw (f, cancel) at h))) (refl, inl refl)
  | inr (sl, f) ↦
      put_back-Touches (Matcher.cancel id (view sl e)) instrument e e' ok (rw (f, cancel) at h)
]

abbrev pub AreLinked : Engine → Type 0
AreLinked e = IsLinked e.matchers e.book_ptrs

pub Touches-AreLinked : (k : ℕ) (e e' : Engine) → Touches k e e' → AreLinked e → AreLinked e'
Touches-AreLinked k e e' (ptrs, inl same) h =
    subst (IsLinked e'.matchers) (sym ptrs) (subst (λ m. IsLinked m e.book_ptrs) (sym same) h)
Touches-AreLinked k e e' (ptrs, inr (sl, same)) h = subst (IsLinked e'.matchers) (sym ptrs) (
    subst (λ m. IsLinked m e.book_ptrs) (sym same) (IsLinked-replace k sl e.matchers e.book_ptrs h))

expire-AreLinked :
    (id : ℕ) (e e' : Engine) (ok : Bool)
    → expire_instrument id e ≡ some (e', ok)
    → AreLinked e
    → AreLinked e'
unfolding expire_instrument
expire-AreLinked id e e' ok h linked = elim (Option-cases (lookup id e.matchers)) [
  | inl f ↦ subst AreLinked (ap (λ r. r.0) (some-eq (rw (f, expire_instrument) at h))) linked
  | inr (sl, f) ↦
      let ran = >>=-eq-some (Matcher.cancel_all (view sl e)) _ _ (rw (f, expire_instrument) at h) in
      subst AreLinked (ap (λ r. r.0) (some-eq ran.2))
        (IsLinked-delete id e.matchers e.book_ptrs linked)
]

Step-AreLinked : (e e' : Engine) → Step e e' → AreLinked e → AreLinked e'
Step-AreLinked e e' (acquires _ _ got h) linked =
    Touches-AreLinked 0 e e' ((acquires-maps e e' got h).1, inl (acquires-maps e e' got h).0) linked
Step-AreLinked e e' (releases _ _ o h) linked =
    Touches-AreLinked 0 e e' ((releases-maps e e' o h).1, inl (releases-maps e e' o h).0) linked
Step-AreLinked e e' (submits _ _ fuel c o trades h) linked =
    Touches-AreLinked _ e e' (submit-Touches fuel c o e e' trades h) linked
Step-AreLinked e e' (cancels _ _ instrument id ok h) linked =
    Touches-AreLinked _ e e' (cancel-Touches instrument id e e' ok h) linked
Step-AreLinked e e' (expires _ _ id ok h) linked = expire-AreLinked id e e' ok h linked

-- A run of an engine from its construction on.
pub data Run (registry : Registry) : Engine → Type 0 where
  built :
      (lk : Links) (pool : Pool) (filter : Option (ℕ → Bool)) (e : Engine)
      → new_engine registry lk pool filter ≡ some e
      → Run registry e
  steps : (e e' : Engine) → Run registry e → Step e e' → Run registry e'

abbrev empty_engine : Links → Pool → Engine
empty_engine lk pool = record { links = lk; pool = pool; matchers = []; book_ptrs = [] }

built-AreLinked :
    (registry : Registry) (lk : Links) (pool : Pool) (filter : Option (ℕ → Bool)) (e : Engine)
    → new_engine registry lk pool filter ≡ some e
    → AreLinked e
unfolding new_engine lookup
built-AreLinked registry lk pool filter e h = elim (Bool-cases registry.frozen) [
  | inl f ↦
      subst AreLinked (some-eq (rw (f, new_engine) at h))
        (IsLinked-add_books filter registry.instruments (empty_engine lk pool) (λ id. refl))
  | inr f ↦ absurd (ground (arith, rw (f, new_engine) at h))
]

Run-AreLinked : (registry : Registry) (e : Engine) → Run registry e → AreLinked e
Run-AreLinked registry e (built lk pool filter _ h) = built-AreLinked registry lk pool filter e h
Run-AreLinked registry e (steps e0 _ r s) = Step-AreLinked e0 e s (Run-AreLinked registry e0 r)

read_book-of :
    (id : ℕ) (sl : Slot) (e : Engine)
    → lookup id e.matchers ≡ some sl
    → read_book id e ≡ some sl.book
unfolding read_book
read_book-of id sl e f = rw f refl

-- A pointer leads to a book.
pub pointed_at :
    (id p : ℕ) (e : Engine)
    → AreLinked e
    → lookup id e.book_ptrs ≡ some p
    → (b : OrderBook) × (read_book p e ≡ some b)
pointed_at id p e linked h = elim (Option-cases (lookup id e.matchers)) [
  | inl f ↦ absurd (ground (arith, h, linked id, ap (pointer_to id) f))
  | inr (sl, f) ↦
      let same : id ≡ p = some-eq (sym (linked id ∙ ap (pointer_to id) f) ∙ h) in
      (sl.book, subst (λ q. read_book q e ≡ some sl.book) same (read_book-of id sl e f))
]

-- In an engine that was built from a registry and has been run by calls of its operations, `book` of
-- an instrument is null exactly where the instrument has no matcher, and otherwise a pointer to the
-- book of that matcher: no pointer outlives its book.
pub Run-book :
    (registry : Registry) (e : Engine)
    → Run registry e
    → (id : ℕ)
    → (book id e ≡ pointer_to id (lookup id e.matchers))
      × ((p : ℕ) → book id e ≡ some p → (b : OrderBook) × (read_book p e ≡ some b))
unfolding book
Run-book registry e r id =
    (Run-AreLinked registry e r id, λ p. pointed_at id p e (Run-AreLinked registry e r))
