-- ===== src/Matcher/Retire.antt =====
-- `Matcher::cancel_all`: what the callback does with the orders that `clear_and_drain` visits.
use multi_instrument_orderbo.Prelude.{
  ℕ, zero, suc, ◌+◌, ◌≤◌, ◌<◌, ◌≡◌, refl, ap, ◌∙◌, some, List, [], ◌∷◌, ◌++◌, length, length-append,
  arith, count, count-append, if◌then◌else◌, ltb, some->>=,
}
use multi_instrument_orderbo.Types.{Order, buy, sell, cancelled}
use multi_instrument_orderbo.OrderBook.{new_book, clear_and_drain}
use multi_instrument_orderbo.OrderBook.View.{Queues, View, Models, resting, slots}
use multi_instrument_orderbo.OrderBook.Drain.{visit, heads, clear_and_drain-heads}
use multi_instrument_orderbo.Pool.{Pool, free}
use multi_instrument_orderbo.Pool.Stack.{IsValid, Released, release-Released}
use multi_instrument_orderbo.Matcher.{State, set_status, retire, cancel_all}

-- The record of a slot once the slots of a list are cancelled.
abbrev pub mark : List ℕ → ℕ → Order → Order
mark os a r = if ltb 0 (count a os) then record r { status = cancelled } else r

-- What the callback does with the slots of a list.
record Retired (os : List ℕ) (p : Pool) : Type 0 where
  pool : Pool
  runs : visit retire os (some p) ≡ some pool
  valid : IsValid pool
  capacity_kept : pool.capacity ≡ p.capacity
  freed : (a : ℕ) → count a (free pool) ≡ count a os + count a (free p)
  marked : (a : ℕ) → pool.storage a ≡ mark os a (p.storage a)

retire-Released :
    (o : ℕ) (p : Pool) (r : Released o (set_status o cancelled p)) → retire o (some p) ≡ some r.pool
unfolding retire
retire-Released o p r = r.runs

mark_first :
    (o a : ℕ) (os : List ℕ) (p : Pool)
    → mark os a ((set_status o cancelled p).storage a) ≡ mark (o ∷ os) a (p.storage a)
mark_first o a os p = ground (arith, λ (f : o ≡ a). ap p.storage f)

visit-Retired :
    (os : List ℕ) (p : Pool) → IsValid p → p.stack_top + length os ≤ p.capacity → Retired os p
visit-Retired [] p v h = record {
  pool = p;
  runs = refl;
  valid = v;
  capacity_kept = refl;
  freed = λ a. omega arith;
  marked = λ a. refl;
}
visit-Retired (o ∷ os) p v h =
    let r =
      release-Released o (set_status o cancelled p) (record { sized = v.sized; within = v.within })
        (omega (arith, h)) in
    let rest = visit-Retired os r.pool r.valid (omega (arith, h, r.top, r.capacity_kept)) in
    record {
      pool = rest.pool;
      runs = ap (visit retire os) (retire-Released o p r) ∙ rest.runs;
      valid = rest.valid;
      capacity_kept = rest.capacity_kept ∙ r.capacity_kept;
      freed = λ a. omega (arith, rest.freed a, r.freed a, count-append a (o ∷ []) os);
      marked = λ a. rest.marked a ∙ ap (λ f. mark os a (f a)) r.storage_kept ∙ mark_first o a os p;
    }

length-heads : (q : Queues) → length (heads q) ≤ length (slots q)
length-heads [] = omega arith
length-heads ((p, []) ∷ q) = length-heads q
length-heads ((p, x ∷ xs) ∷ q) = omega (arith, length-heads q, length-append xs (slots q))

-- The oldest order at each price.
abbrev pub oldest : View → List ℕ
oldest v = heads (v buy) ++ heads (v sell)

length-oldest : (v : View) → length (oldest v) ≤ length (resting v)
length-oldest v = omega (
  arith,
  length-heads (v buy),
  length-heads (v sell),
  length-append (heads (v buy)) (heads (v sell)),
  length-append (slots (v buy)) (slots (v sell)),
)

-- What `cancel_all` does.
pub record AllCancelled (w : State) (v : View) : Type 0 where
  pub after : State
  pub runs : cancel_all w ≡ some after
  pub emptied : after.book ≡ new_book w.book.instrument
  pub pool_valid : IsValid after.pool
  pub capacity_kept : after.pool.capacity ≡ w.pool.capacity
  pub freed : (a : ℕ) → count a (free after.pool) ≡ count a (oldest v) + count a (free w.pool)
  pub marked : (a : ℕ) → after.pool.storage a ≡ mark (oldest v) a (w.pool.storage a)

drained {ℓ} :
    {S : Type ℓ} (callback : ℕ → S → S) (fuel : ℕ) (w : State) (v : View) (s : S)
    → Models w.pool.storage w.links w.book v
    → 0 < fuel
    → ((clear_and_drain callback fuel w.links w.book s).2 ≡ visit callback (oldest v) s)
      × ((clear_and_drain callback fuel w.links w.book s).1 ≡ new_book w.book.instrument)
drained callback zero w v s h some_fuel = absurd (omega (arith, some_fuel))
drained callback (suc n) w v s h some_fuel =
    clear_and_drain-heads callback n w.pool.storage w.links w.book v s h

-- While the pool has lent out every resting order, `cancel_all` runs without a fault and empties the
-- book. It cancels and gives back to the pool exactly the oldest order at each price: any other
-- resting order is in no book afterwards, and not free either.
pub cancel_all-AllCancelled :
    (w : State) (v : View)
    → Models w.pool.storage w.links w.book v
    → IsValid w.pool
    → w.pool.stack_top + length (resting v) ≤ w.pool.capacity
    → 0 < w.pool.capacity
    → AllCancelled w v
unfolding cancel_all
cancel_all-AllCancelled w v h valid room some_room =
    let r = visit-Retired (oldest v) w.pool valid (omega (arith, room, length-oldest v)) in
    let swept = clear_and_drain retire w.pool.capacity w.links w.book (some w.pool) in
    let (last, book) = drained retire w.pool.capacity w v (some w.pool) h some_room in
    record {
      after = record w { links = swept.0; pool = r.pool; book = swept.1 };
      runs =
          some->>= swept.2
            (λ pool. some (record w { links = swept.0; pool = pool; book = swept.1 })) r.pool _
            (last ∙ r.runs) refl;
      emptied = book;
      pool_valid = r.valid;
      capacity_kept = r.capacity_kept;
      freed = r.freed;
      marked = r.marked;
    }
