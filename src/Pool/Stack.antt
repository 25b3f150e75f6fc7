-- ===== src/Pool/Stack.antt =====
-- `acquire` and `release` of `Pool` in terms of the free slots as a bag.
use multi_instrument_orderbo.Prelude.{
  ℕ, zero, suc, ◌+◌, ◌-◌, ◌≤◌, ◌<◌, ◌≡◌, refl, none, some, List, [], ◌∷◌, length, get_elem?, set,
  take, arith, count, length-set, ap, ◌∙◌,
}
use native.Mathlib.Numerals.{add-one}
use multi_instrument_orderbo.Types.{blank_order}
use multi_instrument_orderbo.Pool.{
  Pool, acquire, acquire_or_abort, available_approx, release, free, write,
}

-- The stack lies within its array.
pub record IsValid (p : Pool) : Type 0 where
  pub sized : length p.free_slots ≡ p.capacity
  pub within : p.stack_top ≤ p.capacity

take-set :
    (xs : List ℕ) (n o a : ℕ)
    → n < length xs
    → count a (take (suc n) (set xs n o)) ≡ count a (o ∷ []) + count a (take n xs)
take-set [] n o a h = absurd (omega arith)
take-set (x ∷ xs) zero o a h = omega arith
take-set (x ∷ xs) (suc n) o a h = omega (arith, take-set xs n o a (omega arith))

take-get :
    (xs : List ℕ) (n : ℕ)
    → n < length xs
    → (o : ℕ) × (get_elem? xs n ≡ some o)
      × ((a : ℕ) → count a (take (suc n) xs) ≡ count a (o ∷ []) + count a (take n xs))
take-get [] n h = absurd (omega arith)
take-get (x ∷ xs) zero h = (x, refl, λ a. omega arith)
take-get (x ∷ xs) (suc n) h =
    let (o, e, c) = take-get xs n (omega arith) in (o, e, λ a. omega (arith, c a))

-- What `release` does with a slot that is out.
pub record Released (o : ℕ) (p : Pool) : Type 0 where
  pub pool : Pool
  pub runs : release o p ≡ some pool
  pub valid : IsValid pool
  pub storage_kept : pool.storage ≡ p.storage
  pub top : pool.stack_top ≡ p.stack_top + 1
  pub capacity_kept : pool.capacity ≡ p.capacity
  pub freed : (a : ℕ) → count a (free pool) ≡ count a (o ∷ []) + count a (free p)

-- `release` succeeds while a slot is out, adds exactly that slot to the free ones and keeps the
-- records.
pub release-Released : (o : ℕ) (p : Pool) → IsValid p → p.stack_top < p.capacity → Released o p
unfolding release
release-Released o p v h = record {
  pool = record p { free_slots = set p.free_slots p.stack_top o; stack_top = p.stack_top + 1 };
  runs = ground (arith, v.sized, h);
  valid = record { sized = length-set p.free_slots p.stack_top o ∙ v.sized; within = omega arith };
  storage_kept = refl;
  top = refl;
  capacity_kept = refl;
  freed = λ a. rw (add-one) (take-set p.free_slots p.stack_top o a (omega (arith, v.sized, h)));
}

-- What `acquire` does on a pool with a free slot.
pub record Acquired (p : Pool) : Type 0 where
  pub pool : Pool
  pub slot : ℕ
  pub runs : acquire p ≡ some (pool, some slot)
  pub valid : IsValid pool
  pub blank : pool.storage ≡ write slot blank_order p.storage
  pub top : pool.stack_top + 1 ≡ p.stack_top
  pub capacity_kept : pool.capacity ≡ p.capacity
  pub taken : (a : ℕ) → count a (free p) ≡ count a (slot ∷ []) + count a (free pool)

-- `acquire` hands out a free slot with a blank record, and takes exactly that slot out of the free
-- ones.
pub acquire-Acquired : (p : Pool) → IsValid p → 0 < p.stack_top → Acquired p
unfolding acquire
acquire-Acquired p v h =
    let (o, e, c) = take-get p.free_slots (p.stack_top - 1) (omega (arith, v.sized, v.within)) in
    record {
      pool = record p { storage = write o blank_order p.storage; stack_top = p.stack_top - 1 };
      slot = o;
      runs = ground (arith, e, h);
      valid = record { sized = v.sized; within = omega (arith, v.within) };
      blank = refl;
      top = omega (arith, h);
      capacity_kept = refl;
      taken = λ a.
          let top : p.stack_top ≡ suc (p.stack_top - 1) = omega arith in
          ap (λ n. count a (take n p.free_slots)) top ∙ c a;
    }

-- A pool without a free slot answers null and stays as it is.
pub acquire_full : (p : Pool) → p.stack_top ≡ 0 → acquire p ≡ some (p, none)
unfolding acquire
acquire_full p e = ground (arith, e)

-- `acquire_or_abort` gives the slot that `acquire` does, and aborts where none is available.
acquire_or_abort-Acquired : (p : Pool) (a : Acquired p) → acquire_or_abort p ≡ some (a.pool, a.slot)
unfolding acquire_or_abort
acquire_or_abort-Acquired p a = rw a.runs refl

acquire_or_abort_full : (p : Pool) → available_approx p ≡ 0 → acquire_or_abort p ≡ none
unfolding acquire_or_abort
acquire_or_abort_full p e = rw (acquire_full p e) refl
