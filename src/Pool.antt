-- ===== src/Pool.antt =====
-- `Pool` of include/ordbk/utils/pool.hpp: the slab of orders and the stack of its free slots. An
-- order pointer is the index of its slot, and `storage` gives the record in each. The mutex makes
-- each call one step. The links of a slot, which `acquire` also resets, stand in Level. A `none` result is an access past the end of `free_slots_`.
pub mod Stack
pub mod Size
use multi_instrument_orderbo.Prelude.{
  ℕ, zero, suc, ◌+◌, ◌-◌, if◌then◌else◌, ◌==◌, ltb, Option, none, some, List, [], ◌∷◌, ◌++◌, ◌>>=◌,
  length, get_elem?, set, take,
}
use multi_instrument_orderbo.Types.{Order, blank_order}

pub record Pool : Type 0 where
  pub storage : ℕ → Order
  pub capacity : ℕ
  pub free_slots : List ℕ
  pub stack_top : ℕ

-- A write of a whole record through the pointer `o`.
abbrev pub write : ℕ → Order → (ℕ → Order) → ℕ → Order
write o r f p = if o == p then r else f p

-- `std::iota` from `i`.
abbrev pub iota : ℕ → ℕ → List ℕ
iota zero i = []
iota (suc n) i = i ∷ iota n (suc i)

abbrev pub new_pool : ℕ → Pool
new_pool capacity = record {
  storage = λ o. blank_order;
  capacity = capacity;
  free_slots = iota capacity 0;
  stack_top = capacity;
}

-- The inner `none` is the null pointer of a full pool.
unfoldable pub acquire : Pool → Option (Pool × Option ℕ)
acquire p = if p.stack_top == 0 then some (p, none) else do
  o ← get_elem? p.free_slots (p.stack_top - 1)
  some (record p { storage = write o blank_order p.storage; stack_top = p.stack_top - 1 }, some o)

unfoldable pub release : ℕ → Pool → Option Pool
release o p =
    if ltb p.stack_top (length p.free_slots)
    then some
        (record p { free_slots = set p.free_slots p.stack_top o; stack_top = p.stack_top + 1 })
    else none

-- The slots that `acquire` can still hand out.
abbrev pub free : Pool → List ℕ
free p = take p.stack_top p.free_slots

-- `none` is also the call of `std::abort`.
unfoldable acquire_or_abort : Pool → Option (Pool × ℕ)
unfolding acquire
acquire_or_abort p = do (pool, got) ← acquire p; o ← got; some (pool, o)

abbrev available_approx : Pool → ℕ
available_approx p = p.stack_top
