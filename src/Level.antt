-- ===== src/Level.antt =====
-- `PriceLevel` of include/ordbk/orderbook/orderbook.hpp: the intrusive doubly linked list of the
-- orders at one price. An order is named by its slot in the pool, and the fields `level_prev` and
-- `level_next` of all orders are two maps over the slots, so that a write through one pointer is
-- seen through every other. `none` is the null pointer, and a `none` result of an operation is the
-- read of a field through a null pointer.
pub mod Chain
pub mod Refine
pub mod Erase
use multi_instrument_orderbo.Prelude.{
  ℕ, zero, suc, ◌≡◌, Bool, true, false, ◌==◌, if◌then◌else◌, Option, none, some, List, [], ◌∷◌,
  ◌>>=◌,
}

pub record Links : Type 0 where
  pub level_prev : ℕ → Option ℕ
  pub level_next : ℕ → Option ℕ

pub record PriceLevel : Type 0 where
  pub head : Option ℕ
  pub tail : Option ℕ

-- A write of one field through the pointer `o`.
abbrev pub update : (ℕ → Option ℕ) → ℕ → Option ℕ → ℕ → Option ℕ
update f o v p = if o == p then v else f p

abbrev pub set_prev : ℕ → Option ℕ → Links → Links
set_prev o v lk = record lk { level_prev = update lk.level_prev o v }

abbrev pub set_next : ℕ → Option ℕ → Links → Links
set_next o v lk = record lk { level_next = update lk.level_next o v }

-- `o->level_prev = o->level_next = nullptr`
unfoldable pub unlink : ℕ → Links → Links
unlink o lk = set_prev o none (set_next o none lk)

abbrev pub empty_level : PriceLevel
empty_level = record { head = none; tail = none }

unfoldable pub is_empty : PriceLevel → Bool
is_empty l = elim l.head [ none ↦ true | some o ↦ false ]

abbrev pub front : PriceLevel → Option ℕ
front l = l.head

unfoldable pub push_back : ℕ → Links → PriceLevel → Links × PriceLevel
push_back o lk l =
    let lk' = set_next o none (set_prev o l.tail lk) in
    elim l.tail [
      | some t ↦ (set_next t (some o) lk', record l { tail = some o })
      | none ↦ (lk', record { head = some o; tail = some o })
    ]

unfoldable pub pop_front : Links → PriceLevel → Option (Links × PriceLevel)
unfolding unlink
pop_front lk l = elim l.head [
  | none ↦ none
  | some o ↦ elim (lk.level_next o) [
    | some n ↦ some (unlink o (set_prev n none lk), record l { head = some n })
    | none ↦ some (unlink o lk, empty_level)
  ]
]

-- The two tests of `erase`, in order: the second reads `level_next` and `level_prev` of `o`, which
-- the first write changes only where an order is its own neighbour.
erase_before : ℕ → Links → PriceLevel → Links × PriceLevel
erase_before o lk l = elim (lk.level_prev o) [
  | some p ↦ (set_next p (lk.level_next o) lk, l)
  | none ↦ (lk, record l { head = lk.level_next o })
]

erase_after : ℕ → Links → PriceLevel → Links × PriceLevel
erase_after o lk l = elim (lk.level_next o) [
  | some n ↦ (set_prev n (lk.level_prev o) lk, l)
  | none ↦ (lk, record l { tail = lk.level_prev o })
]

unfoldable pub erase : ℕ → Links → PriceLevel → Links × PriceLevel
unfolding erase_before erase_after unlink
erase o lk l =
    let (lk₁, l₁) = erase_before o lk l in
    let (lk₂, l₂) = erase_after o lk₁ l₁ in (unlink o lk₂, l₂)

-- The slots that a range `for` over the level visits, with `cur` the iterator, for at most `fuel`
-- of them.
unfoldable pub walk : ℕ → Links → Option ℕ → List ℕ
walk zero lk cur = []
walk (suc fuel) lk none = []
walk (suc fuel) lk (some o) = o ∷ walk fuel lk (lk.level_next o)
