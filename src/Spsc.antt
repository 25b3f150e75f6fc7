-- ===== src/Spsc.antt =====
-- `SpscRingBuffer` of include/ordbk/utils/spsc_ring_buffer.hpp: a ring of `capacity` slots with one
-- producer and one consumer. The capacity is a power of two, so that `i & kMask` is
-- `i % capacity`. `push` and `pop` run undisturbed here; Threads takes them apart.
pub mod Slots
pub mod Stores
pub mod Threads
pub mod Queue
pub mod Calls
mod Tests
use multi_instrument_orderbo.Prelude.{
  ℕ, ◌+◌, ◌-◌, ◌%◌, Bool, true, false, if◌then◌else◌, ◌==◌, Option, none, some,
}

pub record Ring {ℓ} (A : Type ℓ) : Type ℓ where
  pub head : ℕ
  pub tail : ℕ
  pub buffer : ℕ → A

-- `empty` and the fresh ring, whose slots hold the element type's default.
abbrev pub new_ring {ℓ} : {A : Type ℓ} → A → Ring A
new_ring default = record { head = 0; tail = 0; buffer = λ i. default }

abbrev pub store {ℓ} : {A : Type ℓ} → ℕ → A → (ℕ → A) → ℕ → A
store i v buffer j = if i == j then v else buffer j

unfoldable pub push {ℓ} : {A : Type ℓ} → ℕ → A → Ring A → Ring A × Bool
push capacity value r =
    let next = (r.tail + 1) % capacity in
    if next == r.head
    then (r, false)
    else (record r { buffer = store r.tail value r.buffer; tail = next }, true)

unfoldable pub pop {ℓ} : {A : Type ℓ} → ℕ → Ring A → Ring A × Option A
pop capacity r =
    if r.head == r.tail
    then (r, none)
    else (record r { head = (r.head + 1) % capacity }, some (r.buffer r.head))

unfoldable pub is_empty {ℓ} : {A : Type ℓ} → Ring A → Bool
is_empty r = r.head == r.tail

-- `(t - h) & kMask` in words of 64 bits, which `capacity` divides.
unfoldable pub approx_size {ℓ} : {A : Type ℓ} → ℕ → Ring A → ℕ
approx_size capacity r = (r.tail + capacity - r.head) % capacity
