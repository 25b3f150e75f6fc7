-- ===== src/Prelude/Words.antt =====
-- Machine words: a `uintN_t` is a number below 2 ^ N, and its arithmetic wraps.
use Prim.Native.Nat.{ℕ, ◌+◌, ◌-◌, ◌%◌, ◌^◌, ◌≤◌, ◌<◌}
use mathlib.Core.Path.{◌≡◌}
use native.Mathlib.Omega.{arith}
use multi_instrument_orderbo.Prelude.Tests.{ltb, if◌then◌else◌}
use multi_instrument_orderbo.Prelude.Int.{ℤ, pos, negsuc, pos_part, neg_part}

abbrev pub u64_mod : ℕ
u64_mod = 2 ^ 64

-- `a + b` and `a - b` on `uint64_t`.
unfoldable pub add64 : ℕ → ℕ → ℕ
add64 a b = (a + b) % u64_mod

unfoldable pub sub64 : ℕ → ℕ → ℕ
sub64 a b = (a + u64_mod - b) % u64_mod

-- `static_cast<int64_t>(u)` and `static_cast<uint64_t>(z)`.
unfoldable pub to_i64 : ℕ → ℤ
to_i64 u = if ltb u (2 ^ 63) then pos u else negsuc (u64_mod - u - 1)

unfoldable pub to_u64 : ℤ → ℕ
to_u64 (pos n) = n % u64_mod
to_u64 (negsuc n) = u64_mod - 1 - n % u64_mod

-- The values of `int64_t`.
abbrev pub IsI64 : ℤ → Type 0
IsI64 z = (pos_part z < 2 ^ 63) × (neg_part z ≤ 2 ^ 63)

pub add64-exact : (a b : ℕ) → a + b < u64_mod → add64 a b ≡ a + b
unfolding add64
add64-exact a b h = omega arith

pub sub64-exact : (a b : ℕ) → b ≤ a → a < u64_mod → sub64 a b ≡ a - b
unfolding sub64
sub64-exact a b h k = omega arith

pub to_u64-lt : (z : ℤ) → to_u64 z < u64_mod
unfolding to_u64
to_u64-lt (pos n) = omega arith
to_u64-lt (negsuc n) = omega arith

pub to_i64-to_u64 : (z : ℤ) → IsI64 z → to_i64 (to_u64 z) ≡ z
unfolding to_i64 to_u64
to_i64-to_u64 (pos n) h = ground arith
to_i64-to_u64 (negsuc n) h = ground arith
