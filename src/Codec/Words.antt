-- ===== src/Codec/Words.antt =====
-- A word read back from its bytes.
use multi_instrument_orderbo.Prelude.{
  ℕ, zero, suc, ◌+◌, ◌*◌, ◌/◌, ◌<◌, ◌≡◌, refl, ap, ◌∙◌, Option, some, List, ◌++◌, ◌>>=◌, length,
  take, drop, arith, ℤ, IsI64, to_u64, to_u64-lt, to_i64-to_u64,
}
use multi_instrument_orderbo.Codec.{BufferReader, le, value, read_word, read_i64}

-- 256 ^ n
abbrev pub range : ℕ → ℕ
range zero = 1
range (suc n) = 256 * range n

value-le : (n v : ℕ) (rest : List ℕ) → v < range n → value (take n (le n v ++ rest)) ≡ v
unfolding value le
value-le zero v rest h = omega (arith, h)
value-le (suc n) v rest h = omega (arith, value-le n (v / 256) rest (omega (arith, h)))

drop-le : (n v : ℕ) (rest : List ℕ) → drop n (le n v ++ rest) ≡ rest
unfolding le
drop-le zero v rest = refl
drop-le (suc n) v rest = drop-le n (v / 256) rest

length-le : (n v : ℕ) (rest : List ℕ) → length (le n v ++ rest) ≡ n + length rest
unfolding le
length-le zero v rest = omega arith
length-le (suc n) v rest = omega (arith, length-le n (v / 256) rest)

-- The word in front of a reader.
pub read_word-le :
    (n v : ℕ) (rest : List ℕ) → v < range n → read_word n (le n v ++ rest) ≡ some (v, rest)
unfolding read_word
read_word-le n v rest h =
    let e = length-le n v rest in
    let f = value-le n v rest h in let g = drop-le n v rest in ground (arith, e, f, g)

-- A read in front of further reads, and a signed one.
pub read_word-then {ℓ} :
    {B : Type ℓ} (n v : ℕ) (rest : List ℕ) (f : ℕ × BufferReader → Option B) (b : Option B)
    → v < range n
    → f (v, rest) ≡ b
    → (read_word n (le n v ++ rest) >>= f) ≡ b
read_word-then n v rest f b h e = ap (λ o. o >>= f) (read_word-le n v rest h) ∙ e

pub read_i64-then {ℓ} :
    {B : Type ℓ} (z : ℤ) (rest : List ℕ) (f : ℤ × BufferReader → Option B) (b : Option B)
    → IsI64 z
    → f (z, rest) ≡ b
    → (read_i64 (le 8 (to_u64 z) ++ rest) >>= f) ≡ b
unfolding read_i64
read_i64-then z rest f b h e =
    ap (λ o. o >>= f)
      (read_word-then 8 (to_u64 z) rest _ (some (z, rest)) (to_u64-lt z)
        (ap (λ y. some (y, rest)) (to_i64-to_u64 z h)))
    ∙ e
