-- ===== src/Latency/Counters.antt =====
-- `LatencyTracker::record`: the count, the histogram and the maximum.
use multi_instrument_orderbo.Prelude.{
  ℕ, zero, suc, ◌+◌, ◌≤◌, ◌<◌, ◌%◌, ◌≡◌, refl, List, [], ◌∷◌, length, arith, add64, u64_mod, ◌∙◌,
}
use multi_instrument_orderbo.Latency.{LatencyTracker, bucket, bump, record_ns, new_tracker}

abbrev pub total : List ℕ → ℕ
total [] = 0
total (x ∷ xs) = x + total xs

-- Five buckets hold as many samples as were recorded, in words of 64 bits.
record IsConsistent (t : LatencyTracker) : Type 0 where
  pub buckets : length t.hist ≡ 5
  pub counted : total t.hist % u64_mod ≡ t.count

length-bump : (i : ℕ) (xs : List ℕ) → length (bump i xs) ≡ length xs
unfolding bump
length-bump i [] = refl
length-bump zero (x ∷ xs) = refl
length-bump (suc i) (x ∷ xs) = omega (arith, length-bump i xs)

total-bump :
    (i : ℕ) (xs : List ℕ) → i < length xs → total (bump i xs) % u64_mod ≡ (total xs + 1) % u64_mod
unfolding bump add64
total-bump i [] h = absurd (omega arith)
total-bump zero (x ∷ xs) h = omega arith
total-bump (suc i) (x ∷ xs) h = omega (arith, total-bump i xs (omega arith))

bucket-lt : (ns : ℕ) → bucket ns < 5
unfolding bucket
bucket-lt ns = ground arith

new_tracker-IsConsistent : IsConsistent new_tracker
new_tracker-IsConsistent = record { buckets = refl; counted = refl }

-- `record` keeps the buckets and the count in step, never lowers the maximum, and leaves it no less
-- than the sample.
record_ns-IsConsistent :
    (ns : ℕ) (t : LatencyTracker)
    → IsConsistent t
    → IsConsistent (record_ns ns t)
      × (t.max_ns ≤ (record_ns ns t).max_ns)
      × (ns ≤ (record_ns ns t).max_ns)
unfolding record_ns add64
record_ns-IsConsistent ns t h = (
  record { buckets = length-bump (bucket ns) t.hist ∙ h.buckets; counted = kept },
  ground arith,
  ground arith,
)
  where
    kept : total (bump (bucket ns) t.hist) % u64_mod ≡ add64 t.count 1
    kept =
        omega
          (arith, total-bump (bucket ns) t.hist (omega (arith, bucket-lt ns, h.buckets)), h.counted)
