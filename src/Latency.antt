-- ===== src/Latency.antt =====
-- `LatencyTracker` of include/ordbk/utils/latency.hpp: the counters, the running maximum and the
-- histogram of five buckets. The atomic operations of one call run undisturbed, so that the
-- compare-and-swap loop stores the larger value.
pub mod Counters
use multi_instrument_orderbo.Prelude.{
  ℕ, zero, suc, ◌+◌, ◌/◌, ◌≡◌, if◌then◌else◌, ◌==◌, ltb, add64, List, [], ◌∷◌, set, Option, none,
  some, get_elem?, arith, refl,
}

pub record LatencyTracker : Type 0 where
  pub count : ℕ
  pub sum_ns : ℕ
  pub max_ns : ℕ
  pub hist : List ℕ

abbrev pub zero_hist : List ℕ
zero_hist = 0 ∷ 0 ∷ 0 ∷ 0 ∷ 0 ∷ []

-- A fresh tracker, and what `reset` leaves.
abbrev pub new_tracker : LatencyTracker
new_tracker = record { count = 0; sum_ns = 0; max_ns = 0; hist = zero_hist }

unfoldable pub bucket : ℕ → ℕ
bucket ns =
    if ltb ns 1000
    then 0
    else if ltb ns 10000
    then 1
    else if ltb ns 100000
    then 2
    else if ltb ns 1000000
    then 3
    else 4

bump : ℕ → List ℕ → List ℕ
bump i [] = []
bump zero (x ∷ xs) = add64 x 1 ∷ xs
bump (suc i) (x ∷ xs) = x ∷ bump i xs

unfoldable pub record_ns : ℕ → LatencyTracker → LatencyTracker
unfolding bucket bump add64
record_ns ns t = record {
  count = add64 t.count 1;
  sum_ns = add64 t.sum_ns ns;
  max_ns = if ltb t.max_ns ns then ns else t.max_ns;
  hist = bump (bucket ns) t.hist;
}

pub record Snapshot : Type 0 where
  pub count : ℕ
  pub mean_ns : ℕ
  pub max_ns : ℕ
  pub hist : List ℕ

unfoldable pub snapshot : LatencyTracker → Snapshot
snapshot t = record {
  count = t.count;
  mean_ns = if t.count == 0 then 0 else t.sum_ns / t.count;
  max_ns = t.max_ns;
  hist = t.hist;
}
