-- ===== src/Engine/Totals.antt =====
-- `Engine::latency_snapshot` against sums over all matchers.
use multi_instrument_orderbo.Prelude.{
  ℕ, ◌+◌, ◌%◌, ◌^◌, ◌<◌, ◌≡◌, refl, ◌∙◌, ap, some, List, [], ◌∷◌, arith, All, max, add64, get_elem?,
  none, length, zero, suc, subst, sym,
}
use multi_instrument_orderbo.Latency.{Snapshot, snapshot, zero_hist}
use multi_instrument_orderbo.Engine.{Slots, Engine, add_hist, larger, combine, latency_snapshot}

-- The exact number of samples of all matchers, and the greatest of their maxima.
abbrev pub total_count : Slots → ℕ
total_count [] = 0
total_count ((id, sl) ∷ m) = sl.stats.count + total_count m

abbrev pub greatest : Slots → ℕ
greatest [] = 0
greatest ((id, sl) ∷ m) = max sl.stats.max_ns (greatest m)

abbrev pub in_bucket : ℕ → List ℕ → ℕ
in_bucket i xs = elim (get_elem? xs i) [ none ↦ 0 | some n ↦ n ]

abbrev pub total_bucket : ℕ → Slots → ℕ
total_bucket i [] = 0
total_bucket i ((id, sl) ∷ m) = in_bucket i sl.stats.hist + total_bucket i m

combine-count :
    (m : Slots) (acc : Snapshot)
    → acc.count < 2 ^ 64
    → (combine m acc).count ≡ (acc.count + total_count m) % 2 ^ 64
unfolding combine snapshot add64
combine-count [] acc h = omega (arith, h)
combine-count ((id, sl) ∷ m) acc h = omega (
  arith,
  combine-count m
      (record acc {
        count = add64 acc.count sl.stats.count;
        max_ns = larger acc.max_ns sl.stats.max_ns;
        hist = add_hist acc.hist sl.stats.hist;
      })
      (omega arith),
)

combine-max : (m : Slots) (acc : Snapshot) → (combine m acc).max_ns ≡ max acc.max_ns (greatest m)
unfolding combine snapshot
combine-max [] acc = omega arith
combine-max ((id, sl) ∷ m) acc = ground (
  arith,
  combine-max m (record acc {
    count = add64 acc.count sl.stats.count;
    max_ns = larger acc.max_ns sl.stats.max_ns;
    hist = add_hist acc.hist sl.stats.hist;
  }),
)

combine-mean : (m : Slots) (acc : Snapshot) → (combine m acc).mean_ns ≡ acc.mean_ns
unfolding combine snapshot
combine-mean [] acc = refl
combine-mean ((id, sl) ∷ m) acc = combine-mean m _

length-add_hist : (xs ys : List ℕ) → length (add_hist xs ys) ≡ length xs
length-add_hist [] ys = refl
length-add_hist (x ∷ xs) [] = refl
length-add_hist (x ∷ xs) (y ∷ ys) = ap suc (length-add_hist xs ys)

in_bucket-add_hist :
    (i : ℕ) (xs ys : List ℕ)
    → i < length xs
    → length xs ≡ length ys
    → in_bucket i (add_hist xs ys) ≡ (in_bucket i xs + in_bucket i ys) % 2 ^ 64
unfolding add64
in_bucket-add_hist i [] ys h e = absurd (omega (arith, h))
in_bucket-add_hist i (x ∷ xs) [] h e = absurd (omega (arith, e))
in_bucket-add_hist zero (x ∷ xs) (y ∷ ys) h e = refl
in_bucket-add_hist (suc i) (x ∷ xs) (y ∷ ys) h e =
    in_bucket-add_hist i xs ys (omega (arith, h)) (omega (arith, e))

combine-bucket :
    (i : ℕ) (m : Slots) (acc : Snapshot)
    → i < length acc.hist
    → in_bucket i acc.hist < 2 ^ 64
    → All (λ e. length acc.hist ≡ length e.1.stats.hist) m
    → in_bucket i (combine m acc).hist ≡ (in_bucket i acc.hist + total_bucket i m) % 2 ^ 64
unfolding combine snapshot
combine-bucket i [] acc h k a = omega (arith, k)
combine-bucket i ((id, sl) ∷ m) acc h k a =
    let next : Snapshot = record acc {
      count = add64 acc.count sl.stats.count;
      max_ns = larger acc.max_ns sl.stats.max_ns;
      hist = add_hist acc.hist sl.stats.hist;
    } in
    let here = in_bucket-add_hist i acc.hist sl.stats.hist h a.0 in
    let kept = length-add_hist acc.hist sl.stats.hist in
    omega (
      arith,
      here,
      combine-bucket i m next (omega (arith, kept, h)) (omega (arith, here))
          (subst (λ n. All (λ e. n ≡ length e.1.stats.hist) m) (sym kept) a.1),
    )

abbrev zeros : Snapshot
zeros = record { count = 0; mean_ns = 0; max_ns = 0; hist = zero_hist }

zeros_empty : (i : ℕ) → in_bucket i zero_hist ≡ 0
zeros_empty zero = refl
zeros_empty (suc zero) = refl
zeros_empty (suc (suc zero)) = refl
zeros_empty (suc (suc (suc zero))) = refl
zeros_empty (suc (suc (suc (suc zero)))) = refl
zeros_empty (suc (suc (suc (suc (suc i))))) = refl

-- What `latency_snapshot` adds up.
pub record Combined (e : Engine) : Type 0 where
  pub count_total : (latency_snapshot e).count ≡ total_count e.matchers % 2 ^ 64
  pub max_total : (latency_snapshot e).max_ns ≡ greatest e.matchers
  pub hist_total :
      (i : ℕ) → i < 5 → in_bucket i (latency_snapshot e).hist ≡ total_bucket i e.matchers % 2 ^ 64
  pub mean_unset : (latency_snapshot e).mean_ns ≡ 0

-- Where the histogram of each matcher has five buckets, `latency_snapshot` gives the number of all
-- samples and the number in each bucket, both modulo 2 ^ 64, and the greatest latency of all matchers.
-- The mean that it gives is zero, whatever was measured.
pub latency_snapshot-Combined :
    (e : Engine) → All (λ s. 5 ≡ length s.1.stats.hist) e.matchers → Combined e
unfolding latency_snapshot
latency_snapshot-Combined e h = record {
  count_total = omega (arith, combine-count e.matchers zeros (omega arith));
  max_total = combine-max e.matchers zeros ∙ omega arith;
  hist_total = λ i k.
      combine-bucket i e.matchers zeros k (omega (arith, zeros_empty i)) h
      ∙ ap (λ n. (n + total_bucket i e.matchers) % 2 ^ 64) (zeros_empty i)
      ∙ omega arith;
  mean_unset = combine-mean e.matchers zeros;
}
