-- ===== src/Shards/Waiting.antt =====
-- `wait_idle` and the destructor of `ShardedMatcher`: when they return, and what holds then.
use multi_instrument_orderbo.Prelude.{
  ℕ, zero, suc, ◌+◌, ◌%◌, ◌<◌, ◌≤◌, ◌≡◌, refl, sym, ap, subst, ◌∙◌, true, some, List, [], ◌∷◌, ◌++◌,
  length, length-append, append_assoc, arith, u64_mod, All, >>=-eq-some, some-eq, Bool-cases, inl,
  inr,
}
use native.Mathlib.Decide.{ℕ_discrete}
use multi_instrument_orderbo.Level.{Links}
use multi_instrument_orderbo.Registry.{Registry}
use multi_instrument_orderbo.Spsc.{is_empty}
use multi_instrument_orderbo.Spsc.Queue.{Run-Holds, Run-answers, count_left}
use multi_instrument_orderbo.Spsc.Calls.{at_rest}
use multi_instrument_orderbo.Shards.{
  Command, blank_command, queue_capacity, Worker, at_top, holds, served, exited, Shard,
  ShardedMatcher, all_done, is_idle, Turns, run_turns, wait_idle, turn,
}
use multi_instrument_orderbo.Shards.Threads.{Producer, outside, Log, Run, takes_turn, log_done}
use multi_instrument_orderbo.Shards.Accounts.{Accounted, in_hand, uncounted}
use multi_instrument_orderbo.Shards.Size.{Run-num_shards}
use multi_instrument_orderbo.Shards.Interleaved.{Run-Accounted}

module _ (i : ℕ) (p : Producer) (sent done : List Command) (sh : Shard)
    (h : Accounted i p sent done sh) where
  abbrev taken_count : ℕ
  taken_count = length done + length (in_hand sh.worker)

  pub got_count : length h.got ≡ taken_count
  got_count = ap length h.taken ∙ length-append done (in_hand sh.worker)

  -- No more is taken than was sent, and the rest fits the queue.
  pub taken_bounds : (taken_count ≤ length sent) × (length sent < taken_count + queue_capacity)
  taken_bounds =
      let ring =
        Run-Holds queue_capacity blank_command sent h.got (at_rest sh.queue) (omega arith)
          h.queued in
      let all = count_left queue_capacity (omega arith) ring in
      (omega (arith, all, got_count), omega (arith, all, got_count, ring.room))

same_length {ℓ} : {A : Type ℓ} (xs ys : List A) → length (xs ++ ys) ≡ length xs → xs ++ ys ≡ xs
same_length [] [] h = refl
same_length [] (y ∷ ys) h = absurd (omega (arith, h))
same_length (x ∷ xs) ys h = ap (◌∷◌ x) (same_length xs ys (omega (arith, h)))

uncounted-le : (w : Worker) → uncounted w + length (in_hand w) ≤ 1
uncounted-le (at_top loop) = omega arith
uncounted-le (holds loop cmd) = omega arith
uncounted-le (served loop) = omega arith
uncounted-le exited = omega arith

module _ (i : ℕ) (sent done : List Command) (sh : Shard)
    (h : Accounted i outside sent done sh) where
  equal_counters : sh.submitted ≡ sh.processed → length done ≡ length sent
  equal_counters e = omega (
    arith,
    taken_bounds i outside sent done sh h,
    uncounted-le sh.worker,
    h.counted_all,
    h.finished_all,
    sym h.submitted ∙ e ∙ h.processed,
  )

  pub all_sent-done : length done ≡ length sent → sent ≡ done
  all_sent-done e =
      let ring =
        Run-Holds queue_capacity blank_command sent h.got (at_rest sh.queue) (omega arith)
          h.queued in
      let split : sent ≡ done ++ (in_hand sh.worker ++ ring.queue) =
        ring.split
        ∙ ap (λ xs. xs ++ ring.queue) h.taken
        ∙ append_assoc done (in_hand sh.worker) ring.queue in
      split ∙ same_length done (in_hand sh.worker ++ ring.queue) (sym (ap length split) ∙ sym e)

  -- Equal counters of a shard that no call is at: all that was sent is carried out.
  pub idle_shard : sh.submitted ≡ sh.processed → (sent ≡ done) × (is_empty sh.queue ≡ true)
  idle_shard e =
      let all = equal_counters e in
      let empty =
        (Run-answers queue_capacity blank_command blank_command sent h.got (at_rest sh.queue)
          (omega arith) h.queued).1 in
      (
        all_sent-done all,
        ground (
          arith,
          empty,
          all,
          got_count i outside sent done sh h,
          taken_bounds i outside sent done sh h,
        ),
      )

  pub busy_shard : sent ≡ done → uncounted sh.worker ≡ 0 → sh.submitted ≡ sh.processed
  busy_shard e f =
      let same : h.counted ≡ h.finished =
        omega (arith, h.counted_all, h.finished_all, f, ap length e) in
      h.submitted ∙ ap (λ n. n % u64_mod) same ∙ sym h.processed

-- The inner loop answers `true` exactly where the counters of every shard it looks at are equal.
all_done-equal :
    (k i : ℕ) (s : ShardedMatcher)
    → all_done k i s ≡ true
    → (j : ℕ) → i ≤ j
    → j < i + k
    → (s.shards j).submitted ≡ (s.shards j).processed
unfolding all_done
all_done-equal zero i s e j h g = absurd (omega (arith, h, g))
all_done-equal (suc k) i s e j h g = elim (ℕ_discrete i j) [
  | yes same ↦ subst (λ m. (s.shards m).submitted ≡ (s.shards m).processed) same (ground (arith, e))
  | no ne ↦
      all_done-equal k (suc i) s (ground (arith, e)) j (ground (arith, h, ne)) (omega (arith, g))
]

pub all_done-of_equal :
    (k i : ℕ) (s : ShardedMatcher)
    → ((j : ℕ) → i ≤ j → j < i + k → (s.shards j).submitted ≡ (s.shards j).processed)
    → all_done k i s ≡ true
unfolding all_done
all_done-of_equal zero i s f = refl
all_done-of_equal (suc k) i s f =
    let rest = all_done-of_equal k (suc i) s (λ j h g. f j (omega (arith, h)) (omega (arith, g))) in
    ground (arith, f i (omega arith) (omega arith), rest)

-- Every turn is one of a worker that exists.
abbrev pub Inside : ℕ → Turns → Type 0
Inside n ts = All (λ t. t.0 < n) ts

module _ (registry : Registry) (lk : Links) (n capacity : ℕ) where
  -- The producer is outside of its calls.
  abbrev pub Quiet : Log → Log → ShardedMatcher → Type 0
  Quiet sent done s = Run registry lk n capacity sent done (record { core = s; producer = outside })

  Quiet-turns :
      (ts : Turns) (sent done : Log) (s s' : ShardedMatcher)
      → Quiet sent done s
      → Inside n ts
      → run_turns ts s ≡ some s'
      → (done' : Log) × Quiet sent done' s'
  unfolding run_turns
  Quiet-turns [] sent done s s' r inside e = (done, subst (Quiet sent done) (some-eq e) r)
  Quiet-turns ((i, c) ∷ ts) sent done s s' r inside e =
      let (mid, one, rest) = >>=-eq-some (turn c i s) _ _ e in
      Quiet-turns ts sent (log_done i (s.shards i).worker done) mid s'
        (takes_turn mid c i r inside.0 one) inside.1 rest

  -- All that was sent is carried out, and no queue holds a command.
  pub record Drained (sent : Log) (s : ShardedMatcher) : Type 0 where
    pub done : Log
    pub run : Quiet sent done s
    pub all_carried_out : (i : ℕ) → i < n → sent i ≡ done i
    pub empty : (i : ℕ) → i < n → is_empty (s.shards i).queue ≡ true

  Drained-of_idle :
      (sent done : Log) (s : ShardedMatcher) → Quiet sent done s → is_idle s ≡ true → Drained sent s
  Drained-of_idle sent done s r e =
      let accounts = Run-Accounted registry lk n capacity sent done _ r in
      let size = Run-num_shards registry lk n capacity sent done _ r in
      let equal = all_done-equal s.num_shards 0 s e in
      let shard = λ (i : ℕ) (h : i < n).
        idle_shard i (sent i) (done i) (s.shards i) (accounts i)
          (equal i (omega arith) (omega (arith, h, size))) in
      record {
        done = done;
        run = r;
        all_carried_out = λ i h. (shard i h).0;
        empty = λ i h. (shard i h).1;
      }

  -- When `wait_idle` returns, whatever turns the workers have taken meanwhile, all commands enqueued
  -- before the call have been carried out, each shard's in the order sent, and all queues are empty.
  pub wait_idle-Drained :
      (yields : List Turns) (sent done : Log) (s s' : ShardedMatcher)
      → Quiet sent done s
      → All (Inside n) yields
      → wait_idle yields s ≡ some (s', true)
      → Drained sent s'
  unfolding wait_idle
  wait_idle-Drained [] sent done s s' r inside e =
      subst (Drained sent) (ap (λ x. x.0) (some-eq e))
        (Drained-of_idle sent done s r (ap (λ x. x.1) (some-eq e)))
  wait_idle-Drained (ts ∷ yields) sent done s s' r inside e = elim (Bool-cases (is_idle s)) [
    | inl idle ↦
        subst (Drained sent) (ap (λ x. x.0) (some-eq (rw (idle, wait_idle) at e)))
          (Drained-of_idle sent done s r idle)
    | inr busy ↦
        let (mid, ran, rest) = >>=-eq-some (run_turns ts s) _ _ (rw (busy, wait_idle) at e) in
        let (done', r') = Quiet-turns ts sent done s mid r inside.0 ran in
        wait_idle-Drained yields sent done' mid s' r' inside.1 rest
  ]
