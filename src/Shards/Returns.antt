-- ===== src/Shards/Returns.antt =====
-- `wait_idle` of `ShardedMatcher` returns, and its workers end behind `stop`.
use multi_instrument_orderbo.Prelude.{
  ℕ, ◌+◌, ◌-◌, ◌*◌, ◌<◌, ◌≤◌, ◌≡◌, refl, sym, ap, ◌∙◌, Bool, true, some, List, [], ◌∷◌, ◌++◌, ◌>>=◌,
  length, arith, All, >>=-eq-some, some-eq, Option-cases, Bool-cases, inl, inr,
}
use multi_instrument_orderbo.Level.{Links}
use multi_instrument_orderbo.Registry.{Registry}
use multi_instrument_orderbo.Shards.{
  Command, Worker, main_loop, drain_loop, at_top, holds, served, exited, ShardedMatcher, is_idle,
  Turns, run_turns, wait_idle, turn,
}
use multi_instrument_orderbo.Shards.Threads.{Producer, outside, pushed, stopped, Log}
use multi_instrument_orderbo.Shards.Accounts.{in_hand, uncounted}
use multi_instrument_orderbo.Shards.Size.{Run-num_shards}
use multi_instrument_orderbo.Shards.Interleaved.{Run-Accounted}
use multi_instrument_orderbo.Shards.Waiting.{
  taken_bounds, Inside, all_sent-done, all_done-of_equal, busy_shard, Quiet, Drained,
  wait_idle-Drained,
}
use multi_instrument_orderbo.Shards.Measure.{in_progress, to_exit, exit_turns, turns_left}
use multi_instrument_orderbo.Shards.Progress.{turns_of, run_turns_left, At}

at_end : (w : Worker) → in_progress w ≡ 0 → (length (in_hand w) ≡ 0) × (uncounted w ≡ 0)
at_end (at_top loop) h = (refl, refl)
at_end (holds loop cmd) h = absurd (omega (arith, h))
at_end (served loop) h = absurd (omega (arith, h))
at_end exited h = (refl, refl)

left_bound :
    (p : Producer) (sent done : List Command) (w : Worker)
    → length done + length (in_hand w) ≤ length sent
    → turns_left p sent done w ≤ 3 * (length sent - length done) + 1 + exit_turns p w
left_bound p sent done (at_top loop) h = omega arith
left_bound p sent done (holds loop cmd) h = omega (arith, h)
left_bound p sent done (served loop) h = omega arith
left_bound p sent done exited h = omega arith

to_exit-le : (p : Producer) (w : Worker) → exit_turns p w ≤ 2
to_exit-le outside w = omega arith
to_exit-le (pushed i) w = omega arith
to_exit-le stopped (at_top main_loop) = omega arith
to_exit-le stopped (at_top drain_loop) = omega arith
to_exit-le stopped (holds main_loop cmd) = omega arith
to_exit-le stopped (holds drain_loop cmd) = omega arith
to_exit-le stopped (served main_loop) = omega arith
to_exit-le stopped (served drain_loop) = omega arith
to_exit-le stopped exited = omega arith

exited-of_zero : (w : Worker) → to_exit w ≡ 0 → w ≡ exited
exited-of_zero (at_top main_loop) h = absurd (omega (arith, h))
exited-of_zero (at_top drain_loop) h = absurd (omega (arith, h))
exited-of_zero (holds main_loop cmd) h = absurd (omega (arith, h))
exited-of_zero (holds drain_loop cmd) h = absurd (omega (arith, h))
exited-of_zero (served main_loop) h = absurd (omega (arith, h))
exited-of_zero (served drain_loop) h = absurd (omega (arith, h))
exited-of_zero exited h = refl

run_turns-append :
    (ts us : Turns) (s : ShardedMatcher)
    → run_turns (ts ++ us) s ≡ (run_turns ts s >>= run_turns us)
unfolding run_turns
run_turns-append [] us s = refl
run_turns-append ((i, c) ∷ ts) us s = elim (Option-cases (turn c i s)) [
  | inl e ↦ rw e refl
  | inr (s', e) ↦ rw e (run_turns-append ts us s')
]

abbrev pub flat : List Turns → Turns
flat [] = []
flat (ts ∷ yields) = ts ++ flat yields

Inside-append : (n : ℕ) (ts us : Turns) → Inside n ts → Inside n us → Inside n (ts ++ us)
Inside-append n [] us h g = g
Inside-append n (t ∷ ts) us h g = (h.0, Inside-append n ts us h.1 g)

flat-Inside : (n : ℕ) (yields : List Turns) → All (Inside n) yields → Inside n (flat yields)
flat-Inside n [] h = tt
flat-Inside n (ts ∷ yields) h = Inside-append n ts (flat yields) h.0 (flat-Inside n yields h.1)

-- `wait_idle` answers where the turns run, and it has returned at the latest behind them all.
wait_idle-runs :
    (yields : List Turns) (s last : ShardedMatcher)
    → run_turns (flat yields) s ≡ some last
    → (s' : ShardedMatcher) × (b : Bool) × (wait_idle yields s ≡ some (s', b))
      × (is_idle last ≡ true → b ≡ true)
unfolding wait_idle run_turns
wait_idle-runs [] s last e = (s, is_idle s, refl, λ f. ap is_idle (some-eq e) ∙ f)
wait_idle-runs (ts ∷ yields) s last e = elim (Bool-cases (is_idle s)) [
  | inl idle ↦ (s, true, rw (idle, wait_idle) refl, λ f. refl)
  | inr busy ↦
      let (mid, ran, rest) =
        >>=-eq-some (run_turns ts s) (run_turns (flat yields)) _
          (sym (run_turns-append ts (flat yields) s) ∙ e) in
      let (s', b, answer, idle) = wait_idle-runs yields mid last rest in
      (s', b, rw (busy, wait_idle) (rw ran answer), idle)
]

module _ (registry : Registry) (lk : Links) (n capacity : ℕ) (sent done : Log)
    (s : ShardedMatcher) where
  -- Each shard gets three turns for each command it has left, and `extra` ones.
  abbrev pub Enough : ℕ → Turns → Type 0
  Enough extra ts =
      (i : ℕ) → i < n → 3 * (length (sent i) - length (done i)) + extra ≤ turns_of i ts

  turns_left-zero :
      (p : Producer) (ts : Turns) (i : ℕ)
      → At registry lk n capacity sent done s p
      → 3 * (length (sent i) - length (done i)) + 1 + exit_turns p (s.shards i).worker
        ≤ turns_of i ts
      → turns_left p (sent i) (done i) (s.shards i).worker ≤ turns_of i ts
  turns_left-zero p ts i r enough =
      let h = Run-Accounted registry lk n capacity sent done _ r i in
      let bounds = taken_bounds i p (sent i) (done i) (s.shards i) h in
      omega (arith, left_bound p (sent i) (done i) (s.shards i).worker bounds.0, enough)

  idle_in_the_end :
      (ts : Turns) (last : ShardedMatcher)
      → Quiet registry lk n capacity sent done s
      → Inside n ts
      → Enough 1 ts
      → run_turns ts s ≡ some last
      → is_idle last ≡ true
  idle_in_the_end ts last r inside enough ran =
      let (done', r', left) =
        run_turns_left registry lk n capacity ts sent done outside s last r inside ran in
      let size = Run-num_shards registry lk n capacity sent done' _ r' in
      all_done-of_equal last.num_shards 0 last (λ i h g.
        let inside_n : i < n = omega (arith, g, size) in
        let zero_left : turns_left outside (sent i) (done' i) (last.shards i).worker ≤ 0 =
          omega
            (arith, left i, turns_left-zero outside ts i r (omega (arith, enough i inside_n))) in
        finished i done' last r' zero_left)
    where
      finished :
          (i : ℕ) (done' : Log) (t : ShardedMatcher)
          → Quiet registry lk n capacity sent done' t
          → turns_left outside (sent i) (done' i) (t.shards i).worker ≤ 0
          → (t.shards i).submitted ≡ (t.shards i).processed
      finished i done' t r' zero_left =
          let h = Run-Accounted registry lk n capacity sent done' _ r' i in
          let bounds = taken_bounds i outside (sent i) (done' i) (t.shards i) h in
          let (nothing, counted) = at_end (t.shards i).worker (omega (arith, zero_left)) in
          busy_shard i (sent i) (done' i) (t.shards i) h
            (all_sent-done i (sent i) (done' i) (t.shards i) h
              (omega (arith, zero_left, nothing, bounds.0)))
            counted

  -- How `wait_idle` ends.
  pub record Returned (yields : List Turns) : Type 0 where
    pub after : ShardedMatcher
    pub runs : wait_idle yields s ≡ some (after, true)
    pub drained : Drained registry lk n capacity sent after

  -- Once the producer has stopped calling: if the workers take, while `wait_idle` yields, three turns
  -- for each command that their shard has left and one more, and the engines do not fault in these
  -- turns, then `wait_idle` returns, and all that was sent has been carried out.
  pub wait_idle-Returned :
      (yields : List Turns) (last : ShardedMatcher)
      → Quiet registry lk n capacity sent done s
      → All (Inside n) yields
      → Enough 1 (flat yields)
      → run_turns (flat yields) s ≡ some last
      → Returned yields
  wait_idle-Returned yields last r inside enough ran =
      let (s', b, answer, idle) = wait_idle-runs yields s last ran in
      let returned =
        idle (idle_in_the_end (flat yields) last r (flat-Inside n yields inside) enough ran) in
      let runs : wait_idle yields s ≡ some (s', true) = answer ∙ ap (λ x. some (s', x)) returned in
      record {
        after = s';
        runs = runs;
        drained = wait_idle-Drained registry lk n capacity yields sent done s s' r inside runs;
      }

  -- How the workers end.
  pub record Ended (last : ShardedMatcher) : Type 0 where
    pub done_last : Log
    pub run : At registry lk n capacity sent done_last last stopped
    pub all_exited : (i : ℕ) → i < n → (last.shards i).worker ≡ exited
    pub all_carried_out : (i : ℕ) → i < n → sent i ≡ done_last i

  -- Behind the destructor's first loop: if every worker takes three turns for each command that its
  -- shard has left and three more, and the engines do not fault in these turns, then every worker
  -- has left `run_shard`, with all that was sent carried out.
  pub stopped-Ended :
      (ts : Turns) (last : ShardedMatcher)
      → At registry lk n capacity sent done s stopped
      → Inside n ts
      → Enough 3 ts
      → run_turns ts s ≡ some last
      → Ended last
  stopped-Ended ts last r inside enough ran =
      let (done', r', left) =
        run_turns_left registry lk n capacity ts sent done stopped s last r inside ran in
      let out = λ (i : ℕ) (h : i < n).
        let zero_left : turns_left stopped (sent i) (done' i) (last.shards i).worker ≤ 0 = omega (
          arith,
          left i,
          turns_left-zero stopped ts i r
              (omega (arith, enough i h, to_exit-le stopped (s.shards i).worker)),
        ) in
        exited-of_zero (last.shards i).worker (omega (arith, zero_left)) in
      record {
        done_last = done';
        run = r';
        all_exited = out;
        all_carried_out =
            λ i h. (Run-Accounted registry lk n capacity sent done' _ r' i).phase.1 (out i h);
      }
