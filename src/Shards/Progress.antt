-- ===== src/Shards/Progress.antt =====
-- How far the workers of `ShardedMatcher` are from the end of their work, turn by turn.
use multi_instrument_orderbo.Prelude.{
  ℕ, ◌+◌, ◌-◌, ◌≤◌, ◌≡◌, ◌≢◌, refl, sym, subst, ◌==◌, if◌then◌else◌, some, List, [], ◌∷◌, ◌++◌,
  arith, >>=-eq-some, some-eq,
}
use native.Mathlib.Decide.{ℕ_discrete}
use multi_instrument_orderbo.Level.{Links}
use multi_instrument_orderbo.Matcher.{Clock}
use multi_instrument_orderbo.Registry.{Registry}
use multi_instrument_orderbo.Shards.{
  Command, Worker, at_top, holds, served, exited, Shard, ShardedMatcher, Turns, run_turns, turn,
  turn_from, run_command, engine_of,
}
use multi_instrument_orderbo.Shards.Threads.{Producer, Log, Run, takes_turn, log_done}
use multi_instrument_orderbo.Spsc.Stores.{store_cases, two_stores}
use multi_instrument_orderbo.Shards.Interleaved.{Run-Accounted, AllAccounted}
use multi_instrument_orderbo.Shards.Waiting.{Inside}
use multi_instrument_orderbo.Shards.Measure.{
  turns_left, top_turn, serve_turn, count_turn, exited_turn, exited_done,
}

here_less : (i n m : ℕ) → n ≤ m - 1 → n ≤ m - (if i == i then 1 else 0)
here_less i n m h = ground (arith, h)

there_same : (i j n : ℕ) → i ≢ j → n ≤ n - (if i == j then 1 else 0)
there_same i j n ne = ground (arith, ne)

module _ (sent done : Log) (p : Producer) (s : ShardedMatcher) (i : ℕ) where
  -- A turn of the shard `i` leaves a shard `j` with these commands done.
  abbrev Fewer : ℕ → List Command → Shard → Type 0
  Fewer j done_j sh =
      turns_left p (sent j) done_j sh.worker
      ≤ turns_left p (sent j) (done j) (s.shards j).worker - (if i == j then 1 else 0)

  own_turn :
      (w : Worker) (n : ℕ)
      → (s.shards i).worker ≡ w
      → n ≤ turns_left p (sent i) (done i) w - 1
      → n ≤ turns_left p (sent i) (done i) (s.shards i).worker - (if i == i then 1 else 0)
  own_turn w n e h =
      here_less i n _ (subst (λ v. n ≤ turns_left p (sent i) (done i) v - 1) (sym e) h)

  -- What the worker of the shard `i` has left after its turn, and the others.
  turn_left :
      (s' : ShardedMatcher) (c : Clock) (w : Worker)
      → (s.shards i).worker ≡ w
      → turn_from w c i s ≡ some s'
      → AllAccounted sent done (record { core = s; producer = p })
      → (j : ℕ) → Fewer j (log_done i w done j) (s'.shards j)
  unfolding turn_from
  turn_left s' c (at_top loop) w e h =
      subst (λ t. (j : ℕ) → Fewer j (done j) (t.shards j)) (some-eq e)
        (store_cases (λ j sh. Fewer j (done j) sh) i _ s.shards
          (own_turn _ _ w (top_turn i p (sent i) (done i) (s.shards i) (h i) loop w))
          (λ j ne. there_same i j _ ne))
  turn_left s' c (holds loop cmd) w e h =
      let (e', ran, same) = >>=-eq-some (run_command c cmd (engine_of i s)) _ _ e in
      subst (λ t. (j : ℕ) → Fewer j (log_done i (holds loop cmd) done j) (t.shards j))
        (some-eq same)
        (two_stores Fewer i (done i ++ cmd ∷ []) _ done s.shards
          (own_turn _ _ w (serve_turn i p (sent i) (done i) (s.shards i) (h i) loop cmd w))
          (λ j ne. there_same i j _ ne))
  turn_left s' c (served loop) w e h =
      subst (λ t. (j : ℕ) → Fewer j (done j) (t.shards j)) (some-eq e)
        (store_cases (λ j sh. Fewer j (done j) sh) i _ s.shards
          (own_turn _ _ w (count_turn i p (sent i) (done i) (s.shards i) (h i) loop))
          (λ j ne. there_same i j _ ne))
  turn_left s' c exited w e h =
      subst (λ t. (j : ℕ) → Fewer j (done j) (t.shards j)) (some-eq e) still
    where
      still : (j : ℕ) → Fewer j (done j) (s.shards j)
      still j = elim (ℕ_discrete i j) [
        | yes same ↦
            subst (λ k. Fewer k (done k) (s.shards k)) same
              (own_turn exited _ w (
                subst
                  (λ v.
                    turns_left p (sent i) (done i) v ≤ turns_left p (sent i) (done i) exited - 1)
                  (sym w)
                  (exited_turn p (sent i) (done i) (
                    exited_done p (sent i) (done i) (s.shards i).stop (s.shards i).worker w
                      (h i).phase))))
        | no ne ↦ there_same i j _ ne
      ]

-- The turns of the shard `i` in a list.
abbrev pub turns_of : ℕ → Turns → ℕ
turns_of i [] = 0
turns_of i ((j, c) ∷ ts) = (if j == i then 1 else 0) + turns_of i ts

module _ (registry : Registry) (lk : Links) (n capacity : ℕ) where
  abbrev pub At : Log → Log → ShardedMatcher → Producer → Type 0
  At sent done s p = Run registry lk n capacity sent done (record { core = s; producer = p })

  pub run_turns_left :
      (ts : Turns) (sent done : Log) (p : Producer) (s s' : ShardedMatcher)
      → At sent done s p
      → Inside n ts
      → run_turns ts s ≡ some s'
      → (done' : Log) × At sent done' s' p
        × ((j : ℕ)
            → turns_left p (sent j) (done' j) (s'.shards j).worker
              ≤ turns_left p (sent j) (done j) (s.shards j).worker - turns_of j ts)
  unfolding run_turns turn
  run_turns_left [] sent done p s s' r inside e = (
    done,
    subst (λ t. At sent done t p) (some-eq e) r,
    λ j.
        subst
          (λ t.
            turns_left p (sent j) (done j) (t.shards j).worker
            ≤ turns_left p (sent j) (done j) (s.shards j).worker - 0)
          (some-eq e) (omega arith),
  )
  run_turns_left ((i, c) ∷ ts) sent done p s s' r inside e =
      let (mid, one, rest) = >>=-eq-some (turn c i s) _ _ e in
      let w = (s.shards i).worker in
      let (done', r', left) =
        run_turns_left ts sent (log_done i w done) p mid s' (takes_turn mid c i r inside.0 one)
          inside.1 rest in
      let first =
        turn_left sent done p s i mid c w refl one
          (Run-Accounted registry lk n capacity sent done _ r) in
      (done', r', λ j. omega (arith, left j, first j))
