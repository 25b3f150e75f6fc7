-- ===== src/Shards/Measure.antt =====
-- What a worker of `ShardedMatcher` has left to do, and its own turns.
use multi_instrument_orderbo.Prelude.{
  ℕ, ◌+◌, ◌-◌, ◌*◌, ◌≤◌, ◌≡◌, refl, ap, subst, Bool, true, false, if◌then◌else◌, List, [], ◌∷◌,
  ◌++◌, length, length-append, arith, Option-cases, inl, inr,
}
use multi_instrument_orderbo.Spsc.{pop}
use multi_instrument_orderbo.Shards.{
  Command, queue_capacity, Worker, WorkerLoop, main_loop, drain_loop, at_top, holds, served, exited,
  Shard, poll, test_and_poll, when_empty,
}
use multi_instrument_orderbo.Shards.Threads.{Producer, outside, pushed, stopped}
use multi_instrument_orderbo.Shards.Accounts.{
  Accounted, Phase, nothing_left, in_main, in_hand, poll_found,
}
use multi_instrument_orderbo.Shards.Waiting.{taken_bounds}

-- The turns that a worker needs for the command it has in hand, and to leave `run_shard`.
abbrev pub in_progress : Worker → ℕ
in_progress (at_top loop) = 0
in_progress (holds loop cmd) = 2
in_progress (served loop) = 1
in_progress exited = 0

abbrev loops_left : WorkerLoop → ℕ
loops_left main_loop = 2
loops_left drain_loop = 1

abbrev pub to_exit : Worker → ℕ
to_exit (at_top loop) = loops_left loop
to_exit (holds loop cmd) = loops_left loop
to_exit (served loop) = loops_left loop
to_exit exited = 0

abbrev pub exit_turns : Producer → Worker → ℕ
exit_turns outside w = 0
exit_turns (pushed i) w = 0
exit_turns stopped w = to_exit w

abbrev pub turns_left : Producer → List Command → List Command → Worker → ℕ
turns_left p sent done w =
    3 * (length sent - (length done + length (in_hand w))) + in_progress w + exit_turns p w

when_empty_done : (loop : WorkerLoop) → in_progress (when_empty loop) ≡ 0
when_empty_done main_loop = refl
when_empty_done drain_loop = refl

exit_turns-at_top :
    (p : Producer) (loop : WorkerLoop) (cmd : Command)
    → exit_turns p (holds loop cmd) ≡ exit_turns p (at_top loop)
exit_turns-at_top outside loop cmd = refl
exit_turns-at_top (pushed i) loop cmd = refl
exit_turns-at_top stopped loop cmd = refl

exit_turns-served :
    (p : Producer) (loop : WorkerLoop) → exit_turns p (served loop) ≡ exit_turns p (at_top loop)
exit_turns-served outside loop = refl
exit_turns-served (pushed i) loop = refl
exit_turns-served stopped loop = refl

exit_turns-exited : (p : Producer) → exit_turns p exited ≡ 0
exit_turns-exited outside = refl
exit_turns-exited (pushed i) = refl
exit_turns-exited stopped = refl

exit_turns-drain : (p : Producer) → exit_turns p exited ≤ exit_turns p (at_top drain_loop) - 1
exit_turns-drain outside = omega arith
exit_turns-drain (pushed i) = omega arith
exit_turns-drain stopped = omega arith

exit_turns-main :
    (p : Producer) (sent done : List Command) (w : Worker)
    → Phase p sent done false w
    → exit_turns p (at_top main_loop) ≡ 0
exit_turns-main outside sent done w h = refl
exit_turns-main (pushed i) sent done w h = refl
exit_turns-main stopped sent done w h = absurd (cc)

exit_turns-stop :
    (p : Producer) (sent done : List Command) (w : Worker)
    → Phase p sent done true w
    → exit_turns p (at_top drain_loop) + 1 ≡ exit_turns p (at_top main_loop)
exit_turns-stop outside sent done w h = absurd (cc)
exit_turns-stop (pushed i) sent done w h = absurd (cc)
exit_turns-stop stopped sent done w h = refl

module _ (i : ℕ) (p : Producer) (sent done : List Command) (sh : Shard)
    (h : Accounted i p sent done sh) where
  poll_turn :
      (loop : WorkerLoop)
      → sh.worker ≡ at_top loop
      → exit_turns p (when_empty loop) ≤ exit_turns p (at_top loop) - 1
      → turns_left p sent done (poll loop sh).worker ≤ turns_left p sent done (at_top loop) - 1
  unfolding poll
  poll_turn loop w moves = elim (Option-cases (pop queue_capacity sh.queue).1) [
    | inl nothing ↦
        rw (nothing, poll)
          (omega (
            arith,
            ap length (nothing_left i p sent done sh h loop w nothing).1,
            when_empty_done loop,
            moves,
          ))
    | inr (cmd, found) ↦
        rw (found, poll)
          (omega (
            arith,
            (taken_bounds i p sent done _ (poll_found i p sent done sh h loop w cmd found)).0,
            exit_turns-at_top p loop cmd,
          ))
  ]

  main_turn :
      (stop : Bool)
      → sh.stop ≡ stop
      → sh.worker ≡ at_top main_loop
      → turns_left p sent done
          (if stop then record sh { worker = at_top drain_loop } else poll main_loop sh).worker
        ≤ turns_left p sent done (at_top main_loop) - 1
  main_turn true stop w =
      let one_less =
        exit_turns-stop p sent done sh.worker
          (subst (λ b. Phase p sent done b sh.worker) stop h.phase) in
      omega (arith, one_less)
  main_turn false stop w =
      let none_left =
        exit_turns-main p sent done sh.worker
          (subst (λ b. Phase p sent done b sh.worker) stop h.phase) in
      poll_turn main_loop w (omega (arith, none_left))

  pub top_turn :
      (loop : WorkerLoop)
      → sh.worker ≡ at_top loop
      → turns_left p sent done (test_and_poll loop sh).worker
        ≤ turns_left p sent done (at_top loop) - 1
  top_turn main_loop w = main_turn sh.stop refl w
  top_turn drain_loop w = poll_turn drain_loop w (exit_turns-drain p)

  pub serve_turn :
      (loop : WorkerLoop) (cmd : Command)
      → sh.worker ≡ holds loop cmd
      → turns_left p sent (done ++ cmd ∷ []) (served loop)
        ≤ turns_left p sent done (holds loop cmd) - 1
  serve_turn loop cmd w =
      omega (
        arith,
        length-append done (cmd ∷ []),
        exit_turns-at_top p loop cmd,
        exit_turns-served p loop,
      )

  pub count_turn :
      (loop : WorkerLoop)
      → turns_left p sent done (at_top loop) ≤ turns_left p sent done (served loop) - 1
  count_turn loop = omega (arith, exit_turns-served p loop)

pub exited_done :
    (p : Producer) (sent done : List Command) (stop : Bool) (w : Worker)
    → w ≡ exited
    → Phase p sent done stop w
    → sent ≡ done
exited_done outside sent done stop w e h = absurd (ground (arith, h.1, ap in_main e))
exited_done (pushed i) sent done stop w e h = absurd (ground (arith, h.1, ap in_main e))
exited_done stopped sent done stop w e h = h.1 e

pub exited_turn :
    (p : Producer) (sent done : List Command)
    → sent ≡ done
    → turns_left p sent done exited ≤ turns_left p sent done exited - 1
exited_turn p sent done e = omega (arith, ap length e, exit_turns-exited p)
