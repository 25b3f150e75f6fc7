-- ===== src/Shards/Tests.antt =====
-- The theorems on `ShardedMatcher` at the two shards of Example.
use multi_instrument_orderbo.Prelude.{ℕ, zero, suc, ◌<◌, refl, [], ◌∷◌, arith}
use multi_instrument_orderbo.Shards.{submit_command, cancel_command, submit, cancel}
use multi_instrument_orderbo.Shards.Building.{Built, new_sharded-Built}
use multi_instrument_orderbo.Shards.Threads.{System, outside}
use multi_instrument_orderbo.Shards.Interleaved.{AllAccounted, Run-Accounted}
use multi_instrument_orderbo.Shards.Homes.{Kept, Run-Kept}
use multi_instrument_orderbo.Shards.Waiting.{Inside, Drained, wait_idle-Drained}
use multi_instrument_orderbo.Shards.Calls.{Published, calls-Published}
use multi_instrument_orderbo.Shards.Returns.{
  Enough, Returned, wait_idle-Returned, Ended, stopped-Ended,
}
use multi_instrument_orderbo.Shards.Example.{
  registry, links, sent, nothing, submitted, submitted-Run, submitted_turns, stopping, stopping-Run,
  stopping-turns, turns, last_of, submitted_waits,
}

abbrev system : System
system = record { core = submitted; producer = outside }

turns-Inside : Inside 2 turns
turns-Inside =
    let one : 1 < 2 = omega arith in
    let nil : 0 < 2 = omega arith in
    (one, (nil, (one, (nil, (one, (nil, (one, (one, (one, tt)))))))))

submitted-Enough : Enough registry links 2 4 sent nothing submitted 1 turns
submitted-Enough zero h = omega arith
submitted-Enough (suc zero) h = omega arith
submitted-Enough (suc (suc i)) h = absurd (omega (arith, h))

stopping-Enough : Enough registry links 2 4 sent nothing stopping 3 turns
stopping-Enough zero h = omega arith
stopping-Enough (suc zero) h = omega arith
stopping-Enough (suc (suc i)) h = absurd (omega (arith, h))

wait_idle-Returned_example : Returned registry links 2 4 sent nothing submitted (turns ∷ [])
wait_idle-Returned_example =
    wait_idle-Returned registry links 2 4 sent nothing submitted (turns ∷ []) (last_of submitted)
      submitted-Run (turns-Inside, tt) submitted-Enough submitted_turns

wait_idle-Drained_example : Drained registry links 2 4 sent (last_of submitted)
wait_idle-Drained_example =
    wait_idle-Drained registry links 2 4 (turns ∷ []) sent nothing submitted (last_of submitted)
      submitted-Run (turns-Inside, tt) submitted_waits

stopped-Ended_example : Ended registry links 2 4 sent nothing stopping (last_of stopping)
stopped-Ended_example =
    stopped-Ended registry links 2 4 sent nothing stopping turns (last_of stopping) stopping-Run
      turns-Inside stopping-Enough stopping-turns

new_sharded-Built_example : Built registry links 2 4
new_sharded-Built_example = new_sharded-Built registry links 2 4 refl (omega arith)

Run-Accounted_example : AllAccounted sent nothing system
Run-Accounted_example = Run-Accounted registry links 2 4 sent nothing system submitted-Run

Run-Kept_example : Kept registry links 2 4 submitted
Run-Kept_example = Run-Kept registry links 2 4 sent nothing system (omega arith) submitted-Run

calls-Published_example :
    ((o : ℕ)
      → Published registry links 2 4 sent nothing submitted
          (submit_command o submitted)
          (submit o submitted))
    × ((instrument id : ℕ)
        → Published registry links 2 4 sent nothing submitted
            (cancel_command instrument id)
            (cancel instrument id submitted))
calls-Published_example = calls-Published registry links 2 4 sent nothing submitted submitted-Run
