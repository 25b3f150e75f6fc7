-- ===== src/Shards/Threads.antt =====
-- One producer and the workers of all shards, interleaved. The producer stands outside of `submit`
-- and `cancel`, or between the `push` and the count of the shard, or it has run the destructor's
-- first loop and does not call again. A call that finds the queue full changes nothing.
use multi_instrument_orderbo.Prelude.{ℕ, ◌<◌, ◌≡◌, true, Option, some, List, [], ◌∷◌, ◌++◌}
use multi_instrument_orderbo.Types.{Order}
use multi_instrument_orderbo.Level.{Links}
use multi_instrument_orderbo.Pool.{write}
use multi_instrument_orderbo.Matcher.{Clock}
use multi_instrument_orderbo.Registry.{Registry}
use multi_instrument_orderbo.Spsc.{store}
use multi_instrument_orderbo.Shards.{
  Command, Worker, at_top, holds, served, exited, ShardedMatcher, built, new_sharded, shard_for,
  enqueue, note_submitted, turn, stop_all, acquire_shared,
}

-- The client writes the fields of an order.
abbrev pub write_order : ℕ → Order → ShardedMatcher → ShardedMatcher
write_order o r s = record s { pool = record s.pool { storage = write o r s.pool.storage } }

pub data Producer : Type 0 where
  outside : Producer
  pushed : ℕ → Producer
  stopped : Producer

pub record System : Type 0 where
  pub core : ShardedMatcher
  pub producer : Producer

-- The commands of each shard, in order.
abbrev pub Log : Type 0
Log = ℕ → List Command

abbrev pub add_log : ℕ → Command → Log → Log
add_log i cmd log = store i (log i ++ cmd ∷ []) log

-- A command counts as done once the engine's call for it has returned.
abbrev pub log_done : ℕ → Worker → Log → Log
log_done i (at_top loop) log = log
log_done i (holds loop cmd) log = add_log i cmd log
log_done i (served loop) log = log
log_done i exited log = log

-- `Run registry lk n capacity sent done s`: the constructed object comes to `s`, with `sent` the
-- commands that were enqueued and `done` those that the engines have carried out.
pub data Run (registry : Registry) (lk : Links) (n capacity : ℕ) : Log → Log → System → Type 0 where
  starts :
      (s : ShardedMatcher)
      → new_sharded registry lk n capacity ≡ built s
      → Run registry lk n capacity (λ i. []) (λ i. []) (record { core = s; producer = outside })
  acquires :
      {sent done : Log} {s : System} (s' : ShardedMatcher) (got : Option ℕ)
      → Run registry lk n capacity sent done s
      → acquire_shared s.core ≡ some (s', got)
      → Run registry lk n capacity sent done (record { core = s'; producer = s.producer })
  writes :
      {sent done : Log} {s : System} (o : ℕ) (r : Order)
      → Run registry lk n capacity sent done s
      → Run registry lk n capacity sent done
          (record { core = write_order o r s.core; producer = s.producer })
  enqueues :
      {sent done : Log} {s : System} (s' : ShardedMatcher) (cmd : Command)
      → Run registry lk n capacity sent done s
      → s.producer ≡ outside
      → enqueue cmd s.core ≡ (s', true)
      → Run registry lk n capacity
          (add_log (shard_for cmd.instrument s.core) cmd sent)
          done
          (record { core = s'; producer = pushed (shard_for cmd.instrument s.core) })
  counts :
      {sent done : Log} {s : System} (i : ℕ)
      → Run registry lk n capacity sent done s
      → s.producer ≡ pushed i
      → Run registry lk n capacity sent done
          (record { core = note_submitted i s.core; producer = outside })
  takes_turn :
      {sent done : Log} {s : System} (s' : ShardedMatcher) (c : Clock) (i : ℕ)
      → Run registry lk n capacity sent done s
      → i < n
      → turn c i s.core ≡ some s'
      → Run registry lk n capacity sent
          (log_done i (s.core.shards i).worker done)
          (record { core = s'; producer = s.producer })
  stops :
      {sent done : Log} {s : System}
      → Run registry lk n capacity sent done s
      → s.producer ≡ outside
      → Run registry lk n capacity sent done (record { core = stop_all s.core; producer = stopped })
