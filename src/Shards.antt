-- ===== src/Shards.antt =====
-- `ShardedMatcher` of include/ordbk/matching/sharded_engine.hpp and src/matching/sharded_engine.cpp:
-- one engine for each shard, with a queue of commands and a worker thread that serves it. All
-- engines share one pool, and the links of its orders. `turn` is one step of a worker, so that a run
-- is a sequence of calls of the producer and of turns; the ring itself is taken apart in
-- Spsc/Threads. A `none` result is a fault of the engine.
pub mod Building
pub mod Threads
pub mod Accounts
pub mod Size
pub mod Interleaved
pub mod Homes
pub mod Waiting
pub mod Calls
pub mod Measure
pub mod Progress
pub mod Returns
mod Example
mod Tests
use multi_instrument_orderbo.Prelude.{
  ℕ, zero, suc, ◌%◌, Bool, true, false, ◌==◌, if◌then◌else◌, Option, none, some, List, [], ◌∷◌,
  ◌>>=◌, add64,
}
use multi_instrument_orderbo.Types.{is_terminal, Trade}
use multi_instrument_orderbo.Level.{Links}
use multi_instrument_orderbo.Pool.{Pool, new_pool, acquire}
use multi_instrument_orderbo.Matcher.{Clock}
use multi_instrument_orderbo.Registry.{Registry}
use multi_instrument_orderbo.Spsc.{Ring, new_ring, store, push, pop}
use multi_instrument_orderbo.Engine
use multi_instrument_orderbo.Engine.{Slots, Engine, new_engine, release_order, acquire_order}

abbrev pub queue_capacity : ℕ
queue_capacity = 4096

abbrev pub default_pool_size : ℕ
default_pool_size = 65536

pub data CommandKind : Type 0 where
  submit_kind cancel_kind : CommandKind

-- The order of a cancellation is the null pointer, `none`.
pub record Command : Type 0 where
  pub kind : CommandKind
  pub instrument : ℕ
  pub order_id : ℕ
  pub order : Option ℕ

abbrev pub blank_command : Command
blank_command = record { kind = submit_kind; instrument = 0; order_id = 0; order = none }

-- The two loops of `run_shard`.
pub data WorkerLoop : Type 0 where
  main_loop drain_loop : WorkerLoop

-- Where the worker stands in `run_shard`: before the test of a loop, behind a `pop` that gave a
-- command, behind the engine's call and before the count of it, or past the end.
pub data Worker : Type 0 where
  at_top : WorkerLoop → Worker
  holds : WorkerLoop → Command → Worker
  served : WorkerLoop → Worker
  exited : Worker

-- The engine of a shard is its two maps; links and pool are shared.
pub record Shard : Type 0 where
  pub queue : Ring Command
  pub matchers : Slots
  pub book_ptrs : List (ℕ × ℕ)
  pub submitted : ℕ
  pub processed : ℕ
  pub stop : Bool
  pub worker : Worker

pub record ShardedMatcher : Type 0 where
  pub links : Links
  pub pool : Pool
  pub num_shards : ℕ
  pub shards : ℕ → Shard

abbrev pub new_shard : Shard
new_shard = record {
  queue = new_ring blank_command;
  matchers = [];
  book_ptrs = [];
  submitted = 0;
  processed = 0;
  stop = false;
  worker = at_top main_loop;
}

abbrev pub set_shard : ℕ → Shard → ShardedMatcher → ShardedMatcher
set_shard i sh s = record s { shards = store i sh s.shards }

abbrev pub engine_of : ℕ → ShardedMatcher → Engine
engine_of i s = record {
  links = s.links;
  pool = s.pool;
  matchers = (s.shards i).matchers;
  book_ptrs = (s.shards i).book_ptrs;
}

-- The shard `i` after a call of its engine, which has left the links and the pool as in `e`.
abbrev pub with_engine : ℕ → Engine → Worker → ShardedMatcher → ShardedMatcher
with_engine i e w s = record s {
  links = e.links;
  pool = e.pool;
  shards =
      store i (record (s.shards i) { matchers = e.matchers; book_ptrs = e.book_ptrs; worker = w })
        s.shards;
}

-- The filter of the shard `my_shard`.
abbrev pub owns : ℕ → ℕ → ℕ → Bool
owns num_shards my_shard id = (id % num_shards) == my_shard

-- The second loop of the constructor, over the `k` shards from `i` on.
unfoldable pub make_engines : Registry → ℕ → ℕ → ShardedMatcher → Option ShardedMatcher
unfolding new_engine
make_engines registry zero i s = some s
make_engines registry (suc k) i s = do
  e ← new_engine registry s.links s.pool (some (owns s.num_shards i))
  make_engines registry k (suc i) (with_engine i e (at_top main_loop) s)

pub data BuildError : Type 0 where
  invalid_argument logic_error : BuildError

-- What the constructor gives.
pub data BuildResult : Type 0 where
  throws : BuildError → BuildResult
  built : ShardedMatcher → BuildResult

abbrev pub idle_shards : Links → ℕ → ℕ → ShardedMatcher
idle_shards lk num_shards pool_capacity = record {
  links = lk;
  pool = new_pool pool_capacity;
  num_shards = num_shards;
  shards = λ i. new_shard;
}

unfoldable pub new_sharded : Registry → Links → ℕ → ℕ → BuildResult
unfolding make_engines
new_sharded registry lk num_shards pool_capacity =
    if num_shards == 0
    then throws invalid_argument
    else if registry.frozen
    then elim (make_engines registry num_shards 0 (idle_shards lk num_shards pool_capacity)) [
      | none ↦ throws logic_error
      | some s ↦ built s
    ]
    else throws logic_error

unfoldable pub shard_for : ℕ → ShardedMatcher → ℕ
shard_for id s = id % s.num_shards

-- `push` on the queue of the command's shard, the first half of `submit` and of `cancel`.
unfoldable pub enqueue : Command → ShardedMatcher → ShardedMatcher × Bool
unfolding shard_for push
enqueue cmd s =
    let i = shard_for cmd.instrument s in
    let (q, ok) = push queue_capacity cmd (s.shards i).queue in
    (set_shard i (record (s.shards i) { queue = q }) s, ok)

-- `fetch_add` on `submitted`, the second half.
unfoldable pub note_submitted : ℕ → ShardedMatcher → ShardedMatcher
note_submitted i s =
    set_shard i (record (s.shards i) { submitted = add64 (s.shards i).submitted 1 }) s

abbrev pub publish : Command → ShardedMatcher → ShardedMatcher × Bool
publish cmd s =
    let (s', ok) = enqueue cmd s in
    if ok then (note_submitted (shard_for cmd.instrument s) s', true) else (s', false)

abbrev pub submit_command : ℕ → ShardedMatcher → Command
submit_command o s = record {
  kind = submit_kind;
  instrument = (s.pool.storage o).instrument;
  order_id = (s.pool.storage o).id;
  order = some o;
}

abbrev pub cancel_command : ℕ → ℕ → Command
cancel_command instrument id = record {
  kind = cancel_kind;
  instrument = instrument;
  order_id = id;
  order = none;
}

unfoldable pub submit : ℕ → ShardedMatcher → ShardedMatcher × Bool
unfolding enqueue note_submitted
submit o s = publish (submit_command o s) s

unfoldable pub cancel : ℕ → ℕ → ShardedMatcher → ShardedMatcher × Bool
unfolding enqueue note_submitted
cancel instrument id s = publish (cancel_command instrument id) s

-- A submitted order that has come to its end goes back to the pool.
abbrev pub release_terminal : ℕ → Engine → Option Engine
release_terminal o e = if is_terminal (e.pool.storage o) then release_order o e else some e

-- What the worker does with a command. A null order is read by `submit`, which is a fault.
unfoldable pub run_command : Clock → Command → Engine → Option Engine
unfolding Engine.submit Engine.cancel is_terminal
run_command c cmd e = elim cmd.kind [
  | submit_kind ↦ elim cmd.order [
    | none ↦ none
    | some o ↦ do (e', trades) ← Engine.submit (suc e.pool.capacity) c o e; release_terminal o e'
  ]
  | cancel_kind ↦ do (e', done) ← Engine.cancel cmd.instrument cmd.order_id e; some e'
]

-- Behind a `pop` that gave nothing: `yield` and the next test, or the end.
abbrev pub when_empty : WorkerLoop → Worker
when_empty main_loop = at_top main_loop
when_empty drain_loop = exited

unfoldable pub poll : WorkerLoop → Shard → Shard
unfolding pop
poll loop sh =
    let (q, got) = pop queue_capacity sh.queue in
    elim got [
      | none ↦ record sh { queue = q; worker = when_empty loop }
      | some cmd ↦ record sh { queue = q; worker = holds loop cmd }
    ]

-- The test of the main loop, and the `pop` behind it or behind the test of the other loop.
abbrev pub test_and_poll : WorkerLoop → Shard → Shard
test_and_poll main_loop sh =
    if sh.stop then record sh { worker = at_top drain_loop } else poll main_loop sh
test_and_poll drain_loop sh = poll drain_loop sh

unfoldable pub turn_from : Worker → Clock → ℕ → ShardedMatcher → Option ShardedMatcher
unfolding run_command poll
turn_from (at_top loop) c i s = some (set_shard i (test_and_poll loop (s.shards i)) s)
turn_from (holds loop cmd) c i s = do
  e ← run_command c cmd (engine_of i s)
  some (with_engine i e (served loop) s)
turn_from (served loop) c i s = some (
    set_shard i
      (record (s.shards i) { processed = add64 (s.shards i).processed 1; worker = at_top loop }) s)
turn_from exited c i s = some s

-- The next step of the worker of the shard `i`, with what its engine reads from the clock.
unfoldable pub turn : Clock → ℕ → ShardedMatcher → Option ShardedMatcher
unfolding turn_from
turn c i s = turn_from (s.shards i).worker c i s

-- The destructor's first loop.
unfoldable pub stop_all : ShardedMatcher → ShardedMatcher
stop_all s = record s { shards = λ i. record (s.shards i) { stop = true } }

-- The inner loop of `wait_idle`, over the `k` shards from `i` on; a whole pass is one step.
unfoldable pub all_done : ℕ → ℕ → ShardedMatcher → Bool
all_done zero i s = true
all_done (suc k) i s =
    let rest = all_done k (suc i) s in
    if (s.shards i).submitted == (s.shards i).processed then rest else false

abbrev pub is_idle : ShardedMatcher → Bool
is_idle s = all_done s.num_shards 0 s

-- The turns that workers take, by shard.
abbrev pub Turns : Type 0
Turns = List (ℕ × Clock)

unfoldable pub run_turns : Turns → ShardedMatcher → Option ShardedMatcher
unfolding turn
run_turns [] s = some s
run_turns ((i, c) ∷ ts) s = do s' ← turn c i s; run_turns ts s'

-- The outer loop, with the turns that the workers take at each `yield`. The answer tells whether it
-- has returned before the list of these ends.
unfoldable pub wait_idle : List Turns → ShardedMatcher → Option (ShardedMatcher × Bool)
unfolding run_turns all_done
wait_idle [] s = some (s, is_idle s)
wait_idle (ts ∷ yields) s = elim (is_idle s) [
  | true ↦ some (s, true)
  | false ↦ do s' ← run_turns ts s; wait_idle yields s'
]

-- The pointer that `book` returns, `none` for null.
unfoldable pub book : ℕ → ShardedMatcher → Option ℕ
unfolding shard_for Engine.book
book id s = Engine.book id (engine_of (shard_for id s) s)

-- Links and pool, which an engine shares with the others, without books.
abbrev pub shared_part : ShardedMatcher → Engine
shared_part s = record { links = s.links; pool = s.pool; matchers = []; book_ptrs = [] }

unfoldable pub acquire_shared : ShardedMatcher → Option (ShardedMatcher × Option ℕ)
unfolding acquire
acquire_shared s = do
  (e, got) ← acquire_order (shared_part s)
  some (record s { links = e.links; pool = e.pool }, got)
