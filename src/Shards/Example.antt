-- ===== src/Shards/Example.antt =====
-- Two shards over a registry of two instruments, and the first order of a client.
use multi_instrument_orderbo.Prelude.{
  ℕ, ◌≡◌, refl, Bool, true, Option, none, some, List, [], ◌∷◌, pos, sub64, add64,
}
use multi_instrument_orderbo.Types.{buy, remaining, is_fully_filled}
use multi_instrument_orderbo.Level.{Links}
use multi_instrument_orderbo.OrderBook.Example.{limit_order}
use multi_instrument_orderbo.OrderBook.{peek_top}
use multi_instrument_orderbo.Matcher.{
  is_refused, is_malformed, match_loop, next_maker, stamp, conclude,
}
use multi_instrument_orderbo.Matcher.Example.{clock}
use multi_instrument_orderbo.Registry.{Registry, InstrumentSpec, equity}
use multi_instrument_orderbo.Shards.{
  ShardedMatcher, BuildResult, throws, built, new_sharded, idle_shards, acquire_shared,
  submit_command, enqueue, note_submitted, shard_for, stop_all, Turns, run_turns, wait_idle,
}
use multi_instrument_orderbo.Shards.Threads.{
  Log, add_log, Run, starts, acquires, writes, enqueues, counts, stops, stopped, write_order,
}
use multi_instrument_orderbo.Shards.Waiting.{Quiet}

abbrev stock : ℕ → List ℕ → InstrumentSpec
stock id symbol = record {
  id = id;
  symbol = symbol;
  type = equity;
  tick_size = pos 1;
  lot_size = 1;
  currency = b'U' ∷ [];
  option_terms = none;
}

abbrev pub registry : Registry
registry = record {
  instruments = stock 7 (b'A' ∷ []) ∷ stock 10 (b'B' ∷ []) ∷ [];
  id_map = (7, 0) ∷ (10, 1) ∷ [];
  sym_map = (b'A' ∷ [], 0) ∷ (b'B' ∷ [], 1) ∷ [];
  chains = [];
  frozen = true;
}

abbrev pub links : Links
links = record { level_prev = λ o. none; level_next = λ o. none }

abbrev built_or : ShardedMatcher → BuildResult → ShardedMatcher
built_or s (throws e) = s
built_or s (built t) = t

abbrev some_or {ℓ} : {A : Type ℓ} → A → Option A → A
some_or a none = a
some_or a (some b) = b

abbrev pub fresh : ShardedMatcher
fresh = built_or (idle_shards links 0 0) (new_sharded registry links 2 4)

abbrev acquired : ShardedMatcher × Option ℕ
acquired = some_or (fresh, none) (acquire_shared fresh)

-- The order of the client, and the commands that it sends.
abbrev ready : ShardedMatcher
ready = write_order 3 (limit_order buy 12 101 8) acquired.0

abbrev pub sent : Log
sent = add_log 1 (submit_command 3 ready) (λ i. [])

abbrev pub nothing : Log
nothing = λ i. []

abbrev queued : ShardedMatcher × Bool
queued = enqueue (submit_command 3 ready) ready

abbrev pub submitted : ShardedMatcher
submitted = note_submitted 1 queued.0

pub submitted-Run : Quiet registry links 2 4 sent nothing submitted
unfolding new_sharded acquire_shared shard_for enqueue
submitted-Run =
    counts 1
      (enqueues queued.0 (submit_command 3 ready)
        (writes 3 (limit_order buy 12 101 8)
          (acquires acquired.0 acquired.1 (starts fresh refl) refl))
        refl refl)
      refl

abbrev pub stopping : ShardedMatcher
stopping = stop_all submitted

pub stopping-Run :
    Run registry links 2 4 sent nothing (record { core = stopping; producer = stopped })
stopping-Run = stops submitted-Run refl

-- Turns of both workers, and where they lead.
abbrev pub turns : Turns
turns =
    (1, clock)
    ∷ (0, clock)
    ∷ (1, clock)
    ∷ (0, clock)
    ∷ (1, clock)
    ∷ (0, clock)
    ∷ (1, clock)
    ∷ (1, clock)
    ∷ (1, clock)
    ∷ []

abbrev pub last_of : ShardedMatcher → ShardedMatcher
last_of s = some_or s (run_turns turns s)

pub submitted_turns : run_turns turns submitted ≡ some (last_of submitted)
unfolding run_turns new_sharded acquire_shared shard_for enqueue note_submitted is_refused
    is_malformed match_loop next_maker remaining sub64 peek_top stamp conclude is_fully_filled
submitted_turns = refl

pub stopping-turns : run_turns turns stopping ≡ some (last_of stopping)
unfolding run_turns new_sharded acquire_shared shard_for enqueue note_submitted stop_all is_refused
    is_malformed match_loop next_maker remaining sub64 peek_top stamp conclude is_fully_filled
stopping-turns = refl

pub submitted_waits : wait_idle (turns ∷ []) submitted ≡ some (last_of submitted, true)
unfolding wait_idle run_turns note_submitted enqueue acquire_shared new_sharded add64 is_refused
    is_malformed match_loop next_maker remaining sub64 peek_top stamp conclude is_fully_filled
submitted_waits = refl
