-- ===== src/Shards/Size.antt =====
-- The number of shards and what `acquire_order` leaves alone, in every interleaving.
use multi_instrument_orderbo.Prelude.{ℕ, ◌≡◌, sym, ap, ◌∙◌, Option, some, >>=-eq-some, some-eq}
use multi_instrument_orderbo.Level.{Links}
use multi_instrument_orderbo.Matcher.{Clock}
use multi_instrument_orderbo.Registry.{Registry}
use multi_instrument_orderbo.Engine.{acquire_order}
use multi_instrument_orderbo.Shards.{
  Worker, at_top, holds, served, exited, ShardedMatcher, enqueue, note_submitted, engine_of,
  run_command, turn_from, turn, stop_all, acquire_shared, shared_part,
}
use multi_instrument_orderbo.Shards.Building.{Built-of_runs}
use multi_instrument_orderbo.Shards.Threads.{
  System, Log, Run, starts, acquires, writes, enqueues, counts, takes_turn, stops,
}

pub acquire_shared-shards :
    (s s' : ShardedMatcher) (got : Option ℕ)
    → acquire_shared s ≡ some (s', got)
    → (s'.num_shards ≡ s.num_shards) × (s'.shards ≡ s.shards)
unfolding acquire_shared
acquire_shared-shards s s' got e =
    let (x, ran, same) = >>=-eq-some (acquire_order (shared_part s)) _ (s', got) e in
    (ap (λ t. t.0.num_shards) (sym (some-eq same)), ap (λ t. t.0.shards) (sym (some-eq same)))

turn_from-num_shards :
    (w : Worker) (c : Clock) (i : ℕ) (s s' : ShardedMatcher)
    → turn_from w c i s ≡ some s'
    → s'.num_shards ≡ s.num_shards
unfolding turn_from
turn_from-num_shards (at_top loop) c i s s' e = ap (λ t. t.num_shards) (sym (some-eq e))
turn_from-num_shards (holds loop cmd) c i s s' e =
    let (e', ran, same) = >>=-eq-some (run_command c cmd (engine_of i s)) _ _ e in
    ap (λ t. t.num_shards) (sym (some-eq same))
turn_from-num_shards (served loop) c i s s' e = ap (λ t. t.num_shards) (sym (some-eq e))
turn_from-num_shards exited c i s s' e = ap (λ t. t.num_shards) (sym (some-eq e))

pub Run-num_shards :
    (registry : Registry) (lk : Links) (n capacity : ℕ) (sent done : Log) (s : System)
    → Run registry lk n capacity sent done s
    → s.core.num_shards ≡ n
unfolding turn turn_from stop_all note_submitted enqueue
Run-num_shards registry lk n capacity _ _ _ (starts s e) =
    let (b, same) = Built-of_runs registry lk n capacity s e in
    ap (λ t. t.num_shards) (sym same) ∙ b.num_shards
Run-num_shards registry lk n capacity sent done _ (acquires {s} s' got r e) =
    (acquire_shared-shards s.core s' got e).0 ∙ Run-num_shards registry lk n capacity sent done s r
Run-num_shards registry lk n capacity sent done _ (writes {s} o rec r) =
    Run-num_shards registry lk n capacity sent done s r
Run-num_shards registry lk n capacity _ done _ (enqueues {sent} {s} s' cmd r p e) =
    ap (λ t. t.0.num_shards) (sym e) ∙ Run-num_shards registry lk n capacity sent done s r
Run-num_shards registry lk n capacity sent done _ (counts {s} i r p) =
    Run-num_shards registry lk n capacity sent done s r
Run-num_shards registry lk n capacity sent _ _ (takes_turn {done} {s} s' c i r inside e) =
    turn_from-num_shards (s.core.shards i).worker c i s.core s' e
    ∙ Run-num_shards registry lk n capacity sent done s r
Run-num_shards registry lk n capacity sent done _ (stops {s} r p) =
    Run-num_shards registry lk n capacity sent done s r
