-- ===== src/Shards/Interleaved.antt =====
-- The accounts of all shards of `ShardedMatcher`, whatever way the threads are interleaved.
use multi_instrument_orderbo.Prelude.{
  ℕ, ◌+◌, ◌≡◌, ◌≢◌, refl, sym, ap, subst, ◌∙◌, true, some, List, [], ◌∷◌, ◌++◌, length-append,
  arith, add64, >>=-eq-some, some-eq,
}
use multi_instrument_orderbo.Level.{Links}
use multi_instrument_orderbo.Matcher.{Clock}
use multi_instrument_orderbo.Registry.{Registry}
use multi_instrument_orderbo.Spsc.{Ring, push}
use multi_instrument_orderbo.Spsc.Stores.{store_cases, two_stores}
use multi_instrument_orderbo.Spsc.Threads.{start}
use multi_instrument_orderbo.Spsc.Calls.{Queued, Queued-push}
use multi_instrument_orderbo.Shards.{
  Command, blank_command, queue_capacity, Worker, at_top, holds, served, exited, Shard,
  ShardedMatcher, shard_for, enqueue, note_submitted, engine_of, run_command, turn_from, turn,
  stop_all,
}
use multi_instrument_orderbo.Shards.Building.{IsFresh, Built-of_runs}
use multi_instrument_orderbo.Shards.Size.{acquire_shared-shards}
use multi_instrument_orderbo.Shards.Threads.{
  Producer, outside, pushed, stopped, System, Log, add_log, log_done, Run, starts, acquires, writes,
  enqueues, counts, takes_turn, stops,
}
use multi_instrument_orderbo.Shards.Accounts.{
  Accounted, Phase, in_hand, uncounted, in_main, late, test_and_poll-Accounted, serve-Accounted,
  count-Accounted,
}

fresh-Accounted : (i : ℕ) (sh : Shard) → IsFresh sh → Accounted i outside [] [] sh
fresh-Accounted i sh h = record {
  got = [];
  queued = subst (Queued queue_capacity blank_command [] []) (sym h.queue) start;
  taken = ap in_hand (sym h.worker);
  counted = 0;
  counted_all = refl;
  submitted = h.submitted;
  finished = 0;
  finished_all = ground (arith, ap uncounted h.worker);
  processed = h.processed;
  phase = (h.stop, ap in_main h.worker);
}

module _ (i : ℕ) (sent done : List Command) (sh : Shard) where
  same_late :
      (p p' : Producer)
      → late i p ≡ late i p'
      → Phase p' sent done sh.stop sh.worker
      → Accounted i p sent done sh
      → Accounted i p' sent done sh
  same_late p p' e phase h = record {
    got = h.got;
    queued = h.queued;
    taken = h.taken;
    counted = h.counted;
    counted_all = ap (λ n. h.counted + n) (sym e) ∙ h.counted_all;
    submitted = h.submitted;
    finished = h.finished;
    finished_all = h.finished_all;
    processed = h.processed;
    phase = phase;
  }

  -- The push on the queue of the shard, and the count of it.
  push-Accounted :
      (cmd : Command) (q : Ring Command)
      → Accounted i outside sent done sh
      → push queue_capacity cmd sh.queue ≡ (q, true)
      → Accounted i (pushed i) (sent ++ cmd ∷ []) done (record sh { queue = q })
  push-Accounted cmd q h e = record {
    got = h.got;
    queued = Queued-push queue_capacity blank_command sent h.got sh.queue q h.queued cmd e;
    taken = h.taken;
    counted = h.counted;
    counted_all = ground (arith, h.counted_all, length-append sent (cmd ∷ []));
    submitted = h.submitted;
    finished = h.finished;
    finished_all = h.finished_all;
    processed = h.processed;
    phase = h.phase;
  }

  note-Accounted :
      Accounted i (pushed i) sent done sh
      → Accounted i outside sent done (record sh { submitted = add64 sh.submitted 1 })
  unfolding add64
  note-Accounted h = record {
    got = h.got;
    queued = h.queued;
    taken = h.taken;
    counted = h.counted + 1;
    counted_all = ground (arith, h.counted_all);
    submitted = omega (arith, h.submitted);
    finished = h.finished;
    finished_all = h.finished_all;
    processed = h.processed;
    phase = h.phase;
  }

  -- Calls for another shard.
  elsewhere :
      (j : ℕ)
      → j ≢ i
      → (Accounted i outside sent done sh → Accounted i (pushed j) sent done sh)
        × (Accounted i (pushed j) sent done sh → Accounted i outside sent done sh)
  elsewhere j ne = (
    λ h. same_late outside (pushed j) (ground (arith, ne)) h.phase h,
    λ h. same_late (pushed j) outside (ground (arith, ne)) h.phase h,
  )

  stop_all-Accounted :
      Accounted i outside sent done sh → Accounted i stopped sent done (record sh { stop = true })
  stop_all-Accounted h = record {
    got = h.got;
    queued = h.queued;
    taken = h.taken;
    counted = h.counted;
    counted_all = h.counted_all;
    submitted = h.submitted;
    finished = h.finished;
    finished_all = h.finished_all;
    processed = h.processed;
    phase = (refl, λ e. absurd (ground (arith, h.phase.1, ap in_main e)));
  }

-- The accounts of every shard.
abbrev pub AllAccounted : Log → Log → System → Type 0
AllAccounted sent done s = (j : ℕ) → Accounted j s.producer (sent j) (done j) (s.core.shards j)

enqueue-AllAccounted :
    (sent done : Log) (s s' : ShardedMatcher) (cmd : Command)
    → enqueue cmd s ≡ (s', true)
    → AllAccounted sent done (record { core = s; producer = outside })
    → AllAccounted
        (add_log (shard_for cmd.instrument s) cmd sent)
        done
        (record { core = s'; producer = pushed (shard_for cmd.instrument s) })
unfolding enqueue
enqueue-AllAccounted sent done s s' cmd e h =
    let i = shard_for cmd.instrument s in
    let sh = s.shards i in
    let q = (push queue_capacity cmd sh.queue).0 in
    let accepted : push queue_capacity cmd sh.queue ≡ (q, true) =
      ap (λ b. (q, b)) (ap (λ r. r.1) e) in
    subst (λ t. AllAccounted (add_log i cmd sent) done (record { core = t; producer = pushed i }))
      (ap (λ r. r.0) e)
      (λ j.
        two_stores (λ k sent_k sh_k. Accounted k (pushed i) sent_k (done k) sh_k) i
          (sent i ++ cmd ∷ []) (record sh { queue = q }) sent s.shards
          (push-Accounted i (sent i) (done i) sh cmd q (h i) accepted)
          (λ k ne. (elsewhere k (sent k) (done k) (s.shards k) i ne).0 (h k)) j)

note-AllAccounted :
    (sent done : Log) (s : ShardedMatcher) (i : ℕ)
    → AllAccounted sent done (record { core = s; producer = pushed i })
    → AllAccounted sent done (record { core = note_submitted i s; producer = outside })
unfolding note_submitted
note-AllAccounted sent done s i h =
    store_cases (λ k sh. Accounted k outside (sent k) (done k) sh) i _ s.shards
      (note-Accounted i (sent i) (done i) (s.shards i) (h i))
      (λ k ne. (elsewhere k (sent k) (done k) (s.shards k) i ne).1 (h k))

at_producer :
    (sent done : Log) (s : System) (p : Producer)
    → s.producer ≡ p
    → AllAccounted sent done s
    → AllAccounted sent done (record { core = s.core; producer = p })
at_producer sent done s p e =
    subst (λ q. AllAccounted sent done (record { core = s.core; producer = q })) e

turn-AllAccounted :
    (sent done : Log) (p : Producer) (s s' : ShardedMatcher) (c : Clock) (i : ℕ) (w : Worker)
    → (s.shards i).worker ≡ w
    → turn_from w c i s ≡ some s'
    → AllAccounted sent done (record { core = s; producer = p })
    → AllAccounted sent (log_done i w done) (record { core = s'; producer = p })
unfolding turn_from
turn-AllAccounted sent done p s s' c i (at_top loop) w e h =
    subst (λ t. AllAccounted sent done (record { core = t; producer = p })) (some-eq e)
      (store_cases (λ k sh. Accounted k p (sent k) (done k) sh) i _ s.shards
        (test_and_poll-Accounted i p (sent i) (done i) (s.shards i) (h i) loop w) (λ k ne. h k))
turn-AllAccounted sent done p s s' c i (holds loop cmd) w e h =
    let (e', ran, same) = >>=-eq-some (run_command c cmd (engine_of i s)) _ _ e in
    subst (λ t. AllAccounted sent (add_log i cmd done) (record { core = t; producer = p }))
      (some-eq same)
      (two_stores (λ k done_k sh. Accounted k p (sent k) done_k sh) i (done i ++ cmd ∷ []) _ done
        s.shards
        (serve-Accounted i p (sent i) (done i) (s.shards i) (h i) loop cmd e'.matchers e'.book_ptrs
          w)
        (λ k ne. h k))
turn-AllAccounted sent done p s s' c i (served loop) w e h =
    subst (λ t. AllAccounted sent done (record { core = t; producer = p })) (some-eq e)
      (store_cases (λ k sh. Accounted k p (sent k) (done k) sh) i _ s.shards
        (count-Accounted i p (sent i) (done i) (s.shards i) (h i) loop w) (λ k ne. h k))
turn-AllAccounted sent done p s s' c i exited w e h =
    subst (λ t. AllAccounted sent done (record { core = t; producer = p })) (some-eq e) h

-- Whatever way the producer and the workers are interleaved, every shard accounts for its commands:
-- those its engine has carried out are the first of those sent to it, in the order sent, then comes
-- the one that its worker has in hand, and then what lies in its queue. `submitted` and `processed`
-- are, modulo 2^64, the numbers of commands sent and carried out, but for the one that the producer
-- or the worker is about to count. A worker ends only behind `stop`, with all carried out.
pub Run-Accounted :
    (registry : Registry) (lk : Links) (n capacity : ℕ) (sent done : Log) (s : System)
    → Run registry lk n capacity sent done s
    → AllAccounted sent done s
unfolding turn turn_from stop_all
Run-Accounted registry lk n capacity _ _ _ (starts s e) = λ j.
    let (b, same) = Built-of_runs registry lk n capacity s e in
    fresh-Accounted j (s.shards j) (subst (λ t. IsFresh (t.shards j)) same (b.fresh j))
Run-Accounted registry lk n capacity sent done _ (acquires {s} s' got r e) =
    subst (λ f. (j : ℕ) → Accounted j s.producer (sent j) (done j) (f j))
      (sym (acquire_shared-shards s.core s' got e).1)
      (Run-Accounted registry lk n capacity sent done s r)
Run-Accounted registry lk n capacity sent done _ (writes {s} o rec r) =
    Run-Accounted registry lk n capacity sent done s r
Run-Accounted registry lk n capacity _ done _ (enqueues {sent} {s} s' cmd r p e) =
    enqueue-AllAccounted sent done s.core s' cmd e
      (at_producer sent done s outside p (Run-Accounted registry lk n capacity sent done s r))
Run-Accounted registry lk n capacity sent done _ (counts {s} i r p) =
    note-AllAccounted sent done s.core i
      (at_producer sent done s (pushed i) p (Run-Accounted registry lk n capacity sent done s r))
Run-Accounted registry lk n capacity sent _ _ (takes_turn {done} {s} s' c i r inside e) =
    turn-AllAccounted sent done s.producer s.core s' c i (s.core.shards i).worker refl e
      (Run-Accounted registry lk n capacity sent done s r)
Run-Accounted registry lk n capacity sent done _ (stops {s} r p) = λ j.
    stop_all-Accounted j (sent j) (done j) (s.core.shards j)
      (at_producer sent done s outside p (Run-Accounted registry lk n capacity sent done s r) j)
