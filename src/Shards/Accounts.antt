-- ===== src/Shards/Accounts.antt =====
-- What each shard of `ShardedMatcher` knows of its commands, at every step of its worker.
use multi_instrument_orderbo.Prelude.{
  ℕ, ◌+◌, ◌%◌, ◌≡◌, refl, sym, ap, subst, ◌∙◌, Bool, true, false, ◌==◌, if◌then◌else◌, some, none,
  List, [], ◌∷◌, ◌++◌, length, append-nil, length-append, arith, u64_mod, add64, Option-cases, inl,
  inr,
}
use multi_instrument_orderbo.Spsc.{pop}
use multi_instrument_orderbo.Spsc.Calls.{Queued, Queued-pop, Queued-empty}
use multi_instrument_orderbo.Engine.{Slots}
use multi_instrument_orderbo.Shards.{
  Command, blank_command, queue_capacity, Worker, WorkerLoop, at_top, holds, served, exited, Shard,
  main_loop, drain_loop, poll, test_and_poll, when_empty,
}
use multi_instrument_orderbo.Shards.Threads.{Producer, outside, pushed, stopped}

-- The command that the worker has taken and not carried out.
abbrev pub in_hand : Worker → List Command
in_hand (at_top loop) = []
in_hand (holds loop cmd) = cmd ∷ []
in_hand (served loop) = []
in_hand exited = []

-- Commands carried out and not yet counted.
abbrev pub uncounted : Worker → ℕ
uncounted (at_top loop) = 0
uncounted (holds loop cmd) = 0
uncounted (served loop) = 1
uncounted exited = 0

-- Commands of the shard `i` pushed and not yet counted.
abbrev pub late : ℕ → Producer → ℕ
late i outside = 0
late i (pushed j) = if j == i then 1 else 0
late i stopped = 0

abbrev in_main_loop : WorkerLoop → Bool
in_main_loop main_loop = true
in_main_loop drain_loop = false

abbrev pub in_main : Worker → Bool
in_main (at_top loop) = in_main_loop loop
in_main (holds loop cmd) = in_main_loop loop
in_main (served loop) = in_main_loop loop
in_main exited = false

-- The worker stays in its main loop until the destructor has set `stop`, and leaves `run_shard` only
-- once all is done.
abbrev pub Phase : Producer → List Command → List Command → Bool → Worker → Type 0
Phase outside sent done stop w = (stop ≡ false) × (in_main w ≡ true)
Phase (pushed j) sent done stop w = (stop ≡ false) × (in_main w ≡ true)
Phase stopped sent done stop w = (stop ≡ true) × (w ≡ exited → sent ≡ done)

-- The two counters, modulo 2^64, against the commands sent and done; the queue holds, in order, what
-- lies between, less what the worker has in hand.
pub record Accounted (i : ℕ) (p : Producer) (sent done : List Command) (sh : Shard) : Type 0 where
  pub got : List Command
  pub queued : Queued queue_capacity blank_command sent got sh.queue
  pub taken : got ≡ done ++ in_hand sh.worker
  pub counted : ℕ
  pub counted_all : counted + late i p ≡ length sent
  pub submitted : sh.submitted ≡ counted % u64_mod
  pub finished : ℕ
  pub finished_all : finished + uncounted sh.worker ≡ length done
  pub processed : sh.processed ≡ finished % u64_mod
  pub phase : Phase p sent done sh.stop sh.worker

Phase-moves :
    (p : Producer) (sent done done' : List Command) (stop : Bool) (w w' : Worker)
    → Phase p sent done stop w
    → in_main w ≡ in_main w'
    → (w' ≡ exited → sent ≡ done')
    → Phase p sent done' stop w'
Phase-moves outside sent done done' stop w w' h same f = (h.0, sym same ∙ h.1)
Phase-moves (pushed j) sent done done' stop w w' h same f = (h.0, sym same ∙ h.1)
Phase-moves stopped sent done done' stop w w' h same f = (h.0, f)

Phase-stop :
    (p : Producer) (sent done : List Command) (stop : Bool) (w : Worker)
    → Phase p sent done stop w
    → stop ≡ true
    → Phase p sent done stop (at_top drain_loop)
Phase-stop outside sent done stop w h e = absurd (ground (arith, h.0, e))
Phase-stop (pushed j) sent done stop w h e = absurd (ground (arith, h.0, e))
Phase-stop stopped sent done stop w h e = (e, λ x. absurd (cc))

when_empty-in_main : (loop : WorkerLoop) → in_main_loop loop ≡ in_main (when_empty loop)
when_empty-in_main main_loop = refl
when_empty-in_main drain_loop = refl

when_empty-in_hand : (loop : WorkerLoop) → in_hand (when_empty loop) ≡ []
when_empty-in_hand main_loop = refl
when_empty-in_hand drain_loop = refl

when_empty-uncounted : (loop : WorkerLoop) → uncounted (when_empty loop) ≡ 0
when_empty-uncounted main_loop = refl
when_empty-uncounted drain_loop = refl

module _ (i : ℕ) (p : Producer) (sent done : List Command) (sh : Shard)
    (h : Accounted i p sent done sh) where
  module _ (loop : WorkerLoop) (w : sh.worker ≡ at_top loop) where
    pub all_taken : h.got ≡ done
    all_taken = h.taken ∙ ap (λ x. done ++ in_hand x) w ∙ append-nil done

    all_finished : h.finished + 0 ≡ length done
    all_finished = ap (λ x. h.finished + uncounted x) (sym w) ∙ h.finished_all

    pub nothing_left :
        (pop queue_capacity sh.queue).1 ≡ none
        → ((pop queue_capacity sh.queue).0 ≡ sh.queue) × (sent ≡ done)
    nothing_left nothing =
        let same : (pop queue_capacity sh.queue) ≡ ((pop queue_capacity sh.queue).0, none) =
          ap (λ x. ((pop queue_capacity sh.queue).0, x)) nothing in
        let (kept, all) =
          Queued-empty queue_capacity blank_command sent h.got sh.queue _ h.queued (omega arith)
            same in
        (kept, all ∙ all_taken)

    pub poll_nothing :
        (pop queue_capacity sh.queue).1 ≡ none
        → Accounted i p sent done
            (record sh { queue = (pop queue_capacity sh.queue).0; worker = when_empty loop })
    poll_nothing nothing =
        let (kept, all_done) = nothing_left nothing in
        record {
          got = h.got;
          queued = subst (Queued queue_capacity blank_command sent h.got) (sym kept) h.queued;
          taken =
              all_taken
              ∙ sym (append-nil done)
              ∙ ap (λ x. done ++ x) (sym (when_empty-in_hand loop));
          counted = h.counted;
          counted_all = h.counted_all;
          submitted = h.submitted;
          finished = h.finished;
          finished_all = ap (λ x. h.finished + x) (when_empty-uncounted loop) ∙ all_finished;
          processed = h.processed;
          phase =
              Phase-moves p sent done done sh.stop sh.worker (when_empty loop) h.phase
                (ap in_main w ∙ when_empty-in_main loop) (λ x. all_done);
        }

    pub poll_found :
        (cmd : Command)
        → (pop queue_capacity sh.queue).1 ≡ some cmd
        → Accounted i p sent done
            (record sh { queue = (pop queue_capacity sh.queue).0; worker = holds loop cmd })
    poll_found cmd found =
        let same : (pop queue_capacity sh.queue) ≡ ((pop queue_capacity sh.queue).0, some cmd) =
          ap (λ x. ((pop queue_capacity sh.queue).0, x)) found in
        record {
          got = h.got ++ cmd ∷ [];
          queued = Queued-pop queue_capacity blank_command sent h.got sh.queue _ h.queued cmd same;
          taken = ap (λ xs. xs ++ cmd ∷ []) all_taken;
          counted = h.counted;
          counted_all = h.counted_all;
          submitted = h.submitted;
          finished = h.finished;
          finished_all = all_finished;
          processed = h.processed;
          phase =
              Phase-moves p sent done done sh.stop sh.worker (holds loop cmd) h.phase (ap in_main w)
                (λ x. absurd (cc));
        }

    poll-Accounted : Accounted i p sent done (poll loop sh)
    unfolding poll
    poll-Accounted = elim (Option-cases (pop queue_capacity sh.queue).1) [
      | inl nothing ↦ rw (nothing, poll) (poll_nothing nothing)
      | inr (cmd, found) ↦ rw (found, poll) (poll_found cmd found)
    ]

  stop-Accounted :
      sh.stop ≡ true
      → sh.worker ≡ at_top main_loop
      → Accounted i p sent done (record sh { worker = at_top drain_loop })
  stop-Accounted stop w = record {
    got = h.got;
    queued = h.queued;
    taken = h.taken ∙ ap (λ x. done ++ in_hand x) w;
    counted = h.counted;
    counted_all = h.counted_all;
    submitted = h.submitted;
    finished = h.finished;
    finished_all = all_finished main_loop w;
    processed = h.processed;
    phase = Phase-stop p sent done sh.stop sh.worker h.phase stop;
  }

  test_main :
      (stop : Bool)
      → sh.stop ≡ stop
      → sh.worker ≡ at_top main_loop
      → Accounted i p sent done
          (if stop then record sh { worker = at_top drain_loop } else poll main_loop sh)
  test_main true stop w = stop-Accounted stop w
  test_main false stop w = poll-Accounted main_loop w

  pub test_and_poll-Accounted :
      (loop : WorkerLoop)
      → sh.worker ≡ at_top loop
      → Accounted i p sent done (test_and_poll loop sh)
  test_and_poll-Accounted main_loop w = test_main sh.stop refl w
  test_and_poll-Accounted drain_loop w = poll-Accounted drain_loop w

  -- The command in hand is carried out, whatever that does to the maps.
  pub serve-Accounted :
      (loop : WorkerLoop) (cmd : Command) (m : Slots) (ptrs : List (ℕ × ℕ))
      → sh.worker ≡ holds loop cmd
      → Accounted i p sent
          (done ++ cmd ∷ [])
          (record sh { matchers = m; book_ptrs = ptrs; worker = served loop })
  serve-Accounted loop cmd m ptrs w = record {
    got = h.got;
    queued = h.queued;
    taken = h.taken ∙ ap (λ x. done ++ in_hand x) w ∙ sym (append-nil (done ++ cmd ∷ []));
    counted = h.counted;
    counted_all = h.counted_all;
    submitted = h.submitted;
    finished = h.finished;
    finished_all = omega (arith, h.finished_all, ap uncounted w, length-append done (cmd ∷ []));
    processed = h.processed;
    phase =
        Phase-moves p sent done (done ++ cmd ∷ []) sh.stop sh.worker (served loop) h.phase
          (ap in_main w) (λ x. absurd (cc));
  }

  pub count-Accounted :
      (loop : WorkerLoop)
      → sh.worker ≡ served loop
      → Accounted i p sent done
          (record sh { processed = add64 sh.processed 1; worker = at_top loop })
  unfolding add64
  count-Accounted loop w = record {
    got = h.got;
    queued = h.queued;
    taken = h.taken ∙ ap (λ x. done ++ in_hand x) w;
    counted = h.counted;
    counted_all = h.counted_all;
    submitted = h.submitted;
    finished = h.finished + 1;
    finished_all = omega (arith, h.finished_all, ap uncounted w);
    processed = omega (arith, h.processed);
    phase =
        Phase-moves p sent done done sh.stop sh.worker (at_top loop) h.phase (ap in_main w)
          (λ x. absurd (cc));
  }
