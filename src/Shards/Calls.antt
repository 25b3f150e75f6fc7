-- ===== src/Shards/Calls.antt =====
-- `submit` and `cancel` of `ShardedMatcher` as calls that nothing interrupts.
use multi_instrument_orderbo.Prelude.{
  ℕ, ◌+◌, ◌≡◌, refl, sym, ap, subst, ◌∙◌, Bool, true, false, ltb, length, arith, Bool-cases, inl,
  inr,
}
use multi_instrument_orderbo.Level.{Links}
use multi_instrument_orderbo.Registry.{Registry}
use multi_instrument_orderbo.Spsc.{Ring, push, store}
use multi_instrument_orderbo.Spsc.Queue.{Run-answers}
use multi_instrument_orderbo.Spsc.Calls.{at_rest}
use multi_instrument_orderbo.Shards.{
  Command, blank_command, queue_capacity, ShardedMatcher, shard_for, enqueue, note_submitted,
  publish, submit_command, cancel_command, submit, cancel,
}
use multi_instrument_orderbo.Shards.Threads.{Log, add_log, enqueues, counts, outside}
use multi_instrument_orderbo.Shards.Accounts.{in_hand}
use multi_instrument_orderbo.Spsc.Stores.{store_cases}
use multi_instrument_orderbo.Shards.Interleaved.{Run-Accounted}
use multi_instrument_orderbo.Shards.Waiting.{Quiet, got_count}

store-unchanged {ℓ} : {A : Type ℓ} (i : ℕ) (f : ℕ → A) → store i (f i) f ≡ f
store-unchanged {A} i f = λ k j. same j k
  where
    same : (j : ℕ) → store i (f i) f j ≡ f j
    same = store_cases (λ j x. x ≡ f j) i (f i) f refl (λ j ne. refl)

push-refused {ℓ} :
    {A : Type ℓ} (c : ℕ) (v : A) (r : Ring A) → (push c v r).1 ≡ false → (push c v r).0 ≡ r
unfolding push
push-refused c v r e = ground (arith, e)

publish-accepted :
    (cmd : Command) (s : ShardedMatcher)
    → (enqueue cmd s).1 ≡ true
    → publish cmd s ≡ (note_submitted (shard_for cmd.instrument s) (enqueue cmd s).0, true)
publish-accepted cmd s e = rw e refl

publish-refused :
    (cmd : Command) (s : ShardedMatcher) → (enqueue cmd s).1 ≡ false → publish cmd s ≡ (s, false)
unfolding enqueue
publish-refused cmd s e =
    let i = shard_for cmd.instrument s in
    let same = push-refused queue_capacity cmd (s.shards i).queue e in
    let unchanged : (enqueue cmd s).0 ≡ s =
      ap (λ q. record s { shards = store i (record (s.shards i) { queue = q }) s.shards }) same
      ∙ ap (λ f. record s { shards = f }) (store-unchanged i s.shards) in
    kept s unchanged (rw e refl)
  where
    kept :
        (t : ShardedMatcher)
        → (enqueue cmd s).0 ≡ t
        → publish cmd s ≡ ((enqueue cmd s).0, false)
        → publish cmd s ≡ (t, false)
    kept t f g = g ∙ ap (λ u. (u, false)) f

module _ (registry : Registry) (lk : Links) (n capacity : ℕ) where
  -- What a call that sends `cmd` answers with `r`.
  pub record Published (sent done : Log) (s : ShardedMatcher) (cmd : Command)
      (r : ShardedMatcher × Bool) : Type 0 where
    pub answer :
        let i = shard_for cmd.instrument s in
        r.1
        ≡ ltb
            (length (sent i) + 1)
            (length (done i) + length (in_hand (s.shards i).worker) + queue_capacity)
    pub refused : r.1 ≡ false → r.0 ≡ s
    pub accepted :
        r.1 ≡ true
        → Quiet registry lk n capacity (add_log (shard_for cmd.instrument s) cmd sent) done r.0

  module _ (sent done : Log) (s : ShardedMatcher)
      (q : Quiet registry lk n capacity sent done s) where
    publish-Published : (cmd : Command) → Published sent done s cmd (publish cmd s)
    unfolding enqueue
    publish-Published cmd = elim (Bool-cases (enqueue cmd s).1) [
      | inl ok ↦
          let same = publish-accepted cmd s ok in
          subst (Published sent done s cmd) (sym same) (record {
            answer = sym ok ∙ room;
            refused = λ f. absurd (cc);
            accepted = λ f.
                counts (shard_for cmd.instrument s)
                  (enqueues (enqueue cmd s).0 cmd q refl (ap (λ b. ((enqueue cmd s).0, b)) ok))
                  refl;
          })
      | inr full ↦
          subst (Published sent done s cmd) (sym (publish-refused cmd s full))
            (record { answer = sym full ∙ room; refused = λ f. refl; accepted = λ f. absurd (cc) })
    ]
      where
        i : ℕ
        i = shard_for cmd.instrument s

        room :
            (enqueue cmd s).1
            ≡ ltb
                (length (sent i) + 1)
                (length (done i) + length (in_hand (s.shards i).worker) + queue_capacity)
        room =
            let h = Run-Accounted registry lk n capacity sent done _ q i in
            (Run-answers queue_capacity blank_command cmd (sent i) h.got
              (at_rest (s.shards i).queue) (omega arith) h.queued).0
            ∙ ap (λ k. ltb (length (sent i) + 1) (k + queue_capacity))
                (got_count i outside (sent i) (done i) (s.shards i) h)

    -- Between two calls of the producer: `submit` and `cancel` send their command to the shard of
    -- the instrument, behind all that was sent there. They refuse it exactly where 4095 commands lie
    -- in the queue of that shard, and then nothing is changed.
    pub calls-Published :
        ((o : ℕ) → Published sent done s (submit_command o s) (submit o s))
        × ((instrument id : ℕ)
            → Published sent done s (cancel_command instrument id) (cancel instrument id s))
    unfolding submit cancel
    calls-Published = (
      λ o. publish-Published (submit_command o s),
      λ instrument id. publish-Published (cancel_command instrument id),
    )
