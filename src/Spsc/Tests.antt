-- ===== src/Spsc/Tests.antt =====
-- The theorems on `SpscRingBuffer` at a ring of four slots: one element is in it, the producer is
-- about to write a second one, and the consumer about to read.
use multi_instrument_orderbo.Prelude.{ℕ, ◌≢◌, refl, [], ◌∷◌, arith}
use multi_instrument_orderbo.Spsc.{store}
use multi_instrument_orderbo.Spsc.Threads.{
  System, Holds, Run, start, push_check, push_store, push_publish, pop_check, checked, idle,
  waiting, found,
}
use multi_instrument_orderbo.Spsc.Queue.{Run-Holds, Run-no_race}

abbrev one_in : System ℕ
one_in = record {
  ring = record { head = 0; tail = 1; buffer = store 0 5 (λ i. 0) };
  producer = idle;
  consumer = waiting;
}

abbrev both_ready : System ℕ
both_ready = record one_in { producer = checked 6; consumer = found }

one_in-Run : Run 4 0 (5 ∷ []) [] one_in
one_in-Run = push_publish 5 (push_store 5 (push_check 5 start refl refl) refl) refl

both_ready-Run : Run 4 0 (5 ∷ []) [] both_ready
both_ready-Run = pop_check (push_check 6 one_in-Run refl refl) refl refl

Run-Holds_example : Holds 4 (5 ∷ []) [] both_ready
Run-Holds_example = Run-Holds 4 0 (5 ∷ []) [] both_ready (omega arith) both_ready-Run

Run-no_race_example : both_ready.ring.tail ≢ both_ready.ring.head
Run-no_race_example =
    Run-no_race 4 0 (5 ∷ []) [] both_ready 6 (omega arith) both_ready-Run refl refl
