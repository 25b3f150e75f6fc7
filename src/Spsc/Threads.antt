-- ===== src/Spsc/Threads.antt =====
-- `push` and `pop` taken apart: a producer and a consumer run at the same time, and a step of one
-- can fall between any two steps of the other. The release stores of `tail_` and `head_` and the
-- acquire loads of the other side make the steps of a run one sequence. A call that finds the ring
-- full, or empty, changes nothing and is no step.
use multi_instrument_orderbo.Prelude.{
  ℕ, ◌+◌, ◌%◌, ◌<◌, ◌≡◌, false, ◌==◌, List, [], ◌∷◌, ◌++◌, length,
}
use multi_instrument_orderbo.Spsc.{Ring, new_ring, store}
use multi_instrument_orderbo.Spsc.Slots.{Slots}

-- Where the producer stands in `push`: outside, behind its test, behind its write of the slot.
pub data Producer {ℓ} (A : Type ℓ) : Type ℓ where
  idle : Producer A
  checked : A → Producer A
  stored : A → Producer A

-- Where the consumer stands in `pop`: outside, behind its test, behind its read of the slot.
pub data Consumer {ℓ} (A : Type ℓ) : Type ℓ where
  waiting : Consumer A
  found : Consumer A
  taken : A → Consumer A

pub record System {ℓ} (A : Type ℓ) : Type ℓ where
  pub ring : Ring A
  pub producer : Producer A
  pub consumer : Consumer A

abbrev pub new_system {ℓ} : {A : Type ℓ} → A → System A
new_system default = record { ring = new_ring default; producer = idle; consumer = waiting }

abbrev pub next_slot : ℕ → ℕ → ℕ
next_slot c i = (i + 1) % c

-- `Run c default sent got s`: the fresh system comes to `s`, with `sent` the elements that `push`
-- has published and `got` those that `pop` has delivered.
pub data Run {ℓ} {A : Type ℓ} (c : ℕ) (default : A) : List A → List A → System A → Type ℓ where
  start : Run c default [] [] (new_system default)
  push_check :
      {sent got : List A} {s : System A} (v : A)
      → Run c default sent got s
      → s.producer ≡ idle
      → (next_slot c s.ring.tail == s.ring.head) ≡ false
      → Run c default sent got (record s { producer = checked v })
  push_store :
      {sent got : List A} {s : System A} (v : A)
      → Run c default sent got s
      → s.producer ≡ checked v
      → Run c default sent got (record {
        ring = record s.ring { buffer = store s.ring.tail v s.ring.buffer };
        producer = stored v;
        consumer = s.consumer;
      })
  push_publish :
      {sent got : List A} {s : System A} (v : A)
      → Run c default sent got s
      → s.producer ≡ stored v
      → Run c default (sent ++ v ∷ []) got (record {
        ring = record s.ring { tail = next_slot c s.ring.tail };
        producer = idle;
        consumer = s.consumer;
      })
  pop_check :
      {sent got : List A} {s : System A}
      → Run c default sent got s
      → s.consumer ≡ waiting
      → (s.ring.head == s.ring.tail) ≡ false
      → Run c default sent got (record s { consumer = found })
  pop_read :
      {sent got : List A} {s : System A}
      → Run c default sent got s
      → s.consumer ≡ found
      → Run c default sent got (record s { consumer = taken (s.ring.buffer s.ring.head) })
  pop_release :
      {sent got : List A} {s : System A} (v : A)
      → Run c default sent got s
      → s.consumer ≡ taken v
      → Run c default sent (got ++ v ∷ []) (record {
        ring = record s.ring { head = next_slot c s.ring.head };
        producer = s.producer;
        consumer = waiting;
      })

-- What the producer knows while `n` elements are in the ring.
abbrev pub Producing {ℓ} : {A : Type ℓ} → ℕ → Ring A → ℕ → Producer A → Type ℓ
Producing c r n idle = Unit
Producing c r n (checked v) = (n + 1 < c) × Unit {ℓ}
Producing c r n (stored v) = (n + 1 < c) × (r.buffer r.tail ≡ v)

-- What the consumer knows of the elements in the ring.
abbrev pub Consuming {ℓ} : {A : Type ℓ} → List A → Consumer A → Type ℓ
Consuming xs waiting = Unit
Consuming xs found = (0 < length xs) × Unit {ℓ}
Consuming {A} xs (taken v) = (rest : List A) × (xs ≡ v ∷ rest)

-- The ring holds, in order and each once, the elements sent and not yet delivered.
pub record Holds {ℓ} {A : Type ℓ} (c : ℕ) (sent got : List A) (s : System A) : Type ℓ where
  pub queue : List A
  pub split : sent ≡ got ++ queue
  pub head_at : s.ring.head ≡ length got % c
  pub tail_at : s.ring.tail ≡ (length got + length queue) % c
  pub room : length queue < c
  pub slots : Slots c s.ring.buffer (length got) queue
  pub producing : Producing c s.ring (length queue) s.producer
  pub consuming : Consuming queue s.consumer
