-- ===== src/Spsc/Queue.antt =====
-- The ring under all interleavings against a queue.
use multi_instrument_orderbo.Prelude.{
  ℕ, suc, ◌+◌, ◌-◌, ◌%◌, ◌≤◌, ◌<◌, ◌≡◌, ◌≢◌, refl, sym, ap, subst, ◌∙◌, false, ◌==◌, List, [], ◌∷◌,
  ◌++◌, length, length-append, append_assoc, arith, ltb, ltb→lt, Bool-cases, inl, inr,
}
use native.Mathlib.Nat.{mod-add-mod, add-mod_right, mod-lt}
use multi_instrument_orderbo.Spsc.{Ring, store, push, is_empty, approx_size}
use multi_instrument_orderbo.Spsc.Slots.{mod-ne, mod_distance, Slots, Slots-store, Slots-snoc}
use multi_instrument_orderbo.Spsc.Threads.{
  Producer, idle, checked, stored, Consumer, waiting, found, taken, System, next_slot, Producing,
  Consuming, Holds, Run, start, push_check, push_store, push_publish, pop_check, pop_read,
  pop_release, new_system,
}

Consuming-snoc {ℓ} :
    {A : Type ℓ} (xs ys : List A) (p : Consumer A) → Consuming xs p → Consuming (xs ++ ys) p
Consuming-snoc xs ys waiting h = tt
Consuming-snoc xs ys found h = (omega (arith, length-append xs ys, h.0), tt)
Consuming-snoc xs ys (taken v) h = (h.0 ++ ys, ap (λ zs. zs ++ ys) h.1)

Producing-fewer {ℓ} :
    {A : Type ℓ} (c : ℕ) (r : Ring A) (n m i : ℕ) (p : Producer A)
    → m ≤ n
    → Producing c r n p
    → Producing c (record r { head = i }) m p
Producing-fewer c r n m i idle h k = tt
Producing-fewer c r n m i (checked v) h k = (omega (arith, k.0), tt)
Producing-fewer c r n m i (stored v) h k = (omega (arith, k.0), k.1)

module _ {ℓ} {A : Type ℓ} (c : ℕ) (some_slots : 0 < c) where
  start-Holds : (default : A) → Holds c [] [] (new_system default)
  start-Holds default = record {
    queue = [];
    split = refl;
    head_at = grind arith;
    tail_at = grind arith;
    room = omega arith;
    slots = tt;
    producing = tt;
    consuming = tt;
  }

  module _ {sent got : List A} {s : System A} (h : Holds c sent got s) where
    tail_next : next_slot c s.ring.tail ≡ (length got + length h.queue + 1) % c
    tail_next = ap (next_slot c) h.tail_at ∙ mod-add-mod (length got + length h.queue) c 1

    -- The test of `push` leaves room for one more element.
    room_after_check : (next_slot c s.ring.tail == s.ring.head) ≡ false → length h.queue + 1 < c
    room_after_check e = elim (Bool-cases (ltb (length h.queue + 1) c)) [
      | inl less ↦ ltb→lt _ _ less
      | inr full ↦
          let round : length got + length h.queue + 1 ≡ length got + c =
            ground (arith, h.room, full) in
          let same =
            tail_next ∙ ap (λ n. n % c) round ∙ add-mod_right (length got) c ∙ sym h.head_at in
          absurd (ground (arith, e, same))
    ]

    some_after_check : (s.ring.head == s.ring.tail) ≡ false → 0 < length h.queue
    some_after_check e = elim (Bool-cases (ltb 0 (length h.queue))) [
      | inl more ↦ ltb→lt _ _ more
      | inr none_left ↦
          let same_count : length got + length h.queue ≡ length got = ground (arith, none_left) in
          let same = h.head_at ∙ ap (λ n. n % c) (sym same_count) ∙ sym h.tail_at in
          absurd (ground (arith, e, same))
    ]

    push_check-Holds :
        (v : A)
        → s.producer ≡ idle
        → (next_slot c s.ring.tail == s.ring.head) ≡ false
        → Holds c sent got (record s { producer = checked v })
    push_check-Holds v p e = record {
      queue = h.queue;
      split = h.split;
      head_at = h.head_at;
      tail_at = h.tail_at;
      room = h.room;
      slots = h.slots;
      producing = (room_after_check e, tt);
      consuming = h.consuming;
    }

    push_store-Holds :
        (v : A)
        → s.producer ≡ checked v
        → Holds c sent got (record {
          ring = record s.ring { buffer = store s.ring.tail v s.ring.buffer };
          producer = stored v;
          consumer = s.consumer;
        })
    push_store-Holds v p =
        let ready = subst (Producing c s.ring (length h.queue)) p h.producing in
        record {
          queue = h.queue;
          split = h.split;
          head_at = h.head_at;
          tail_at = h.tail_at;
          room = h.room;
          slots =
              subst (λ t. Slots c (store t v s.ring.buffer) (length got) h.queue) (sym h.tail_at)
                (Slots-store c s.ring.buffer v (length got + length h.queue) (length got) h.queue
                  (omega arith) (omega (arith, h.room)) h.slots);
          producing = (ready.0, ground arith);
          consuming = h.consuming;
        }

    push_publish-Holds :
        (v : A)
        → s.producer ≡ stored v
        → Holds c (sent ++ v ∷ []) got (record {
          ring = record s.ring { tail = next_slot c s.ring.tail };
          producer = idle;
          consumer = s.consumer;
        })
    push_publish-Holds v p =
        let ready = subst (Producing c s.ring (length h.queue)) p h.producing in
        record {
          queue = h.queue ++ v ∷ [];
          split = ap (λ xs. xs ++ v ∷ []) h.split ∙ append_assoc got h.queue (v ∷ []);
          head_at = h.head_at;
          tail_at = tail_next ∙ ap (λ n. n % c) (omega (arith, length-append h.queue (v ∷ [])));
          room = omega (arith, length-append h.queue (v ∷ []), ready.0);
          slots =
              Slots-snoc c s.ring.buffer v (length got) h.queue h.slots
                (ap s.ring.buffer (sym h.tail_at) ∙ ready.1);
          producing = tt;
          consuming = Consuming-snoc h.queue (v ∷ []) s.consumer h.consuming;
        }

    pop_release-Holds :
        (v : A)
        → s.consumer ≡ taken v
        → Holds c sent (got ++ v ∷ []) (record {
          ring = record s.ring { head = next_slot c s.ring.head };
          producer = s.producer;
          consumer = waiting;
        })
    pop_release-Holds v p =
        let (rest, is_first) = subst (Consuming h.queue) p h.consuming in
        let slots : Slots c s.ring.buffer (length got) (v ∷ rest) =
          subst (Slots c s.ring.buffer (length got)) is_first h.slots in
        let counted : length h.queue ≡ suc (length rest) = ap length is_first in
        let one_more : length (got ++ v ∷ []) ≡ length got + 1 = length-append got (v ∷ []) in
        record {
          queue = rest;
          split = h.split ∙ ap (λ xs. got ++ xs) is_first ∙ sym (append_assoc got (v ∷ []) rest);
          head_at =
              ap (next_slot c) h.head_at
              ∙ mod-add-mod (length got) c 1
              ∙ ap (λ n. n % c) (omega (arith, one_more));
          tail_at = h.tail_at ∙ ap (λ n. n % c) (omega (arith, counted, one_more));
          room = omega (arith, h.room, counted);
          slots = subst (λ n. Slots c s.ring.buffer n rest) (omega (arith, one_more)) slots.1;
          producing =
              Producing-fewer c s.ring (length h.queue) (length rest) (next_slot c s.ring.head)
                s.producer (omega (arith, counted)) h.producing;
          consuming = tt;
        }

    pop_check-Holds :
        s.consumer ≡ waiting
        → (s.ring.head == s.ring.tail) ≡ false
        → Holds c sent got (record s { consumer = found })
    pop_check-Holds p e = record {
      queue = h.queue;
      split = h.split;
      head_at = h.head_at;
      tail_at = h.tail_at;
      room = h.room;
      slots = h.slots;
      producing = h.producing;
      consuming = (some_after_check e, tt);
    }

    first_of :
        (xs : List A)
        → 0 < length xs
        → Slots c s.ring.buffer (length got) xs
        → (rest : List A) × (xs ≡ s.ring.buffer s.ring.head ∷ rest)
    first_of [] m t = absurd (omega arith)
    first_of (x ∷ xs) m t = (xs, ap (λ y. y ∷ xs) (sym (ap s.ring.buffer h.head_at ∙ t.0)))

    pop_read-Holds :
        s.consumer ≡ found
        → Holds c sent got (record s { consumer = taken (s.ring.buffer s.ring.head) })
    pop_read-Holds p =
        let ready = subst (Consuming h.queue) p h.consuming in
        record {
          queue = h.queue;
          split = h.split;
          head_at = h.head_at;
          tail_at = h.tail_at;
          room = h.room;
          slots = h.slots;
          producing = h.producing;
          consuming = first_of h.queue ready.0 h.slots;
        }

-- Whatever way the two threads are interleaved: what `push` has published is what `pop` has
-- delivered and then what is in the ring, in order, each element once, and the ring holds fewer
-- elements than it has slots.
pub Run-Holds {ℓ} :
    {A : Type ℓ} (c : ℕ) (default : A) (sent got : List A) (s : System A)
    → 0 < c
    → Run c default sent got s
    → Holds c sent got s
Run-Holds c default [] [] s h start = start-Holds c h default
Run-Holds c default sent got s h (push_check v r p e) =
    push_check-Holds c h (Run-Holds c default sent got _ h r) v p e
Run-Holds c default sent got s h (push_store v r p) =
    push_store-Holds c h (Run-Holds c default sent got _ h r) v p
Run-Holds c default sent got s h (push_publish v r p) =
    push_publish-Holds c h (Run-Holds c default _ got _ h r) v p
Run-Holds c default sent got s h (pop_check r p e) =
    pop_check-Holds c h (Run-Holds c default sent got _ h r) p e
Run-Holds c default sent got s h (pop_read r p) =
    pop_read-Holds c h (Run-Holds c default sent got _ h r) p
Run-Holds c default sent got s h (pop_release v r p) =
    pop_release-Holds c h (Run-Holds c default sent _ _ h r) v p

-- The slot that the producer is about to write is not the slot that the consumer is about to read.
pub Run-no_race {ℓ} :
    {A : Type ℓ} (c : ℕ) (default : A) (sent got : List A) (s : System A) (v : A)
    → 0 < c
    → Run c default sent got s
    → s.producer ≡ checked v
    → s.consumer ≡ found
    → s.ring.tail ≢ s.ring.head
Run-no_race c default sent got s v some_slots r p q e =
    let h = Run-Holds c default sent got s some_slots r in
    let some_left = subst (Consuming h.queue) q h.consuming in
    mod-ne (length got) (length got + length h.queue) c (omega (arith, some_left.0))
      (omega (arith, h.room)) (sym (sym h.tail_at ∙ e ∙ h.head_at))

module _ {ℓ} {A : Type ℓ} (c : ℕ) (some_slots : 0 < c) {sent got : List A} {s : System A}
    (h : Holds c sent got s) where
  pub count_left : length sent ≡ length got + length h.queue
  count_left = ap length h.split ∙ length-append got h.queue

  approx_size-Holds : approx_size c s.ring ≡ length sent - length got
  unfolding approx_size
  approx_size-Holds =
      ap (λ t. (t + c - s.ring.head) % c)
        (h.tail_at
          ∙ sym (mod-add-mod (length got) c (length h.queue))
          ∙ ap (λ i. (i + length h.queue) % c) (sym h.head_at))
      ∙ mod_distance s.ring.head (length h.queue) c (rw h.head_at (mod-lt (length got) some_slots))
          h.room
      ∙ omega (arith, count_left)

  push-Holds : (v : A) → (push c v s.ring).1 ≡ ltb (length sent + 1) (length got + c)
  unfolding push
  push-Holds v = elim (Bool-cases (next_slot c s.ring.tail == s.ring.head)) [
    | inl full ↦ elim (Bool-cases (ltb (length sent + 1) (length got + c))) [
      | inl less ↦
          let same : next_slot c s.ring.tail ≡ s.ring.head = ground (arith, full) in
          absurd (
            mod-ne (length got) (length got + length h.queue + 1) c (omega arith)
              (ground (arith, less, count_left))
              (sym (sym (tail_next c some_slots h) ∙ same ∙ h.head_at)))
      | inr more ↦ ground (arith, full, more)
    ]
    | inr ok ↦ ground (arith, ok, count_left, room_after_check c some_slots h ok)
  ]

  is_empty-Holds : is_empty s.ring ≡ (length sent == length got)
  unfolding is_empty
  is_empty-Holds = elim (Bool-cases (s.ring.head == s.ring.tail)) [
    | inl same ↦ elim (Bool-cases (ltb 0 (length h.queue))) [
      | inl some_left ↦
          let equal : s.ring.head ≡ s.ring.tail = ground (arith, same) in
          absurd (
            mod-ne (length got) (length got + length h.queue) c (ground (arith, some_left))
              (omega (arith, h.room)) (sym h.head_at ∙ equal ∙ h.tail_at))
      | inr none_left ↦ ground (arith, same, none_left, count_left)
    ]
    | inr other ↦ ground (arith, other, count_left, some_after_check c some_slots h other)
  ]

-- In any state of a run, `push` accepts an element exactly while one slot stays free behind
-- it, `empty` tells whether all that was sent was delivered, and `approx_size` is the number of
-- elements between.
pub Run-answers {ℓ} :
    {A : Type ℓ} (c : ℕ) (default v : A) (sent got : List A) (s : System A)
    → 0 < c
    → Run c default sent got s
    → ((push c v s.ring).1 ≡ ltb (length sent + 1) (length got + c))
      × (is_empty s.ring ≡ (length sent == length got))
      × (approx_size c s.ring ≡ length sent - length got)
Run-answers c default v sent got s some_slots r =
    let h = Run-Holds c default sent got s some_slots r in
    (push-Holds c some_slots h v, is_empty-Holds c some_slots h, approx_size-Holds c some_slots h)
