-- ===== src/Shards/Homes.antt =====
-- Where `ShardedMatcher` keeps the book of an instrument, in every interleaving.
use multi_instrument_orderbo.Prelude.{
  ℕ, suc, ◌%◌, ◌<◌, ◌≡◌, ◌⊎◌, ◌≢◌, refl, sym, ap, subst, ◌∙◌, Bool, true, false, if◌then◌else◌,
  Option, some, none, List, ◌>>=◌, >>=-eq-some, some-eq, Option-cases, Bool-cases, inl, inr, arith,
}
use native.Mathlib.Nat.{mod-lt}
use multi_instrument_orderbo.Level.{Links}
use multi_instrument_orderbo.Matcher.{Clock}
use multi_instrument_orderbo.HashMap.{lookup}
use multi_instrument_orderbo.Types.{is_terminal}
use multi_instrument_orderbo.OrderBook.{OrderBook}
use multi_instrument_orderbo.Registry.{Registry, InstrumentSpec}
use multi_instrument_orderbo.Engine
use multi_instrument_orderbo.Engine.{Engine, Slot, release_order, read_book}
use multi_instrument_orderbo.Engine.Slots.{
  IsLinked, AreLinked, submit-Touches, cancel-Touches, releases-maps, Touches-AreLinked, pointer_to,
  pointed_at,
}
use multi_instrument_orderbo.Spsc.{pop, store}
use multi_instrument_orderbo.Shards.{
  Command, CommandKind, submit_kind, cancel_kind, Worker, WorkerLoop, main_loop, drain_loop, at_top,
  holds, served, exited, Shard, ShardedMatcher, engine_of, release_terminal, run_command, poll,
  test_and_poll, queue_capacity, turn_from, turn, stop_all, enqueue, note_submitted, shard_for,
  book,
}
use multi_instrument_orderbo.Shards.Building.{Homed, listed, home, Built-of_runs}
use multi_instrument_orderbo.Shards.Threads.{
  System, Log, Run, starts, acquires, writes, enqueues, counts, takes_turn, stops,
}
use multi_instrument_orderbo.Spsc.Stores.{store_cases}
use multi_instrument_orderbo.Shards.Size.{Run-num_shards, acquire_shared-shards}

-- A call of an engine that keeps its pointers, and the link of each to a book.
abbrev Keeps : Engine → Engine → Type 0
Keeps e e' = (e'.book_ptrs ≡ e.book_ptrs) × (AreLinked e → AreLinked e')

release-Keeps : (o : ℕ) (e e' : Engine) → release_terminal o e ≡ some e' → Keeps e e'
release-Keeps o e e' h = elim (Bool-cases (is_terminal (e.pool.storage o))) [
  | inl ended ↦
      let kept = releases-maps e e' o (ground (arith, h, ended)) in
      (kept.1, Touches-AreLinked 0 e e' (kept.1, inl kept.0))
  | inr not_ended ↦
      let same : ◌≡◌ {A = Option Engine} (some e) (some e') = ground (arith, h, not_ended) in
      subst (Keeps e) (some-eq same) (refl, λ x. x)
]

run_submit-Keeps :
    (fuel : ℕ) (c : Clock) (o : ℕ) (e e' : Engine)
    → ◌>>=◌ {B = Engine} (Engine.submit fuel c o e) (λ r. release_terminal o r.0) ≡ some e'
    → Keeps e e'
run_submit-Keeps fuel c o e e' h =
    let (r, ran, rest) = >>=-eq-some (Engine.submit fuel c o e) _ _ h in
    let touched = submit-Touches fuel c o e r.0 r.1 ran in
    let released = release-Keeps o r.0 e' rest in
    (released.0 ∙ touched.0, λ x. released.1 (Touches-AreLinked _ e r.0 touched x))

kind_cases : (k : CommandKind) → (k ≡ submit_kind) ⊎ (k ≡ cancel_kind)
kind_cases submit_kind = inl refl
kind_cases cancel_kind = inr refl

run_command-Keeps :
    (c : Clock) (cmd : Command) (e e' : Engine) → run_command c cmd e ≡ some e' → Keeps e e'
unfolding run_command
run_command-Keeps c cmd e e' h = elim (kind_cases cmd.kind) [
  | inl submits ↦ elim (Option-cases cmd.order) [
    | inl null ↦ absurd (ground (arith, rw (submits, run_command) at h, null))
    | inr (o, order) ↦
        run_submit-Keeps (suc e.pool.capacity) c o e e' (rw (submits, order, run_command) at h)
  ]
  | inr cancels ↦
      let (r, ran, same) =
        >>=-eq-some (Engine.cancel cmd.instrument cmd.order_id e) _ _
          (rw (cancels, run_command) at h) in
      let touched = cancel-Touches cmd.instrument cmd.order_id e r.0 r.1 ran in
      subst (Keeps e) (some-eq same) (touched.0, Touches-AreLinked _ e r.0 touched)
]

poll-maps :
    (loop : WorkerLoop) (sh : Shard)
    → ((poll loop sh).matchers ≡ sh.matchers) × ((poll loop sh).book_ptrs ≡ sh.book_ptrs)
unfolding poll
poll-maps loop sh = elim (Option-cases (pop queue_capacity sh.queue).1) [
  | inl nothing ↦ rw (nothing, poll) (refl, refl)
  | inr (cmd, found) ↦ rw (found, poll) (refl, refl)
]

module _ (specs : List InstrumentSpec) (n i : ℕ) where
  Homed-poll :
      (loop : WorkerLoop) (sh : Shard) → Homed specs n i sh → Homed specs n i (poll loop sh)
  Homed-poll loop sh h = record {
    pointers = rw (poll-maps loop sh).1 h.pointers;
    linked = rw (poll-maps loop sh).0 (rw (poll-maps loop sh).1 h.linked);
  }

  Homed-same :
      (sh sh' : Shard)
      → sh'.matchers ≡ sh.matchers
      → sh'.book_ptrs ≡ sh.book_ptrs
      → Homed specs n i sh
      → Homed specs n i sh'
  Homed-same sh sh' e f h = record {
    pointers = λ id. ap (lookup id) f ∙ h.pointers id;
    linked =
        subst (IsLinked sh'.matchers) (sym f)
          (subst (λ m. IsLinked m sh.book_ptrs) (sym e) h.linked);
  }

  Homed-test :
      (loop : WorkerLoop) (sh : Shard)
      → Homed specs n i sh
      → Homed specs n i (test_and_poll loop sh)
  Homed-test main_loop sh h = at_stop sh.stop
    where
      at_stop :
          (stop : Bool)
          → Homed specs n i
              (if stop then record sh { worker = at_top drain_loop } else poll main_loop sh)
      at_stop true = Homed-same sh _ refl refl h
      at_stop false = Homed-poll main_loop sh h
  Homed-test drain_loop sh h = Homed-poll drain_loop sh h

abbrev AllHomed : List InstrumentSpec → ℕ → ShardedMatcher → Type 0
AllHomed specs n s = (i : ℕ) → i < n → Homed specs n i (s.shards i)

module _ (specs : List InstrumentSpec) (n : ℕ) where
  -- A change of one shard.
  AllHomed-store :
      (i : ℕ) (sh : Shard) (s : ShardedMatcher)
      → (i < n → Homed specs n i sh)
      → AllHomed specs n s
      → (j : ℕ) → j < n
      → Homed specs n j (store i sh s.shards j)
  AllHomed-store i sh s h all =
      store_cases (λ j sh_j. j < n → Homed specs n j sh_j) i sh s.shards h (λ j ne. all j)

  turn-AllHomed :
      (w : Worker) (c : Clock) (i : ℕ) (s s' : ShardedMatcher)
      → turn_from w c i s ≡ some s'
      → AllHomed specs n s
      → AllHomed specs n s'
  unfolding turn_from
  turn-AllHomed (at_top loop) c i s s' e h =
      subst (AllHomed specs n) (some-eq e)
        (AllHomed-store i _ s (λ g. Homed-test specs n i loop (s.shards i) (h i g)) h)
  turn-AllHomed (holds loop cmd) c i s s' e h =
      let (e', ran, same) = >>=-eq-some (run_command c cmd (engine_of i s)) _ _ e in
      let kept = run_command-Keeps c cmd (engine_of i s) e' ran in
      subst (AllHomed specs n) (some-eq same) (
        AllHomed-store i _ s
          (λ g. record {
            pointers = λ id. ap (lookup id) kept.0 ∙ (h i g).pointers id;
            linked = kept.1 (h i g).linked;
          })
          h)
  turn-AllHomed (served loop) c i s s' e h =
      subst (AllHomed specs n) (some-eq e)
        (AllHomed-store i _ s (λ g. Homed-same specs n i (s.shards i) _ refl refl (h i g)) h)
  turn-AllHomed exited c i s s' e h = subst (AllHomed specs n) (some-eq e) h

home-own :
    (specs : List InstrumentSpec) (n i id : ℕ) → id % n ≡ i → home specs n i id ≡ listed id specs
home-own specs n i id e = ground (arith, e)

home-other : (specs : List InstrumentSpec) (n i id : ℕ) → id % n ≢ i → home specs n i id ≡ none
home-other specs n i id ne = ground (arith, ne)

no_slot : (id : ℕ) (sl : Option Slot) → pointer_to id sl ≡ none → sl ≡ none
no_slot id none e = refl
no_slot id (some sl) e = absurd (ground (arith, e))

module _ (registry : Registry) (lk : Links) (n capacity : ℕ) where
  Run-AllHomed :
      (sent done : Log) (s : System)
      → Run registry lk n capacity sent done s
      → AllHomed registry.instruments n s.core
  unfolding turn turn_from stop_all note_submitted enqueue
  Run-AllHomed _ _ _ (starts s e) =
      let (b, same) = Built-of_runs registry lk n capacity s e in
      subst (AllHomed registry.instruments n) same b.homed
  Run-AllHomed sent done _ (acquires {s} s' got r e) =
      subst (λ f. (i : ℕ) → i < n → Homed registry.instruments n i (f i))
        (sym (acquire_shared-shards s.core s' got e).1) (Run-AllHomed sent done s r)
  Run-AllHomed sent done _ (writes {s} o rec r) = Run-AllHomed sent done s r
  Run-AllHomed _ done _ (enqueues {sent} {s} s' cmd r p e) =
      subst (AllHomed registry.instruments n) (ap (λ t. t.0) e) (
        AllHomed-store registry.instruments n (shard_for cmd.instrument s.core) _ s.core
          (λ g.
            Homed-same registry.instruments n _ (s.core.shards _) _ refl refl
              (Run-AllHomed sent done s r _ g))
          (Run-AllHomed sent done s r))
  Run-AllHomed sent done _ (counts {s} i r p) =
      AllHomed-store registry.instruments n i _ s.core
        (λ g.
          Homed-same registry.instruments n i (s.core.shards i) _ refl refl
            (Run-AllHomed sent done s r i g))
        (Run-AllHomed sent done s r)
  Run-AllHomed sent _ _ (takes_turn {done} {s} s' c i r inside e) =
      turn-AllHomed registry.instruments n (s.core.shards i).worker c i s.core s' e
        (Run-AllHomed sent done s r)
  Run-AllHomed sent done _ (stops {s} r p) = λ i g.
      Homed-same registry.instruments n i (s.core.shards i) _ refl refl
        (Run-AllHomed sent done s r i g)

  -- What is known of the books in a state.
  pub record Kept (s : ShardedMatcher) : Type 0 where
    pub pointer : (id : ℕ) → book id s ≡ listed id registry.instruments
    pub elsewhere : (id i : ℕ) → i < n → i ≢ shard_for id s → lookup id (s.shards i).matchers ≡ none
    pub alive :
        (id p : ℕ)
        → book id s ≡ some p
        → (b : OrderBook) × (read_book p (engine_of (shard_for id s) s) ≡ some b)

  -- However the threads are interleaved, `book` of an instrument of the registry is a pointer to a
  -- book that is alive, in the shard that `shard_for` names, and no other shard has a book for it;
  -- for any other id the pointer is null.
  pub Run-Kept :
      (sent done : Log) (s : System) → 0 < n → Run registry lk n capacity sent done s → Kept s.core
  unfolding book shard_for Engine.book read_book
  Run-Kept sent done s some_shards r =
      let homed = Run-AllHomed sent done s r in
      let size : s.core.num_shards ≡ n = Run-num_shards registry lk n capacity sent done s r in
      let inside = λ (id : ℕ). subst (λ m. id % m < n) (sym size) (mod-lt id some_shards) in
      let own = λ (id : ℕ). homed (id % s.core.num_shards) (inside id) in
      let pointer = λ (id : ℕ).
        (own id).pointers id ∙ home-own registry.instruments n _ id (ap (λ m. id % m) (sym size)) in
      record {
        pointer = pointer;
        elsewhere = λ id i g ne.
            let h = homed i g in
            no_slot id (lookup id (s.core.shards i).matchers) (
              sym (h.linked id)
              ∙ h.pointers id
              ∙ home-other registry.instruments n i id
                  (λ e. ne (sym e ∙ ap (λ m. id % m) (sym size))));
        alive = λ id p found.
            pointed_at id p (engine_of (id % s.core.num_shards) s.core) (own id).linked found;
      }
