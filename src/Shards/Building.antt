-- ===== src/Shards/Building.antt =====
-- The constructor of `ShardedMatcher`: which instruments get a book in which shard.
use multi_instrument_orderbo.Prelude.{
  ℕ, zero, suc, ◌+◌, ◌<◌, ◌≤◌, ◌≡◌, ◌≢◌, refl, sym, ap, subst, ◌∙◌, Bool, true, false, ◌==◌,
  if◌then◌else◌, Option, none, some, List, [], ◌∷◌, arith, ◌&&◌, not,
}
use multi_instrument_orderbo.HashMap.{lookup, emplace, lookup-emplace}
use multi_instrument_orderbo.Level.{Links}
use multi_instrument_orderbo.Pool.{Pool, new_pool}
use multi_instrument_orderbo.Registry.{Registry, InstrumentSpec}
use multi_instrument_orderbo.Spsc.{new_ring, store}
use native.Mathlib.Decide.{ℕ_discrete}
use multi_instrument_orderbo.Engine.{Engine, new_slot, add_books, new_engine}
use multi_instrument_orderbo.Engine.Slots.{IsLinked, IsLinked-add_books}
use multi_instrument_orderbo.Shards.{
  blank_command, at_top, main_loop, Shard, ShardedMatcher, with_engine, owns, make_engines, built,
  idle_shards, new_sharded, BuildResult, throws,
}

-- The pointer of an instrument that is among the specifications.
abbrev pub listed : ℕ → List InstrumentSpec → Option ℕ
listed id [] = none
listed id (spec ∷ specs) = let rest = listed id specs in if spec.id == id then some id else rest

-- The pointer that the shard `i` of `n` has to keep for an instrument.
abbrev pub home : List InstrumentSpec → ℕ → ℕ → ℕ → Option ℕ
home specs n i id = if owns n i id then listed id specs else none

-- The maps of the shard `i` hold the instruments of the registry that are its own, and no other.
pub record Homed (specs : List InstrumentSpec) (n i : ℕ) (sh : Shard) : Type 0 where
  pub pointers : (id : ℕ) → lookup id sh.book_ptrs ≡ home specs n i id
  pub linked : IsLinked sh.matchers sh.book_ptrs

abbrev or_listed : Option ℕ → Option ℕ → Option ℕ
or_listed none q = q
or_listed (some p) q = some p

lookup-add_books :
    (filter : ℕ → Bool) (id : ℕ) (specs : List InstrumentSpec) (e : Engine)
    → lookup id (add_books (some filter) specs e).book_ptrs
      ≡ or_listed (lookup id e.book_ptrs) (if filter id then listed id specs else none)
unfolding add_books
lookup-add_books filter id [] e = ground arith
lookup-add_books filter id (spec ∷ specs) e = ground (
  arith,
  lookup-add_books filter id specs e,
  lookup-add_books filter id specs (record e {
    book_ptrs = emplace spec.id spec.id e.book_ptrs;
    matchers = emplace spec.id (new_slot spec.id) e.matchers;
  }),
  lookup-emplace spec.id id spec.id e.book_ptrs,
  λ (f : spec.id ≡ id). ap filter f,
  λ (f : spec.id ≡ id). ap (λ j. lookup j e.book_ptrs) f,
)

-- A shard that no worker has touched yet.
pub record IsFresh (sh : Shard) : Type 0 where
  pub queue : sh.queue ≡ new_ring blank_command
  pub submitted : sh.submitted ≡ 0
  pub processed : sh.processed ≡ 0
  pub stop : sh.stop ≡ false
  pub worker : sh.worker ≡ at_top main_loop

-- The shards from `i` on, of which the first `k` have their engines.
record Made (registry : Registry) (k i : ℕ) (s t : ShardedMatcher) : Type 0 where
  links : t.links ≡ s.links
  pool : t.pool ≡ s.pool
  num_shards : t.num_shards ≡ s.num_shards
  before : (j : ℕ) → j < i → t.shards j ≡ s.shards j
  fresh : (j : ℕ) → IsFresh (s.shards j) → IsFresh (t.shards j)
  homed : (j : ℕ) → i ≤ j → j < i + k → Homed registry.instruments s.num_shards j (t.shards j)

abbrev engine_for : Registry → Links → Pool → (ℕ → Bool) → Engine
engine_for registry lk pool filter =
    add_books (some filter) registry.instruments
      (record { links = lk; pool = pool; matchers = []; book_ptrs = [] })

add_books-shared :
    (filter : Option (ℕ → Bool)) (specs : List InstrumentSpec) (e : Engine)
    → ((add_books filter specs e).links ≡ e.links) × ((add_books filter specs e).pool ≡ e.pool)
unfolding add_books
add_books-shared filter [] e = (refl, refl)
add_books-shared filter (spec ∷ specs) e = ground (
  arith,
  add_books-shared filter specs e,
  add_books-shared filter specs (record e {
    book_ptrs = emplace spec.id spec.id e.book_ptrs;
    matchers = emplace spec.id (new_slot spec.id) e.matchers;
  }),
)

new_engine-of_frozen :
    (registry : Registry) (lk : Links) (pool : Pool) (filter : ℕ → Bool)
    → registry.frozen ≡ true
    → new_engine registry lk pool (some filter) ≡ some (engine_for registry lk pool filter)
unfolding new_engine
new_engine-of_frozen registry lk pool filter f = rw f refl

store-same {ℓ} : {A : Type ℓ} (i : ℕ) (v : A) (f : ℕ → A) → store i v f i ≡ v
store-same i v f = ground arith

module _ (registry : Registry) (i : ℕ) (s : ShardedMatcher) where
  abbrev fresh_engine : Engine
  fresh_engine = engine_for registry s.links s.pool (owns s.num_shards i)

  abbrev one_more : ShardedMatcher
  one_more = with_engine i fresh_engine (at_top main_loop) s

  one_more-shard : one_more.shards i ≡ record (s.shards i) {
    matchers = fresh_engine.matchers;
    book_ptrs = fresh_engine.book_ptrs;
    worker = at_top main_loop;
  }
  one_more-shard = store-same i _ s.shards

  one_more-other : (j : ℕ) → i ≢ j → one_more.shards j ≡ s.shards j
  one_more-other j ne = ground (arith, ne)

  one_more-Homed : Homed registry.instruments s.num_shards i (one_more.shards i)
  unfolding lookup
  one_more-Homed = subst (Homed registry.instruments s.num_shards i) (sym one_more-shard) (record {
    pointers = λ id.
        lookup-add_books (owns s.num_shards i) id registry.instruments
          (record { links = s.links; pool = s.pool; matchers = []; book_ptrs = [] });
    linked =
        IsLinked-add_books (some (owns s.num_shards i)) registry.instruments
          (record { links = s.links; pool = s.pool; matchers = []; book_ptrs = [] }) (λ id. refl);
  })

  one_more-IsFresh : (j : ℕ) → IsFresh (s.shards j) → IsFresh (one_more.shards j)
  one_more-IsFresh j h = elim (ℕ_discrete i j) [
    | yes same ↦
        let g : IsFresh (s.shards i) = subst (λ m. IsFresh (s.shards m)) (sym same) h in
        subst (λ m. IsFresh (one_more.shards m)) same
          (subst IsFresh (sym one_more-shard) (record {
            queue = g.queue;
            submitted = g.submitted;
            processed = g.processed;
            stop = g.stop;
            worker = refl;
          }))
    | no ne ↦ subst IsFresh (sym (one_more-other j ne)) h
  ]

make_engines-Made :
    (registry : Registry) (k i : ℕ) (s : ShardedMatcher)
    → registry.frozen ≡ true
    → (t : ShardedMatcher) × (make_engines registry k i s ≡ some t) × Made registry k i s t
unfolding make_engines
make_engines-Made registry zero i s f = (
  s,
  refl,
  record {
    links = refl;
    pool = refl;
    num_shards = refl;
    before = λ j h. refl;
    fresh = λ j h. h;
    homed = λ j h g. absurd (omega (arith, h, g));
  },
)
make_engines-Made registry (suc k) i s f =
    let mid = one_more registry i s in
    let (t, ran, m) = make_engines-Made registry k (suc i) mid f in
    let kept =
      add_books-shared (some (owns s.num_shards i)) registry.instruments
        (record { links = s.links; pool = s.pool; matchers = []; book_ptrs = [] }) in
    (
      t,
      rw (new_engine-of_frozen registry s.links s.pool (owns s.num_shards i) f) ran,
      record {
        links = m.links ∙ kept.0;
        pool = m.pool ∙ kept.1;
        num_shards = m.num_shards;
        before = λ j h.
            m.before j (omega (arith, h)) ∙ one_more-other registry i s j (ground (arith, h));
        fresh = λ j h. m.fresh j (one_more-IsFresh registry i s j h);
        homed = λ j h g. elim (ℕ_discrete i j) [
          | yes same ↦
              subst (λ r. Homed registry.instruments s.num_shards r (t.shards r)) same
                (subst (Homed registry.instruments s.num_shards i) (sym (m.before i (omega arith)))
                  (one_more-Homed registry i s))
          | no ne ↦ m.homed j (ground (arith, h, ne)) (omega (arith, g))
        ];
      },
    )

-- What the constructor gives for a frozen registry.
pub record Built (registry : Registry) (lk : Links) (n capacity : ℕ) : Type 0 where
  pub after : ShardedMatcher
  pub runs : new_sharded registry lk n capacity ≡ built after
  pub num_shards : after.num_shards ≡ n
  pub pool : after.pool ≡ new_pool capacity
  pub fresh : (i : ℕ) → IsFresh (after.shards i)
  pub homed : (i : ℕ) → i < n → Homed registry.instruments n i (after.shards i)

-- With one shard or more and a frozen registry, the constructor does not throw. The shard `i` of the
-- `n` gets the book of an instrument exactly where the registry has it and its id leaves the rest
-- `i` when divided by `n`; queues and counters are empty, and the pool is full.
pub new_sharded-Built :
    (registry : Registry) (lk : Links) (n capacity : ℕ)
    → registry.frozen ≡ true
    → 0 < n
    → Built registry lk n capacity
unfolding new_sharded
new_sharded-Built registry lk n capacity f h =
    let (t, ran, m) = make_engines-Made registry n 0 (idle_shards lk n capacity) f in
    record {
      after = t;
      runs = ground (arith, h, f, ran);
      num_shards = m.num_shards;
      pool = m.pool;
      fresh = λ i.
          m.fresh i (record {
            queue = refl;
            submitted = refl;
            processed = refl;
            stop = refl;
            worker = refl;
          });
      homed = λ i g. m.homed i (omega arith) (omega (arith, g));
    }

abbrev after_or : ShardedMatcher → BuildResult → ShardedMatcher
after_or s (throws x) = s
after_or s (built t) = t

abbrev may_build : Registry → ℕ → Bool
may_build registry n = not (n == 0) && registry.frozen

runs-may_build :
    (registry : Registry) (lk : Links) (n capacity : ℕ) (s : ShardedMatcher)
    → new_sharded registry lk n capacity ≡ built s
    → may_build registry n ≡ true
unfolding new_sharded
runs-may_build registry lk n capacity s e = ground (arith, e)

-- The other way round.
pub Built-of_runs :
    (registry : Registry) (lk : Links) (n capacity : ℕ) (s : ShardedMatcher)
    → new_sharded registry lk n capacity ≡ built s
    → (b : Built registry lk n capacity) × (b.after ≡ s)
Built-of_runs registry lk n capacity s e =
    let may = runs-may_build registry lk n capacity s e in
    let b = new_sharded-Built registry lk n capacity (ground (arith, may)) (ground (arith, may)) in
    (b, ap (after_or s) (sym b.runs ∙ e))
