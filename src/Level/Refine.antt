-- ===== src/Level/Refine.antt =====
-- `push_back` and `pop_front` of `PriceLevel` against the plain list of slots.
use multi_instrument_orderbo.Prelude.{
  ℕ, ◌≡◌, ◌≢◌, refl, Option, none, some, List, [], ◌∷◌, ◌++◌, arith, NotIn, Distinct, Disjoint, ◌∙◌,
  Distinct-append, Disjoint-singleton, true, false,
}
use multi_instrument_orderbo.Level.{
  Links, PriceLevel, set_prev, set_next, unlink, push_back, pop_front, empty_level, is_empty,
}
use multi_instrument_orderbo.Level.Chain.{
  IsChain, Holds, Agree, final, IsChain-Agree, Agree-trans, Agree-set_next, Agree-set_prev,
  Agree-unlink, IsChain-append, final-ne, final-NotIn, final-append, IsChain-set_next,
  IsChain-set_prev, final-cases,
}

pub empty_level-Holds : (lk : Links) → Holds lk empty_level []
empty_level-Holds lk = record { chain = refl; ends = refl; distinct = tt }

-- A level is empty exactly when it holds no order.
pub is_empty_nil : (lk : Links) (l : PriceLevel) → Holds lk l [] → is_empty l ≡ true
unfolding is_empty
is_empty_nil lk l h = ground (arith, h.chain)

pub is_empty_cons :
    (lk : Links) (l : PriceLevel) (x : ℕ) (xs : List ℕ) → Holds lk l (x ∷ xs) → is_empty l ≡ false
unfolding is_empty
is_empty_cons lk l x xs h = ground (arith, h.chain.0)

-- What `push_back` writes in the order that it appends.
push_links : ℕ → Option ℕ → Links → Links
push_links o tail lk = set_next o none (set_prev o tail lk)

Agree-push_links :
    (lk : Links) (o : ℕ) (tail : Option ℕ) (xs : List ℕ)
    → NotIn o xs
    → Agree lk (push_links o tail lk) xs
unfolding push_links
Agree-push_links lk o tail xs n =
    Agree-trans lk (set_prev o tail lk) _ xs (Agree-set_prev lk o tail xs n)
      (Agree-set_next (set_prev o tail lk) o none xs n)

Distinct-snoc : (o : ℕ) (xs : List ℕ) → NotIn o xs → Distinct xs → Distinct (xs ++ (o ∷ []))
Distinct-snoc o xs n d = Distinct-append xs (o ∷ []) d (tt, tt) (Disjoint-singleton o xs n)

push_back-Holds_cons :
    (lk : Links) (l : PriceLevel) (x : ℕ) (xs : List ℕ) (o t : ℕ)
    → Holds lk l (x ∷ xs)
    → final (some x) xs ≡ some t
    → NotIn o (x ∷ xs)
    → Holds
        (set_next t (some o) (push_links o l.tail lk))
        (record l { tail = some o })
        (x ∷ xs ++ (o ∷ []))
unfolding push_links
push_back-Holds_cons lk l x xs o t h e n = record {
  chain = IsChain-append lk' (x ∷ xs) (o ∷ []) none l.head (some o) none old (rw e new);
  ends = rw final-append;
  distinct = Distinct-snoc o (x ∷ xs) n h.distinct;
}
  where
    lk' : Links
    lk' = set_next t (some o) (push_links o l.tail lk)

    old : IsChain lk' none l.head (x ∷ xs) (some o)
    old = IsChain-set_next (push_links o l.tail lk) x xs none l.head none (some o) t h.distinct e (
        IsChain-Agree lk _ (x ∷ xs) none l.head none (Agree-push_links lk o l.tail (x ∷ xs) n)
          h.chain)

    ne : o ≢ t
    ne = final-ne o x xs t n e

    new : IsChain lk' (some t) (some o) (o ∷ []) none
    new = (refl, ground (arith, h.ends), ground (arith, ne))

-- `push_back` appends the order to the level.
pub push_back-Holds :
    (o : ℕ) (lk : Links) (l : PriceLevel) (xs : List ℕ)
    → Holds lk l xs
    → NotIn o xs
    → let (lk', l') = push_back o lk l in Holds lk' l' (xs ++ (o ∷ []))
unfolding push_back push_links
push_back-Holds o lk l [] h n =
    rw (h.ends, push_back)
      (record { chain = (refl, ground arith, ground arith); ends = refl; distinct = (tt, tt) })
push_back-Holds o lk l (x ∷ xs) h n =
    let (t, e) = final-cases x xs in
    rw (h.ends ∙ e, push_back) (push_back-Holds_cons lk l x xs o t h e n)

-- `push_back` writes links of the pushed order and of the level only.
pub push_back-Agree :
    (o : ℕ) (lk : Links) (l : PriceLevel) (xs zs : List ℕ)
    → Holds lk l xs
    → NotIn o zs
    → Disjoint xs zs
    → Agree lk (push_back o lk l).0 zs
unfolding push_back push_links
push_back-Agree o lk l [] zs h n d = rw (h.ends, push_back) (Agree-push_links lk o l.tail zs n)
push_back-Agree o lk l (x ∷ xs) zs h n d =
    let (t, e) = final-cases x xs in
    rw (h.ends ∙ e, push_back)
      (Agree-trans lk (push_links o l.tail lk) _ zs (Agree-push_links lk o l.tail zs n)
        (Agree-set_next (push_links o l.tail lk) t (some o) zs (final-NotIn x xs zs t d e)))

-- What `pop_front` does to a level with the order `x` in front.
pub record Popped (lk : Links) (l : PriceLevel) (x : ℕ) (xs : List ℕ) : Type 0 where
  pub links : Links
  pub level : PriceLevel
  pub runs : pop_front lk l ≡ some (links, level)
  pub holds : Holds links level xs
  pub frame : (zs : List ℕ) → Disjoint (x ∷ xs) zs → Agree lk links zs

-- `pop_front` drops the oldest order, succeeds on every level that has one, and writes links of
-- the level only.
pub pop_front-Popped :
    (lk : Links) (l : PriceLevel) (x : ℕ) (xs : List ℕ) → Holds lk l (x ∷ xs) → Popped lk l x xs
unfolding pop_front
pop_front-Popped lk l x [] h = record {
  links = unlink x lk;
  level = empty_level;
  runs = rw (h.chain.0, h.chain.2, pop_front);
  holds = empty_level-Holds _;
  frame = λ zs d. Agree-unlink lk x zs d.0;
}
pop_front-Popped lk l x (y ∷ ys) h = record {
  links = unlink x (set_prev y none lk);
  level = record l { head = some y };
  runs = rw (h.chain.0, h.chain.2.0, pop_front);
  holds = record {
    chain =
        IsChain-Agree (set_prev y none lk) _ (y ∷ ys) none (some y) none
          (Agree-unlink (set_prev y none lk) x (y ∷ ys) h.distinct.0)
          (IsChain-set_prev lk y ys (some x) (some y) none none h.distinct.1
            (rw h.chain.2.0 at h.chain.2));
    ends = h.ends;
    distinct = h.distinct.1;
  };
  frame = λ zs d.
      Agree-trans lk (set_prev y none lk) _ zs (Agree-set_prev lk y none zs d.1.0)
        (Agree-unlink (set_prev y none lk) x zs d.0);
}
