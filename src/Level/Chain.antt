-- ===== src/Level/Chain.antt =====
-- When the links of a price level spell a list of slots, and which writes keep that.
use multi_instrument_orderbo.Prelude.{
  ℕ, zero, suc, ◌≡◌, ◌≢◌, refl, Option, none, some, List, [], ◌∷◌, ◌++◌, arith, NotIn, Distinct,
  Disjoint, length, ◌≤◌, ◌∙◌,
}
use multi_instrument_orderbo.Level.{Links, PriceLevel, set_prev, set_next, unlink, walk}

-- From `cur`, with `before` in front of it, the links go through the slots and end at `stop`.
abbrev pub IsChain : Links → Option ℕ → Option ℕ → List ℕ → Option ℕ → Type 0
IsChain lk before cur [] stop = cur ≡ stop
IsChain lk before cur (x ∷ xs) stop =
    (cur ≡ some x) × (lk.level_prev x ≡ before) × IsChain lk (some x) (lk.level_next x) xs stop

-- The last slot, or what stands in front of the empty list; the first, or what stands behind.
abbrev pub final : Option ℕ → List ℕ → Option ℕ
final before [] = before
final before (x ∷ xs) = final (some x) xs

abbrev pub first : List ℕ → Option ℕ → Option ℕ
first [] stop = stop
first (x ∷ xs) stop = some x

-- The level holds exactly these orders, oldest first, each once.
pub record Holds (lk : Links) (l : PriceLevel) (xs : List ℕ) : Type 0 where
  pub chain : IsChain lk none l.head xs none
  pub ends : l.tail ≡ final none xs
  pub distinct : Distinct xs

-- The two sets of links agree on the slots.
abbrev pub Agree : Links → Links → List ℕ → Type 0
Agree lk lk' [] = Unit {0}
Agree lk lk' (x ∷ xs) =
    (lk'.level_prev x ≡ lk.level_prev x) × (lk'.level_next x ≡ lk.level_next x) × Agree lk lk' xs

pub IsChain-Agree :
    (lk lk' : Links) (xs : List ℕ) (before cur stop : Option ℕ)
    → Agree lk lk' xs
    → IsChain lk before cur xs stop
    → IsChain lk' before cur xs stop
IsChain-Agree lk lk' [] before cur stop a c = c
IsChain-Agree lk lk' (x ∷ xs) before cur stop a c =
    ground (arith, IsChain-Agree lk lk' xs (some x) (lk.level_next x) stop a.2 c.2)

pub Agree-refl : (lk : Links) (xs : List ℕ) → Agree lk lk xs
Agree-refl lk [] = tt
Agree-refl lk (x ∷ xs) = (refl, refl, Agree-refl lk xs)

pub IsChain-first :
    (lk : Links) (xs : List ℕ) (before cur stop : Option ℕ)
    → IsChain lk before cur xs stop
    → cur ≡ first xs stop
IsChain-first lk [] before cur stop c = c
IsChain-first lk (x ∷ xs) before cur stop c = c.0

pub Holds-Agree :
    (lk lk' : Links) (l : PriceLevel) (xs : List ℕ)
    → Agree lk lk' xs
    → Holds lk l xs
    → Holds lk' l xs
Holds-Agree lk lk' l xs a h = record {
  chain = IsChain-Agree lk lk' xs none l.head none a h.chain;
  ends = h.ends;
  distinct = h.distinct;
}

pub Agree-trans :
    (lk₁ lk₂ lk₃ : Links) (xs : List ℕ) → Agree lk₁ lk₂ xs → Agree lk₂ lk₃ xs → Agree lk₁ lk₃ xs
Agree-trans lk₁ lk₂ lk₃ [] a b = tt
Agree-trans lk₁ lk₂ lk₃ (x ∷ xs) a b = (b.0 ∙ a.0, b.1 ∙ a.1, Agree-trans lk₁ lk₂ lk₃ xs a.2 b.2)

pub Agree-set_next :
    (lk : Links) (o : ℕ) (v : Option ℕ) (xs : List ℕ) → NotIn o xs → Agree lk (set_next o v lk) xs
Agree-set_next lk o v [] h = tt
Agree-set_next lk o v (x ∷ xs) h = (refl, ground arith, Agree-set_next lk o v xs h.1)

pub Agree-set_prev :
    (lk : Links) (o : ℕ) (v : Option ℕ) (xs : List ℕ) → NotIn o xs → Agree lk (set_prev o v lk) xs
Agree-set_prev lk o v [] h = tt
Agree-set_prev lk o v (x ∷ xs) h = (ground arith, refl, Agree-set_prev lk o v xs h.1)

pub Agree-unlink : (lk : Links) (o : ℕ) (xs : List ℕ) → NotIn o xs → Agree lk (unlink o lk) xs
unfolding unlink
Agree-unlink lk o [] h = tt
Agree-unlink lk o (x ∷ xs) h = (ground arith, ground arith, Agree-unlink lk o xs h.1)

-- A chain is cut at any place, and joined again.
pub IsChain-left :
    (lk : Links) (xs ys : List ℕ) (before cur stop : Option ℕ)
    → IsChain lk before cur (xs ++ ys) stop
    → IsChain lk before cur xs (first ys stop)
IsChain-left lk [] [] before cur stop c = c
IsChain-left lk [] (y ∷ ys) before cur stop c = c.0
IsChain-left lk (x ∷ xs) ys before cur stop c =
    (c.0, c.1, IsChain-left lk xs ys (some x) (lk.level_next x) stop c.2)

pub IsChain-right :
    (lk : Links) (xs ys : List ℕ) (before cur stop : Option ℕ)
    → IsChain lk before cur (xs ++ ys) stop
    → IsChain lk (final before xs) (first ys stop) ys stop
IsChain-right lk [] [] before cur stop c = refl
IsChain-right lk [] (y ∷ ys) before cur stop c = (refl, c.1, c.2)
IsChain-right lk (x ∷ xs) ys before cur stop c =
    IsChain-right lk xs ys (some x) (lk.level_next x) stop c.2

pub IsChain-append :
    (lk : Links) (xs ys : List ℕ) (before cur mid stop : Option ℕ)
    → IsChain lk before cur xs mid
    → IsChain lk (final before xs) mid ys stop
    → IsChain lk before cur (xs ++ ys) stop
IsChain-append lk [] [] before cur mid stop c d = c ∙ d
IsChain-append lk [] (y ∷ ys) before cur mid stop c d = (c ∙ d.0, d.1, d.2)
IsChain-append lk (x ∷ xs) ys before cur mid stop c d =
    (c.0, c.1, IsChain-append lk xs ys (some x) (lk.level_next x) mid stop c.2 d)

-- The last slot of a list is in it.
pub final-ne :
    (o x : ℕ) (xs : List ℕ) (t : ℕ) → NotIn o (x ∷ xs) → final (some x) xs ≡ some t → o ≢ t
final-ne o x [] t h e = ground arith
final-ne o x (y ∷ ys) t h e = final-ne o y ys t h.1 e

pub final-NotIn :
    (x : ℕ) (xs zs : List ℕ) (t : ℕ)
    → Disjoint (x ∷ xs) zs
    → final (some x) xs ≡ some t
    → NotIn t zs
final-NotIn x [] zs t d e = ground arith
final-NotIn x (y ∷ ys) zs t d e = final-NotIn y ys zs t d.1 e

pub final-cases : (x : ℕ) (xs : List ℕ) → (t : ℕ) × (final (some x) xs ≡ some t)
final-cases x [] = (x, refl)
final-cases x (y ∷ ys) = final-cases y ys

pub final-append :
    (before : Option ℕ) (xs ys : List ℕ) → final before (xs ++ ys) ≡ final (final before xs) ys
final-append before [] ys = refl
final-append before (x ∷ xs) ys = final-append (some x) xs ys

-- A write of `level_next` in the last slot moves the end of the chain.
pub IsChain-set_next :
    (lk : Links) (x : ℕ) (xs : List ℕ) (before cur stop v : Option ℕ) (t : ℕ)
    → Distinct (x ∷ xs)
    → final (some x) xs ≡ some t
    → IsChain lk before cur (x ∷ xs) stop
    → IsChain (set_next t v lk) before cur (x ∷ xs) v
IsChain-set_next lk x [] before cur stop v t d e c = ground arith
IsChain-set_next lk x (y ∷ ys) before cur stop v t d e c =
    let ne = final-ne x y ys t d.0 e in
    let ih = IsChain-set_next lk y ys (some x) (lk.level_next x) stop v t d.1 e c.2 in
    ground (arith, ih, ne)

-- A write of `level_prev` in the first slot moves its start.
pub IsChain-set_prev :
    (lk : Links) (x : ℕ) (xs : List ℕ) (before cur stop v : Option ℕ)
    → Distinct (x ∷ xs)
    → IsChain lk before cur (x ∷ xs) stop
    → IsChain (set_prev x v lk) v cur (x ∷ xs) stop
IsChain-set_prev lk x xs before cur stop v d c = (
  c.0,
  ground arith,
  IsChain-Agree lk (set_prev x v lk) xs (some x) (lk.level_next x) stop
      (Agree-set_prev lk x v xs d.0) c.2,
)

-- A walk with fuel for every slot visits exactly the chain.
pub walk-IsChain :
    (lk : Links) (fuel : ℕ) (xs : List ℕ) (before cur : Option ℕ)
    → length xs ≤ fuel
    → IsChain lk before cur xs none
    → walk fuel lk cur ≡ xs
unfolding walk
walk-IsChain lk zero [] before cur h c = refl
walk-IsChain lk zero (x ∷ xs) before cur h c = absurd (omega arith)
walk-IsChain lk (suc fuel) [] before cur h c = ground arith
walk-IsChain lk (suc fuel) (x ∷ xs) before cur h c =
    ground (arith, walk-IsChain lk fuel xs (some x) (lk.level_next x) (omega arith) c.2)
