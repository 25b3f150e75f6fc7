-- ===== src/Level/Erase.antt =====
-- `PriceLevel::erase` against the removal of one slot from the plain list.
use multi_instrument_orderbo.Prelude.{
  ℕ, ◌≡◌, ◌≢◌, refl, sym, Option, none, some, List, [], ◌∷◌, ◌++◌, arith, NotIn, Distinct, Disjoint,
  ◌∙◌, Distinct-append, Distinct-append_left, Distinct-append_right, Distinct-append-Disjoint,
  Disjoint-cons_right, Disjoint-singleton, append-nil, subst, Disjoint-append_left,
  Disjoint-append_right,
}
use multi_instrument_orderbo.Level.{Links, PriceLevel, set_prev, set_next, unlink, erase}
use multi_instrument_orderbo.Level.Chain.{
  IsChain, Holds, Agree, final, first, IsChain-Agree, Agree-trans, Agree-refl, Agree-set_next,
  Agree-set_prev, Agree-unlink, IsChain-left, IsChain-right, IsChain-append, final-NotIn,
  final-append, IsChain-set_next, IsChain-set_prev, final-cases, IsChain-first,
}

-- What `erase` leaves where the order has a neighbour on each side, on one, or on none.
abbrev relink : Option ℕ → Option ℕ → Links → Links
relink none none lk = lk
relink none (some n) lk = set_prev n none lk
relink (some p) none lk = set_next p none lk
relink (some p) (some n) lk = set_prev n (some p) (set_next p (some n) lk)

abbrev or_else : Option ℕ → Option ℕ → Option ℕ → Option ℕ
or_else none v w = v
or_else (some p) v w = w

erase_lem :
    (o : ℕ) (lk : Links) (l : PriceLevel) (p n : Option ℕ)
    → lk.level_prev o ≡ p
    → lk.level_next o ≡ n
    → p ≢ some o
    → n ≢ some o
    → erase o lk l
      ≡ (unlink o (relink p n lk), record { head = or_else p n l.head; tail = or_else n p l.tail })
unfolding erase
erase_lem o lk l none none e f h k = ground arith
erase_lem o lk l none (some n) e f h k = ground arith
erase_lem o lk l (some p) none e f h k = ground arith
erase_lem o lk l (some p) (some n) e f h k = ground arith

-- A neighbour, where there is one, is not in the list.
abbrev Outside : Option ℕ → List ℕ → Type 0
Outside none xs = Unit {0}
Outside (some t) xs = NotIn t xs

relink-Agree :
    (lk : Links) (p n : Option ℕ) (xs : List ℕ)
    → Outside p xs
    → Outside n xs
    → Agree lk (relink p n lk) xs
relink-Agree lk none none xs h k = Agree-refl lk xs
relink-Agree lk none (some n) xs h k = Agree-set_prev lk n none xs k
relink-Agree lk (some p) none xs h k = Agree-set_next lk p none xs h
relink-Agree lk (some p) (some n) xs h k =
    Agree-trans lk (set_next p (some n) lk) _ xs (Agree-set_next lk p (some n) xs h)
      (Agree-set_prev (set_next p (some n) lk) n (some p) xs k)

relink-left :
    (lk : Links) (x : ℕ) (xs : List ℕ) (before cur stop n : Option ℕ) (t : ℕ)
    → Distinct (x ∷ xs)
    → final (some x) xs ≡ some t
    → Outside n (x ∷ xs)
    → IsChain lk before cur (x ∷ xs) stop
    → IsChain (relink (some t) n lk) before cur (x ∷ xs) n
relink-left lk x xs before cur stop none t d e out c =
    IsChain-set_next lk x xs before cur stop none t d e c
relink-left lk x xs before cur stop (some n) t d e out c =
    IsChain-Agree (set_next t (some n) lk) _ (x ∷ xs) before cur (some n)
      (Agree-set_prev (set_next t (some n) lk) n (some t) (x ∷ xs) out)
      (IsChain-set_next lk x xs before cur stop (some n) t d e c)

relink-right :
    (lk : Links) (y : ℕ) (ys : List ℕ) (before cur stop p : Option ℕ)
    → Distinct (y ∷ ys)
    → Outside p (y ∷ ys)
    → IsChain lk before cur (y ∷ ys) stop
    → IsChain (relink p (some y) lk) p cur (y ∷ ys) stop
relink-right lk y ys before cur stop none d out c =
    IsChain-set_prev lk y ys before cur stop none d c
relink-right lk y ys before cur stop (some p) d out c =
    IsChain-set_prev (set_next p (some y) lk) y ys before cur stop (some p) d (
      IsChain-Agree lk (set_next p (some y) lk) (y ∷ ys) before cur stop
        (Agree-set_next lk p (some y) (y ∷ ys) out) c)

-- The slots on the two sides of an order are apart from each other and from it.
abbrev Apart : List ℕ → ℕ → List ℕ → Type 0
Apart xs o ys = Distinct xs × Distinct ys × Disjoint xs ys × NotIn o xs × NotIn o ys

Distinct-Apart : (xs : List ℕ) (o : ℕ) (ys : List ℕ) → Distinct (xs ++ o ∷ ys) → Apart xs o ys
Distinct-Apart xs o ys d =
    let side = Disjoint-cons_right o xs ys (Distinct-append-Disjoint xs (o ∷ ys) d) in
    let behind = Distinct-append_right xs (o ∷ ys) d in
    (Distinct-append_left xs (o ∷ ys) d, behind.1, side.1, side.0, behind.0)

Outside-final : (xs zs : List ℕ) → Disjoint xs zs → Outside (final none xs) zs
Outside-final [] zs d = tt
Outside-final (x ∷ xs) zs d = let (t, e) = final-cases x xs in rw e (final-NotIn x xs zs t d e)

Outside-first : (ys zs : List ℕ) → Disjoint zs ys → Outside (first ys none) zs
Outside-first [] zs d = tt
Outside-first (y ∷ ys) zs d = (Disjoint-cons_right y zs ys d).0

Outside-head : (ys zs : List ℕ) → Disjoint ys zs → Outside (first ys none) zs
Outside-head [] zs d = tt
Outside-head (y ∷ ys) zs d = d.0

Outside-ne : (p : Option ℕ) (o : ℕ) → Outside p (o ∷ []) → p ≢ some o
Outside-ne none o h = λ e. cc
Outside-ne (some p) o h = λ e. h.0 (ground arith)

-- The list in front, after the order behind it is taken out.
erase_front :
    (lk : Links) (head : Option ℕ) (xs : List ℕ) (o : ℕ) (n : Option ℕ)
    → Distinct xs
    → NotIn o xs
    → Outside n xs
    → IsChain lk none head xs (some o)
    → IsChain (unlink o (relink (final none xs) n lk)) none (or_else (final none xs) n head) xs n
erase_front lk head [] o n d away out c = refl
erase_front lk head (x ∷ xs) o n d away out c =
    let (t, e) = final-cases x xs in
    subst (λ p. IsChain (unlink o (relink p n lk)) none (or_else p n head) (x ∷ xs) n) (sym e)
      (IsChain-Agree (relink (some t) n lk) _ (x ∷ xs) none head n
        (Agree-unlink (relink (some t) n lk) o (x ∷ xs) away)
        (relink-left lk x xs none head (some o) n t d e out c))

-- The list behind, after the order in front of it is taken out.
erase_behind :
    (lk : Links) (ys : List ℕ) (o : ℕ) (p : Option ℕ)
    → Distinct ys
    → NotIn o ys
    → Outside p ys
    → IsChain lk (some o) (first ys none) ys none
    → IsChain (unlink o (relink p (first ys none) lk)) p (first ys none) ys none
erase_behind lk [] o p d away out c = refl
erase_behind lk (y ∷ ys) o p d away out c =
    IsChain-Agree (relink p (some y) lk) _ (y ∷ ys) p (some y) none
      (Agree-unlink (relink p (some y) lk) o (y ∷ ys) away)
      (relink-right lk y ys (some o) (some y) none p d out c)

erase_ends :
    (xs : List ℕ) (o : ℕ) (ys : List ℕ) (tail : Option ℕ)
    → tail ≡ final none (xs ++ o ∷ ys)
    → or_else (first ys none) (final none xs) tail ≡ final none (xs ++ ys)
erase_ends xs o [] tail e = rw append-nil
erase_ends xs o (y ∷ ys) tail e =
    e ∙ final-append none xs (o ∷ y ∷ ys) ∙ sym (final-append none xs (y ∷ ys))

module _ (lk : Links) (l : PriceLevel) (xs : List ℕ) (o : ℕ) (ys : List ℕ)
    (h : Holds lk l (xs ++ o ∷ ys)) where
  apart : Apart xs o ys
  apart = Distinct-Apart xs o ys h.distinct

  right : IsChain lk (final none xs) (some o) (o ∷ ys) none
  right = IsChain-right lk xs (o ∷ ys) none l.head none h.chain

  at_next : lk.level_next o ≡ first ys none
  at_next = IsChain-first lk ys (some o) (lk.level_next o) none right.2

  erase_held : erase o lk l ≡ (
    unlink o (relink (final none xs) (first ys none) lk),
    record {
      head = or_else (final none xs) (first ys none) l.head;
      tail = or_else (first ys none) (final none xs) l.tail;
    },
  )
  erase_held =
      erase_lem o lk l (final none xs) (first ys none) right.1 at_next
        (Outside-ne _ o (Outside-final xs (o ∷ []) (Disjoint-singleton o xs apart.3)))
        (Outside-ne _ o (Outside-head ys (o ∷ []) (Disjoint-singleton o ys apart.4)))

  -- `erase` removes exactly that order, wherever it stands in the level.
  pub erase-Holds : let (lk', l') = erase o lk l in Holds lk' l' (xs ++ ys)
  erase-Holds = rw erase_held (record {
    chain =
        IsChain-append _ xs ys none _ (first ys none) none
          (erase_front lk l.head xs o (first ys none) apart.0 apart.3 (Outside-first ys xs apart.2)
            (IsChain-left lk xs (o ∷ ys) none l.head none h.chain))
          (erase_behind lk ys o (final none xs) apart.1 apart.4 (Outside-final xs ys apart.2)
            (rw at_next at right.2));
    ends = erase_ends xs o ys l.tail h.ends;
    distinct = Distinct-append xs ys apart.0 apart.1 apart.2;
  })

  -- `erase` writes no link of an order outside the level.
  pub erase-Agree : (zs : List ℕ) → Disjoint (xs ++ o ∷ ys) zs → Agree lk (erase o lk l).0 zs
  erase-Agree zs d = rw erase_held (
      Agree-trans lk (relink (final none xs) (first ys none) lk) _ zs
        (relink-Agree lk _ _ zs (Outside-final xs zs (Disjoint-append_left xs (o ∷ ys) zs d))
          (Outside-head ys zs behind.1))
        (Agree-unlink _ o zs behind.0))
    where
      behind : Disjoint (o ∷ ys) zs
      behind = Disjoint-append_right xs (o ∷ ys) zs d
