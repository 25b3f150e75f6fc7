-- ===== src/Prelude/Membership.antt =====
-- Membership and distinctness of pool slots, as predicates by recursion and as counts.
use Prim.Native.Nat.{ℕ, ◌+◌, ◌≤◌, ◌<◌}
use mathlib.Core.Path.{◌≡◌, refl, sym, ap}
use mathlib.Core.Logic.{◌≢◌}
use mathlib.Core.List.{List, [], ◌∷◌, ◌++◌}
use native.Mathlib.Omega.{arith}
use native.Mathlib.Decide.{ℕ_discrete}
use multi_instrument_orderbo.Prelude.Tests.{◌==◌, if◌then◌else◌}

-- `x` stands nowhere in the list.
abbrev pub NotIn : ℕ → List ℕ → Type 0
NotIn x [] = Unit {0}
NotIn x (y ∷ ys) = (x ≢ y) × NotIn x ys

-- No element twice.
abbrev pub Distinct : List ℕ → Type 0
Distinct [] = Unit {0}
Distinct (x ∷ xs) = NotIn x xs × Distinct xs

-- The lists share no element.
abbrev pub Disjoint : List ℕ → List ℕ → Type 0
Disjoint [] ys = Unit {0}
Disjoint (x ∷ xs) ys = NotIn x ys × Disjoint xs ys

pub NotIn-append : (x : ℕ) (xs ys : List ℕ) → NotIn x xs → NotIn x ys → NotIn x (xs ++ ys)
NotIn-append x [] ys h k = k
NotIn-append x (y ∷ xs) ys h k = (h.0, NotIn-append x xs ys h.1 k)

pub NotIn-append_left : (x : ℕ) (xs ys : List ℕ) → NotIn x (xs ++ ys) → NotIn x xs
NotIn-append_left x [] ys h = tt
NotIn-append_left x (y ∷ xs) ys h = (h.0, NotIn-append_left x xs ys h.1)

pub NotIn-append_right : (x : ℕ) (xs ys : List ℕ) → NotIn x (xs ++ ys) → NotIn x ys
NotIn-append_right x [] ys h = h
NotIn-append_right x (y ∷ xs) ys h = NotIn-append_right x xs ys h.1

pub Distinct-append_left : (xs ys : List ℕ) → Distinct (xs ++ ys) → Distinct xs
Distinct-append_left [] ys d = tt
Distinct-append_left (x ∷ xs) ys d = (NotIn-append_left x xs ys d.0, Distinct-append_left xs ys d.1)

pub Distinct-append_right : (xs ys : List ℕ) → Distinct (xs ++ ys) → Distinct ys
Distinct-append_right [] ys d = d
Distinct-append_right (x ∷ xs) ys d = Distinct-append_right xs ys d.1

pub Distinct-append-Disjoint : (xs ys : List ℕ) → Distinct (xs ++ ys) → Disjoint xs ys
Distinct-append-Disjoint [] ys d = tt
Distinct-append-Disjoint (x ∷ xs) ys d =
    (NotIn-append_right x xs ys d.0, Distinct-append-Disjoint xs ys d.1)

pub Distinct-append :
    (xs ys : List ℕ) → Distinct xs → Distinct ys → Disjoint xs ys → Distinct (xs ++ ys)
Distinct-append [] ys d e j = e
Distinct-append (x ∷ xs) ys d e j = (NotIn-append x xs ys d.0 j.0, Distinct-append xs ys d.1 e j.1)

pub Disjoint-cons_right :
    (x : ℕ) (xs ys : List ℕ) → Disjoint xs (x ∷ ys) → NotIn x xs × Disjoint xs ys
Disjoint-cons_right x [] ys d = (tt, tt)
Disjoint-cons_right x (z ∷ xs) ys d =
    let ih = Disjoint-cons_right x xs ys d.1 in ((λ e. d.0.0 (sym e), ih.0), (d.0.1, ih.1))

pub Disjoint-singleton : (x : ℕ) (xs : List ℕ) → NotIn x xs → Disjoint xs (x ∷ [])
Disjoint-singleton x [] h = tt
Disjoint-singleton x (y ∷ xs) h = ((λ e. h.0 (sym e), tt), Disjoint-singleton x xs h.1)

pub Disjoint-append_left : (xs ys zs : List ℕ) → Disjoint (xs ++ ys) zs → Disjoint xs zs
Disjoint-append_left [] ys zs d = tt
Disjoint-append_left (x ∷ xs) ys zs d = (d.0, Disjoint-append_left xs ys zs d.1)

pub Disjoint-append_right : (xs ys zs : List ℕ) → Disjoint (xs ++ ys) zs → Disjoint ys zs
Disjoint-append_right [] ys zs d = d
Disjoint-append_right (x ∷ xs) ys zs d = Disjoint-append_right xs ys zs d.1

-- How often an element stands in a list. Over counts, moves between lists are arithmetic.
abbrev pub count : ℕ → List ℕ → ℕ
count a [] = 0
count a (x ∷ xs) = (if a == x then 1 else 0) + count a xs

pub count-append :
    (o : ℕ) (front back : List ℕ) → count o (front ++ back) ≡ count o front + count o back
count-append o [] back = omega arith
count-append o (y ∷ front) back = omega (arith, count-append o front back)

pub NotIn-of_count : (a : ℕ) (xs : List ℕ) → count a xs ≡ 0 → NotIn a xs
NotIn-of_count a [] h = tt
NotIn-of_count a (x ∷ xs) h = (λ e. absurd (ground (arith, e)), NotIn-of_count a xs (omega arith))

pub count_of_NotIn : (a : ℕ) (xs : List ℕ) → NotIn a xs → count a xs ≡ 0
count_of_NotIn a [] h = refl
count_of_NotIn a (x ∷ xs) h = ground (arith, h.0, count_of_NotIn a xs h.1)

pub Distinct-of_count : (xs : List ℕ) → ((a : ℕ) → count a xs ≤ 1) → Distinct xs
Distinct-of_count [] h = tt
Distinct-of_count (x ∷ xs) h =
    (NotIn-of_count x xs (ground (arith, h x)), Distinct-of_count xs (λ a. omega (arith, h a)))

pub Disjoint-of_count : (xs ys : List ℕ) → ((a : ℕ) → count a xs + count a ys ≤ 1) → Disjoint xs ys
Disjoint-of_count [] ys h = tt
Disjoint-of_count (x ∷ xs) ys h =
    (NotIn-of_count x ys (ground (arith, h x)), Disjoint-of_count xs ys (λ a. omega (arith, h a)))

-- An element that occurs splits the list.
pub count-split :
    (a : ℕ) (xs : List ℕ)
    → 0 < count a xs
    → (front : List ℕ) × (back : List ℕ) × (xs ≡ front ++ a ∷ back)
count-split a [] h = absurd (omega arith)
count-split a (x ∷ xs) h = elim (ℕ_discrete a x) [
  | yes e ↦ ([], xs, ap (λ y. y ∷ xs) (sym e))
  | no ne ↦
      let (front, back, e) = count-split a xs (ground (arith, ne)) in
      (x ∷ front, back, ap (◌∷◌ x) e)
]

pub Unique-cons :
    (o : ℕ) (zs : List ℕ)
    → count o zs ≡ 0
    → ((a : ℕ) → count a zs ≤ 1)
    → (a : ℕ) → count a (o ∷ zs) ≤ 1
Unique-cons o zs e u a = elim (ℕ_discrete a o) [
  | yes same ↦ rw same (ground (arith, e))
  | no ne ↦ ground (arith, ne, u a)
]
