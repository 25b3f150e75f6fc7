-- ===== src/Registry/Keys.antt =====
-- The two indices of `InstrumentRegistry` against the list of specifications.
use multi_instrument_orderbo.Prelude.{
  ℕ, zero, suc, ◌≡◌, ◌⊎◌, refl, sym, ap, ap₂, subst, ◌∙◌, true, ◌==◌, if◌then◌else◌, none, some,
  some-eq, some->>=, >>=-eq-some, List, [], ◌∷◌, ◌++◌, length, get_elem?, arith, inl, inr,
  Bool-cases, Option-cases,
}
use multi_instrument_orderbo.HashMap.{lookup, lookup-emplace}
use multi_instrument_orderbo.Registry.{
  InstrumentSpec, same_text, text_lookup, text_set, Registry, new_registry, AddResult, throws,
  added, append_spec, add_spec, freeze, find_spec, find_symbol,
}

same_text_refl : (xs : List ℕ) → same_text xs xs ≡ true
same_text_refl [] = refl
same_text_refl (x ∷ xs) = ground (arith, same_text_refl xs)

same_text_eq : (xs ys : List ℕ) → same_text xs ys ≡ true → xs ≡ ys
same_text_eq [] [] e = refl
same_text_eq [] (y ∷ ys) e = absurd (cc)
same_text_eq (x ∷ xs) [] e = absurd (cc)
same_text_eq (x ∷ xs) (y ∷ ys) e =
    ap₂ ◌∷◌ (ground (arith, e)) (same_text_eq xs ys (ground (arith, e)))

same_text_join :
    (i j k : List ℕ) → same_text i k ≡ true → same_text j k ≡ true → same_text i j ≡ true
same_text_join i j k e f =
    subst (λ x. same_text i x ≡ true) (same_text_eq i k e ∙ sym (same_text_eq j k f))
      (same_text_refl i)

text_lookup-set {ℓ} :
    {V : Type ℓ} (k j : List ℕ) (v : V) (m : List (List ℕ × V))
    → text_lookup k (text_set j v m) ≡ (if same_text j k then some v else text_lookup k m)
unfolding text_lookup text_set
text_lookup-set k j v [] = refl
text_lookup-set k j v ((i, w) ∷ m) = elim (Bool-cases (same_text i j)) [
  | inl e ↦ ground (arith, e, ap (λ x. same_text x k) (same_text_eq i j e))
  | inr e ↦ ground (arith, e, same_text_join i j k, text_lookup-set k j v m)
]

get_elem?-before {ℓ} :
    {A : Type ℓ} (xs ys : List A) (i : ℕ) (x : A)
    → get_elem? xs i ≡ some x
    → get_elem? (xs ++ ys) i ≡ some x
get_elem?-before [] ys i x e = absurd (ground (arith, e))
get_elem?-before (y ∷ xs) ys zero x e = e
get_elem?-before (y ∷ xs) ys (suc i) x e = get_elem?-before xs ys i x e

get_elem?-last {ℓ} :
    {A : Type ℓ} (xs : List A) (x : A) → get_elem? (xs ++ x ∷ []) (length xs) ≡ some x
get_elem?-last [] x = refl
get_elem?-last (y ∷ xs) x = get_elem?-last xs x

get_elem?-snoc {ℓ} :
    {A : Type ℓ} (xs : List A) (y : A) (i : ℕ) (x : A)
    → get_elem? (xs ++ y ∷ []) i ≡ some x
    → (get_elem? xs i ≡ some x) ⊎ ((i ≡ length xs) × (y ≡ x))
get_elem?-snoc [] y zero x e = inr (refl, some-eq e)
get_elem?-snoc [] y (suc i) x e = absurd (ground (arith, e))
get_elem?-snoc (z ∷ xs) y zero x e = inl e
get_elem?-snoc (z ∷ xs) y (suc i) x e = elim (get_elem?-snoc xs y i x e) [
  | inl f ↦ inl f
  | inr (f, g) ↦ inr (ap suc f, g)
]

-- Each index leads to the specification of its key, and each specification is found under both of
-- its keys.
pub record IsIndexed (r : Registry) : Type 0 where
  pub by_id :
      (id i : ℕ)
      → lookup id r.id_map ≡ some i
      → (spec : InstrumentSpec) × (get_elem? r.instruments i ≡ some spec) × (spec.id ≡ id)
  pub by_symbol :
      (symbol : List ℕ) (i : ℕ)
      → text_lookup symbol r.sym_map ≡ some i
      → (spec : InstrumentSpec) × (get_elem? r.instruments i ≡ some spec) × (spec.symbol ≡ symbol)
  pub indexed :
      (i : ℕ) (spec : InstrumentSpec)
      → get_elem? r.instruments i ≡ some spec
      → (lookup spec.id r.id_map ≡ some i) × (text_lookup spec.symbol r.sym_map ≡ some i)

new-IsIndexed : IsIndexed new_registry
unfolding lookup text_lookup
new-IsIndexed = record {
  by_id = λ id i e. absurd (ground (arith, e));
  by_symbol = λ symbol i e. absurd (ground (arith, e));
  indexed = λ i spec e. absurd (ground (arith, e));
}

module _ (spec : InstrumentSpec) (r : Registry) (h : IsIndexed r)
    (new_id : lookup spec.id r.id_map ≡ none)
    (new_symbol : text_lookup spec.symbol r.sym_map ≡ none) where
  id_after :
      (id : ℕ)
      → lookup id (append_spec spec r).id_map
        ≡ (if spec.id == id then some (length r.instruments) else lookup id r.id_map)
  unfolding append_spec
  id_after id = lookup-emplace spec.id id (length r.instruments) r.id_map ∙ rw new_id refl

  symbol_after :
      (symbol : List ℕ)
      → text_lookup symbol (append_spec spec r).sym_map ≡ (
          if same_text spec.symbol symbol
          then some (length r.instruments)
          else text_lookup symbol r.sym_map)
  unfolding append_spec
  symbol_after symbol = text_lookup-set symbol spec.symbol (length r.instruments) r.sym_map

  append-IsIndexed : IsIndexed (append_spec spec r)
  unfolding append_spec
  append-IsIndexed = record {
    by_id = λ id i e. elim (Bool-cases (spec.id == id)) [
      | inl same ↦
          let at_end : length r.instruments ≡ i = some-eq (ground (arith, e, id_after id, same)) in
          (
            spec,
            subst (λ k. get_elem? (r.instruments ++ spec ∷ []) k ≡ some spec) at_end
                (get_elem?-last r.instruments spec),
            ground (arith, same),
          )
      | inr other ↦
          let old : lookup id r.id_map ≡ some i = ground (arith, e, id_after id, other) in
          let (s, found, key) = h.by_id id i old in
          (s, get_elem?-before r.instruments (spec ∷ []) i s found, key)
    ];
    by_symbol = λ symbol i e. elim (Bool-cases (same_text spec.symbol symbol)) [
      | inl same ↦
          let at_end : length r.instruments ≡ i =
            some-eq (ground (arith, e, symbol_after symbol, same)) in
          (
            spec,
            subst (λ k. get_elem? (r.instruments ++ spec ∷ []) k ≡ some spec) at_end
                (get_elem?-last r.instruments spec),
            same_text_eq spec.symbol symbol same,
          )
      | inr other ↦
          let old : text_lookup symbol r.sym_map ≡ some i =
            ground (arith, e, symbol_after symbol, other) in
          let (s, found, key) = h.by_symbol symbol i old in
          (s, get_elem?-before r.instruments (spec ∷ []) i s found, key)
    ];
    indexed = λ i s e. elim (get_elem?-snoc r.instruments spec i s e) [
      | inl f ↦
          let (old_id, old_symbol) = h.indexed i s f in
          (
            ground (
              arith,
              id_after s.id,
              old_id,
              new_id,
              λ (q : spec.id ≡ s.id). ap (λ k. lookup k r.id_map) q,
            ),
            ground (
              arith,
              symbol_after s.symbol,
              old_symbol,
              new_symbol,
              λ (q : same_text spec.symbol s.symbol ≡ true).
                  ap (λ k. text_lookup k r.sym_map) (same_text_eq spec.symbol s.symbol q),
            ),
          )
      | inr (f, g) ↦ (
        id_after s.id ∙ ground (arith, ap (λ x. x.id) g, f),
        symbol_after s.symbol
            ∙ ground (arith, ap (λ x. same_text x.symbol s.symbol) g, same_text_refl s.symbol, f),
      )
    ];
  }

-- A registry that was built by its operations.
pub data Run : Registry → Type 0 where
  empty : Run new_registry
  adds : (r r' : Registry) (spec : InstrumentSpec) → Run r → add_spec spec r ≡ added r' → Run r'
  freezes : (r : Registry) → Run r → Run (freeze r)

abbrev registry_or : Registry → AddResult → Registry
registry_or r (throws e) = r
registry_or r (added r') = r'

add-IsIndexed :
    (r r' : Registry) (spec : InstrumentSpec)
    → add_spec spec r ≡ added r'
    → IsIndexed r
    → IsIndexed r'
unfolding add_spec
add-IsIndexed r r' spec e h = elim (Bool-cases r.frozen) [
  | inl f ↦ absurd (ground (arith, rw (f, add_spec) at e))
  | inr f ↦ elim (Option-cases (lookup spec.id r.id_map)) [
    | inr (i, g) ↦ absurd (ground (arith, rw (f, g, add_spec) at e))
    | inl g ↦ elim (Option-cases (text_lookup spec.symbol r.sym_map)) [
      | inr (i, k) ↦ absurd (ground (arith, rw (f, g, k, add_spec) at e))
      | inl k ↦
          subst IsIndexed (ap (registry_or r) (rw (f, g, k, add_spec) at e))
            (append-IsIndexed spec r h g k)
    ]
  ]
]

Run-IsIndexed : (r : Registry) → Run r → IsIndexed r
Run-IsIndexed _ empty = new-IsIndexed
Run-IsIndexed _ (adds r r' spec run e) = add-IsIndexed r r' spec e (Run-IsIndexed r run)
Run-IsIndexed _ (freezes r run) =
    let h = Run-IsIndexed r run in
    record { by_id = h.by_id; by_symbol = h.by_symbol; indexed = h.indexed }

-- What the lookups of a registry find.
pub record Found (r : Registry) : Type 0 where
  pub by_id : (id : ℕ) (spec : InstrumentSpec) → find_spec id r ≡ some spec → spec.id ≡ id
  pub by_symbol :
      (symbol : List ℕ) (spec : InstrumentSpec)
      → find_symbol symbol r ≡ some spec
      → spec.symbol ≡ symbol
  pub listed :
      (i : ℕ) (spec : InstrumentSpec)
      → get_elem? r.instruments i ≡ some spec
      → (find_spec spec.id r ≡ some spec) × (find_symbol spec.symbol r ≡ some spec)

-- In a registry that was built by its operations, every specification of the list is found under its
-- id and under its symbol, so that no two have the same of either, and what is found under an id or
-- a symbol has that id or symbol.
pub Run-Found : (r : Registry) → Run r → Found r
unfolding find_spec find_symbol
Run-Found r run =
    let h = Run-IsIndexed r run in
    record {
      by_id = λ id spec e.
          let (i, found, at_i) = >>=-eq-some (lookup id r.id_map) _ _ e in
          let (s, there, key) = h.by_id id i found in
          ap (λ x. x.id) (some-eq (sym at_i ∙ there)) ∙ key;
      by_symbol = λ symbol spec e.
          let (i, found, at_i) = >>=-eq-some (text_lookup symbol r.sym_map) _ _ e in
          let (s, there, key) = h.by_symbol symbol i found in
          ap (λ x. x.symbol) (some-eq (sym at_i ∙ there)) ∙ key;
      listed = λ i spec e.
          let (id_found, symbol_found) = h.indexed i spec e in
          (
            some->>= (lookup spec.id r.id_map) _ i _ id_found e,
            some->>= (text_lookup spec.symbol r.sym_map) _ i _ symbol_found e,
          );
    }
