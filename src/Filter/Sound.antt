-- ===== src/Filter/Sound.antt =====
-- src/annex/query/filter.py: the compiled filter and the meaning of its specification.
use python_pj.Prelude.{
  suc, ◌+◌, ◌≤◌, ◌≡◌, refl, sym, ◌∙◌, inl, inr, String, Bool, true, false, Option, none, some, List,
  [], ◌∷◌, string_eq, ◌==◌, arith, length, Bool-cases,
}
use python_pj.Filter.{
  Value, Items, Fields, null, boolean, number, text, list, dict, nil, cons, end, field, Operators,
  Predicate, FilterState, starts_dollar, operators_of, note_field, join_parts, all_of, any_of,
  negate, and_then, ops_on, set_add,
}
use python_pj.Filter.Compile.{
  joined, build_clause, build, build_fields, build_each, build_items, Filter, new_state, filter_of,
  compile_filter,
}
use python_pj.Filter.Meaning.{
  clause_ok, clause_holds, well_formed, well_formed_fields, well_formed_each, well_formed_items,
  holds, holds_fields, every, every_item, any, any_item,
}

and_then-true : (b : Option Bool) → and_then b (some true) ≡ b
and_then-true none = refl
and_then-true (some true) = refl
and_then-true (some false) = refl

join_parts-all_of :
    {N : Type 0} (ps : List (Predicate N)) (meta : Fields N) → join_parts ps meta ≡ all_of ps meta
unfolding all_of
join_parts-all_of [] meta = refl
join_parts-all_of (p ∷ []) meta = sym (and_then-true (p meta))
join_parts-all_of (p ∷ q ∷ ps) meta = refl

-- Fields were noted, each with a clause.
abbrev pub Grows : FilterState → FilterState → Type 0
Grows s t =
    (length t.fields + s.clauses ≤ length s.fields + t.clauses)
    × (length t.eq_fields + s.clauses ≤ length s.eq_fields + t.clauses)

set_add-le : (k : String) (ks : List String) → length (set_add k ks) ≤ suc (length ks)
set_add-le k ks = ground arith

note_field-Grows :
    {N : Type 0} (key : String) (v : Value N) (s : FilterState) → Grows s (note_field key v s)
unfolding note_field
note_field-Grows key v s = ground (arith, set_add-le key s.fields, set_add-le key s.eq_fields)

module _ {N : Type 0} (py : Operators N) where
  -- What building a part gives: a predicate that says what the part means.
  abbrev pub Means :
      FilterState → Option (Predicate N × FilterState) → (Fields N → Option Bool) → Type 0
  Means s0 o sense =
      (p : Predicate N) × (s : FilterState) × (o ≡ some (p, s))
      × ((meta : Fields N) → p meta ≡ sense meta)
      × Grows s0 s

  abbrev pub MeansAll :
      FilterState
      → Option (List (Predicate N) × FilterState)
      → (Fields N → Option Bool)
      → (Fields N → Option Bool)
      → Type 0
  MeansAll s0 o all either =
      (ps : List (Predicate N)) × (s : FilterState) × (o ≡ some (ps, s))
      × ((meta : Fields N) → all_of ps meta ≡ all meta)
      × ((meta : Fields N) → any_of ps meta ≡ either meta)
      × Grows s0 s

  joined-Means :
      (s0 : FilterState) (o : Option (List (Predicate N) × FilterState))
      (all : Fields N → Option Bool)
      → ((ps : List (Predicate N)) × (s : FilterState) × (o ≡ some (ps, s))
          × ((meta : Fields N) → all_of ps meta ≡ all meta)
          × Grows s0 s)
      → Means s0 (joined o) all
  joined-Means s0 o all (ps, s, e, h, g) =
      (join_parts ps, s, rw e refl, (λ meta. join_parts-all_of ps meta ∙ h meta), g)

  pub clause-Means :
      (key : String) (v : Value N) (s : FilterState)
      (each : Option (List (Predicate N) × FilterState)) (one : Option (Predicate N × FilterState))
      (e1 o1 : Bool) (all either sense : Fields N → Option Bool)
      → (e1 ≡ true → MeansAll s each all either)
      → (o1 ≡ true → Means s one sense)
      → clause_ok key e1 o1 ≡ true
      → Means s
          (build_clause py key v s each one)
          (λ meta. clause_holds py meta key v (all meta) (either meta) (sense meta))
  unfolding build_clause
  clause-Means key v s each one e1 o1 all either sense he ho ok =
      elim (Bool-cases (key == "$and")) [
        | inl a ↦
            let (ps, s', e, h, _, g) = he (ground (arith, a, ok)) in
            (all_of ps, s', rw (a, e) refl, (λ meta. rw a (h meta)), g)
        | inr a ↦ elim (Bool-cases (key == "$or")) [
          | inl b ↦
              let (ps, s', e, _, h, g) = he (ground (arith, a, b, ok)) in
              (any_of ps, s', rw (a, b, e) refl, (λ meta. rw (a, b) (h meta)), g)
          | inr b ↦ elim (Bool-cases (key == "$not")) [
            | inl c ↦
                let (p, s', e, h, g) = ho (ground (arith, a, b, c, ok)) in
                (
                  (λ meta. negate (p meta)),
                  s',
                  rw (a, b, c, e) refl,
                  (λ meta. rw (a, b, c, h meta) refl),
                  g,
                )
            | inr c ↦
                let plain : starts_dollar key ≡ false = ground (arith, a, b, c, ok) in
                (
                  ops_on py key (operators_of v),
                  note_field key v s,
                  rw (a, b, c, plain) refl,
                  (λ meta. rw (a, b, c) refl),
                  note_field-Grows key v s,
                )
          ]
        ]
      ]

  mutual
    unfolding build well_formed holds all_of any_of

    pub build-Means :
        (v : Value N) (s : FilterState)
        → well_formed v ≡ true
        → Means s (build py v s) (λ meta. holds py meta v)
    build-Means (dict fs) s ok = joined-Means s _ _ (build_fields-Means fs s ok)
    build-Means null s ok = cc
    build-Means (boolean b) s ok = cc
    build-Means (number n) s ok = cc
    build-Means (text t) s ok = cc
    build-Means (list xs) s ok = cc

    build_fields-Means :
        (fs : Fields N) (s : FilterState)
        → well_formed_fields fs ≡ true
        → (ps : List (Predicate N)) × (s' : FilterState) × (build_fields py fs s ≡ some (ps, s'))
          × ((meta : Fields N) → all_of ps meta ≡ holds_fields py meta fs)
          × Grows s s'
    build_fields-Means end s ok = ([], s, refl, (λ meta. refl), (omega arith, omega arith))
    build_fields-Means (field key v fs) s ok =
        let (p, s1, e, h, g) =
          clause-Means key v s (build_each py v s) (build py v s) (well_formed_each v)
            (well_formed v) (λ meta. every py meta v) (λ meta. any py meta v)
            (λ meta. holds py meta v) (build_each-Means v s) (build-Means v s)
            (ground (arith, ok)) in
        let (ps, s2, f, k, g2) = build_fields-Means fs s1 (ground (arith, ok)) in
        (p ∷ ps, s2, rw (e, f) refl, (λ meta. rw (h meta, k meta) refl), (omega arith, omega arith))

    pub build_each-Means :
        (v : Value N) (s : FilterState)
        → well_formed_each v ≡ true
        → MeansAll s (build_each py v s) (λ meta. every py meta v) (λ meta. any py meta v)
    build_each-Means (list xs) s ok = build_items-Means xs s ok
    build_each-Means (dict end) s ok =
        ([], s, refl, (λ meta. refl), (λ meta. refl), (omega arith, omega arith))
    build_each-Means (dict (field k v fs)) s ok = cc
    build_each-Means (text t) s ok =
        ([], s, rw ok refl, (λ meta. refl), (λ meta. refl), (omega arith, omega arith))
    build_each-Means null s ok = cc
    build_each-Means (boolean b) s ok = cc
    build_each-Means (number n) s ok = cc

    build_items-Means :
        (xs : Items N) (s : FilterState)
        → well_formed_items xs ≡ true
        → MeansAll s
            (build_items py xs s)
            (λ meta. every_item py meta xs)
            (λ meta. any_item py meta xs)
    build_items-Means nil s ok =
        ([], s, refl, (λ meta. refl), (λ meta. refl), (omega arith, omega arith))
    build_items-Means (cons v xs) s ok =
        let (p, s1, e, h, g) = build-Means v s (ground (arith, ok)) in
        let (ps, s2, f, ha, hb, g2) = build_items-Means xs s1 (ground (arith, ok)) in
        (
          p ∷ ps,
          s2,
          rw (e, f) refl,
          (λ meta. rw (h meta, ha meta) refl),
          (λ meta. rw (h meta, hb meta) refl),
          (omega arith, omega arith),
        )

  falsy-holds :
      (spec : Value N)
      → ((k : String) (v : Value N) (fs : Fields N) → py.truthy (dict (field k v fs)) ≡ true)
      → well_formed spec ≡ true
      → py.truthy spec ≡ false
      → (meta : Fields N) → some true ≡ holds py meta spec
  unfolding well_formed holds
  falsy-holds (dict end) truthy ok f meta = refl
  falsy-holds (dict (field k v fs)) truthy ok f meta = cc (truthy k v fs)
  falsy-holds null truthy ok f meta = cc
  falsy-holds (boolean b) truthy ok f meta = cc
  falsy-holds (number n) truthy ok f meta = cc
  falsy-holds (text t) truthy ok f meta = cc
  falsy-holds (list xs) truthy ok f meta = cc

  -- A well-formed specification compiles, if a dictionary with an entry is true, to a filter whose
  -- predicate gives on every metadata what the specification means read clause by clause, an
  -- exception included, and whose fields and equality fields are no more than its clauses.
  pub compile_filter-holds :
      (spec : Value N)
      → ((k : String) (v : Value N) (fs : Fields N) → py.truthy (dict (field k v fs)) ≡ true)
      → well_formed spec ≡ true
      → (f : Filter N) × (compile_filter py spec ≡ some f)
        × ((meta : Fields N) → f.predicate meta ≡ holds py meta spec)
        × (length f.fields ≤ f.clauses)
        × (length f.equality_fields ≤ f.clauses)
  unfolding compile_filter
  compile_filter-holds spec truthy ok = elim (Bool-cases (py.truthy spec)) [
    | inl t ↦
        let (p, s, e, h, g) = build-Means spec new_state ok in
        (filter_of (p, s), rw (t, e) refl, h, omega (arith, g.0), omega (arith, g.1))
    | inr f ↦ (
      filter_of ((λ meta. some true), new_state),
      rw f refl,
      falsy-holds spec truthy ok f,
      omega arith,
      omega arith,
    )
  ]
