-- ===== src/Filter/Refuse.antt =====
-- src/annex/query/filter.py: the specifications that the compiler refuses.
use python_pj.Prelude.{
  ◌≡◌, refl, inl, inr, String, Bool, true, false, Option, none, List, string_eq, ◌==◌, arith,
  Bool-cases,
}
use python_pj.Filter.{
  Value, Items, Fields, null, boolean, number, text, list, dict, nil, cons, end, field, Operators,
  Predicate, FilterState, starts_dollar,
}
use python_pj.Filter.Compile.{
  build_clause, build, build_fields, build_each, build_items, new_state, compile_filter,
}
use python_pj.Filter.Meaning.{
  clause_ok, well_formed, well_formed_fields, well_formed_each, well_formed_items, holds, every,
  any,
}
use python_pj.Filter.Sound.{clause-Means, build-Means, build_each-Means}

module _ {N : Type 0} (py : Operators N) where
  clause-malformed :
      (key : String) (v : Value N) (s : FilterState)
      (each : Option (List (Predicate N) × FilterState)) (one : Option (Predicate N × FilterState))
      (e1 o1 : Bool)
      → (e1 ≡ false → each ≡ none)
      → (o1 ≡ false → one ≡ none)
      → clause_ok key e1 o1 ≡ false
      → build_clause py key v s each one ≡ none
  unfolding build_clause
  clause-malformed key v s each one e1 o1 he ho bad = elim (Bool-cases (key == "$and")) [
    | inl a ↦ rw (a, he (ground (arith, a, bad))) refl
    | inr a ↦ elim (Bool-cases (key == "$or")) [
      | inl b ↦ rw (a, b, he (ground (arith, a, b, bad))) refl
      | inr b ↦ elim (Bool-cases (key == "$not")) [
        | inl c ↦ rw (a, b, c, ho (ground (arith, a, b, c, bad))) refl
        | inr c ↦
            let dollar : starts_dollar key ≡ true = ground (arith, a, b, c, bad) in
            rw (a, b, c, dollar) refl
      ]
    ]
  ]

  mutual
    unfolding build well_formed

    build-malformed : (v : Value N) (s : FilterState) → well_formed v ≡ false → build py v s ≡ none
    build-malformed (dict fs) s bad = rw (build_fields-malformed fs s bad) refl
    build-malformed null s bad = refl
    build-malformed (boolean b) s bad = refl
    build-malformed (number n) s bad = refl
    build-malformed (text t) s bad = refl
    build-malformed (list xs) s bad = refl

    build_fields-malformed :
        (fs : Fields N) (s : FilterState)
        → well_formed_fields fs ≡ false
        → build_fields py fs s ≡ none
    build_fields-malformed end s bad = cc bad
    build_fields-malformed (field key v fs) s bad =
        elim (Bool-cases (clause_ok key (well_formed_each v) (well_formed v))) [
          | inl ok ↦
              let (p, s1, e, h, g) =
                clause-Means py key v s (build_each py v s) (build py v s) (well_formed_each v)
                  (well_formed v) (λ meta. every py meta v) (λ meta. any py meta v)
                  (λ meta. holds py meta v) (build_each-Means py v s) (build-Means py v s) ok in
              rw (e, build_fields-malformed fs s1 (ground (arith, ok, bad))) refl
          | inr broken ↦
              rw
                (clause-malformed key v s (build_each py v s) (build py v s) (well_formed_each v)
                  (well_formed v) (build_each-malformed v s) (build-malformed v s) broken)
                refl
        ]

    build_each-malformed :
        (v : Value N) (s : FilterState) → well_formed_each v ≡ false → build_each py v s ≡ none
    build_each-malformed (list xs) s bad = build_items-malformed xs s bad
    build_each-malformed (dict end) s bad = cc bad
    build_each-malformed (dict (field k v fs)) s bad = refl
    build_each-malformed (text t) s bad = rw bad refl
    build_each-malformed null s bad = refl
    build_each-malformed (boolean b) s bad = refl
    build_each-malformed (number n) s bad = refl

    build_items-malformed :
        (xs : Items N) (s : FilterState) → well_formed_items xs ≡ false → build_items py xs s ≡ none
    build_items-malformed nil s bad = cc bad
    build_items-malformed (cons v xs) s bad = elim (Bool-cases (well_formed v)) [
      | inl ok ↦
          let (p, s1, e, h, g) = build-Means py v s ok in
          rw (e, build_items-malformed xs s1 (ground (arith, ok, bad))) refl
      | inr broken ↦ rw (build-malformed v s broken) refl
    ]

  -- A specification that is true in Python and not well formed, for an unknown operator at the top
  -- or a value that is no node or no list of nodes at any depth, does not compile.
  pub compile_filter-malformed :
      (spec : Value N)
      → py.truthy spec ≡ true
      → well_formed spec ≡ false
      → compile_filter py spec ≡ none
  unfolding compile_filter
  compile_filter-malformed spec t bad = rw (t, build-malformed spec new_state bad) refl
