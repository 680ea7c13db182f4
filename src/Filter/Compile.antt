-- ===== src/Filter/Compile.antt =====
-- src/annex/query/filter.py: `compile_filter`. `build` threads what `fields.add` and `clauses` change.
use python_pj.Prelude.{
  ℕ, String, true, Option, none, some, List, [], ◌∷◌, if◌then◌else◌, string_eq, ◌==◌,
}
use python_pj.Storage.Lsm.{◌>>=◌}
use python_pj.Filter.{
  Value, Items, Fields, null, boolean, number, text, list, dict, nil, cons, end, field, Operators,
  Predicate, FilterState, starts_dollar, operators_of, note_field, join_parts, all_of, any_of,
  negate, ops_on,
}

abbrev pub joined :
    {N : Type 0} → Option (List (Predicate N) × FilterState) → Option (Predicate N × FilterState)
joined none = none
joined (some (ps, s)) = some (join_parts ps, s)

-- the predicates of a list, put together by `_all_of` or `_any_of`
abbrev pub together :
    {N : Type 0}
    → (List (Predicate N) → Predicate N)
    → Option (List (Predicate N) × FilterState)
    → Option (Predicate N × FilterState)
together f none = none
together f (some (ps, s)) = some (f ps, s)

abbrev pub turned :
    {N : Type 0} → Option (Predicate N × FilterState) → Option (Predicate N × FilterState)
turned none = none
turned (some (p, s)) = some ((λ meta. negate (p meta)), s)

module _ {N : Type 0} (py : Operators N) where
  -- One key of a node. `each` and `one` are what building the value gives, as a list and as a node.
  unfoldable pub build_clause :
      String
      → Value N
      → FilterState
      → Option (List (Predicate N) × FilterState)
      → Option (Predicate N × FilterState)
      → Option (Predicate N × FilterState)
  build_clause key value s each one =
      if key == "$and"
      then together all_of each
      else if key == "$or"
      then together any_of each
      else if key == "$not"
      then turned one
      else if starts_dollar key
      then none
      else some (ops_on py key (operators_of value), note_field key value s)

  unfoldable mutual
    unfolding build_clause

    -- `build`
    pub build : Value N → FilterState → Option (Predicate N × FilterState)
    build (dict fs) s = joined (build_fields fs s)
    build null s = none
    build (boolean b) s = none
    build (number n) s = none
    build (text t) s = none
    build (list xs) s = none

    pub build_fields : Fields N → FilterState → Option (List (Predicate N) × FilterState)
    build_fields end s = some ([], s)
    build_fields (field key value fs) s =
        build_clause key value s (build_each value s) (build value s) >>= λ r.
        build_fields fs r.1 >>= λ q. some (r.0 ∷ q.0, q.1)

    -- `[build(v) for v in value]`: a value that is no list gives no nodes, or fails
    pub build_each : Value N → FilterState → Option (List (Predicate N) × FilterState)
    build_each (list xs) s = build_items xs s
    build_each (dict end) s = some ([], s)
    build_each (dict (field k v fs)) s = none
    build_each (text t) s = if t == "" then some ([], s) else none
    build_each null s = none
    build_each (boolean b) s = none
    build_each (number n) s = none

    pub build_items : Items N → FilterState → Option (List (Predicate N) × FilterState)
    build_items nil s = some ([], s)
    build_items (cons v xs) s = build v s >>= λ r. build_items xs r.1 >>= λ q. some (r.0 ∷ q.0, q.1)

pub record Filter (N : Type 0) : Type 0 where
  pub predicate : Predicate N
  pub fields : List String
  pub equality_fields : List String
  pub clauses : ℕ

abbrev pub new_state : FilterState
new_state = record { fields = []; eq_fields = []; clauses = 0 }

abbrev pub filter_of : {N : Type 0} → Predicate N × FilterState → Filter N
filter_of (p, s) = record {
  predicate = p;
  fields = s.fields;
  equality_fields = s.eq_fields;
  clauses = s.clauses;
}

module _ {N : Type 0} (py : Operators N) where
  -- none where it raises
  unfoldable pub compile_filter : Value N → Option (Filter N)
  unfolding build
  compile_filter spec =
      if py.truthy spec
      then (build py spec new_state >>= λ r. some (filter_of r))
      else some (filter_of ((λ meta. some true), new_state))
