-- ===== src/Tests/Filter.antt =====
-- src/annex/query/filter.py: a specification with two clauses, and one with an unknown operator.
use python_pj.Prelude.{
  ℕ, ◌≤◌, ◌≡◌, refl, Bool, true, false, none, some, length, eqb, ltb, string_eq, ◌==◌,
}
use python_pj.Filter.{
  Value, Fields, null, number, text, list, dict, nil, end, field, Operators, Answer, gives,
  type_error, raises, starts_dollar,
}
use python_pj.Filter.Compile.{Filter, compile_filter}
use python_pj.Filter.Meaning.{well_formed, holds}
use python_pj.Filter.Sound.{compile_filter-holds}
use python_pj.Filter.Refuse.{compile_filter-malformed}

abbrev is_equal : Value ℕ → Value ℕ → Bool
is_equal (number a) (number b) = eqb a b
is_equal (text a) (text b) = a == b
is_equal a b = false

abbrev is_less : Value ℕ → Value ℕ → Answer Bool
is_less (number a) (number b) = gives (ltb a b)
is_less a b = type_error

abbrev is_truthy : Value ℕ → Bool
is_truthy (dict end) = false
is_truthy null = false
is_truthy a = true

-- numbers in order, the rest without one
abbrev natural_numbers : Operators ℕ
natural_numbers = record {
  equal = is_equal;
  less = is_less;
  at_most = λ a b. type_error;
  member = λ a b. type_error;
  search_in = λ a b. raises;
  truthy = is_truthy;
  unpack_two = λ a. type_error;
}

-- {"year": {"$gt": 5}, "$not": {"name": "x"}}
abbrev recent : Value ℕ
recent = dict (
    field "year" (dict (field "$gt" (number 5) end))
      (field "$not" (dict (field "name" (text "x") end)) end))

-- {"year": 5, "$nor": []}
abbrev unknown : Value ℕ
unknown = dict (field "year" (number 5) (field "$nor" (list nil) end))

recent-well_formed : well_formed recent ≡ true
unfolding well_formed starts_dollar
recent-well_formed = refl

unknown-malformed : well_formed unknown ≡ false
unfolding well_formed starts_dollar
unknown-malformed = refl

compile_filter-holds_example :
    (f : Filter ℕ) × (compile_filter natural_numbers recent ≡ some f)
    × ((meta : Fields ℕ) → f.predicate meta ≡ holds natural_numbers meta recent)
    × (length f.fields ≤ f.clauses)
    × (length f.equality_fields ≤ f.clauses)
compile_filter-holds_example =
    compile_filter-holds natural_numbers recent (λ k v fs. refl) recent-well_formed

compile_filter-malformed_example : compile_filter natural_numbers unknown ≡ none
compile_filter-malformed_example =
    compile_filter-malformed natural_numbers unknown refl unknown-malformed
