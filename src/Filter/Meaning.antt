-- ===== src/Filter/Meaning.antt =====
-- src/annex/query/filter.py: what a filter means, read off its specification.
use python_pj.Prelude.{
  String, Bool, true, false, not, ◌&&◌, Option, some, if◌then◌else◌, string_eq, ◌==◌,
}
use python_pj.Filter.{
  Value, Items, Fields, null, boolean, number, text, list, dict, nil, cons, end, field, Operators,
  starts_dollar, operators_of, negate, and_then, or_then, ops_on,
}

-- A specification that the compiler takes: `$and` and `$or` with lists of specifications, `$not` with
-- one, and fields.
abbrev pub clause_ok : String → Bool → Bool → Bool
clause_ok key each one =
    if key == "$and"
    then each
    else if key == "$or"
    then each
    else if key == "$not"
    then one
    else not (starts_dollar key)

unfoldable mutual
  pub well_formed : {N : Type 0} → Value N → Bool
  well_formed (dict fs) = well_formed_fields fs
  well_formed null = false
  well_formed (boolean b) = false
  well_formed (number n) = false
  well_formed (text t) = false
  well_formed (list xs) = false

  pub well_formed_fields : {N : Type 0} → Fields N → Bool
  well_formed_fields end = true
  well_formed_fields (field key v fs) =
      clause_ok key (well_formed_each v) (well_formed v) && well_formed_fields fs

  pub well_formed_each : {N : Type 0} → Value N → Bool
  well_formed_each (list xs) = well_formed_items xs
  well_formed_each (dict end) = true
  well_formed_each (dict (field k v fs)) = false
  well_formed_each (text t) = t == ""
  well_formed_each null = false
  well_formed_each (boolean b) = false
  well_formed_each (number n) = false

  pub well_formed_items : {N : Type 0} → Items N → Bool
  well_formed_items nil = true
  well_formed_items (cons v xs) = well_formed v && well_formed_items xs

module _ {N : Type 0} (py : Operators N) (meta : Fields N) where
  abbrev pub clause_holds : String → Value N → Option Bool → Option Bool → Option Bool → Option Bool
  clause_holds key v every any one =
      if key == "$and"
      then every
      else if key == "$or"
      then any
      else if key == "$not"
      then negate one
      else ops_on py key (operators_of v) meta

  -- Whether some metadata meets a specification: every clause of it, from the first on.
  unfoldable mutual
    pub holds : Value N → Option Bool
    holds (dict fs) = holds_fields fs
    holds null = some true
    holds (boolean b) = some true
    holds (number n) = some true
    holds (text t) = some true
    holds (list xs) = some true

    pub holds_fields : Fields N → Option Bool
    holds_fields end = some true
    holds_fields (field key v fs) =
        and_then (clause_holds key v (every v) (any v) (holds v)) (holds_fields fs)

    pub every : Value N → Option Bool
    every (list xs) = every_item xs
    every null = some true
    every (boolean b) = some true
    every (number n) = some true
    every (text t) = some true
    every (dict fs) = some true

    pub every_item : Items N → Option Bool
    every_item nil = some true
    every_item (cons v xs) = and_then (holds v) (every_item xs)

    pub any : Value N → Option Bool
    any (list xs) = any_item xs
    any null = some false
    any (boolean b) = some false
    any (number n) = some false
    any (text t) = some false
    any (dict fs) = some false

    pub any_item : Items N → Option Bool
    any_item nil = some false
    any_item (cons v xs) = or_then (holds v) (any_item xs)
