-- ===== src/Filter.antt =====
-- src/annex/query/filter.py: the compiler of metadata filters. `N` is the type of numbers. What Python's
-- operators give on two values is a parameter; a predicate that raises returns none.
pub mod Meaning
pub mod Compile
pub mod Sound
pub mod Refuse
use python_pj.Prelude.{
  ℕ, zero, suc, String, Bool, true, false, not, ◌&&◌, ◌||◌, Option, none, some, is_some, List, [],
  ◌∷◌, ◌++◌, if◌then◌else◌, eqb, contains, string_eq, ◌==◌,
}
use Prim.Native.Char.{Char, code}

mutual
  -- the values of JSON
  pub data Value (N : Type 0) : Type 0 where
    null : Value N
    boolean : Bool → Value N
    number : N → Value N
    text : String → Value N
    list : Items N → Value N
    dict : Fields N → Value N

  pub data Items (N : Type 0) : Type 0 where
    nil : Items N
    cons : Value N → Items N → Items N

  pub data Fields (N : Type 0) : Type 0 where
    end : Fields N
    field : String → Value N → Fields N → Fields N

-- what an operator gives; `raises` stands for an exception that is no TypeError
pub data Answer (A : Type 0) : Type 0 where
  gives : A → Answer A
  type_error : Answer A
  raises : Answer A

-- Python's operators: `==`, `<`, `<=`, `in`, `re.search(pattern, str(value)) is not None`, `bool`, and
-- taking two values out of one
pub record Operators (N : Type 0) : Type 0 where
  pub equal : Value N → Value N → Bool
  pub less : Value N → Value N → Answer Bool
  pub at_most : Value N → Value N → Answer Bool
  pub member : Value N → Value N → Answer Bool
  pub search_in : Value N → Value N → Answer Bool
  pub truthy : Value N → Bool
  pub unpack_two : Value N → Answer (Value N × Value N)

-- `s.startswith("$")`
unfoldable pub starts_dollar : String → Bool
starts_dollar String.[] = false
starts_dollar (String.◌∷◌ c s) = eqb (code c) 36

-- one more character in front of the first part
abbrev cons_first : Char → List String → List String
cons_first c [] = String.◌∷◌ c String.[] ∷ []
cons_first c (p ∷ ps) = String.◌∷◌ c p ∷ ps

-- `path.split(".")`
unfoldable pub split_dots : String → List String
split_dots String.[] = "" ∷ []
split_dots (String.◌∷◌ c s) =
    let rest = split_dots s in if eqb (code c) 46 then "" ∷ rest else cons_first c rest

module _ {N : Type 0} where
  -- A field is looked up; the keys of a dict are different.
  unfoldable pub field_of : Fields N → String → Option (Value N)
  field_of end k = none
  field_of (field j v fs) k = let rest = field_of fs k in if j == k then some v else rest

  -- `cur[part]` when `cur` is a dict that has it
  abbrev pub member_of : Value N → String → Option (Value N)
  member_of (dict fs) k = field_of fs k
  member_of null k = none
  member_of (boolean b) k = none
  member_of (number n) k = none
  member_of (text s) k = none
  member_of (list xs) k = none

  -- none is `_MISSING`
  unfoldable pub resolve : Value N → List String → Option (Value N)
  resolve cur [] = some cur
  resolve cur (part ∷ parts) = elim (member_of cur part) [ none ↦ none | some v ↦ resolve v parts ]

  -- `_get`
  unfoldable pub get_path : Fields N → String → Option (Value N)
  unfolding resolve split_dots
  get_path meta path = resolve (dict meta) (split_dots path)

-- `except TypeError: return False`
abbrev pub guarded : Answer Bool → Option Bool
guarded (gives b) = some b
guarded type_error = some false
guarded raises = none

abbrev pub negated : Answer Bool → Answer Bool
negated (gives b) = gives (not b)
negated type_error = type_error
negated raises = raises

abbrev pub both_hold : Answer Bool → Answer Bool → Answer Bool
both_hold (gives true) b = b
both_hold (gives false) b = gives false
both_hold type_error b = type_error
both_hold raises b = raises

abbrev agree : Bool → Bool → Bool
agree true b = b
agree false b = not b

module _ {N : Type 0} (py : Operators N) where
  -- `lo, hi = right` and `lo <= left <= hi`
  abbrev between : Value N → Answer (Value N × Value N) → Answer Bool
  between left (gives (lo, hi)) = both_hold (py.at_most lo left) (py.at_most left hi)
  between left type_error = type_error
  between left raises = raises

  -- the operators on a value that is there; one that is not known raises QueryError
  unfoldable pub compare_values : String → Value N → Value N → Option Bool
  compare_values op left right =
      if op == "$eq"
      then some (py.equal left right)
      else if op == "$ne"
      then some (not (py.equal left right))
      else if op == "$gt"
      then guarded (py.less right left)
      else if op == "$gte"
      then guarded (py.at_most right left)
      else if op == "$lt"
      then guarded (py.less left right)
      else if op == "$lte"
      then guarded (py.at_most left right)
      else if op == "$in"
      then guarded (py.member left right)
      else if op == "$nin"
      then guarded (negated (py.member left right))
      else if op == "$contains"
      then guarded (py.member right left)
      else if op == "$regex"
      then guarded (py.search_in right left)
      else if op == "$between"
      then guarded (between left (py.unpack_two right))
      else none

  abbrev on_missing : String → Bool
  on_missing op = op == "$ne" || op == "$nin"

  -- `_cmp`
  unfoldable pub cmp : String → Option (Value N) → Value N → Option Bool
  unfolding compare_values
  cmp op left right =
      if op == "$exists"
      then some (agree (py.truthy right) (is_some left))
      else elim left [ none ↦ some (on_missing op) | some v ↦ compare_values op v right ]

-- A predicate on metadata; it raises when it gives none.
abbrev pub Predicate : Type 0 → Type 0
Predicate N = Fields N → Option Bool

-- `a and b`, `a or b` and `not a` on calls that may raise
abbrev pub and_then : Option Bool → Option Bool → Option Bool
and_then none b = none
and_then (some true) b = b
and_then (some false) b = some false

abbrev pub or_then : Option Bool → Option Bool → Option Bool
or_then none b = none
or_then (some true) b = some true
or_then (some false) b = b

abbrev pub negate : Option Bool → Option Bool
negate none = none
negate (some b) = some (not b)

module _ {N : Type 0} where
  unfoldable pub all_of : List (Predicate N) → Predicate N
  all_of [] meta = some true
  all_of (p ∷ ps) meta = and_then (p meta) (all_of ps meta)

  unfoldable pub any_of : List (Predicate N) → Predicate N
  any_of [] meta = some false
  any_of (p ∷ ps) meta = or_then (p meta) (any_of ps meta)

-- what the compiler keeps beside the predicate
pub record FilterState : Type 0 where
  pub fields : List String
  pub eq_fields : List String
  pub clauses : ℕ

-- `set.add`
abbrev pub set_add : String → List String → List String
set_add k ks = if contains k ks then ks else k ∷ ks

module _ {N : Type 0} where
  -- `any(k.startswith("$") for k in value)`
  abbrev pub any_dollar : Fields N → Bool
  any_dollar end = false
  any_dollar (field k v fs) = starts_dollar k || any_dollar fs

  abbrev pub has_eq : Fields N → Bool
  has_eq end = false
  has_eq (field k v fs) = k == "$eq" || has_eq fs

  -- the operators of a field's clause, and whether one is `$eq`
  abbrev pub operators_of : Value N → Fields N
  operators_of (dict fs) = if any_dollar fs then fs else field "$eq" (dict fs) end
  operators_of null = field "$eq" null end
  operators_of (boolean b) = field "$eq" (boolean b) end
  operators_of (number n) = field "$eq" (number n) end
  operators_of (text s) = field "$eq" (text s) end
  operators_of (list xs) = field "$eq" (list xs) end

  -- `fields.add(key)`, `clauses[0] += 1` and `eq_fields.add(key)` where it applies
  unfoldable pub note_field : String → Value N → FilterState → FilterState
  note_field key value s = record {
    fields = set_add key s.fields;
    eq_fields = if has_eq (operators_of value) then set_add key s.eq_fields else s.eq_fields;
    clauses = suc s.clauses;
  }

  -- the end of `build`: no part, one part, or several
  abbrev pub join_parts : List (Predicate N) → Predicate N
  join_parts [] = λ meta. some true
  join_parts (p ∷ []) = p
  join_parts (p ∷ q ∷ ps) = all_of (p ∷ q ∷ ps)

module _ {N : Type 0} (py : Operators N) where
  -- the loop of `_ops_on`
  unfoldable pub check_all : Fields N → Option (Value N) → Option Bool
  unfolding cmp
  check_all end value = some true
  check_all (field op rhs ops) value = and_then (cmp py op value rhs) (check_all ops value)

  unfoldable pub ops_on : String → Fields N → Predicate N
  unfolding check_all get_path
  ops_on key ops meta = check_all ops (get_path meta key)
