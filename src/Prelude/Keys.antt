-- ===== src/Prelude/Keys.antt =====
-- Equality of keys as an interface, with its instances for numbers and texts, and membership tests.
use Prim.Native.Nat.{ℕ}
use Prim.Native.String.{String}
use Prim.Native.Char.{code}
use mathlib.Core.Path.{◌≡◌, refl}
use mathlib.Core.Logic.{◌↔◌}
use mathlib.Core.Bool.{Bool, true, false, ◌||◌}
use mathlib.Core.List.{List, [], ◌∷◌}
use text.Mathlib.Text.{◌==◌ as text_eq}
use text.Mathlib.TextEquality.{eq_iff}
use python_pj.Prelude.Tests.{ltb, eqb, eqb_iff, if◌then◌else◌}

-- A type whose values can serve as a dict's keys.
pub record Eq {κ} (K : Type κ) : Type κ where
  pub is_same : K → K → Bool
  pub is_same_iff : (j k : K) → (is_same j k ≡ true) ↔ (j ≡ k)

instance abbrev pub string_eq : Eq String
string_eq = record { is_same = text_eq; is_same_iff = eq_iff }

instance abbrev pub nat_eq : Eq ℕ
nat_eq = record { is_same = eqb; is_same_iff = eqb_iff }

infix 50 ◌==◌
abbrev pub ◌==◌ {κ} : {K : Type κ} ⦃same : Eq K⦄ → K → K → Bool
◌==◌ ⦃same⦄ j k = same.is_same j k

pub text_eq_iff : (s t : String) → ((s == t) ≡ true) ↔ (s ≡ t)
text_eq_iff = eq_iff

-- `s < t` on Python's `str`: the first code point that differs decides.
unfoldable pub str_ltb : String → String → Bool
str_ltb s String.[] = false
str_ltb String.[] (String.◌∷◌ d t) = true
str_ltb (String.◌∷◌ c s) (String.◌∷◌ d t) =
    if eqb (code c) (code d) then str_ltb s t else ltb (code c) (code d)

module _ {ℓ} {A : Type ℓ} ⦃e : Eq A⦄ where
  -- `a in xs`
  unfoldable pub contains : A → List A → Bool
  contains a [] = false
  contains a (x ∷ xs) = a == x || contains a xs

  pub eq_refl : (a : A) → (a == a) ≡ true
  eq_refl a = (e.is_same_iff a a).1 refl
