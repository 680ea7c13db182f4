-- ===== src/Prelude/Members.antt =====
-- Membership in lists as a sum, lists without duplicates, and the overlap of two majorities.
use Prim.Native.Nat.{suc, ◌+◌, ◌≤◌, ◌<◌}
use mathlib.Core.Path.{◌≡◌, refl, subst}
use mathlib.Core.Logic.{◌⊎◌, inl, inr, ◌≢◌, ◌↔◌}
use mathlib.Core.Bool.{true}
use mathlib.Core.List.{List, [], ◌∷◌, ◌++◌}
use native.Mathlib.Omega.{arith}
use python_pj.Prelude.Tests.{if◌then◌else◌, Bool-cases}
use python_pj.Prelude.Keys.{Eq, ◌==◌, contains}
use python_pj.Prelude.Lists.{length, length-append}

module _ {A : Type 0} where
  abbrev pub In : A → List A → Type 0
  In a [] = ⊥
  In a (x ∷ xs) = (a ≡ x) ⊎ In a xs

  -- No element stands twice.
  abbrev pub Distinct : List A → Type 0
  Distinct [] = Unit
  Distinct (x ∷ xs) = (¬ In x xs) × Distinct xs

  -- Every element of the first list is in the second.
  abbrev pub Within : List A → List A → Type 0
  Within xs ys = (a : A) → In a xs → In a ys

  pub In-append_left : (a : A) (xs ys : List A) → In a xs → In a (xs ++ ys)
  In-append_left a [] ys h = absurd h
  In-append_left a (x ∷ xs) ys (inl e) = inl e
  In-append_left a (x ∷ xs) ys (inr h) = inr (In-append_left a xs ys h)

  pub In-append_right : (a : A) (xs ys : List A) → In a ys → In a (xs ++ ys)
  In-append_right a [] ys h = h
  In-append_right a (x ∷ xs) ys h = inr (In-append_right a xs ys h)

  pub In-append : (a : A) (xs ys : List A) → In a (xs ++ ys) → In a xs ⊎ In a ys
  In-append a [] ys h = inr h
  In-append a (x ∷ xs) ys (inl e) = inl (inl e)
  In-append a (x ∷ xs) ys (inr h) = elim (In-append a xs ys h) [
    | inl l ↦ inl (inr l)
    | inr r ↦ inr r
  ]

module _ {A : Type 0} ⦃e : Eq A⦄ where
  pub contains_iff : (a : A) (xs : List A) → (contains a xs ≡ true) ↔ In a xs
  unfolding contains
  contains_iff a [] = ((λ h. cc), λ h. absurd h)
  contains_iff a (x ∷ xs) = ground (arith, e.is_same_iff a x, contains_iff a xs)

  -- Membership is decided.
  pub In-cases : (a : A) (xs : List A) → In a xs ⊎ (¬ In a xs)
  In-cases a xs = elim (Bool-cases (contains a xs)) [
    | inl h ↦ inl ((contains_iff a xs).0 h)
    | inr h ↦ inr (λ i. absurd (let t = (contains_iff a xs).1 i in cc))
  ]

  -- `xs.remove(a)`, of the first
  unfoldable pub erase : A → List A → List A
  erase a [] = []
  erase a (x ∷ xs) = if a == x then xs else x ∷ erase a xs

  pub length-erase : (a : A) (xs : List A) → In a xs → length xs ≡ suc (length (erase a xs))
  unfolding erase
  length-erase a [] h = absurd h
  length-erase a (x ∷ xs) h = ground (arith, e.is_same_iff a x, length-erase a xs, h)

  pub In-erase : (a b : A) (xs : List A) → b ≢ a → In b xs → In b (erase a xs)
  unfolding erase
  In-erase a b [] ne h = absurd h
  In-erase a b (x ∷ xs) ne h = ground (arith, e.is_same_iff a x, In-erase a b xs ne, h)

  -- Distinct elements of a list are no more than it has.
  pub Within-length : (xs ys : List A) → Distinct xs → Within xs ys → length xs ≤ length ys
  Within-length [] ys d w = omega arith
  Within-length (x ∷ xs) ys d w =
      let rest : Within xs (erase x ys) =
        λ a i. In-erase x a ys (λ p. d.0 (subst (λ b. In b xs) p i)) (w a (inr i)) in
      omega (arith, Within-length xs (erase x ys) d.1 rest, length-erase x ys (w x (inl refl)))

  common : (xs ys : List A) → ((a : A) × In a xs × In a ys) ⊎ ((a : A) → In a xs → ¬ In a ys)
  common [] ys = inr (λ a h i. absurd h)
  common (x ∷ xs) ys = elim (In-cases x ys) [
    | inl h ↦ inl (x, inl refl, h)
    | inr n ↦ elim (common xs ys) [
      | inl (a, i, j) ↦ inl (a, inr i, j)
      | inr none_of ↦
          inr (λ a h. elim h [ inl p ↦ λ i. n (subst (λ b. In b ys) p i) | inr i ↦ none_of a i ])
    ]
  ]

  Distinct-append :
      (xs ys : List A)
      → Distinct xs
      → Distinct ys
      → ((a : A) → In a xs → ¬ In a ys)
      → Distinct (xs ++ ys)
  Distinct-append [] ys dx dy h = dy
  Distinct-append (x ∷ xs) ys dx dy h = (
    (λ i. elim (In-append x xs ys i) [ inl l ↦ dx.0 l | inr r ↦ h x (inl refl) r ]),
    Distinct-append xs ys dx.1 dy (λ a i. h a (inr i)),
  )

  -- Two sets of members that together outnumber them have a member in common.
  pub majorities_meet :
      (xs ys ms : List A)
      → Distinct xs
      → Distinct ys
      → Within xs ms
      → Within ys ms
      → length ms < length xs + length ys
      → (a : A) × In a xs × In a ys
  majorities_meet xs ys ms dx dy wx wy h = elim (common xs ys) [
    | inl c ↦ c
    | inr apart ↦ absurd (
        omega (
          arith,
          length-append xs ys,
          Within-length (xs ++ ys) ms (Distinct-append xs ys dx dy apart)
              (λ a i. elim (In-append a xs ys i) [ inl l ↦ wx a l | inr r ↦ wy a r ]),
        ))
  ]
