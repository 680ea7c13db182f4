-- ===== src/Index/Shuffled.antt =====
-- src/annex/index/flat.py: sorting gives the same rows in another order.
use python_pj.Prelude.{
  ℕ, suc, ◌≡◌, refl, sym, ap, ◌∙◌, inl, inr, Bool, List, [], ◌∷◌, Bool-cases, nat_eq, length, All,
}
use python_pj.Prelude.Members.{In, Distinct}
use python_pj.Index.Heap.{push, sort}
use python_pj.Index.Sorted.{nodes}

-- The same elements in another order.
pub data Shuffled {A : Type 0} : List A → List A → Type 0 where
  empty : Shuffled [] []
  same : (x : A) {xs ys : List A} → Shuffled xs ys → Shuffled (x ∷ xs) (x ∷ ys)
  swapped : (x y : A) (xs : List A) → Shuffled (x ∷ y ∷ xs) (y ∷ x ∷ xs)
  both : {xs ys zs : List A} → Shuffled xs ys → Shuffled ys zs → Shuffled xs zs

module _ {A : Type 0} where
  pub length-Shuffled : {xs ys : List A} → Shuffled xs ys → length xs ≡ length ys
  length-Shuffled empty = refl
  length-Shuffled (same x s) = ap suc (length-Shuffled s)
  length-Shuffled (swapped x y xs) = refl
  length-Shuffled (both s t) = length-Shuffled s ∙ length-Shuffled t

  pub All-Shuffled : (P : A → Type 0) {xs ys : List A} → Shuffled xs ys → All P ys → All P xs
  All-Shuffled P empty h = tt
  All-Shuffled P (same x s) h = (h.0, All-Shuffled P s h.1)
  All-Shuffled P (swapped x y xs) h = (h.1.0, (h.0, h.1.1))
  All-Shuffled P (both s t) h = All-Shuffled P s (All-Shuffled P t h)

  pub Shuffled-In : (a : A) {xs ys : List A} → Shuffled xs ys → In a xs → In a ys
  Shuffled-In a empty i = i
  Shuffled-In a (same x s) (inl e) = inl e
  Shuffled-In a (same x s) (inr i) = inr (Shuffled-In a s i)
  Shuffled-In a (swapped x y xs) (inl e) = inr (inl e)
  Shuffled-In a (swapped x y xs) (inr (inl e)) = inl e
  Shuffled-In a (swapped x y xs) (inr (inr i)) = inr (inr i)
  Shuffled-In a (both s t) i = Shuffled-In a t (Shuffled-In a s i)

  pub back : {xs ys : List A} → Shuffled xs ys → Shuffled ys xs
  back empty = empty
  back (same x s) = same x (back s)
  back (swapped x y xs) = swapped y x xs
  back (both s t) = both (back t) (back s)

  pub Distinct-Shuffled : {xs ys : List A} → Shuffled xs ys → Distinct ys → Distinct xs
  Distinct-Shuffled empty d = tt
  Distinct-Shuffled (same x s) d = ((λ i. d.0 (Shuffled-In x s i)), Distinct-Shuffled s d.1)
  Distinct-Shuffled (swapped x y xs) d =
      ((λ i. elim i [ inl e ↦ d.0 (inl (sym e)) | inr j ↦ d.1.0 j ]), ((λ i. d.0 (inr i)), d.1.1))
  Distinct-Shuffled (both s t) d = Distinct-Shuffled s (Distinct-Shuffled t d)

  unchanged : (xs : List A) → Shuffled xs xs
  unchanged [] = empty
  unchanged (x ∷ xs) = same x (unchanged xs)

  push-Shuffled :
      (before : A → A → Bool) (x : A) (xs : List A) → Shuffled (push before x xs) (x ∷ xs)
  unfolding push
  push-Shuffled before x [] = same x empty
  push-Shuffled before x (y ∷ ys) = elim (Bool-cases (before x y)) [
    | inl h ↦ rw h (unchanged (x ∷ y ∷ ys))
    | inr h ↦ rw h (both (same y (push-Shuffled before x ys)) (swapped y x ys))
  ]

  pub sort-Shuffled : (before : A → A → Bool) (xs : List A) → Shuffled (sort before xs) xs
  unfolding sort
  sort-Shuffled before [] = empty
  sort-Shuffled before (x ∷ xs) =
      both (push-Shuffled before x (sort before xs)) (same x (sort-Shuffled before xs))

pub nodes-Shuffled :
    {R : Type 0} {xs ys : List (R × ℕ)} → Shuffled xs ys → Shuffled (nodes xs) (nodes ys)
nodes-Shuffled empty = empty
nodes-Shuffled (same x s) = same x.1 (nodes-Shuffled s)
nodes-Shuffled {xs = x ∷ y ∷ xs} (swapped _ _ _) = swapped x.1 y.1 (nodes xs)
nodes-Shuffled (both s t) = both (nodes-Shuffled s) (nodes-Shuffled t)
