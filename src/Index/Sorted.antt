-- ===== src/Index/Sorted.antt =====
-- src/annex/index: what pushing and sorting keep, for lists of distances with their keys.
use python_pj.Prelude.{
  ℕ, zero, suc, ◌≡◌, refl, ap, ◌⊎◌, inl, inr, Bool, true, false, List, [], ◌∷◌, Bool-cases, arith,
  length, drop, take, map, keep, All,
}
use python_pj.Prelude.Members.{In, Distinct}
use python_pj.Index.Heap.{push, sort}

module _ {A : Type 0} (before : A → A → Bool) where
  pub length-push : (x : A) (xs : List A) → length (push before x xs) ≡ suc (length xs)
  unfolding push
  length-push x [] = refl
  length-push x (y ∷ ys) = elim (Bool-cases (before x y)) [
    | inl h ↦ rw h refl
    | inr h ↦ rw h (omega (arith, length-push x ys))
  ]

  pub length-sort : (xs : List A) → length (sort before xs) ≡ length xs
  unfolding sort
  length-sort [] = refl
  length-sort (x ∷ xs) = omega (arith, length-push x (sort before xs), length-sort xs)

  pub All-push : (P : A → Type 0) (x : A) (xs : List A) → P x → All P xs → All P (push before x xs)
  unfolding push
  All-push P x [] h hs = (h, tt)
  All-push P x (y ∷ ys) h hs = elim (Bool-cases (before x y)) [
    | inl b ↦ rw b (h, hs)
    | inr b ↦ rw b (hs.0, All-push P x ys h hs.1)
  ]

  pub All-sort : (P : A → Type 0) (xs : List A) → All P xs → All P (sort before xs)
  unfolding sort
  All-sort P [] h = tt
  All-sort P (x ∷ xs) h = All-push P x (sort before xs) h.0 (All-sort P xs h.1)

module _ {A : Type 0} (behind : A → A → Bool) where
  -- The head of a sorted list is not behind what stands before it.
  abbrev pub Leads : A → List A → Type 0
  Leads x [] = Unit
  Leads x (y ∷ ys) = behind y x ≡ false

  -- No element is followed by one that it is behind.
  abbrev pub Ascending : List A → Type 0
  Ascending [] = Unit
  Ascending (x ∷ xs) = Leads x xs × Ascending xs

  module _ (before : A → A → Bool) (put_before : (x y : A) → before x y ≡ true → behind y x ≡ false)
      (put_after : (x y : A) → before x y ≡ false → behind x y ≡ false) where
    Leads-push :
        (z x : A) (xs : List A) → behind x z ≡ false → Leads z xs → Leads z (push before x xs)
    unfolding push
    Leads-push z x [] h l = h
    Leads-push z x (y ∷ ys) h l = elim (Bool-cases (before x y)) [ inl b ↦ rw b h | inr b ↦ rw b l ]

    Ascending-push : (x : A) (xs : List A) → Ascending xs → Ascending (push before x xs)
    unfolding push
    Ascending-push x [] a = (tt, tt)
    Ascending-push x (y ∷ ys) a = elim (Bool-cases (before x y)) [
      | inl b ↦ rw b (put_before x y b, a)
      | inr b ↦ rw b (Leads-push y x ys (put_after x y b) a.0, Ascending-push x ys a.1)
    ]

    pub Ascending-sort : (xs : List A) → Ascending (sort before xs)
    unfolding sort
    Ascending-sort [] = tt
    Ascending-sort (x ∷ xs) = Ascending-push x (sort before xs) (Ascending-sort xs)

  pub Ascending-take : (n : ℕ) (xs : List A) → Ascending xs → Ascending (take n xs)
  Ascending-take zero xs a = tt
  Ascending-take (suc n) [] a = tt
  Ascending-take (suc zero) (x ∷ xs) a = (tt, tt)
  Ascending-take (suc (suc n)) (x ∷ []) a = a
  Ascending-take (suc (suc n)) (x ∷ y ∷ ys) a = (a.0, Ascending-take (suc n) (y ∷ ys) a.1)

module _ {A : Type 0} (P : A → Type 0) where
  pub All-take : (n : ℕ) (xs : List A) → All P xs → All P (take n xs)
  All-take zero xs h = tt
  All-take (suc n) [] h = tt
  All-take (suc n) (x ∷ xs) h = (h.0, All-take n xs h.1)

  pub All-drop : (n : ℕ) (xs : List A) → All P xs → All P (drop n xs)
  All-drop zero xs h = h
  All-drop (suc n) [] h = tt
  All-drop (suc n) (x ∷ xs) h = All-drop n xs h.1

  pub All-In : (a : A) (xs : List A) → All P xs → In a xs → P a
  All-In a [] h i = absurd i
  All-In a (x ∷ xs) h (inl e) = rw e h.0
  All-In a (x ∷ xs) h (inr i) = All-In a xs h.1 i

  pub In-All : (xs : List A) → ((a : A) → In a xs → P a) → All P xs
  In-All [] h = tt
  In-All (x ∷ xs) h = (h x (inl refl), In-All xs (λ a i. h a (inr i)))

module _ {A : Type 0} where
  pub In-keep : (p : A → Bool) (a : A) (xs : List A) → In a (keep p xs) → In a xs × (p a ≡ true)
  In-keep p a [] i = absurd i
  In-keep p a (x ∷ xs) i = elim (Bool-cases (p x)) [
    | inl h ↦ elim (rw h at i) [
      | inl e ↦ (inl e, rw e h)
      | inr j ↦ let r = In-keep p a xs j in (inr r.0, r.1)
    ]
    | inr h ↦ let r = In-keep p a xs (rw h at i) in (inr r.0, r.1)
  ]

  pub keep-In : (p : A → Bool) (a : A) (xs : List A) → In a xs → p a ≡ true → In a (keep p xs)
  keep-In p a [] i h = i
  keep-In p a (x ∷ xs) i h = elim (Bool-cases (p x)) [
    | inl t ↦ rw t (elim i [ inl e ↦ inl e | inr j ↦ inr (keep-In p a xs j h) ])
    | inr f ↦ rw f (elim i [
      | inl e ↦ let same : p a ≡ p x = ap p e in absurd (cc)
      | inr j ↦ keep-In p a xs j h
    ])
  ]

  pub Distinct-keep : (p : A → Bool) (xs : List A) → Distinct xs → Distinct (keep p xs)
  Distinct-keep p [] d = tt
  Distinct-keep p (x ∷ xs) d = elim (Bool-cases (p x)) [
    | inl h ↦ rw h ((λ i. d.0 (In-keep p x xs i).0), Distinct-keep p xs d.1)
    | inr h ↦ rw h (Distinct-keep p xs d.1)
  ]

-- The keys of a list of distances with their keys.
abbrev pub nodes : {R : Type 0} → List (R × ℕ) → List ℕ
nodes xs = map (λ x. x.1) xs

module _ {R : Type 0} (before : R × ℕ → R × ℕ → Bool) where
  pub In-push :
      (k : ℕ) (x : R × ℕ) (xs : List (R × ℕ))
      → In k (nodes (push before x xs))
      → (k ≡ x.1) ⊎ In k (nodes xs)
  unfolding push
  In-push k x [] i = i
  In-push k x (y ∷ ys) i = elim (Bool-cases (before x y)) [
    | inl h ↦ rw h at i
    | inr h ↦ elim (rw h at i) [
      | inl e ↦ inr (inl e)
      | inr j ↦ elim (In-push k x ys j) [ inl e ↦ inl e | inr l ↦ inr (inr l) ]
    ]
  ]

  pub In-push_new : (x : R × ℕ) (xs : List (R × ℕ)) → In x.1 (nodes (push before x xs))
  unfolding push
  In-push_new x [] = inl refl
  In-push_new x (y ∷ ys) = elim (Bool-cases (before x y)) [
    | inl h ↦ rw h (inl refl)
    | inr h ↦ rw h (inr (In-push_new x ys))
  ]

  pub In-push_old :
      (k : ℕ) (x : R × ℕ) (xs : List (R × ℕ)) → In k (nodes xs) → In k (nodes (push before x xs))
  unfolding push
  In-push_old k x [] i = absurd i
  In-push_old k x (y ∷ ys) i = elim (Bool-cases (before x y)) [
    | inl h ↦ rw h (inr i)
    | inr h ↦ rw h (elim i [ inl e ↦ inl e | inr j ↦ inr (In-push_old k x ys j) ])
  ]

  pub Distinct-push :
      (x : R × ℕ) (xs : List (R × ℕ))
      → (¬ In x.1 (nodes xs))
      → Distinct (nodes xs)
      → Distinct (nodes (push before x xs))
  unfolding push
  Distinct-push x [] n d = (n, d)
  Distinct-push x (y ∷ ys) n d = elim (Bool-cases (before x y)) [
    | inl h ↦ rw h (n, d)
    | inr h ↦ rw h (
      (λ i. elim (In-push y.1 x ys i) [ inl e ↦ n (rw e (inl refl)) | inr l ↦ d.0 l ]),
      Distinct-push x ys (λ i. n (inr i)) d.1,
    )
  ]

  pub In-sort : (k : ℕ) (xs : List (R × ℕ)) → In k (nodes (sort before xs)) → In k (nodes xs)
  unfolding sort
  In-sort k [] i = i
  In-sort k (x ∷ xs) i = elim (In-push k x (sort before xs) i) [
    | inl e ↦ inl e
    | inr j ↦ inr (In-sort k xs j)
  ]

  pub In-sort_all : (k : ℕ) (xs : List (R × ℕ)) → In k (nodes xs) → In k (nodes (sort before xs))
  unfolding sort
  In-sort_all k [] i = i
  In-sort_all k (x ∷ xs) (inl e) = rw e (In-push_new x (sort before xs))
  In-sort_all k (x ∷ xs) (inr i) = In-push_old k x (sort before xs) (In-sort_all k xs i)

  pub Distinct-sort : (xs : List (R × ℕ)) → Distinct (nodes xs) → Distinct (nodes (sort before xs))
  unfolding sort
  Distinct-sort [] d = tt
  Distinct-sort (x ∷ xs) d =
      Distinct-push x (sort before xs) (λ i. d.0 (In-sort x.1 xs i)) (Distinct-sort xs d.1)

module _ {R : Type 0} where
  pub In-take : (n k : ℕ) (xs : List (R × ℕ)) → In k (nodes (take n xs)) → In k (nodes xs)
  In-take zero k xs i = absurd i
  In-take (suc n) k [] i = i
  In-take (suc n) k (x ∷ xs) (inl e) = inl e
  In-take (suc n) k (x ∷ xs) (inr i) = inr (In-take n k xs i)

  pub Distinct-take :
      (n : ℕ) (xs : List (R × ℕ)) → Distinct (nodes xs) → Distinct (nodes (take n xs))
  Distinct-take zero xs d = tt
  Distinct-take (suc n) [] d = tt
  Distinct-take (suc n) (x ∷ xs) d = ((λ i. d.0 (In-take n x.1 xs i)), Distinct-take n xs d.1)

  pub In-drop : (n k : ℕ) (xs : List (R × ℕ)) → In k (nodes (drop n xs)) → In k (nodes xs)
  In-drop zero k xs i = i
  In-drop (suc n) k [] i = i
  In-drop (suc n) k (x ∷ xs) i = inr (In-drop n k xs i)

  pub Distinct-drop :
      (n : ℕ) (xs : List (R × ℕ)) → Distinct (nodes xs) → Distinct (nodes (drop n xs))
  Distinct-drop zero xs d = d
  Distinct-drop (suc n) [] d = d
  Distinct-drop (suc n) (x ∷ xs) d = Distinct-drop n xs d.1
