-- ===== src/Index/Chosen.antt =====
-- src/annex/index/hnsw.py: what `_select_neighbors` selects.
use python_pj.Prelude.{
  ℕ, ◌≤◌, ◌≡◌, ◌≢◌, refl, sym, ap, ◌∙◌, ◌⊎◌, inl, inr, Bool, false, not, List, [], ◌∷◌, ◌++◌,
  Bool-cases, arith, length, length-append, leb, eqb, eqb_iff, keep,
}
use python_pj.Prelude.Members.{In, Distinct, In-append}
use python_pj.Index.Heap.{sort, nearer}
use python_pj.Index.Neighbors.{diverse, choose, top_up, select_neighbors, measured}
use python_pj.Index.Sorted.{nodes, In-sort, Distinct-sort}

pub Distinct-snoc : (k : ℕ) (xs : List ℕ) → (¬ In k xs) → Distinct xs → Distinct (xs ++ k ∷ [])
Distinct-snoc k [] n d = ((λ i. i), tt)
Distinct-snoc k (x ∷ xs) n d = (
  (λ i. elim (In-append x xs (k ∷ []) i) [
    | inl l ↦ d.0 l
    | inr r ↦ elim r [ inl e ↦ n (inl (sym e)) | inr none_left ↦ none_left ]
  ]),
  Distinct-snoc k xs (λ i. n (inr i)) d.1,
)

pub In-snoc : (j k : ℕ) (xs : List ℕ) → In j (xs ++ k ∷ []) → In j xs ⊎ (j ≡ k)
In-snoc j k xs i = elim (In-append j xs (k ∷ []) i) [
  | inl l ↦ inl l
  | inr r ↦ elim r [ inl e ↦ inr e | inr none_left ↦ absurd none_left ]
]

-- Two lists without repetition that have no key in common with a third.
record Apart (selected discarded rest : List ℕ) : Type 0 where
  own : Distinct selected
  other : Distinct discarded
  clear : Distinct rest
  selected_discarded : (j : ℕ) → In j selected → ¬ In j discarded
  selected_rest : (j : ℕ) → In j selected → ¬ In j rest
  discarded_rest : (j : ℕ) → In j discarded → ¬ In j rest

Apart-take :
    (selected discarded rest : List ℕ) (k : ℕ)
    → Apart selected discarded (k ∷ rest)
    → Apart (selected ++ k ∷ []) discarded rest
Apart-take selected discarded rest k a = record {
  own = Distinct-snoc k selected (λ i. a.selected_rest k i (inl refl)) a.own;
  other = a.other;
  clear = a.clear.1;
  selected_discarded = λ j i d. elim (In-snoc j k selected i) [
    | inl old ↦ a.selected_discarded j old d
    | inr e ↦ a.discarded_rest j d (inl e)
  ];
  selected_rest = λ j i r. elim (In-snoc j k selected i) [
    | inl old ↦ a.selected_rest j old (inr r)
    | inr e ↦ a.clear.0 (rw (← e) r)
  ];
  discarded_rest = λ j i r. a.discarded_rest j i (inr r);
}

Apart-leave :
    (selected discarded rest : List ℕ) (k : ℕ)
    → Apart selected discarded (k ∷ rest)
    → Apart selected (discarded ++ k ∷ []) rest
Apart-leave selected discarded rest k a = record {
  own = a.own;
  other = Distinct-snoc k discarded (λ i. a.discarded_rest k i (inl refl)) a.other;
  clear = a.clear.1;
  selected_discarded = λ j i d. elim (In-snoc j k discarded d) [
    | inl old ↦ a.selected_discarded j i old
    | inr e ↦ a.selected_rest j i (inl e)
  ];
  selected_rest = λ j i r. a.selected_rest j i (inr r);
  discarded_rest = λ j i r. elim (In-snoc j k discarded i) [
    | inl old ↦ a.discarded_rest j old (inr r)
    | inr e ↦ a.clear.0 (rw (← e) r)
  ];
}

-- No more than m keys, none of them twice, all from a list.
record IsSelection (m : ℕ) (from selected : List ℕ) : Type 0 where
  at_most : length selected ≤ m
  once : Distinct selected
  inside : (j : ℕ) → In j selected → In j from

-- The same of the selected, while the discarded wait.
record IsChosen (m : ℕ) (from selected discarded : List ℕ) : Type 0 where
  at_most : length selected ≤ m
  own : Distinct selected
  other : Distinct discarded
  selected_discarded : (j : ℕ) → In j selected → ¬ In j discarded
  inside : (j : ℕ) → In j selected → In j from
  beside : (j : ℕ) → In j discarded → In j from

room_for_one : (m : ℕ) (k : ℕ) (xs : List ℕ) → leb m (length xs) ≡ false → length (xs ++ k ∷ []) ≤ m
room_for_one m k xs h = ground (arith, h, length-append xs (k ∷ []))

module _ {R : Type 0} (less : R → R → Bool) (between : ℕ → ℕ → R) where
  choose-IsChosen :
      (m : ℕ) (pool : List (R × ℕ)) (selected discarded from : List ℕ)
      → length selected ≤ m
      → Apart selected discarded (nodes pool)
      → ((j : ℕ) → In j selected → In j from)
      → ((j : ℕ) → In j discarded → In j from)
      → ((j : ℕ) → In j (nodes pool) → In j from)
      → IsChosen m from
          (choose less between m pool selected discarded).0
          (choose less between m pool selected discarded).1
  unfolding choose
  choose-IsChosen m [] selected discarded from n a s d p = record {
    at_most = n;
    own = a.own;
    other = a.other;
    selected_discarded = a.selected_discarded;
    inside = s;
    beside = d;
  }
  choose-IsChosen m ((d, k) ∷ pool) selected discarded from n a s w p =
      elim (Bool-cases (leb m (length selected))) [
        | inl y ↦ rw y (record {
          at_most = n;
          own = a.own;
          other = a.other;
          selected_discarded = a.selected_discarded;
          inside = s;
          beside = w;
        })
        | inr y ↦ elim (Bool-cases (diverse less between d k selected)) [
          | inl t ↦
              rw (y, t)
                (choose-IsChosen m pool (selected ++ k ∷ []) discarded from
                  (room_for_one m k selected y) (Apart-take selected discarded (nodes pool) k a)
                  (λ j i. elim (In-snoc j k selected i) [ inl old ↦ s j old | inr e ↦ p j (inl e) ])
                  w (λ j i. p j (inr i)))
          | inr t ↦
              rw (y, t)
                (choose-IsChosen m pool selected (discarded ++ k ∷ []) from n
                  (Apart-leave selected discarded (nodes pool) k a) s
                  (λ j i. elim (In-snoc j k discarded i) [
                    | inl old ↦ w j old
                    | inr e ↦ p j (inl e)
                  ])
                  (λ j i. p j (inr i)))
        ]
      ]

top_up-IsSelection :
    (m : ℕ) (from selected discarded : List ℕ)
    → IsChosen m from selected discarded
    → IsSelection m from (top_up m selected discarded)
unfolding top_up
top_up-IsSelection m from selected [] c = record {
  at_most = c.at_most;
  once = c.own;
  inside = c.inside;
}
top_up-IsSelection m from selected (k ∷ discarded) c = elim (Bool-cases (leb m (length selected))) [
  | inl y ↦ rw y (record { at_most = c.at_most; once = c.own; inside = c.inside })
  | inr y ↦ rw y (
      top_up-IsSelection m from (selected ++ k ∷ []) discarded (record {
        at_most = room_for_one m k selected y;
        own = Distinct-snoc k selected (λ i. c.selected_discarded k i (inl refl)) c.own;
        other = c.other.1;
        selected_discarded = λ j i d. elim (In-snoc j k selected i) [
          | inl old ↦ c.selected_discarded j old (inr d)
          | inr e ↦ c.other.0 (rw (← e) d)
        ];
        inside = λ j i. elim (In-snoc j k selected i) [
          | inl old ↦ c.inside j old
          | inr e ↦ c.beside j (inl e)
        ];
        beside = λ j i. c.beside j (inr i);
      }))
]

-- The keys of the candidates other than the base node.
others : {R : Type 0} → ℕ → List (R × ℕ) → List (R × ℕ)
others base candidates = keep (λ x. not (eqb x.1 base)) candidates

In-others :
    {R : Type 0} (base j : ℕ) (xs : List (R × ℕ))
    → In j (nodes (others base xs))
    → In j (nodes xs) × (j ≢ base)
unfolding others
In-others base j [] i = absurd i
In-others base j (x ∷ xs) i = elim (Bool-cases (eqb x.1 base)) [
  | inl y ↦ let r = In-others base j xs (rw y at i) in (inr r.0, r.1)
  | inr y ↦ elim (rw y at i) [
    | inl e ↦ (inl e, λ same. let t = (eqb_iff x.1 base).1 (sym e ∙ same) in absurd (cc))
    | inr l ↦ let r = In-others base j xs l in (inr r.0, r.1)
  ]
]

Distinct-others :
    {R : Type 0} (base : ℕ) (xs : List (R × ℕ))
    → Distinct (nodes xs)
    → Distinct (nodes (others base xs))
unfolding others
Distinct-others base [] d = tt
Distinct-others base (x ∷ xs) d = elim (Bool-cases (eqb x.1 base)) [
  | inl y ↦ rw y (Distinct-others base xs d.1)
  | inr y ↦ rw y ((λ i. d.0 (In-others base x.1 xs i).0), Distinct-others base xs d.1)
]

module _ {R : Type 0} (less : R → R → Bool) (between : ℕ → ℕ → R) where
  -- From candidates without repetition no more than m keys are selected, none of them twice, each of
  -- them a candidate and not the base node.
  pub select_neighbors-IsSelection :
      (base : ℕ) (candidates : List (R × ℕ)) (m : ℕ)
      → Distinct (nodes candidates)
      → (length (select_neighbors less between base candidates m) ≤ m)
        × Distinct (select_neighbors less between base candidates m)
        × ((j : ℕ)
            → In j (select_neighbors less between base candidates m)
            → In j (nodes candidates) × (j ≢ base))
  unfolding select_neighbors others
  select_neighbors-IsSelection base candidates m d =
      let kept : List (R × ℕ) = others base candidates in
      let pool : List (R × ℕ) = sort (nearer less) kept in
      let chosen =
        choose-IsChosen less between m pool [] [] (nodes pool) (omega arith)
          (record {
            own = tt;
            other = tt;
            clear = Distinct-sort (nearer less) kept (Distinct-others base candidates d);
            selected_discarded = λ j i. absurd i;
            selected_rest = λ j i. absurd i;
            discarded_rest = λ j i. absurd i;
          })
          (λ j i. absurd i) (λ j i. absurd i) (λ j i. i) in
      let s = top_up-IsSelection m (nodes pool) _ _ chosen in
      (
        s.at_most,
        s.once,
        λ j i. In-others base j candidates (In-sort (nearer less) j kept (s.inside j i)),
      )

  pub nodes-measured : (nb : ℕ) (xs : List ℕ) → nodes (measured less between nb xs) ≡ xs
  nodes-measured nb [] = refl
  nodes-measured nb (x ∷ xs) = ap (◌∷◌ x) (nodes-measured nb xs)
