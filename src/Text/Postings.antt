-- ===== src/Text/Postings.antt =====
-- src/annex/text/bm25.py: the postings, as what they give for a term and a key.
use python_pj.Prelude.{
  ℕ, zero, suc, ◌+◌, ◌≡◌, refl, sym, ap, subst, ◌∙◌, inl, inr, Bool, true, false, not, ◌&&◌, Option,
  none, some, List, [], ◌∷◌, if◌then◌else◌, nat_eq, Eq, ◌==◌, contains, arith, Bool-cases,
  Option-cases,
}
use python_pj.Prelude.Dict.{Dict, get, insert, remove, get-insert, get-remove}
use python_pj.Prelude.Once.{Once, Once-insert, Once-remove}
use python_pj.Text.{
  or_empty, or_zero, no_postings, count_terms, add_postings, drop_posting, drop_postings,
}

-- one more than before, and none at first
abbrev pub counted : Option ℕ → ℕ → Option ℕ
counted o zero = o
counted o (suc n) = some (or_zero o + suc n)

abbrev pub or_else : {V : Type 0} → Option V → Option V → Option V
or_else none o = o
or_else (some v) o = some v

-- no empty dict
abbrev pub filled : Option (Dict ℕ ℕ) → Bool
filled none = true
filled (some d) = not (no_postings d)

counted-suc : (o : Option ℕ) (n : ℕ) → counted (some (suc (or_zero o))) n ≡ counted o (suc n)
counted-suc o zero = ap (λ (k : ℕ). let r : Option ℕ = some k in r) (omega arith)
counted-suc o (suc n) = ap (λ (k : ℕ). let r : Option ℕ = some k in r) (omega arith)

no_postings-insert : (d : Dict ℕ ℕ) (k c : ℕ) → no_postings (insert d k c) ≡ false
unfolding insert
no_postings-insert [] k c = refl
no_postings-insert ((j, w) ∷ d) k c = elim (Bool-cases (j == k)) [
  | inl y ↦ rw y refl
  | inr y ↦ rw y refl
]

no_postings-get : (d : Dict ℕ ℕ) → no_postings d ≡ true → (j : ℕ) → get d j ≡ none
unfolding get
no_postings-get [] h j = refl
no_postings-get (x ∷ d) h j = cc h

module _ {K : Type 0} ⦃e : Eq K⦄ where
  -- how often a term stands among some tokens
  unfoldable pub occurrences : K → List K → ℕ
  occurrences t [] = 0
  occurrences t (u ∷ us) = let rest = occurrences t us in if u == t then suc rest else rest

  pub get-count_terms :
      (ts : List K) (tf : Dict K ℕ) (t : K)
      → get (count_terms ts tf) t ≡ counted (get tf t) (occurrences t ts)
  unfolding count_terms occurrences
  get-count_terms [] tf t = refl
  get-count_terms (u ∷ us) tf t =
      get-count_terms us (insert tf u (suc (or_zero (get tf u)))) t
      ∙ ap (λ (o : Option ℕ). counted o (occurrences t us))
          (get-insert tf u t (suc (or_zero (get tf u))))
      ∙ elim (Bool-cases (u == t)) [
        | inl y ↦ rw (y, (e.is_same_iff u t).0 y) (counted-suc (get tf t) (occurrences t us))
        | inr y ↦ rw y refl
      ]

  pub Once-count_terms : (ts : List K) (tf : Dict K ℕ) → Once tf → Once (count_terms ts tf)
  unfolding count_terms
  Once-count_terms [] tf o = o
  Once-count_terms (u ∷ us) tf o =
      Once-count_terms us (insert tf u (suc (or_zero (get tf u)))) (Once-insert tf u _ o)

  -- what the postings hold for a term and a document
  abbrev pub posted : Dict K (Dict ℕ ℕ) → K → ℕ → Option ℕ
  posted p t key = get (or_empty (get p t)) key

  abbrev pub Filled : Dict K (Dict ℕ ℕ) → Type 0
  Filled p = (t : K) → filled (get p t) ≡ true

  posted-insert :
      (p : Dict K (Dict ℕ ℕ)) (u t : K) (d : Dict ℕ ℕ) (key : ℕ)
      → posted (insert p u d) t key ≡ (if u == t then get d key else posted p t key)
  posted-insert p u t d key = elim (Bool-cases (u == t)) [
    | inl y ↦ rw (y, get-insert p u t d, y) refl
    | inr y ↦ rw (y, get-insert p u t d, y) refl
  ]

  pub posted-add_postings :
      (key : ℕ) (tf : Dict K ℕ) (p : Dict K (Dict ℕ ℕ)) (t : K) (j : ℕ)
      → Once tf
      → posted (add_postings key tf p) t j
        ≡ (if key == j then or_else (get tf t) (posted p t j) else posted p t j)
  unfolding add_postings get
  posted-add_postings key [] p t j o = ground arith
  posted-add_postings key ((u, c) ∷ tf) p t j o =
      let d : Dict ℕ ℕ = insert (or_empty (get p u)) key c in
      posted-add_postings key tf (insert p u d) t j o.1
      ∙ ap (λ (q : Option ℕ). if key == j then or_else (get tf t) q else q)
          (posted-insert p u t d j)
      ∙ elim (Bool-cases (u == t)) [
        | inl y ↦
            let same : u ≡ t = (e.is_same_iff u t).0 y in
            let absent : get tf t ≡ none = subst (λ (x : K). get tf x ≡ none) same o.0 in
            let old : posted p u j ≡ posted p t j = ap (λ (x : K). posted p x j) same in
            elim (Bool-cases (key == j)) [
              | inl z ↦ rw (z, y, absent, get-insert (or_empty (get p u)) key j c, z) refl
              | inr z ↦ rw (z, y, get-insert (or_empty (get p u)) key j c, z) old
            ]
        | inr y ↦ rw y refl
      ]

  Filled-insert :
      (p : Dict K (Dict ℕ ℕ)) (u : K) (d : Dict ℕ ℕ)
      → Filled p
      → no_postings d ≡ false
      → Filled (insert p u d)
  Filled-insert p u d f h t = elim (Bool-cases (u == t)) [
    | inl y ↦ rw (get-insert p u t d, y, h) refl
    | inr y ↦ rw (get-insert p u t d, y) (f t)
  ]

  Filled-remove : (p : Dict K (Dict ℕ ℕ)) (u : K) → Filled p → Filled (remove p u)
  Filled-remove p u f t = elim (Bool-cases (u == t)) [
    | inl y ↦ rw (get-remove p u t, y) refl
    | inr y ↦ rw (get-remove p u t, y) (f t)
  ]

  pub Filled-add_postings :
      (key : ℕ) (tf : Dict K ℕ) (p : Dict K (Dict ℕ ℕ)) → Filled p → Filled (add_postings key tf p)
  unfolding add_postings
  Filled-add_postings key [] p f = f
  Filled-add_postings key ((u, c) ∷ tf) p f =
      let d : Dict ℕ ℕ = insert (or_empty (get p u)) key c in
      Filled-add_postings key tf (insert p u d)
        (Filled-insert p u d f (no_postings-insert (or_empty (get p u)) key c))

  moved :
      (p : Dict K (Dict ℕ ℕ)) (u t : K) (o : Option (Dict ℕ ℕ))
      → (u == t) ≡ true
      → get p u ≡ o
      → get p t ≡ o
  moved p u t o y h = subst (λ (x : K). get p x ≡ o) ((e.is_same_iff u t).0 y) h

  -- Dropping one posting of a term.
  posted-drop_posting :
      (key : ℕ) (u : K) (p : Dict K (Dict ℕ ℕ)) (t : K) (j : ℕ)
      → posted (drop_posting key u p) t j ≡ (if (u == t) && (key == j) then none else posted p t j)
  unfolding drop_posting
  posted-drop_posting key u p t j = elim (Option-cases (get p u)) [
    | inl absent ↦
        rw (absent, drop_posting)
          (elim (Bool-cases (u == t)) [
            | inl y ↦
                let gone : get p t ≡ none = moved p u t none y absent in
                rw (y, gone, no_postings-get [] refl j) (ground arith)
            | inr y ↦ rw y refl
          ])
    | inr (q, here) ↦ elim (Bool-cases (no_postings (remove q key))) [
      | inl last ↦
          rw (here, drop_posting, last)
            (elim (Bool-cases (u == t)) [
              | inl y ↦
                  rw
                    (
                      y,
                      get-remove p u t,
                      y,
                      moved p u t (some q) y here,
                      sym (get-remove q key j),
                      no_postings-get (remove q key) last j,
                    )
                    (no_postings-get [] refl j)
              | inr y ↦ rw (y, get-remove p u t, y) refl
            ])
      | inr more ↦
          rw (here, drop_posting, more)
            (elim (Bool-cases (u == t)) [
              | inl y ↦
                  rw
                    (
                      y,
                      get-insert p u t (remove q key),
                      y,
                      moved p u t (some q) y here,
                      get-remove q key j,
                    )
                    refl
              | inr y ↦ rw (y, get-insert p u t (remove q key), y) refl
            ])
    ]
  ]

  Filled-drop_posting :
      (key : ℕ) (u : K) (p : Dict K (Dict ℕ ℕ)) → Filled p → Filled (drop_posting key u p)
  unfolding drop_posting
  Filled-drop_posting key u p f t = elim (Option-cases (get p u)) [
    | inl absent ↦ rw (absent, drop_posting) (f t)
    | inr (q, here) ↦ elim (Bool-cases (no_postings (remove q key))) [
      | inl last ↦ rw (here, drop_posting, last) (Filled-remove p u f t)
      | inr more ↦ rw (here, drop_posting, more) (Filled-insert p u (remove q key) f more t)
    ]
  ]

  pub posted-drop_postings :
      (key : ℕ) (ts : List K) (p : Dict K (Dict ℕ ℕ)) (t : K) (j : ℕ)
      → posted (drop_postings key ts p) t j
        ≡ (if contains t ts && (key == j) then none else posted p t j)
  unfolding drop_postings contains
  posted-drop_postings key [] p t j = refl
  posted-drop_postings key (u ∷ us) p t j =
      posted-drop_postings key us (drop_posting key u p) t j
      ∙ ground (arith, posted-drop_posting key u p t j, e.is_same_iff u t, e.is_same_iff t u)

  pub Filled-drop_postings :
      (key : ℕ) (ts : List K) (p : Dict K (Dict ℕ ℕ)) → Filled p → Filled (drop_postings key ts p)
  unfolding drop_postings
  Filled-drop_postings key [] p f = f
  Filled-drop_postings key (u ∷ us) p f =
      Filled-drop_postings key us (drop_posting key u p) (Filled-drop_posting key u p f)

  -- Every term has each key once.
  abbrev pub EachOnce : Dict K (Dict ℕ ℕ) → Type 0
  EachOnce p = (t : K) → Once (or_empty (get p t))

  EachOnce-insert :
      (p : Dict K (Dict ℕ ℕ)) (u : K) (d : Dict ℕ ℕ) → EachOnce p → Once d → EachOnce (insert p u d)
  EachOnce-insert p u d f h t = elim (Bool-cases (u == t)) [
    | inl y ↦ rw (get-insert p u t d, y) h
    | inr y ↦ rw (get-insert p u t d, y) (f t)
  ]

  EachOnce-remove : (p : Dict K (Dict ℕ ℕ)) (u : K) → EachOnce p → EachOnce (remove p u)
  EachOnce-remove p u f t = elim (Bool-cases (u == t)) [
    | inl y ↦ rw (get-remove p u t, y) tt
    | inr y ↦ rw (get-remove p u t, y) (f t)
  ]

  pub EachOnce-add_postings :
      (key : ℕ) (tf : Dict K ℕ) (p : Dict K (Dict ℕ ℕ))
      → EachOnce p
      → EachOnce (add_postings key tf p)
  unfolding add_postings
  EachOnce-add_postings key [] p f = f
  EachOnce-add_postings key ((u, c) ∷ tf) p f =
      EachOnce-add_postings key tf (insert p u (insert (or_empty (get p u)) key c)) (
        EachOnce-insert p u (insert (or_empty (get p u)) key c) f
          (Once-insert (or_empty (get p u)) key c (f u)))

  EachOnce-drop_posting :
      (key : ℕ) (u : K) (p : Dict K (Dict ℕ ℕ)) → EachOnce p → EachOnce (drop_posting key u p)
  unfolding drop_posting
  EachOnce-drop_posting key u p f t = elim (Option-cases (get p u)) [
    | inl absent ↦ rw (absent, drop_posting) (f t)
    | inr (q, here) ↦
        let once : Once q = subst (λ (o : Option (Dict ℕ ℕ)). Once (or_empty o)) here (f u) in
        elim (Bool-cases (no_postings (remove q key))) [
          | inl last ↦ rw (here, drop_posting, last) (EachOnce-remove p u f t)
          | inr more ↦
              rw (here, drop_posting, more)
                (EachOnce-insert p u (remove q key) f (Once-remove q key once) t)
        ]
  ]

  pub EachOnce-drop_postings :
      (key : ℕ) (ts : List K) (p : Dict K (Dict ℕ ℕ))
      → EachOnce p
      → EachOnce (drop_postings key ts p)
  unfolding drop_postings
  EachOnce-drop_postings key [] p f = f
  EachOnce-drop_postings key (u ∷ us) p f =
      EachOnce-drop_postings key us (drop_posting key u p) (EachOnce-drop_posting key u p f)
