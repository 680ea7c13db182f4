-- ===== src/Ranking/Hits.antt =====
-- src/annex/text/bm25.py: which documents a search finds, and in which order.
use python_pj.Prelude.{
  ℕ, zero, suc, ◌≡◌, refl, ap, ◌∙◌, inl, inr, Bool, true, false, ◌&&◌, ◌||◌, Option, none, some,
  List, [], ◌∷◌, if◌then◌else◌, eqb_iff, nat_eq, Eq, ◌==◌, is_some, arith, Bool-cases, length, take,
}
use python_pj.Prelude.Dict.{Dict, get, insert, get-insert}
use python_pj.Prelude.Once.{Once, Once-insert}
use python_pj.Text.{Bm25Index, or_empty}
use python_pj.Ranking.{
  Floats, ahead, insert_hit, rank_hits, score_postings, score_terms, postings_or, idf,
}

inserted-found :
    {R : Type 0} (a : Bool) (scores : Dict ℕ R) (key j : ℕ) (v : R)
    → is_some (get (if a then insert scores key v else scores) j)
      ≡ (is_some (get scores j) || ((key == j) && a))
inserted-found true scores key j v = rw (get-insert scores key j v) (ground arith)
inserted-found false scores key j v = ground arith

postings_or-or_empty : (o : Option (Dict ℕ ℕ)) → postings_or o ≡ or_empty o
postings_or-or_empty none = refl
postings_or-or_empty (some d) = refl

module _ {K R : Type 0} ⦃e : Eq K⦄ (fl : Floats R) (b : Bm25Index K) (k1 b_weight : R)
    (allow : ℕ → Bool) where
  score_postings-found :
      (weight : R) (ps : Dict ℕ ℕ) (scores : Dict ℕ R) (j : ℕ)
      → is_some (get (score_postings fl b k1 b_weight allow weight ps scores) j)
        ≡ (is_some (get scores j) || (is_some (get ps j) && allow j))
  unfolding score_postings get
  score_postings-found weight [] scores j = ground arith
  score_postings-found weight ((key, tf) ∷ ps) scores j =
      score_postings-found weight ps _ j
      ∙ ap (λ (o : Bool). o || (is_some (get ps j) && allow j))
          (inserted-found (allow key) scores key j _)
      ∙ elim (Bool-cases (key == j)) [
        | inl y ↦
            let same : allow key ≡ allow j = ap allow ((eqb_iff key j).0 y) in
            ground (arith, y, same)
        | inr y ↦ ground (arith, y)
      ]

  score_postings-Once :
      (weight : R) (ps : Dict ℕ ℕ) (scores : Dict ℕ R)
      → Once scores
      → Once (score_postings fl b k1 b_weight allow weight ps scores)
  unfolding score_postings
  score_postings-Once weight [] scores o = o
  score_postings-Once weight ((key, tf) ∷ ps) scores o =
      score_postings-Once weight ps _ (elim (Bool-cases (allow key)) [
        | inl a ↦ rw a (Once-insert scores key _ o)
        | inr a ↦ rw a o
      ])

  -- A document is looked for: some term is posted for it.
  abbrev pub posted_any : List K → ℕ → Bool
  posted_any [] j = false
  posted_any (t ∷ ts) j = is_some (get (or_empty (get b.postings t)) j) || posted_any ts j

  pub score_terms-found :
      (ts : List K) (scores : Dict ℕ R) (j : ℕ)
      → is_some (get (score_terms fl b k1 b_weight allow ts scores) j)
        ≡ (is_some (get scores j) || (posted_any ts j && allow j))
  unfolding score_terms
  score_terms-found [] scores j = ground arith
  score_terms-found (t ∷ ts) scores j =
      score_terms-found ts _ j
      ∙ ap (λ (o : Bool). o || (posted_any ts j && allow j))
          (score_postings-found (idf fl b t) (postings_or (get b.postings t)) scores j)
      ∙ ap
          (λ (d : Dict ℕ ℕ).
            (is_some (get scores j) || (is_some (get d j) && allow j))
            || (posted_any ts j && allow j))
          (postings_or-or_empty (get b.postings t))
      ∙ ground arith

  pub score_terms-Once :
      (ts : List K) (scores : Dict ℕ R)
      → Once scores
      → Once (score_terms fl b k1 b_weight allow ts scores)
  unfolding score_terms
  score_terms-Once [] scores o = o
  score_terms-Once (t ∷ ts) scores o =
      score_terms-Once ts _
        (score_postings-Once (idf fl b t) (postings_or (get b.postings t)) scores o)

  -- Ranking keeps what was scored.
  insert_hit-found :
      (x : ℕ × R) (ys : List (ℕ × R)) (j : ℕ)
      → get ys x.0 ≡ none
      → get (insert_hit fl b k1 b_weight allow x ys) j ≡ (if x.0 == j then some x.1 else get ys j)
  unfolding insert_hit get
  insert_hit-found x [] j h = refl
  insert_hit-found x (y ∷ ys) j h = elim (Bool-cases (ahead fl b k1 b_weight allow x y)) [
    | inl f ↦ rw f refl
    | inr f ↦
        let new : get ys x.0 ≡ none = ground (arith, h) in
        rw f (ground (arith, h, insert_hit-found x ys j new))
  ]

  insert_hit-Once :
      (x : ℕ × R) (ys : List (ℕ × R))
      → get ys x.0 ≡ none
      → Once ys
      → Once (insert_hit fl b k1 b_weight allow x ys)
  unfolding insert_hit get
  insert_hit-Once x [] h o = (refl, tt)
  insert_hit-Once x (y ∷ ys) h o = elim (Bool-cases (ahead fl b k1 b_weight allow x y)) [
    | inl f ↦ rw f (h, o)
    | inr f ↦
        let new : get ys x.0 ≡ none = ground (arith, h) in
        rw f (ground (arith, h, o.0, insert_hit-found x ys y.0 new), insert_hit-Once x ys new o.1)
  ]

  length-insert_hit :
      (x : ℕ × R) (ys : List (ℕ × R))
      → length (insert_hit fl b k1 b_weight allow x ys) ≡ suc (length ys)
  unfolding insert_hit
  length-insert_hit x [] = refl
  length-insert_hit x (y ∷ ys) = ground (arith, length-insert_hit x ys)

  pub rank_hits-found :
      (xs : List (ℕ × R))
      → Once xs
      → ((j : ℕ) → get (rank_hits fl b k1 b_weight allow xs) j ≡ get xs j)
        × Once (rank_hits fl b k1 b_weight allow xs)
        × (length (rank_hits fl b k1 b_weight allow xs) ≡ length xs)
  unfolding rank_hits get
  rank_hits-found [] o = ((λ j. refl), tt, refl)
  rank_hits-found (x ∷ xs) o =
      let (same, once, size) = rank_hits-found xs o.1 in
      let new : get (rank_hits fl b k1 b_weight allow xs) x.0 ≡ none = same x.0 ∙ o.0 in
      (
        (λ j.
            insert_hit-found x (rank_hits fl b k1 b_weight allow xs) j new
            ∙ ap (λ (q : Option R). if x.0 == j then some x.1 else q) (same j)),
        insert_hit-Once x (rank_hits fl b k1 b_weight allow xs) new once,
        length-insert_hit x (rank_hits fl b k1 b_weight allow xs) ∙ ap suc size,
      )

  -- No hit is ahead of the one before it.
  abbrev pub Behind : ℕ × R → List (ℕ × R) → Type 0
  Behind x [] = Unit
  Behind x (y ∷ ys) = ahead fl b k1 b_weight allow y x ≡ false

  abbrev pub Ordered : List (ℕ × R) → Type 0
  Ordered [] = Unit
  Ordered (x ∷ xs) = Behind x xs × Ordered xs

  module _ (asymmetric : (x y : R) → fl.less x y ≡ true → fl.less y x ≡ false) where
    ahead-asymmetric :
        (x y : ℕ × R)
        → ahead fl b k1 b_weight allow x y ≡ true
        → ahead fl b k1 b_weight allow y x ≡ false
    ahead-asymmetric x y h = elim (Bool-cases (fl.less y.1 x.1)) [
      | inl t ↦ let f = asymmetric y.1 x.1 t in ground (arith, t, f)
      | inr t ↦ ground (arith, t, h)
    ]

    insert_hit-Ordered :
        (x : ℕ × R) (ys : List (ℕ × R))
        → Ordered ys
        → Ordered (insert_hit fl b k1 b_weight allow x ys)
          × ((z : ℕ × R)
              → ahead fl b k1 b_weight allow x z ≡ false
              → Behind z ys
              → Behind z (insert_hit fl b k1 b_weight allow x ys))
    unfolding insert_hit
    insert_hit-Ordered x [] o = ((tt, tt), λ z h k. h)
    insert_hit-Ordered x (y ∷ ys) o = elim (Bool-cases (ahead fl b k1 b_weight allow x y)) [
      | inl f ↦ rw f ((ahead-asymmetric x y f, o), λ z h k. h)
      | inr f ↦ let ih = insert_hit-Ordered x ys o.1 in rw f ((ih.1 y f o.0, ih.0), λ z h k. k)
    ]

    pub rank_hits-Ordered : (xs : List (ℕ × R)) → Ordered (rank_hits fl b k1 b_weight allow xs)
    unfolding rank_hits
    rank_hits-Ordered [] = tt
    rank_hits-Ordered (x ∷ xs) =
        (insert_hit-Ordered x (rank_hits fl b k1 b_weight allow xs) (rank_hits-Ordered xs)).0

  pub take-Ordered : (k : ℕ) (xs : List (ℕ × R)) → Ordered xs → Ordered (take k xs)
  take-Ordered zero xs o = tt
  take-Ordered (suc k) [] o = tt
  take-Ordered (suc zero) (x ∷ xs) o = (tt, tt)
  take-Ordered (suc (suc k)) (x ∷ []) o = o
  take-Ordered (suc (suc k)) (x ∷ y ∷ ys) o = (o.0, take-Ordered (suc k) (y ∷ ys) o.1)
