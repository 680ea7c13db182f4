-- ===== src/Ranking/Search.antt =====
-- src/annex/text/bm25.py: `search`, over an index that holds some documents.
use python_pj.Prelude.{
  ℕ, zero, suc, ◌≤◌, ◌≡◌, refl, sym, ap, ◌∙◌, inl, inr, Bool, true, false, ◌&&◌, ◌||◌, none, List,
  [], ◌∷◌, eqb, eqb_iff, nat_eq, Eq, is_some, arith, Bool-cases, length, length-take, take, keep,
}
use python_pj.Prelude.Dict.{Dict, get, keys}
use python_pj.Prelude.Once.{Once, length-keys}
use python_pj.Text.{Bm25Index, num_docs}
use python_pj.Text.Documents.{Docs, Represents, tally, length_of, length_of-tally}
use python_pj.Ranking.{Floats, rank_hits, score_terms, search_terms}
use python_pj.Ranking.Hits.{
  posted_any, score_terms-found, score_terms-Once, rank_hits-found, Ordered, rank_hits-Ordered,
  take-Ordered,
}

below : {n : ℕ} → suc n ≤ 0 → ⊥
below h = omega (arith, h)

empty_get : (d : Dict ℕ ℕ) (j : ℕ) → length d ≡ 0 → is_some (get d j) ≡ false
unfolding get
empty_get [] j h = refl
empty_get (x ∷ d) j h = let more : suc (length d) ≤ 0 = omega (arith, h) in absurd (below more)

-- A document has one of the terms.
abbrev pub wanted : {K : Type 0} ⦃e : Eq K⦄ → Docs K → List K → ℕ → Bool
wanted docs [] j = false
wanted docs (t ∷ ts) j = is_some (tally t (docs j)) || wanted docs ts j

get-take :
    {R : Type 0} (k : ℕ) (xs : Dict ℕ R) (j : ℕ)
    → is_some (get (take k xs) j) ≡ true
    → is_some (get xs j) ≡ true
unfolding get
get-take zero xs j h = ground (arith, h)
get-take (suc k) [] j h = h
get-take (suc k) (x ∷ xs) j h = ground (arith, h, get-take k xs j)

get-take_absent :
    {R : Type 0} (k : ℕ) (xs : Dict ℕ R) (j : ℕ) → get xs j ≡ none → get (take k xs) j ≡ none
unfolding get
get-take_absent zero xs j h = refl
get-take_absent (suc k) [] j h = refl
get-take_absent (suc k) (x ∷ xs) j h = ground (arith, h, get-take_absent k xs j)

take-Once : {R : Type 0} (k : ℕ) (xs : Dict ℕ R) → Once xs → Once (take k xs)
take-Once zero xs o = tt
take-Once (suc k) [] o = tt
take-Once (suc k) (x ∷ xs) o = (get-take_absent k xs x.0 o.0, take-Once k xs o.1)

take_whole : {A : Type 0} (k : ℕ) (xs : List A) → length xs ≤ k → take k xs ≡ xs
take_whole zero [] h = refl
take_whole zero (x ∷ xs) h = absurd (below h)
take_whole (suc k) [] h = refl
take_whole (suc k) (x ∷ xs) h = ap (λ ys. x ∷ ys) (take_whole k xs (omega (arith, h)))

length-keep-keys : {V : Type 0} (d : Dict ℕ V) (q : ℕ → Bool) → length (keep q (keys d)) ≤ length d
length-keep-keys [] q = omega arith
length-keep-keys ((k, v) ∷ d) q = elim (Bool-cases (q k)) [
  | inl y ↦ rw y (omega (arith, length-keep-keys d q))
  | inr y ↦ rw y (omega (arith, length-keep-keys d q))
]

module _ {K R : Type 0} ⦃e : Eq K⦄ (fl : Floats R) (b : Bm25Index K) (k1 b_weight : R)
    (allow : ℕ → Bool) where
  -- The hits of a search: no more than asked for, no document twice, in order, and documents that are
  -- allowed and have a term of the query; all of these, if there is room for every document.
  pub record AreHits (docs : Docs K) (k : ℕ) (terms : List K) (hits : List (ℕ × R)) : Type 0 where
    pub at_most : length hits ≤ k
    pub once : Once hits
    pub ordered : Ordered fl b k1 b_weight allow hits
    pub relevant : (j : ℕ) → is_some (get hits j) ≡ true → (wanted docs terms j && allow j) ≡ true
    pub complete :
        num_docs b ≤ k → (j : ℕ) → is_some (get hits j) ≡ (wanted docs terms j && allow j)

  posted-wanted :
      (docs : Docs K) (ts : List K) (j : ℕ)
      → Represents b docs
      → posted_any fl b k1 b_weight allow ts j ≡ wanted docs ts j
  posted-wanted docs [] j r = refl
  posted-wanted docs (t ∷ ts) j r = rw (r.posts t j, posted-wanted docs ts j r) refl

  wanted-held :
      (docs : Docs K) (ts : List K) (j : ℕ)
      → wanted docs ts j ≡ (is_some (length_of (docs j)) && wanted docs ts j)
  wanted-held docs [] j = ground arith
  wanted-held docs (t ∷ ts) j = ground (arith, length_of-tally t (docs j), wanted-held docs ts j)

  nothing-AreHits :
      (docs : Docs K) (k : ℕ) (terms : List K)
      → ((j : ℕ) → (wanted docs terms j && allow j) ≡ false)
      → AreHits docs k terms []
  unfolding get
  nothing-AreHits docs k terms h = record {
    at_most = omega arith;
    once = tt;
    ordered = tt;
    relevant = λ j f. cc f;
    complete = λ large j. sym (h j);
  }

  -- Nobody has a term of an empty index.
  empty-wanted :
      (docs : Docs K) (ts : List K) (j : ℕ)
      → Represents b docs
      → length b.doc_len ≡ 0
      → wanted docs ts j ≡ false
  unfolding get
  empty-wanted docs ts j r h =
      let none_held : is_some (length_of (docs j)) ≡ false =
        ap is_some (sym (r.lens j)) ∙ empty_get b.doc_len j h in
      ground (arith, wanted-held docs ts j, none_held)

  -- In an index that holds some documents, and with an asymmetric order of the scores, a search gives no
  -- more hits than asked for, no document twice, each hit not behind the next, only documents that are
  -- allowed and have a term of the query, and all of these when as many hits are asked for as there
  -- are documents.
  pub search_terms-AreHits :
      (docs : Docs K) (k : ℕ) (terms : List K)
      → ((x y : R) → fl.less x y ≡ true → fl.less y x ≡ false)
      → Represents b docs
      → AreHits docs k terms (search_terms fl b k1 b_weight allow k terms)
  unfolding search_terms num_docs get
  search_terms-AreHits docs k [] asymmetric r = nothing-AreHits docs k [] (λ j. refl)
  search_terms-AreHits docs k (t ∷ ts) asymmetric r =
      let some_term : eqb (suc (length ts)) 0 ≡ false = ground arith in
      elim (Bool-cases (eqb (length b.doc_len) 0)) [
        | inl y ↦
            rw (some_term, y)
              (nothing-AreHits docs k (t ∷ ts) (λ j.
                ground
                  (arith, empty-wanted docs (t ∷ ts) j r ((eqb_iff (length b.doc_len) 0).0 y))))
        | inr y ↦
            let scores : Dict ℕ R = score_terms fl b k1 b_weight allow (t ∷ ts) [] in
            let ranked : Dict ℕ R = rank_hits fl b k1 b_weight allow scores in
            let (same, once, size) =
              rank_hits-found fl b k1 b_weight allow scores
                (score_terms-Once fl b k1 b_weight allow (t ∷ ts) [] tt) in
            let found : (j : ℕ) → is_some (get scores j) ≡ (wanted docs (t ∷ ts) j && allow j) =
              λ j.
                score_terms-found fl b k1 b_weight allow (t ∷ ts) [] j
                ∙ ap (λ w. w && allow j) (posted-wanted docs (t ∷ ts) j r) in
            let all : (j : ℕ) → is_some (get ranked j) ≡ (wanted docs (t ∷ ts) j && allow j) =
              λ j. ap is_some (same j) ∙ found j in
            let held : length scores ≤ length b.doc_len =
              let count : length scores
                  ≡ length (keep (λ j. wanted docs (t ∷ ts) j && allow j) (keys b.doc_len)) =
                length-keys b.doc_len scores (λ j. wanted docs (t ∷ ts) j && allow j) r.once
                  (score_terms-Once fl b k1 b_weight allow (t ∷ ts) [] tt)
                  (λ j.
                    let kept : is_some (get b.doc_len j) ≡ is_some (length_of (docs j)) =
                      ap is_some (r.lens j) in
                    ground (arith, found j, kept, wanted-held docs (t ∷ ts) j)) in
              omega (
                arith,
                count,
                length-keep-keys b.doc_len (λ j. wanted docs (t ∷ ts) j && allow j),
              ) in
            rw (some_term, y)
              (record {
                at_most = omega (arith, length-take k ranked);
                once = take-Once k ranked once;
                ordered =
                    take-Ordered fl b k1 b_weight allow k ranked
                      (rank_hits-Ordered fl b k1 b_weight allow asymmetric scores);
                relevant = λ j h. sym (all j) ∙ get-take k ranked j h;
                complete = λ large j.
                    ap (λ (d : Dict ℕ R). is_some (get d j))
                      (take_whole k ranked (omega (arith, large, size, held)))
                    ∙ all j;
              })
      ]
