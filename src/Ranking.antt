-- ===== src/Ranking.antt =====
-- src/annex/query/fusion.py and the scores of src/annex/text/bm25.py, over the operations of Python's
-- floats, which are a parameter.
pub mod Hits
pub mod Search
use python_pj.Prelude.{
  ℕ, zero, suc, Bool, not, ◌&&◌, ◌||◌, Option, none, some, List, [], ◌∷◌, if◌then◌else◌, eqb, ltb,
  length, take, nat_eq, Eq,
}
use python_pj.Prelude.Dict.{Dict, get, insert}
use python_pj.Storage.Lsm.{◌>>=◌}
use python_pj.Text.{Bm25Index, num_docs, doc_frequency}

-- `x < y` is `less x y`, and `half` is 0.5. `/` raises for a divisor that `is_zero` holds of; `over` is its
-- value for the others.
pub record Floats (R : Type 0) : Type 0 where
  pub of_int : ℕ → R
  pub half : R
  pub plus : R → R → R
  pub minus : R → R → R
  pub times : R → R → R
  pub over : R → R → R
  pub is_zero : R → Bool
  pub log : R → R
  pub less : R → R → Bool

module _ {K R : Type 0} (fl : Floats R) where
  -- `sorted(…, key=lambda kv: -kv[1])`, which keeps the order of equal scores
  abbrev pub insert_ranked : K × R → List (K × R) → List (K × R)
  insert_ranked kv [] = kv ∷ []
  insert_ranked kv (x ∷ xs) =
      let rest = insert_ranked kv xs in if fl.less kv.1 x.1 then x ∷ rest else kv ∷ x ∷ xs

  unfoldable pub rank_down : List (K × R) → List (K × R)
  rank_down [] = []
  rank_down (x ∷ xs) = insert_ranked x (rank_down xs)

-- `out[:top_k] if top_k else out`
abbrev pub cut : {A : Type 0} → Option ℕ → List A → List A
cut none xs = xs
cut (some zero) xs = xs
cut (some (suc n)) xs = take (suc n) xs

module _ {R : Type 0} (fl : Floats R) where
  abbrev pub score_or : Option R → R
  score_or none = fl.of_int 0
  score_or (some r) = r

  -- `k_constant + rank + 1.0`
  abbrev pub divisor : R → ℕ → R
  divisor k_constant rank = fl.plus (fl.plus k_constant (fl.of_int rank)) (fl.of_int 1)

  -- `[1.0] * n`
  abbrev ones : {A : Type 0} → List A → List R
  ones [] = []
  ones (x ∷ xs) = fl.of_int 1 ∷ ones xs

  -- `weights or [1.0] * len(rankings)`
  abbrev pub weights_or : {A : Type 0} → List R → List A → List R
  weights_or [] rs = ones rs
  weights_or (w ∷ ws) rs = w ∷ ws

module _ {K R : Type 0} ⦃e : Eq K⦄ (fl : Floats R) where
  -- The scores of one ranking, from a rank on; none when a division is by zero.
  unfoldable pub fuse_ranking : R → R → ℕ → List (K × R) → Dict K R → Option (Dict K R)
  fuse_ranking w k_constant rank [] fused = some fused
  fuse_ranking w k_constant rank ((key, s) ∷ items) fused =
      let d = divisor fl k_constant rank in
      let rest =
        fuse_ranking w k_constant (suc rank) items
          (insert fused key (fl.plus (score_or fl (get fused key)) (fl.over w d))) in
      if fl.is_zero d then none else rest

  -- none when the lengths differ, too
  unfoldable pub fuse_rankings : R → List R → List (List (K × R)) → Dict K R → Option (Dict K R)
  unfolding fuse_ranking
  fuse_rankings k_constant [] [] fused = some fused
  fuse_rankings k_constant (w ∷ ws) (r ∷ rs) fused =
      fuse_ranking w k_constant 0 r fused >>= fuse_rankings k_constant ws rs
  fuse_rankings k_constant [] (r ∷ rs) fused = none
  fuse_rankings k_constant (w ∷ ws) [] fused = none

  unfoldable pub reciprocal_rank_fusion :
      List R → R → Option ℕ → List (List (K × R)) → Option (List (K × R))
  unfolding fuse_rankings rank_down
  reciprocal_rank_fusion weights k_constant top_k rankings = do
    fused ← fuse_rankings k_constant (weights_or fl weights rankings) rankings []
    some (cut top_k (rank_down fl fused))

module _ {K R : Type 0} ⦃e : Eq K⦄ (fl : Floats R) (b : Bm25Index K) where
  -- `avg_doc_len`
  unfoldable pub avg_doc_len : R
  unfolding num_docs
  avg_doc_len =
      if eqb (num_docs b) 0
      then fl.of_int 0
      else fl.over (fl.of_int b.total_len) (fl.of_int (num_docs b))

  unfoldable pub idf : K → R
  unfolding doc_frequency num_docs
  idf term =
      let df = doc_frequency term b in
      if eqb df 0
      then fl.of_int 0
      else fl.log (
          fl.plus (fl.of_int 1) (
            fl.over (fl.plus (fl.minus (fl.of_int (num_docs b)) (fl.of_int df)) fl.half)
              (fl.plus (fl.of_int df) fl.half)))

abbrev pub length_or : Option ℕ → ℕ
length_or none = 0
length_or (some n) = n

abbrev pub postings_or : Option (Dict ℕ ℕ) → Dict ℕ ℕ
postings_or none = []
postings_or (some ps) = ps

-- `k1` and `b_weight` are the index's k1 and b, `allow` is true everywhere when the caller gives none.
module _ {K R : Type 0} ⦃e : Eq K⦄ (fl : Floats R) (b : Bm25Index K) (k1 b_weight : R)
    (allow : ℕ → Bool) where
  -- `self.avg_doc_len or 1.0`
  unfoldable pub usual_len : R
  unfolding avg_doc_len
  usual_len = if eqb b.total_len 0 then fl.of_int 1 else avg_doc_len fl b

  -- what the postings of one term add to the scores
  unfoldable pub score_postings : R → Dict ℕ ℕ → Dict ℕ R → Dict ℕ R
  unfolding usual_len
  score_postings weight [] scores = scores
  score_postings weight ((key, tf) ∷ ps) scores =
      let dl = length_or (get b.doc_len key) in
      let ratio = fl.over (fl.times b_weight (fl.of_int dl)) usual_len in
      let denom =
        fl.plus (fl.of_int tf) (fl.times k1 (fl.plus (fl.minus (fl.of_int 1) b_weight) ratio)) in
      let gain =
        fl.over (fl.times weight (fl.times (fl.of_int tf) (fl.plus k1 (fl.of_int 1)))) denom in
      score_postings weight ps (
        if allow key
        then insert scores key (fl.plus (score_or fl (get scores key)) gain)
        else scores)

  unfoldable pub score_terms : List K → Dict ℕ R → Dict ℕ R
  unfolding idf score_postings
  score_terms [] scores = scores
  score_terms (t ∷ ts) scores =
      score_terms ts (score_postings (idf fl b t) (postings_or (get b.postings t)) scores)

  -- the highest score first, and the lowest key among equal scores
  abbrev pub ahead : ℕ × R → ℕ × R → Bool
  ahead x y = fl.less y.1 x.1 || (not (fl.less x.1 y.1) && ltb x.0 y.0)

  unfoldable pub insert_hit : ℕ × R → List (ℕ × R) → List (ℕ × R)
  insert_hit x [] = x ∷ []
  insert_hit x (y ∷ ys) = let rest = insert_hit x ys in if ahead x y then x ∷ y ∷ ys else y ∷ rest

  unfoldable pub rank_hits : List (ℕ × R) → List (ℕ × R)
  unfolding insert_hit
  rank_hits [] = []
  rank_hits (x ∷ xs) = insert_hit x (rank_hits xs)

  -- `search`, of a query that is already terms
  unfoldable pub search_terms : ℕ → List K → List (ℕ × R)
  unfolding score_terms rank_hits num_docs
  search_terms k terms =
      if eqb (length terms) 0 || eqb (num_docs b) 0
      then []
      else take k (rank_hits (score_terms terms []))
