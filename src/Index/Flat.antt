-- ===== src/Index/Flat.antt =====
-- src/annex/index/flat.py, and `_exact_search` of src/annex/db.py, which scans in the same way. `arrange n
-- rows` are the rows, distances with their keys, in the order that `np.argpartition` at n gives their
-- distances.
use python_pj.Prelude.{
  ℕ, ◌-◌, Bool, not, List, [], ◌∷◌, if◌then◌else◌, leb, eqb, nat_eq, contains, keep, length, take,
  map, min,
}
use python_pj.Index.Heap.{sort}
use python_pj.Index.Hnsw.{Space}

pub record FlatIndex (S : Type 0) : Type 0 where
  pub space : S
  pub live : List ℕ

module _ {R : Type 0} (less : R → R → Bool) (arrange : ℕ → List (R × ℕ) → List (R × ℕ)) where
  -- `np.argsort(…, kind="stable")`
  abbrev pub not_after : R × ℕ → R × ℕ → Bool
  not_after x y = not (less y.0 x.0)

  abbrev pub rows_of : (ℕ → R) → List ℕ → List (R × ℕ)
  rows_of dist keys = map (λ k. (dist k, k)) keys

  -- the nearest of some keys
  unfoldable pub exact_scan : (ℕ → R) → ℕ → List ℕ → List (R × ℕ)
  unfolding sort
  exact_scan dist k [] = []
  exact_scan dist k (x ∷ xs) =
      let rows = rows_of dist (x ∷ xs) in
      let kk = min k (length rows) in sort not_after (take kk (arrange (kk - 1) rows))

module _ {S V R : Type 0} (less : R → R → Bool) (arrange : ℕ → List (R × ℕ) → List (R × ℕ))
    (sp : Space S V R) where
  unfoldable pub add_flat : ℕ → V → FlatIndex S → FlatIndex S
  add_flat key vector f = record {
    space = sp.store key vector f.space;
    live = if contains key f.live then f.live else key ∷ f.live;
  }

  -- `discard`
  unfoldable pub remove_flat : ℕ → FlatIndex S → FlatIndex S
  remove_flat key f = record f { live = keep (λ k. not (eqb k key)) f.live }

  -- the distances that the scan reads: exact ones on a trained PQSpace
  abbrev pub scanned_distance : FlatIndex S → V → ℕ → R
  scanned_distance f query =
      if sp.trained f.space then sp.exact_distance f.space query else sp.distance f.space query

  -- `allow` is true everywhere when the caller gives none.
  unfoldable pub search_flat : V → ℕ → (ℕ → Bool) → FlatIndex S → List (R × ℕ)
  unfolding exact_scan
  search_flat query k allow f =
      if eqb k 0
      then []
      else exact_scan less arrange (scanned_distance f query) k (keep allow (sort leb f.live))
