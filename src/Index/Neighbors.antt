-- ===== src/Index/Neighbors.antt =====
-- src/annex/index/hnsw.py: `_select_neighbors`. `between` gives the distance of two stored keys.
use python_pj.Prelude.{
  ℕ, Bool, true, not, ◌&&◌, List, [], ◌∷◌, ◌++◌, if◌then◌else◌, leb, eqb, keep, length, map,
}
use python_pj.Index.Heap.{sort, nearer}

-- the best of the discarded, while there is room
unfoldable pub top_up : ℕ → List ℕ → List ℕ → List ℕ
top_up m selected [] = selected
top_up m selected (cand ∷ discarded) =
    let more = top_up m (selected ++ cand ∷ []) discarded in
    if leb m (length selected) then selected else more

module _ {R : Type 0} (less : R → R → Bool) (between : ℕ → ℕ → R) where
  -- no neighbour chosen so far is closer to the candidate than the base node is
  unfoldable pub diverse : R → ℕ → List ℕ → Bool
  diverse d cand [] = true
  diverse d cand (x ∷ xs) = not (less (between cand x) d) && diverse d cand xs

  -- the loop over the pool: the selected and the discarded
  unfoldable pub choose : ℕ → List (R × ℕ) → List ℕ → List ℕ → List ℕ × List ℕ
  unfolding diverse
  choose m [] selected discarded = (selected, discarded)
  choose m ((d, cand) ∷ pool) selected discarded =
      let taken = choose m pool (selected ++ cand ∷ []) discarded in
      let left = choose m pool selected (discarded ++ cand ∷ []) in
      if leb m (length selected)
      then (selected, discarded)
      else if diverse d cand selected
      then taken
      else left

  unfoldable pub select_neighbors : ℕ → List (R × ℕ) → ℕ → List ℕ
  unfolding choose top_up sort
  select_neighbors base candidates m =
      let pool = sort (nearer less) (keep (λ x. not (eqb x.1 base)) candidates) in
      let (selected, discarded) = choose m pool [] [] in top_up m selected discarded

  -- `[(self._dist_pair(nb, o), o) for o in nb_links]`
  abbrev pub measured : ℕ → List ℕ → List (R × ℕ)
  measured nb links = map (λ o. (between nb o, o)) links
