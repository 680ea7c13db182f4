-- ===== src/Index/Beam.antt =====
-- src/annex/index/hnsw.py: the walks on one layer of the graph, `_greedy_descend` and `_search_layer`.
-- A layer is the dict of its adjacency lists. `dist` gives the distance of a key from the query. The
-- counter `_distance_calls`, which only `stats` shows, is left out.
use python_pj.Prelude.{
  ℕ, zero, suc, ◌+◌, ◌-◌, Bool, false, not, ◌&&◌, Option, none, some, List, [], ◌∷◌, ◌++◌,
  if◌then◌else◌, ltb, leb, nat_eq, contains, keep, length, drop, map,
}
use python_pj.Prelude.Dict.{Dict, get}
use python_pj.Index.Heap.{push, sort, nearer, farther}

abbrev pub Layer : Type 0
Layer = Dict ℕ (List ℕ)

abbrev pub or_nil : {A : Type 0} → Option (List A) → List A
or_nil none = []
or_nil (some xs) = xs

-- `layer.get(node)`, where an empty list and none are the same to the source
abbrev pub links_of : Layer → ℕ → List ℕ
links_of layer node = or_nil (get layer node)

-- `[n for n in nbs if n not in visited]`
abbrev pub fresh_of : Layer → ℕ → List ℕ → List ℕ
fresh_of layer node visited = keep (λ n. not (contains n visited)) (links_of layer node)

-- the links of a layer, all lists together
unfoldable pub link_count : Layer → ℕ
link_count [] = 0
link_count ((k, nbs) ∷ layer) = length nbs + link_count layer

module _ {R : Type 0} (less : R → R → Bool) (dist : ℕ → R) where
  -- `keys[np.argmin(dists)]`, the first of the least
  unfoldable pub closest : ℕ → List ℕ → ℕ
  closest best [] = best
  closest best (k ∷ ks) = closest (if less (dist k) (dist best) then k else best) ks

  -- the loop of `_greedy_descend`, at a node and its distance
  unfoldable pub descend : Layer → ℕ → R × ℕ → R × ℕ
  unfolding closest
  descend layer zero ep = ep
  descend layer (suc fuel) ep = elim (links_of layer ep.1) [
    | [] ↦ ep
    | k ∷ ks ↦
        let next = closest k ks in
        let rest = descend layer fuel (dist next, next) in
        if less (dist next) ep.0 then rest else ep
  ]

  -- A round that goes on leaves a node that has links for one that is nearer.
  unfoldable pub greedy_descend : Layer → R × ℕ → R × ℕ
  unfolding descend
  greedy_descend layer ep = descend layer (length layer) ep

-- `candidates` and `results`
pub record Frontier (R : Type 0) : Type 0 where
  pub candidates : List (R × ℕ)
  pub results : List (R × ℕ)

module _ {R : Type 0} (less : R → R → Bool) (dist : ℕ → R) (accept : ℕ → Bool) (ef : ℕ) where
  -- `len(results) >= ef and d > -results[0][0]`, false without results
  abbrev pub beyond : R → List (R × ℕ) → Bool
  beyond d [] = false
  beyond d (w ∷ ws) = leb ef (length (w ∷ ws)) && less w.0 d

  -- `len(results) >= ef and d >= worst`, where worst is infinite without results
  abbrev pub no_better : R → List (R × ℕ) → Bool
  no_better d [] = false
  no_better d (w ∷ ws) = leb ef (length (w ∷ ws)) && not (less d w.0)

  -- push, and pop if there are more than `ef`
  unfoldable pub keep_result : R × ℕ → List (R × ℕ) → List (R × ℕ)
  unfolding push
  keep_result x results =
      let grown = push (farther less) x results in
      if ltb ef (length grown) then drop 1 grown else grown

  -- one round of the loop over the fresh keys; `worst` is read off the results
  unfoldable pub consider : ℕ → Frontier R → Frontier R
  unfolding push keep_result
  consider k f = if no_better (dist k) f.results then f else record {
    candidates = push (nearer less) (dist k, k) f.candidates;
    results = if accept k then keep_result (dist k, k) f.results else f.results;
  }

  unfoldable pub expand : List ℕ → Frontier R → Frontier R
  unfolding consider
  expand [] f = f
  expand (k ∷ ks) f = expand ks (consider k f)

  -- the loop `while candidates`; without fresh keys a round only takes its candidate off
  unfoldable pub walk : Layer → ℕ → List ℕ → List (R × ℕ) → List (R × ℕ) → List (R × ℕ)
  unfolding expand contains
  walk layer zero visited candidates results = results
  walk layer (suc fuel) visited [] results = results
  walk layer (suc fuel) visited (c ∷ candidates) results =
      let fresh = fresh_of layer c.1 visited in
      let f = expand fresh (record { candidates = candidates; results = results }) in
      let rest = walk layer fuel (fresh ++ visited) f.candidates f.results in
      if beyond c.0 results then results else rest

  -- the entry points that may be results
  unfoldable pub accepted : List (R × ℕ) → List (R × ℕ)
  unfolding push
  accepted [] = []
  accepted (x ∷ xs) = if accept x.1 then push (farther less) x (accepted xs) else accepted xs

  unfoldable pub start_results : List (R × ℕ) → List (R × ℕ)
  unfolding accepted
  start_results entries = drop (length (accepted entries) - ef) (accepted entries)

  -- Every round takes a candidate off, and there are no more candidates than entry points and links.
  unfoldable pub search_layer : Layer → List (R × ℕ) → List (R × ℕ)
  unfolding walk sort start_results link_count
  search_layer layer entries =
      walk layer (length entries + link_count layer) (map (λ x. x.1) entries)
        (sort (nearer less) entries) (start_results entries)
