-- ===== src/Tests/Index.antt =====
-- src/annex/index/hnsw.py: an index of numbers on a line, and a layer with three nodes in a row.
use python_pj.Prelude.{
  ℕ, ◌+◌, ◌-◌, ◌≡◌, refl, inl, inr, true, false, ◌||◌, Option, none, some, List, [], ◌∷◌, ltb,
  arith, nat_eq,
}
use python_pj.Prelude.Dict.{Dict, get, insert}
use python_pj.Prelude.Members.{In, Distinct}
use python_pj.Settings.{HnswConfig}
use python_pj.Index.Heap.{sort, nearer}
use python_pj.Index.Beam.{Layer, link_count, start_results, search_layer, greedy_descend}
use python_pj.Index.Hnsw.{Space, HnswIndex, new_hnsw, add, remove_key, search}
use python_pj.Index.Sorted.{nodes}
use python_pj.Index.Rounds.{Ends, search_layer-Ends}
use python_pj.Index.Descent.{IsLocalMinimum, greedy_descend-IsLocalMinimum}
use python_pj.Index.Found.{Simple, AreFound, search_layer-AreFound}
use python_pj.Index.Reach.{Linked, itself, onward, search_layer-complete}
use python_pj.Index.Sound.{IsSound}
use python_pj.Index.Adding.{add-IsSound, new_hnsw-IsSound}
use python_pj.Index.Search.{AreHits, search-AreHits}

abbrev pub place : Option ℕ → ℕ
place none = 0
place (some n) = n

abbrev pub apart : ℕ → ℕ → ℕ
apart a b = (a - b) + (b - a)

-- points of a line
abbrev pub line : Space (Dict ℕ ℕ) ℕ ℕ
line = record {
  store = λ k v s. insert s k v;
  distance = λ s q k. apart q (place (get s k));
  distance_between = λ s j k. apart (place (get s j)) (place (get s k));
  exact_distance = λ s q k. apart q (place (get s k));
  quantised = false;
  trained = λ s. false;
}

abbrev pub narrow : HnswConfig ℕ
narrow = record { m = 2; ef_construction = 4; ef_search = 4; level_multiplier = none; seed = 42 }

abbrev pub one_point : HnswIndex (Dict ℕ ℕ)
one_point = add ltb line narrow 0 10 1 (new_hnsw [])

abbrev pub two_points : HnswIndex (Dict ℕ ℕ)
two_points = add ltb line narrow 1 14 0 one_point

one_point-IsSound : IsSound narrow one_point
one_point-IsSound = add-IsSound ltb line narrow 0 10 1 (new_hnsw []) (new_hnsw-IsSound narrow [])

add-IsSound_example : IsSound narrow two_points
add-IsSound_example = add-IsSound ltb line narrow 1 14 0 one_point one_point-IsSound

pub two_points-IsSound : IsSound narrow two_points
two_points-IsSound = add-IsSound ltb line narrow 1 14 0 one_point one_point-IsSound

one_removed : remove_key 0 one_point ≡ some (record one_point { deleted = 0 ∷ [] })
unfolding remove_key add new_hnsw get insert
one_removed = refl

pub ltb-asymmetric : (a b : ℕ) → ltb a b ≡ true → ltb b a ≡ false
ltb-asymmetric a b h = ground (arith, h)

ltb-irreflexive : (a : ℕ) → ltb a a ≡ false
ltb-irreflexive a = ground arith

ltb-transitive : (a b c : ℕ) → ltb a b ≡ true → ltb b c ≡ true → ltb a c ≡ true
ltb-transitive a b c h k = ground (arith, h, k)

ltb-comparable : (a b c : ℕ) → ltb a c ≡ true → (ltb a b || ltb b c) ≡ true
ltb-comparable a b c h = ground (arith, h)

search-AreHits_example :
    AreHits ltb line narrow ltb-asymmetric 12 2
      (λ k. true)
      two_points
      (search ltb line narrow 8 12 2 none (λ k. true) two_points)
search-AreHits_example =
    search-AreHits ltb line narrow ltb-asymmetric 8 12 2 none (λ k. true) two_points
      two_points-IsSound

-- both points are found, the nearer one first
two_found : search ltb line narrow 8 13 2 none (λ k. true) two_points ≡ (1, 1) ∷ (0, 3) ∷ []
unfolding search add new_hnsw get insert
two_found = refl

abbrev row : Layer
row = (0, 1 ∷ []) ∷ (1, 0 ∷ 2 ∷ []) ∷ (2, 1 ∷ []) ∷ []

abbrev from_eight : ℕ → ℕ
from_eight k = apart 8 k

greedy_descend-IsLocalMinimum_example :
    IsLocalMinimum ltb from_eight ltb-irreflexive ltb-transitive ltb-comparable row 0
      (greedy_descend ltb from_eight row (8, 0))
greedy_descend-IsLocalMinimum_example =
    greedy_descend-IsLocalMinimum ltb from_eight ltb-irreflexive ltb-transitive ltb-comparable row 0

row-Simple : Simple row
row-Simple = (
  ((λ i. i), tt),
  (((λ i. elim i [ inl e ↦ omega (arith, e) | inr n ↦ n ]), ((λ i. i), tt)), (((λ i. i), tt), tt)),
)

search_layer-AreFound_example :
    AreFound ltb from_eight
      (λ k. true)
      2
      (search_layer ltb from_eight (λ k. true) 2 row ((8, 0) ∷ []))
search_layer-AreFound_example =
    search_layer-AreFound ltb from_eight (λ k. true) 2 row ((8, 0) ∷ []) row-Simple ((λ i. i), tt)
      (refl, tt)

row_path : Linked row 0 2
unfolding get
row_path = onward (onward itself (inl refl)) (inr (inl refl))

search_layer-complete_example :
    In 2 (nodes (search_layer ltb from_eight (λ k. true) 6 row ((8, 0) ∷ [])))
unfolding link_count
search_layer-complete_example =
    search_layer-complete ltb from_eight (λ k. true) 6 row ((8, 0) ∷ []) 0 2 (omega arith)
      (inl refl) row_path refl

search_layer-Ends_example :
    Ends ltb from_eight
      (λ k. true)
      2
      row
      (0 ∷ [])
      (sort (nearer ltb) ((8, 0) ∷ []))
      (start_results ltb from_eight (λ k. true) 2 ((8, 0) ∷ []))
      (search_layer ltb from_eight (λ k. true) 2 row ((8, 0) ∷ []))
search_layer-Ends_example = search_layer-Ends ltb from_eight (λ k. true) 2 row ((8, 0) ∷ [])

abbrev three_keys : List ℕ
three_keys = 2 ∷ 3 ∷ 5 ∷ []

three_keys-Distinct : Distinct three_keys
three_keys-Distinct = (
  (λ i. elim i [
    | inl e ↦ omega (arith, e)
    | inr r ↦ elim r [ inl e ↦ omega (arith, e) | inr n ↦ n ]
  ]),
  ((λ i. elim i [ inl e ↦ omega (arith, e) | inr n ↦ n ]), ((λ i. i), tt)),
)

abbrev measured_keys : List (ℕ × ℕ)
measured_keys = (1, 2) ∷ (0, 3) ∷ (2, 5) ∷ []
