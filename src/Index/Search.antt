-- ===== src/Index/Search.antt =====
-- src/annex/index/hnsw.py: what `search` returns.
use python_pj.Prelude.{
  ℕ, suc, ◌-◌, ◌*◌, ◌≤◌, ◌≡◌, refl, ap, ◌∙◌, inl, inr, Bool, true, false, not, ◌&&◌, Option, none,
  some, List, [], ◌∷◌, Bool-cases, arith, length, length-take, take, map, max, eqb, nat_eq,
  contains, All, if◌then◌else◌,
}
use python_pj.Prelude.Dict.{keys}
use python_pj.Prelude.Members.{Distinct}
use python_pj.Settings.{HnswConfig}
use python_pj.Index.Heap.{sort, nearer}
use python_pj.Index.Beam.{Layer, search_layer}
use python_pj.Index.Hnsw.{
  Space, HnswIndex, layer_at, zoom, search, search_from, acceptable, by_distance, ef_or, m_at,
}
use python_pj.Index.Sorted.{
  nodes, All-sort, All-take, Distinct-sort, Distinct-take, Ascending, Ascending-sort,
  Ascending-take,
}
use python_pj.Index.Found.{search_layer-AreFound}
use python_pj.Index.Tidy.{IsTidy-Simple}
use python_pj.Index.Levels.{layer_at-IsTidy, zoom-measured}
use python_pj.Index.Sound.{IsSound}

-- What holds of both branches holds of the choice.
if_both :
    {A : Type 0} (P : A → Type 0) (q : Bool) (a b : A)
    → (q ≡ true → P a)
    → (q ≡ false → P b)
    → P (if q then a else b)
if_both P true a b h k = h refl
if_both P false a b h k = k refl

module _ {R : Type 0} where
  abbrev flip : List (R × ℕ) → List (ℕ × R)
  flip xs = map (λ x. (x.1, x.0)) xs

  keys-turned : (xs : List (R × ℕ)) → keys (flip xs) ≡ nodes xs
  keys-turned [] = refl
  keys-turned (x ∷ xs) = ap (◌∷◌ x.1) (keys-turned xs)

  All-turned :
      (P : R × ℕ → Type 0) (xs : List (R × ℕ))
      → All P xs
      → All (λ (y : ℕ × R). P (y.1, y.0)) (flip xs)
  All-turned P [] h = tt
  All-turned P (x ∷ xs) h = (h.0, All-turned P xs h.1)

  length-turned : (xs : List (R × ℕ)) → length (flip xs) ≡ length xs
  length-turned [] = refl
  length-turned (x ∷ xs) = ap suc (length-turned xs)

  Ascending-turned :
      (less : R → R → Bool) (xs : List (R × ℕ))
      → Ascending (λ (x y : R × ℕ). less x.0 y.0) xs
      → Ascending (λ (x y : ℕ × R). less x.1 y.1) (flip xs)
  Ascending-turned less [] a = tt
  Ascending-turned less (x ∷ []) a = a
  Ascending-turned less (x ∷ y ∷ ys) a = (a.0, Ascending-turned less (y ∷ ys) a.1)

  -- the same keys with other distances
  abbrev again : (ℕ → R) → List (R × ℕ) → List (R × ℕ)
  again f xs = map (λ x. (f x.1, x.1)) xs

  nodes-exact : (f : ℕ → R) (xs : List (R × ℕ)) → nodes (again f xs) ≡ nodes xs
  nodes-exact f [] = refl
  nodes-exact f (x ∷ xs) = ap (◌∷◌ x.1) (nodes-exact f xs)

  All-exact :
      (f g : ℕ → R) (P : ℕ → Type 0) (xs : List (R × ℕ))
      → ((j : ℕ) → f j ≡ g j)
      → All (λ (x : R × ℕ). P x.1) xs
      → All (λ (x : R × ℕ). (x.0 ≡ g x.1) × P x.1) (again f xs)
  All-exact f g P [] e h = tt
  All-exact f g P (x ∷ xs) e h = ((e x.1, h.0), All-exact f g P xs e h.1)

  All-both :
      (f g : ℕ → R) (P : ℕ → Type 0) (xs : List (R × ℕ))
      → ((j : ℕ) → f j ≡ g j)
      → All (λ (x : R × ℕ). x.0 ≡ f x.1) xs
      → All (λ (x : R × ℕ). P x.1) xs
      → All (λ (x : R × ℕ). (x.0 ≡ g x.1) × P x.1) xs
  All-both f g P [] e h k = tt
  All-both f g P (x ∷ xs) e h k = ((h.0 ∙ e x.1, k.0), All-both f g P xs e h.1 k.1)

module _ {S V R : Type 0} (less : R → R → Bool) (sp : Space S V R) (c : HnswConfig R)
    (asymmetric : (x y : R) → less x y ≡ true → less y x ≡ false) where
  nearer-before : (x y : R × ℕ) → nearer less x y ≡ true → less y.0 x.0 ≡ false
  nearer-before x y h = elim (Bool-cases (less x.0 y.0)) [
    | inl t ↦ asymmetric x.0 y.0 t
    | inr f ↦ ground (arith, h, f)
  ]

  nearer-after : (x y : R × ℕ) → nearer less x y ≡ false → less x.0 y.0 ≡ false
  nearer-after x y h = ground (arith, h)

  by_distance-before : (x y : R × ℕ) → not (less y.0 x.0) ≡ true → less y.0 x.0 ≡ false
  by_distance-before x y h = ground (arith, h)

  by_distance-after : (x y : R × ℕ) → not (less y.0 x.0) ≡ false → less x.0 y.0 ≡ false
  by_distance-after x y h = asymmetric y.0 x.0 (ground (arith, h))

  -- the distance that the hits carry
  abbrev pub shown : S → V → ℕ → R
  shown space query k =
      if sp.quantised then sp.exact_distance space query k else sp.distance space query k

  -- Hits: no more than asked for, no key twice, none before a nearer one, each with its distance, and
  -- each key not deleted and allowed.
  pub record AreHits (query : V) (k : ℕ) (allow : ℕ → Bool) (h : HnswIndex S) (hits : List (ℕ × R))
      : Type 0 where
    pub at_most : length hits ≤ k
    pub once : Distinct (keys hits)
    pub ordered : Ascending (λ x y. less x.1 y.1) hits
    pub right :
        All
          (λ y.
            (y.1 ≡ shown h.space query y.0) × ((not (contains y.0 h.deleted) && allow y.0) ≡ true))
          hits

  nothing-AreHits :
      (query : V) (k : ℕ) (allow : ℕ → Bool) (h : HnswIndex S) → AreHits query k allow h []
  nothing-AreHits query k allow h = record {
    at_most = omega arith;
    once = tt;
    ordered = tt;
    right = tt;
  }

  turned-AreHits :
      (query : V) (k : ℕ) (allow : ℕ → Bool) (h : HnswIndex S) (xs : List (R × ℕ))
      → length xs ≤ k
      → Distinct (nodes xs)
      → Ascending (λ x y. less x.0 y.0) xs
      → All
          (λ x.
            (x.0 ≡ shown h.space query x.1) × ((not (contains x.1 h.deleted) && allow x.1) ≡ true))
          xs
      → AreHits query k allow h (flip xs)
  turned-AreHits query k allow h xs n d a r = record {
    at_most = omega (arith, n, length-turned xs);
    once = rw (keys-turned xs) d;
    ordered = Ascending-turned less xs a;
    right =
        All-turned
          (λ x.
            (x.0 ≡ shown h.space query x.1) × ((not (contains x.1 h.deleted) && allow x.1) ≡ true))
          xs r;
  }

  exact-shown :
      (query : V) (h : HnswIndex S)
      → sp.quantised ≡ true
      → (j : ℕ) → sp.exact_distance h.space query j ≡ shown h.space query j
  exact-shown query h q j =
      if_both (λ r. sp.exact_distance h.space query j ≡ r) sp.quantised _ _ (λ t. refl)
        (λ f. absurd (cc))

  dist-shown :
      (query : V) (h : HnswIndex S)
      → sp.quantised ≡ false
      → (j : ℕ) → sp.distance h.space query j ≡ shown h.space query j
  dist-shown query h q j =
      if_both (λ r. sp.distance h.space query j ≡ r) sp.quantised _ _ (λ t. absurd (cc)) (λ f. refl)

  search_from-AreHits :
      (o : Option ℕ) (rerank_factor : ℕ) (query : V) (k : ℕ) (ef : Option ℕ) (allow : ℕ → Bool)
      (h : HnswIndex S)
      → IsSound c h
      → AreHits query k allow h (search_from less sp c o rerank_factor query k ef allow h)
  unfolding search_from
  search_from-AreHits none rerank_factor query k ef allow h s = nothing-AreHits query k allow h
  search_from-AreHits (some e) rerank_factor query k ef allow h s =
      let dist : ℕ → R = sp.distance h.space query in
      let ep : R × ℕ = zoom less dist h.links 1 (h.top - 1) (dist e, e) in
      let own = zoom-measured less dist h.links 1 (h.top - 1) (dist e, e) refl in
      let fetch : ℕ = if sp.quantised then k * rerank_factor else k in
      let width : ℕ = max (max (ef_or less sp c ef) k) fetch in
      let good : ℕ → Bool = acceptable less sp c allow h in
      let layer : Layer = layer_at h.links 0 in
      let beam : List (R × ℕ) = search_layer less dist good width layer (ep ∷ []) in
      let f =
        search_layer-AreFound less dist good width layer (ep ∷ [])
          (IsTidy-Simple (m_at c 0) layer (layer_at-IsTidy c 0 0 h.links s.graph.tidy))
          ((λ i. i), tt) (own, tt) in
      let ranked : List (R × ℕ) = sort (nearer less) beam in
      let once = Distinct-sort (nearer less) beam f.once in
      let measured = All-sort (nearer less) (λ x. x.0 ≡ dist x.1) beam f.measured in
      let fine = All-sort (nearer less) (λ x. good x.1 ≡ true) beam f.acceptable in
      let wide : ℕ = max fetch k in
      let found : List (R × ℕ) = take wide ranked in
      let found_once = Distinct-take wide ranked once in
      let found_fine = All-take (λ x. good x.1 ≡ true) wide ranked fine in
      let exact : ℕ → R = sp.exact_distance h.space query in
      let best : List (R × ℕ) = sort (by_distance less sp c) (again exact found) in
      if_both (AreHits query k allow h) sp.quantised (flip (take k best)) (flip (take k found))
        (λ q.
          turned-AreHits query k allow h (take k best) (omega (arith, length-take k best))
            (Distinct-take k best (
              Distinct-sort (by_distance less sp c) (again exact found)
                (rw (nodes-exact exact found) found_once)))
            (Ascending-take (λ x y. less x.0 y.0) k best
              (Ascending-sort (λ x y. less x.0 y.0) (by_distance less sp c) by_distance-before
                by_distance-after (again exact found)))
            (All-take _ k best (
              All-sort (by_distance less sp c) _ (again exact found) (
                All-exact exact (shown h.space query) (λ j. good j ≡ true) found
                  (exact-shown query h q) found_fine))))
        (λ q.
          turned-AreHits query k allow h (take k found) (omega (arith, length-take k found))
            (Distinct-take k found found_once)
            (Ascending-take (λ x y. less x.0 y.0) k found
              (Ascending-take (λ x y. less x.0 y.0) wide ranked
                (Ascending-sort (λ x y. less x.0 y.0) (nearer less) nearer-before nearer-after
                  beam)))
            (All-take _ k found (
              All-both dist (shown h.space query) (λ j. good j ≡ true) found (dist-shown query h q)
                (All-take (λ x. x.0 ≡ dist x.1) wide ranked measured) found_fine)))

  -- On a sound index, with an asymmetric order of the distances, a search gives no more hits than asked
  -- for, no key twice, none before a nearer one, each with its distance from the query, which is the
  -- exact one on a quantised space, and only keys that are allowed and not deleted.
  pub search-AreHits :
      (rerank_factor : ℕ) (query : V) (k : ℕ) (ef : Option ℕ) (allow : ℕ → Bool) (h : HnswIndex S)
      → IsSound c h
      → AreHits query k allow h (search less sp c rerank_factor query k ef allow h)
  unfolding search
  search-AreHits rerank_factor query k ef allow h s = elim (Bool-cases (eqb k 0)) [
    | inl z ↦ rw z (nothing-AreHits query k allow h)
    | inr z ↦ rw z (search_from-AreHits h.entry rerank_factor query k ef allow h s)
  ]
