-- ===== src/Index/Tidy.antt =====
-- src/annex/index/hnsw.py: the adjacency lists of the layers, and what linking and unlinking keep.
use python_pj.Prelude.{
  ℕ, zero, suc, ◌≤◌, ◌≡◌, ◌≢◌, refl, sym, inl, inr, Bool, true, false, List, [], ◌∷◌, ◌++◌,
  Bool-cases, arith, length, eqb, eqb_iff, ltb, nat_eq, contains, is_some, All,
}
use python_pj.Prelude.Dict.{get, insert, remove, set_default}
use python_pj.Prelude.Members.{In, Distinct, contains_iff, erase}
use python_pj.Settings.{HnswConfig, m_max0}
use python_pj.Index.Beam.{Layer, links_of, search_layer}
use python_pj.Index.Neighbors.{select_neighbors, measured}
use python_pj.Index.Hnsw.{drop_backlinks, unlink_layer, with_backlink, link_back, link_layer, m_at}
use python_pj.Index.Found.{Simple, search_layer-AreFound}
use python_pj.Index.Chosen.{Distinct-snoc, In-snoc, select_neighbors-IsSelection, nodes-measured}

-- The neighbours of a node: no more than the degree, none twice, and not the node itself.
abbrev pub Neat : ℕ → ℕ → List ℕ → Type 0
Neat degree k nbs = (length nbs ≤ degree) × Distinct nbs × (¬ In k nbs)

abbrev pub IsTidy : ℕ → Layer → Type 0
IsTidy degree layer = All (λ entry. Neat degree entry.0 entry.1) layer

module _ (degree : ℕ) where
  pub insert-IsTidy :
      (layer : Layer) (k : ℕ) (nbs : List ℕ)
      → IsTidy degree layer
      → Neat degree k nbs
      → IsTidy degree (insert layer k nbs)
  unfolding insert
  insert-IsTidy [] k nbs t n = (n, tt)
  insert-IsTidy ((j, old) ∷ layer) k nbs t n = elim (Bool-cases (eqb j k)) [
    | inl y ↦ rw y ((n.0, n.1, rw ((eqb_iff j k).0 y) n.2), t.1)
    | inr y ↦ rw y (t.0, insert-IsTidy layer k nbs t.1 n)
  ]

  remove-IsTidy : (layer : Layer) (k : ℕ) → IsTidy degree layer → IsTidy degree (remove layer k)
  unfolding remove
  remove-IsTidy [] k t = tt
  remove-IsTidy ((j, old) ∷ layer) k t = elim (Bool-cases (eqb j k)) [
    | inl y ↦ rw y (remove-IsTidy layer k t.1)
    | inr y ↦ rw y (t.0, remove-IsTidy layer k t.1)
  ]

  pub links_of-Neat :
      (layer : Layer) (k : ℕ) → IsTidy degree layer → Neat degree k (links_of layer k)
  unfolding get
  links_of-Neat [] k t = (omega arith, tt, λ i. i)
  links_of-Neat ((j, old) ∷ layer) k t = elim (Bool-cases (eqb j k)) [
    | inl y ↦ rw y (t.0.0, t.0.1, rw (← (eqb_iff j k).0 y) t.0.2)
    | inr y ↦ rw y (links_of-Neat layer k t.1)
  ]

  pub IsTidy-Simple : (layer : Layer) → IsTidy degree layer → Simple layer
  IsTidy-Simple [] t = tt
  IsTidy-Simple ((j, old) ∷ layer) t = (t.0.1, IsTidy-Simple layer t.1)

  pub set_default-IsTidy :
      (layer : Layer) (k : ℕ) → IsTidy degree layer → IsTidy degree (set_default layer k [])
  unfolding set_default
  set_default-IsTidy layer k t = elim (Bool-cases (is_some (get layer k))) [
    | inl y ↦ rw y t
    | inr y ↦ rw y (insert-IsTidy layer k [] t (omega arith, tt, λ i. i))
  ]

  In-erased : (b a : ℕ) (xs : List ℕ) → In b (erase a xs) → In b xs
  unfolding erase
  In-erased b a [] i = i
  In-erased b a (x ∷ xs) i = elim (Bool-cases (eqb a x)) [
    | inl y ↦ inr (rw y at i)
    | inr y ↦ elim (rw y at i) [ inl e ↦ inl e | inr l ↦ inr (In-erased b a xs l) ]
  ]

  Distinct-erase : (a : ℕ) (xs : List ℕ) → Distinct xs → Distinct (erase a xs)
  unfolding erase
  Distinct-erase a [] d = tt
  Distinct-erase a (x ∷ xs) d = elim (Bool-cases (eqb a x)) [
    | inl y ↦ rw y d.1
    | inr y ↦ rw y ((λ i. d.0 (In-erased x a xs i)), Distinct-erase a xs d.1)
  ]

  length-erase_le : (a : ℕ) (xs : List ℕ) → length (erase a xs) ≤ length xs
  unfolding erase
  length-erase_le a [] = omega arith
  length-erase_le a (x ∷ xs) = elim (Bool-cases (eqb a x)) [
    | inl y ↦ rw y (omega arith)
    | inr y ↦ rw y (omega (arith, length-erase_le a xs))
  ]

  erase-Neat : (a k : ℕ) (nbs : List ℕ) → Neat degree k nbs → Neat degree k (erase a nbs)
  erase-Neat a k nbs n = (
    omega (arith, length-erase_le a nbs, n.0),
    Distinct-erase a nbs n.1,
    λ i. n.2 (In-erased k a nbs i),
  )

  drop_backlinks-IsTidy :
      (key : ℕ) (nbs : List ℕ) (layer : Layer)
      → IsTidy degree layer
      → IsTidy degree (drop_backlinks key nbs layer)
  unfolding drop_backlinks
  drop_backlinks-IsTidy key [] layer t = t
  drop_backlinks-IsTidy key (nb ∷ nbs) layer t =
      elim (Bool-cases (contains key (links_of layer nb))) [
        | inl y ↦ rw y (
            drop_backlinks-IsTidy key nbs _ (
              insert-IsTidy layer nb (erase key (links_of layer nb)) t
                (erase-Neat key nb (links_of layer nb) (links_of-Neat layer nb t))))
        | inr y ↦ rw y (drop_backlinks-IsTidy key nbs layer t)
      ]

  pub unlink_layer-IsTidy :
      (key : ℕ) (layer : Layer) → IsTidy degree layer → IsTidy degree (unlink_layer key layer)
  unfolding unlink_layer
  unlink_layer-IsTidy key layer t =
      drop_backlinks-IsTidy key (links_of layer key) (remove layer key) (remove-IsTidy layer key t)

module _ {R : Type 0} (less : R → R → Bool) (between : ℕ → ℕ → R) (degree : ℕ) where
  with_backlink-Neat :
      (key nb : ℕ) (nbs : List ℕ)
      → key ≢ nb
      → Neat degree nb nbs
      → Neat degree nb (with_backlink less between degree key nb nbs)
  unfolding with_backlink
  with_backlink-Neat key nb nbs ne n = elim (Bool-cases (contains key nbs)) [
    | inl y ↦ let fits : ltb degree (length nbs) ≡ false = ground (arith, n.0) in rw (y, fits) n
    | inr y ↦
        let grown : List ℕ = nbs ++ key ∷ [] in
        let new : ¬ In key nbs = λ i. let c = (contains_iff key nbs).1 i in absurd (cc) in
        let once : Distinct grown = Distinct-snoc key nbs new n.1 in
        let apart : ¬ In nb grown =
          λ i. elim (In-snoc nb key nbs i) [ inl old ↦ n.2 old | inr e ↦ ne (sym e) ] in
        elim (Bool-cases (ltb degree (length grown))) [
          | inl f ↦
              let s =
                select_neighbors-IsSelection less between nb (measured less between nb grown) degree
                  (rw (nodes-measured less between nb grown) once) in
              rw (y, f) (s.0, s.1, λ i. (s.2 nb i).1 refl)
          | inr f ↦ rw (y, f) (ground (arith, f), once, apart)
        ]
  ]

  pub link_back-IsTidy :
      (key : ℕ) (selected : List ℕ) (layer : Layer)
      → (¬ In key selected)
      → IsTidy degree layer
      → IsTidy degree (link_back less between degree key selected layer)
  unfolding link_back
  link_back-IsTidy key [] layer n t = t
  link_back-IsTidy key (nb ∷ selected) layer n t =
      link_back-IsTidy key selected _ (λ i. n (inr i))
        (insert-IsTidy degree layer nb _ t (
          with_backlink-Neat key nb (links_of layer nb) (λ e. n (inl e))
            (links_of-Neat degree layer nb t)))

m-le-m_at : {R : Type 0} (c : HnswConfig R) (lv : ℕ) → c.m ≤ m_at c lv
unfolding m_max0
m-le-m_at c zero = omega arith
m-le-m_at c (suc lv) = omega arith

module _ {R : Type 0} (less : R → R → Bool) (dist : ℕ → R) (between : ℕ → ℕ → R)
    (c : HnswConfig R) where
  -- Linking a key on a layer whose lists have the degree of the layer at most, no key twice, and not the
  -- node itself, from an entry point with its own distance, leaves such a layer.
  pub link_layer-IsTidy :
      (key lv : ℕ) (ep : R × ℕ) (layer : Layer)
      → ep.0 ≡ dist ep.1
      → IsTidy (m_at c lv) layer
      → IsTidy (m_at c lv) (link_layer less dist between c key lv ep layer)
  unfolding link_layer
  link_layer-IsTidy key lv ep layer own t =
      let degree : ℕ = m_at c lv in
      let found : List (R × ℕ) =
        search_layer less dist (λ k. true) c.ef_construction layer (ep ∷ []) in
      let once =
        (search_layer-AreFound less dist (λ k. true) c.ef_construction layer (ep ∷ [])
          (IsTidy-Simple degree layer t) ((λ i. i), tt) (own, tt)).once in
      let s = select_neighbors-IsSelection less between key found c.m once in
      let selected : List ℕ = select_neighbors less between key found c.m in
      let apart : ¬ In key selected = λ i. (s.2 key i).1 refl in
      link_back-IsTidy less between degree key selected (insert layer key selected) apart
        (insert-IsTidy degree layer key selected t (omega (arith, s.0, m-le-m_at c lv), s.1, apart))
