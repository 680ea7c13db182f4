-- ===== src/Index/Levels.antt =====
-- src/annex/index/hnsw.py: the layers of the graph, all together, while a node is placed, linked and
-- unlinked.
use python_pj.Prelude.{
  ℕ, zero, suc, ◌+◌, ◌≡◌, refl, inl, inr, Bool, true, List, [], ◌∷◌, ◌∙◌, ap, Bool-cases,
  List-cases, arith, length, All, max,
}
use python_pj.Settings.{HnswConfig}
use python_pj.Index.Heap.{sort, nearer}
use python_pj.Index.Beam.{Layer, links_of, closest, descend, greedy_descend}
use python_pj.Index.Hnsw.{
  layer_at, set_layer, ensure_levels, join_layers, unlink_layers, zoom, insert_down, found_on,
  first_or, link_layer, m_at,
}
use python_pj.Index.Sorted.{All-sort}
use python_pj.Index.Found.{search_layer-AreFound}
use python_pj.Index.Tidy.{
  IsTidy, IsTidy-Simple, set_default-IsTidy, unlink_layer-IsTidy, link_layer-IsTidy,
}

module _ {R : Type 0} (c : HnswConfig R) where
  -- Each layer has the degree that the configuration gives it, from a layer on.
  abbrev pub AreTidy : ℕ → List Layer → Type 0
  AreTidy lv [] = Unit
  AreTidy lv (l ∷ ls) = IsTidy (m_at c lv) l × AreTidy (suc lv) ls

  pub ensure_levels-AreTidy :
      (n lv : ℕ) (ls : List Layer) → AreTidy lv ls → AreTidy lv (ensure_levels n ls)
  unfolding ensure_levels
  ensure_levels-AreTidy zero lv ls t = t
  ensure_levels-AreTidy (suc n) lv [] t = (tt, ensure_levels-AreTidy n (suc lv) [] tt)
  ensure_levels-AreTidy (suc n) lv (l ∷ ls) t = (t.0, ensure_levels-AreTidy n (suc lv) ls t.1)

  pub join_layers-AreTidy :
      (key n lv : ℕ) (ls : List Layer) → AreTidy lv ls → AreTidy lv (join_layers key n ls)
  unfolding join_layers
  join_layers-AreTidy key zero lv ls t = t
  join_layers-AreTidy key (suc n) lv [] t = tt
  join_layers-AreTidy key (suc n) lv (l ∷ ls) t =
      (set_default-IsTidy (m_at c lv) l key t.0, join_layers-AreTidy key n (suc lv) ls t.1)

  pub unlink_layers-AreTidy :
      (key n lv : ℕ) (ls : List Layer) → AreTidy lv ls → AreTidy lv (unlink_layers key n ls)
  unfolding unlink_layers
  unlink_layers-AreTidy key zero lv ls t = t
  unlink_layers-AreTidy key (suc n) lv [] t = tt
  unlink_layers-AreTidy key (suc n) lv (l ∷ ls) t =
      (unlink_layer-IsTidy (m_at c lv) key l t.0, unlink_layers-AreTidy key n (suc lv) ls t.1)

  pub layer_at-IsTidy :
      (base lv : ℕ) (ls : List Layer)
      → AreTidy base ls
      → IsTidy (m_at c (base + lv)) (layer_at ls lv)
  unfolding layer_at
  layer_at-IsTidy base lv [] t = tt
  layer_at-IsTidy base zero (l ∷ ls) t = let here : base + 0 ≡ base = omega arith in rw here t.0
  layer_at-IsTidy base (suc lv) (l ∷ ls) t =
      let further : base + suc lv ≡ suc base + lv = omega arith in
      rw further (layer_at-IsTidy (suc base) lv ls t.1)

  pub set_layer-AreTidy :
      (base lv : ℕ) (new : Layer) (ls : List Layer)
      → IsTidy (m_at c (base + lv)) new
      → AreTidy base ls
      → AreTidy base (set_layer ls lv new)
  unfolding set_layer
  set_layer-AreTidy base lv new [] n t = tt
  set_layer-AreTidy base zero new (l ∷ ls) n t =
      let here : base + 0 ≡ base = omega arith in (rw here at n, t.1)
  set_layer-AreTidy base (suc lv) new (l ∷ ls) n t =
      let further : base + suc lv ≡ suc base + lv = omega arith in
      (t.0, set_layer-AreTidy (suc base) lv new ls (rw further at n) t.1)

pub length-ensure_levels :
    (n : ℕ) (ls : List Layer) → length (ensure_levels n ls) ≡ max n (length ls)
unfolding ensure_levels
length-ensure_levels zero ls = omega arith
length-ensure_levels (suc n) [] = omega (arith, length-ensure_levels n [])
length-ensure_levels (suc n) (l ∷ ls) = omega (arith, length-ensure_levels n ls)

pub length-join_layers : (key n : ℕ) (ls : List Layer) → length (join_layers key n ls) ≡ length ls
unfolding join_layers
length-join_layers key zero ls = refl
length-join_layers key (suc n) [] = refl
length-join_layers key (suc n) (l ∷ ls) = ap suc (length-join_layers key n ls)

pub length-unlink_layers :
    (key n : ℕ) (ls : List Layer) → length (unlink_layers key n ls) ≡ length ls
unfolding unlink_layers
length-unlink_layers key zero ls = refl
length-unlink_layers key (suc n) [] = refl
length-unlink_layers key (suc n) (l ∷ ls) = ap suc (length-unlink_layers key n ls)

length-set_layer :
    (ls : List Layer) (lv : ℕ) (new : Layer) → length (set_layer ls lv new) ≡ length ls
unfolding set_layer
length-set_layer [] lv new = refl
length-set_layer (l ∷ ls) zero new = refl
length-set_layer (l ∷ ls) (suc lv) new = ap suc (length-set_layer ls lv new)

module _ {R : Type 0} (less : R → R → Bool) (dist : ℕ → R) where
  descend-measured :
      (layer : Layer) (n : ℕ) (ep : R × ℕ)
      → ep.0 ≡ dist ep.1
      → (descend less dist layer n ep).0 ≡ dist (descend less dist layer n ep).1
  unfolding descend
  descend-measured layer zero ep e = e
  descend-measured layer (suc n) ep e = elim (List-cases (links_of layer ep.1)) [
    | inl same ↦ rw (same, descend) e
    | inr (k, ks, same) ↦
        let next : ℕ = closest less dist k ks in
        elim (Bool-cases (less (dist next) ep.0)) [
          | inl y ↦ rw (same, descend) (rw y (descend-measured layer n (dist next, next) refl))
          | inr y ↦ rw (same, descend) (rw y e)
        ]
  ]

  pub zoom-measured :
      (links : List Layer) (lowest n : ℕ) (ep : R × ℕ)
      → ep.0 ≡ dist ep.1
      → (zoom less dist links lowest n ep).0 ≡ dist (zoom less dist links lowest n ep).1
  unfolding zoom greedy_descend
  zoom-measured links lowest zero ep e = e
  zoom-measured links lowest (suc n) ep e =
      zoom-measured links lowest n _
        (descend-measured (layer_at links (lowest + n)) (length (layer_at links (lowest + n))) ep e)

first_or-measured :
    {R : Type 0} (dist : ℕ → R) (ep : R × ℕ) (xs : List (R × ℕ))
    → ep.0 ≡ dist ep.1
    → All (λ x. x.0 ≡ dist x.1) xs
    → (first_or ep xs).0 ≡ dist (first_or ep xs).1
first_or-measured dist ep [] e h = e
first_or-measured dist ep (x ∷ xs) e h = h.0

module _ {R : Type 0} (less : R → R → Bool) (dist : ℕ → R) (between : ℕ → ℕ → R)
    (c : HnswConfig R) where
  pub insert_down-AreTidy :
      (key n : ℕ) (ep : R × ℕ) (links : List Layer)
      → ep.0 ≡ dist ep.1
      → AreTidy c 0 links
      → AreTidy c 0 (insert_down less dist between c key n ep links)
  unfolding insert_down
  insert_down-AreTidy key zero ep links e t = t
  insert_down-AreTidy key (suc lv) ep links e t =
      let layer : Layer = layer_at links lv in
      let found : List (R × ℕ) = found_on less dist between c layer ep in
      let base : 0 + lv ≡ lv = omega arith in
      let tidy : IsTidy (m_at c lv) layer = rw base at (layer_at-IsTidy c 0 lv links t) in
      let measured =
        (search_layer-AreFound less dist (λ k. true) c.ef_construction layer (ep ∷ [])
          (IsTidy-Simple (m_at c lv) layer tidy) ((λ i. i), tt) (e, tt)).measured in
      insert_down-AreTidy key lv (first_or ep (sort (nearer less) found)) _
        (first_or-measured dist ep (sort (nearer less) found) e
          (All-sort (nearer less) (λ x. x.0 ≡ dist x.1) found measured))
        (set_layer-AreTidy c 0 lv (link_layer less dist between c key lv ep layer) links
          (rw base (link_layer-IsTidy less dist between c key lv ep layer e tidy)) t)

  pub length-insert_down :
      (key n : ℕ) (ep : R × ℕ) (links : List Layer)
      → length (insert_down less dist between c key n ep links) ≡ length links
  unfolding insert_down
  length-insert_down key zero ep links = refl
  length-insert_down key (suc lv) ep links =
      length-insert_down key lv _ _ ∙ length-set_layer links lv _
