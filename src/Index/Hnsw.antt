-- ===== src/Index/Hnsw.antt =====
-- src/annex/index/hnsw.py: the graph with its operations. The level that is drawn for a new node is an
-- argument. A missing layer counts as an empty one.
use python_pj.Prelude.{
  ℕ, zero, suc, ◌+◌, ◌-◌, ◌*◌, Bool, true, false, not, ◌&&◌, ◌||◌, Option, none, some, List, [],
  ◌∷◌, ◌++◌, if◌then◌else◌, ltb, nat_eq, eqb, is_some, contains, keep, length, take, map, min, max,
}
use python_pj.Prelude.Dict.{Dict, get, insert, remove, set_default}
use python_pj.Prelude.Members.{erase}
use python_pj.Settings.{HnswConfig, m_max0}
use python_pj.Index.Heap.{sort, nearer}
use python_pj.Index.Beam.{Layer, links_of, greedy_descend, search_layer}
use python_pj.Index.Neighbors.{select_neighbors, measured}

-- What the graph needs of a space of vectors: `set`; the distance of a stored key from a query, as
-- `distances_ctx` gives it for each of its keys; `distance_between`; `exact_distances`; whether the
-- space is a PQSpace, and whether it is one that is trained.
pub record Space (S V R : Type 0) : Type 0 where
  pub store : ℕ → V → S → S
  pub distance : S → V → ℕ → R
  pub distance_between : S → ℕ → ℕ → R
  pub exact_distance : S → V → ℕ → R
  pub quantised : Bool
  pub trained : S → Bool

-- `top` is `_max_level` + 1.
pub record HnswIndex (S : Type 0) : Type 0 where
  pub space : S
  pub levels : Dict ℕ ℕ
  pub links : List Layer
  pub deleted : List ℕ
  pub entry : Option ℕ
  pub top : ℕ

unfoldable pub new_hnsw : {S : Type 0} → S → HnswIndex S
new_hnsw space = record {
  space = space;
  levels = [];
  links = [];
  deleted = [];
  entry = none;
  top = 0;
}

unfoldable pub size : {S : Type 0} → HnswIndex S → ℕ
size h = length h.levels - length h.deleted

-- `self._links[lv]`
unfoldable pub layer_at : List Layer → ℕ → Layer
layer_at [] lv = []
layer_at (l ∷ ls) zero = l
layer_at (l ∷ ls) (suc lv) = layer_at ls lv

unfoldable pub set_layer : List Layer → ℕ → Layer → List Layer
set_layer [] lv new = []
set_layer (l ∷ ls) zero new = new ∷ ls
set_layer (l ∷ ls) (suc lv) new = l ∷ set_layer ls lv new

unfoldable pub neighbors : {S : Type 0} → ℕ → ℕ → HnswIndex S → List ℕ
unfolding layer_at
neighbors key level h = links_of (layer_at h.links level) key

-- so many layers at least, and the key in each of the first so many
unfoldable pub ensure_levels : ℕ → List Layer → List Layer
ensure_levels zero ls = ls
ensure_levels (suc n) [] = [] ∷ ensure_levels n []
ensure_levels (suc n) (l ∷ ls) = l ∷ ensure_levels n ls

unfoldable pub join_layers : ℕ → ℕ → List Layer → List Layer
unfolding set_default
join_layers key zero ls = ls
join_layers key (suc n) [] = []
join_layers key (suc n) (l ∷ ls) = set_default l key [] ∷ join_layers key n ls

-- `_unlink`: the node's links, and the links back to it of the nodes that it links to
unfoldable pub drop_backlinks : ℕ → List ℕ → Layer → Layer
unfolding erase contains
drop_backlinks key [] layer = layer
drop_backlinks key (nb ∷ nbs) layer = drop_backlinks key nbs (
    if contains key (links_of layer nb)
    then insert layer nb (erase key (links_of layer nb))
    else layer)

unfoldable pub unlink_layer : ℕ → Layer → Layer
unfolding drop_backlinks
unlink_layer key layer = drop_backlinks key (links_of layer key) (remove layer key)

-- in the first so many layers
unfoldable pub unlink_layers : ℕ → ℕ → List Layer → List Layer
unfolding unlink_layer
unlink_layers key zero ls = ls
unlink_layers key (suc n) [] = []
unlink_layers key (suc n) (l ∷ ls) = unlink_layer key l ∷ unlink_layers key n ls

-- the first node of the highest level, with that level plus one
unfoldable pub pick_entry : Dict ℕ ℕ → Option ℕ × ℕ → Option ℕ × ℕ
pick_entry [] best = best
pick_entry ((cand, lvl) ∷ ls) best =
    pick_entry ls
      (if not (is_some best.0) || ltb best.1 (suc lvl) then (some cand, suc lvl) else best)

abbrev pub is_entry : Option ℕ → ℕ → Bool
is_entry none key = false
is_entry (some e) key = eqb e key

unfoldable pub unlink : {S : Type 0} → ℕ → HnswIndex S → HnswIndex S
unfolding unlink_layers pick_entry
unlink key h = elim (get h.levels key) [
  | none ↦ h
  | some lvl ↦
      let levels = remove h.levels key in
      let links = unlink_layers key (suc lvl) h.links in
      let next = if is_entry h.entry key then pick_entry levels (none, 0) else (h.entry, h.top) in
      record h { levels = levels; links = links; entry = next.0; top = next.1 }
]

unfoldable pub remove_key : {S : Type 0} → ℕ → HnswIndex S → Option (HnswIndex S)
remove_key key h =
    if is_some (get h.levels key)
    then some (record h { deleted = if contains key h.deleted then h.deleted else key ∷ h.deleted })
    else none

module _ {R : Type 0} (less : R → R → Bool) (dist : ℕ → R) where
  -- greedy walks on so many layers, down to the lowest of them
  unfoldable pub zoom : List Layer → ℕ → ℕ → R × ℕ → R × ℕ
  unfolding greedy_descend layer_at
  zoom links lowest zero ep = ep
  zoom links lowest (suc n) ep =
      zoom links lowest n (greedy_descend less dist (layer_at links (lowest + n)) ep)

module _ {R : Type 0} (less : R → R → Bool) (between : ℕ → ℕ → R) where
  -- the neighbour's list with a link back, cut down to the degree of the layer
  unfoldable pub with_backlink : ℕ → ℕ → ℕ → List ℕ → List ℕ
  unfolding select_neighbors
  with_backlink degree key nb nbs =
      let grown = if contains key nbs then nbs else nbs ++ key ∷ [] in
      if ltb degree (length grown)
      then select_neighbors less between nb (measured less between nb grown) degree
      else grown

  unfoldable pub link_back : ℕ → ℕ → List ℕ → Layer → Layer
  unfolding with_backlink
  link_back degree key [] layer = layer
  link_back degree key (nb ∷ selected) layer =
      link_back degree key selected
        (insert layer nb (with_backlink degree key nb (links_of layer nb)))

abbrev pub first_or : {A : Type 0} → A → List A → A
first_or x [] = x
first_or x (y ∷ ys) = y

-- `m_at`
abbrev pub m_at : {R : Type 0} → HnswConfig R → ℕ → ℕ
m_at c zero = m_max0 c
m_at c (suc lv) = c.m

module _ {R : Type 0} (less : R → R → Bool) (dist : ℕ → R) (between : ℕ → ℕ → R)
    (c : HnswConfig R) where
  -- what is found on a layer from an entry point, and the layer with the key linked
  abbrev pub found_on : Layer → R × ℕ → List (R × ℕ)
  found_on layer ep = search_layer less dist (λ k. true) c.ef_construction layer (ep ∷ [])

  unfoldable pub link_layer : ℕ → ℕ → R × ℕ → Layer → Layer
  unfolding search_layer select_neighbors link_back m_max0
  link_layer key lv ep layer =
      let selected = select_neighbors less between key (found_on layer ep) c.m in
      link_back less between (m_at c lv) key selected (insert layer key selected)

  -- from the layer below so many, down to the lowest
  unfoldable pub insert_down : ℕ → ℕ → R × ℕ → List Layer → List Layer
  unfolding link_layer layer_at set_layer sort
  insert_down key zero ep links = links
  insert_down key (suc lv) ep links =
      let layer = layer_at links lv in
      insert_down key lv (first_or ep (sort (nearer less) (found_on layer ep)))
        (set_layer links lv (link_layer key lv ep layer))

module _ {S V R : Type 0} (less : R → R → Bool) (sp : Space S V R) (c : HnswConfig R) where
  -- the node in the tables, before it is linked
  unfoldable pub placed : ℕ → V → ℕ → HnswIndex S → HnswIndex S
  unfolding unlink ensure_levels join_layers
  placed key vector level h =
      let u = unlink key h in
      record u {
        space = sp.store key vector u.space;
        deleted = keep (λ k. not (eqb k key)) u.deleted;
        levels = insert u.levels key level;
        links = join_layers key (suc level) (ensure_levels (suc level) u.links);
      }

  unfoldable pub add : ℕ → V → ℕ → HnswIndex S → HnswIndex S
  unfolding placed zoom insert_down
  add key vector level h =
      let p = placed key vector level h in
      let dist = sp.distance p.space vector in
      elim p.entry [
        | none ↦ record p { entry = some key; top = suc level }
        | some e ↦
            let ep = zoom less dist p.links (suc level) (p.top - suc level) (dist e, e) in
            let links =
              insert_down less dist (sp.distance_between p.space) c key (min (suc level) p.top) ep
                p.links in
            let higher = ltb p.top (suc level) in
            record p {
              links = links;
              entry = if higher then some key else some e;
              top = if higher then suc level else p.top;
            }
      ]

  -- `_acceptable` with `skip_deleted`; `allow` is true everywhere when the caller gives none
  abbrev pub acceptable : (ℕ → Bool) → HnswIndex S → ℕ → Bool
  acceptable allow h key = not (contains key h.deleted) && allow key

  -- `ef or self.cfg.ef_search`
  abbrev pub ef_or : Option ℕ → ℕ
  ef_or none = c.ef_search
  ef_or (some zero) = c.ef_search
  ef_or (some (suc n)) = suc n

  abbrev pub turned : List (R × ℕ) → List (ℕ × R)
  turned xs = map (λ x. (x.1, x.0)) xs

  -- `np.argsort(exact, kind="stable")` of the keys that were found
  abbrev pub by_distance : R × ℕ → R × ℕ → Bool
  by_distance x y = not (less y.0 x.0)

  -- `search` from the entry point
  unfoldable pub search_from :
      Option ℕ → ℕ → V → ℕ → Option ℕ → (ℕ → Bool) → HnswIndex S → List (ℕ × R)
  unfolding zoom search_layer sort
  search_from none rerank_factor query k ef allow h = []
  search_from (some e) rerank_factor query k ef allow h =
      let dist = sp.distance h.space query in
      let ep = zoom less dist h.links 1 (h.top - 1) (dist e, e) in
      let fetch = if sp.quantised then k * rerank_factor else k in
      let width = max (max (ef_or ef) k) fetch in
      let found = take (max fetch k) (
        sort (nearer less)
          (search_layer less dist (acceptable allow h) width (layer_at h.links 0) (ep ∷ []))) in
      if sp.quantised
      then turned
          (take k (sort by_distance (map (λ x. (sp.exact_distance h.space query x.1, x.1)) found)))
      else turned (take k found)

  -- `rerank_factor` is at least 1.
  unfoldable pub search : ℕ → V → ℕ → Option ℕ → (ℕ → Bool) → HnswIndex S → List (ℕ × R)
  unfolding search_from
  search rerank_factor query k ef allow h =
      if eqb k 0 then [] else search_from h.entry rerank_factor query k ef allow h
