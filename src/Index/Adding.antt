-- ===== src/Index/Adding.antt =====
-- src/annex/index/hnsw.py: `add` keeps the invariant of the index.
use python_pj.Prelude.{
  ℕ, suc, ◌-◌, ◌≤◌, ◌≡◌, refl, sym, ap, ◌∙◌, inl, inr, Bool, true, false, not, none, some, List,
  Bool-cases, Option-cases, arith, length, keep, eqb, eqb_iff, ltb, nat_eq, is_some, min, max,
  if◌then◌else◌,
}
use python_pj.Prelude.Dict.{Dict, get, insert, get-insert}
use python_pj.Prelude.Members.{In}
use python_pj.Prelude.Once.{Once-insert}
use python_pj.Settings.{HnswConfig}
use python_pj.Index.Beam.{Layer}
use python_pj.Index.Hnsw.{
  Space, HnswIndex, new_hnsw, unlink, placed, add, zoom, join_layers, ensure_levels,
}
use python_pj.Index.Sorted.{In-keep, Distinct-keep}
use python_pj.Index.Sound.{
  IsGraph, IsSound, some-injective, unlink-IsGraph, unlink-gone, unlink-others, unlink-deleted,
}
use python_pj.Index.Levels.{
  AreTidy, ensure_levels-AreTidy, join_layers-AreTidy, insert_down-AreTidy, zoom-measured,
  length-ensure_levels, length-join_layers, length-insert_down,
}

module _ {R : Type 0} (c : HnswConfig R) where
  -- A new node of a graph without entry point, and of one with an entry point.
  first-IsGraph :
      (levels : Dict ℕ ℕ) (links more : List Layer) (top key level : ℕ)
      → IsGraph c levels links none top
      → AreTidy c 0 more
      → suc level ≤ length more
      → IsGraph c (insert levels key level) more (some key) (suc level)
  first-IsGraph levels links more top key level g t size = record {
    tidy = t;
    once = Once-insert levels key level g.once;
    tall = size;
    topmost = λ k lvl e. elim (Bool-cases (eqb key k)) [
      | inl y ↦
          let own : some level ≡ some lvl = sym (get-insert levels key k level ∙ rw y refl) ∙ e in
          let same = some-injective level lvl own in omega (arith, same)
      | inr y ↦
          let old : get levels k ≡ some lvl = sym (get-insert levels key k level ∙ rw y refl) ∙ e in
          omega (arith, g.topmost k lvl old, g.entry_at)
    ];
    entry_at = (
      level,
      (get-insert levels key key level ∙ let same = (eqb_iff key key).1 refl in rw same refl),
      refl,
    );
  }

  next-IsGraph :
      (levels : Dict ℕ ℕ) (links more : List Layer) (e top key level : ℕ)
      → IsGraph c levels links (some e) top
      → get levels key ≡ none
      → AreTidy c 0 more
      → suc level ≤ length more
      → length links ≤ length more
      → IsGraph c
          (insert levels key level)
          more
          (if ltb top (suc level) then some key else some e)
          (if ltb top (suc level) then suc level else top)
  next-IsGraph levels links more e top key level g gone t size longer =
      let once = Once-insert levels key level g.once in
      let own : get (insert levels key level) key ≡ some level =
        get-insert levels key key level ∙ let same = (eqb_iff key key).1 refl in rw same refl in
      let below : (high : ℕ)
          → suc level ≤ high
          → top ≤ high
          → (k lvl : ℕ) → get (insert levels key level) k ≡ some lvl
          → suc lvl ≤ high =
        λ high a b k lvl there. elim (Bool-cases (eqb key k)) [
          | inl y ↦
              let here : some level ≡ some lvl =
                sym (get-insert levels key k level ∙ rw y refl) ∙ there in
              let same = some-injective level lvl here in omega (arith, same, a)
          | inr y ↦
              let old : get levels k ≡ some lvl =
                sym (get-insert levels key k level ∙ rw y refl) ∙ there in
              omega (arith, g.topmost k lvl old, b)
        ] in
      elim (Bool-cases (ltb top (suc level))) [
        | inl y ↦ rw y (record {
          tidy = t;
          once = once;
          tall = size;
          topmost = below (suc level) (omega arith) (ground (arith, y));
          entry_at = (level, own, refl);
        })
        | inr y ↦
            let (lvl, there, same) = g.entry_at in
            let apart : eqb key e ≡ false = elim (Bool-cases (eqb key e)) [
              | inl z ↦
                  let clash : get levels e ≡ none = rw (← (eqb_iff key e).0 z) gone in absurd (cc)
              | inr z ↦ z
            ] in
            rw y (record {
              tidy = t;
              once = once;
              tall = omega (arith, g.tall, longer);
              topmost = below top (ground (arith, y)) (omega arith);
              entry_at = (lvl, get-insert levels key e level ∙ rw apart there, same);
            })
      ]

module _ {S V R : Type 0} (less : R → R → Bool) (sp : Space S V R) (c : HnswConfig R) where
  opened : ℕ → ℕ → HnswIndex S → List Layer
  opened key level u = join_layers key (suc level) (ensure_levels (suc level) u.links)

  opened-length :
      (key level : ℕ) (u : HnswIndex S)
      → length (opened key level u) ≡ max (suc level) (length u.links)
  unfolding opened
  opened-length key level u =
      length-join_layers key (suc level) (ensure_levels (suc level) u.links)
      ∙ length-ensure_levels (suc level) u.links

  opened-AreTidy :
      (key level : ℕ) (u : HnswIndex S) → AreTidy c 0 u.links → AreTidy c 0 (opened key level u)
  unfolding opened
  opened-AreTidy key level u t =
      join_layers-AreTidy c key (suc level) 0 (ensure_levels (suc level) u.links)
        (ensure_levels-AreTidy c (suc level) 0 u.links t)

  placed-deleted :
      (key level k : ℕ) (h : HnswIndex S)
      → IsSound c h
      → In k (keep (λ j. not (eqb j key)) (unlink key h).deleted)
      → is_some (get (insert (unlink key h).levels key level) k) ≡ true
  placed-deleted key level k h s i =
      let (old, ne) = In-keep (λ j. not (eqb j key)) k (unlink key h).deleted i in
      let known : In k h.deleted = rw (unlink-deleted c key h) at old in
      let other : eqb key k ≡ false = ground (arith, ne, eqb_iff k key, eqb_iff key k) in
      let there = s.deleted_known k known in
      ap is_some
        (get-insert (unlink key h).levels key k level ∙ rw other (unlink-others c key k h other))
      ∙ there

  -- Adding a key, new or stored before, with any vector and level, to a sound index gives a sound one:
  -- on each layer no node has more links than the layer's degree, none twice, and none to itself; the
  -- entry point is a node of the highest level, for which there is a layer; and the deleted keys are
  -- nodes.
  pub add-IsSound :
      (key : ℕ) (vector : V) (level : ℕ) (h : HnswIndex S)
      → IsSound c h
      → IsSound c (add less sp c key vector level h)
  unfolding add placed opened
  add-IsSound key vector level h s =
      let u : HnswIndex S = unlink key h in
      let g = unlink-IsGraph c key h s.graph in
      let gone = unlink-gone c key h in
      let size = opened-length key level u in
      let tidy = opened-AreTidy key level u g.tidy in
      let once =
        Distinct-keep (λ j. not (eqb j key)) u.deleted
          (rw (unlink-deleted c key h) s.deleted_once) in
      elim (Option-cases u.entry) [
        | inl empty ↦
            rw (empty, add)
              (record {
                graph =
                    first-IsGraph c u.levels u.links (opened key level u) u.top key level
                      (rw empty at g) tidy (omega (arith, size));
                deleted_known = λ k i. placed-deleted key level k h s i;
                deleted_once = once;
              })
        | inr (e, there) ↦
            let space : S = sp.store key vector u.space in
            let dist : ℕ → R = sp.distance space vector in
            let rest = u.top - suc level in
            let ep : R × ℕ =
              zoom less dist (opened key level u) (suc level) (u.top - suc level) (dist e, e) in
            let own =
              zoom-measured less dist (opened key level u) (suc level) (u.top - suc level)
                (dist e, e) refl in
            let count : ℕ = min (suc level) u.top in
            let linked =
              insert_down-AreTidy less dist (sp.distance_between space) c key count ep
                (opened key level u) own tidy in
            let same =
              length-insert_down less dist (sp.distance_between space) c key count ep
                (opened key level u) in
            rw (there, add)
              (record {
                graph =
                    next-IsGraph c u.levels u.links _ e u.top key level (rw there at g) gone linked
                      (omega (arith, size, same)) (omega (arith, size, same));
                deleted_known = λ k i. placed-deleted key level k h s i;
                deleted_once = once;
              })
      ]

pub new_hnsw-IsSound : {R S : Type 0} (c : HnswConfig R) (space : S) → IsSound c (new_hnsw space)
unfolding new_hnsw get
new_hnsw-IsSound c space = record {
  graph = record {
    tidy = tt;
    once = tt;
    tall = omega arith;
    topmost = λ k lvl e. absurd (cc);
    entry_at = refl;
  };
  deleted_known = λ k i. absurd i;
  deleted_once = tt;
}
