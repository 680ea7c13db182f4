-- ===== src/Index/Sound.antt =====
-- src/annex/index/hnsw.py: the invariant of the index, which `add`, `_unlink` and `remove` keep.
use python_pj.Prelude.{
  ℕ, suc, ◌≤◌, ◌≡◌, refl, sym, ◌∙◌, inl, inr, true, false, Option, none, some, List, Bool-cases,
  Option-cases, arith, length, eqb, eqb_iff, nat_eq, contains, is_some, if◌then◌else◌,
}
use python_pj.Prelude.Dict.{Dict, get, remove, get-remove}
use python_pj.Prelude.Members.{In, Distinct, contains_iff}
use python_pj.Prelude.Once.{Once, Once-remove}
use python_pj.Settings.{HnswConfig}
use python_pj.Index.Beam.{Layer}
use python_pj.Index.Hnsw.{HnswIndex, pick_entry, is_entry, unlink, unlink_layers, remove_key}
use python_pj.Index.Sorted.{All-In}
use python_pj.Index.Entry.{get-In, In-get, IsPick, pick_entry-IsPick}
use python_pj.Index.Levels.{AreTidy, unlink_layers-AreTidy, length-unlink_layers}

-- The entry point has the highest level; there is none, if there is no node.
abbrev pub EntryAt : Dict ℕ ℕ → Option ℕ → ℕ → Type 0
EntryAt levels none top = top ≡ 0
EntryAt levels (some e) top = (lvl : ℕ) × (get levels e ≡ some lvl) × (top ≡ suc lvl)

module _ {R : Type 0} (c : HnswConfig R) where
  -- The layers are tidy, there is one for each level, no node's level is above the entry point's.
  pub record IsGraph (levels : Dict ℕ ℕ) (links : List Layer) (entry : Option ℕ) (top : ℕ)
      : Type 0 where
    pub tidy : AreTidy c 0 links
    pub once : Once levels
    pub tall : top ≤ length links
    pub topmost : (k lvl : ℕ) → get levels k ≡ some lvl → suc lvl ≤ top
    pub entry_at : EntryAt levels entry top

  -- Also, the deleted keys are nodes, none of them twice.
  pub record IsSound {S : Type 0} (h : HnswIndex S) : Type 0 where
    pub graph : IsGraph h.levels h.links h.entry h.top
    pub deleted_known : (k : ℕ) → In k h.deleted → is_some (get h.levels k) ≡ true
    pub deleted_once : Distinct h.deleted

pub some-injective : (m n : ℕ) → some m ≡ some n → m ≡ n
some-injective m n e = ground (arith, e)

get-remove_other :
    (d : Dict ℕ ℕ) (key k : ℕ) {v : ℕ}
    → get (remove d key) k ≡ some v
    → (get d k ≡ some v) × (eqb key k ≡ false)
get-remove_other d key k h = elim (Bool-cases (eqb key k)) [
  | inl y ↦ let gone : get (remove d key) k ≡ none = get-remove d key k ∙ rw y refl in absurd (cc)
  | inr y ↦
      let same : get (remove d key) k ≡ get d k = get-remove d key k ∙ rw y refl in
      (sym same ∙ h, y)
]

picked_entry :
    (levels : Dict ℕ ℕ) (picked : Option ℕ × ℕ)
    → Once levels
    → IsPick levels (none, 0) picked
    → EntryAt levels picked.0 picked.1
picked_entry levels picked o p = elim p.from [
  | inl e ↦ rw e refl
  | inr (k, lvl, e, i) ↦ rw e (lvl, In-get levels k lvl o i, refl)
]

module _ {R S : Type 0} (c : HnswConfig R) where
  pub unlink-IsGraph :
      (key : ℕ) (h : HnswIndex S)
      → IsGraph c h.levels h.links h.entry h.top
      → IsGraph c (unlink key h).levels (unlink key h).links (unlink key h).entry (unlink key h).top
  unfolding unlink
  unlink-IsGraph key h g = elim (Option-cases (get h.levels key)) [
    | inl absent ↦ rw (absent, unlink) g
    | inr (lvl, there) ↦
        let levels : Dict ℕ ℕ = remove h.levels key in
        let links : List Layer = unlink_layers key (suc lvl) h.links in
        let tidy = unlink_layers-AreTidy c key (suc lvl) 0 h.links g.tidy in
        let once = Once-remove h.levels key g.once in
        let size = length-unlink_layers key (suc lvl) h.links in
        elim (Bool-cases (is_entry h.entry key)) [
          | inl y ↦
              let p = pick_entry-IsPick levels (none, 0) (λ e. refl) in
              let picked : Option ℕ × ℕ = pick_entry levels (none, 0) in
              let low : picked.1 ≤ h.top = elim p.from [
                | inl e ↦ rw e (omega arith)
                | inr (k, m, e, i) ↦
                    rw e
                      (g.topmost k m (get-remove_other h.levels key k (In-get levels k m once i)).0)
              ] in
              rw (there, unlink)
                (rw y (record {
                  tidy = tidy;
                  once = once;
                  tall = omega (arith, low, size, g.tall);
                  topmost = λ k m e.
                      All-In (λ x. suc x.1 ≤ picked.1) (k, m) levels p.highest
                        (get-In levels k m e);
                  entry_at = picked_entry levels picked once p;
                }))
          | inr y ↦
              rw (there, unlink)
                (rw y (record {
                  tidy = tidy;
                  once = once;
                  tall = omega (arith, size, g.tall);
                  topmost = λ k m e. g.topmost k m (get-remove_other h.levels key k e).0;
                  entry_at = kept_entry h.entry h.top key h.levels y g.entry_at;
                }))
        ]
  ]
    where
      kept_entry :
          (entry : Option ℕ) (top key : ℕ) (levels : Dict ℕ ℕ)
          → is_entry entry key ≡ false
          → EntryAt levels entry top
          → EntryAt (remove levels key) entry top
      kept_entry none top key levels y a = a
      kept_entry (some e) top key levels y (lvl, there, same) =
          (lvl, get-remove levels key e ∙ other ∙ there, same)
        where
          other : (if eqb key e then none else get levels e) ≡ get levels e
          other = ground (arith, y, eqb_iff key e, eqb_iff e key)

  pub unlink-gone : (key : ℕ) (h : HnswIndex S) → get (unlink key h).levels key ≡ none
  unfolding unlink
  unlink-gone key h = elim (Option-cases (get h.levels key)) [
    | inl absent ↦ rw (absent, unlink) absent
    | inr (lvl, there) ↦
        rw (there, unlink)
          (get-remove h.levels key key ∙ let same = (eqb_iff key key).1 refl in rw same refl)
  ]

  pub unlink-others :
      (key k : ℕ) (h : HnswIndex S)
      → eqb key k ≡ false
      → get (unlink key h).levels k ≡ get h.levels k
  unfolding unlink
  unlink-others key k h ne = elim (Option-cases (get h.levels key)) [
    | inl absent ↦ rw (absent, unlink) refl
    | inr (lvl, there) ↦ rw (there, unlink) (get-remove h.levels key k ∙ rw ne refl)
  ]

  pub unlink-deleted : (key : ℕ) (h : HnswIndex S) → (unlink key h).deleted ≡ h.deleted
  unfolding unlink
  unlink-deleted key h = elim (Option-cases (get h.levels key)) [
    | inl absent ↦ rw (absent, unlink) refl
    | inr (lvl, there) ↦ rw (there, unlink) refl
  ]

  -- Marking a node as deleted keeps the invariant.
  remove_key-IsSound :
      (key : ℕ) (h h' : HnswIndex S) → IsSound c h → remove_key key h ≡ some h' → IsSound c h'
  unfolding remove_key
  remove_key-IsSound key h h' s e = elim (Bool-cases (is_some (get h.levels key))) [
    | inr y ↦ let none_got : none ≡ some h' = rw y at e in absurd (cc)
    | inl y ↦
        let got = some-is (rw y at e) in
        rw (← got) (record {
          graph = s.graph;
          deleted_known = λ k i. elim (Bool-cases (contains key h.deleted)) [
            | inl d ↦ s.deleted_known k (rw d at i)
            | inr d ↦ elim (rw d at i) [ inl same ↦ rw same y | inr old ↦ s.deleted_known k old ]
          ];
          deleted_once = elim (Bool-cases (contains key h.deleted)) [
            | inl d ↦ rw d s.deleted_once
            | inr d ↦
                rw d
                  ((λ i. let t = (contains_iff key h.deleted).1 i in absurd (cc)), s.deleted_once)
          ];
        })
  ]
    where
      some-is : {x y : HnswIndex S} → some x ≡ some y → x ≡ y
      some-is h = cc h
