-- ===== src/Collection/Kept.antt =====
-- src/annex/db.py: the current documents of a collection before and after `rebuild_index`.
use python_pj.Prelude.{
  ℕ, ◌≡◌, refl, sym, ap, ◌∙◌, subst, inl, inr, Option, none, some, String, List, [], ◌∷◌, arith,
  length, map, All, if◌then◌else◌, nat_eq, string_eq,
}
use python_pj.Prelude.Dict.{Dict, get, values}
use python_pj.Prelude.Once.{Once}
use python_pj.Mvcc.{Version, inf}
use python_pj.Collection.{Collection}
use python_pj.Collection.Snapshots.{Sound, document_of, document}
use python_pj.Collection.Rebuild.{
  Builders, live_of, renumbered, current_of, add_live, rebuild_index,
}
use python_pj.Collection.Rebuilt.{
  Row, current_rows, live_rows, remap_rows, version_rows, new_rows, AreCurrent, live_of-rows,
  current_of-rows, add_live-rows, renumber-rows,
}
use python_pj.Collection.Carried.{rows_of, kept, version_rows-fresh}

module _ {J : Type 0} where
  kept-document :
      (versions : Dict ℕ (Version J)) (rows : List (Row J)) (id : String)
      → AreCurrent versions rows
      → document_of (new_rows 0 rows) (version_rows 0 rows) id
        ≡ document_of (current_rows rows) versions id
  kept-document versions rows id a = elim (kept versions 0 rows id a) [
    | inl (o, n) ↦ rw (o, n) refl
    | inr k ↦ rw (k.new_current, k.old_current) (rw (k.new_version, k.old_version) refl)
  ]

  kept-live :
      (versions : Dict ℕ (Version J)) (rows : List (Row J)) (id : String) (key : ℕ)
      → AreCurrent versions rows
      → get (new_rows 0 rows) id ≡ some key
      → (v : Version J) × (get (version_rows 0 rows) key ≡ some v)
        × (v.doc_id ≡ id)
        × (v.dead ≡ inf)
  kept-live versions rows id key a e = elim (kept versions 0 rows id a) [
    | inl (o, n) ↦ absurd (cc)
    | inr k ↦
        let same : some k.new_key ≡ some key = sym k.new_current ∙ e in
        (
          renumbered k.new_key k.version,
          subst (λ j. get (version_rows 0 rows) j ≡ some (renumbered k.new_key k.version)) (cc same)
              k.new_version,
          k.own,
          refl,
        )
  ]

module _ {V J I T : Type 0} where
  module _ (x : Builders V I T) (c : Collection V J I T) where
    all-fresh : (rows : List (Row J)) → All (λ r. get {V = ℕ} [] r.key ≡ none) rows
    unfolding get
    all-fresh [] = tt
    all-fresh (r ∷ rows) = (refl, all-fresh rows)

    all-new : (rows : List (Row J)) → All (λ r. get {V = ℕ} [] r.id ≡ none) rows
    unfolding get
    all-new [] = tt
    all-new (r ∷ rows) = (refl, all-new rows)

    -- Rebuilding the index of a sound collection, whose current documents are a dict with each id once,
    -- succeeds, leaves a sound collection, and for every id gives the same document as before, with its
    -- birth, its metadata and its text, or none as before.
    pub rebuild_index-document :
        Sound c
        → Once c.current
        → (d : Collection V J I T) × (rebuild_index x c ≡ some d)
          × Sound d
          × ((id : String) → document d id ≡ document c id)
    unfolding rebuild_index get
    rebuild_index-document sound once =
        let h = rows_of c.versions c.current once sound.live in
        let live = live_of-rows c.versions h.rows h.are_current in
        let from : live_of (values c.current) c.versions ≡ some (live_rows h.rows) =
          subst (λ d. live_of (values d) c.versions ≡ some (live_rows h.rows)) h.same live in
        let fresh : I = x.build (map (λ l. x.vector_of c.index l.0) (live_rows h.rows)) in
        let added : I × Dict ℕ ℕ = add_live x c.index 0 (live_rows h.rows) (fresh, []) in
        let remap : added.1 ≡ remap_rows 0 h.rows =
          add_live-rows x c.index 0 h.rows fresh [] h.apart (all-fresh h.rows) in
        let texts : Option T = if x.enable_text_index then some x.new_texts else none in
        let (b, numbered) =
          renumber-rows x 0 h.rows c.versions [] texts h.are_current (λ k le. refl) in
        let current : current_of (version_rows 0 h.rows) [] ≡ new_rows 0 h.rows =
          current_of-rows 0 h.rows c.versions [] h.are_current h.apart (all-new h.rows) in
        let versions : Dict ℕ (Version J) = version_rows 0 h.rows in
        let d : Collection V J I T = record c {
          index = added.0;
          texts = b;
          versions = versions;
          current = new_rows 0 h.rows;
          next_key = length versions;
        } in
        (
          d,
          rw (from, remap, numbered, current) refl,
          record {
            fresh = λ key le. version_rows-fresh 0 h.rows key (omega (arith, le));
            live = λ id key e. kept-live c.versions h.rows id key h.are_current e;
          },
          λ id.
              kept-document c.versions h.rows id h.are_current
              ∙ ap (λ current. document_of current c.versions id) h.same,
        )
