-- ===== src/Collection/Reopened.antt =====
-- src/annex/db.py: what `_rebuild_from_store` makes of the records of a store.
use python_pj.Prelude.{
  ℕ, ◌≡◌, refl, sym, ap, ◌∙◌, inl, inr, true, Option, none, some, String, List, [], ◌∷◌, arith, leb,
  keep, All, if◌then◌else◌, nat_eq, string_eq, ◌==◌, text_eq_iff, Bool-cases, Option-cases,
}
use python_pj.Prelude.Dict.{Dict, get, values}
use python_pj.Storage.Segment.{StoredRecord}
use python_pj.Storage.Lsm.{visible, is_live}
use python_pj.Storage.Keyed.{
  last_of-live, DistinctIds-live, Keyed, last_of-values, DistinctIds-values,
}
use python_pj.Storage.Replay.{or_else, last_of, DistinctIds}
use python_pj.Collection.{Engines, Collection}
use python_pj.Collection.Snapshots.{Sound, document, fresh-insert, live-insert, document-insert}
use python_pj.Collection.Reads.{
  insert_by_seq, sort_by_seq, rebuild_one, rebuild_each, rebuild_from_store,
}

module _ {V J : Type 0} where
  last_of-insert_by_seq :
      (r : StoredRecord V J) (rs : List (StoredRecord V J)) (id : String)
      → last_of rs r.id ≡ none
      → last_of (insert_by_seq r rs) id ≡ last_of (r ∷ rs) id
  unfolding insert_by_seq
  last_of-insert_by_seq r [] id h = refl
  last_of-insert_by_seq r (x ∷ xs) id h = elim (Bool-cases (leb r.seq x.seq)) [
    | inl le ↦ rw le refl
    | inr gt ↦
        rw (gt, last_of-insert_by_seq r xs id (ground (arith, h)))
          (ground (arith, h, text_eq_iff x.id r.id, text_eq_iff x.id id, text_eq_iff r.id id))
  ]

  pub last_of-sort_by_seq :
      (rs : List (StoredRecord V J)) (id : String)
      → DistinctIds rs
      → last_of (sort_by_seq rs) id ≡ last_of rs id
  unfolding sort_by_seq
  last_of-sort_by_seq [] id d = refl
  last_of-sort_by_seq (r ∷ rs) id d =
      last_of-insert_by_seq r (sort_by_seq rs) id (last_of-sort_by_seq rs r.id d.1 ∙ d.0)
      ∙ ap (λ o. or_else o (if r.id == id then some r else none)) (last_of-sort_by_seq rs id d.1)

  -- A property of every record is one of every record of the sorted list.
  All-insert_by_seq :
      (P : StoredRecord V J → Type 0) (r : StoredRecord V J) (rs : List (StoredRecord V J))
      → P r
      → All P rs
      → All P (insert_by_seq r rs)
  unfolding insert_by_seq
  All-insert_by_seq P r [] p a = (p, tt)
  All-insert_by_seq P r (x ∷ xs) p a = elim (Bool-cases (leb r.seq x.seq)) [
    | inl le ↦ rw le (p, a)
    | inr gt ↦ rw gt (a.0, All-insert_by_seq P r xs p a.1)
  ]

  pub All-sort_by_seq :
      (P : StoredRecord V J → Type 0) (rs : List (StoredRecord V J))
      → All P rs
      → All P (sort_by_seq rs)
  unfolding sort_by_seq
  All-sort_by_seq P [] a = tt
  All-sort_by_seq P (r ∷ rs) a =
      All-insert_by_seq P r (sort_by_seq rs) a.0 (All-sort_by_seq P rs a.1)

  -- What holds of the last record of every name holds of all of them, if no name comes twice.
  pub All-last_of :
      (P : StoredRecord V J → Type 0) (rs : List (StoredRecord V J))
      → DistinctIds rs
      → ((id : String) (r : StoredRecord V J) → last_of rs id ≡ some r → P r)
      → All P rs
  All-last_of P [] d h = tt
  All-last_of P (r ∷ rs) d h =
      let self : (r.id == r.id) ≡ true = (text_eq_iff r.id r.id).1 refl in
      (h r.id r (rw (d.0, self) refl), All-last_of P rs d.1 (λ id q e. h id q (rw e refl)))

  -- what a reader is shown of a stored record
  abbrev pub stored_document :
      Option (StoredRecord V J) → Option (ℕ × Dict String J × Option String)
  stored_document none = none
  stored_document (some r) = some (r.seq, r.metadata, r.text)

  -- a second document, for the names that the records do not have
  abbrev pub shown_or :
      Option (StoredRecord V J)
      → Option (ℕ × Dict String J × Option String)
      → Option (ℕ × Dict String J × Option String)
  shown_or none old = old
  shown_or (some r) old = some (r.seq, r.metadata, r.text)

module _ {V I T : Type 0} (x : Engines V V I T) where
  -- The record has a vector that is valid.
  abbrev pub HasVector : {J : Type 0} → StoredRecord V J → Type 0
  HasVector r = (v : V) × (w : V) × (r.vector ≡ some v) × (x.prepare v ≡ some w)

  -- The index takes every valid vector.
  abbrev pub TakesAll : Type 0
  TakesAll = (key : ℕ) (v : V) (index : I) → (index' : I) × (x.add_vector key v index ≡ some index')

module _ {V J I T : Type 0} (x : Engines V V I T) (takes : TakesAll x) where
  rebuild_one-Sound :
      (r : StoredRecord V J) (c : Collection V J I T)
      → HasVector x r
      → Sound c
      → (d : Collection V J I T) × (rebuild_one x r c ≡ some d)
        × Sound d
        × (d.store ≡ c.store)
        × ((id : String)
            → document d id
              ≡ (if r.id == id then some (r.seq, r.metadata, r.text) else document c id))
  unfolding rebuild_one
  rebuild_one-Sound r c (v, w, has, valid) sound =
      let (index, added) = takes c.next_key w c.index in
      rw (has, valid, added)
        (
          _,
          refl,
          record {
            fresh = fresh-insert c.versions c.next_key _ sound.fresh;
            live = live-insert c sound r.id c.versions (λ j k f n. refl) _ refl refl;
          },
          refl,
          document-insert c sound r.id c.versions (λ j k f n. refl) _,
        )

  rebuild_each-Sound :
      (rs : List (StoredRecord V J)) (c : Collection V J I T)
      → All (HasVector x) rs
      → Sound c
      → (d : Collection V J I T) × (rebuild_each x rs c ≡ some d)
        × Sound d
        × (d.store ≡ c.store)
        × ((id : String) → document d id ≡ shown_or (last_of rs id) (document c id))
  unfolding rebuild_each
  rebuild_each-Sound [] c a sound = (c, refl, sound, refl, λ id. refl)
  rebuild_each-Sound (r ∷ rs) c a sound =
      let (c1, one, sound1, store1, docs1) = rebuild_one-Sound r c a.0 sound in
      let (d, rest, sound2, store2, docs2) = rebuild_each-Sound rs c1 a.1 sound1 in
      (
        d,
        rw one rest,
        sound2,
        store2 ∙ store1,
        λ id. docs2 id ∙ elim (Option-cases (last_of rs id)) [
          | inr (q, e) ↦ rw e refl
          | inl e ↦ elim (Bool-cases (r.id == id)) [
            | inl y ↦ rw (e, y) (docs1 id ∙ rw y refl)
            | inr n ↦ rw (e, n) (docs1 id ∙ rw n refl)
          ]
        ],
      )

  -- A collection without documents, over a store whose table has each record under its name and in
  -- which the live records have valid vectors, is rebuilt with the documents of these records.
  pub rebuild_from_store-Sound :
      (c : Collection V J I T)
      → c.versions ≡ []
      → c.current ≡ []
      → Keyed c.store.table
      → ((id : String) (r : StoredRecord V J)
          → visible (get c.store.table id) ≡ some r
          → HasVector x r)
      → (d : Collection V J I T) × (rebuild_from_store x c ≡ some d)
        × Sound d
        × (d.store ≡ c.store)
        × ((id : String) → document d id ≡ stored_document (visible (get c.store.table id)))
  unfolding rebuild_from_store get
  rebuild_from_store-Sound c no_versions no_current keyed vectors =
      let rs = values c.store.table in
      let live = keep is_live rs in
      let distinct : DistinctIds live =
        DistinctIds-live rs (DistinctIds-values c.store.table keyed) in
      let held : (id : String) → last_of live id ≡ visible (get c.store.table id) = λ id.
        last_of-live rs id (DistinctIds-values c.store.table keyed)
        ∙ ap visible (last_of-values c.store.table id keyed) in
      let sound : Sound c = record {
        fresh = λ key le. rw no_versions refl;
        live = λ id key e. let never : none ≡ some key = rw no_current at e in absurd (cc);
      } in
      let each : All (HasVector x) (sort_by_seq live) =
        All-sort_by_seq (HasVector x) live
          (All-last_of (HasVector x) live distinct (λ id r e. vectors id r (sym (held id) ∙ e))) in
      let (d, rebuilt, sound', store, docs) = rebuild_each-Sound (sort_by_seq live) c each sound in
      (
        d,
        rebuilt,
        sound',
        store,
        λ id.
            docs id
            ∙ ap (λ o. shown_or o (document c id)) (last_of-sort_by_seq live id distinct ∙ held id)
            ∙ only (visible (get c.store.table id)) (document c id) (rw no_current refl),
      )
    where
      only :
          (o : Option (StoredRecord V J)) (old : Option (ℕ × Dict String J × Option String))
          → old ≡ none
          → shown_or o old ≡ stored_document o
      only none old e = e
      only (some r) old e = refl
