-- ===== src/Collection/Deletes.antt =====
-- src/annex/db.py: deleting a document, and what a reader at a snapshot sees.
use python_pj.Prelude.{
  ℕ, subst, eqb, suc, ◌≤◌, ◌<◌, ◌≡◌, refl, ◌∙◌, sym, inl, inr, Bool, true, false, none, some,
  String, arith, nat_eq, string_eq, ◌==◌, Bool-cases, Option-cases, text_eq_iff, if◌then◌else◌,
  eq_refl,
}
use python_pj.Prelude.Dict.{get, insert, remove, get-insert, get-remove}
use python_pj.Storage.Lsm.{next_seq}
use python_pj.Storage.Tables.{delete_record-later}
use python_pj.Storage.Recovery.{Durable, Past}
use python_pj.Storage.Restart.{next_seq-Durable, delete_record-Durable}
use python_pj.Mvcc.{Version, inf}
use python_pj.Collection.{Engines, Collection, delete_doc}
use python_pj.Collection.Snapshots.{
  Sound, Writes, document, document_of, seen, kill-eq, shown-ended, at_most,
}

module _ {V J I T : Type 0} (c : Collection V J I T) (sound : Sound c) (id : String) (key : ℕ)
    (e : get c.current id ≡ some key) (v : Version J) (at : get c.versions key ≡ some v)
    (named : v.doc_id ≡ id) (seq : ℕ) where
  live-remove :
      (j : String) (k : ℕ)
      → get (remove c.current id) j ≡ some k
      → (w : Version J) × (get (insert c.versions key (record v { dead = seq })) k ≡ some w)
        × (w.doc_id ≡ j)
        × (w.dead ≡ inf)
  live-remove j k f =
      let found : (if id == j then none else get c.current j) ≡ some k =
        sym (get-remove c.current id j) ∙ f in
      elim (Bool-cases (id == j)) [
        | inl y ↦ ground (arith, y, found)
        | inr y ↦
            let there : get c.current j ≡ some k = ground (arith, y, found) in
            let (w, here, name, alive) = sound.live j k there in
            (
              w,
              rw get-insert (ground (arith, here, at, named, name, y, text_eq_iff id j)),
              name,
              alive,
            )
      ]

  -- The deleted document is gone, and the other documents are what they were.
  pub document-remove :
      (j : String)
      → document_of (remove c.current id) (insert c.versions key (record v { dead = seq })) j
        ≡ (if id == j then none else document c j)
  document-remove j = elim (Bool-cases (id == j)) [
    | inl same ↦ rw (get-remove c.current id j, same) refl
    | inr n ↦ elim (Option-cases (get c.current j)) [
      | inl gone ↦ rw (get-remove c.current id j, n, gone) refl
      | inr (k, f) ↦
          let (w, there, name, alive) = sound.live j k f in
          let other : eqb key k ≡ false =
            ground (arith, at, there, named, name, n, text_eq_iff id j) in
          rw (get-remove c.current id j, n, f)
            (rw (get-insert c.versions key k (record v { dead = seq }), other) refl)
    ]
  ]

module _ {R V J I T : Type 0} (x : Engines R V I T) (now : ℕ) (c : Collection V J I T)
    (sound : Sound c) (durable : Durable c.store) (past : Past now c.store.segments)
    (room : suc c.store.seq < inf) (id : String) where
  absent :
      get c.current id ≡ none
      → (j : String) → document c j ≡ (if id == j then none else document c j)
  absent e j = elim (Bool-cases (id == j)) [
    | inl y ↦ rw y (subst (λ i. document c i ≡ none) ((text_eq_iff id j).0 y) (rw e refl))
    | inr n ↦ rw n refl
  ]

  pub delete_doc-Writes :
      (b : Bool) × (c' : Collection V J I T) × (delete_doc x now id c ≡ some (b, c'))
      × (get c'.current id ≡ none)
      × Writes c id none c'
  unfolding delete_doc next_seq
  delete_doc-Writes = elim (Option-cases (get c.current id)) [
    | inl e ↦ (
      false,
      c,
      rw (e, delete_doc) refl,
      e,
      record {
        sound = sound;
        durable = durable;
        later = omega arith;
        earlier = λ snap k le. refl;
        documents = absent e;
      },
    )
    | inr (key, e) ↦
        let (v, at, named, live) = sound.live id key e in
        let (stored, gone, d) =
          delete_record-Durable now (next_seq c.store) (next_seq-Durable c.store durable) past id
            (some (suc c.store.seq)) (at_most (suc c.store.seq)) in
        (
          true,
          record c {
            store = stored;
            versions = insert c.versions key (record v { dead = suc c.store.seq });
            current = remove c.current id;
          },
          rw (e, delete_doc, gone, kill-eq key (suc c.store.seq) c.versions v at) refl,
          rw (get-remove, eq_refl id) refl,
          record {
            sound = record {
              fresh = λ k le. rw get-insert (ground (arith, at, sound.fresh key, sound.fresh k le));
              live = live-remove c sound id key e v at named (suc c.store.seq);
            };
            durable = d;
            later = omega (
              arith,
              delete_record-later now (next_seq c.store) (next_seq-Durable c.store durable)
                  (some (suc c.store.seq)) (omega arith) stored id gone,
            );
            earlier = λ snap k le.
                shown-ended snap (suc c.store.seq) key k c.versions v at live (omega arith) room;
            documents = document-remove c sound id key e v at named (suc c.store.seq);
          },
        )
  ]

  -- A delete on a sound collection whose store is durable, with the clock past its compactions and
  -- sequence numbers left, succeeds, whether or not the document is there, leaves the collection
  -- sound, its store durable and the document gone, and a reader at an earlier sequence number sees
  -- under every key what it saw.
  pub delete_doc-Sound :
      (b : Bool) × (c' : Collection V J I T) × (delete_doc x now id c ≡ some (b, c'))
      × Sound c'
      × Durable c'.store
      × (get c'.current id ≡ none)
      × ((snap k : ℕ) → snap ≤ c.store.seq → seen c' snap k ≡ seen c snap k)
  delete_doc-Sound =
      let (b, c', e, gone, w) = delete_doc-Writes in (b, c', e, w.sound, w.durable, gone, w.earlier)
