-- ===== src/Collection/Mirror.antt =====
-- src/annex/db.py, src/annex/storage/lsm.py: the current documents of a collection are the live records
-- of its store, and so a restart shows them again.
use python_pj.Prelude.{
  ℕ, suc, ◌<◌, ◌≡◌, refl, sym, ap, subst, ◌∙◌, inl, inr, Bool, false, Option, none, some, String,
  [], arith, if◌then◌else◌, nat_eq, string_eq, ◌==◌, Bool-cases, Option-cases,
}
use python_pj.Prelude.Dict.{Dict, get, insert, get-insert}
use python_pj.Storage.Segment.{StoredRecord}
use python_pj.Storage.Lsm.{visible, next_seq, get_record}
use python_pj.Storage.Recovery.{Durable, Past}
use python_pj.Storage.Restart.{
  put-Durable, delete_record-Durable, next_seq-Durable, recover-view, recover-Keyed,
}
use python_pj.Storage.Tables.{put-table, put_record, delete_record-table}
use python_pj.Mvcc.{inf, new_registry}
use python_pj.Collection.{Engines, Collection, apply_upsert, delete_doc}
use python_pj.Collection.Snapshots.{Sound, document, kill_old-eq, kill-eq, document-insert, at_most}
use python_pj.Collection.Deletes.{document-remove}
use python_pj.Collection.Reads.{init_collection}
use python_pj.Collection.Reopened.{HasVector, TakesAll, stored_document, rebuild_from_store-Sound}

-- The current documents are the live records of the store, which have valid vectors.
pub record Mirrors {V J I T : Type 0} (y : Engines V V I T) (c : Collection V J I T) : Type 0 where
  pub docs : (id : String) → document c id ≡ stored_document (visible (get c.store.table id))
  pub vectors :
      (id : String) (r : StoredRecord V J) → visible (get c.store.table id) ≡ some r → HasVector y r

some_same : {A : Type 0} {a b : A} → some a ≡ some b → a ≡ b
some_same e = cc e

module _ {V J : Type 0} where
  visible-insert :
      (t : Dict String (StoredRecord V J)) (id j : String) (r : StoredRecord V J)
      → r.deleted ≡ false
      → visible (get (insert t id r) j) ≡ (if id == j then some r else visible (get t j))
  visible-insert t id j r live = elim (Bool-cases (id == j)) [
    | inl y ↦ rw (get-insert t id j r, y) (rw live refl)
    | inr n ↦ rw (get-insert t id j r, n) refl
  ]

module _ {V J I T : Type 0} (y : Engines V V I T) (c : Collection V J I T) (mirrors : Mirrors y c)
    (id : String) where
  -- A write of one record and of its document keeps the two in step.
  written-Mirrors :
      (d : Collection V J I T) (r : StoredRecord V J)
      → d.store.table ≡ insert c.store.table id r
      → r.deleted ≡ false
      → HasVector y r
      → ((j : String)
          → document d j ≡ (if id == j then some (r.seq, r.metadata, r.text) else document c j))
      → Mirrors y d
  written-Mirrors d r table live has docs =
      let seen : (j : String)
          → visible (get d.store.table j)
            ≡ (if id == j then some r else visible (get c.store.table j)) =
        λ j. ap (λ t. visible (get t j)) table ∙ visible-insert c.store.table id j r live in
      record {
        docs = λ j. elim (Bool-cases (id == j)) [
          | inl same ↦
              let here : visible (get d.store.table j) ≡ some r = seen j ∙ rw same refl in
              docs j ∙ rw (same, here) refl
          | inr n ↦
              let here : visible (get d.store.table j) ≡ visible (get c.store.table j) =
                seen j ∙ rw n refl in
              docs j ∙ rw (n, here) (mirrors.docs j)
        ];
        vectors = λ j q e. elim (Bool-cases (id == j)) [
          | inl same ↦
              let it : r ≡ q = some_same (sym (seen j ∙ rw same refl) ∙ e) in
              subst (λ w. HasVector y w) it has
          | inr n ↦ mirrors.vectors j q (sym (seen j ∙ rw n refl) ∙ e)
        ];
      }

module _ {R V J I T : Type 0} (x : Engines R V I T) (y : Engines V V I T)
    (again : (r : R) (v : V) → x.prepare r ≡ some v → (w : V) × (y.prepare v ≡ some w)) (now : ℕ)
    (c : Collection V J I T) (sound : Sound c) (durable : Durable c.store)
    (past : Past now c.store.segments) (room : suc c.store.seq < inf) (mirrors : Mirrors y c)
    (id : String) where
  apply_upsert-Mirrors :
      (r : R) (m : Dict String J) (t : Option String) (c' : Collection V J I T)
      → apply_upsert x now id r m t c ≡ some c'
      → Mirrors y c'
  unfolding apply_upsert next_seq
  apply_upsert-Mirrors r m t c' e = elim (Bool-cases (id == "")) [
    | inl unnamed ↦ let never : none ≡ some c' = rw unnamed at e in absurd (cc)
    | inr named ↦ elim (Option-cases (x.prepare r)) [
      | inl p ↦ let never : none ≡ some c' = rw (named, p) at e in absurd (cc)
      | inr (vec, p) ↦
          let (stored, put_eq, d) =
            put-Durable now (next_seq c.store) (next_seq-Durable c.store durable) past id
              (some (suc c.store.seq)) (at_most (suc c.store.seq)) vec m t in
          let (vs, killed, fresh, others, before) = kill_old-eq c sound room id in
          elim (Option-cases (x.add_vector c.next_key vec c.index)) [
            | inl a ↦
                let never : none ≡ some c' = rw (named, p, put_eq, killed, a) at e in absurd (cc)
            | inr (index, a) ↦
                let same = some_same (rw (named, p, put_eq, killed, a) at e) in
                let rec : StoredRecord V J =
                  put_record now (next_seq c.store) (next_seq-Durable c.store durable)
                    (some (suc c.store.seq)) (omega arith) id vec m t in
                let table : stored.table ≡ insert c.store.table id rec =
                  put-table now (next_seq c.store) (next_seq-Durable c.store durable)
                    (some (suc c.store.seq)) (omega arith) stored id vec m t put_eq in
                let (w, valid) = again r vec p in
                subst (λ k. Mirrors y k) same
                  (written-Mirrors y c mirrors id _ rec table refl (vec, w, refl, valid)
                    (document-insert c sound id vs others _))
          ]
    ]
  ]

  delete_doc-Mirrors :
      (b : Bool) (c' : Collection V J I T) → delete_doc x now id c ≡ some (b, c') → Mirrors y c'
  unfolding next_seq delete_doc
  delete_doc-Mirrors b c' e = elim (Option-cases (get c.current id)) [
    | inl gone ↦
        let same : some (false, c) ≡ some (b, c') = rw (delete_doc, gone) at e in
        subst (λ k. Mirrors y k) (ap (λ k. k.1) (some_same same)) mirrors
    | inr (key, there) ↦
        let (v, at, named, live) = sound.live id key there in
        let (stored, put_eq, d) =
          delete_record-Durable now (next_seq c.store) (next_seq-Durable c.store durable) past id
            (some (suc c.store.seq)) (at_most (suc c.store.seq)) in
        let same =
          some_same
            (rw (delete_doc, there, put_eq, kill-eq key (suc c.store.seq) c.versions v at) at e) in
        let seen =
          delete_record-table now (next_seq c.store) (next_seq-Durable c.store durable)
            (some (suc c.store.seq)) (omega arith) stored id put_eq in
        let left = document-remove c sound id key there v at named (suc c.store.seq) in
        subst (λ k. Mirrors y k) (ap (λ k. k.1) same)
          (record {
            docs = λ j. elim (Bool-cases (id == j)) [
              | inl here ↦
                  let none_left : visible (get stored.table j) ≡ none = seen j ∙ rw here refl in
                  left j ∙ rw (here, none_left) refl
              | inr n ↦
                  let kept : visible (get stored.table j) ≡ visible (get c.store.table j) =
                    seen j ∙ rw n refl in
                  left j ∙ rw (n, kept) (mirrors.docs j)
            ];
            vectors = λ j q f. elim (Bool-cases (id == j)) [
              | inl here ↦
                  let never : none ≡ some q = sym (seen j ∙ rw here refl) ∙ f in absurd (cc)
              | inr n ↦ mirrors.vectors j q (sym (seen j ∙ rw n refl) ∙ f)
            ];
          })
  ]

  -- In a sound collection whose store is durable, with the clock past its compactions and sequence
  -- numbers left, where a vector that was prepared can be prepared again: if the current documents are
  -- the live records of the store, they still are after an upsert that succeeds, and after a delete.
  pub writes-Mirror :
      ((r : R) (m : Dict String J) (t : Option String) (c' : Collection V J I T)
        → apply_upsert x now id r m t c ≡ some c'
        → Mirrors y c')
      × ((b : Bool) (c' : Collection V J I T) → delete_doc x now id c ≡ some (b, c') → Mirrors y c')
  writes-Mirror = (apply_upsert-Mirrors, delete_doc-Mirrors)

module _ {V J I T : Type 0} (y : Engines V V I T) (takes : TakesAll y) (index : I)
    (texts : Option T) where
  -- If the current documents of a collection are the live records of its store, which is durable, and
  -- the index takes every vector, then opening the files again succeeds, for any new indexes, with a
  -- sound collection whose current documents are the live records of its store, and which gives for
  -- every id the same document as before, with its birth, its metadata and its text, or none as before.
  pub init_collection-document :
      (c : Collection V J I T)
      → Durable c.store
      → Mirrors y c
      → (d : Collection V J I T) × (init_collection y index texts c.store.config c.store.dim
            c.store.disk
          ≡ some d)
        × Sound d
        × Mirrors y d
        × ((id : String) → document d id ≡ document c id)
  unfolding init_collection get_record
  init_collection-document c durable mirrors =
      let (u, opened, view) = recover-view c.store durable in
      let blank : Collection V J I T = record {
        store = u;
        index = index;
        texts = texts;
        versions = [];
        current = [];
        next_key = 0;
        snapshots = new_registry;
      } in
      let (d, rebuilt, sound, store, docs) =
        rebuild_from_store-Sound y takes blank refl refl
          (recover-Keyed c.store.config c.store.dim c.store.disk u opened)
          (λ id r e. mirrors.vectors id r (sym (view id) ∙ e)) in
      let table : (id : String) → visible (get d.store.table id) ≡ visible (get u.table id) =
        λ id. ap (λ s. visible (get s.table id)) store in
      (
        d,
        rw opened rebuilt,
        sound,
        record {
          docs = λ id. docs id ∙ sym (ap stored_document (table id));
          vectors = λ id r e. mirrors.vectors id r (sym (table id ∙ view id) ∙ e);
        },
        λ id. docs id ∙ ap stored_document (view id) ∙ sym (mirrors.docs id),
      )
