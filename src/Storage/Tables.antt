-- ===== src/Storage/Tables.antt =====
-- src/annex/storage/lsm.py: the table after a write, through any flush and compaction that it starts.
use python_pj.Prelude.{
  ℕ, suc, ◌≤◌, ◌≡◌, refl, sym, ap, ◌∙◌, inl, inr, String, true, false, [], ◌==◌, text_eq_iff,
  Option, none, some, arith, length, ltb, leb, eqb, if◌then◌else◌, string_eq, Bool-cases,
  Option-cases,
}
use python_pj.Prelude.Dict.{Dict, get, insert, get-insert}
use python_pj.Storage.Segment.{StoredRecord}
use python_pj.Storage.Lsm.{
  LsmStore, Body, put_frame, delete_frame, load, merge_into, write_manifest, compact,
  flush_memtable, flush, after_mutation, apply_entry, store_record, log_frame, put, delete_record,
  visible, given_seq,
}
use python_pj.Storage.Replay.{newer-Bounded}
use python_pj.Storage.Recovery.{Durable}

some_same : {A : Type 0} {a b : A} → some a ≡ some b → a ≡ b
some_same e = cc e

module _ {V J : Type 0} where
  -- the table of a store and its last sequence number
  abbrev held : LsmStore V J → Dict String (StoredRecord V J) × ℕ
  held s = (s.table, s.seq)

module _ {V J : Type 0} (now : ℕ) where
  compact-held : (s u : LsmStore V J) → compact now s ≡ some u → held u ≡ held s
  unfolding compact merge_into write_manifest
  compact-held s u e = elim (Bool-cases (ltb (length s.segments) 2)) [
    | inl y ↦ let same : some s ≡ some u = rw y at e in sym (ap (λ t. held t) (some_same same))
    | inr n ↦ elim (Option-cases (load s.disk.files s.segments)) [
      | inl l ↦ let never : none ≡ some u = rw (n, l) at e in absurd (cc)
      | inr (rs, l) ↦ let same = some_same (rw (n, l) at e) in sym (ap (λ t. held t) same)
    ]
  ]

  flush-held : (s u : LsmStore V J) → flush now s ≡ some u → held u ≡ held s
  unfolding flush flush_memtable write_manifest
  flush-held s u e = elim (Bool-cases (eqb (length s.memtable) 0)) [
    | inl y ↦ let same : some s ≡ some u = rw y at e in sym (ap (λ t. held t) (some_same same))
    | inr n ↦
        let s1 = flush_memtable now s in
        elim (Bool-cases (leb s1.config.compaction_trigger (length s1.segments))) [
          | inl y ↦ compact-held s1 u (rw (n, y) at e)
          | inr m ↦
              let same : some s1 ≡ some u = rw (n, m) at e in
              sym (ap (λ t. held t) (some_same same))
        ]
  ]

  after_mutation-held : (s u : LsmStore V J) → after_mutation now s ≡ some u → held u ≡ held s
  unfolding after_mutation
  after_mutation-held s u e =
      let s1 = record s { mutations = suc s.mutations } in
      elim (Bool-cases (leb s1.config.memtable_max_records (length s1.memtable))) [
        | inl y ↦ flush-held s1 u (rw y at e)
        | inr m ↦ let same : some s1 ≡ some u = rw m at e in sym (ap (λ t. held t) (some_same same))
      ]

module _ {V J : Type 0} (now : ℕ) (s : LsmStore V J) (d : Durable s) (seq : Option ℕ)
    (later : s.seq ≤ given_seq seq s) where
  store_record-table :
      (body : Body V J) (r : StoredRecord V J)
      → r.seq ≡ given_seq seq s
      → (store_record (given_seq seq s) body r s).table ≡ insert s.table r.id r
  unfolding store_record log_frame apply_entry
  store_record-table body r dated =
      rw (newer-Bounded s.seq s.table r d.table_top (omega (arith, later, dated))) refl

  abbrev pub put_record : String → V → Dict String J → Option String → StoredRecord V J
  put_record id v m t = record {
    id = id;
    vector = some v;
    metadata = m;
    text = t;
    seq = given_seq seq s;
    deleted = false;
  }

  abbrev tombstone : String → StoredRecord V J
  tombstone id = record {
    id = id;
    vector = none;
    metadata = [];
    text = none;
    seq = given_seq seq s;
    deleted = true;
  }

  -- A put on a durable store, with a sequence number that is not behind, puts its record into the table.
  pub put-table :
      (u : LsmStore V J) (id : String) (v : V) (m : Dict String J) (t : Option String)
      → put now id v m t seq s ≡ some u
      → u.table ≡ insert s.table id (put_record id v m t)
  unfolding put
  put-table u id v m t e =
      let s1 = store_record (given_seq seq s) (put_frame id v m t) (put_record id v m t) s in
      ap (λ h. h.0) (after_mutation-held now s1 u e)
      ∙ store_record-table (put_frame id v m t) (put_record id v m t) refl

  -- After a delete the record is not there, and the others are.
  pub delete_record-table :
      (u : LsmStore V J) (id : String)
      → delete_record now id seq s ≡ some u
      → (j : String) → visible (get u.table j) ≡ (if id == j then none else visible (get s.table j))
  unfolding delete_record
  delete_record-table u id e j = elim (Option-cases (visible (get s.table id))) [
    | inl gone ↦
        let kept : some s ≡ some u = rw (delete_record, gone) at e in
        elim (Bool-cases (id == j)) [
          | inl y ↦
              let here : visible (get s.table j) ≡ none =
                sym (ap (λ i. visible (get s.table i)) ((text_eq_iff id j).0 y)) ∙ gone in
              rw y (ap (λ w. visible (get w.table j)) (sym (some_same kept)) ∙ here)
          | inr n ↦ rw n (ap (λ w. visible (get w.table j)) (sym (some_same kept)))
        ]
    | inr (r, there) ↦
        let s1 = store_record (given_seq seq s) (delete_frame id) (tombstone id) s in
        let table : u.table ≡ insert s.table id (tombstone id) =
          ap (λ h. h.0) (after_mutation-held now s1 u (rw (delete_record, there) at e))
          ∙ store_record-table (delete_frame id) (tombstone id) refl in
        elim (Bool-cases (id == j)) [
          | inl y ↦ rw (table, get-insert s.table id j (tombstone id), y) refl
          | inr n ↦ rw (table, get-insert s.table id j (tombstone id), n) refl
        ]
  ]

  -- A put and a delete do not lower the sequence number.
  pub put-later :
      (u : LsmStore V J) (id : String) (v : V) (m : Dict String J) (t : Option String)
      → put now id v m t seq s ≡ some u
      → s.seq ≤ u.seq
  unfolding put store_record log_frame
  put-later u id v m t e =
      let s1 = store_record (given_seq seq s) (put_frame id v m t) (put_record id v m t) s in
      omega (arith, later, ap (λ h. h.1) (after_mutation-held now s1 u e))

  pub delete_record-later :
      (u : LsmStore V J) (id : String) → delete_record now id seq s ≡ some u → s.seq ≤ u.seq
  unfolding delete_record store_record log_frame
  delete_record-later u id e = elim (Option-cases (visible (get s.table id))) [
    | inl gone ↦
        let kept : some s ≡ some u = rw (delete_record, gone) at e in
        omega (arith, ap (λ w. w.seq) (some_same kept))
    | inr (r, there) ↦
        let s1 = store_record (given_seq seq s) (delete_frame id) (tombstone id) s in
        omega (
          arith,
          later,
          ap (λ h. h.1) (after_mutation-held now s1 u (rw (delete_record, there) at e)),
        )
  ]
