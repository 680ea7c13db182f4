-- ===== src/Storage/Restart.antt =====
-- src/annex/storage/lsm.py: the operations and the relation of the files to the table, and opening
-- the files again.
use mathlib.Core.List.{append-nil}
use python_pj.Prelude.{
  ℕ, suc, ◌≤◌, ◌≡◌, refl, sym, ap, subst, Bool-cases, ◌∙◌, inl, inr, String, true, Option, none,
  some, List, [], ◌∷◌, ◌++◌, arith, eqb, string_eq, Option-cases,
}
use python_pj.Prelude.Dict.{Dict, get}
use python_pj.Storage.Segment.{StoredRecord}
use python_pj.Storage.Lsm.{
  name_eq, StorageConfig, Disk, manifest_of, load, LogFrame, LsmStore, body_record, apply_all,
  write_manifest, log_frame, store_record, put, visible, get_record, delete_record, checkpoint,
  next_seq, recovered, replay_wal, recover,
}
use python_pj.Storage.Keyed.{AllUpTo, Keyed, Keyed-apply_all}
use python_pj.Storage.Replay.{get-apply_all, Ascending-Fits}
use python_pj.Storage.Recovery.{
  Durable, wal_records, with_record, wal_records-append, Past, store_record-Durable,
}
use python_pj.Storage.Flush.{after_mutation-Durable}
use python_pj.Storage.Lsm.{put_frame, delete_frame, checkpoint_frame, given_seq}

module _ {V J : Type 0} where
  given-le :
      (seq : Option ℕ) (s : LsmStore V J)
      → ((q : ℕ) → seq ≡ some q → s.seq ≤ q)
      → s.seq ≤ given_seq seq s
  given-le none s h = omega arith
  given-le (some q) s h = h q refl

module _ {V J : Type 0} where
  AllUpTo-le : (b c : ℕ) (rs : List (StoredRecord V J)) → b ≤ c → AllUpTo b rs → AllUpTo c rs
  AllUpTo-le b c [] le a = tt
  AllUpTo-le b c (r ∷ rs) le (h, a) = (omega arith, AllUpTo-le b c rs le a)

  pub next_seq-Durable : (s : LsmStore V J) → Durable s → Durable (next_seq s)
  unfolding next_seq
  next_seq-Durable s d = record {
    base = d.base;
    loaded = d.loaded;
    listed = d.listed;
    same_dim = d.same_dim;
    numbered = d.numbered;
    low = d.low;
    base_low = d.base_low;
    rising = d.rising;
    low_top = omega (arith, d.low_top);
    wal_top = AllUpTo-le s.seq (suc s.seq) _ (omega arith) d.wal_top;
    table_top = λ i r e. omega (arith, d.table_top i r e);
    mem = d.mem;
    mem_keyed = d.mem_keyed;
    shown = d.shown;
  }

module _ {V J : Type 0} (now : ℕ) (s : LsmStore V J) (d : Durable s) (past : Past now s.segments)
    (id : String) (seq : Option ℕ) (in_order : (q : ℕ) → seq ≡ some q → s.seq ≤ q) where
  -- On a durable store, with the clock past its compactions, a put whose sequence number, if it is
  -- given one, is not behind the store's, succeeds and leaves a durable store, through any flush and
  -- compaction that it starts.
  pub put-Durable :
      (v : V) (m : Dict String J) (t : Option String)
      → (u : LsmStore V J) × (put now id v m t seq s ≡ some u) × Durable u
  unfolding put
  put-Durable v m t =
      after_mutation-Durable now _
        (store_record-Durable s d (given_seq seq s) (given-le seq s in_order) (put_frame id v m t) _
          refl refl)
        (unfold store_record in past)

  -- On a durable store, with the clock past its compactions, a delete whose sequence number, if it
  -- is given one, is not behind the store's, succeeds and leaves a durable store, whether or not the
  -- record is there.
  pub delete_record-Durable : (u : LsmStore V J) × (delete_record now id seq s ≡ some u) × Durable u
  unfolding delete_record
  delete_record-Durable = elim (Option-cases (visible (get s.table id))) [
    | inl e ↦ (s, rw (e, delete_record) refl, d)
    | inr (x, e) ↦
        rw (e, delete_record)
          (after_mutation-Durable now _
            (store_record-Durable s d (given_seq seq s) (given-le seq s in_order) (delete_frame id)
              _ refl refl)
            (unfold store_record in past))
  ]

module _ {V J : Type 0} (s : LsmStore V J) (d : Durable s) where
  -- A checkpoint of a durable store leaves it durable.
  pub checkpoint-Durable : Durable (checkpoint s)
  unfolding checkpoint log_frame write_manifest
  checkpoint-Durable =
      let e : wal_records (s.disk.wal ++ record { seq = s.seq; body = checkpoint_frame } ∷ [])
          ≡ wal_records s.disk.wal =
        wal_records-append s.disk.wal (record { seq = s.seq; body = checkpoint_frame })
        ∙ append-nil _ in
      record {
        base = d.base;
        loaded = d.loaded;
        listed = refl;
        same_dim = refl;
        numbered = d.numbered;
        low = d.low;
        base_low = d.base_low;
        rising = rw e d.rising;
        low_top = d.low_top;
        wal_top = rw e d.wal_top;
        table_top = d.table_top;
        mem = λ i. rw e (d.mem i);
        mem_keyed = d.mem_keyed;
        shown = λ i. rw e (d.shown i);
      }

eqb-true : (a b : ℕ) → a ≡ b → eqb a b ≡ true
eqb-true a b e = ground (arith, e)

module _ {V J : Type 0} where
  recovered-table :
      (o : Option (StoredRecord V J)) (s : LsmStore V J) (rs : List (StoredRecord V J))
      → apply_all rs (recovered o s).table ≡ apply_all (with_record o rs) s.table
  unfolding apply_all
  recovered-table none s rs = refl
  recovered-table (some r) s rs = refl

  replay_wal-table :
      (fs : List (LogFrame V J)) (s : LsmStore V J)
      → (replay_wal fs s).table ≡ apply_all (wal_records fs) s.table
  unfolding replay_wal apply_all
  replay_wal-table [] s = refl
  replay_wal-table (f ∷ fs) s =
      replay_wal-table fs _ ∙ recovered-table (body_record f.seq f.body) s (wal_records fs)

  -- For a store whose files are in step with its table (Durable), opening its files again succeeds,
  -- and the store that is opened gives for every id the record that the first one gives.
  pub recover-view :
      (s : LsmStore V J)
      → Durable s
      → (u : LsmStore V J) × (recover s.config s.dim s.disk ≡ some u)
        × ((id : String) → get_record u id ≡ get_record s id)
  unfolding recover get_record
  recover-view s d =
      rw (eqb-true _ _ d.same_dim, d.listed, d.loaded)
        (
          _,
          refl,
          λ id.
              rw
                (
                  replay_wal-table,
                  get-apply_all (wal_records s.disk.wal) (apply_all d.base []) id
                      (Ascending-Fits d.low _ _ d.base_low d.rising),
                  d.shown id,
                )
                refl,
        )

  -- The table of a store that was opened has its records under their names.
  pub recover-Keyed :
      (config : StorageConfig) (dim : ℕ) (disk : Disk V J) (u : LsmStore V J)
      → recover config dim disk ≡ some u
      → Keyed u.table
  unfolding recover
  recover-Keyed config dim disk u e =
      let m = manifest_of dim disk.manifest in
      elim (Bool-cases (eqb m.dim dim)) [
        | inr n ↦ let never : none ≡ some u = rw n at e in absurd (cc)
        | inl y ↦ elim (Option-cases (load disk.files m.segments)) [
          | inl l ↦ let never : none ≡ some u = rw (y, l) at e in absurd (cc)
          | inr (rs, l) ↦
              let start : LsmStore V J = record {
                table = apply_all rs [];
                memtable = [];
                segments = m.segments;
                seq = m.seq;
                mutations = 0;
                dim = dim;
                config = config;
                disk = disk;
              } in
              let opened : some (replay_wal disk.wal start) ≡ some u = rw (y, l) at e in
              let table : apply_all (wal_records disk.wal) (apply_all rs []) ≡ u.table =
                sym (replay_wal-table disk.wal start) ∙ ap (λ w. w.table) (store_same opened) in
              subst (λ t. Keyed t) table
                (Keyed-apply_all (wal_records disk.wal) (apply_all rs [])
                  (Keyed-apply_all rs [] tt))
        ]
      ]
    where
      store_same : {a b : LsmStore V J} → some a ≡ some b → a ≡ b
      store_same f = cc f
