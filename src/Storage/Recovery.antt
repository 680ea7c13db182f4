-- ===== src/Storage/Recovery.antt =====
-- src/annex/storage/lsm.py: the relation of what is on disk to the table in memory.
use python_pj.Prelude.{
  ℕ, ◌≤◌, ◌<◌, max, ◌≡◌, refl, ap, ◌∙◌, String, true, false, Option, none, some, List, [], ◌∷◌,
  ◌++◌, arith, if◌then◌else◌, length, ◌==◌, string_eq,
}
use python_pj.Prelude.Dict.{get, insert, get-insert}
use python_pj.Storage.Segment.{StoredRecord}
use python_pj.Storage.Lsm.{
  SegmentName, name_eq, Body, LogFrame, manifest_of, LsmStore, body_record, apply_entry, apply_all,
  load, store_record, visible,
}
use python_pj.Storage.Keyed.{
  Keyed, Keyed-insert, last_of-append, AllUpTo, AllUpTo-append, Ascending-append,
}
use python_pj.Storage.Replay.{or_else, last_of, Ascending, Bounded, newer-Bounded, Bounded-insert}

module _ {V J : Type 0} where
  abbrev pub with_record :
      Option (StoredRecord V J) → List (StoredRecord V J) → List (StoredRecord V J)
  with_record none rs = rs
  with_record (some r) rs = r ∷ rs

  -- the records in the log
  abbrev pub wal_records : List (LogFrame V J) → List (StoredRecord V J)
  wal_records [] = []
  wal_records (f ∷ fs) = with_record (body_record f.seq f.body) (wal_records fs)

  with_record-append :
      (o : Option (StoredRecord V J)) (xs ys : List (StoredRecord V J))
      → with_record o (xs ++ ys) ≡ with_record o xs ++ ys
  with_record-append none xs ys = refl
  with_record-append (some r) xs ys = refl

  pub wal_records-append :
      (fs : List (LogFrame V J)) (f : LogFrame V J)
      → wal_records (fs ++ f ∷ []) ≡ wal_records fs ++ with_record (body_record f.seq f.body) []
  wal_records-append [] f = refl
  wal_records-append (g ∷ fs) f =
      ap (with_record (body_record g.seq g.body)) (wal_records-append fs f)
      ∙ with_record-append (body_record g.seq g.body) (wal_records fs) _

-- No segment that was not compacted has the number that the next one gets.
abbrev pub Numbered : ℕ → List SegmentName → Type 0
Numbered n [] = Unit
Numbered n (m ∷ ms) = (m.compacted ≡ false → m.number < n) × Numbered n ms

-- The clock has moved on since each compaction.
abbrev pub Past : ℕ → List SegmentName → Type 0
Past now [] = Unit
Past now (m ∷ ms) = (m.compacted ≡ true → m.at < now) × Past now ms

-- What relates a store to its files. `base` holds the records of its segments, `low` the highest
-- sequence number among them.
pub record Durable {V J : Type 0} (s : LsmStore V J) : Type 0 where
  pub base : List (StoredRecord V J)
  pub loaded : load s.disk.files s.segments ≡ some base
  pub listed : (manifest_of s.dim s.disk.manifest).segments ≡ s.segments
  pub same_dim : (manifest_of s.dim s.disk.manifest).dim ≡ s.dim
  pub numbered : Numbered (length s.segments) s.segments
  pub low : ℕ
  pub base_low : Bounded low (apply_all base [])
  pub rising : Ascending low (wal_records s.disk.wal)
  pub low_top : low ≤ s.seq
  pub wal_top : AllUpTo s.seq (wal_records s.disk.wal)
  pub table_top : Bounded s.seq s.table
  pub mem : (id : String) → get s.memtable id ≡ last_of (wal_records s.disk.wal) id
  pub mem_keyed : Keyed s.memtable
  pub shown :
      (id : String)
      → visible (get s.table id)
        ≡ visible (or_else (last_of (wal_records s.disk.wal) id) (get (apply_all base []) id))

-- A write is logged and applied.
module _ {V J : Type 0} (s : LsmStore V J) (d : Durable s) (q : ℕ) (later : s.seq ≤ q)
    (body : Body V J) (r : StoredRecord V J) (says : body_record q body ≡ some r)
    (dated : r.seq ≡ q) where
  abbrev wal' : List (StoredRecord V J)
  wal' = wal_records (s.disk.wal ++ record { seq = q; body = body } ∷ [])

  wal'-eq : wal' ≡ wal_records s.disk.wal ++ r ∷ []
  wal'-eq =
      wal_records-append s.disk.wal (record { seq = q; body = body })
      ∙ ap (λ o. wal_records s.disk.wal ++ with_record o []) says

  last_of-wal' :
      (id : String)
      → last_of wal' id
        ≡ or_else (if r.id == id then some r else none) (last_of (wal_records s.disk.wal) id)
  last_of-wal' id = rw wal'-eq (last_of-append (wal_records s.disk.wal) (r ∷ []) id)

  apply_entry-new : apply_entry s.table r ≡ insert s.table r.id r
  unfolding apply_entry
  apply_entry-new = rw (newer-Bounded s.seq s.table r d.table_top (omega arith)) refl

  pub store_record-Durable : Durable (store_record q body r s)
  unfolding store_record
  store_record-Durable = record {
    base = d.base;
    loaded = d.loaded;
    listed = d.listed;
    same_dim = d.same_dim;
    numbered = d.numbered;
    low = d.low;
    base_low = d.base_low;
    rising = rw wal'-eq (
        Ascending-append d.low s.seq (wal_records s.disk.wal) r d.rising d.wal_top d.low_top
          (omega arith));
    low_top = omega (arith, d.low_top);
    wal_top = rw wal'-eq (
        AllUpTo-append s.seq (max s.seq q) (wal_records s.disk.wal) r d.wal_top (omega arith)
          (omega arith));
    table_top =
        rw apply_entry-new
          (Bounded-insert s.seq (max s.seq q) s.table r d.table_top (omega arith) (omega arith));
    mem = λ id. rw (get-insert, last_of-wal') (ground (arith, d.mem id));
    mem_keyed = Keyed-insert s.memtable r d.mem_keyed;
    shown = λ id. rw (apply_entry-new, get-insert, last_of-wal') (ground (arith, d.shown id));
  }
