-- ===== src/Storage/Lsm.antt =====
-- src/annex/storage/lsm.py: the store and what it keeps on disk. The log is the list of its frames
-- after decoding. A method that raises returns none. `now` is what `time.time()` gives, in ms; a
-- segment's name is the fields that its file name is formatted from.
use python_pj.Prelude.{
  ℕ, suc, max, ◌≡◌, ◌↔◌, String, Bool, true, false, not, ◌&&◌, Option, none, some, List, [], ◌∷◌,
  ◌++◌, arith, if◌then◌else◌, ltb, leb, eqb, length, keep, count_if, Eq, string_eq, str_ltb,
}
use python_pj.Prelude.Dict.{Dict, get, insert, remove, values}
use python_pj.Storage.Segment.{StoredRecord, Segment, records, write_segment}

pub record SegmentName : Type 0 where
  pub number : ℕ
  pub compacted : Bool
  pub at : ℕ

abbrev same_bool : Bool → Bool → Bool
same_bool true b = b
same_bool false b = not b

abbrev pub same_name : SegmentName → SegmentName → Bool
same_name a b = eqb a.number b.number && (same_bool a.compacted b.compacted && eqb a.at b.at)

pub same_name_iff : (a b : SegmentName) → (same_name a b ≡ true) ↔ (a ≡ b)
same_name_iff a b = ground arith

instance abbrev pub name_eq : Eq SegmentName
name_eq = record { is_same = same_name; is_same_iff = same_name_iff }

-- what a frame of the log says, by its type
pub data Body (V J : Type 0) : Type 0 where
  put_frame : String → V → Dict String J → Option String → Body V J
  delete_frame : String → Body V J
  checkpoint_frame : Body V J
  commit_frame : Body V J

pub record LogFrame (V J : Type 0) : Type 0 where
  pub seq : ℕ
  pub body : Body V J

pub record Manifest : Type 0 where
  pub segments : List SegmentName
  pub seq : ℕ
  pub dim : ℕ

pub record StorageConfig : Type 0 where
  pub memtable_max_records : ℕ
  pub compaction_trigger : ℕ

pub record Disk (V J : Type 0) : Type 0 where
  pub manifest : Option Manifest
  pub files : Dict SegmentName (Segment V J)
  pub wal : List (LogFrame V J)

pub record LsmStore (V J : Type 0) : Type 0 where
  pub table : Dict String (StoredRecord V J)
  pub memtable : Dict String (StoredRecord V J)
  pub segments : List SegmentName
  pub seq : ℕ
  pub mutations : ℕ
  pub dim : ℕ
  pub config : StorageConfig
  pub disk : Disk V J

infixl 5 ◌>>=◌
abbrev pub ◌>>=◌ {ℓ κ} : {A : Type ℓ} {B : Type κ} → Option A → (A → Option B) → Option B
none >>= f = none
some a >>= f = f a

abbrev pub is_live : {V J : Type 0} → StoredRecord V J → Bool
is_live r = not r.deleted

-- the record of a frame, none for the frames of which recovery takes the sequence number alone
abbrev pub body_record : {V J : Type 0} → ℕ → Body V J → Option (StoredRecord V J)
body_record seq (put_frame id v m t) =
    some (record { id = id; vector = some v; metadata = m; text = t; seq = seq; deleted = false })
body_record seq (delete_frame id) =
    some (record { id = id; vector = none; metadata = []; text = none; seq = seq; deleted = true })
body_record seq checkpoint_frame = none
body_record seq commit_frame = none

-- `_read_manifest`
abbrev pub manifest_of : ℕ → Option Manifest → Manifest
manifest_of dim none = record { segments = []; seq = 0; dim = dim }
manifest_of dim (some m) = m

module _ {V J : Type 0} where
  -- `_apply_entry`, by the record that is there
  abbrev pub newer : Option (StoredRecord V J) → StoredRecord V J → Bool
  newer none r = true
  newer (some current) r = leb current.seq r.seq

  unfoldable pub apply_entry :
      Dict String (StoredRecord V J) → StoredRecord V J → Dict String (StoredRecord V J)
  apply_entry table r = if newer (get table r.id) r then insert table r.id r else table

  unfoldable pub apply_all :
      List (StoredRecord V J) → Dict String (StoredRecord V J) → Dict String (StoredRecord V J)
  unfolding apply_entry
  apply_all [] table = table
  apply_all (r ∷ rs) table = apply_all rs (apply_entry table r)

  -- `sorted(…, key=lambda r: r.id)`
  unfoldable pub insert_by_id : StoredRecord V J → List (StoredRecord V J) → List (StoredRecord V J)
  insert_by_id r [] = r ∷ []
  insert_by_id r (x ∷ xs) =
      let rest = insert_by_id r xs in if str_ltb x.id r.id then x ∷ rest else r ∷ x ∷ xs

  unfoldable pub sort_by_id : List (StoredRecord V J) → List (StoredRecord V J)
  unfolding insert_by_id
  sort_by_id [] = []
  sort_by_id (r ∷ rs) = insert_by_id r (sort_by_id rs)

  -- the records of some segments, oldest segment first; none if a file is missing
  unfoldable pub load :
      Dict SegmentName (Segment V J) → List SegmentName → Option (List (StoredRecord V J))
  load files [] = some []
  load files (n ∷ ns) = do s ← get files n; rest ← load files ns; some (records s ++ rest)

  -- `_write_manifest`
  unfoldable pub write_manifest : LsmStore V J → LsmStore V J
  write_manifest s = record s {
    disk = record (s.disk) {
      manifest = some (record { segments = s.segments; seq = s.seq; dim = s.dim });
    };
  }

  -- `self.wal.append(…)`
  unfoldable pub log_frame : ℕ → Body V J → LsmStore V J → LsmStore V J
  log_frame seq body s = record s {
    disk = record (s.disk) { wal = s.disk.wal ++ record { seq = seq; body = body } ∷ [] };
  }

  unfoldable pub remove_files :
      List SegmentName → Dict SegmentName (Segment V J) → Dict SegmentName (Segment V J)
  remove_files [] files = files
  remove_files (n ∷ ns) files = remove_files ns (remove files n)

  -- `compact` once the segments are read: the merged segment is written, then the manifest that names
  -- it, and the files that it replaces are removed
  unfoldable pub merge_into : SegmentName → List (StoredRecord V J) → LsmStore V J → LsmStore V J
  unfolding write_manifest remove_files apply_all sort_by_id
  merge_into name rs s =
      let s1 = write_manifest (record s {
        segments = name ∷ [];
        disk = record (s.disk) {
          files =
              insert s.disk.files name
                (write_segment s.dim (keep is_live (sort_by_id (values (apply_all rs [])))));
        };
      }) in
      record s1 { disk = record (s1.disk) { files = remove_files s.segments s1.disk.files } }

  unfoldable pub compact : ℕ → LsmStore V J → Option (LsmStore V J)
  unfolding merge_into load
  compact now s = if ltb (length s.segments) 2 then some s else do
    rs ← load s.disk.files s.segments
    some (merge_into (record { number = length s.segments; compacted = true; at = now }) rs s)

  -- `flush` of a memtable that is not empty, up to the compaction
  unfoldable pub flush_memtable : ℕ → LsmStore V J → LsmStore V J
  unfolding write_manifest sort_by_id
  flush_memtable now s =
      let name : SegmentName = record { number = length s.segments; compacted = false; at = now } in
      let s1 = write_manifest (record s {
        segments = s.segments ++ name ∷ [];
        memtable = [];
        disk = record (s.disk) {
          files = insert s.disk.files name (write_segment s.dim (sort_by_id (values s.memtable)));
        };
      }) in
      record s1 { disk = record (s1.disk) { wal = [] } }

  unfoldable pub flush : ℕ → LsmStore V J → Option (LsmStore V J)
  unfolding flush_memtable compact
  flush now s =
      if eqb (length s.memtable) 0
      then some s
      else (let s1 = flush_memtable now s in
          if leb s1.config.compaction_trigger (length s1.segments) then compact now s1 else some s1)

  unfoldable pub after_mutation : ℕ → LsmStore V J → Option (LsmStore V J)
  unfolding flush
  after_mutation now s =
      let s1 = record s { mutations = suc s.mutations } in
      if leb s1.config.memtable_max_records (length s1.memtable) then flush now s1 else some s1

  unfoldable pub next_seq : LsmStore V J → LsmStore V J
  next_seq s = record s { seq = suc s.seq }

  -- `seq = seq if seq is not None else self.next_seq(); self._seq = max(self._seq, seq)`
  abbrev pub given_seq : Option ℕ → LsmStore V J → ℕ
  given_seq none s = suc s.seq
  given_seq (some q) s = q

  -- The record is logged, then the table and the memtable hold it.
  unfoldable pub store_record : ℕ → Body V J → StoredRecord V J → LsmStore V J → LsmStore V J
  unfolding log_frame apply_entry
  store_record seq body r s =
      let s1 = log_frame seq body (record s { seq = max s.seq seq }) in
      record s1 { table = apply_entry s1.table r; memtable = insert s1.memtable r.id r }

  unfoldable pub put :
      ℕ
      → String
      → V
      → Dict String J
      → Option String
      → Option ℕ
      → LsmStore V J
      → Option (LsmStore V J)
  unfolding store_record after_mutation
  put now id v metadata text seq s =
      let q = given_seq seq s in
      after_mutation now (
        store_record q (put_frame id v metadata text)
          (record {
            id = id;
            vector = some v;
            metadata = metadata;
            text = text;
            seq = q;
            deleted = false;
          })
          s)

  -- `existing is None or existing.deleted`
  abbrev pub visible : Option (StoredRecord V J) → Option (StoredRecord V J)
  visible none = none
  visible (some r) = if r.deleted then none else some r

  unfoldable pub get_record : LsmStore V J → String → Option (StoredRecord V J)
  get_record s id = visible (get s.table id)

  unfoldable pub delete_record : ℕ → String → Option ℕ → LsmStore V J → Option (LsmStore V J)
  unfolding store_record after_mutation
  delete_record now id seq s =
      let q = given_seq seq s in
      elim (visible (get s.table id)) [
        | none ↦ some s
        | some existing ↦ after_mutation now (
            store_record q (delete_frame id)
              (record {
                id = id;
                vector = none;
                metadata = [];
                text = none;
                seq = q;
                deleted = true;
              })
              s)
      ]

  unfoldable pub checkpoint : LsmStore V J → LsmStore V J
  unfolding log_frame write_manifest
  checkpoint s = record (write_manifest (log_frame s.seq checkpoint_frame s)) { mutations = 0 }

  -- `len(store)`
  unfoldable pub size : LsmStore V J → ℕ
  size s = count_if is_live (values s.table)

  unfoldable pub close : LsmStore V J → LsmStore V J
  unfolding write_manifest
  close = write_manifest

  -- one frame of the log, in `_recover`
  abbrev pub recovered : Option (StoredRecord V J) → LsmStore V J → LsmStore V J
  recovered none s = s
  recovered (some r) s = record s {
    table = apply_entry s.table r;
    memtable = insert s.memtable r.id r;
  }

  unfoldable pub replay_wal : List (LogFrame V J) → LsmStore V J → LsmStore V J
  unfolding apply_entry
  replay_wal [] s = s
  replay_wal (f ∷ fs) s =
      let s1 = recovered (body_record f.seq f.body) s in
      replay_wal fs (record s1 { seq = max s1.seq f.seq })

  -- `LSMStore.__init__` and `_recover`: none for another dimension or a missing file
  unfoldable pub recover : StorageConfig → ℕ → Disk V J → Option (LsmStore V J)
  unfolding load apply_all replay_wal
  recover config dim disk =
      let m = manifest_of dim disk.manifest in
      if eqb m.dim dim
      then (load disk.files m.segments >>= λ rs. some (
          replay_wal disk.wal (record {
            table = apply_all rs [];
            memtable = [];
            segments = m.segments;
            seq = m.seq;
            mutations = 0;
            dim = dim;
            config = config;
            disk = disk;
          })))
      else none
