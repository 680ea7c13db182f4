-- ===== src/Tests/Storage.antt =====
-- src/annex/storage/lsm.py: a new store, and one with a record.
use python_pj.Prelude.{
  ℕ, ◌≤◌, ◌≡◌, ◌≢◌, refl, String, false, Option, none, some, [], arith, string_eq,
}
use python_pj.Prelude.Dict.{get}
use python_pj.Storage.Segment.{StoredRecord}
use python_pj.Storage.Lsm.{
  store_record, log_frame, put_frame, name_eq, Disk, LsmStore, StorageConfig, load, apply_all,
  recover, get_record, put, flush, replay_wal,
}
use python_pj.Storage.Recovery.{Durable, Past, store_record-Durable}
use python_pj.Storage.Flush.{flush-Durable}
use python_pj.Storage.Restart.{put-Durable, recover-view}

abbrev tight : StorageConfig
tight = record { memtable_max_records = 2; compaction_trigger = 2 }

abbrev empty_disk : Disk ℕ ℕ
empty_disk = record { manifest = none; files = []; wal = [] }

abbrev pub new_store : LsmStore ℕ ℕ
new_store = record {
  table = [];
  memtable = [];
  segments = [];
  seq = 0;
  mutations = 0;
  dim = 2;
  config = tight;
  disk = empty_disk;
}

recover_test : recover tight 2 empty_disk ≡ some new_store
unfolding recover load apply_all replay_wal
recover_test = refl

pub none-some : {A : Type 0} (r : A) → Option.none ≢ some r
none-some r e = ground (arith, e)

pub new_store-Durable : Durable new_store
unfolding load apply_all get
new_store-Durable = record {
  base = [];
  loaded = refl;
  listed = refl;
  same_dim = refl;
  numbered = tt;
  low = 0;
  base_low = λ id r e. absurd (none-some r e);
  rising = tt;
  low_top = omega arith;
  wal_top = tt;
  table_top = λ id r e. absurd (none-some r e);
  mem = λ id. refl;
  mem_keyed = tt;
  shown = λ id. refl;
}

abbrev pub x_record : StoredRecord ℕ ℕ
x_record = record {
  id = "x";
  vector = some 7;
  metadata = [];
  text = none;
  seq = 1;
  deleted = false;
}

-- the store after one write, which is in the log
abbrev pub one : LsmStore ℕ ℕ
one = store_record 1 (put_frame "x" 7 [] none) x_record new_store

pub one-Durable : Durable one
one-Durable =
    store_record-Durable new_store new_store-Durable 1 (omega arith) (put_frame "x" 7 [] none)
      x_record refl refl

one-Past : Past 6 one.segments
unfolding store_record log_frame
one-Past = tt

one-behind : (q : ℕ) → some 9 ≡ some q → one.seq ≤ q
unfolding store_record log_frame
one-behind q e = ground (arith, e)

put-Durable_example : (u : LsmStore ℕ ℕ) × (put 6 "y" 8 [] none (some 9) one ≡ some u) × Durable u
put-Durable_example = put-Durable 6 one one-Durable one-Past "y" (some 9) one-behind 8 [] none

flush-Durable_example : (t : LsmStore ℕ ℕ) × (flush 6 one ≡ some t) × Durable t
flush-Durable_example = flush-Durable 6 one one-Durable one-Past

recover-view_example :
    (u : LsmStore ℕ ℕ) × (recover one.config one.dim one.disk ≡ some u)
    × ((id : String) → get_record u id ≡ get_record one id)
recover-view_example = recover-view one one-Durable
