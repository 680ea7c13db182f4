-- ===== src/Tests/Committed.antt =====
-- src/annex/db.py: a transaction that writes a document and deletes another one, and a batch.
use python_pj.Prelude.{
  map, inl, inr, ℕ, ◌≡◌, refl, true, false, none, some, List, [], ◌∷◌, arith, string_eq, nat_eq,
  subst,
}
use python_pj.Prelude.Dict.{get, insert}
use python_pj.Storage.Lsm.{
  put, put_frame, flush, flush_memtable, write_manifest, store_record, log_frame, apply_entry,
  after_mutation, next_seq,
}
use python_pj.Collection.{
  Collection, upsert_op, delete_op, Transaction, apply_upsert, apply_write, kill_old, kill, commit,
}
use python_pj.Collection.Committed.{Applied, AreReady}
use python_pj.Collection.Meanwhile.{Meanwhile, still, upserts, commit-Applied}
use python_pj.Storage.Segment.{StoredRecord}
use python_pj.Mvcc.{inf}
use python_pj.Collection.Reads.{BatchRecord, upsert_many}
use python_pj.Collection.Batches.{as_write, upsert_many-Applied}
use python_pj.Tests.Collection.{engines, new_collection, new_collection-Sound}
use python_pj.Tests.Storage.{new_store, new_store-Durable, none-some}
use python_pj.Tests.Raft.{apart}

abbrev writes : Transaction ℕ ℕ
writes = record {
  start_seq = 0;
  ops = upsert_op "x" 9 [] none ∷ delete_op "y" ∷ [];
  touched = "y" ∷ "x" ∷ [];
  done = false;
}

some_same : {A : Type 0} {a b : A} → some a ≡ some b → a ≡ b
some_same e = cc e

abbrev z_record : StoredRecord ℕ ℕ
z_record = record {
  id = "z";
  vector = some 7;
  metadata = [];
  text = none;
  seq = 1;
  deleted = false;
}

-- what the upsert of another document makes of the collection in the meantime
abbrev with_z : Collection ℕ ℕ (List ℕ) (List ℕ)
with_z = record new_collection {
  store = record new_store {
    table = ("z", z_record) ∷ [];
    memtable = ("z", z_record) ∷ [];
    seq = 1;
    mutations = 1;
    disk = record {
      manifest = none;
      files = [];
      wal = record { seq = 1; body = put_frame "z" 7 [] none } ∷ [];
    };
  };
  index = 0 ∷ [];
  versions =
      (0, record { key = 0; doc_id = "z"; born = 1; dead = inf; metadata = []; text = none }) ∷ [];
  current = ("z", 0) ∷ [];
  next_key = 1;
}

others : Meanwhile engines writes.touched new_collection with_z
unfolding apply_upsert next_seq put store_record log_frame apply_entry after_mutation kill_old kill
    get insert
others =
    upserts 5 "z" 7 [] none still
      (λ i. elim i [
        | inl y ↦ apart "z" "y" refl y
        | inr j ↦ elim j [ inl y ↦ apart "z" "x" refl y | inr n ↦ n ]
      ])
      tt (omega arith) (apart "z" "" refl, 7, 0 ∷ [], refl, refl) refl

writes-AreReady : AreReady engines 5 writes.ops (0, with_z)
unfolding apply_write apply_upsert next_seq put store_record log_frame apply_entry after_mutation
    flush flush_memtable write_manifest kill_old kill get insert
writes-AreReady = (
  tt,
  omega arith,
  (apart "x" "" refl, 9, 1 ∷ 0 ∷ [], refl, refl),
  λ r e.
      subst (λ q. AreReady engines 5 (delete_op "y" ∷ []) q) (some_same e)
        (((λ c. cc c), tt), omega arith, tt, λ q f. tt),
)

commit-Applied_example :
    (n : ℕ) × (c : Collection ℕ ℕ (List ℕ) (List ℕ)) × (commit engines 5 writes with_z
      ≡ some (n, record writes { done = true }, c))
    × Applied writes.ops with_z c
unfolding get
commit-Applied_example =
    commit-Applied engines 5 writes new_collection with_z new_collection-Sound new_store-Durable
      (λ id key v e f. absurd (none-some key e)) refl refl others writes-AreReady

abbrev batch : List (BatchRecord ℕ ℕ)
batch = record { id = "x"; vector = 9; metadata = []; text = none } ∷ []

batch-AreReady : AreReady engines 5 (map as_write batch) (0, new_collection)
batch-AreReady = (tt, omega arith, (apart "x" "" refl, 9, 0 ∷ [], refl, refl), λ r e. tt)

upsert_many-Applied_example :
    (c : Collection ℕ ℕ (List ℕ) (List ℕ)) × (upsert_many engines 5 batch new_collection
      ≡ some (1, c))
    × Applied (map as_write batch) new_collection c
upsert_many-Applied_example =
    upsert_many-Applied engines 5 batch new_collection new_collection-Sound new_store-Durable
      batch-AreReady
