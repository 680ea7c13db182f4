-- ===== src/Settings/Serial.antt =====
-- src/annex/config.py: the dict that a collection's configuration is stored as. A dict within it has all
-- its fields.
use python_pj.Prelude.{◌*◌, ◌^◌, string_eq, ◌≡◌, Option, none, some, Bool, true, false, String, ℕ}
use python_pj.Storage.Lsm.{◌>>=◌}
use python_pj.Settings.{
  metric_of, metric_value, index_of, index_value, HnswConfig, PqConfig, StorageSettings,
  CollectionConfig, check_hnsw, check_pq, check_storage, check_collection, metric_of-metric_value,
  index_of-index_value,
}

-- The stored dict: a field that `from_dict` has a default for may be missing.
pub record ConfigDict (R : Type 0) : Type 0 where
  pub name : String
  pub dim : ℕ
  pub metric : Option String
  pub index : Option String
  pub hnsw : Option (HnswConfig R)
  pub pq : Option PqConfig
  pub storage : Option StorageSettings
  pub enable_text_index : Option Bool
  pub dtype : Option String

-- `d.get(k, default)`
abbrev or_default : {A : Type 0} → A → Option A → A
or_default a none = a
or_default a (some b) = b

abbrev pub default_hnsw : {R : Type 0} → HnswConfig R
default_hnsw = record {
  m = 16;
  ef_construction = 200;
  ef_search = 64;
  level_multiplier = none;
  seed = 42;
}

abbrev pub default_pq : PqConfig
default_pq = record {
  subvectors = 8;
  bits = 8;
  train_iters = 25;
  train_sample = 50000;
  seed = 7;
  keep_originals = true;
  rerank_factor = 8;
}

abbrev pub default_storage : StorageSettings
default_storage = record {
  memtable_max_records = 10000;
  wal_sync = false;
  wal_segment_bytes = 64 * 2 ^ 20;
  compaction_trigger = 4;
  checkpoint_every = 50000;
}

module _ {R : Type 0} where
  unfoldable pub to_dict : CollectionConfig R → ConfigDict R
  to_dict c = record {
    name = c.name;
    dim = c.dim;
    metric = some (metric_value c.metric);
    index = some (index_value c.index);
    hnsw = some c.hnsw;
    pq = some c.pq;
    storage = some c.storage;
    enable_text_index = some c.enable_text_index;
    dtype = some c.dtype;
  }

  -- `named` is the test of the name, as in `check_collection`.
  unfoldable pub from_dict : (String → Bool) → ConfigDict R → Option (CollectionConfig R)
  from_dict named d = do
    metric ← metric_of (or_default "cosine" d.metric)
    index ← index_of (or_default "hnsw" d.index)
    hnsw ← check_hnsw (or_default default_hnsw d.hnsw)
    pq ← check_pq (or_default default_pq d.pq)
    storage ← check_storage (or_default default_storage d.storage)
    check_collection named (record {
      name = d.name;
      dim = d.dim;
      metric = metric;
      index = index;
      hnsw = hnsw;
      pq = pq;
      storage = storage;
      enable_text_index = or_default true d.enable_text_index;
      dtype = or_default "float32" d.dtype;
    })

  -- The checks that the construction of a configuration and of its parts makes.
  pub record IsChecked (named : String → Bool) (c : CollectionConfig R) : Type 0 where
    pub hnsw_checked : check_hnsw c.hnsw ≡ some c.hnsw
    pub pq_checked : check_pq c.pq ≡ some c.pq
    pub storage_checked : check_storage c.storage ≡ some c.storage
    pub collection_checked : check_collection named c ≡ some c

  -- A configuration that can be constructed is read back from the dict it is stored as.
  pub from_dict-to_dict :
      (named : String → Bool) (c : CollectionConfig R)
      → IsChecked named c
      → from_dict named (to_dict c) ≡ some c
  unfolding from_dict to_dict
  from_dict-to_dict named c h =
      rw
        (
          metric_of-metric_value c.metric,
          index_of-index_value c.index,
          h.hnsw_checked,
          h.pq_checked,
          h.storage_checked,
        )
        h.collection_checked
