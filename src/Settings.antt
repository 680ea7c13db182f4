-- ===== src/Settings.antt =====
-- src/annex/config.py and types.py: the configurations with their validation. `R` is the type of the
-- floating-point numbers.
use python_pj.Prelude.{
  ℕ, ◌*◌, ◌%◌, ◌^◌, ◌≡◌, refl, String, Bool, true, false, not, ◌&&◌, ◌||◌, Option, none, some, List,
  if◌then◌else◌, ltb, eqb, string_eq, ◌==◌, map,
}
use python_pj.Prelude.Dict.{Dict}
pub mod Serial

pub data Metric : Type 0 where
  cosine l2 dot : Metric

unfoldable pub normalizes : Metric → Bool
normalizes cosine = true
normalizes _ = false

-- the value of the enumeration
unfoldable pub metric_value : Metric → String
metric_value cosine = "cosine"
metric_value l2 = "l2"
metric_value dot = "dot"

-- `Metric(s)`, none where it raises
unfoldable pub metric_of : String → Option Metric
metric_of s =
    if s == "cosine"
    then some cosine
    else if s == "l2"
    then some l2
    else if s == "dot"
    then some dot
    else none

pub data IndexKind : Type 0 where
  flat hnsw hnsw_pq : IndexKind

unfoldable pub index_value : IndexKind → String
index_value flat = "flat"
index_value hnsw = "hnsw"
index_value hnsw_pq = "hnsw_pq"

unfoldable pub index_of : String → Option IndexKind
index_of s =
    if s == "flat"
    then some flat
    else if s == "hnsw"
    then some hnsw
    else if s == "hnsw_pq"
    then some hnsw_pq
    else none

abbrev is_pq : IndexKind → Bool
is_pq hnsw_pq = true
is_pq _ = false

-- `Record.__post_init__`: none for an empty id
pub record Record (V J : Type 0) : Type 0 where
  pub id : String
  pub vector : V
  pub metadata : Dict String J
  pub text : Option String

unfoldable pub check_record : {V J : Type 0} → Record V J → Option (Record V J)
check_record r = if r.id == "" then none else some r

pub record Hit (R V J : Type 0) : Type 0 where
  pub id : String
  pub score : R
  pub metadata : Dict String J
  pub text : Option String
  pub vector : Option V

pub record SearchResult (R V J : Type 0) : Type 0 where
  pub hits : List (Hit R V J)
  pub took_ms : R
  pub candidates_scanned : ℕ
  pub plan : Dict String J

unfoldable pub ids : {R V J : Type 0} → SearchResult R V J → List String
ids r = map (λ h. h.id) r.hits

pub record HnswConfig (R : Type 0) : Type 0 where
  pub m : ℕ
  pub ef_construction : ℕ
  pub ef_search : ℕ
  pub level_multiplier : Option R
  pub seed : ℕ

unfoldable pub check_hnsw : {R : Type 0} → HnswConfig R → Option (HnswConfig R)
check_hnsw c =
    if ltb c.m 2
    then none
    else if ltb c.ef_construction c.m
    then none
    else if ltb c.ef_search 1
    then none
    else some c

unfoldable pub m_max0 : {R : Type 0} → HnswConfig R → ℕ
m_max0 c = c.m * 2

pub record PqConfig : Type 0 where
  pub subvectors : ℕ
  pub bits : ℕ
  pub train_iters : ℕ
  pub train_sample : ℕ
  pub seed : ℕ
  pub keep_originals : Bool
  pub rerank_factor : ℕ

unfoldable pub check_pq : PqConfig → Option PqConfig
check_pq c =
    if ltb c.subvectors 1
    then none
    else if not (eqb c.bits 4 || eqb c.bits 8)
    then none
    else if ltb c.rerank_factor 1
    then none
    else some c

unfoldable pub centroids : PqConfig → ℕ
centroids c = 2 ^ c.bits

-- All of the storage settings; the store's own model reads two of them.
pub record StorageSettings : Type 0 where
  pub memtable_max_records : ℕ
  pub wal_sync : Bool
  pub wal_segment_bytes : ℕ
  pub compaction_trigger : ℕ
  pub checkpoint_every : ℕ

unfoldable pub check_storage : StorageSettings → Option StorageSettings
check_storage c =
    if ltb c.memtable_max_records 1
    then none
    else if ltb c.compaction_trigger 2
    then none
    else some c

pub record CollectionConfig (R : Type 0) : Type 0 where
  pub name : String
  pub dim : ℕ
  pub metric : Metric
  pub index : IndexKind
  pub hnsw : HnswConfig R
  pub pq : PqConfig
  pub storage : StorageSettings
  pub enable_text_index : Bool
  pub dtype : String

-- `named` is what `name.replace("_", "").replace("-", "").isalnum()` gives. The remainder is taken
-- where the check of `pq` has made the divisor positive.
unfoldable pub check_collection :
    {R : Type 0} → (String → Bool) → CollectionConfig R → Option (CollectionConfig R)
check_collection named c =
    if c.name == "" || not (named c.name)
    then none
    else if ltb c.dim 1
    then none
    else if is_pq c.index && not (eqb (c.dim % c.pq.subvectors) 0)
    then none
    else if not (c.dtype == "float32" || c.dtype == "float64")
    then none
    else some c

-- The values of the enumerations name them.
pub metric_of-metric_value : (m : Metric) → metric_of (metric_value m) ≡ some m
unfolding metric_of metric_value
metric_of-metric_value cosine = refl
metric_of-metric_value l2 = refl
metric_of-metric_value dot = refl

pub index_of-index_value : (k : IndexKind) → index_of (index_value k) ≡ some k
unfolding index_of index_value
index_of-index_value flat = refl
index_of-index_value hnsw = refl
index_of-index_value hnsw_pq = refl
