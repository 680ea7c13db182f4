-- ===== src/Collection.antt =====
-- src/annex/db.py: a collection, its writes and its transactions. The vector index and the text index
-- are arguments: their states `I` and `T` with the calls that the collection makes. `R` is what a
-- caller gives as a vector, `V` a vector. A call that raises returns none.
pub mod Snapshots
pub mod Vacuum
pub mod Reads
pub mod Deletes
pub mod Conflict
pub mod Committed
pub mod Meanwhile
pub mod Batches
pub mod Query
pub mod Visible
pub mod Rebuild
pub mod Rebuilt
pub mod Carried
pub mod Kept
pub mod Reopened
pub mod Mirror
use mathlib.Core.Option
use python_pj.Prelude.{
  ℕ, suc, ◌+◌, max, ◌≡◌, refl, Bool, true, false, not, ◌&&◌, Option, none, some, String, List, [],
  ◌∷◌, ◌++◌, ltb, leb, eqb, if◌then◌else◌, arith, length, nat_eq, string_eq, ◌==◌, contains, keep,
  map,
}
use python_pj.Prelude.Dict.{Dict, get, insert, remove, values, keys}
use python_pj.Storage.Segment.{StoredRecord}
use python_pj.Storage.Lsm.{LsmStore, put, delete_record, next_seq, checkpoint, get_record, ◌>>=◌}
use python_pj.Mvcc.{Version, inf, visible_at, SnapshotRegistry, horizon, acquire, release}

-- What the collection calls of its vector index and its text index. `add_vector` stands for
-- `_maybe_train` followed by `add`.
pub record Engines (R V I T : Type 0) : Type 0 where
  pub prepare : R → Option V
  pub add_vector : ℕ → V → I → Option I
  pub remove_vector : ℕ → I → I
  pub add_text : ℕ → String → T → T
  pub remove_text : ℕ → T → T

-- `texts` is none when the text index is not enabled.
pub record Collection (V J I T : Type 0) : Type 0 where
  pub store : LsmStore V J
  pub index : I
  pub texts : Option T
  pub versions : Dict ℕ (Version J)
  pub current : Dict String ℕ
  pub next_key : ℕ
  pub snapshots : SnapshotRegistry

pub data Write (R J : Type 0) : Type 0 where
  upsert_op : String → R → Dict String J → Option String → Write R J
  delete_op : String → Write R J

-- `done` is `_done`, `touched` the set `_touched`.
pub record Transaction (R J : Type 0) : Type 0 where
  pub start_seq : ℕ
  pub ops : List (Write R J)
  pub touched : List String
  pub done : Bool

-- `set.add`
abbrev pub touch : String → List String → List String
touch id ids = if contains id ids then ids else id ∷ ids

module _ {R J : Type 0} where
  unfoldable pub stage_upsert :
      String → R → Dict String J → Option String → Transaction R J → Option (Transaction R J)
  stage_upsert id v m t x =
      if x.done
      then none
      else some (record x { ops = x.ops ++ upsert_op id v m t ∷ []; touched = touch id x.touched })

  unfoldable pub stage_delete : String → Transaction R J → Option (Transaction R J)
  stage_delete id x =
      if x.done
      then none
      else some (record x { ops = x.ops ++ delete_op id ∷ []; touched = touch id x.touched })

  unfoldable pub rollback : Transaction R J → Transaction R J
  rollback x = record x { ops = []; done = true }

module _ {J : Type 0} where
  -- `self._versions[key].dead = seq`
  unfoldable pub kill : ℕ → ℕ → Dict ℕ (Version J) → Option (Dict ℕ (Version J))
  kill key seq versions = do
    v ← get versions key
    some (insert versions key (record v { dead = seq }))

  -- the version that an upsert replaces, if there is one
  unfoldable pub kill_old : Option ℕ → ℕ → Dict ℕ (Version J) → Option (Dict ℕ (Version J))
  unfolding kill
  kill_old none seq versions = some versions
  kill_old (some key) seq versions = kill key seq versions

  -- A document that the transaction touches was written after the transaction began.
  unfoldable pub conflicts_at : ℕ → Option ℕ → Dict ℕ (Version J) → Option Bool
  conflicts_at start none versions = some false
  conflicts_at start (some key) versions = do v ← get versions key; some (ltb start v.born)

  -- true when a touched document conflicts, none for a key that has no version
  unfoldable pub any_conflict : ℕ → List String → Dict String ℕ → Dict ℕ (Version J) → Option Bool
  unfolding conflicts_at
  any_conflict start [] current versions = some false
  any_conflict start (id ∷ ids) current versions =
      let rest = any_conflict start ids current versions in
      conflicts_at start (get current id) versions >>= λ b. if b then some true else rest

  abbrev pub dead_by : ℕ → Option (Version J) → Bool
  dead_by oldest none = false
  dead_by oldest (some v) = leb v.dead oldest

  -- `v.dead <= horizon`, of the item under a key
  abbrev pub reclaimable : ℕ → Dict ℕ (Version J) → ℕ → Bool
  reclaimable oldest versions key = dead_by oldest (get versions key)

module _ {R V I T : Type 0} where
  -- `if self._bm25 is not None and text: self._bm25.add(key, text)`
  abbrev pub index_text : Engines R V I T → ℕ → Option String → Option T → Option T
  index_text x key (some t) (some b) = if t == "" then some b else some (x.add_text key t b)
  index_text x key none (some b) = some b
  index_text x key t none = none

module _ {R V J I T : Type 0} (x : Engines R V I T) (now : ℕ) where
  unfoldable pub apply_upsert :
      String → R → Dict String J → Option String → Collection V J I T → Option (Collection V J I T)
  unfolding kill_old
  apply_upsert id vector metadata text c = if id == "" then none else do
    vec ← x.prepare vector
    let store = next_seq c.store
    let seq = store.seq
    stored ← put now id vec metadata text (some seq) store
    versions ← kill_old (get c.current id) seq c.versions
    index ← x.add_vector c.next_key vec c.index
    some (record {
      store = stored;
      index = index;
      texts = index_text x c.next_key text c.texts;
      versions = insert versions c.next_key (record {
        key = c.next_key;
        doc_id = id;
        born = seq;
        dead = inf;
        metadata = metadata;
        text = text;
      });
      current = insert c.current id c.next_key;
      next_key = suc c.next_key;
      snapshots = c.snapshots;
    })

  -- whether the document was there, and the collection without it
  unfoldable pub delete_doc : String → Collection V J I T → Option (Bool × Collection V J I T)
  unfolding kill
  delete_doc id c = elim (get c.current id) [
    | none ↦ some (false, c)
    | some key ↦ do
      let store = next_seq c.store
      let seq = store.seq
      stored ← delete_record now id (some seq) store
      versions ← kill key seq c.versions
      some (true, record c { store = stored; versions = versions; current = remove c.current id })
  ]

  -- one write of a transaction, with the count of those applied
  unfoldable pub apply_write : Write R J → ℕ × Collection V J I T → Option (ℕ × Collection V J I T)
  unfolding apply_upsert delete_doc
  apply_write (upsert_op id v m t) (n, c) = apply_upsert id v m t c >>= λ c'. some (suc n, c')
  apply_write (delete_op id) (n, c) =
      delete_doc id c >>= λ (b, c'). some (if b then suc n else n, c')

  unfoldable pub apply_writes :
      List (Write R J) → ℕ × Collection V J I T → Option (ℕ × Collection V J I T)
  unfolding apply_write
  apply_writes [] c = some c
  apply_writes (w ∷ ws) c = apply_write w c >>= apply_writes ws

  abbrev pub checkpointed : ℕ × Collection V J I T → ℕ × Collection V J I T
  checkpointed (n, c) = (n, record c { store = checkpoint c.store })

  -- `_commit_transaction`
  unfoldable pub commit_writes :
      Transaction R J → Collection V J I T → Option (ℕ × Collection V J I T)
  unfolding apply_writes any_conflict
  commit_writes t c = any_conflict t.start_seq t.touched c.current c.versions >>= λ b.
      if b then none else (apply_writes t.ops (0, c) >>= λ r. some (checkpointed r))

  -- `Transaction.commit`
  unfoldable pub commit :
      Transaction R J → Collection V J I T → Option (ℕ × Transaction R J × Collection V J I T)
  unfolding commit_writes
  commit t c =
      if t.done
      then none
      else (commit_writes t c >>= λ (n, c'). some (n, record t { done = true }, c'))

module _ {R V J I T : Type 0} (x : Engines R V I T) where
  -- the removals of `vacuum` from the two indexes
  abbrev pub remove_keys : List ℕ → Collection V J I T → Collection V J I T
  remove_keys [] c = c
  remove_keys (k ∷ ks) c = remove_keys ks (record c {
    index = x.remove_vector k c.index;
    texts = Option.map (x.remove_text k) c.texts;
    versions = remove c.versions k;
  })

  -- how many versions go, and the collection without them
  unfoldable pub vacuum : Collection V J I T → ℕ × Collection V J I T
  vacuum c =
      let dead =
        keep (reclaimable (horizon c.store.seq c.snapshots) c.versions) (keys c.versions) in
      (length dead, remove_keys dead c)

module _ {V J I T : Type 0} where
  unfoldable pub begin : {R : Type 0} → Collection V J I T → Transaction R J
  begin c = record { start_seq = c.store.seq; ops = []; touched = []; done = false }

  -- `_visibility` without the metadata filter
  unfoldable pub allowed : Collection V J I T → ℕ → ℕ → Bool
  allowed c snap key = elim (get c.versions key) [ none ↦ false | some v ↦ visible_at v snap ]

  -- `snapshot`: the handle with the sequence number that it pins
  unfoldable pub open_snapshot : Collection V J I T → ℕ × Collection V J I T
  unfolding acquire
  open_snapshot c = let (h, r) = acquire c.store.seq c.snapshots in (h, record c { snapshots = r })

  -- `Snapshot.close`
  unfoldable pub close_snapshot : ℕ → Collection V J I T → Collection V J I T
  unfolding release
  close_snapshot handle c = record c { snapshots = release handle c.snapshots }
