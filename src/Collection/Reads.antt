-- ===== src/Collection/Reads.antt =====
-- src/annex/db.py: reading a document, batches, and the collection after a restart.
use python_pj.Prelude.{
  ℕ, suc, Bool, true, false, Option, none, some, String, List, [], ◌∷◌, leb, keep, if◌then◌else◌,
  nat_eq, string_eq,
}
use python_pj.Prelude.Dict.{Dict, get, insert, values}
use python_pj.Storage.Segment.{StoredRecord}
use python_pj.Storage.Lsm.{StorageConfig, Disk, recover, get_record, checkpoint, is_live, ◌>>=◌}
use python_pj.Mvcc.{inf, new_registry}
use python_pj.Collection.{Engines, Collection, index_text, apply_upsert}

-- what `get` gives of a document: its version's metadata and text, with the stored vector on demand
pub record Found (V J : Type 0) : Type 0 where
  pub id : String
  pub metadata : Dict String J
  pub text : Option String
  pub vector : Option V

module _ {V J : Type 0} where
  abbrev vector_if : Bool → Option (StoredRecord V J) → Option V
  vector_if false r = none
  vector_if true none = none
  vector_if true (some r) = r.vector

module _ {V J I T : Type 0} where
  -- `Collection.get`: none for a document that is not there
  unfoldable pub get_doc : String → Bool → Collection V J I T → Option (Found V J)
  get_doc id include_vector c = do
    key ← get c.current id
    v ← get c.versions key
    some (record {
      id = id;
      metadata = v.metadata;
      text = v.text;
      vector = vector_if include_vector (get_record c.store id);
    })

module _ {V J : Type 0} where
  unfoldable pub insert_by_seq :
      StoredRecord V J → List (StoredRecord V J) → List (StoredRecord V J)
  insert_by_seq r [] = r ∷ []
  insert_by_seq r (x ∷ xs) =
      let rest = insert_by_seq r xs in if leb r.seq x.seq then r ∷ x ∷ xs else x ∷ rest

  -- `sorted(…, key=lambda r: r.seq)`
  unfoldable pub sort_by_seq : List (StoredRecord V J) → List (StoredRecord V J)
  unfolding insert_by_seq
  sort_by_seq [] = []
  sort_by_seq (r ∷ rs) = insert_by_seq r (sort_by_seq rs)

module _ {V J I T : Type 0} (x : Engines V V I T) where
  -- one record of `_rebuild_from_store`
  unfoldable pub rebuild_one : StoredRecord V J → Collection V J I T → Option (Collection V J I T)
  rebuild_one r c = elim r.vector [
    | none ↦ some c
    | some v ↦ do
      vec ← x.prepare v
      index ← x.add_vector c.next_key vec c.index
      some (record c {
        index = index;
        texts = index_text x c.next_key r.text c.texts;
        versions = insert c.versions c.next_key (record {
          key = c.next_key;
          doc_id = r.id;
          born = r.seq;
          dead = inf;
          metadata = r.metadata;
          text = r.text;
        });
        current = insert c.current r.id c.next_key;
        next_key = suc c.next_key;
      })
  ]

  unfoldable pub rebuild_each :
      List (StoredRecord V J) → Collection V J I T → Option (Collection V J I T)
  unfolding rebuild_one
  rebuild_each [] c = some c
  rebuild_each (r ∷ rs) c = rebuild_one r c >>= rebuild_each rs

  -- `_rebuild_from_store`, for a space that is not trained
  unfoldable pub rebuild_from_store : Collection V J I T → Option (Collection V J I T)
  unfolding rebuild_each sort_by_seq
  rebuild_from_store c = rebuild_each (sort_by_seq (keep is_live (values c.store.table))) c

  -- `Collection.__init__`, for the two indexes as they are built
  unfoldable pub init_collection :
      I → Option T → StorageConfig → ℕ → Disk V J → Option (Collection V J I T)
  unfolding rebuild_from_store
  init_collection index texts config dim disk = recover config dim disk >>= λ store.
      rebuild_from_store (record {
        store = store;
        index = index;
        texts = texts;
        versions = [];
        current = [];
        next_key = 0;
        snapshots = new_registry;
      })

-- a record of a batch
pub record BatchRecord (R J : Type 0) : Type 0 where
  pub id : String
  pub vector : R
  pub metadata : Dict String J
  pub text : Option String

module _ {R V J I T : Type 0} (x : Engines R V I T) (now : ℕ) where
  unfoldable pub upsert_batch :
      List (BatchRecord R J) → ℕ × Collection V J I T → Option (ℕ × Collection V J I T)
  upsert_batch [] (n, c) = some (n, c)
  upsert_batch (r ∷ rs) (n, c) =
      apply_upsert x now r.id r.vector r.metadata r.text c >>= λ c'. upsert_batch rs (suc n, c')

  unfoldable pub upsert_many :
      List (BatchRecord R J) → Collection V J I T → Option (ℕ × Collection V J I T)
  unfolding upsert_batch
  upsert_many rs c =
      upsert_batch rs (0, c) >>= λ r. some (r.0, record (r.1) { store = checkpoint r.1.store })
