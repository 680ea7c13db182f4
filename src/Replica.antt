-- ===== src/Replica.antt =====
-- src/annex/cluster/state_machine.py: a replicated log's commands on a collection. The vectors in
-- commands are what the collection's callers give it.
use python_pj.Prelude.{ℕ, suc, String, Option, none, some, List, [], ◌∷◌, string_eq, nat_eq}
use python_pj.Prelude.Dict.{Dict, keys}
use python_pj.Storage.Lsm.{◌>>=◌}
use python_pj.Collection.{Engines, Collection, apply_upsert, delete_doc, vacuum}

-- the commands by their `op`; `other` stands for an op that is not known
pub data Operation (R J : Type 0) : Type 0 where
  upsert : String → R → Dict String J → Option String → Operation R J
  delete : String → Operation R J
  noop : Operation R J
  other : String → Operation R J

-- a document of a snapshot
pub record Document (R J : Type 0) : Type 0 where
  pub id : String
  pub vector : R
  pub metadata : Dict String J
  pub text : Option String

pub record CollectionSnapshot (R J : Type 0) : Type 0 where
  pub documents : List (Document R J)
  pub applied : Option ℕ

pub record CollectionStateMachine (V J I T : Type 0) : Type 0 where
  pub collection : Collection V J I T
  pub applied : ℕ

abbrev applied_or : Option ℕ → ℕ → ℕ
applied_or none n = n
applied_or (some m) n = m

module _ {R V J I T : Type 0} (x : Engines R V I T) (now : ℕ) where
  -- `apply`: none where it raises
  unfoldable pub apply :
      Operation R J → CollectionStateMachine V J I T → Option (CollectionStateMachine V J I T)
  apply (upsert id v m t) s = do
    c ← apply_upsert x now id v m t s.collection
    some (record { collection = c; applied = suc s.applied })
  apply (delete id) s = do
    r ← delete_doc x now id s.collection
    some (record { collection = r.1; applied = suc s.applied })
  apply noop s = some (record s { applied = suc s.applied })
  apply (other op) s = none

  unfoldable pub apply_each :
      List (Operation R J)
      → CollectionStateMachine V J I T
      → Option (CollectionStateMachine V J I T)
  unfolding apply
  apply_each [] s = some s
  apply_each (o ∷ os) s = apply o s >>= apply_each os

  -- the deletions of `restore`
  unfoldable pub delete_each : List String → Collection V J I T → Option (Collection V J I T)
  delete_each [] c = some c
  delete_each (id ∷ ids) c = delete_doc x now id c >>= λ r. delete_each ids r.1

  -- the upserts of `restore`
  unfoldable pub upsert_each :
      List (Document R J) → Collection V J I T → Option (Collection V J I T)
  upsert_each [] c = some c
  upsert_each (d ∷ ds) c =
      apply_upsert x now d.id d.vector d.metadata d.text c >>= λ c'. upsert_each ds c'

  unfoldable pub restore :
      Option (CollectionSnapshot R J)
      → CollectionStateMachine V J I T
      → Option (CollectionStateMachine V J I T)
  unfolding delete_each upsert_each
  restore none s = some s
  restore (some snapshot) s = do
    emptied ← delete_each (keys s.collection.current) s.collection
    filled ← upsert_each snapshot.documents emptied
    some (record {
      collection = (vacuum x filled).1;
      applied = applied_or snapshot.applied s.applied;
    })
