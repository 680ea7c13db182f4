-- ===== src/Tests/Restart.antt =====
-- src/annex/db.py: a collection with one document, written and opened again.
use python_pj.Prelude.{
  ℕ, ◌≡◌, refl, sym, ap, Bool, none, some, Option, String, List, [], ◌∷◌, inl, inr, Bool-cases,
  arith, nat_eq, string_eq, ◌==◌,
}
use python_pj.Prelude.Dict.{Dict, get, insert}
use python_pj.Storage.Lsm.{store_record, log_frame, apply_entry}
use python_pj.Mvcc.{inf, new_registry}
use python_pj.Collection.{Collection, apply_upsert, delete_doc}
use python_pj.Collection.Snapshots.{Sound, document}
use python_pj.Collection.Reads.{init_collection}
use python_pj.Collection.Reopened.{TakesAll}
use python_pj.Collection.Mirror.{Mirrors, writes-Mirror, init_collection-document}
use python_pj.Tests.Storage.{new_store-Durable, one, one-Durable, x_record}
use python_pj.Tests.Collection.{engines, new_collection, new_collection-Sound}

takes : TakesAll engines
takes key v keys = (key ∷ keys, refl)

new_collection-Mirrors : Mirrors engines new_collection
unfolding get
new_collection-Mirrors = record {
  docs = λ id. refl;
  vectors = λ id r e. let never : none ≡ some r = e in absurd (cc);
}

writes-Mirror_example :
    ((r : ℕ) (m : Dict String ℕ) (t : Option String) (c' : Collection ℕ ℕ (List ℕ) (List ℕ))
      → apply_upsert engines 5 "x" r m t new_collection ≡ some c'
      → Mirrors engines c')
    × ((b : Bool) (c' : Collection ℕ ℕ (List ℕ) (List ℕ))
        → delete_doc engines 5 "x" new_collection ≡ some (b, c')
        → Mirrors engines c')
writes-Mirror_example =
    writes-Mirror engines engines (λ r v e. (v, refl)) 5 new_collection new_collection-Sound
      new_store-Durable tt (omega arith) new_collection-Mirrors "x"

-- the document "x" in the store that has its record
abbrev with_x : Collection ℕ ℕ (List ℕ) (List ℕ)
with_x = record {
  store = one;
  index = 0 ∷ [];
  texts = none;
  versions =
      (0, record { key = 0; doc_id = "x"; born = 1; dead = inf; metadata = []; text = none }) ∷ [];
  current = ("x", 0) ∷ [];
  next_key = 1;
  snapshots = new_registry;
}

with_x-Mirrors : Mirrors engines with_x
unfolding get insert store_record log_frame apply_entry
with_x-Mirrors = record {
  docs = λ id. elim (Bool-cases ("x" == id)) [ inl y ↦ rw y refl | inr n ↦ rw n refl ];
  vectors = λ id r e. elim (Bool-cases ("x" == id)) [
    | inl y ↦
        let same : some x_record ≡ some r = rw y at e in
        let it : x_record ≡ r = cc same in (7, 7, sym (ap (λ w. w.vector) it), refl)
    | inr n ↦ let never : none ≡ some r = rw n at e in absurd (cc)
  ];
}

init_collection-document_example :
    (d : Collection ℕ ℕ (List ℕ) (List ℕ)) × (init_collection engines [] none with_x.store.config
        with_x.store.dim with_x.store.disk
      ≡ some d)
    × Sound d
    × Mirrors engines d
    × ((id : String) → document d id ≡ document with_x id)
init_collection-document_example =
    init_collection-document engines takes [] none with_x one-Durable with_x-Mirrors
