-- ===== src/Tests/Rebuild.antt =====
-- src/annex/db.py: a rebuild of a collection whose first document was written twice.
use python_pj.Prelude.{
  ℕ, ◌≡◌, refl, ap, text_eq_iff, inl, inr, true, false, Option, none, some, String, [], ◌∷◌,
  Bool-cases, ltb, arith, eqb, nat_eq, string_eq, ◌==◌,
}
use python_pj.Prelude.Dict.{Dict, get, insert}
use python_pj.Prelude.Once.{Once}
use python_pj.Mvcc.{Version, inf, new_registry}
use python_pj.Text.{Bm25Index, new_bm25, add_doc}
use python_pj.Index.Hnsw.{HnswIndex, new_hnsw, add}
use python_pj.Collection.{Collection}
use python_pj.Collection.Snapshots.{Sound, document}
use python_pj.Collection.Rebuild.{Builders, rebuild_index}
use python_pj.Collection.Kept.{rebuild_index-document}
use python_pj.Tests.Index.{line, narrow, place, two_points}
use python_pj.Tests.Storage.{new_store}
use python_pj.Tests.Text.{two_docs}

-- every text has the one term 6, and every node is on the lowest layer only
abbrev builders : Builders ℕ (HnswIndex (Dict ℕ ℕ)) (Bm25Index ℕ)
builders = record {
  build = λ vs. new_hnsw [];
  vector_of = λ index key. place (get index.space key);
  add = λ key v index. add ltb line narrow key v 0 index;
  new_texts = new_bm25;
  add_text = λ key t b. add_doc key (6 ∷ []) b;
  enable_text_index = true;
}

abbrev latest : Version ℕ
latest = record { key = 1; doc_id = "a"; born = 2; dead = inf; metadata = []; text = some "b" }

abbrev written_twice : Collection ℕ ℕ (HnswIndex (Dict ℕ ℕ)) (Bm25Index ℕ)
written_twice = record {
  store = new_store;
  index = two_points;
  texts = some two_docs;
  versions =
      (0, record { key = 0; doc_id = "a"; born = 1; dead = 2; metadata = []; text = none })
      ∷ (1, latest)
      ∷ [];
  current = ("a", 1) ∷ [];
  next_key = 2;
  snapshots = new_registry;
}

written_twice-Once : Once written_twice.current
unfolding get
written_twice-Once = (refl, tt)

written_twice-Sound : Sound written_twice
unfolding get
written_twice-Sound = record {
  fresh = λ key le.
      let a : eqb 0 key ≡ false = ground (arith, le) in
      let b : eqb 1 key ≡ false = ground (arith, le) in rw (a, b) refl;
  live = λ id key e. elim (Bool-cases ("a" == id)) [
    | inr n ↦ let never : none ≡ some key = rw n at e in absurd (cc)
    | inl y ↦
        let one : some 1 ≡ some key = rw y at e in
        let key_eq : key ≡ 1 = ground (arith, one) in
        let here : get written_twice.versions key ≡ some latest =
          ap (get written_twice.versions) key_eq in
        (latest, here, (text_eq_iff "a" id).0 y, refl)
  ];
}

rebuild_index-document_example :
    (d : Collection ℕ ℕ (HnswIndex (Dict ℕ ℕ)) (Bm25Index ℕ)) × (rebuild_index builders
        written_twice
      ≡ some d)
    × Sound d
    × ((id : String) → document d id ≡ document written_twice id)
rebuild_index-document_example =
    rebuild_index-document builders written_twice written_twice-Sound written_twice-Once

abbrev rows_after : Option (Collection ℕ ℕ (HnswIndex (Dict ℕ ℕ)) (Bm25Index ℕ)) → Dict String ℕ
rows_after none = []
rows_after (some d) = d.current

-- the latest version has the key 0 now
rebuilt : rows_after (rebuild_index builders written_twice) ≡ ("a", 0) ∷ []
unfolding rebuild_index get insert
rebuilt = refl
