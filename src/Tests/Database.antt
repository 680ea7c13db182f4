-- ===== src/Tests/Database.antt =====
-- src/annex/db.py: a database with a collection that is open and one that is not. A collection is the
-- number of its documents, which is also what it keeps in its files.
use python_pj.Prelude.{
  ℕ, ◌≡◌, refl, sym, ap, ◌∙◌, Bool, true, none, some, String, [], ◌∷◌, Bool-cases, is_some, inl,
  inr, text_eq_iff, string_eq, ◌==◌,
}
use python_pj.Prelude.Dict.{get}
use python_pj.Settings.{CollectionConfig, cosine, hnsw}
use python_pj.Settings.Serial.{to_dict, default_hnsw, default_pq, default_storage}
use python_pj.Database.{
  Opener, Database, open_collection, create_collection, drop_collection, close_database,
  stored_config, is_part, has_slash,
}
use python_pj.Database.Open.{IsConsistent, operations-IsConsistent}
use python_pj.Database.Names.{IsSettled, create_collection-IsSettled}

abbrev opener : Opener ℕ ℕ ℕ
opener = record { no_files = 0; start = λ config n. (n, some n); files_of = λ n. n }

abbrev any_name : String → Bool
any_name s = true

abbrev papers : CollectionConfig ℕ
papers = record {
  name = "papers";
  dim = 8;
  metric = cosine;
  index = hnsw;
  hnsw = default_hnsw;
  pq = default_pq;
  storage = default_storage;
  enable_text_index = true;
  dtype = "float32";
}

abbrev two_collections : Database ℕ ℕ ℕ
two_collections = record {
  root = true;
  directories =
      ("papers", record { config_file = some (to_dict papers); files = 3 })
      ∷ (
        "notes",
        record { config_file = some (to_dict (record papers { name = "notes" })); files = 5 },
      )
      ∷ [];
  collections = ("notes", 5) ∷ [];
}

two_collections-IsConsistent : IsConsistent two_collections
unfolding get
two_collections-IsConsistent name coll e = elim (Bool-cases ("notes" == name)) [
  | inr n ↦ let never : none ≡ some coll = rw n at e in absurd (cc)
  | inl y ↦
      let there : is_some (stored_config two_collections "notes") ≡ true = refl in
      ap (λ s. is_some (stored_config two_collections s)) (sym ((text_eq_iff "notes" name).0 y))
      ∙ there
]

operations-IsConsistent_example :
    IsConsistent (create_collection opener any_name "papers" papers true two_collections).1
    × IsConsistent (open_collection opener any_name "papers" two_collections).1
    × IsConsistent (drop_collection opener "papers" two_collections).1
    × IsConsistent (close_database opener two_collections)
unfolding is_part has_slash
operations-IsConsistent_example =
    operations-IsConsistent opener any_name "papers" papers true two_collections refl
      two_collections-IsConsistent

create_collection-IsSettled_example :
    IsSettled opener any_name "papers" two_collections
      (create_collection opener any_name "papers" papers true two_collections)
    × IsSettled opener any_name "papers" two_collections
        (open_collection opener any_name "papers" two_collections)
create_collection-IsSettled_example =
    create_collection-IsSettled opener any_name "papers" papers true two_collections
      two_collections-IsConsistent
