-- ===== src/Database/Names.antt =====
-- src/annex/db.py: what creating and opening a collection do for its name and for the others.
use python_pj.Prelude.{
  ◌≡◌, refl, ap, ◌∙◌, sym, Bool, true, false, Option, none, some, String, ◌⊎◌, inl, inr, Bool-cases,
  is_some, string_eq, ◌==◌, text_eq_iff,
}
use python_pj.Prelude.Dict.{get, insert, get-insert}
use python_pj.Settings.{CollectionConfig, check_collection}
use python_pj.Settings.Serial.{ConfigDict, to_dict, from_dict}
use python_pj.Database.{
  DbError, not_found_error, schema_error, other_error, Opener, Directory, Database, stored_config,
  files_at, started, open_with, open_stored, open_known, open_collection, create_with,
  create_collection,
}
use python_pj.Database.Open.{IsConsistent, config-insert, missing}

module _ {R S C : Type 0} where
  -- The other names have the collections and the directories that they had.
  abbrev pub OthersKept : String → Database R S C → Database R S C → Type 0
  OthersKept name db db' =
      (other : String)
      → (name == other) ≡ false
      → (get db'.collections other ≡ get db.collections other)
        × (get db'.directories other ≡ get db.directories other)

module _ {R S C : Type 0} (x : Opener R S C) (named : String → Bool) where
  -- After an error the open collections and the stored configurations are what they were. After a
  -- success opening the name gives the collection again, and creating it anew is an error.
  abbrev pub IsSettled : String → Database R S C → (DbError ⊎ C) × Database R S C → Type 0
  IsSettled name db (inl e, db') =
      (db'.collections ≡ db.collections)
      × ((other : String) → stored_config db' other ≡ stored_config db other)
      × OthersKept name db db'
  IsSettled name db (inr coll, db') =
      (open_collection x named name db' ≡ (inr coll, db'))
      × ((config : CollectionConfig R)
          → create_collection x named name config false db' ≡ (inl schema_error, db'))
      × OthersKept name db db'

  open-IsSettled :
      (name : String) (coll : C) (db db' : Database R S C)
      → get db'.collections name ≡ some coll
      → is_some (stored_config db' name) ≡ true
      → OthersKept name db db'
      → IsSettled name db (inr coll, db')
  unfolding open_collection create_collection
  open-IsSettled name coll db db' is_open there others =
      (rw is_open refl, (λ config. rw there refl), others)

  started-IsSettled :
      (name : String) (before after : Option (ConfigDict R)) (db : Database R S C)
      (r : S × Option C)
      → stored_config db name ≡ before
      → is_some after ≡ true
      → IsSettled name db (started name before after db r)
  started-IsSettled name before after db (files, none) kept there =
      let d : Directory R S = record { config_file = before; files = files } in
      (
        refl,
        (λ other. elim (Bool-cases (name == other)) [
          | inl y ↦
              config-insert db.directories name other d
              ∙ rw y (sym kept ∙ ap (stored_config db) ((text_eq_iff name other).0 y))
          | inr n ↦ config-insert db.directories name other d ∙ rw n refl
        ]),
        (λ other n. (refl, get-insert db.directories name other d ∙ rw n refl)),
      )
  started-IsSettled name before after db (files, some new) kept there =
      let d : Directory R S = record { config_file = after; files = files } in
      let self : (name == name) ≡ true = (text_eq_iff name name).1 refl in
      let db' : Database R S C = record {
        root = true;
        directories = insert db.directories name d;
        collections = insert db.collections name new;
      } in
      open-IsSettled name new db db' (get-insert db.collections name name new ∙ rw self refl)
        (ap is_some (config-insert db.directories name name d ∙ rw self refl) ∙ there)
        (λ other n. (
          get-insert db.collections name other new ∙ rw n refl,
          get-insert db.directories name other d ∙ rw n refl,
        ))

  unchanged : (name : String) (e : DbError) (db : Database R S C) → IsSettled name db (inl e, db)
  unchanged name e db = (refl, (λ other. refl), (λ other n. (refl, refl)))

  open_with-IsSettled :
      (name : String) (file : ConfigDict R) (db : Database R S C) (o : Option (CollectionConfig R))
      → stored_config db name ≡ some file
      → IsSettled name db (open_with x named name file db o)
  open_with-IsSettled name file db none there = unchanged name other_error db
  open_with-IsSettled name file db (some config) there =
      started-IsSettled name (some file) (some file) db
        (x.start config (files_at x (get db.directories name))) there refl

  open_stored-IsSettled :
      (name : String) (db : Database R S C) (o : Option (ConfigDict R))
      → stored_config db name ≡ o
      → IsSettled name db (open_stored x named name db o)
  open_stored-IsSettled name db none there = unchanged name not_found_error db
  open_stored-IsSettled name db (some file) there =
      open_with-IsSettled name file db (from_dict named file) there

  open_known-IsSettled :
      (name : String) (db : Database R S C) (o : Option C)
      → get db.collections name ≡ o
      → IsConsistent db
      → IsSettled name db (open_known x named name db o)
  open_known-IsSettled name db (some coll) e h =
      open-IsSettled name coll db db e (h name coll e) (λ other n. (refl, refl))
  open_known-IsSettled name db none e h = open_stored-IsSettled name db (stored_config db name) refl

  create_with-IsSettled :
      (name : String) (db : Database R S C) (o : Option (CollectionConfig R))
      → stored_config db name ≡ none
      → IsSettled name db (create_with x named name db o)
  create_with-IsSettled name db none gone = unchanged name other_error db
  create_with-IsSettled name db (some config) gone =
      started-IsSettled name none (some (to_dict config)) db
        (x.start config (files_at x (get db.directories name))) gone refl

  -- In a database whose open collections have their configurations, creating and opening a collection
  -- leave the other names alone. After an error the open collections and the stored configurations are
  -- what they were. After a success opening the name gives the same collection and changes nothing, and
  -- creating it when it may not exist is a schema error.
  pub create_collection-IsSettled :
      (name : String) (config : CollectionConfig R) (exist_ok : Bool) (db : Database R S C)
      → IsConsistent db
      → IsSettled name db (create_collection x named name config exist_ok db)
        × IsSettled name db (open_collection x named name db)
  unfolding create_collection open_collection
  create_collection-IsSettled name config exist_ok db h =
      let opened = open_known-IsSettled name db (get db.collections name) refl h in
      (
        elim (Bool-cases (is_some (stored_config db name))) [
          | inl y ↦ elim (Bool-cases exist_ok) [
            | inl ok ↦ rw (y, ok) opened
            | inr never ↦ rw (y, never) (unchanged name schema_error db)
          ]
          | inr n ↦ rw n (
              create_with-IsSettled name db (check_collection named (record config { name = name }))
                (missing (stored_config db name) n))
        ],
        opened,
      )
