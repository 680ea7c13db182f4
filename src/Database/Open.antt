-- ===== src/Database/Open.antt =====
-- src/annex/db.py: every open collection of a database has a directory with a configuration.
use python_pj.Prelude.{
  ◌≡◌, refl, ap, ◌∙◌, sym, Bool, true, false, Option, none, some, String, text_eq_iff, inl, inr,
  Bool-cases, arith, is_some, if◌then◌else◌, string_eq, ◌==◌,
}
use python_pj.Prelude.Dict.{Dict, get, insert, get-insert, get-remove}
use python_pj.Settings.{CollectionConfig, check_collection}
use python_pj.Settings.Serial.{ConfigDict, to_dict, from_dict}
use python_pj.Database.{
  Opener, Directory, Database, config_of, stored_config, files_at, started, open_with, open_stored,
  open_known, open_collection, create_with, create_collection, left_in, popped, removed_directory,
  drop_collection, close_database, is_part, is_root,
}

-- A single part of a path is not the database's own path.
pub is_part-root : (name : String) → is_part name ≡ true → is_root name ≡ false
unfolding is_part
is_part-root name part = ground (arith, part)

pub missing : {A : Type 0} (o : Option A) → is_some o ≡ false → o ≡ none
missing none e = refl
missing (some a) e = absurd (cc)

module _ {R S : Type 0} where
  pub config-insert :
      (ds : Dict String (Directory R S)) (name other : String) (d : Directory R S)
      → config_of (get (insert ds name d) other)
        ≡ (if name == other then d.config_file else config_of (get ds other))
  config-insert ds name other d = elim (Bool-cases (name == other)) [
    | inl y ↦ rw (get-insert ds name other d, y) refl
    | inr n ↦ rw (get-insert ds name other d, n) refl
  ]

module _ {R S C : Type 0} where
  abbrev pub IsConsistent : Database R S C → Type 0
  IsConsistent db =
      (name : String) (coll : C)
      → get db.collections name ≡ some coll
      → is_some (stored_config db name) ≡ true

  started-IsConsistent :
      (name : String) (before after : Option (ConfigDict R)) (db : Database R S C)
      (r : S × Option C)
      → stored_config db name ≡ before
      → is_some after ≡ true
      → IsConsistent db
      → IsConsistent (started name before after db r).1
  started-IsConsistent name before after db (files, none) kept there h other coll e =
      let d : Directory R S = record { config_file = before; files = files } in
      elim (Bool-cases (name == other)) [
        | inl y ↦
            let same : name ≡ other = (text_eq_iff name other).0 y in
            let now : config_of (get (insert db.directories name d) other) ≡ before =
              config-insert db.directories name other d ∙ rw y refl in
            ap is_some (now ∙ sym kept ∙ ap (stored_config db) same) ∙ h other coll e
        | inr n ↦
            ap is_some (config-insert db.directories name other d ∙ rw n refl) ∙ h other coll e
      ]
  started-IsConsistent name before after db (files, some new) kept there h other coll e =
      let d : Directory R S = record { config_file = after; files = files } in
      elim (Bool-cases (name == other)) [
        | inl y ↦ ap is_some (config-insert db.directories name other d ∙ rw y refl) ∙ there
        | inr n ↦
            let old : get db.collections other ≡ some coll =
              sym (get-insert db.collections name other new ∙ rw n refl) ∙ e in
            ap is_some (config-insert db.directories name other d ∙ rw n refl) ∙ h other coll old
      ]

module _ {R S C : Type 0} (x : Opener R S C) (named : String → Bool) where
  open_with-IsConsistent :
      (name : String) (file : ConfigDict R) (db : Database R S C) (o : Option (CollectionConfig R))
      → stored_config db name ≡ some file
      → IsConsistent db
      → IsConsistent (open_with x named name file db o).1
  open_with-IsConsistent name file db none there h = h
  open_with-IsConsistent name file db (some config) there h =
      started-IsConsistent name (some file) (some file) db
        (x.start config (files_at x (get db.directories name))) there refl h

  open_stored-IsConsistent :
      (name : String) (db : Database R S C) (o : Option (ConfigDict R))
      → stored_config db name ≡ o
      → IsConsistent db
      → IsConsistent (open_stored x named name db o).1
  open_stored-IsConsistent name db none there h = h
  open_stored-IsConsistent name db (some file) there h =
      open_with-IsConsistent name file db (from_dict named file) there h

  open_known-IsConsistent :
      (name : String) (db : Database R S C) (o : Option C)
      → IsConsistent db
      → IsConsistent (open_known x named name db o).1
  open_known-IsConsistent name db (some coll) h = h
  open_known-IsConsistent name db none h =
      open_stored-IsConsistent name db (stored_config db name) refl h

  create_with-IsConsistent :
      (name : String) (db : Database R S C) (o : Option (CollectionConfig R))
      → stored_config db name ≡ none
      → IsConsistent db
      → IsConsistent (create_with x named name db o).1
  create_with-IsConsistent name db none gone h = h
  create_with-IsConsistent name db (some config) gone h =
      started-IsConsistent name none (some (to_dict config)) db
        (x.start config (files_at x (get db.directories name))) gone refl h

  create_collection-IsConsistent :
      (name : String) (config : CollectionConfig R) (exist_ok : Bool) (db : Database R S C)
      → IsConsistent db
      → IsConsistent (create_collection x named name config exist_ok db).1
  unfolding create_collection open_collection
  create_collection-IsConsistent name config exist_ok db h =
      elim (Bool-cases (is_some (stored_config db name))) [
        | inl y ↦ elim (Bool-cases exist_ok) [
          | inl ok ↦ rw (y, ok) (open_known-IsConsistent name db (get db.collections name) h)
          | inr never ↦ rw (y, never) h
        ]
        | inr n ↦ rw n (
            create_with-IsConsistent name db
              (check_collection named (record config { name = name }))
              (missing (stored_config db name) n) h)
      ]

module _ {R S C : Type 0} (x : Opener R S C) where
  -- A close leaves the configurations.
  left_in-config :
      (name other : String) (coll : C) (ds : Dict String (Directory R S))
      (o : Option (Directory R S))
      → get ds name ≡ o
      → config_of (get (left_in x name coll ds o) other) ≡ config_of (get ds other)
  left_in-config name other coll ds none e = refl
  left_in-config name other coll ds (some d) e =
      let d' : Directory R S = record d { files = x.files_of coll } in
      elim (Bool-cases (name == other)) [
        | inl y ↦
            let at : get ds other ≡ some d = sym (ap (get ds) ((text_eq_iff name other).0 y)) ∙ e in
            config-insert ds name other d' ∙ rw (y, at) refl
        | inr n ↦ config-insert ds name other d' ∙ rw n refl
      ]

  popped-config :
      (name other : String) (db : Database R S C) (o : Option C)
      → stored_config (popped x name db o) other ≡ stored_config db other
  popped-config name other db none = refl
  popped-config name other db (some coll) =
      left_in-config name other coll db.directories (get db.directories name) refl

  pub popped-collections :
      (name other : String) (db : Database R S C) (o : Option C)
      → get db.collections name ≡ o
      → get (popped x name db o).collections other
        ≡ (if name == other then none else get db.collections other)
  popped-collections name other db none e = elim (Bool-cases (name == other)) [
    | inl y ↦ rw y (sym (ap (get db.collections) ((text_eq_iff name other).0 y)) ∙ e)
    | inr n ↦ rw n refl
  ]
  popped-collections name other db (some coll) e = get-remove db.collections name other

  removed_directory-IsConsistent :
      (name : String) (db : Database R S C) (o : Option (Directory R S))
      → get db.collections name ≡ none
      → IsConsistent db
      → IsConsistent (removed_directory x name db o).1
  removed_directory-IsConsistent name db none closed h other coll e = h other coll e
  removed_directory-IsConsistent name db (some d) closed h other coll e =
      elim (Bool-cases (name == other)) [
        | inl y ↦
            let gone : get db.collections other ≡ none =
              sym (ap (get db.collections) ((text_eq_iff name other).0 y)) ∙ closed in
            absurd (cc)
        | inr n ↦ rw (get-remove db.directories name other, n) (h other coll e)
      ]

  drop_collection-IsConsistent :
      (name : String) (db : Database R S C)
      → is_part name ≡ true
      → IsConsistent db
      → IsConsistent (drop_collection x name db).1
  unfolding drop_collection
  drop_collection-IsConsistent name db part h =
      let inside = is_part-root name part in
      let o = get db.collections name in
      let after = popped x name db o in
      let self : (name == name) ≡ true = (text_eq_iff name name).1 refl in
      rw inside (
        removed_directory-IsConsistent name after (get after.directories name)
          (popped-collections name name db o refl ∙ rw self refl)
          (λ other coll e. elim (Bool-cases (name == other)) [
            | inl y ↦
                let never : none ≡ some coll =
                  sym (popped-collections name other db o refl ∙ rw y refl) ∙ e in
                absurd (cc)
            | inr n ↦
                ap is_some (popped-config name other db o)
                ∙ h other coll (sym (popped-collections name other db o refl ∙ rw n refl) ∙ e)
          ]))

-- With a name that is a single part of a path, what creating, opening, dropping and closing do keeps
-- every open collection's directory and configuration there.
pub operations-IsConsistent :
    {R S C : Type 0} (x : Opener R S C) (named : String → Bool) (name : String)
    (config : CollectionConfig R) (exist_ok : Bool) (db : Database R S C)
    → is_part name ≡ true
    → IsConsistent db
    → IsConsistent (create_collection x named name config exist_ok db).1
      × IsConsistent (open_collection x named name db).1
      × IsConsistent (drop_collection x name db).1
      × IsConsistent (close_database x db)
unfolding open_collection close_database get
operations-IsConsistent x named name config exist_ok db part h = (
  create_collection-IsConsistent x named name config exist_ok db h,
  open_known-IsConsistent x named name db (get db.collections name) h,
  drop_collection-IsConsistent x name db part h,
  λ other coll e. absurd (cc),
)
