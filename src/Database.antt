-- ===== src/Database.antt =====
-- src/annex/db.py: `Database`. A name is a single part of a path, or one that stands for the database's own
-- directory; `S` is what a collection keeps in its directory beside the configuration, and `C` an open
-- collection.
use python_pj.Prelude.{
  ℕ, Bool, true, false, Option, none, some, String, List, [], ◌∷◌, if◌then◌else◌, is_some, not, ◌⊎◌,
  inl, inr, string_eq, str_ltb, ◌==◌, ◌||◌, ◌&&◌, eqb,
}
use Prim.Native.Char.{Char, code}
use python_pj.Prelude.Dict.{Dict, get, insert, remove}
use python_pj.Settings.{CollectionConfig, check_collection}
use python_pj.Settings.Serial.{ConfigDict, to_dict, from_dict}
use python_pj.Index.Heap.{sort}
pub mod Open
pub mod Names
pub mod Dropped

pub data DbError : Type 0 where
  not_found_error : DbError
  schema_error : DbError
  other_error : DbError

-- `Collection(directory, config)`, with the files it leaves, and the files after `close`
pub record Opener (R S C : Type 0) : Type 0 where
  pub no_files : S
  pub start : CollectionConfig R → S → S × Option C
  pub files_of : C → S

pub record Directory (R S : Type 0) : Type 0 where
  pub config_file : Option (ConfigDict R)
  pub files : S

-- `root` says whether the directory of the database is there.
pub record Database (R S C : Type 0) : Type 0 where
  pub root : Bool
  pub directories : Dict String (Directory R S)
  pub collections : Dict String C

-- `self.path / name` is the path of the database itself.
abbrev pub is_root : String → Bool
is_root name = name == "" || name == "."

unfoldable pub has_slash : String → Bool
has_slash String.[] = false
has_slash (String.◌∷◌ c s) = eqb (code c) 47 || has_slash s

-- The name is a single part of a path, so that its path is a directory of its own in the database's.
unfoldable pub is_part : String → Bool
unfolding has_slash
is_part name = not (is_root name) && not (name == "..") && not (has_slash name)

module _ {R S : Type 0} where
  -- `cfg_path.exists()`, and the file
  abbrev pub config_of : Option (Directory R S) → Option (ConfigDict R)
  config_of none = none
  config_of (some d) = d.config_file

  unfoldable pub configured : Dict String (Directory R S) → List String
  configured [] = []
  configured ((name, d) ∷ ds) =
      let rest = configured ds in if is_some d.config_file then name ∷ rest else rest

module _ {R S C : Type 0} where
  abbrev pub stored_config : Database R S C → String → Option (ConfigDict R)
  stored_config db name = config_of (get db.directories name)

  -- none when the directory of the database is not there
  unfoldable pub list_collections : Database R S C → Option (List String)
  unfolding configured
  list_collections db =
      if db.root then some (sort (λ s t. not (str_ltb t s)) (configured db.directories)) else none

  -- `directory.mkdir(parents=True)`, `coll = Collection(directory, config)` and what follows, with the
  -- file that the directory then has
  abbrev pub started :
      String
      → Option (ConfigDict R)
      → Option (ConfigDict R)
      → Database R S C
      → S × Option C
      → (DbError ⊎ C) × Database R S C
  started name before after db (files, none) = (
    inl other_error,
    record db {
      root = true;
      directories = insert db.directories name (record { config_file = before; files = files });
    },
  )
  started name before after db (files, some coll) = (
    inr coll,
    record {
      root = true;
      directories = insert db.directories name (record { config_file = after; files = files });
      collections = insert db.collections name coll;
    },
  )

module _ {R S C : Type 0} (x : Opener R S C) where
  -- the files of a directory, which `mkdir` makes when it is not there
  abbrev pub files_at : Option (Directory R S) → S
  files_at none = x.no_files
  files_at (some d) = d.files

module _ {R S C : Type 0} (x : Opener R S C) (named : String → Bool) where
  -- the end of `open_collection`, for the configuration that was read
  abbrev pub open_with :
      String
      → ConfigDict R
      → Database R S C
      → Option (CollectionConfig R)
      → (DbError ⊎ C) × Database R S C
  open_with name file db none = (inl other_error, db)
  open_with name file db (some config) =
      started name (some file) (some file) db
        (x.start config (files_at x (get db.directories name)))

  abbrev pub open_stored :
      String → Database R S C → Option (ConfigDict R) → (DbError ⊎ C) × Database R S C
  open_stored name db none = (inl not_found_error, db)
  open_stored name db (some file) = open_with name file db (from_dict named file)

  abbrev pub open_known : String → Database R S C → Option C → (DbError ⊎ C) × Database R S C
  open_known name db (some coll) = (inr coll, db)
  open_known name db none = open_stored name db (stored_config db name)

  unfoldable pub open_collection : String → Database R S C → (DbError ⊎ C) × Database R S C
  open_collection name db = open_known name db (get db.collections name)

  -- the new collection of `create_collection`
  abbrev pub create_with :
      String → Database R S C → Option (CollectionConfig R) → (DbError ⊎ C) × Database R S C
  create_with name db none = (inl other_error, db)
  create_with name db (some config) =
      started name none (some (to_dict config)) db
        (x.start config (files_at x (get db.directories name)))

  -- `config` has the remaining arguments.
  unfoldable pub create_collection :
      String → CollectionConfig R → Bool → Database R S C → (DbError ⊎ C) × Database R S C
  unfolding open_collection
  create_collection name config exist_ok db =
      if is_some (stored_config db name)
      then (if exist_ok then open_collection name db else (inl schema_error, db))
      else create_with name db (check_collection named (record config { name = name }))

module _ {R S C : Type 0} (x : Opener R S C) where
  -- `coll.close()`: what an open collection leaves in its directory, when that is there
  abbrev pub left_in :
      String
      → C
      → Dict String (Directory R S)
      → Option (Directory R S)
      → Dict String (Directory R S)
  left_in name coll ds none = ds
  left_in name coll ds (some d) = insert ds name (record d { files = x.files_of coll })

  abbrev pub closed_in : String → C → Dict String (Directory R S) → Dict String (Directory R S)
  closed_in name coll ds = left_in name coll ds (get ds name)

  abbrev pub popped : String → Database R S C → Option C → Database R S C
  popped name db none = db
  popped name db (some coll) = record {
    root = db.root;
    directories = closed_in name coll db.directories;
    collections = remove db.collections name;
  }

  -- `shutil.rmtree(directory)`, or the error
  abbrev pub removed_directory :
      String → Database R S C → Option (Directory R S) → Option DbError × Database R S C
  removed_directory name db none = (some not_found_error, db)
  removed_directory name db (some d) =
      (none, record db { directories = remove db.directories name })

  -- the same for the database's own directory, with all that is in it
  abbrev pub removed_root : Database R S C → Option DbError × Database R S C
  removed_root db =
      if db.root
      then (none, record db { root = false; directories = [] })
      else (some not_found_error, db)

  unfoldable pub drop_collection : String → Database R S C → Option DbError × Database R S C
  drop_collection name db =
      let after = popped name db (get db.collections name) in
      if is_root name
      then removed_root after
      else removed_directory name after (get after.directories name)

  unfoldable pub close_each :
      Dict String C → Dict String (Directory R S) → Dict String (Directory R S)
  close_each [] ds = ds
  close_each ((name, coll) ∷ cs) ds = close_each cs (closed_in name coll ds)

  unfoldable pub close_database : Database R S C → Database R S C
  unfolding close_each
  close_database db = record {
    root = db.root;
    directories = close_each db.collections db.directories;
    collections = [];
  }
