-- ===== src/Mvcc.antt =====
-- src/annex/mvcc.py: the versions of a document and the registry of open snapshots.
use python_pj.Prelude.{
  ℕ, suc, Bool, ◌&&◌, Option, String, List, [], ◌∷◌, ltb, leb, eqb, if◌then◌else◌, length, nat_eq,
}
use python_pj.Prelude.Dict.{Dict, insert, remove, values}

-- `INF`
abbrev pub inf : ℕ
inf = 4611686018427387904

pub record Version (J : Type 0) : Type 0 where
  pub key : ℕ
  pub doc_id : String
  pub born : ℕ
  pub dead : ℕ
  pub metadata : Dict String J
  pub text : Option String

abbrev pub visible_at : {J : Type 0} → Version J → ℕ → Bool
visible_at v snapshot = leb v.born snapshot && ltb snapshot v.dead

abbrev pub is_live_version : {J : Type 0} → Version J → Bool
is_live_version v = eqb v.dead inf

-- `counter` is the next value of `itertools.count(1)`.
pub record SnapshotRegistry : Type 0 where
  pub counter : ℕ
  pub open_snapshots : Dict ℕ ℕ

abbrev pub new_registry : SnapshotRegistry
new_registry = record { counter = 1; open_snapshots = [] }

-- the handle, and the registry with it
unfoldable pub acquire : ℕ → SnapshotRegistry → ℕ × SnapshotRegistry
acquire seq r = (
  r.counter,
  record { counter = suc r.counter; open_snapshots = insert r.open_snapshots r.counter seq },
)

unfoldable pub release : ℕ → SnapshotRegistry → SnapshotRegistry
release handle r = record r { open_snapshots = remove r.open_snapshots handle }

abbrev pub lesser : ℕ → ℕ → ℕ
lesser a b = if ltb b a then b else a

abbrev pub least : ℕ → List ℕ → ℕ
least x [] = x
least x (y ∷ ys) = least (lesser x y) ys

-- `min(xs, default=current)`
abbrev pub min_default : ℕ → List ℕ → ℕ
min_default current [] = current
min_default current (x ∷ xs) = least x xs

-- the oldest sequence number that an open reader can still see
unfoldable pub horizon : ℕ → SnapshotRegistry → ℕ
horizon current r = min_default current (values r.open_snapshots)

unfoldable pub open_count : SnapshotRegistry → ℕ
open_count r = length r.open_snapshots
