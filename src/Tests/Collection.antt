-- ===== src/Tests/Collection.antt =====
-- src/annex/db.py: a collection with a snapshot that is open.
use python_pj.Prelude.{
  ℕ, ◌≤◌, ◌≡◌, ◌≢◌, refl, inl, inr, String, Bool, true, false, none, some, List, [], ◌∷◌, arith,
  string_eq, nat_eq, ◌==◌, text_eq_iff, Bool-cases, if◌then◌else◌, subst,
}
use python_pj.Prelude.Dict.{get}
use python_pj.Storage.Recovery.{Durable}
use python_pj.Mvcc.{Version, inf, new_registry}
use python_pj.Collection.{
  Engines, Collection, apply_upsert, Transaction, commit, vacuum, any_conflict, upsert_op,
}
use python_pj.Collection.Snapshots.{Sound, seen, apply_upsert-Sound}
use python_pj.Collection.Vacuum.{vacuum-seen}
use python_pj.Collection.Conflict.{commit-conflict}
use python_pj.Tests.Raft.{apart}
use python_pj.Tests.Storage.{new_store, new_store-Durable, none-some}

-- indexes that keep the keys they have
abbrev pub engines : Engines ℕ ℕ (List ℕ) (List ℕ)
engines = record {
  prepare = some;
  add_vector = λ k v ks. some (k ∷ ks);
  remove_vector = λ k ks. ks;
  add_text = λ k t ks. k ∷ ks;
  remove_text = λ k ks. ks;
}

abbrev pub new_collection : Collection ℕ ℕ (List ℕ) (List ℕ)
new_collection = record {
  store = new_store;
  index = [];
  texts = some [];
  versions = [];
  current = [];
  next_key = 0;
  snapshots = new_registry;
}

pub new_collection-Sound : Sound new_collection
unfolding get
new_collection-Sound = record { fresh = λ k le. refl; live = λ id k e. absurd (none-some k e) }

abbrev doc : String
doc = "x"

named : doc ≢ ""
named = apart doc "" refl

apply_upsert-Sound_example :
    (c : Collection ℕ ℕ (List ℕ) (List ℕ)) × (apply_upsert engines 5 "x" 7 [] none new_collection
      ≡ some c)
    × Sound c
    × Durable c.store
    × ((snap k : ℕ) → snap ≤ 0 → seen c snap k ≡ seen new_collection snap k)
apply_upsert-Sound_example =
    apply_upsert-Sound engines 5 new_collection new_collection-Sound new_store-Durable tt
      (omega arith) "x" 7 [] none 7 (0 ∷ []) named refl refl

abbrev old_version : Version ℕ
old_version = record { key = 0; doc_id = "x"; born = 1; dead = 4; metadata = []; text = none }

abbrev current_version : Version ℕ
current_version = record { key = 1; doc_id = "x"; born = 4; dead = inf; metadata = []; text = none }

-- a document written twice, and a reader at the first
abbrev pinned : Collection ℕ ℕ (List ℕ) (List ℕ)
pinned = record new_collection {
  versions = (0, old_version) ∷ (1, current_version) ∷ [];
  current = ("x", 1) ∷ [];
  next_key = 2;
  snapshots = record { counter = 2; open_snapshots = (1, 2) ∷ [] };
}

vacuum-seen_example : seen (vacuum engines pinned).1 2 0 ≡ seen pinned 2 0
vacuum-seen_example = vacuum-seen engines 2 pinned 0 (inl refl)

pinned-live :
    (id : String) (key : ℕ)
    → get pinned.current id ≡ some key
    → (v : Version ℕ) × (get pinned.versions key ≡ some v) × (v.doc_id ≡ id) × (v.dead ≡ inf)
unfolding get
pinned-live id key e = elim (Bool-cases (doc == id)) [
  | inl y ↦
      let at : some 1 ≡ some key =
        subst (λ (b : Bool). (if b then some 1 else none) ≡ some key) y e in
      let one : 1 ≡ key = ground (arith, at) in
      subst
        (λ (k : ℕ).
          (v : Version ℕ) × (get pinned.versions k ≡ some v) × (v.doc_id ≡ id) × (v.dead ≡ inf))
        one (current_version, refl, (text_eq_iff doc id).0 y, refl)
  | inr y ↦
      absurd (none-some key (subst (λ (b : Bool). (if b then some 1 else none) ≡ some key) y e))
]

pinned-Sound : Sound pinned
unfolding get
pinned-Sound = record { fresh = λ key le. ground (arith, le); live = pinned-live }

-- a transaction that began before the second write
abbrev stale : Transaction ℕ ℕ
stale = record {
  start_seq = 2;
  ops = upsert_op "x" 9 [] none ∷ [];
  touched = "x" ∷ [];
  done = false;
}

commit-conflict_example :
    (any_conflict 2 ("x" ∷ []) pinned.current pinned.versions ≡ some true)
    × (commit engines 6 stale pinned ≡ none)
unfolding get
commit-conflict_example =
    commit-conflict engines 6 stale pinned pinned-Sound "x" 1 current_version (inl refl) refl refl
      (omega arith)
