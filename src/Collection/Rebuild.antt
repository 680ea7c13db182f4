-- ===== src/Collection/Rebuild.antt =====
-- src/annex/db.py: `rebuild_index`. `build` gives a new index, trained on some vectors where its space is
-- quantised; `add` is the index's own.
use python_pj.Prelude.{
  ℕ, suc, Bool, Option, none, some, String, List, [], ◌∷◌, if◌then◌else◌, length, map, nat_eq,
  string_eq, ◌==◌,
}
use python_pj.Prelude.Dict.{Dict, get, insert, values}
use python_pj.Storage.Lsm.{◌>>=◌}
use python_pj.Mvcc.{Version, inf}
use python_pj.Collection.{Collection}

-- What a rebuild calls of the two indexes, and whether the text index is enabled.
pub record Builders (V I T : Type 0) : Type 0 where
  pub build : List V → I
  pub vector_of : I → ℕ → V
  pub add : ℕ → V → I → I
  pub new_texts : T
  pub add_text : ℕ → String → T → T
  pub enable_text_index : Bool

module _ {J : Type 0} where
  -- the current keys with their versions, none for a key without one
  unfoldable pub live_of : List ℕ → Dict ℕ (Version J) → Option (List (ℕ × Version J))
  live_of [] versions = some []
  live_of (k ∷ ks) versions = do
    v ← get versions k
    rest ← live_of ks versions
    some ((k, v) ∷ rest)

  -- `Version(new_key, …, INF, …)`
  abbrev pub renumbered : ℕ → Version J → Version J
  renumbered key v = record v { key = key; dead = inf }

  -- `{v.doc_id: k for k, v in versions.items()}`
  unfoldable pub current_of : Dict ℕ (Version J) → Dict String ℕ → Dict String ℕ
  current_of [] current = current
  current_of ((k, v) ∷ versions) current = current_of versions (insert current v.doc_id k)

module _ {V I T : Type 0} (x : Builders V I T) where
  -- `if bm25 is not None and ver.text: bm25.add(new_key, ver.text)`
  abbrev pub text_added : ℕ → Option String → Option T → Option T
  text_added key (some t) (some b) = if t == "" then some b else some (x.add_text key t b)
  text_added key none (some b) = some b
  text_added key t none = none

module _ {V J I T : Type 0} (x : Builders V I T) where
  -- the new index from a key on, and the new key of each old one
  unfoldable pub add_live : I → ℕ → List (ℕ × Version J) → I × Dict ℕ ℕ → I × Dict ℕ ℕ
  add_live old new_key [] r = r
  add_live old new_key ((k, v) ∷ live) (index, remap) =
      add_live old (suc new_key) live
        (x.add new_key (x.vector_of old k) index, insert remap k new_key)

  unfoldable pub renumber :
      Dict ℕ ℕ
      → Dict ℕ (Version J)
      → Dict ℕ (Version J) × Option T
      → Option (Dict ℕ (Version J) × Option T)
  renumber [] old r = some r
  renumber ((old_key, new_key) ∷ remap) old (versions, texts) = do
    v ← get old old_key
    renumber remap old
        (insert versions new_key (renumbered new_key v), text_added x new_key v.text texts)

  unfoldable pub rebuild_index : Collection V J I T → Option (Collection V J I T)
  unfolding live_of add_live renumber current_of
  rebuild_index c = do
    live ← live_of (values c.current) c.versions
    let fresh = x.build (map (λ l. x.vector_of c.index l.0) live)
    let added = add_live c.index 0 live (fresh, [])
    r ← renumber added.1 c.versions ([], if x.enable_text_index then some x.new_texts else none)
    some (record c {
      index = added.0;
      texts = r.1;
      versions = r.0;
      current = current_of r.0 [];
      next_key = length r.0;
    })
