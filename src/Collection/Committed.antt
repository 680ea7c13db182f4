-- ===== src/Collection/Committed.antt =====
-- src/annex/db.py: what a transaction without a conflict does.
use python_pj.Prelude.{
  ℕ, suc, ◌≤◌, ◌<◌, ◌≡◌, ◌≢◌, refl, ap, ◌∙◌, Bool, true, false, Option, none, some, String, List,
  [], ◌∷◌, arith, nat_eq, string_eq, ◌==◌, if◌then◌else◌,
}
use python_pj.Prelude.Dict.{Dict, get}
use python_pj.Prelude.Members.{In}
use python_pj.Storage.Lsm.{checkpoint, log_frame, write_manifest}
use python_pj.Storage.Recovery.{Durable, Past}
use python_pj.Storage.Restart.{checkpoint-Durable}
use python_pj.Mvcc.{Version, inf}
use python_pj.Collection.{
  Engines, Collection, Write, upsert_op, delete_op, Transaction, apply_write, apply_writes,
  commit_writes, commit,
}
use python_pj.Collection.Snapshots.{Sound, document, seen, apply_upsert-Writes}
use python_pj.Collection.Deletes.{delete_doc-Writes}
use python_pj.Collection.Conflict.{any_conflict-older, Sound-HasVersions}

-- the metadata and text of a document, without its birth
abbrev pub undated :
    {J : Type 0}
    → Option (ℕ × Dict String J × Option String)
    → Option (Dict String J × Option String)
undated none = none
undated (some (born, metadata, text)) = some (metadata, text)

undated-if :
    {J : Type 0} (b : Bool) (new old : Option (ℕ × Dict String J × Option String))
    → undated (if b then new else old) ≡ (if b then undated new else undated old)
undated-if true new old = refl
undated-if false new old = refl

module _ {R J : Type 0} where
  -- what is under the id `j` after a write
  abbrev pub overwrite :
      Write R J
      → String
      → Option (Dict String J × Option String)
      → Option (Dict String J × Option String)
  overwrite (upsert_op id r m t) j old = if id == j then some (m, t) else old
  overwrite (delete_op id) j old = if id == j then none else old

  -- what is under the id `j` after some writes, in order
  abbrev pub overwrites :
      List (Write R J)
      → String
      → Option (Dict String J × Option String)
      → Option (Dict String J × Option String)
  overwrites [] j old = old
  overwrites (w ∷ ws) j old = overwrites ws j (overwrite w j old)

-- The collection `c'` is `c` with some writes: it is sound and durable, a reader at a sequence number of
-- `c` sees what it saw, and under each id is what the writes leave there.
pub record Applied {R V J I T : Type 0} (ws : List (Write R J)) (c c' : Collection V J I T)
    : Type 0 where
  pub sound : Sound c'
  pub durable : Durable c'.store
  pub later : c.store.seq ≤ c'.store.seq
  pub earlier : (snap k : ℕ) → snap ≤ c.store.seq → seen c' snap k ≡ seen c snap k
  pub contents : (j : String) → undated (document c' j) ≡ overwrites ws j (undated (document c j))

module _ {R V J I T : Type 0} (x : Engines R V I T) where
  -- An upsert has an id and a valid vector that the index takes.
  abbrev pub IsValid : Write R J → Collection V J I T → Type 0
  IsValid (upsert_op id r m t) c =
      (id ≢ "")
      × (vec : V) × (index : I) × (x.prepare r ≡ some vec)
      × (x.add_vector c.next_key vec c.index ≡ some index)
  IsValid (delete_op id) c = Unit

module _ {R V J I T : Type 0} (x : Engines R V I T) (now : ℕ) where
  -- At each write the clock is past the compactions, sequence numbers are left, and the write is valid.
  abbrev pub AreReady : List (Write R J) → ℕ × Collection V J I T → Type 0
  AreReady [] r = Unit
  AreReady (w ∷ ws) r =
      Past now r.1.store.segments
      × (suc r.1.store.seq < inf)
      × IsValid x w r.1
      × ((r' : ℕ × Collection V J I T) → apply_write x now w r ≡ some r' → AreReady ws r')

  apply_write-Applied :
      (w : Write R J) (n : ℕ) (c : Collection V J I T)
      → Sound c
      → Durable c.store
      → Past now c.store.segments
      → suc c.store.seq < inf
      → IsValid x w c
      → (r : ℕ × Collection V J I T) × (apply_write x now w (n, c) ≡ some r)
        × Applied (w ∷ []) c r.1
  unfolding apply_write
  apply_write-Applied (upsert_op id r m t) n c sound durable past room (named, vec, index, p, a) =
      let (c', e, w) =
        apply_upsert-Writes x now c sound durable past room id r m t vec index named p a in
      (
        (suc n, c'),
        rw e refl,
        record {
          sound = w.sound;
          durable = w.durable;
          later = w.later;
          earlier = w.earlier;
          contents = λ j. ap undated (w.documents j) ∙ undated-if (id == j) _ _;
        },
      )
  apply_write-Applied (delete_op id) n c sound durable past room valid =
      let (b, c', e, gone, w) = delete_doc-Writes x now c sound durable past room id in
      (
        (if b then suc n else n, c'),
        rw e refl,
        record {
          sound = w.sound;
          durable = w.durable;
          later = w.later;
          earlier = w.earlier;
          contents = λ j. ap undated (w.documents j) ∙ undated-if (id == j) _ _;
        },
      )

  pub apply_writes-Applied :
      (ws : List (Write R J)) (n : ℕ) (c : Collection V J I T)
      → Sound c
      → Durable c.store
      → AreReady ws (n, c)
      → (r : ℕ × Collection V J I T) × (apply_writes x now ws (n, c) ≡ some r) × Applied ws c r.1
  unfolding apply_writes
  apply_writes-Applied [] n c sound durable ready = (
    (n, c),
    refl,
    record {
      sound = sound;
      durable = durable;
      later = omega arith;
      earlier = λ snap k le. refl;
      contents = λ j. refl;
    },
  )
  apply_writes-Applied (w ∷ ws) n c sound durable (past, room, valid, after) =
      let (r, e, one) = apply_write-Applied w n c sound durable past room valid in
      let (q, f, rest) = apply_writes-Applied ws r.0 r.1 one.sound one.durable (after r e) in
      (
        q,
        rw e f,
        record {
          sound = rest.sound;
          durable = rest.durable;
          later = omega (arith, one.later, rest.later);
          earlier = λ snap k le.
              rest.earlier snap k (omega (arith, le, one.later)) ∙ one.earlier snap k le;
          contents = λ j. rest.contents j ∙ ap (overwrites ws j) (one.contents j);
        },
      )

  pub checkpointed-Applied :
      (ws : List (Write R J)) (c c' : Collection V J I T)
      → Applied ws c c'
      → Applied ws c (record c' { store = checkpoint c'.store })
  unfolding checkpoint log_frame write_manifest
  checkpointed-Applied ws c c' a = record {
    sound = record { fresh = a.sound.fresh; live = a.sound.live };
    durable = checkpoint-Durable c'.store a.durable;
    later = omega (arith, a.later);
    earlier = a.earlier;
    contents = a.contents;
  }

  -- A transaction that the conflict check lets through.
  pub clear_commit-Applied :
      (t : Transaction R J) (c : Collection V J I T)
      → Sound c
      → Durable c.store
      → t.done ≡ false
      → ((id : String) (key : ℕ) (v : Version J)
          → In id t.touched
          → get c.current id ≡ some key
          → get c.versions key ≡ some v
          → v.born ≤ t.start_seq)
      → AreReady t.ops (0, c)
      → (n : ℕ) × (c' : Collection V J I T) × (commit x now t c
          ≡ some (n, record t { done = true }, c'))
        × Applied t.ops c c'
  unfolding commit commit_writes
  clear_commit-Applied t c sound durable pending older ready =
      let clear =
        any_conflict-older t.start_seq c.current c.versions t.touched
          (Sound-HasVersions x now t c sound t.touched) older in
      let (r, e, a) = apply_writes-Applied t.ops 0 c sound durable ready in
      (
        r.0,
        record (r.1) { store = checkpoint r.1.store },
        rw (pending, clear, commit_writes, e) refl,
        checkpointed-Applied t.ops c r.1 a,
      )
