-- ===== src/Collection/Meanwhile.antt =====
-- src/annex/db.py: a transaction, and what others write between its beginning and its commit.
use python_pj.Prelude.{
  ℕ, suc, ◌≤◌, ◌<◌, ◌≡◌, ◌≢◌, refl, sym, ap, subst, ◌∙◌, inl, inr, Bool, true, false, Option, none,
  some, String, List, arith, nat_eq, string_eq, ◌==◌, Bool-cases, Option-cases, text_eq_iff,
}
use python_pj.Prelude.Dict.{Dict, get}
use python_pj.Prelude.Members.{In}
use python_pj.Storage.Lsm.{checkpoint}
use python_pj.Storage.Recovery.{Durable, Past}
use python_pj.Storage.Restart.{checkpoint-Durable}
use python_pj.Mvcc.{Version, inf}
use python_pj.Collection.{
  Engines, Collection, upsert_op, Transaction, apply_upsert, delete_doc, commit,
}
use python_pj.Collection.Snapshots.{Sound, Writes, document, apply_upsert-Writes}
use python_pj.Collection.Deletes.{delete_doc-Writes}
use python_pj.Collection.Committed.{Applied, IsValid, AreReady, clear_commit-Applied}

some_same : {A : Type 0} {a b : A} → some a ≡ some b → a ≡ b
some_same e = cc e

not_none : {A : Type 0} {a : A} → none ≢ some a
not_none e = cc e

module _ {R V J I T : Type 0} (x : Engines R V I T) (ids : List String)
    (began : Collection V J I T) where
  -- The collections that `began` becomes by upserts and deletes of documents other than `ids`, by
  -- themselves or in transactions, which end with a checkpoint. At each write the clock is past the
  -- compactions and sequence numbers are left.
  pub data Meanwhile : Collection V J I T → Type 0 where
    still : Meanwhile began
    upserts :
        {c c' : Collection V J I T} (now : ℕ) (id : String) (r : R) (m : Dict String J)
        (t : Option String)
        → Meanwhile c
        → ¬ In id ids
        → Past now c.store.segments
        → suc c.store.seq < inf
        → IsValid x (upsert_op id r m t) c
        → apply_upsert x now id r m t c ≡ some c'
        → Meanwhile c'
    deletes :
        {c c' : Collection V J I T} (now : ℕ) (id : String) (b : Bool)
        → Meanwhile c
        → ¬ In id ids
        → Past now c.store.segments
        → suc c.store.seq < inf
        → delete_doc x now id c ≡ some (b, c')
        → Meanwhile c'
    checkpoints :
        {c : Collection V J I T} → Meanwhile c → Meanwhile (record c { store = checkpoint c.store })

  -- The documents `ids` are what they were.
  record Kept (c : Collection V J I T) : Type 0 where
    sound : Sound c
    durable : Durable c.store
    same : (id : String) → In id ids → document c id ≡ document began id

  written-Kept :
      (c c' : Collection V J I T) (id : String) (new : Option (ℕ × Dict String J × Option String))
      → Kept c
      → ¬ In id ids
      → Writes c id new c'
      → Kept c'
  written-Kept c c' id new k other w = record {
    sound = w.sound;
    durable = w.durable;
    same = λ j i. elim (Bool-cases (id == j)) [
      | inl y ↦ absurd (other (subst (λ s. In s ids) (sym ((text_eq_iff id j).0 y)) i))
      | inr n ↦ w.documents j ∙ rw n (k.same j i)
    ];
  }

  module _ (sound : Sound began) (durable : Durable began.store) where
    Meanwhile-Kept : {c : Collection V J I T} → Meanwhile c → Kept c
    Meanwhile-Kept still = record { sound = sound; durable = durable; same = λ id i. refl }
    Meanwhile-Kept
          (upserts {c} {c'} now id r m t before other past room (named, vec, index, p, a) e) =
        let k = Meanwhile-Kept before in
        let (d, f, w) =
          apply_upsert-Writes x now c k.sound k.durable past room id r m t vec index named p a in
        subst Kept (some_same (sym f ∙ e)) (written-Kept c d id _ k other w)
    Meanwhile-Kept (deletes {c} {c'} now id b before other past room e) =
        let k = Meanwhile-Kept before in
        let (q, d, f, gone, w) = delete_doc-Writes x now c k.sound k.durable past room id in
        subst Kept (ap (λ s. s.1) (some_same (sym f ∙ e))) (written-Kept c d id none k other w)
    Meanwhile-Kept (checkpoints {c} before) =
        let k = Meanwhile-Kept before in
        record {
          sound = record { fresh = k.sound.fresh; live = k.sound.live };
          durable = checkpoint-Durable c.store k.durable;
          same = k.same;
        }

    -- A current version of one of `ids` was born when the transaction had not begun.
    Kept-older :
        (c : Collection V J I T)
        → Kept c
        → ((id : String) (key : ℕ) (v : Version J)
            → get began.current id ≡ some key
            → get began.versions key ≡ some v
            → v.born ≤ began.store.seq)
        → (id : String) (key : ℕ) (v : Version J) → In id ids
        → get c.current id ≡ some key
        → get c.versions key ≡ some v
        → v.born ≤ began.store.seq
    Kept-older c k dated id key v i e f =
        let now : document c id ≡ some (v.born, v.metadata, v.text) = rw (e, f) refl in
        elim (Option-cases (get began.current id)) [
          | inl gone ↦
              let before : document began id ≡ none = rw gone refl in
              absurd (not_none (sym before ∙ sym (k.same id i) ∙ now))
          | inr (key0, there) ↦
              let (v0, at, named, live) = sound.live id key0 there in
              let before : document began id ≡ some (v0.born, v0.metadata, v0.text) =
                rw (there, at) refl in
              let born : v0.born ≡ v.born =
                ap (λ d. d.0) (some_same (sym before ∙ sym (k.same id i) ∙ now)) in
              omega (arith, born, dated id key0 v0 there at)
        ]

module _ {R V J I T : Type 0} (x : Engines R V I T) (now : ℕ) where
  -- A transaction begins on a sound collection whose store is durable and whose current versions are no
  -- later than its sequence number. Until it commits, others upsert and delete only documents that it
  -- does not touch, by themselves or in transactions. If its writes are valid, with the clock past the
  -- compactions and sequence numbers left at each of them, it commits and is then closed; the
  -- collection is sound and its store durable, a reader at an earlier sequence number sees under every
  -- key what it saw, and each id has the metadata and text that the last write to it gave it, nothing if
  -- that was a delete, and what it had if there was none.
  pub commit-Applied :
      (t : Transaction R J) (began c : Collection V J I T)
      → Sound began
      → Durable began.store
      → ((id : String) (key : ℕ) (v : Version J)
          → get began.current id ≡ some key
          → get began.versions key ≡ some v
          → v.born ≤ began.store.seq)
      → t.start_seq ≡ began.store.seq
      → t.done ≡ false
      → Meanwhile x t.touched began c
      → AreReady x now t.ops (0, c)
      → (n : ℕ) × (c' : Collection V J I T) × (commit x now t c
          ≡ some (n, record t { done = true }, c'))
        × Applied t.ops c c'
  commit-Applied t began c sound durable dated start pending between ready =
      let k = Meanwhile-Kept x t.touched began sound durable between in
      clear_commit-Applied x now t c k.sound k.durable pending
        (λ id key v i e f.
          omega (arith, start, Kept-older x t.touched began sound durable c k dated id key v i e f))
        ready
