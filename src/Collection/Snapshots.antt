-- ===== src/Collection/Snapshots.antt =====
-- src/annex/db.py, src/annex/mvcc.py: what a reader at a snapshot sees, and writes.
use python_pj.Prelude.{
  ℕ, suc, ◌≤◌, ◌<◌, ◌≡◌, ◌≢◌, refl, sym, ◌∙◌, inl, inr, false, Option, none, some, String,
  if◌then◌else◌, arith, true, eqb, eqb_iff, nat_eq, string_eq, ◌==◌, Bool-cases, Option-cases,
  text_eq_iff,
}
use python_pj.Prelude.Dict.{Dict, get, insert, get-insert}
use python_pj.Storage.Lsm.{next_seq, ◌>>=◌}
use python_pj.Storage.Tables.{put-later}
use python_pj.Storage.Recovery.{Durable, Past}
use python_pj.Storage.Restart.{put-Durable, next_seq-Durable}
use python_pj.Mvcc.{Version, inf, visible_at}
use python_pj.Collection.{Engines, Collection, kill, kill_old, apply_upsert}

-- what a search shows of a version, if it is visible
abbrev pub shown :
    {J : Type 0} → ℕ → Option (Version J) → Option (String × Dict String J × Option String)
shown snap none = none
shown snap (some v) = if visible_at v snap then some (v.doc_id, v.metadata, v.text) else none

module _ {V J I T : Type 0} where
  -- what a reader at a snapshot sees under a key
  abbrev pub seen : Collection V J I T → ℕ → ℕ → Option (String × Dict String J × Option String)
  seen c snap key = shown snap (get c.versions key)

module _ {J : Type 0} where
  -- the birth, metadata and text under a current id
  abbrev pub document_of :
      Dict String ℕ → Dict ℕ (Version J) → String → Option (ℕ × Dict String J × Option String)
  document_of current versions id = do
    key ← get current id
    v ← get versions key
    some (v.born, v.metadata, v.text)

module _ {V J I T : Type 0} where
  -- what a reader finds of a current document
  abbrev pub document : Collection V J I T → String → Option (ℕ × Dict String J × Option String)
  document c id = document_of c.current c.versions id

-- No version has a key that is still to be given, and a current version is live.
pub record Sound {V J I T : Type 0} (c : Collection V J I T) : Type 0 where
  pub fresh : (key : ℕ) → c.next_key ≤ key → get c.versions key ≡ none
  pub live :
      (id : String) (key : ℕ)
      → get c.current id ≡ some key
      → (v : Version J) × (get c.versions key ≡ some v) × (v.doc_id ≡ id) × (v.dead ≡ inf)

named_id : (id : String) → id ≢ "" → (id == "") ≡ false
named_id id n = elim (Bool-cases (id == "")) [
  | inl e ↦ ground (arith, e, n, text_eq_iff id "")
  | inr e ↦ e
]

pub at_most : (n q : ℕ) → some n ≡ some q → n ≤ q
at_most n q e = ground (arith, e)

module _ {J : Type 0} where
  pub fresh-insert :
      (vs : Dict ℕ (Version J)) (n : ℕ) (v : Version J)
      → ((k : ℕ) → n ≤ k → get vs k ≡ none)
      → (k : ℕ) → suc n ≤ k
      → get (insert vs n v) k ≡ none
  fresh-insert vs n v fresh k le = rw get-insert (ground (arith, fresh k))

  pub kill-eq :
      (key seq : ℕ) (vs : Dict ℕ (Version J)) (v : Version J)
      → get vs key ≡ some v
      → kill key seq vs ≡ some (insert vs key (record v { dead = seq }))
  unfolding kill
  kill-eq key seq vs v e = rw e refl

  -- A live version that ends after a snapshot is shown by it as before.
  pub shown-ended :
      (snap seq key k : ℕ) (vs : Dict ℕ (Version J)) (v : Version J)
      → get vs key ≡ some v
      → v.dead ≡ inf
      → snap < seq
      → seq < inf
      → shown snap (get (insert vs key (record v { dead = seq })) k) ≡ shown snap (get vs k)
  shown-ended snap seq key k vs v e live lt top = rw get-insert (ground (arith, e, live))

  -- A version born after a snapshot is not shown by it.
  shown-born :
      (snap key k : ℕ) (vs : Dict ℕ (Version J)) (v : Version J)
      → get vs key ≡ none
      → snap < v.born
      → shown snap (get (insert vs key v) k) ≡ shown snap (get vs k)
  shown-born snap key k vs v e lt = rw get-insert (ground (arith, e))

module _ {V J I T : Type 0} (c : Collection V J I T) (sound : Sound c)
    (room : suc c.store.seq < inf) (id : String) where
  pub kill_old-eq :
      (vs : Dict ℕ (Version J)) × (kill_old (get c.current id) (suc c.store.seq) c.versions
        ≡ some vs)
      × ((k : ℕ) → c.next_key ≤ k → get vs k ≡ none)
      × ((j : String) (k : ℕ) → get c.current j ≡ some k → j ≢ id → get vs k ≡ get c.versions k)
      × ((snap k : ℕ) → snap ≤ c.store.seq → shown snap (get vs k) ≡ shown snap (get c.versions k))
  unfolding kill_old
  kill_old-eq = elim (Option-cases (get c.current id)) [
    | inl e ↦ rw e (c.versions, refl, sound.fresh, λ j k f n. refl, λ snap k le. refl)
    | inr (key, e) ↦
        let (v, at, named, live) = sound.live id key e in
        rw (e, kill-eq key (suc c.store.seq) c.versions v at)
          (
            _,
            refl,
            λ k le. rw get-insert (ground (arith, at, sound.fresh key, sound.fresh k le)),
            λ j k f n.
                let (w, there, name, _) = sound.live j k f in
                rw get-insert (ground (arith, at, there, named, name, n)),
            λ snap k le.
                shown-ended snap (suc c.store.seq) key k c.versions v at live (omega arith) room,
          )
  ]

module _ {V J I T : Type 0} (c : Collection V J I T) (sound : Sound c) (id : String) where
  pub live-insert :
      (vs : Dict ℕ (Version J))
      → ((j : String) (k : ℕ) → get c.current j ≡ some k → j ≢ id → get vs k ≡ get c.versions k)
      → (v : Version J) → v.doc_id ≡ id
      → v.dead ≡ inf
      → (j : String) (k : ℕ) → get (insert c.current id c.next_key) j ≡ some k
      → (w : Version J) × (get (insert vs c.next_key v) k ≡ some w)
        × (w.doc_id ≡ j)
        × (w.dead ≡ inf)
  live-insert vs others v named live j k e =
      let found : (if id == j then some c.next_key else get c.current j) ≡ some k =
        sym (get-insert c.current id j c.next_key) ∙ e in
      elim (Bool-cases (id == j)) [
        | inl y ↦ (
          v,
          rw get-insert (ground (arith, y, found)),
          ground (arith, y, named, text_eq_iff id j),
          live,
        )
        | inr y ↦
            let there : get c.current j ≡ some k = ground (arith, y, found) in
            let (w, at, name, alive) = sound.live j k there in
            (
              w,
              rw (get-insert, others j k there (λ q. ground (arith, y, q, text_eq_iff id j)))
                  (ground (arith, at, sound.fresh k)),
              name,
              alive,
            )
      ]

  -- The new version is the document's, and the other documents are what they were.
  pub document-insert :
      (vs : Dict ℕ (Version J))
      → ((j : String) (k : ℕ) → get c.current j ≡ some k → j ≢ id → get vs k ≡ get c.versions k)
      → (v : Version J) (j : String)
      → document_of (insert c.current id c.next_key) (insert vs c.next_key v) j
        ≡ (if id == j then some (v.born, v.metadata, v.text) else document c j)
  document-insert vs others v j = elim (Bool-cases (id == j)) [
    | inl y ↦
        let self : eqb c.next_key c.next_key ≡ true = (eqb_iff c.next_key c.next_key).1 refl in
        rw (get-insert c.current id j c.next_key, y)
          (rw (get-insert vs c.next_key c.next_key v, self) refl)
    | inr n ↦ elim (Option-cases (get c.current j)) [
      | inl gone ↦ rw (get-insert c.current id j c.next_key, n, gone) refl
      | inr (k, e) ↦
          let (w, at, name, alive) = sound.live j k e in
          let old : eqb c.next_key k ≡ false = ground (arith, at, sound.fresh k) in
          let same = others j k e (λ q. ground (arith, n, q, text_eq_iff id j)) in
          rw (get-insert c.current id j c.next_key, n, e)
            (rw (get-insert vs c.next_key k v, old, same) refl)
    ]
  ]

-- What a write of the document `id` does to a collection: `new` is what is then under the id.
pub record Writes {V J I T : Type 0} (c : Collection V J I T) (id : String)
    (new : Option (ℕ × Dict String J × Option String)) (c' : Collection V J I T) : Type 0 where
  pub sound : Sound c'
  pub durable : Durable c'.store
  pub later : c.store.seq ≤ c'.store.seq
  pub earlier : (snap k : ℕ) → snap ≤ c.store.seq → seen c' snap k ≡ seen c snap k
  pub documents : (j : String) → document c' j ≡ (if id == j then new else document c j)

module _ {R V J I T : Type 0} (x : Engines R V I T) (now : ℕ) (c : Collection V J I T)
    (sound : Sound c) (durable : Durable c.store) (past : Past now c.store.segments)
    (room : suc c.store.seq < inf) (id : String) where
  pub apply_upsert-Writes :
      (r : R) (m : Dict String J) (t : Option String) (vec : V) (index : I)
      → id ≢ ""
      → x.prepare r ≡ some vec
      → x.add_vector c.next_key vec c.index ≡ some index
      → (c' : Collection V J I T) × (apply_upsert x now id r m t c ≡ some c')
        × Writes c id (some (suc c.store.seq, m, t)) c'
  unfolding apply_upsert next_seq
  apply_upsert-Writes r m t vec index named p a =
      let (stored, put_eq, d) =
        put-Durable now (next_seq c.store) (next_seq-Durable c.store durable) past id
          (some (suc c.store.seq)) (at_most (suc c.store.seq)) vec m t in
      let (vs, killed, fresh, others, before) = kill_old-eq c sound room id in
      let unnamed : (id == "") ≡ false = named_id id named in
      rw (unnamed, p, put_eq, killed, a)
        (
          _,
          refl,
          record {
            sound = record {
              fresh = fresh-insert vs c.next_key _ fresh;
              live = live-insert c sound id vs others _ refl refl;
            };
            durable = d;
            later = omega (
              arith,
              put-later now (next_seq c.store) (next_seq-Durable c.store durable)
                  (some (suc c.store.seq)) (omega arith) stored id vec m t put_eq,
            );
            earlier = λ snap k le.
                shown-born snap c.next_key k vs _ (fresh c.next_key (omega arith)) (omega arith)
                ∙ before snap k le;
            documents = document-insert c sound id vs others _;
          },
        )

  -- An upsert with a non-empty id and a valid vector that the index takes, on a sound collection
  -- whose store is durable, with the clock past its compactions and sequence numbers left, succeeds,
  -- leaves the collection sound and its store durable, and a reader at an earlier sequence number
  -- sees under every key what it saw.
  pub apply_upsert-Sound :
      (r : R) (m : Dict String J) (t : Option String) (vec : V) (index : I)
      → id ≢ ""
      → x.prepare r ≡ some vec
      → x.add_vector c.next_key vec c.index ≡ some index
      → (c' : Collection V J I T) × (apply_upsert x now id r m t c ≡ some c')
        × Sound c'
        × Durable c'.store
        × ((snap k : ℕ) → snap ≤ c.store.seq → seen c' snap k ≡ seen c snap k)
  apply_upsert-Sound r m t vec index named p a =
      let (c', e, w) = apply_upsert-Writes r m t vec index named p a in
      (c', e, w.sound, w.durable, w.earlier)
