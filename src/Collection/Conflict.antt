-- ===== src/Collection/Conflict.antt =====
-- src/annex/db.py: the conflict check of a transaction.
use python_pj.Prelude.{
  ℕ, ◌≤◌, ◌<◌, ◌≡◌, refl, subst, inl, inr, Bool, true, false, none, some, String, List, [], ◌∷◌,
  ltb, arith, nat_eq, string_eq, Bool-cases, Option-cases,
}
use python_pj.Prelude.Dict.{Dict, get}
use python_pj.Prelude.Members.{In}
use python_pj.Mvcc.{Version}
use python_pj.Collection.Snapshots.{Sound}
use python_pj.Collection.{
  Engines, Collection, Transaction, conflicts_at, any_conflict, commit_writes, commit,
}

module _ {J : Type 0} (start : ℕ) (current : Dict String ℕ) (versions : Dict ℕ (Version J)) where
  abbrev pub HasVersions : List String → Type 0
  HasVersions [] = Unit
  HasVersions (id ∷ ids) =
      ((key : ℕ) → get current id ≡ some key → (v : Version J) × (get versions key ≡ some v))
      × HasVersions ids

  any_conflict-total :
      (ids : List String)
      → HasVersions ids
      → (b : Bool) × (any_conflict start ids current versions ≡ some b)
  unfolding any_conflict conflicts_at
  any_conflict-total [] h = (false, refl)
  any_conflict-total (id ∷ ids) (h, hs) =
      let (b, e) = any_conflict-total ids hs in
      elim (Option-cases (get current id)) [
        | inl n ↦ (b, rw (n, e) refl)
        | inr (key, f) ↦
            let (v, g) = h key f in
            elim (Bool-cases (ltb start v.born)) [
              | inl y ↦ (true, rw (f, g, y) refl)
              | inr y ↦ (b, rw (f, g, y) e)
            ]
      ]

  -- A touched document whose current version is later than the start is found.
  any_conflict-newer :
      (ids : List String)
      → HasVersions ids
      → (id : String) (key : ℕ) (v : Version J) → In id ids
      → get current id ≡ some key
      → get versions key ≡ some v
      → start < v.born
      → any_conflict start ids current versions ≡ some true
  unfolding any_conflict conflicts_at
  any_conflict-newer [] hs id key v i e f lt = elim i [ ]
  any_conflict-newer (x ∷ ids) (h, hs) id key v (inl y) e f lt =
      let at : get current x ≡ some key = subst (λ z. get current z ≡ some key) y e in
      let later : ltb start v.born ≡ true = ground arith in rw (at, f, later) refl
  any_conflict-newer (x ∷ ids) (h, hs) id key v (inr i) e f lt =
      let rest = any_conflict-newer ids hs id key v i e f lt in
      elim (Option-cases (get current x)) [
        | inl n ↦ rw (n, rest) refl
        | inr (k, g) ↦
            let (w, a) = h k g in
            elim (Bool-cases (ltb start w.born)) [
              | inl y ↦ rw (g, a, y) refl
              | inr y ↦ rw (g, a, y, rest) refl
            ]
      ]

  -- Touched documents whose current versions are no later than the start are no conflict.
  pub any_conflict-older :
      (ids : List String)
      → HasVersions ids
      → ((id : String) (key : ℕ) (v : Version J)
          → In id ids
          → get current id ≡ some key
          → get versions key ≡ some v
          → v.born ≤ start)
      → any_conflict start ids current versions ≡ some false
  unfolding any_conflict conflicts_at
  any_conflict-older [] hs old = refl
  any_conflict-older (x ∷ ids) (h, hs) old =
      let rest = any_conflict-older ids hs (λ id key v i. old id key v (inr i)) in
      elim (Option-cases (get current x)) [
        | inl n ↦ rw (n, rest) refl
        | inr (key, f) ↦
            let (v, g) = h key f in
            let before : ltb start v.born ≡ false = ground (arith, old x key v (inl refl) f g) in
            rw (f, g, before, rest) refl
      ]

module _ {R V J I T : Type 0} (x : Engines R V I T) (now : ℕ) (t : Transaction R J)
    (c : Collection V J I T) (sound : Sound c) where
  pub Sound-HasVersions : (ids : List String) → HasVersions t.start_seq c.current c.versions ids
  Sound-HasVersions [] = tt
  Sound-HasVersions (id ∷ ids) =
      ((λ key e. let (v, f, _, _) = sound.live id key e in (v, f)), Sound-HasVersions ids)

  -- In a sound collection, when the current version of a document that a transaction touches was
  -- born after the transaction began, the conflict check finds a conflict and commit raises.
  pub commit-conflict :
      (id : String) (key : ℕ) (v : Version J)
      → In id t.touched
      → get c.current id ≡ some key
      → get c.versions key ≡ some v
      → t.start_seq < v.born
      → (any_conflict t.start_seq t.touched c.current c.versions ≡ some true)
        × (commit x now t c ≡ none)
  unfolding commit commit_writes
  commit-conflict id key v i e f lt =
      let found =
        any_conflict-newer t.start_seq c.current c.versions t.touched (Sound-HasVersions t.touched)
          id key v i e f lt in
      (
        found,
        elim (Bool-cases t.done) [
          | inl y ↦ rw (y, commit) refl
          | inr y ↦ rw (y, found, commit, commit_writes) refl
        ],
      )
