-- ===== src/Storage/Keyed.antt =====
-- src/annex/storage/lsm.py: tables whose records stand under their names, and what replaying gives of
-- their records.
use python_pj.Prelude.{
  ℕ, ◌≤◌, ◌≡◌, refl, sym, ap, ◌∙◌, inl, inr, String, Option, none, some, List, [], ◌∷◌, ◌++◌, map,
  arith, keep, ◌==◌, string_eq, text_eq_iff, eq_refl, Bool-cases,
}
use mathlib.Core.Option
use python_pj.Prelude.Dict.{Dict, get, insert, values, get-insert}
use python_pj.Storage.Segment.{StoredRecord, clean}
use python_pj.Storage.Lsm.{newer, apply_entry, apply_all, is_live, visible}
use python_pj.Storage.Replay.{or_else, last_of, Ascending, DistinctIds, AllFrom}

module _ {V J : Type 0} where
  -- A table whose records stand under their names, once each.
  abbrev pub Keyed : Dict String (StoredRecord V J) → Type 0
  Keyed [] = Unit
  Keyed ((k, r) ∷ t) = (r.id ≡ k) × (get t k ≡ none) × Keyed t

  pub last_of-values :
      (t : Dict String (StoredRecord V J)) (id : String)
      → Keyed t
      → last_of (values t) id ≡ get t id
  unfolding get
  last_of-values [] id h = refl
  last_of-values ((k, r) ∷ t) id h =
      rw (last_of-values t id h.2, h.0) (ground (arith, h.1, text_eq_iff k id))

  pub DistinctIds-values : (t : Dict String (StoredRecord V J)) → Keyed t → DistinctIds (values t)
  DistinctIds-values [] h = tt
  DistinctIds-values ((k, r) ∷ t) h =
      (last_of-values t r.id h.2 ∙ ap (get t) h.0 ∙ h.1, DistinctIds-values t h.2)

  pub Keyed-insert :
      (t : Dict String (StoredRecord V J)) (r : StoredRecord V J)
      → Keyed t
      → Keyed (insert t r.id r)
  unfolding insert get
  Keyed-insert [] r h = (refl, refl, tt)
  Keyed-insert ((k, x) ∷ t) r h = elim (Bool-cases (k == r.id)) [
    | inl same ↦ rw same (sym ((text_eq_iff k r.id).0 same), h.1, h.2)
    | inr other ↦ rw other (
      h.0,
      get-insert t r.id k r ∙ ground (arith, h.1, other, text_eq_iff r.id k, text_eq_iff k r.id),
      Keyed-insert t r h.2,
    )
  ]

  pub Keyed-apply_all :
      (rs : List (StoredRecord V J)) (t : Dict String (StoredRecord V J))
      → Keyed t
      → Keyed (apply_all rs t)
  unfolding apply_all
  Keyed-apply_all [] t h = h
  Keyed-apply_all (r ∷ rs) t h = elim (Bool-cases (newer (get t r.id) r)) [
    | inl new ↦ rw new (Keyed-apply_all rs (insert t r.id r) (Keyed-insert t r h))
    | inr old ↦ rw old (Keyed-apply_all rs t h)
  ]

  -- Dropping the tombstones, and the vectors of those that stay, shows the same live records.
  pub last_of-live :
      (rs : List (StoredRecord V J)) (id : String)
      → DistinctIds rs
      → last_of (keep is_live rs) id ≡ visible (last_of rs id)
  last_of-live [] id d = refl
  last_of-live (r ∷ rs) id d =
      ground (arith, last_of-live rs id d.1, last_of-live rs r.id d.1, d.0, text_eq_iff r.id id)

  pub DistinctIds-live :
      (rs : List (StoredRecord V J)) → DistinctIds rs → DistinctIds (keep is_live rs)
  DistinctIds-live [] d = tt
  DistinctIds-live (r ∷ rs) d =
      ground (arith, last_of-live rs r.id d.1, d.0, DistinctIds-live rs d.1)

  pub last_of-clean :
      (rs : List (StoredRecord V J)) (id : String)
      → last_of (map clean rs) id ≡ Option.map clean (last_of rs id)
  last_of-clean [] id = refl
  last_of-clean (r ∷ rs) id = ground (arith, last_of-clean rs id)

  pub visible-clean : (o : Option (StoredRecord V J)) → visible (Option.map clean o) ≡ visible o
  visible-clean none = refl
  visible-clean (some r) = ground arith

  pub last_of-append :
      (xs ys : List (StoredRecord V J)) (id : String)
      → last_of (xs ++ ys) id ≡ or_else (last_of ys id) (last_of xs id)
  last_of-append [] ys id = ground arith
  last_of-append (x ∷ xs) ys id = ground (arith, last_of-append xs ys id)

  pub apply_all-append :
      (xs ys : List (StoredRecord V J)) (t : Dict String (StoredRecord V J))
      → apply_all (xs ++ ys) t ≡ apply_all ys (apply_all xs t)
  unfolding apply_all
  apply_all-append [] ys t = refl
  apply_all-append (x ∷ xs) ys t = apply_all-append xs ys (apply_entry t x)

  pub DistinctIds-clean :
      (rs : List (StoredRecord V J)) → DistinctIds rs → DistinctIds (map clean rs)
  DistinctIds-clean [] d = tt
  DistinctIds-clean (r ∷ rs) d = (rw (last_of-clean rs r.id, d.0) refl, DistinctIds-clean rs d.1)

  -- What is asked of every record may be asked of the last of each name.
  pub AllFrom-last_of :
      (b : ℕ) (rs : List (StoredRecord V J))
      → DistinctIds rs
      → ((id : String) (r : StoredRecord V J) → last_of rs id ≡ some r → b ≤ r.seq)
      → AllFrom b rs
  AllFrom-last_of b [] d h = tt
  AllFrom-last_of b (r ∷ rs) d h = (
    h r.id r (rw (d.0, eq_refl r.id) refl),
    AllFrom-last_of b rs d.1 (λ id x e. h id x (rw e refl)),
  )

  abbrev pub AllUpTo : ℕ → List (StoredRecord V J) → Type 0
  AllUpTo b [] = Unit
  AllUpTo b (r ∷ rs) = (r.seq ≤ b) × AllUpTo b rs

  pub AllUpTo-append :
      (b c : ℕ) (rs : List (StoredRecord V J)) (r : StoredRecord V J)
      → AllUpTo b rs
      → b ≤ c
      → r.seq ≤ c
      → AllUpTo c (rs ++ r ∷ [])
  AllUpTo-append b c [] r h le lr = (lr, tt)
  AllUpTo-append b c (x ∷ xs) r h le lr = (omega (arith, h.0), AllUpTo-append b c xs r h.1 le lr)

  pub Ascending-append :
      (a b : ℕ) (rs : List (StoredRecord V J)) (r : StoredRecord V J)
      → Ascending a rs
      → AllUpTo b rs
      → a ≤ b
      → b ≤ r.seq
      → Ascending a (rs ++ r ∷ [])
  Ascending-append a b [] r h u le lr = (omega arith, tt)
  Ascending-append a b (x ∷ xs) r h u le lr = (h.0, Ascending-append x.seq b xs r h.1 u.1 u.0 lr)

  pub last_of-le :
      (b : ℕ) (rs : List (StoredRecord V J)) (id : String) (r : StoredRecord V J)
      → AllUpTo b rs
      → last_of rs id ≡ some r
      → r.seq ≤ b
  last_of-le b [] id r h e = cc
  last_of-le b (x ∷ xs) id r h e = ground (arith, h.0, e, last_of-le b xs id r h.1)

  pub last_of-ge :
      (a : ℕ) (rs : List (StoredRecord V J)) (id : String) (r : StoredRecord V J)
      → Ascending a rs
      → last_of rs id ≡ some r
      → a ≤ r.seq
  last_of-ge a [] id r h e = cc
  last_of-ge a (x ∷ xs) id r h e = ground (arith, h.0, e, last_of-ge x.seq xs id r h.1)
