-- ===== src/Storage/Replay.antt =====
-- src/annex/storage/lsm.py: what a table holds after records are applied to it in turn.
use python_pj.Prelude.{
  ℕ, ◌≤◌, ◌≡◌, refl, sym, ap, subst, ◌∙◌, inl, inr, String, true, Option, none, some, List, [], ◌∷◌,
  arith, if◌then◌else◌, ◌==◌, string_eq, str_ltb, text_eq_iff, eq_refl, Bool-cases, Option-cases,
}
use python_pj.Prelude.Dict.{Dict, get, insert, get-insert}
use python_pj.Storage.Segment.{StoredRecord}
use python_pj.Storage.Lsm.{newer, apply_all, insert_by_id, sort_by_id}

module _ {V J : Type 0} where
  abbrev pub or_else :
      Option (StoredRecord V J) → Option (StoredRecord V J) → Option (StoredRecord V J)
  or_else none d = d
  or_else (some r) d = some r

  -- the last record of a name
  abbrev pub last_of : List (StoredRecord V J) → String → Option (StoredRecord V J)
  last_of [] id = none
  last_of (r ∷ rs) id = or_else (last_of rs id) (if r.id == id then some r else none)

  -- No record is older than what the table holds under its name when its turn comes.
  abbrev pub Fits : Dict String (StoredRecord V J) → List (StoredRecord V J) → Type 0
  Fits t [] = Unit
  Fits t (r ∷ rs) = (newer (get t r.id) r ≡ true) × Fits (insert t r.id r) rs

  -- Records that fit replace what was there.
  pub get-apply_all :
      (rs : List (StoredRecord V J)) (t : Dict String (StoredRecord V J)) (id : String)
      → Fits t rs
      → get (apply_all rs t) id ≡ or_else (last_of rs id) (get t id)
  unfolding apply_all
  get-apply_all [] t id f = refl
  get-apply_all (r ∷ rs) t id f =
      rw f.0
        (get-apply_all rs (insert t r.id r) id f.1 ∙ (rw (get-insert t r.id id r) (ground (arith))))

  -- The records from a point on, each no older than the one before.
  abbrev pub Ascending : ℕ → List (StoredRecord V J) → Type 0
  Ascending b [] = Unit
  Ascending b (r ∷ rs) = (b ≤ r.seq) × Ascending r.seq rs

  -- No record of the table is newer than `b`.
  abbrev pub Bounded : ℕ → Dict String (StoredRecord V J) → Type 0
  Bounded b t = (id : String) (r : StoredRecord V J) → get t id ≡ some r → r.seq ≤ b

  pub newer-Bounded :
      (b : ℕ) (t : Dict String (StoredRecord V J)) (r : StoredRecord V J)
      → Bounded b t
      → b ≤ r.seq
      → newer (get t r.id) r ≡ true
  newer-Bounded b t r h le = elim (Option-cases (get t r.id)) [
    | inl e ↦ rw e refl
    | inr (x, e) ↦ rw e (let q = h r.id x e in ground arith)
  ]

  pub Bounded-insert :
      (b c : ℕ) (t : Dict String (StoredRecord V J)) (r : StoredRecord V J)
      → Bounded b t
      → b ≤ c
      → r.seq ≤ c
      → Bounded c (insert t r.id r)
  Bounded-insert b c t r h le lr id x e =
      let e' = sym (get-insert t r.id id r) ∙ e in
      elim (Bool-cases (r.id == id)) [
        | inl same ↦ ground (arith, same, e')
        | inr other ↦ let q = h id x (ground (arith, other, e')) in omega (arith, q)
      ]

  pub Ascending-Fits :
      (b : ℕ) (rs : List (StoredRecord V J)) (t : Dict String (StoredRecord V J))
      → Bounded b t
      → Ascending b rs
      → Fits t rs
  Ascending-Fits b [] t h a = tt
  Ascending-Fits b (r ∷ rs) t h a = (
    newer-Bounded b t r h a.0,
    Ascending-Fits r.seq rs (insert t r.id r) (Bounded-insert b r.seq t r h a.0 (omega arith)) a.1,
  )

  -- No name stands twice.
  abbrev pub DistinctIds : List (StoredRecord V J) → Type 0
  DistinctIds [] = Unit
  DistinctIds (r ∷ rs) = (last_of rs r.id ≡ none) × DistinctIds rs

  abbrev pub AllFrom : ℕ → List (StoredRecord V J) → Type 0
  AllFrom b [] = Unit
  AllFrom b (r ∷ rs) = (b ≤ r.seq) × AllFrom b rs

  -- Records of distinct names fit if what stands under each name is no newer.
  pub DistinctIds-Fits :
      (b : ℕ) (rs : List (StoredRecord V J)) (t : Dict String (StoredRecord V J))
      → ((id : String) (r x : StoredRecord V J)
          → last_of rs id ≡ some r
          → get t id ≡ some x
          → x.seq ≤ b)
      → DistinctIds rs
      → AllFrom b rs
      → Fits t rs
  DistinctIds-Fits b [] t h d a = tt
  DistinctIds-Fits b (r ∷ rs) t h d a = (
    elim (Option-cases (get t r.id)) [
      | inl e ↦ rw e refl
      | inr (x, e) ↦
          let q = h r.id r x (rw (d.0, eq_refl r.id) refl) e in rw e (ground (arith, q, a.0))
    ],
    DistinctIds-Fits b rs (insert t r.id r)
        (λ id y x l e.
          let e' = sym (get-insert t r.id id r) ∙ e in
          elim (Bool-cases (r.id == id)) [
            | inl same ↦ absurd (
                let l' =
                  subst (λ (k : String). last_of rs k ≡ some y) (sym ((text_eq_iff r.id id).0 same))
                    l in
                cc (l', d.0))
            | inr other ↦ h id y x (rw l refl) (ground (arith, other, e'))
          ])
        d.1 a.1,
  )

  last_of-insert_by_id :
      (r : StoredRecord V J) (rs : List (StoredRecord V J)) (id : String)
      → last_of rs r.id ≡ none
      → last_of (insert_by_id r rs) id ≡ last_of (r ∷ rs) id
  unfolding insert_by_id
  last_of-insert_by_id r [] id h = refl
  last_of-insert_by_id r (x ∷ xs) id h = elim (Bool-cases (str_ltb x.id r.id)) [
    | inl lt ↦
        rw (lt, last_of-insert_by_id r xs id (ground (arith, h)))
          (ground (arith, h, text_eq_iff x.id r.id, text_eq_iff x.id id, text_eq_iff r.id id))
    | inr ge ↦ rw ge refl
  ]

  pub last_of-sort_by_id :
      (rs : List (StoredRecord V J)) (id : String)
      → DistinctIds rs
      → last_of (sort_by_id rs) id ≡ last_of rs id
  unfolding sort_by_id
  last_of-sort_by_id [] id d = refl
  last_of-sort_by_id (r ∷ rs) id d =
      last_of-insert_by_id r (sort_by_id rs) id (last_of-sort_by_id rs r.id d.1 ∙ d.0)
      ∙ ap (λ o. or_else o (if r.id == id then some r else none)) (last_of-sort_by_id rs id d.1)

  DistinctIds-insert_by_id :
      (r : StoredRecord V J) (rs : List (StoredRecord V J))
      → last_of rs r.id ≡ none
      → DistinctIds rs
      → DistinctIds (insert_by_id r rs)
  unfolding insert_by_id
  DistinctIds-insert_by_id r [] h d = (refl, tt)
  DistinctIds-insert_by_id r (x ∷ xs) h d = elim (Bool-cases (str_ltb x.id r.id)) [
    | inl lt ↦ rw lt (
      last_of-insert_by_id r xs x.id (ground (arith, h))
          ∙ ground (arith, h, d.0, text_eq_iff x.id r.id, text_eq_iff r.id x.id),
      DistinctIds-insert_by_id r xs (ground (arith, h)) d.1,
    )
    | inr ge ↦ rw ge (h, d)
  ]

  pub DistinctIds-sort_by_id :
      (rs : List (StoredRecord V J)) → DistinctIds rs → DistinctIds (sort_by_id rs)
  unfolding sort_by_id
  DistinctIds-sort_by_id [] d = tt
  DistinctIds-sort_by_id (r ∷ rs) d =
      DistinctIds-insert_by_id r (sort_by_id rs) (last_of-sort_by_id rs r.id d.1 ∙ d.0)
        (DistinctIds-sort_by_id rs d.1)
