-- ===== src/Collection/Carried.antt =====
-- src/annex/db.py: the rows of the current documents, and what `rebuild_index` makes of them.
use python_pj.Prelude.{
  ℕ, suc, ◌+◌, ◌≤◌, ◌≡◌, refl, sym, ap, ◌∙◌, subst, ◌⊎◌, inl, inr, true, false, none, some, String,
  List, [], ◌∷◌, Bool-cases, arith, length, All, eqb, eqb_iff, nat_eq, string_eq, ◌==◌, text_eq_iff,
}
use python_pj.Prelude.Dict.{Dict, get}
use python_pj.Prelude.Once.{Once}
use python_pj.Mvcc.{Version, inf}
use python_pj.Collection.Rebuild.{renumbered}
use python_pj.Collection.Rebuilt.{Row, current_rows, version_rows, new_rows, AreCurrent, Apart}

other_id : (i j : String) → (j == i) ≡ false → (i == j) ≡ false
other_id i j h = elim (Bool-cases (i == j)) [
  | inl y ↦
      let same : i ≡ j = (text_eq_iff i j).0 y in
      let back : (j == i) ≡ true = (text_eq_iff j i).1 (sym same) in absurd (cc)
  | inr y ↦ y
]

module _ {J : Type 0} where
  head-Apart :
      (versions : Dict ℕ (Version J)) (r : Row J) (qs : List (Row J))
      → get versions r.key ≡ some r.version
      → r.version.doc_id ≡ r.id
      → AreCurrent versions qs
      → get (current_rows qs) r.id ≡ none
      → All (λ q. ((r.id == q.id) ≡ false) × (eqb r.key q.key ≡ false)) qs
  unfolding get
  head-Apart versions r [] there own a h = tt
  head-Apart versions r (q ∷ qs) there own a h = elim (Bool-cases (q.id == r.id)) [
    | inl y ↦ let never : some q.key ≡ none = rw y at h in absurd (cc)
    | inr y ↦ (
      (
        other_id r.id q.id y,
        elim (Bool-cases (eqb r.key q.key)) [
          | inr z ↦ z
          | inl z ↦
              let key : r.key ≡ q.key = (eqb_iff r.key q.key).0 z in
              let version : r.version ≡ q.version =
                same_version (sym there ∙ ap (get versions) key ∙ a.0.0) in
              let id : q.id ≡ r.id =
                sym a.0.1 ∙ ap (λ (v : Version J). v.doc_id) (sym version) ∙ own in
              let again : (q.id == r.id) ≡ true = (text_eq_iff q.id r.id).1 id in absurd (cc)
        ],
      ),
      head-Apart versions r qs there own a.1 (rw y at h),
    )
  ]
    where
      same_version : {v w : Version J} → some v ≡ some w → v ≡ w
      same_version e = cc e

  -- The rows of the current documents.
  pub record HasRows (versions : Dict ℕ (Version J)) (current : Dict String ℕ) : Type 0 where
    pub rows : List (Row J)
    pub same : current_rows rows ≡ current
    pub are_current : AreCurrent versions rows
    pub apart : Apart rows

  pub rows_of :
      (versions : Dict ℕ (Version J)) (current : Dict String ℕ)
      → Once current
      → ((id : String) (key : ℕ)
          → get current id ≡ some key
          → (v : Version J) × (get versions key ≡ some v) × (v.doc_id ≡ id) × (v.dead ≡ inf))
      → HasRows versions current
  unfolding get
  rows_of versions [] o live = record { rows = []; same = refl; are_current = tt; apart = tt }
  rows_of versions ((i, k) ∷ current) o live =
      let (v, there, own, alive) = live i k (let e = (text_eq_iff i i).1 refl in rw e refl) in
      let rest = rows_of versions current o.1 (λ id key e. elim (Bool-cases (i == id)) [
        | inl y ↦
            let gone : get current id ≡ none =
              subst (λ j. get current j ≡ none) ((text_eq_iff i id).0 y) o.0 in
            absurd (cc)
        | inr y ↦ live id key (rw y e)
      ]) in
      let r : Row J = record { id = i; key = k; version = v } in
      record {
        rows = r ∷ rest.rows;
        same = ap (λ d. (i, k) ∷ d) rest.same;
        are_current = ((there, own), rest.are_current);
        apart = (
          head-Apart versions r rest.rows there own rest.are_current
              (subst (λ d. get d i ≡ none) (sym rest.same) o.0),
          rest.apart,
        );
      }

  -- A document that is current on one side is on the other, with the same version but for the key.
  pub record IsKept (versions : Dict ℕ (Version J)) (n : ℕ) (rows : List (Row J)) (id : String)
      : Type 0 where
    pub version : Version J
    pub old_key : ℕ
    pub new_key : ℕ
    pub later : n ≤ new_key
    pub old_current : get (current_rows rows) id ≡ some old_key
    pub old_version : get versions old_key ≡ some version
    pub new_current : get (new_rows n rows) id ≡ some new_key
    pub new_version : get (version_rows n rows) new_key ≡ some (renumbered new_key version)
    pub own : version.doc_id ≡ id

  pub kept :
      (versions : Dict ℕ (Version J)) (n : ℕ) (rows : List (Row J)) (id : String)
      → AreCurrent versions rows
      → ((get (current_rows rows) id ≡ none) × (get (new_rows n rows) id ≡ none))
        ⊎ IsKept versions n rows id
  unfolding get
  kept versions n [] id a = inl (refl, refl)
  kept versions n (r ∷ rows) id a = elim (Bool-cases (r.id == id)) [
    | inl y ↦
        let here : eqb n n ≡ true = (eqb_iff n n).1 refl in
        inr (record {
          version = r.version;
          old_key = r.key;
          new_key = n;
          later = omega arith;
          old_current = rw y refl;
          old_version = a.0.0;
          new_current = rw y refl;
          new_version = rw here refl;
          own = a.0.1 ∙ (text_eq_iff r.id id).0 y;
        })
    | inr y ↦ elim (kept versions (suc n) rows id a.1) [
      | inl (e, f) ↦ inl (rw y e, rw y f)
      | inr k ↦
          let further : eqb n k.new_key ≡ false = ground (arith, k.later) in
          inr (record {
            version = k.version;
            old_key = k.old_key;
            new_key = k.new_key;
            later = omega (arith, k.later);
            old_current = rw y k.old_current;
            old_version = k.old_version;
            new_current = rw y k.new_current;
            new_version = rw further k.new_version;
            own = k.own;
          })
    ]
  ]

  pub version_rows-fresh :
      (n : ℕ) (rows : List (Row J)) (j : ℕ)
      → n + length (version_rows n rows) ≤ j
      → get (version_rows n rows) j ≡ none
  unfolding get
  version_rows-fresh n [] j h = refl
  version_rows-fresh n (r ∷ rows) j h =
      let further : eqb n j ≡ false = ground (arith, h) in
      rw further (version_rows-fresh (suc n) rows j (omega (arith, h)))
