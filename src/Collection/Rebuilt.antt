-- ===== src/Collection/Rebuilt.antt =====
-- src/annex/db.py: a rebuild keeps the current documents.
use python_pj.Prelude.{
  ℕ, suc, ◌≤◌, ◌≡◌, refl, sym, ap, ◌∙◌, inl, inr, false, Option, none, some, String, List, [], ◌∷◌,
  ◌++◌, Bool-cases, arith, All, eqb, Eq, nat_eq, string_eq, ◌==◌,
}
use mathlib.Core.List.{append_assoc, append-nil}
use python_pj.Prelude.Dict.{Dict, get, insert, values, get-insert}
use python_pj.Mvcc.{Version}
use python_pj.Collection.Rebuild.{
  Builders, live_of, renumbered, current_of, add_live, text_added, renumber,
}

module _ {K W : Type 0} ⦃e : Eq K⦄ where
  -- A key that is not there goes to the end.
  insert-end : (d : Dict K W) (k : K) (v : W) → get d k ≡ none → insert d k v ≡ d ++ (k, v) ∷ []
  unfolding get insert
  insert-end [] k v h = refl
  insert-end ((j, w) ∷ d) k v h = elim (Bool-cases (j == k)) [
    | inl y ↦ let never : some w ≡ none = rw y at h in absurd (cc)
    | inr y ↦ rw y (ap (λ r. (j, w) ∷ r) (insert-end d k v (rw y at h)))
  ]

  still_none :
      (d : Dict K W) (k j : K) (v : W)
      → get d j ≡ none
      → (k == j) ≡ false
      → get (insert d k v) j ≡ none
  still_none d k j v h ne = get-insert d k j v ∙ rw ne h

-- A current document: its id, its key and its version.
pub record Row (J : Type 0) : Type 0 where
  pub id : String
  pub key : ℕ
  pub version : Version J

module _ {J : Type 0} where
  abbrev pub current_rows : List (Row J) → Dict String ℕ
  current_rows [] = []
  current_rows (r ∷ rows) = (r.id, r.key) ∷ current_rows rows

  abbrev pub live_rows : List (Row J) → List (ℕ × Version J)
  live_rows [] = []
  live_rows (r ∷ rows) = (r.key, r.version) ∷ live_rows rows

  -- what a rebuild makes of the rows, from a key on
  abbrev pub remap_rows : ℕ → List (Row J) → Dict ℕ ℕ
  remap_rows n [] = []
  remap_rows n (r ∷ rows) = (r.key, n) ∷ remap_rows (suc n) rows

  abbrev pub version_rows : ℕ → List (Row J) → Dict ℕ (Version J)
  version_rows n [] = []
  version_rows n (r ∷ rows) = (n, renumbered n r.version) ∷ version_rows (suc n) rows

  abbrev pub new_rows : ℕ → List (Row J) → Dict String ℕ
  new_rows n [] = []
  new_rows n (r ∷ rows) = (r.id, n) ∷ new_rows (suc n) rows

  -- each row's version is the one under its key, and its document the row's
  abbrev pub AreCurrent : Dict ℕ (Version J) → List (Row J) → Type 0
  AreCurrent versions rows =
      All (λ r. (get versions r.key ≡ some r.version) × (r.version.doc_id ≡ r.id)) rows

  -- no later row has the id, or the key
  abbrev pub Apart : List (Row J) → Type 0
  Apart [] = Unit
  Apart (r ∷ rows) =
      All (λ q. ((r.id == q.id) ≡ false) × (eqb r.key q.key ≡ false)) rows × Apart rows

  pub live_of-rows :
      (versions : Dict ℕ (Version J)) (rows : List (Row J))
      → AreCurrent versions rows
      → live_of (values (current_rows rows)) versions ≡ some (live_rows rows)
  unfolding live_of
  live_of-rows versions [] a = refl
  live_of-rows versions (r ∷ rows) a = rw (a.0.0, live_of-rows versions rows a.1) refl

  pub current_of-rows :
      (n : ℕ) (rows : List (Row J)) (versions : Dict ℕ (Version J)) (d : Dict String ℕ)
      → AreCurrent versions rows
      → Apart rows
      → All (λ r. get d r.id ≡ none) rows
      → current_of (version_rows n rows) d ≡ d ++ new_rows n rows
  unfolding current_of
  current_of-rows n [] versions d a p h = sym (append-nil d)
  current_of-rows n (r ∷ rows) versions d a p h =
      let next : insert d r.version.doc_id n ≡ d ++ (r.id, n) ∷ [] =
        ap (λ i. insert d i n) a.0.1 ∙ insert-end d r.id n h.0 in
      ap (current_of (version_rows (suc n) rows)) (ap (λ i. insert d i n) a.0.1)
      ∙ current_of-rows (suc n) rows versions (insert d r.id n) a.1 p.1 (later rows p.0 h.1)
      ∙ ap (λ xs. xs ++ new_rows (suc n) rows) (insert-end d r.id n h.0)
      ∙ append_assoc d ((r.id, n) ∷ []) (new_rows (suc n) rows)
    where
      later :
          (qs : List (Row J))
          → All (λ q. ((r.id == q.id) ≡ false) × (eqb r.key q.key ≡ false)) qs
          → All (λ q. get d q.id ≡ none) qs
          → All (λ q. get (insert d r.id n) q.id ≡ none) qs
      later [] t s = tt
      later (q ∷ qs) t s = (still_none d r.id q.id n s.0 t.0.0, later qs t.1 s.1)

module _ {V J I T : Type 0} (x : Builders V I T) where
  pub add_live-rows :
      (old : I) (n : ℕ) (rows : List (Row J)) (index : I) (remap : Dict ℕ ℕ)
      → Apart rows
      → All (λ r. get remap r.key ≡ none) rows
      → (add_live x old n (live_rows rows) (index, remap)).1 ≡ remap ++ remap_rows n rows
  unfolding add_live
  add_live-rows old n [] index remap p h = sym (append-nil remap)
  add_live-rows old n (r ∷ rows) index remap p h =
      add_live-rows old (suc n) rows (x.add n (x.vector_of old r.key) index) (insert remap r.key n)
        p.1 (later rows p.0 h.1)
      ∙ ap (λ xs. xs ++ remap_rows (suc n) rows) (insert-end remap r.key n h.0)
      ∙ append_assoc remap ((r.key, n) ∷ []) (remap_rows (suc n) rows)
    where
      later :
          (qs : List (Row J))
          → All (λ q. ((r.id == q.id) ≡ false) × (eqb r.key q.key ≡ false)) qs
          → All (λ q. get remap q.key ≡ none) qs
          → All (λ q. get (insert remap r.key n) q.key ≡ none) qs
      later [] t s = tt
      later (q ∷ qs) t s = (still_none remap r.key q.key n s.0 t.0.1, later qs t.1 s.1)

  pub renumber-rows :
      (n : ℕ) (rows : List (Row J)) (old versions : Dict ℕ (Version J)) (texts : Option T)
      → AreCurrent old rows
      → ((k : ℕ) → n ≤ k → get versions k ≡ none)
      → (b : Option T) × (renumber x (remap_rows n rows) old (versions, texts)
          ≡ some (versions ++ version_rows n rows, b))
  unfolding renumber
  renumber-rows n [] old versions texts a h =
      (texts, ap (λ vs. some (vs, texts)) (sym (append-nil versions)))
  renumber-rows n (r ∷ rows) old versions texts a h =
      let v : Version J = renumbered n r.version in
      let (b, rest) =
        renumber-rows (suc n) rows old (insert versions n v) (text_added x n r.version.text texts)
          a.1 (λ k le. still_none versions n k v (h k (omega (arith, le))) (ground (arith, le))) in
      (
        b,
        rw a.0.0 (
            rest
            ∙ ap (λ vs. some (vs ++ version_rows (suc n) rows, b))
                (insert-end versions n v (h n (omega arith)))
            ∙ ap (λ vs. some (vs, b))
                (append_assoc versions ((n, v) ∷ []) (version_rows (suc n) rows))),
      )
