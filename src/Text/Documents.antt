-- ===== src/Text/Documents.antt =====
-- src/annex/text/bm25.py: the index, as the documents that it holds.
use python_pj.Prelude.{
  ℕ, ◌+◌, ◌≡◌, refl, sym, ap, subst, ◌∙◌, inl, inr, false, ◌&&◌, Option, none, some, List, [], ◌∷◌,
  if◌then◌else◌, eqb_iff, nat_eq, Eq, ◌==◌, contains, is_some, arith, keep, Bool-cases,
  Option-cases, length,
}
use python_pj.Prelude.Dict.{Dict, get, insert, remove, keys, get-insert, get-remove}
use python_pj.Prelude.Once.{
  Once, length-keys, Once-insert, Once-remove, contains-keys, count_at, total, total-remove,
  total-insert,
}
use python_pj.Text.{
  Bm25Index, new_bm25, terms_or, or_empty, count_terms, add_postings, drop_postings, remove_doc,
  add_doc, doc_frequency,
}
use python_pj.Text.Postings.{
  counted, or_else, occurrences, get-count_terms, Once-count_terms, posted, Filled,
  posted-add_postings, Filled-add_postings, posted-drop_postings, Filled-drop_postings, EachOnce,
  EachOnce-add_postings, EachOnce-drop_postings,
}

-- The tokens of each document.
abbrev pub Docs : Type 0 → Type 0
Docs K = ℕ → Option (List K)

module _ {K : Type 0} where
  abbrev pub stored : Docs K → ℕ → List K → Docs K
  stored docs key ts j = if key == j then some ts else docs j

  abbrev pub erased : Docs K → ℕ → Docs K
  erased docs key j = if key == j then none else docs j

  abbrev pub length_of : Option (List K) → Option ℕ
  length_of none = none
  length_of (some ts) = some (length ts)

or_else-none : (o : Option ℕ) → or_else o none ≡ o
or_else-none none = refl
or_else-none (some n) = refl

is_some-none : {V : Type 0} (o : Option V) → is_some o ≡ false → o ≡ none
is_some-none none h = refl
is_some-none (some v) h = cc h

absent-docs : {K : Type 0} (o : Option (List K)) → none ≡ length_of o → o ≡ none
absent-docs none h = refl
absent-docs (some ts) h = cc h

module _ {K : Type 0} ⦃e : Eq K⦄ where
  -- how often a document has a term; none if it does not
  abbrev pub tally : K → Option (List K) → Option ℕ
  tally t none = none
  tally t (some ts) = counted none (occurrences t ts)

  -- An index that holds some documents.
  pub record Represents (b : Bm25Index K) (docs : Docs K) : Type 0 where
    pub lens : (key : ℕ) → get b.doc_len key ≡ length_of (docs key)
    pub posts : (t : K) (key : ℕ) → posted b.postings t key ≡ tally t (docs key)
    pub terms :
        (t : K) (key : ℕ)
        → contains t (terms_or (get b.doc_terms key)) ≡ is_some (tally t (docs key))
    pub full : Filled b.postings
    pub each : EachOnce b.postings
    pub once : Once b.doc_len
    pub sum : b.total_len ≡ total b.doc_len

  erasing_posts :
      (key : ℕ) (b : Bm25Index K) (docs : Docs K) (t : K) (j : ℕ)
      → Represents b docs
      → posted (drop_postings key (terms_or (get b.doc_terms key)) b.postings) t j
        ≡ tally t (erased docs key j)
  erasing_posts key b docs t j r =
      let ts : List K = terms_or (get b.doc_terms key) in
      posted-drop_postings key ts b.postings t j ∙ elim (Bool-cases (key == j)) [
        | inr y ↦ rw y (elim (Bool-cases (contains t ts)) [
          | inl h ↦ rw h (r.posts t j)
          | inr h ↦ rw h (r.posts t j)
        ])
        | inl y ↦
            let same : key ≡ j = (eqb_iff key j).0 y in
            elim (Bool-cases (contains t ts)) [
              | inl h ↦ rw (y, h) refl
              | inr h ↦
                  rw (y, h)
                    (r.posts t j
                      ∙ ap (λ (k : ℕ). tally t (docs k)) (sym same)
                      ∙ is_some-none (tally t (docs key)) (sym (r.terms t key) ∙ h))
            ]
      ]

  erasing :
      (key n : ℕ) (b : Bm25Index K) (docs : Docs K)
      → Represents b docs
      → get b.doc_len key ≡ some n
      → Represents (remove_doc key b) (erased docs key)
  unfolding remove_doc contains
  erasing key n b docs r h =
      rw (h, remove_doc)
        (record {
          lens = λ j. elim (Bool-cases (key == j)) [
            | inl y ↦ rw (get-remove b.doc_len key j, y) refl
            | inr y ↦ rw (get-remove b.doc_len key j, y) (r.lens j)
          ];
          posts = λ t j. erasing_posts key b docs t j r;
          terms = λ t j. elim (Bool-cases (key == j)) [
            | inl y ↦ rw (get-remove b.doc_terms key j, y) refl
            | inr y ↦ rw (get-remove b.doc_terms key j, y) (r.terms t j)
          ];
          full = Filled-drop_postings key (terms_or (get b.doc_terms key)) b.postings r.full;
          each = EachOnce-drop_postings key (terms_or (get b.doc_terms key)) b.postings r.each;
          once = Once-remove b.doc_len key r.once;
          sum =
              let left : total (remove b.doc_len key) + n ≡ total b.doc_len =
                ap (λ (o : Option ℕ). total (remove b.doc_len key) + count_at o) (sym h)
                ∙ total-remove b.doc_len key r.once in
              omega (arith, r.sum, left);
        })

  erased-absent : (docs : Docs K) (key : ℕ) → docs key ≡ none → docs ≡ erased docs key
  erased-absent docs key h =
      let same : (j : ℕ) → docs j ≡ erased docs key j = λ j. elim (Bool-cases (key == j)) [
        | inl y ↦ rw y (subst (λ (k : ℕ). docs k ≡ none) ((eqb_iff key j).0 y) h)
        | inr y ↦ rw y refl
      ] in
      λ i j. same j i

  pub remove_doc-Represents :
      (key : ℕ) (b : Bm25Index K) (docs : Docs K)
      → Represents b docs
      → Represents (remove_doc key b) (erased docs key)
  unfolding remove_doc
  remove_doc-Represents key b docs r = elim (Option-cases (get b.doc_len key)) [
    | inl h ↦
        rw (h, remove_doc)
          (subst (Represents b)
            (erased-absent docs key (absent-docs (docs key) (sym h ∙ r.lens key))) r)
    | inr (n, h) ↦ erasing key n b docs r h
  ]

  adding :
      (key : ℕ) (ts : List K) (c : Bm25Index K) (docs : Docs K)
      → Represents c docs
      → docs key ≡ none
      → Represents
          (let tf = count_terms ts [] in
            record {
              postings = add_postings key tf c.postings;
              doc_len = insert c.doc_len key (length ts);
              doc_terms = insert c.doc_terms key (keys tf);
              total_len = c.total_len + length ts;
            })
          (stored docs key ts)
  unfolding get
  adding key ts c docs r new =
      let tf : Dict K ℕ = count_terms ts [] in
      let tallied : (t : K) → get tf t ≡ tally t (some ts) = get-count_terms ts [] in
      record {
        lens = λ j. elim (Bool-cases (key == j)) [
          | inl y ↦ rw (get-insert c.doc_len key j (length ts), y) refl
          | inr y ↦ rw (get-insert c.doc_len key j (length ts), y) (r.lens j)
        ];
        posts = λ t j.
            posted-add_postings key tf c.postings t j (Once-count_terms ts [] tt)
            ∙ elim (Bool-cases (key == j)) [
              | inl y ↦
                  rw (y, tallied t, r.posts t j, sym ((eqb_iff key j).0 y), new)
                    (or_else-none (tally t (some ts)))
              | inr y ↦ rw y (r.posts t j)
            ];
        terms = λ t j. elim (Bool-cases (key == j)) [
          | inl y ↦
              rw (get-insert c.doc_terms key j (keys tf), y, contains-keys tf t, tallied t) refl
          | inr y ↦ rw (get-insert c.doc_terms key j (keys tf), y) (r.terms t j)
        ];
        full = Filled-add_postings key tf c.postings r.full;
        each = EachOnce-add_postings key tf c.postings r.each;
        once = Once-insert c.doc_len key (length ts) r.once;
        sum =
            omega (
              arith,
              r.sum,
              total-insert c.doc_len key (length ts) (r.lens key ∙ ap length_of new),
            );
      }

  stored-erased :
      (docs : Docs K) (key : ℕ) (ts : List K) → stored (erased docs key) key ts ≡ stored docs key ts
  stored-erased docs key ts =
      let same : (j : ℕ) → stored (erased docs key) key ts j ≡ stored docs key ts j =
        λ j. elim (Bool-cases (key == j)) [ inl y ↦ rw y refl | inr y ↦ rw y refl ] in
      λ i j. same j i

  erased-here : (docs : Docs K) (key : ℕ) → erased docs key key ≡ none
  erased-here docs key = rw ((eqb_iff key key).1 refl) refl

  pub add_doc-Represents :
      (key : ℕ) (ts : List K) (b : Bm25Index K) (docs : Docs K)
      → Represents b docs
      → Represents (add_doc key ts b) (stored docs key ts)
  unfolding add_doc
  add_doc-Represents key ts b docs r =
      subst (Represents (add_doc key ts b)) (stored-erased docs key ts) (
        adding key ts (remove_doc key b) (erased docs key) (remove_doc-Represents key b docs r)
          (erased-here docs key))

-- Writing and removing documents.
pub data Edit (K : Type 0) : Type 0 where
  writes : ℕ → List K → Edit K
  removes : ℕ → Edit K

abbrev pub docs_after : {K : Type 0} → List (Edit K) → Docs K → Docs K
docs_after [] docs = docs
docs_after (writes key ts ∷ es) docs = docs_after es (stored docs key ts)
docs_after (removes key ∷ es) docs = docs_after es (erased docs key)

module _ {K : Type 0} ⦃e : Eq K⦄ where
  abbrev pub edit_all : List (Edit K) → Bm25Index K → Bm25Index K
  edit_all [] b = b
  edit_all (writes key ts ∷ es) b = edit_all es (add_doc key ts b)
  edit_all (removes key ∷ es) b = edit_all es (remove_doc key b)

  edit_all-keeps :
      (es : List (Edit K)) (b : Bm25Index K) (docs : Docs K)
      → Represents b docs
      → Represents (edit_all es b) (docs_after es docs)
  edit_all-keeps [] b docs r = r
  edit_all-keeps (writes key ts ∷ es) b docs r =
      edit_all-keeps es (add_doc key ts b) (stored docs key ts) (add_doc-Represents key ts b docs r)
  edit_all-keeps (removes key ∷ es) b docs r =
      edit_all-keeps es (remove_doc key b) (erased docs key) (remove_doc-Represents key b docs r)

  new_bm25-Represents : Represents {K = K} new_bm25 (λ key. none)
  unfolding get contains total
  new_bm25-Represents = record {
    lens = λ key. refl;
    posts = λ t key. refl;
    terms = λ t key. refl;
    full = λ t. refl;
    each = λ t. tt;
    once = tt;
    sum = refl;
  }

  -- After any writes and removals on a new index, its lengths, postings and terms are those of the
  -- documents as the edits leave them, its total length is theirs, no term has empty postings, and no
  -- key is twice in the postings of a term or among the lengths.
  pub edit_all-Represents :
      (es : List (Edit K)) → Represents (edit_all es new_bm25) (docs_after es (λ key. none))
  edit_all-Represents es = edit_all-keeps es new_bm25 (λ key. none) new_bm25-Represents

  pub length_of-tally :
      (t : K) (o : Option (List K))
      → is_some (tally t o) ≡ (is_some (length_of o) && is_some (tally t o))
  length_of-tally t none = refl
  length_of-tally t (some ts) = refl

  -- The document frequency of a term, in an index that holds some documents, is the number of the
  -- documents that have the term.
  doc_frequency-Represents :
      (t : K) (b : Bm25Index K) (docs : Docs K)
      → Represents b docs
      → doc_frequency t b ≡ length (keep (λ key. is_some (tally t (docs key))) (keys b.doc_len))
  unfolding doc_frequency
  doc_frequency-Represents t b docs r =
      length-keys b.doc_len (or_empty (get b.postings t)) (λ key. is_some (tally t (docs key)))
        r.once (r.each t)
        (λ key.
          ap is_some (r.posts t key)
          ∙ length_of-tally t (docs key)
          ∙ ap (λ (o : Option ℕ). is_some o && is_some (tally t (docs key))) (sym (r.lens key)))
