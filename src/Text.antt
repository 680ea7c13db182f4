-- ===== src/Text.antt =====
-- src/annex/text/tokenizer.py and bm25.py: the analyzer and the inverted index. A token is the list of
-- its characters, by code point; the split of a text into words is Python's `re`, a parameter.
-- The scores are in `Ranking`.
pub mod Postings
pub mod Documents
use python_pj.Prelude.{
  ℕ, suc, ◌+◌, ◌-◌, Bool, true, false, ◌&&◌, ◌||◌, Option, none, some, List, [], ◌∷◌, ◌++◌,
  if◌then◌else◌, ltb, leb, eqb, length, take, drop, nat_eq, Eq,
}
use python_pj.Prelude.Dict.{Dict, get, insert, remove, keys}

abbrev same_token : List ℕ → List ℕ → Bool
same_token [] [] = true
same_token (a ∷ as') (b ∷ bs) = eqb a b && same_token as' bs
same_token [] (b ∷ bs) = false
same_token (a ∷ as') [] = false

-- `token.endswith(suf)`
unfoldable pub ends_with : List ℕ → List ℕ → Bool
ends_with token suf =
    leb (length suf) (length token) && same_token (drop (length token - length suf) token) suf

-- the base, which ends in y after "ies" and "ied"
unfoldable pub strip : List ℕ → List ℕ × Bool → List ℕ
strip token (suf, y) =
    let base = take (length token - length suf) token in if y then base ++ 121 ∷ [] else base

-- The first of the suffixes that leaves three characters is taken off; each suffix says whether
-- it is "ies" or "ied".
unfoldable pub stem_by : List (List ℕ × Bool) → List ℕ → List ℕ
unfolding ends_with strip
stem_by [] token = token
stem_by ((suf, y) ∷ sufs) token =
    let rest = stem_by sufs token in
    if ends_with token suf && leb 3 (length token - length suf) then strip token (suf, y) else rest

-- `_SUFFIXES`
abbrev pub suffixes : List (List ℕ × Bool)
suffixes =
    (97 ∷ 116 ∷ 105 ∷ 111 ∷ 110 ∷ 97 ∷ 108 ∷ [], false)
    ∷ (105 ∷ 118 ∷ 101 ∷ 110 ∷ 101 ∷ 115 ∷ 115 ∷ [], false)
    ∷ (102 ∷ 117 ∷ 108 ∷ 110 ∷ 101 ∷ 115 ∷ 115 ∷ [], false)
    ∷ (111 ∷ 117 ∷ 115 ∷ 110 ∷ 101 ∷ 115 ∷ 115 ∷ [], false)
    ∷ (105 ∷ 122 ∷ 97 ∷ 116 ∷ 105 ∷ 111 ∷ 110 ∷ [], false)
    ∷ (97 ∷ 116 ∷ 105 ∷ 111 ∷ 110 ∷ [], false)
    ∷ (105 ∷ 110 ∷ 103 ∷ 108 ∷ 121 ∷ [], false)
    ∷ (101 ∷ 100 ∷ 108 ∷ 121 ∷ [], false)
    ∷ (105 ∷ 110 ∷ 103 ∷ [], false)
    ∷ (105 ∷ 101 ∷ 115 ∷ [], true)
    ∷ (105 ∷ 101 ∷ 100 ∷ [], true)
    ∷ (101 ∷ 115 ∷ 115 ∷ [], false)
    ∷ (101 ∷ 114 ∷ 115 ∷ [], false)
    ∷ (101 ∷ 114 ∷ [], false)
    ∷ (108 ∷ 121 ∷ [], false)
    ∷ (101 ∷ 115 ∷ [], false)
    ∷ (115 ∷ [], false)
    ∷ []

unfoldable pub stem : List ℕ → List ℕ
unfolding stem_by
stem token = if leb (length token) 3 then token else stem_by suffixes token

pub record Tokenizer (S : Type 0) : Type 0 where
  pub lowercase : Bool
  pub stopwords : List (List ℕ)
  pub use_stemmer : Bool
  pub min_length : ℕ
  pub lower : S → S
  pub find_words : S → List (List ℕ)

abbrev is_stopword : List ℕ → List (List ℕ) → Bool
is_stopword token [] = false
is_stopword token (w ∷ ws) = same_token w token || is_stopword token ws

module _ {S : Type 0} (t : Tokenizer S) where
  -- the loop of `tokenize`
  unfoldable pub analyze : List (List ℕ) → List (List ℕ)
  unfolding stem
  analyze [] = []
  analyze (token ∷ tokens) =
      let rest = analyze tokens in
      if ltb (length token) t.min_length || is_stopword token t.stopwords
      then rest
      else (if t.use_stemmer then stem token else token) ∷ rest

  unfoldable pub tokenize : S → List (List ℕ)
  unfolding analyze
  tokenize text = analyze (t.find_words (if t.lowercase then t.lower text else text))

-- `K` is the type of terms.
pub record Bm25Index (K : Type 0) : Type 0 where
  pub postings : Dict K (Dict ℕ ℕ)
  pub doc_len : Dict ℕ ℕ
  pub doc_terms : Dict ℕ (List K)
  pub total_len : ℕ

abbrev pub new_bm25 : {K : Type 0} → Bm25Index K
new_bm25 = record { postings = []; doc_len = []; doc_terms = []; total_len = 0 }

abbrev pub or_empty : Option (Dict ℕ ℕ) → Dict ℕ ℕ
or_empty none = []
or_empty (some d) = d

abbrev pub or_zero : Option ℕ → ℕ
or_zero none = 0
or_zero (some n) = n

abbrev pub no_postings : Dict ℕ ℕ → Bool
no_postings [] = true
no_postings (p ∷ ps) = false

module _ {K : Type 0} where
  abbrev pub terms_or : Option (List K) → List K
  terms_or none = []
  terms_or (some ts) = ts

  unfoldable pub num_docs : Bm25Index K → ℕ
  num_docs b = length b.doc_len

module _ {K : Type 0} ⦃e : Eq K⦄ where
  -- `tf[tok] += 1` for every token
  unfoldable pub count_terms : List K → Dict K ℕ → Dict K ℕ
  count_terms [] tf = tf
  count_terms (t ∷ ts) tf = count_terms ts (insert tf t (suc (or_zero (get tf t))))

  -- `self._postings[term][key] = count`
  unfoldable pub add_postings : ℕ → Dict K ℕ → Dict K (Dict ℕ ℕ) → Dict K (Dict ℕ ℕ)
  add_postings key [] postings = postings
  add_postings key ((term, count) ∷ tf) postings =
      add_postings key tf (insert postings term (insert (or_empty (get postings term)) key count))

  -- the postings of one term without a key, and the term without postings
  unfoldable pub drop_posting : ℕ → K → Dict K (Dict ℕ ℕ) → Dict K (Dict ℕ ℕ)
  drop_posting key term postings = elim (get postings term) [
    | none ↦ postings
    | some p ↦
        let left = remove p key in
        if no_postings left then remove postings term else insert postings term left
  ]

  unfoldable pub drop_postings : ℕ → List K → Dict K (Dict ℕ ℕ) → Dict K (Dict ℕ ℕ)
  unfolding drop_posting
  drop_postings key [] postings = postings
  drop_postings key (t ∷ ts) postings = drop_postings key ts (drop_posting key t postings)

  unfoldable pub remove_doc : ℕ → Bm25Index K → Bm25Index K
  unfolding drop_postings
  remove_doc key b = elim (get b.doc_len key) [
    | none ↦ b
    | some n ↦ record {
      postings = drop_postings key (terms_or (get b.doc_terms key)) b.postings;
      doc_len = remove b.doc_len key;
      doc_terms = remove b.doc_terms key;
      total_len = b.total_len - n;
    }
  ]

  -- `add`, of a text that is already tokens; `remove_doc` does nothing for a key that is not there
  unfoldable pub add_doc : ℕ → List K → Bm25Index K → Bm25Index K
  unfolding remove_doc count_terms add_postings
  add_doc key tokens b =
      let c = remove_doc key b in
      let tf = count_terms tokens [] in
      record {
        postings = add_postings key tf c.postings;
        doc_len = insert c.doc_len key (length tokens);
        doc_terms = insert c.doc_terms key (keys tf);
        total_len = c.total_len + length tokens;
      }

  -- `df` of `idf`
  unfoldable pub doc_frequency : K → Bm25Index K → ℕ
  doc_frequency term b = length (or_empty (get b.postings term))
