-- ===== src/Tests/Text.antt =====
-- src/annex/text/bm25.py: an index with two documents, one of them written twice.
use python_pj.Prelude.{
  leb, ℕ, ◌+◌, ◌-◌, ◌*◌, ◌≡◌, true, false, none, List, [], ◌∷◌, ltb, nat_eq, arith,
}
use python_pj.Text.{Bm25Index, new_bm25}
use python_pj.Text.Documents.{
  Docs, Edit, writes, removes, edit_all, docs_after, Represents, edit_all-Represents,
}
use python_pj.Ranking.{Floats, search_terms}
use python_pj.Ranking.Search.{AreHits, search_terms-AreHits}

abbrev pub edits : List (Edit ℕ)
edits =
    writes 1 (5 ∷ 6 ∷ 5 ∷ [])
    ∷ writes 2 (6 ∷ [])
    ∷ writes 3 (7 ∷ [])
    ∷ removes 3
    ∷ writes 1 (6 ∷ 8 ∷ [])
    ∷ []

abbrev pub two_docs : Bm25Index ℕ
two_docs = edit_all edits new_bm25

abbrev pub tokens_of : Docs ℕ
tokens_of = docs_after edits (λ key. none)

-- whole numbers in place of floats
abbrev pub whole_numbers : Floats ℕ
whole_numbers = record {
  of_int = λ n. n;
  half = 0;
  plus = λ a b. a + b;
  minus = λ a b. a - b;
  times = λ a b. a * b;
  over = λ a b. a;
  is_zero = λ a. leb a 0;
  log = λ a. a;
  less = ltb;
}

edit_all-Represents_example : Represents two_docs tokens_of
edit_all-Represents_example = edit_all-Represents edits

pub two_docs-Represents : Represents two_docs tokens_of
two_docs-Represents = edit_all-Represents edits

ltb-asymmetric : (a b : ℕ) → ltb a b ≡ true → ltb b a ≡ false
ltb-asymmetric a b h = ground (arith, h)

search_terms-AreHits_example :
    AreHits whole_numbers two_docs 1 1
      (λ key. true)
      tokens_of
      5
      (6 ∷ [])
      (search_terms whole_numbers two_docs 1 1 (λ key. true) 5 (6 ∷ []))
search_terms-AreHits_example =
    search_terms-AreHits whole_numbers two_docs 1 1 (λ key. true) tokens_of 5 (6 ∷ [])
      ltb-asymmetric two_docs-Represents
