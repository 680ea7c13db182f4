-- ===== src/Tests/Query.antt =====
-- src/annex/db.py, src/annex/index/flat.py and space.py: searches over points of a line, with a sort in
-- place of numpy's partition.
use python_pj.Prelude.{
  ℕ, zero, suc, ◌+◌, ◌*◌, ◌≤◌, ◌≡◌, ◌≢◌, ◌↔◌, refl, inl, inr, Bool, true, false, not, none, some,
  List, [], ◌∷◌, Option, map, Bool-cases, eqb, ap, sym, ◌∙◌, ltb, arith, length, take, drop, max,
  nat_eq, All,
}
use python_pj.Prelude.Dict.{Dict, get}
use python_pj.Prelude.Members.{In, Distinct}
use mathlib.Core.Option
use python_pj.Mvcc.{Version, visible_at, inf, new_registry}
use python_pj.Settings.{Hit, l2}
use python_pj.Planner.{CostFloats, QueryPlanner}
use python_pj.Index.Heap.{sort}
use python_pj.Index.Flat.{FlatIndex, search_flat, scanned_distance}
use python_pj.Index.Sorted.{Ascending, Ascending-sort}
use python_pj.Index.Shuffled.{sort-Shuffled}
use python_pj.Index.Nearest.{IsPartition, AreNearest, scanned, search_flat-AreNearest}
use python_pj.Index.Exact.{ExactSpace, IsFit, set_vector, get_vector, get_vector-set_vector}
use python_pj.Collection.{Collection}
use python_pj.Collection.Query.{
  Searchers, SearchRequest, QueryFilter, keep_allowed, search_collection,
}
use python_pj.Collection.Visible.{
  Shows, Respects, Answers, Found, Judges, keep_allowed-Answers, search_collection-Shows,
}
use python_pj.Tests.Storage.{new_store}
use python_pj.Tests.Index.{line, ltb-asymmetric}
use python_pj.Tests.Text.{whole_numbers}

abbrev earlier : ℕ × ℕ → ℕ × ℕ → Bool
earlier x y = not (ltb y.0 x.0)

-- the rows in the order of their distances
abbrev arrange : ℕ → List (ℕ × ℕ) → List (ℕ × ℕ)
arrange n rows = sort earlier rows

abbrev AllBelow : ℕ × ℕ → List (ℕ × ℕ) → Type 0
AllBelow x ys = All (λ y. ltb y.0 x.0 ≡ false) ys

ltb_chain : (a b c : ℕ) → ltb b a ≡ false → ltb c b ≡ false → ltb c a ≡ false
ltb_chain a b c h k = ground (arith, h, k)

AllBelow-chain :
    (x y : ℕ × ℕ) (ys : List (ℕ × ℕ)) → ltb y.0 x.0 ≡ false → AllBelow y ys → AllBelow x ys
AllBelow-chain x y [] h b = tt
AllBelow-chain x y (z ∷ zs) h b = (ltb_chain x.0 y.0 z.0 h b.0, AllBelow-chain x y zs h b.1)

first-AllBelow :
    (x : ℕ × ℕ) (xs : List (ℕ × ℕ)) → Ascending (λ a b. ltb a.0 b.0) (x ∷ xs) → AllBelow x xs
first-AllBelow x [] a = tt
first-AllBelow x (y ∷ ys) a = (a.0, AllBelow-chain x y ys a.0 (first-AllBelow y ys a.1))

dropped-AllBelow : (x : ℕ × ℕ) (n : ℕ) (xs : List (ℕ × ℕ)) → AllBelow x xs → AllBelow x (drop n xs)
dropped-AllBelow x zero xs b = b
dropped-AllBelow x (suc n) [] b = tt
dropped-AllBelow x (suc n) (y ∷ ys) b = dropped-AllBelow x n ys b.1

Ascending-parted :
    (n : ℕ) (xs : List (ℕ × ℕ))
    → Ascending (λ a b. ltb a.0 b.0) xs
    → All (λ x. AllBelow x (drop n xs)) (take n xs)
Ascending-parted zero xs a = tt
Ascending-parted (suc n) [] a = tt
Ascending-parted (suc n) (x ∷ xs) a =
    (dropped-AllBelow x n xs (first-AllBelow x xs a), Ascending-parted n xs a.1)

earlier-before : (x y : ℕ × ℕ) → earlier x y ≡ true → ltb y.0 x.0 ≡ false
earlier-before x y h = ground (arith, h)

earlier-after : (x y : ℕ × ℕ) → earlier x y ≡ false → ltb x.0 y.0 ≡ false
earlier-after x y h = ground (arith, h)

arrange-IsPartition : IsPartition ltb arrange
arrange-IsPartition = record {
  shuffled = λ n rows. sort-Shuffled earlier rows;
  parted = λ n rows h.
      Ascending-parted (suc n) (sort earlier rows)
        (Ascending-sort (λ a b. ltb a.0 b.0) earlier earlier-before earlier-after rows);
}

abbrev flat_points : FlatIndex (Dict ℕ ℕ)
flat_points = record { space = (0, 10) ∷ (1, 14) ∷ (2, 3) ∷ []; live = 2 ∷ 1 ∷ 0 ∷ [] }

flat_points-Distinct : Distinct flat_points.live
flat_points-Distinct = (
  (λ i. elim i [
    | inl e ↦ omega (arith, e)
    | inr r ↦ elim r [ inl e ↦ omega (arith, e) | inr n ↦ n ]
  ]),
  ((λ i. elim i [ inl e ↦ omega (arith, e) | inr n ↦ n ]), ((λ i. i), tt)),
)

search_flat-AreNearest_example :
    AreNearest ltb
      (scanned_distance ltb arrange line flat_points 12)
      2
      (scanned ltb arrange line (ltb 0) flat_points)
      (search_flat ltb arrange line 12 2 (ltb 0) flat_points)
    × ((j : ℕ)
        → In j (scanned ltb arrange line (ltb 0) flat_points)
          ↔ (In j flat_points.live × (ltb 0 j ≡ true)))
search_flat-AreNearest_example =
    search_flat-AreNearest ltb arrange line 12 2 (ltb 0) flat_points arrange-IsPartition
      ltb-asymmetric flat_points-Distinct

-- the key 0 is not allowed
flat_found : search_flat ltb arrange line 12 2 (ltb 0) flat_points ≡ (2, 1) ∷ (9, 2) ∷ []
unfolding search_flat get
flat_found = refl

abbrev two_rows : ExactSpace ℕ
two_rows = record { rows = 7 ∷ 0 ∷ []; capacity = 2; count = 1 }

two_rows-IsFit : IsFit 0 two_rows
two_rows-IsFit = record { full = refl; within = omega arith }

get_vector-set_vector_example :
    IsFit 0 (set_vector 0 5 9 two_rows)
    × (get_vector 0 (set_vector 0 5 9 two_rows) 5 ≡ some 9)
    × ((j : ℕ) (w : ℕ)
        → j ≢ 5
        → get_vector 0 two_rows j ≡ some w
        → get_vector 0 (set_vector 0 5 9 two_rows) j ≡ some w)
    × ((set_vector 0 5 9 two_rows).count ≡ max two_rows.count (5 + 1))
get_vector-set_vector_example = get_vector-set_vector 0 5 9 two_rows two_rows-IsFit

abbrev first_version : Version ℕ
first_version = record {
  key = 0;
  doc_id = "a";
  born = 1;
  dead = 2;
  metadata = ("year", 1990) ∷ [];
  text = none;
}

abbrev second_version : Version ℕ
second_version = record {
  key = 1;
  doc_id = "a";
  born = 2;
  dead = inf;
  metadata = [];
  text = some "b";
}

-- a collection in which the first document was written twice, with indexes that are the keys they have
abbrev written_twice : Collection ℕ ℕ (List ℕ) (List ℕ)
written_twice = record {
  store = new_store;
  index = 0 ∷ 1 ∷ [];
  texts = some (1 ∷ []);
  versions = (0, first_version) ∷ (1, second_version) ∷ [];
  current = ("a", 1) ∷ [];
  next_key = 2;
  snapshots = new_registry;
}

abbrev with_score : List ℕ → List (ℕ × ℕ)
with_score ks = map (λ k. (k, 0)) ks

-- indexes that ask about all their keys
abbrev searchers : Searchers ℕ ℕ (List ℕ) (List ℕ) ℕ
searchers = record {
  prepare_query = some;
  search_vectors = λ ks q n ef allow. Option.map with_score (keep_allowed allow ks);
  search_texts = λ ks t n allow. Option.map with_score (keep_allowed allow ks);
  exact_distance = λ ks q k. k;
  vector_at = λ ks k. k;
}

with_score-All :
    (P : ℕ → Type 0) (ks : List ℕ) → ((j : ℕ) → In j ks → P j) → All (λ x. P x.0) (with_score ks)
with_score-All P [] h = tt
with_score-All P (k ∷ ks) h = (h k (inl refl), with_score-All P ks (λ j i. h j (inr i)))

asked-Found :
    (allow : ℕ → Option Bool) (ks : List ℕ)
    → Answers allow
    → Found allow (Option.map with_score (keep_allowed allow ks))
asked-Found allow ks answers =
    let (xs, e, all) = keep_allowed-Answers allow ks answers in
    (with_score xs, rw e refl, with_score-All (λ j. allow j ≡ some true) xs all)

searchers-Respects : Respects searchers written_twice
searchers-Respects = record {
  vectors = λ q n ef allow answers. asked-Found allow (0 ∷ 1 ∷ []) answers;
  texts = λ b t n allow there answers. asked-Found allow b answers;
}

-- a filter that raises for documents with metadata
abbrev no_metadata : QueryFilter ℕ
no_metadata = record {
  predicate = λ m. elim m [ [] ↦ some true | (k, v) ∷ rest ↦ none ];
  stats = record { equality_fields = 0; clauses = 0 };
}

some_same : {A : Type 0} {a b : A} → some a ≡ some b → a ≡ b
some_same e = cc e

-- the version for which it raises is not visible
no_metadata-Judges : Judges written_twice 2 no_metadata
unfolding get
no_metadata-Judges key v e seen = elim (Bool-cases (eqb 0 key)) [
  | inl y ↦
      let old : first_version ≡ v = some_same (rw y at e) in
      let never : false ≡ true = ap (λ w. visible_at w 2) old ∙ seen in absurd (cc)
  | inr n ↦ elim (Bool-cases (eqb 1 key)) [
    | inl y ↦
        let new : second_version ≡ v = some_same (rw (n, y) at e) in
        (true, ap (λ w. no_metadata.predicate w.metadata) (sym new))
    | inr m ↦ let never : none ≡ some v = rw (n, m) at e in absurd (cc)
  ]
]

-- whole numbers in place of floats
abbrev costs : CostFloats ℕ
costs = record {
  of_int = λ n. n;
  decimal = λ n d. n;
  times = λ a b. a * b;
  over = λ a b. a;
  power = λ a n. a;
  log2 = λ a. a;
  larger = max;
  smaller = λ a b. a;
  below = λ a b. ltb a b;
  ceil = λ a. a;
}

abbrev planner : QueryPlanner ℕ
planner = record { small_collection_threshold = 2000; graph_factor = 1; scan_speedup = 12 }

-- a vector and a text, at the sequence number 2
abbrev both_ways : SearchRequest ℕ ℕ ℕ
both_ways = record {
  vector = some 13;
  text = some "b";
  k = 3;
  filt = no_metadata;
  ef = none;
  snapshot = some 2;
  rrf_k = 60;
  weights = 1 ∷ 1 ∷ [];
  oversample = 1;
  include_vectors = false;
}

search_collection-Shows_example :
    (hits : List (Hit ℕ ℕ ℕ)) × (scanned : ℕ) × (search_collection searchers ltb arrange
        whole_numbers
        (λ d. d)
        costs
        planner
        l2
        "hnsw"
        4
        both_ways
        written_twice
      ≡ some (hits, scanned))
    × (length hits ≤ 3)
    × All (Shows searchers written_twice 2 both_ways.filt) hits
search_collection-Shows_example =
    search_collection-Shows searchers ltb arrange arrange-IsPartition written_twice
      searchers-Respects whole_numbers (λ d. d) costs planner l2 "hnsw" 4 both_ways (some 13) refl
      refl (omega arith) no_metadata-Judges (λ rank. ground arith)
