-- ===== src/Collection/Visible.antt =====
-- src/annex/db.py: what `Collection.search` returns.
use python_pj.Prelude.{
  ℕ, zero, suc, ◌≤◌, ◌<◌, ◌≡◌, refl, ap, ◌∙◌, inl, inr, Bool, true, false, Option, none, some,
  String, List, [], ◌∷◌, Bool-cases, Option-cases, arith, length, length-take, take, map,
  if◌then◌else◌, nat_eq, ◌==◌, string_eq, All,
}
use python_pj.Prelude.Dict.{Dict, get, insert, keys}
use python_pj.Prelude.Members.{In}
use python_pj.Mvcc.{Version, visible_at}
use python_pj.Settings.{Metric, Hit}
use python_pj.Planner.{CostFloats, PlannedQuery, QueryPlanner}
use python_pj.Ranking.{
  Floats, fuse_ranking, fuse_rankings, reciprocal_rank_fusion, rank_down, insert_ranked, divisor,
  score_or,
}
use python_pj.Index.Flat.{exact_scan}
use python_pj.Index.Sorted.{nodes, All-take}
use python_pj.Index.Nearest.{IsPartition, exact_scan-inside}
use python_pj.Collection.{Collection}
use python_pj.Collection.Query.{
  Searchers, QueryFilter, SearchRequest, or_seq, allow_at, live_keys, keep_allowed, scored, merge,
  is_lexical, scans, dense_stage, lexical_stage, to_hit, to_hits, prepared, planned,
  search_collection,
}

-- Every key of some ranked pairs has a property.
abbrev Keys : {R : Type 0} → (ℕ → Type 0) → List (ℕ × R) → Type 0
Keys P xs = All (λ x. P x.0) xs

-- No rank makes the fusion divide by zero.
abbrev pub Divides : {R : Type 0} → Floats R → R → Type 0
Divides fl rrf_k = (rank : ℕ) → fl.is_zero (divisor fl rrf_k rank) ≡ false

module _ {R : Type 0} (fl : Floats R) (P : ℕ → Type 0) where
  insert-Keys : (d : Dict ℕ R) (k : ℕ) (v : R) → P k → Keys P d → Keys P (insert d k v)
  unfolding insert
  insert-Keys [] k v p h = (p, tt)
  insert-Keys ((j, w) ∷ d) k v p h = elim (Bool-cases (j == k)) [
    | inl y ↦ rw y h
    | inr y ↦ rw y (h.0, insert-Keys d k v p h.1)
  ]

  fuse_ranking-Keys :
      (w rrf_k : R) (divides : Divides fl rrf_k) (rank : ℕ) (items : List (ℕ × R))
      (fused : Dict ℕ R)
      → Keys P items
      → Keys P fused
      → (d : Dict ℕ R) × (fuse_ranking fl w rrf_k rank items fused ≡ some d) × Keys P d
  unfolding fuse_ranking
  fuse_ranking-Keys w rrf_k divides rank [] fused h k = (fused, refl, k)
  fuse_ranking-Keys w rrf_k divides rank ((key, s) ∷ items) fused h k =
      let more : Dict ℕ R =
        insert fused key
          (fl.plus (score_or fl (get fused key)) (fl.over w (divisor fl rrf_k rank))) in
      let (d, e, kept) =
        fuse_ranking-Keys w rrf_k divides (suc rank) items more h.1
          (insert-Keys fused key _ h.0 k) in
      (d, rw (divides rank) e, kept)

  insert_ranked-Keys :
      (x : ℕ × R) (xs : List (ℕ × R)) → P x.0 → Keys P xs → Keys P (insert_ranked fl x xs)
  insert_ranked-Keys x [] p h = (p, tt)
  insert_ranked-Keys x (y ∷ ys) p h = elim (Bool-cases (fl.less x.1 y.1)) [
    | inl t ↦ rw t (h.0, insert_ranked-Keys x ys p h.1)
    | inr t ↦ rw t (p, h)
  ]

  rank_down-Keys : (xs : List (ℕ × R)) → Keys P xs → Keys P (rank_down fl xs)
  unfolding rank_down
  rank_down-Keys [] h = tt
  rank_down-Keys (x ∷ xs) h = insert_ranked-Keys x (rank_down fl xs) h.0 (rank_down-Keys xs h.1)

  scored-Keys :
      (negate : R → R) (metric : Metric) (xs : List (ℕ × R))
      → Keys P xs
      → Keys P (scored fl negate metric xs)
  scored-Keys negate metric [] h = tt
  scored-Keys negate metric (x ∷ xs) h = (h.0, scored-Keys negate metric xs h.1)

  length-scored :
      (negate : R → R) (metric : Metric) (xs : List (ℕ × R))
      → length (scored fl negate metric xs) ≡ length xs
  length-scored negate metric [] = refl
  length-scored negate metric (x ∷ xs) = ap suc (length-scored negate metric xs)

  -- Some pairs, no more than k, whose keys have the property.
  record IsRanked (k : ℕ) (result : Option (List (ℕ × R))) : Type 0 where
    pairs : List (ℕ × R)
    given : result ≡ some pairs
    at_most : length pairs ≤ k
    all : Keys P pairs

  taken-IsRanked : (k : ℕ) (xs : List (ℕ × R)) → Keys P xs → IsRanked k (some (take k xs))
  taken-IsRanked k xs h = record {
    pairs = take k xs;
    given = refl;
    at_most = omega (arith, length-take k xs);
    all = All-take (λ x. P x.0) k xs h;
  }

  fusion-IsRanked :
      (weights : List R) (rrf_k : R) (divides : Divides fl rrf_k) (k : ℕ) (xs ys : List (ℕ × R))
      → length weights ≡ 2
      → 0 < k
      → Keys P xs
      → Keys P ys
      → IsRanked k (reciprocal_rank_fusion fl weights rrf_k (some k) (xs ∷ ys ∷ []))
  unfolding reciprocal_rank_fusion fuse_rankings
  fusion-IsRanked [] rrf_k divides k xs ys n pos h g = absurd (omega (arith, n))
  fusion-IsRanked (a ∷ []) rrf_k divides k xs ys n pos h g = absurd (omega (arith, n))
  fusion-IsRanked (a ∷ b ∷ []) rrf_k divides zero xs ys n pos h g = absurd (omega (arith, pos))
  fusion-IsRanked (a ∷ b ∷ []) rrf_k divides (suc k) xs ys n pos h g =
      let (first, e, one) = fuse_ranking-Keys a rrf_k divides 0 xs [] h tt in
      let (fused, f, both) = fuse_ranking-Keys b rrf_k divides 0 ys first g one in
      rw (e, f) (taken-IsRanked (suc k) (rank_down fl fused) (rank_down-Keys fused both))
  fusion-IsRanked (a ∷ b ∷ c ∷ cs) rrf_k divides k xs ys n pos h g = absurd (omega (arith, n))

  merge-IsRanked :
      (negate : R → R) (metric : Metric) (only_lexical : Bool) (rrf_k : R)
      (divides : Divides fl rrf_k) (weights : List R) (k : ℕ) (dense lexical : List (ℕ × R))
      → length weights ≡ 2
      → 0 < k
      → Keys P dense
      → Keys P lexical
      → IsRanked k (merge fl negate metric only_lexical rrf_k weights k dense lexical)
  unfolding merge
  merge-IsRanked negate metric true rrf_k divides weights k dense [] n pos h g = record {
    pairs = [];
    given = refl;
    at_most = omega arith;
    all = tt;
  }
  merge-IsRanked negate metric false rrf_k divides weights k dense [] n pos h g = record {
    pairs = scored fl negate metric (take k dense);
    given = refl;
    at_most = omega (arith, length-scored negate metric (take k dense), length-take k dense);
    all = scored-Keys negate metric (take k dense) (All-take (λ x. P x.0) k dense h);
  }
  merge-IsRanked negate metric true rrf_k divides weights k [] (l ∷ lexical) n pos h g =
      taken-IsRanked k (l ∷ lexical) g
  merge-IsRanked negate metric false rrf_k divides weights k [] (l ∷ lexical) n pos h g =
      taken-IsRanked k (l ∷ lexical) g
  merge-IsRanked negate metric true rrf_k divides weights k (d ∷ dense) (l ∷ lexical) n pos h g =
      taken-IsRanked k (l ∷ lexical) g
  merge-IsRanked negate metric false rrf_k divides weights k (d ∷ dense) (l ∷ lexical) n pos h g =
      fusion-IsRanked weights rrf_k divides k (d ∷ dense) (l ∷ lexical) n pos h g

-- The keys of pairs that are turned round.
turned-Keys :
    {R : Type 0} (P : ℕ → Type 0) (xs : List (R × ℕ))
    → ((j : ℕ) → In j (nodes xs) → P j)
    → Keys P (map (λ x. (x.1, x.0)) xs)
turned-Keys P [] h = tt
turned-Keys P (x ∷ xs) h = (h x.1 (inl refl), turned-Keys P xs (λ j i. h j (inr i)))

-- The filter raises for no version that is visible.
abbrev pub Judges : {V J I T : Type 0} → Collection V J I T → ℕ → QueryFilter J → Type 0
Judges {V} {J} c snap filt =
    (key : ℕ) (v : Version J)
    → get c.versions key ≡ some v
    → visible_at v snap ≡ true
    → (b : Bool) × (filt.predicate v.metadata ≡ some b)

-- `allow` raises for no key.
abbrev pub Answers : (ℕ → Option Bool) → Type 0
Answers allow = (k : ℕ) → (b : Bool) × (allow k ≡ some b)

-- There is a result, of keys that are allowed.
abbrev pub Found : {R : Type 0} → (ℕ → Option Bool) → Option (List (ℕ × R)) → Type 0
Found {R} allow result =
    (xs : List (ℕ × R)) × (result ≡ some xs) × All (λ x. allow x.0 ≡ some true) xs

pub keep_allowed-Answers :
    (allow : ℕ → Option Bool) (ks : List ℕ)
    → Answers allow
    → (xs : List ℕ) × (keep_allowed allow ks ≡ some xs) × ((j : ℕ) → In j xs → allow j ≡ some true)
unfolding keep_allowed
keep_allowed-Answers allow [] answers = ([], refl, λ j i. absurd i)
keep_allowed-Answers allow (k ∷ ks) answers =
    let (xs, e, all) = keep_allowed-Answers allow ks answers in
    let (b, a) = answers k in
    elim (Bool-cases b) [
      | inl y ↦
          let yes : allow k ≡ some true = a ∙ ap some y in
          (k ∷ xs, rw (yes, e) refl, λ j i. elim i [ inl z ↦ ap allow z ∙ yes | inr r ↦ all j r ])
      | inr n ↦ let no : allow k ≡ some false = a ∙ ap some n in (xs, rw (no, e) refl, all)
    ]

module _ {Q V J I T R : Type 0} (s : Searchers Q V I T R) where
  -- The searches of the two indexes of a collection succeed where `allow` raises for no key, and give
  -- only keys that are allowed.
  pub record Respects (c : Collection V J I T) : Type 0 where
    pub vectors :
        (q : V) (n ef : ℕ) (allow : ℕ → Option Bool)
        → Answers allow
        → Found allow (s.search_vectors c.index q n ef allow)
    pub texts :
        (b : T) (t : String) (n : ℕ) (allow : ℕ → Option Bool)
        → c.texts ≡ some b
        → Answers allow
        → Found allow (s.search_texts b t n allow)

  -- A hit is a version that is visible at a sequence number and that the filter accepts.
  pub record Shows (c : Collection V J I T) (snap : ℕ) (filt : QueryFilter J) (h : Hit R V J)
      : Type 0 where
    pub key : ℕ
    pub version : Version J
    pub there : get c.versions key ≡ some version
    pub visible : visible_at version snap ≡ true
    pub accepted : filt.predicate version.metadata ≡ some true
    pub same_id : h.id ≡ version.doc_id
    pub same_metadata : h.metadata ≡ version.metadata
    pub same_text : h.text ≡ version.text

  module _ (less : R → R → Bool) (arrange : ℕ → List (R × ℕ) → List (R × ℕ))
      (partition : IsPartition less arrange) (c : Collection V J I T) (respects : Respects c) where
    dense_stage-Keys :
        (p : PlannedQuery) (q : Option V) (allow : ℕ → Option Bool)
        → Answers allow
        → (r : List (ℕ × R) × ℕ) × (dense_stage s less arrange p q allow c ≡ some r)
          × Keys (λ j. allow j ≡ some true) r.0
    unfolding dense_stage live_keys
    dense_stage-Keys p none allow answers = (([], 0), refl, tt)
    dense_stage-Keys p (some q) allow answers = elim (Bool-cases (scans p)) [
      | inl y ↦
          let (ks, e, all) = keep_allowed-Answers allow (keys c.versions) answers in
          let dist : ℕ → R = s.exact_distance c.index q in
          (
            (map (λ x. (x.1, x.0)) (exact_scan less arrange dist p.fetch_k ks), length ks),
            rw (y, e) refl,
            turned-Keys (λ j. allow j ≡ some true) (exact_scan less arrange dist p.fetch_k ks)
                (λ j i. all j (exact_scan-inside less arrange partition dist p.fetch_k ks j i)),
          )
      | inr y ↦
          let (xs, e, all) = respects.vectors q p.fetch_k p.ef allow answers in
          ((xs, p.ef), rw (y, e) refl, all)
    ]

    lexical_stage-Keys :
        (p : PlannedQuery) (text : Option String) (allow : ℕ → Option Bool)
        → Answers allow
        → Found allow (lexical_stage s p text allow c)
    unfolding lexical_stage
    lexical_stage-Keys p none allow answers = ([], refl, tt)
    lexical_stage-Keys p (some t) allow answers = elim (Option-cases c.texts) [
      | inl none_there ↦ rw (none_there, lexical_stage) ([], refl, tt)
      | inr (b, there) ↦ elim (Bool-cases (t == "")) [
        | inl y ↦ rw (there, lexical_stage) (rw y ([], refl, tt))
        | inr y ↦
            rw (there, lexical_stage) (rw y (respects.texts b t p.fetch_k allow there answers))
      ]
    ]

    allow_at-Answers :
        (snap : ℕ) (filt : QueryFilter J) → Judges c snap filt → Answers (allow_at c snap filt)
    unfolding allow_at
    allow_at-Answers snap filt judges k = elim (Option-cases (get c.versions k)) [
      | inl gone ↦ (false, rw (gone, allow_at) refl)
      | inr (v, there) ↦ elim (Bool-cases (visible_at v snap)) [
        | inl y ↦ let (b, e) = judges k v there y in (b, rw (there, allow_at) (rw y e))
        | inr n ↦ (false, rw (there, allow_at) (rw n refl))
      ]
    ]

    allowed-version :
        (snap : ℕ) (filt : QueryFilter J) (key : ℕ)
        → allow_at c snap filt key ≡ some true
        → (v : Version J) × (get c.versions key ≡ some v)
          × (visible_at v snap ≡ true)
          × (filt.predicate v.metadata ≡ some true)
    unfolding allow_at
    allowed-version snap filt key h = elim (Option-cases (get c.versions key)) [
      | inl gone ↦ let never : some false ≡ some true = rw (gone, allow_at) at h in absurd (cc)
      | inr (v, there) ↦ elim (Bool-cases (visible_at v snap)) [
        | inl y ↦ (v, there, y, rw (there, allow_at, y) at h)
        | inr n ↦ let never : some false ≡ some true = rw (there, allow_at, n) at h in absurd (cc)
      ]
    ]

    -- The hits of pairs with allowed keys.
    record AreShown (snap : ℕ) (filt : QueryFilter J) (xs : List (ℕ × R))
        (result : Option (List (Hit R V J))) : Type 0 where
      hits : List (Hit R V J)
      given : result ≡ some hits
      as_many : length hits ≡ length xs
      shown : All (Shows c snap filt) hits

    to_hits-AreShown :
        (snap : ℕ) (filt : QueryFilter J) (include_vector : Bool) (xs : List (ℕ × R))
        → Keys (λ j. allow_at c snap filt j ≡ some true) xs
        → AreShown snap filt xs (to_hits s include_vector c xs)
    unfolding to_hits to_hit
    to_hits-AreShown snap filt include_vector [] h = record {
      hits = [];
      given = refl;
      as_many = refl;
      shown = tt;
    }
    to_hits-AreShown snap filt include_vector (x ∷ xs) h =
        let (v, there, seen, fits) = allowed-version snap filt x.0 h.0 in
        let rest = to_hits-AreShown snap filt include_vector xs h.1 in
        let hit : Hit R V J = record {
          id = v.doc_id;
          score = x.1;
          metadata = v.metadata;
          text = v.text;
          vector = if include_vector then some (s.vector_at c.index x.0) else none;
        } in
        record {
          hits = hit ∷ rest.hits;
          given = rw (there, rest.given) refl;
          as_many = ap suc rest.as_many;
          shown = (
            record {
              key = x.0;
              version = v;
              there = there;
              visible = seen;
              accepted = fits;
              same_id = refl;
              same_metadata = refl;
              same_text = refl;
            },
            rest.shown,
          );
        }

    -- A search with a vector that can be prepared, or none, two weights, and at least one hit asked for,
    -- whose filter raises for no version that is visible at the snapshot, or now without one, and whose
    -- fusion divides by zero at no rank, where the two indexes give only keys that are allowed, succeeds,
    -- with no more hits than asked for, each of them a version of a document that is visible then and
    -- whose metadata the filter accepts.
    pub search_collection-Shows :
        (fl : Floats R) (negate : R → R) (cf : CostFloats R) (planner : QueryPlanner R)
        (metric : Metric) (index_kind : String) (default_ef : ℕ) (r : SearchRequest Q J R)
        (q : Option V)
        → prepared s.prepare_query r.vector ≡ some q
        → length r.weights ≡ 2
        → 0 < r.k
        → Judges c (or_seq r.snapshot c.store.seq) r.filt
        → Divides fl r.rrf_k
        → (hits : List (Hit R V J)) × (scanned : ℕ) × (search_collection s less arrange fl negate cf
              planner metric index_kind default_ef r c
            ≡ some (hits, scanned))
          × (length hits ≤ r.k)
          × All (Shows c (or_seq r.snapshot c.store.seq) r.filt) hits
    unfolding search_collection
    search_collection-Shows fl negate cf planner metric index_kind default_ef r q ready weights pos
          judges divides =
        let snap : ℕ = or_seq r.snapshot c.store.seq in
        let allow : ℕ → Option Bool = allow_at c snap r.filt in
        let answers = allow_at-Answers snap r.filt judges in
        let p : PlannedQuery =
          planned s less arrange fl negate cf planner metric index_kind default_ef r c in
        let (dense, found, near) = dense_stage-Keys p q allow answers in
        let (lexical, matched, apt) = lexical_stage-Keys p r.text allow answers in
        let m =
          merge-IsRanked fl (λ j. allow j ≡ some true) negate metric (is_lexical p.strategy) r.rrf_k
            divides r.weights r.k dense.0 lexical weights pos near apt in
        let t = to_hits-AreShown snap r.filt r.include_vectors m.pairs m.all in
        (
          t.hits,
          dense.1,
          rw (ready, found, matched, m.given, t.given) refl,
          omega (arith, t.as_many, m.at_most),
          t.shown,
        )
