-- ===== src/Collection/Query.antt =====
-- src/annex/db.py: `Collection.search`. The filter is given compiled, as its predicate and its statistics;
-- where the predicate raises, so does a search that asks it. The time that the search takes and the explanation of the plan are left out.
-- `score_from_distance` is that of src/annex/util/math.py.
use python_pj.Prelude.{
  ℕ, Bool, true, false, not, ◌&&◌, Option, none, some, String, List, [], ◌∷◌, if◌then◌else◌,
  is_some, length, take, map, nat_eq, string_eq, ◌==◌,
}
use python_pj.Prelude.Dict.{Dict, get, keys}
use python_pj.Storage.Lsm.{◌>>=◌}
use python_pj.Mvcc.{visible_at}
use python_pj.Settings.{Metric, cosine, l2, dot, Hit}
use python_pj.Planner.{CostFloats, FilterStats, Strategy, PlannedQuery, QueryPlanner, plan}
use python_pj.Ranking.{Floats, reciprocal_rank_fusion}
use python_pj.Index.Flat.{exact_scan}
use python_pj.Collection.{Collection}

-- What a search calls of the two indexes: their own searches, the exact distance of a key, the stored
-- vector of a key; and the preparation of the query. The keys that are allowed are given by a function
-- that gives none where it raises; a search that meets this raises, too.
pub record Searchers (Q V I T R : Type 0) : Type 0 where
  pub prepare_query : Q → Option V
  pub search_vectors : I → V → ℕ → ℕ → (ℕ → Option Bool) → Option (List (ℕ × R))
  pub search_texts : T → String → ℕ → (ℕ → Option Bool) → Option (List (ℕ × R))
  pub exact_distance : I → V → ℕ → R
  pub vector_at : I → ℕ → V

-- A compiled filter; the predicate gives none where it raises.
pub record QueryFilter (J : Type 0) : Type 0 where
  pub predicate : Dict String J → Option Bool
  pub stats : FilterStats

-- The arguments of a search. `snapshot` is the sequence number of the snapshot, if there is one.
pub record SearchRequest (Q J R : Type 0) : Type 0 where
  pub vector : Option Q
  pub text : Option String
  pub k : ℕ
  pub filt : QueryFilter J
  pub ef : Option ℕ
  pub snapshot : Option ℕ
  pub rrf_k : R
  pub weights : List R
  pub oversample : R
  pub include_vectors : Bool

abbrev pub or_seq : Option ℕ → ℕ → ℕ
or_seq none seq = seq
or_seq (some s) seq = s

-- `bool(text)`
abbrev pub has_words : Option String → Bool
has_words none = false
has_words (some t) = not (t == "")

-- `(k for k in … if allow(k))`, where `allow` may raise
unfoldable pub keep_allowed : (ℕ → Option Bool) → List ℕ → Option (List ℕ)
keep_allowed allow [] = some []
keep_allowed allow (k ∷ ks) = do
  b ← allow k
  rest ← keep_allowed allow ks
  some (if b then k ∷ rest else rest)

module _ {V J I T : Type 0} where
  -- `_visibility`
  unfoldable pub allow_at : Collection V J I T → ℕ → QueryFilter J → ℕ → Option Bool
  allow_at c snap filt key = elim (get c.versions key) [
    | none ↦ some false
    | some v ↦ if visible_at v snap then filt.predicate v.metadata else some false
  ]

  unfoldable pub live_keys : Collection V J I T → (ℕ → Option Bool) → Option (List ℕ)
  unfolding keep_allowed
  live_keys c allow = keep_allowed allow (keys c.versions)

module _ {R : Type 0} (fl : Floats R) (negate : R → R) where
  unfoldable pub score_from_distance : Metric → R → R
  score_from_distance cosine d = fl.minus (fl.of_int 1) d
  score_from_distance l2 d = negate d
  score_from_distance dot d = negate d

  abbrev pub scored : Metric → List (ℕ × R) → List (ℕ × R)
  scored metric xs = map (λ x. (x.0, score_from_distance metric x.1)) xs

  -- `_merge`
  unfoldable pub merge :
      Metric → Bool → R → List R → ℕ → List (ℕ × R) → List (ℕ × R) → Option (List (ℕ × R))
  unfolding score_from_distance reciprocal_rank_fusion
  merge metric only_lexical rrf_k weights k dense [] =
      if only_lexical then some [] else some (scored metric (take k dense))
  merge metric only_lexical rrf_k weights k [] (l ∷ lexical) = some (take k (l ∷ lexical))
  merge metric only_lexical rrf_k weights k (d ∷ dense) (l ∷ lexical) =
      if only_lexical
      then some (take k (l ∷ lexical))
      else reciprocal_rank_fusion fl weights rrf_k (some k) ((d ∷ dense) ∷ (l ∷ lexical) ∷ [])

abbrev pub is_lexical : Strategy → Bool
is_lexical Strategy.lexical_only = true
is_lexical _ = false

abbrev is_scan : Option Strategy → Bool
is_scan (some Strategy.exact_scan) = true
is_scan _ = false

-- the strategy, or the stage of the vectors in a hybrid query, is the scan
abbrev pub scans : PlannedQuery → Bool
scans p = elim p.strategy [
  | Strategy.exact_scan ↦ true
  | Strategy.hybrid ↦ is_scan p.vector_stage
  | _ ↦ false
]

-- `self._prepare(vector)`, if there is a vector
abbrev pub prepared : {Q V : Type 0} → (Q → Option V) → Option Q → Option (Option V)
prepared prepare none = some none
prepared prepare (some v) = prepare v >>= λ q. some (some q)

module _ {Q V J I T R : Type 0} (s : Searchers Q V I T R) where
  unfoldable pub lexical_stage :
      PlannedQuery → Option String → (ℕ → Option Bool) → Collection V J I T → Option (List (ℕ × R))
  lexical_stage p text allow c = elim text [
    | none ↦ some []
    | some t ↦ elim c.texts [
      | none ↦ some []
      | some b ↦ if t == "" then some [] else s.search_texts b t p.fetch_k allow
    ]
  ]

  -- `_to_hit`: none for a key that has no version
  unfoldable pub to_hit : Bool → Collection V J I T → ℕ × R → Option (Hit R V J)
  to_hit include_vector c (key, score) = do
    v ← get c.versions key
    some (record {
      id = v.doc_id;
      score = score;
      metadata = v.metadata;
      text = v.text;
      vector = if include_vector then some (s.vector_at c.index key) else none;
    })

  unfoldable pub to_hits : Bool → Collection V J I T → List (ℕ × R) → Option (List (Hit R V J))
  unfolding to_hit
  to_hits include_vector c [] = some []
  to_hits include_vector c (x ∷ xs) = do
    h ← to_hit include_vector c x
    hs ← to_hits include_vector c xs
    some (h ∷ hs)

module _ {Q V J I T R : Type 0} (s : Searchers Q V I T R) (less : R → R → Bool)
    (arrange : ℕ → List (R × ℕ) → List (R × ℕ)) where
  -- the keys of the dense stage with their distances, and how many were scanned
  unfoldable pub dense_stage :
      PlannedQuery → Option V → (ℕ → Option Bool) → Collection V J I T → Option (List (ℕ × R) × ℕ)
  unfolding exact_scan live_keys
  dense_stage p none allow c = some ([], 0)
  dense_stage p (some q) allow c =
      if scans p
      then (live_keys c allow >>= λ ks. some (
        map (λ x. (x.1, x.0)) (exact_scan less arrange (s.exact_distance c.index q) p.fetch_k ks),
        length ks,
      ))
      else (s.search_vectors c.index q p.fetch_k p.ef allow >>= λ found. some (found, p.ef))

  module _ (fl : Floats R) (negate : R → R) (cf : CostFloats R) (planner : QueryPlanner R)
      (metric : Metric) (index_kind : String) (default_ef : ℕ) where
    abbrev pub planned : SearchRequest Q J R → Collection V J I T → PlannedQuery
    planned r c = plan cf planner (record {
      k = r.k;
      live = length c.current;
      filt = r.filt.stats;
      has_vector = is_some r.vector;
      has_text = has_words r.text && is_some c.texts;
      ef = r.ef;
      default_ef = default_ef;
      index_kind = index_kind;
      oversample = r.oversample;
    })

    -- the hits, and how many candidates were scanned
    unfoldable pub search_collection :
        SearchRequest Q J R → Collection V J I T → Option (List (Hit R V J) × ℕ)
    unfolding allow_at plan dense_stage lexical_stage merge to_hits
    search_collection r c = do
      let snap = or_seq r.snapshot c.store.seq
      let allow = allow_at c snap r.filt
      let p = planned r c
      q ← prepared s.prepare_query r.vector
      dense ← dense_stage p q allow c
      lexical ← lexical_stage s p r.text allow c
      ranked ← merge fl negate metric (is_lexical p.strategy) r.rrf_k r.weights r.k dense.0 lexical
      hits ← to_hits s r.include_vectors c ranked
      some (hits, dense.1)
