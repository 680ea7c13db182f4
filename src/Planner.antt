-- ===== src/Planner.antt =====
-- src/annex/query/planner.py, with the statistics of src/annex/query/filter.py, over the operations of
-- Python's floats, which are a parameter. Of the explanation only the stage of the vectors is kept.
use python_pj.Prelude.{
  ℕ, zero, suc, ◌-◌, max, Bool, not, ◌&&◌, ◌||◌, Option, none, some, String, if◌then◌else◌, leb,
  eqb, ◌==◌, string_eq,
}

-- `decimal n d` is the literal with the digits n, of which d are after the point; `below x y` is
-- `x <= y`; `ceil` is `int(math.ceil(x))`.
pub record CostFloats (R : Type 0) : Type 0 where
  pub of_int : ℕ → R
  pub decimal : ℕ → ℕ → R
  pub times : R → R → R
  pub over : R → R → R
  pub power : R → ℕ → R
  pub log2 : R → R
  pub larger : R → R → R
  pub smaller : R → R → R
  pub below : R → R → Bool
  pub ceil : R → ℕ

-- how many fields are compared for equality, and how many clauses there are
pub record FilterStats : Type 0 where
  pub equality_fields : ℕ
  pub clauses : ℕ

abbrev pub is_trivial : FilterStats → Bool
is_trivial f = eqb f.clauses 0

pub data Strategy : Type 0 where
  exact_scan ann_graph hybrid lexical_only : Strategy

pub record PlannedQuery : Type 0 where
  pub strategy : Strategy
  pub k : ℕ
  pub ef : ℕ
  pub fetch_k : ℕ
  pub use_filter : Bool
  pub vector_stage : Option Strategy

-- what `plan` is called with
pub record PlanRequest (R : Type 0) : Type 0 where
  pub k : ℕ
  pub live : ℕ
  pub filt : FilterStats
  pub has_vector : Bool
  pub has_text : Bool
  pub ef : Option ℕ
  pub default_ef : ℕ
  pub index_kind : String
  pub oversample : R

pub record QueryPlanner (R : Type 0) : Type 0 where
  pub small_collection_threshold : ℕ
  pub graph_factor : R
  pub scan_speedup : R

-- `ef or default_ef`
abbrev ef_or : Option ℕ → ℕ → ℕ
ef_or none d = d
ef_or (some zero) d = d
ef_or (some (suc n)) d = suc n

module _ {R : Type 0} (fl : CostFloats R) where
  unfoldable pub estimated_selectivity : FilterStats → R
  estimated_selectivity f =
      let other = f.clauses - f.equality_fields in
      fl.larger (fl.decimal 1 3) (
        fl.smaller (fl.of_int 1) (
          fl.times (fl.power (fl.decimal 1 1) f.equality_fields)
            (fl.power (fl.decimal 33 2) other)))

module _ {R : Type 0} (fl : CostFloats R) (p : QueryPlanner R) (r : PlanRequest R) where
  abbrev pub ef_eff : ℕ
  ef_eff = max (ef_or r.ef r.default_ef) r.k

  abbrev pub fetch_k_of : ℕ
  fetch_k_of = max r.k (fl.ceil (fl.times (fl.of_int r.k) r.oversample))

  unfoldable pub scan_cost : R
  unfolding estimated_selectivity
  scan_cost =
      fl.over
        (fl.larger (fl.of_int 1) (fl.times (fl.of_int r.live) (estimated_selectivity fl r.filt)))
        p.scan_speedup

  unfoldable pub graph_cost : R
  unfolding estimated_selectivity
  graph_cost =
      let cost =
        fl.times (fl.times p.graph_factor (fl.of_int ef_eff))
          (fl.log2 (fl.of_int (max r.live 2))) in
      if is_trivial r.filt
      then cost
      else fl.over cost (fl.larger (estimated_selectivity fl r.filt) (fl.decimal 2 2))

  unfoldable pub chooses_scan : Bool
  unfolding scan_cost graph_cost
  chooses_scan =
      r.index_kind == "flat"
      || (leb r.live p.small_collection_threshold || fl.below scan_cost graph_cost)

  unfoldable pub plan : PlannedQuery
  unfolding chooses_scan
  plan =
      if not r.has_vector && r.has_text
      then record {
        strategy = lexical_only;
        k = r.k;
        ef = 0;
        fetch_k = r.k;
        use_filter = not (is_trivial r.filt);
        vector_stage = none;
      }
      else if r.has_text
      then record {
        strategy = hybrid;
        k = r.k;
        ef = ef_eff;
        fetch_k = fetch_k_of;
        use_filter = not (is_trivial r.filt);
        vector_stage = some (if chooses_scan then exact_scan else ann_graph);
      }
      else if chooses_scan
      then record {
        strategy = exact_scan;
        k = r.k;
        ef = 0;
        fetch_k = fetch_k_of;
        use_filter = not (is_trivial r.filt);
        vector_stage = none;
      }
      else record {
        strategy = ann_graph;
        k = r.k;
        ef = ef_eff;
        fetch_k = fetch_k_of;
        use_filter = not (is_trivial r.filt);
        vector_stage = none;
      }
