-- ===== src/Gate/Evaluation.antt =====
-- `Evaluate`: every check of every endpoint of the current run, and the endpoints that only one of
-- the two runs has.
use duckdb_load_testing_tool.Prelude.{
  String, Option, none, some, List, [], ◌∷◌, ◌++◌, Bool, false, not, ◌&&◌, ◌||◌, str_eq,
  if◌then◌else◌, is_some,
}
use duckdb_load_testing_tool.Prelude.Int.{ltb_ℤ}
use duckdb_load_testing_tool.Prelude.Text.{string_lt}
use duckdb_load_testing_tool.Prelude.Dict.{Dict, lookup}
use duckdb_load_testing_tool.Prelude.Sorting.{sort_by}
use duckdb_load_testing_tool.Float.{Float64}
use duckdb_load_testing_tool.Policy.{
  MetricPolicy, Policy, effective_metric_policy, min_samples_or_default,
}
use duckdb_load_testing_tool.Analysis.Endpoint.{EndpointStats, by_endpoint}
use duckdb_load_testing_tool.Analysis.Bottleneck.{TimingChange, timing_delta}
use duckdb_load_testing_tool.Gate.Types.{Finding, GateResult, Sample}
use duckdb_load_testing_tool.Gate.Checks.{check_endpoint}
use duckdb_load_testing_tool.Gate.Build.{build}

-- The map `baselineByEndpoint`, nil where no baseline was given.
abbrev pub Baseline : Type 0 → Type 0
Baseline F = Option (Dict (EndpointStats F))

module _ {F : Type 0} ⦃d : Float64 F⦄ where
  -- `base`, the endpoint's statistics in the baseline run
  abbrev pub base_of : String → Baseline F → Option (EndpointStats F)
  base_of endpoint none = none
  base_of endpoint (some m) = lookup endpoint m

  abbrev pub too_few : EndpointStats F → MetricPolicy F → Bool
  too_few s mp = ltb_ℤ s.request_count (min_samples_or_default mp)

  -- base != nil && base.RequestCount < int64(minSamples)
  abbrev pub too_few_baseline : Option (EndpointStats F) → MetricPolicy F → Bool
  too_few_baseline none mp = false
  too_few_baseline (some b) mp = too_few b mp

  -- The variable `timingChange` of `Evaluate`.
  abbrev pub timing_change_of :
      EndpointStats F → Option (EndpointStats F) → Bool → Option (TimingChange F)
  timing_change_of cur none few = none
  timing_change_of cur (some b) few =
      let evidence = timing_delta b cur in
      if few
      then none
      else some (record {
        phase = evidence.largest_contributor;
        delta_ms = evidence.largest_contributor_ms;
      })

  -- The first half of the loop body of `Evaluate`.
  unfoldable pub sample_of : MetricPolicy F → Baseline F → EndpointStats F → Sample F
  unfolding min_samples_or_default timing_delta
  sample_of mp baseline cur =
      let base = base_of cur.endpoint baseline in
      let few = too_few cur mp in
      let few_baseline = too_few_baseline base mp in
      record {
        cur = cur;
        base = base;
        baseline_missing = is_some baseline && not (is_some base);
        insufficient_current = few;
        insufficient_baseline = few_baseline;
        timing_change = timing_change_of cur base (few || few_baseline);
      }

  -- The findings of one round of the loop.
  unfoldable pub findings_of : Policy F → Baseline F → EndpointStats F → List (Finding F)
  unfolding sample_of check_endpoint effective_metric_policy
  findings_of pol baseline cur =
      let mp = effective_metric_policy pol cur.endpoint in
      check_endpoint mp (sample_of mp baseline cur)

  -- The loop of `Evaluate`, as far as the findings go.
  unfoldable pub all_findings : Policy F → Baseline F → List (EndpointStats F) → List (Finding F)
  unfolding findings_of
  all_findings pol baseline [] = []
  all_findings pol baseline (cur ∷ rest) =
      findings_of pol baseline cur ++ all_findings pol baseline rest

module _ {F : Type 0} where
  -- currentEndpointSet[name]
  unfoldable pub named : String → List (EndpointStats F) → Bool
  named name [] = false
  named name (s ∷ rest) = str_eq s.endpoint name || named name rest

  -- The endpoints of the current run that the baseline lacks, in the order of the loop.
  unfoldable pub new_endpoints_of : Baseline F → List (EndpointStats F) → List String
  new_endpoints_of none current = []
  new_endpoints_of (some base) [] = []
  new_endpoints_of (some base) (cur ∷ rest) =
      let others = new_endpoints_of (some base) rest in
      elim (lookup cur.endpoint base) [ none ↦ cur.endpoint ∷ others | some b ↦ others ]

  -- The loop over the keys of `baselineByEndpoint`.
  unfoldable pub absent_keys : List (EndpointStats F) → Dict (EndpointStats F) → List String
  unfolding named
  absent_keys current [] = []
  absent_keys current ((name, s) ∷ rest) =
      let others = absent_keys current rest in if named name current then others else name ∷ others

  unfoldable pub removed_endpoints_of : Baseline F → List (EndpointStats F) → List String
  unfolding absent_keys
  removed_endpoints_of none current = []
  removed_endpoints_of (some base) current = absent_keys current base

  -- `sort.Strings` on the two lists.
  unfoldable pub new_sorted : Baseline F → List (EndpointStats F) → List String
  unfolding new_endpoints_of sort_by
  new_sorted base current = sort_by string_lt (new_endpoints_of base current)

  unfoldable pub removed_sorted : Baseline F → List (EndpointStats F) → List String
  unfolding removed_endpoints_of sort_by
  removed_sorted base current = sort_by string_lt (removed_endpoints_of base current)

module _ {F : Type 0} ⦃d : Float64 F⦄ where
  -- `baselineByEndpoint`
  abbrev pub index_baseline : Option (List (EndpointStats F)) → Baseline F
  index_baseline none = none
  index_baseline (some stats) = some (by_endpoint stats)

  -- Evaluate; `none` is the nil baseline
  unfoldable pub evaluate :
      List (EndpointStats F) → Option (List (EndpointStats F)) → Policy F → GateResult F
  unfolding all_findings build new_sorted removed_sorted by_endpoint
  evaluate current baseline pol =
      let base = index_baseline baseline in
      build pol (all_findings pol base current) (new_sorted base current)
        (removed_sorted base current)
