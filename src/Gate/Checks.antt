-- ===== src/Gate/Checks.antt =====
-- The checks of one endpoint: evaluateLatency, evaluateErrorRate and the loop body of `Evaluate`.
use duckdb_load_testing_tool.Prelude.{
  String, Option, none, some, List, [], ◌∷◌, ◌++◌, Bool, true, false, ◌&&◌, ◌||◌, if◌then◌else◌,
  is_some,
}
use duckdb_load_testing_tool.Float.{Float64}
use duckdb_load_testing_tool.Policy.{LatencyPolicy, ErrorRatePolicy, MetricPolicy}
use duckdb_load_testing_tool.Analysis.Endpoint.{EndpointStats}
use duckdb_load_testing_tool.Analysis.Bottleneck.{TimingChange}
use duckdb_load_testing_tool.Gate.Types.{
  budget, regression, Finding, Sample, is_pass, insufficient_samples, no_baseline_endpoint,
  insufficient_baseline,
}
use duckdb_load_testing_tool.Gate.Findings.{
  unknown_finding, budget_finding, regression_finding, error_budget_finding,
  error_regression_finding,
}

module _ {F : Type 0} where
  -- The budget half of a check, where it is configured.
  abbrev pub budget_half : Bool → Sample F → String → Finding F → List (Finding F)
  budget_half configured s metric f =
      if configured
      then (if s.insufficient_current
          then unknown_finding s.cur.endpoint metric budget insufficient_samples
          else f)
        ∷ []
      else []

  -- The `switch` of a regression check, over `baselineMissing`, `insufficientCurrent`,
  -- `insufficientBaseline` and `base`. Where the endpoint is not missing `base` is not nil, so the
  -- case `none` is not reached.
  abbrev pub regression_switch :
      Bool
      → Bool
      → Bool
      → Option (EndpointStats F)
      → (String → Finding F)
      → (EndpointStats F → Finding F)
      → List (Finding F)
  regression_switch true few few_baseline base no_result f = no_result no_baseline_endpoint ∷ []
  regression_switch false true few_baseline base no_result f = no_result insufficient_samples ∷ []
  regression_switch false false true base no_result f = no_result insufficient_baseline ∷ []
  regression_switch false false false none no_result f = []
  regression_switch false false false (some b) no_result f = f b ∷ []

  -- The regression half of a check, where it is configured and a baseline run was given.
  abbrev pub regression_half :
      Bool → Sample F → String → (EndpointStats F → Finding F) → List (Finding F)
  regression_half configured s metric f =
      if configured && (is_some s.base || s.baseline_missing)
      then regression_switch s.baseline_missing s.insufficient_current s.insufficient_baseline
          s.base (unknown_finding s.cur.endpoint metric regression) f
      else []

  -- `if f.Status != StatusPass { f.PrimaryTimingChange = timingChange }`
  abbrev pub with_timing : Option (TimingChange F) → Finding F → Finding F
  with_timing change f = if is_pass f.status then f else record f { primary_timing_change = change }

module _ {F : Type 0} ⦃d : Float64 F⦄ where
  -- The two halves of evaluateLatency, where `extract` reads the percentile that `metric` names.
  unfoldable pub latency_budget :
      String → LatencyPolicy F → (EndpointStats F → F) → Sample F → List (Finding F)
  unfolding unknown_finding budget_finding
  latency_budget metric lp extract s =
      budget_half (is_some lp.max_ms || is_some lp.warn_max_ms) s metric
        (budget_finding s.cur.endpoint metric (extract s.cur) lp)

  unfoldable pub latency_regression :
      String → LatencyPolicy F → (EndpointStats F → F) → Sample F → List (Finding F)
  unfolding unknown_finding regression_finding
  latency_regression metric lp extract s =
      regression_half (is_some lp.max_regression_percent || is_some lp.warn_regression_percent) s
        metric
        (λ b.
          with_timing s.timing_change
            (regression_finding s.cur.endpoint metric (extract b) (extract s.cur) lp))

  -- evaluateLatency
  unfoldable pub evaluate_latency :
      String → Option (LatencyPolicy F) → (EndpointStats F → F) → Sample F → List (Finding F)
  unfolding latency_budget latency_regression
  evaluate_latency metric none extract s = []
  evaluate_latency metric (some lp) extract s =
      latency_budget metric lp extract s ++ latency_regression metric lp extract s

  -- The two halves of evaluateErrorRate.
  unfoldable pub error_rate_budget : ErrorRatePolicy F → Sample F → List (Finding F)
  unfolding unknown_finding error_budget_finding
  error_rate_budget ep s =
      budget_half (is_some ep.max_absolute || is_some ep.warn_max_absolute) s "error_rate"
        (error_budget_finding s.cur.endpoint s.cur.error_rate ep)

  unfoldable pub error_rate_regression : ErrorRatePolicy F → Sample F → List (Finding F)
  unfolding unknown_finding error_regression_finding
  error_rate_regression ep s =
      regression_half (is_some ep.max_absolute_increase || is_some ep.warn_absolute_increase) s
        "error_rate" (λ b. error_regression_finding s.cur.endpoint b.error_rate s.cur.error_rate ep)

  -- evaluateErrorRate
  unfoldable pub evaluate_error_rate : Option (ErrorRatePolicy F) → Sample F → List (Finding F)
  unfolding error_rate_budget error_rate_regression
  evaluate_error_rate none s = []
  evaluate_error_rate (some ep) s = error_rate_budget ep s ++ error_rate_regression ep s

  -- The four checks of the loop body of `Evaluate`.
  unfoldable pub check_endpoint : MetricPolicy F → Sample F → List (Finding F)
  unfolding evaluate_latency evaluate_error_rate
  check_endpoint mp s =
      evaluate_latency "p50" mp.p50 (λ t. t.p50_rtt) s
      ++ (evaluate_latency "p95" mp.p95 (λ t. t.p95_rtt) s
          ++ (evaluate_latency "p99" mp.p99 (λ t. t.p99_rtt) s
              ++ evaluate_error_rate mp.error_rate s))
