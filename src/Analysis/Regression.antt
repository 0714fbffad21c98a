-- ===== src/Analysis/Regression.antt =====
-- Endpoint-level comparison and regressions: sidecar-go/analysis/regression.go, and `Round` of
-- comparator.go.
use duckdb_load_testing_tool.Prelude.{String, none, some, List, [], ◌∷◌, ◌++◌, Bool, if◌then◌else◌}
use duckdb_load_testing_tool.Prelude.Dict.{Dict, lookup}
use duckdb_load_testing_tool.Prelude.Result.{Result, ok, wrap, ◌>>=◌}
use duckdb_load_testing_tool.Prelude.Int.{ℤ, pos}
use duckdb_load_testing_tool.Float.{Float64, nought, gt}
use duckdb_load_testing_tool.Analysis.Database.{Database}
use duckdb_load_testing_tool.Analysis.Endpoint.{EndpointStats, get_endpoint_stats, by_endpoint}
use duckdb_load_testing_tool.Analysis.Comparator.{Thresholds, severity}

pub record RegressionFinding (F : Type 0) : Type 0 where
  pub metric : String
  pub scope : String
  pub baseline : F
  pub current : F
  pub change_percent : F
  pub severity : String

pub record EndpointComparison (F : Type 0) : Type 0 where
  pub endpoint : String
  pub baseline : EndpointStats F
  pub current : EndpointStats F
  pub p50_delta_ms : F
  pub p50_change_pct : F
  pub p95_delta_ms : F
  pub p95_change_pct : F
  pub p99_delta_ms : F
  pub p99_change_pct : F
  pub error_rate_delta : F

module _ {F : Type 0} ⦃d : Float64 F⦄ where
  open d use {lit, sub, mul, div, feq, of_int, round, pow}

  -- Round
  unfoldable pub round_to : F → ℤ → F
  round_to val precision =
      let ratio = pow (lit 10 0) (of_int precision) in div (round (mul val ratio)) ratio

  -- percentChange
  unfoldable pub change_percent_of : F → F → F
  change_percent_of baseline current =
      if feq baseline nought then nought else mul (div (sub current baseline) baseline) (lit 100 0)

  -- The comparison of one endpoint in `CompareEndpoints`.
  unfoldable pub comparison : EndpointStats F → EndpointStats F → EndpointComparison F
  unfolding change_percent_of
  comparison base cur = record {
    endpoint = cur.endpoint;
    baseline = base;
    current = cur;
    p50_delta_ms = sub cur.p50_rtt base.p50_rtt;
    p50_change_pct = change_percent_of base.p50_rtt cur.p50_rtt;
    p95_delta_ms = sub cur.p95_rtt base.p95_rtt;
    p95_change_pct = change_percent_of base.p95_rtt cur.p95_rtt;
    p99_delta_ms = sub cur.p99_rtt base.p99_rtt;
    p99_change_pct = change_percent_of base.p99_rtt cur.p99_rtt;
    error_rate_delta = sub cur.error_rate base.error_rate;
  }

  -- The loop of `CompareEndpoints`.
  unfoldable pub comparisons :
      Dict (EndpointStats F) → List (EndpointStats F) → List (EndpointComparison F)
  unfolding comparison
  comparisons base [] = []
  comparisons base (cur ∷ rest) =
      let others = comparisons base rest in
      elim (lookup cur.endpoint base) [ none ↦ others | some b ↦ comparison b cur ∷ others ]

  -- CompareEndpoints
  unfoldable pub compare_endpoints :
      Database F → String → String → Result (List (EndpointComparison F))
  unfolding comparisons
  compare_endpoints db baseline_run_id current_run_id = do
    baseline ← wrap "endpoint comparison: baseline: %w" [] (get_endpoint_stats db baseline_run_id)
    current ← wrap "endpoint comparison: current: %w" [] (get_endpoint_stats db current_run_id)
    ok (comparisons (by_endpoint baseline) current)

  -- The two tests of an endpoint, which `Explain` repeats.
  abbrev pub regressed_latency : Thresholds F → EndpointComparison F → Bool
  regressed_latency t c = gt c.p95_change_pct t.p95_rtt_increase_percent

  abbrev pub regressed_errors : Thresholds F → EndpointComparison F → Bool
  regressed_errors t c = gt c.current.error_rate t.error_rate_absolute_max

  abbrev two_places : F → F
  two_places v = round_to v (pos 2)

  abbrev latency_regression : Thresholds F → EndpointComparison F → RegressionFinding F
  latency_regression t c = record {
    metric = "p95_rtt";
    scope = c.endpoint;
    baseline = two_places c.baseline.p95_rtt;
    current = two_places c.current.p95_rtt;
    change_percent = two_places c.p95_change_pct;
    severity = severity c.p95_change_pct t.p95_rtt_increase_percent;
  }

  abbrev error_rate_regression : EndpointComparison F → RegressionFinding F
  error_rate_regression c = record {
    metric = "error_rate";
    scope = c.endpoint;
    baseline = two_places c.baseline.error_rate;
    current = two_places c.current.error_rate;
    change_percent = two_places (change_percent_of c.baseline.error_rate c.current.error_rate);
    severity = "critical";
  }

  -- The findings of one endpoint, and the loop of `DetectEndpointRegressions`.
  unfoldable pub regressions_of : Thresholds F → EndpointComparison F → List (RegressionFinding F)
  unfolding severity round_to change_percent_of
  regressions_of t c =
      (if regressed_latency t c then latency_regression t c ∷ [] else [])
      ++ (if regressed_errors t c then error_rate_regression c ∷ [] else [])

  unfoldable pub detect_each :
      Thresholds F → List (EndpointComparison F) → List (RegressionFinding F)
  unfolding regressions_of
  detect_each t [] = []
  detect_each t (c ∷ rest) = regressions_of t c ++ detect_each t rest

  -- DetectEndpointRegressions
  unfoldable pub detect_endpoint_regressions :
      Thresholds F → Database F → String → String → Result (List (RegressionFinding F))
  unfolding compare_endpoints detect_each
  detect_endpoint_regressions t db baseline_run_id current_run_id = do
    found ← compare_endpoints db baseline_run_id current_run_id
    ok (detect_each t found)
