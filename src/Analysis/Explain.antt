-- ===== src/Analysis/Explain.antt =====
-- The explanation of a regression: sidecar-go/analysis/explain.go.
pub mod Agreement
use duckdb_load_testing_tool.Prelude.{
  String, Option, none, some, List, [], ◌∷◌, ◌++◌, Bool, true, not, ◌&&◌, ◌||◌, str_eq, length,
  if◌then◌else◌,
}
use duckdb_load_testing_tool.Prelude.Int.{ℤ, pos}
use duckdb_load_testing_tool.Prelude.Dict.{Dict, lookup, insert}
use duckdb_load_testing_tool.Prelude.Result.{
  Error, Result, ok, err, wrapped, wrap, check, ◌>>=◌, ◌>>◌,
}
use duckdb_load_testing_tool.Float.{Float64, nought, gt}
use duckdb_load_testing_tool.Analysis.Database.{Database, Cursor, PodRow, for_rows}
use duckdb_load_testing_tool.Analysis.Comparator.{Thresholds}
use duckdb_load_testing_tool.Analysis.Bottleneck.{
  TimingChange, BottleneckEvidence, analyze_bottleneck,
}
use duckdb_load_testing_tool.Analysis.Regression.{
  EndpointComparison, compare_endpoints, regressed_latency, regressed_errors, round_to,
}

pub record Explanation (F : Type 0) : Type 0 where
  pub regression_detected : Bool
  pub endpoint : String
  pub p95_baseline_ms : F
  pub p95_current_ms : F
  pub p95_change_percent : F
  pub largest_timing_change : TimingChange F
  pub affected_pods : List String
  pub error_rate_baseline : F
  pub error_rate_current : F
  pub severity : String

-- podStat
pub record PodStat (F : Type 0) : Type 0 where
  pub pod : String
  pub p95_rtt : F

module _ {F : Type 0} ⦃d : Float64 F⦄ where
  open d use {lit, add, mul, div, of_int}

  -- podOutlierMultiplier
  abbrev pod_outlier_multiplier : F
  pod_outlier_multiplier = lit 13 1

  -- The body of the row loop of `affectedPods`, over `stats` and `sum`.
  abbrev pub add_pod : String → PodRow F → List (PodStat F) × F → List (PodStat F) × F
  add_pod endpoint r (stats, sum) =
      if str_eq r.endpoint endpoint
      then (stats ++ record { pod = r.pod; p95_rtt = r.p95_rtt } ∷ [], add sum r.p95_rtt)
      else (stats, sum)

  -- The loop that selects the pods.
  unfoldable pub outliers : F → List (PodStat F) → List String
  outliers avg [] = []
  outliers avg (s ∷ rest) =
      let others = outliers avg rest in
      if gt avg nought && gt s.p95_rtt (mul avg pod_outlier_multiplier)
      then s.pod ∷ others
      else others

  unfoldable pub outliers_of : List (PodStat F) × F → List String
  unfolding outliers
  outliers_of ([], sum) = []
  outliers_of (s ∷ rest, sum) =
      let stats = s ∷ rest in outliers (div sum (of_int (pos (length stats)))) stats

  -- affectedPods
  unfoldable pub affected_pods : Database F → String → String → Result (List String)
  unfolding for_rows outliers_of
  affected_pods db run_id endpoint = do
    cursor ←
        wrap "explain: %s failed: %w" ("pod_endpoint_summary" ∷ []) (db.pod_endpoint_summary run_id)
    stats ←
        for_rows (wrapped "explain: scan pod stats failed: %w" []) (add_pod endpoint) cursor.rows
          ([], nought)
    check cursor.rows_err
    ok (outliers_of stats)

  -- `bottleneckByEndpoint`
  unfoldable pub index_bottlenecks :
      List (BottleneckEvidence F) → Dict (BottleneckEvidence F) → Dict (BottleneckEvidence F)
  index_bottlenecks [] m = m
  index_bottlenecks (b ∷ rest) m = index_bottlenecks rest (insert b.endpoint b m)

  -- `exp.LargestTimingChange`, the zero value where there is no evidence
  abbrev pub largest_change : Option (BottleneckEvidence F) → TimingChange F
  largest_change none = record { phase = ""; delta_ms = nought }
  largest_change (some b) = record {
    phase = b.largest_contributor;
    delta_ms = round_to b.largest_contributor_ms (pos 2);
  }

  abbrev pub explanation :
      Thresholds F
      → Option (BottleneckEvidence F)
      → List String
      → EndpointComparison F
      → Explanation F
  explanation t evidence pods c = record {
    regression_detected = true;
    endpoint = c.endpoint;
    p95_baseline_ms = round_to c.baseline.p95_rtt (pos 2);
    p95_current_ms = round_to c.current.p95_rtt (pos 2);
    p95_change_percent = round_to c.p95_change_pct (pos 2);
    largest_timing_change = largest_change evidence;
    affected_pods = pods;
    error_rate_baseline = round_to c.baseline.error_rate (pos 2);
    error_rate_current = round_to c.current.error_rate (pos 2);
    severity =
        if regressed_errors t c || gt c.p95_change_pct (mul t.p95_rtt_increase_percent (lit 20 1))
        then "critical"
        else "warning";
  }

  -- The loop of `Explain`. Its queries run for regressed endpoints alone.
  unfoldable pub explain_each :
      Thresholds F
      → Database F
      → String
      → Dict (BottleneckEvidence F)
      → List (EndpointComparison F)
      → Result (List (Explanation F))
  unfolding affected_pods round_to
  explain_each t db run_id evidence [] = ok []
  explain_each t db run_id evidence (c ∷ rest) =
      let others = explain_each t db run_id evidence rest in
      if not (regressed_latency t c) && not (regressed_errors t c) then others else do
        pods ← affected_pods db run_id c.endpoint
        more ← others
        ok (explanation t (lookup c.endpoint evidence) pods c ∷ more)

  -- Explain
  unfoldable pub explain :
      Thresholds F → Database F → String → String → Result (List (Explanation F))
  unfolding compare_endpoints analyze_bottleneck index_bottlenecks explain_each
  explain t db baseline_run_id current_run_id = do
    found ← compare_endpoints db baseline_run_id current_run_id
    bottlenecks ← analyze_bottleneck db baseline_run_id current_run_id
    explain_each t db current_run_id (index_bottlenecks bottlenecks []) found
