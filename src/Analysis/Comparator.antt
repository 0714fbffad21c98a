-- ===== src/Analysis/Comparator.antt =====
-- Runs and their comparison: sidecar-go/analysis/comparator.go.
pub mod Verdict
pub mod Baseline
use duckdb_load_testing_tool.Prelude.{
  String, Option, none, some, List, [], ◌∷◌, ◌++◌, Bool, true, false, not, ◌&&◌, str_eq,
  if◌then◌else◌, length,
}
use duckdb_load_testing_tool.Prelude.Int.{ℤ, pos, ltb_ℤ, ◌+ℤ◌, ◌-ℤ◌}
use duckdb_load_testing_tool.Prelude.Result.{
  Error, Result, ok, err, message, wrapped, wrap, check, ◌>>=◌, ◌>>◌,
}
use duckdb_load_testing_tool.Float.{Float64, nought, gt}
use duckdb_load_testing_tool.Analysis.Database.{Database, RunRow, Cursor, for_rows}

pub record RunStats (F : Type 0) : Type 0 where
  pub run_id : String
  pub total_requests : ℤ
  pub error_count : ℤ
  pub error_rate : F
  pub avg_rtt : F
  pub p50_rtt : F
  pub p95_rtt : F
  pub p99_rtt : F
  pub min_rtt : F
  pub max_rtt : F
  pub rps : F
  pub duration_seconds : F

pub record Regression (F : Type 0) : Type 0 where
  pub metric : String
  pub baseline_value : F
  pub current_value : F
  pub change_percent : F
  pub threshold : F
  pub severity : String

pub record ComparisonResult (F : Type 0) : Type 0 where
  pub baseline : RunStats F
  pub current : RunStats F
  pub regressions : List (Regression F)
  pub is_passing : Bool

pub record Thresholds (F : Type 0) : Type 0 where
  pub p50_rtt_increase_percent : F
  pub p95_rtt_increase_percent : F
  pub p99_rtt_increase_percent : F
  pub error_rate_increase_percent : F
  pub error_rate_absolute_max : F
  pub rps_decrease_percent : F

module _ {F : Type 0} ⦃d : Float64 F⦄ where
  open d use {lit, add, sub, mul, div, neg, feq, of_int, round, pow}

  -- DefaultThresholds
  unfoldable pub default_thresholds : Thresholds F
  default_thresholds = record {
    p50_rtt_increase_percent = lit 100 1;
    p95_rtt_increase_percent = lit 150 1;
    p99_rtt_increase_percent = lit 200 1;
    error_rate_increase_percent = lit 500 1;
    error_rate_absolute_max = lit 50 1;
    rps_decrease_percent = lit 100 1;
  }

  -- float64(n) / float64(m) * 100
  abbrev percentage : ℤ → ℤ → F
  percentage n m = mul (div (of_int n) (of_int m)) (lit 100 0)

  -- The row that the query gives, with the derived metrics of `GetRunStats` and `GetHistoricalTrend`.
  unfoldable pub run_stats : String → RunRow F → RunStats F
  run_stats run_id r =
      let duration = div (of_int (r.end_ts -ℤ r.start_ts)) (lit 10000 1) in
      record {
        run_id = run_id;
        total_requests = r.total_requests;
        error_count = r.error_count;
        error_rate =
            if ltb_ℤ (pos 0) r.total_requests
            then percentage r.error_count r.total_requests
            else nought;
        avg_rtt = r.avg_rtt;
        p50_rtt = r.p50_rtt;
        p95_rtt = r.p95_rtt;
        p99_rtt = r.p99_rtt;
        min_rtt = r.min_rtt;
        max_rtt = r.max_rtt;
        rps = if gt duration nought then div (of_int r.total_requests) duration else nought;
        duration_seconds = duration;
      }

  -- (*Comparator).GetRunStats
  unfoldable pub get_run_stats : Database F → String → Result (RunStats F)
  unfolding run_stats
  get_run_stats db run_id = do
    row ← wrap "failed to get run stats: %w" [] (db.run_row run_id)
    ok (run_stats run_id row)

  abbrev pub is_critical : Regression F → Bool
  is_critical r = str_eq r.severity "critical"

  -- The severity that every check of a threshold gives to a change beyond it.
  unfoldable pub severity : F → F → String
  severity change threshold = if gt change (mul threshold (lit 2 0)) then "critical" else "warning"

  -- (*Comparator).checkRegression
  unfoldable pub check_regression : String → F → F → F → Option (Regression F)
  unfolding severity
  check_regression metric baseline current threshold =
      if feq baseline nought
      then none
      else let change = mul (div (sub current baseline) baseline) (lit 100 0) in
        if gt change threshold
        then some (record {
          metric = metric;
          baseline_value = baseline;
          current_value = current;
          change_percent = change;
          threshold = threshold;
          severity = severity change threshold;
        })
        else none

  -- (*Comparator).checkRPSRegression
  unfoldable pub check_rps_regression : String → F → F → F → Option (Regression F)
  unfolding severity
  check_rps_regression metric baseline current threshold =
      if feq baseline nought
      then none
      else let change = mul (div (sub baseline current) baseline) (lit 100 0) in
        if gt change threshold
        then some (record {
          metric = metric;
          baseline_value = baseline;
          current_value = current;
          change_percent = neg change;
          threshold = threshold;
          severity = severity change threshold;
        })
        else none

  -- The check of the absolute error rate in `Compare`.
  unfoldable pub check_error_rate : F → F → F → Option (Regression F)
  check_error_rate baseline current most =
      if gt current most
      then some (record {
        metric = "ERROR_RATE_ABSOLUTE";
        baseline_value = baseline;
        current_value = current;
        change_percent = nought;
        threshold = most;
        severity = "critical";
      })
      else none

  -- The fields `Regressions` and `IsPassing` of the result, while `Compare` fills them.
  abbrev pub report_regression :
      Option (Regression F) → List (Regression F) × Bool → List (Regression F) × Bool
  report_regression none (found, passing) = (found, passing)
  report_regression (some r) (found, passing) =
      (found ++ r ∷ [], if is_critical r then false else passing)

  -- The checks of `Compare`, in their order.
  unfoldable pub checks : Thresholds F → RunStats F → RunStats F → List (Option (Regression F))
  unfolding check_regression check_error_rate check_rps_regression
  checks t base cur =
      check_regression "P50_RTT" base.p50_rtt cur.p50_rtt t.p50_rtt_increase_percent
      ∷ check_regression "P95_RTT" base.p95_rtt cur.p95_rtt t.p95_rtt_increase_percent
      ∷ check_regression "P99_RTT" base.p99_rtt cur.p99_rtt t.p99_rtt_increase_percent
      ∷ check_regression "ERROR_RATE" base.error_rate cur.error_rate t.error_rate_increase_percent
      ∷ check_error_rate base.error_rate cur.error_rate t.error_rate_absolute_max
      ∷ check_rps_regression "RPS" base.rps cur.rps t.rps_decrease_percent
      ∷ []

  unfoldable pub report_all :
      List (Option (Regression F)) → List (Regression F) × Bool → List (Regression F) × Bool
  report_all [] found = found
  report_all (c ∷ cs) found = report_all cs (report_regression c found)

  -- Compare, from the statistics of the two runs.
  unfoldable pub compare_stats : Thresholds F → RunStats F → RunStats F → ComparisonResult F
  unfolding checks report_all
  compare_stats t base cur =
      let (found, passing) = report_all (checks t base cur) ([], true) in
      record { baseline = base; current = cur; regressions = found; is_passing = passing }

  -- (*Comparator).Compare
  unfoldable pub compare : Thresholds F → Database F → String → String → Result (ComparisonResult F)
  unfolding get_run_stats compare_stats
  compare t db baseline_id current_id = do
    base ← wrap "failed to get baseline stats: %w" [] (get_run_stats db baseline_id)
    cur ← wrap "failed to get current stats: %w" [] (get_run_stats db current_id)
    ok (compare_stats t base cur)

  -- GetHistoricalTrend, which does not ask the cursor for its error
  unfoldable pub get_historical_trend : Database F → ℤ → Result (List (RunStats F))
  unfolding run_stats for_rows
  get_historical_trend db limit = do
    cursor ← wrap "failed to get historical trend: %w" [] (db.trend limit)
    for_rows (wrapped "failed to scan row: %w" []) (λ r stats. stats ++ run_stats r.run_id r ∷ [])
        cursor.rows []
