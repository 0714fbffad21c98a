-- ===== src/Handlers/Analysis/Compare.antt =====
-- `HandleCompare` of sidecar-go/handlers/analysis_handlers.go.
use duckdb_load_testing_tool.Prelude.{
  String, Bool, ◌||◌, str_eq, List, map, Option, none, some, if◌then◌else◌,
}
use duckdb_load_testing_tool.Prelude.Int.{pos}
use duckdb_load_testing_tool.Prelude.Result.{Result, ok, err}
use duckdb_load_testing_tool.Float.{Float64}
use duckdb_load_testing_tool.Analysis.Comparator.{
  Thresholds, RunStats, Regression, ComparisonResult, compare,
}
use duckdb_load_testing_tool.Analysis.Regression.{round_to}
use duckdb_load_testing_tool.Handlers.Analysis.{AnalysisHandlers, Reply, refused, answered}

pub record CompareRequest (F : Type 0) : Type 0 where
  pub baseline_run_id : String
  pub current_run_id : String
  pub thresholds : Option (Thresholds F)

pub record RegressionResponse (F : Type 0) : Type 0 where
  pub metric : String
  pub baseline_value : F
  pub current_value : F
  pub change_percent : F
  pub threshold : F
  pub severity : String

pub record CompareResponse (F : Type 0) : Type 0 where
  pub is_passing : Bool
  pub baseline : RunStats F
  pub current : RunStats F
  pub regressions : List (RegressionResponse F)
  pub summary : String

-- `if req.Thresholds != nil`
abbrev pub chosen_thresholds : {F : Type 0} → Thresholds F → Option (Thresholds F) → Thresholds F
chosen_thresholds own none = own
chosen_thresholds own (some t) = t

-- The guard of the two run ids.
abbrev pub lacks_id : String → String → Bool
lacks_id baseline current = str_eq baseline "" || str_eq current ""

abbrev pub summary_of : Bool → String
summary_of passing =
    if passing
    then "No regressions detected. Performance is within acceptable thresholds."
    else "Performance regressions detected. Review the regressions list for details."

module _ {F : Type 0} ⦃d : Float64 F⦄ where
  -- One round of the loop over the regressions.
  abbrev regression_response : Regression F → RegressionResponse F
  regression_response reg = record {
    metric = reg.metric;
    baseline_value = round_to reg.baseline_value (pos 2);
    current_value = round_to reg.current_value (pos 2);
    change_percent = round_to reg.change_percent (pos 2);
    threshold = reg.threshold;
    severity = reg.severity;
  }

  abbrev compare_response : ComparisonResult F → CompareResponse F
  compare_response result = record {
    is_passing = result.is_passing;
    baseline = result.baseline;
    current = result.current;
    regressions = map regression_response result.regressions;
    summary = summary_of result.is_passing;
  }

  abbrev compare_answer : Result (ComparisonResult F) → Reply (CompareResponse F)
  compare_answer (err e) = refused 500 "comparison failed"
  compare_answer (ok result) = answered (compare_response result)

  -- HandleCompare
  unfoldable pub handle_compare :
      AnalysisHandlers F → Result (CompareRequest F) → Reply (CompareResponse F)
  handle_compare h (err e) = refused 400 "invalid request body"
  handle_compare h (ok req) =
      if lacks_id req.baseline_run_id req.current_run_id
      then refused 400 "baseline_run_id and current_run_id are required"
      else compare_answer (
          compare (chosen_thresholds h.thresholds req.thresholds) h.db req.baseline_run_id
            req.current_run_id)
