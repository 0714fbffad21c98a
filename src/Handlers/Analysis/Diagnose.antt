-- ===== src/Handlers/Analysis/Diagnose.antt =====
-- `HandleDiagnose` of sidecar-go/handlers/analysis_handlers.go.
use duckdb_load_testing_tool.Prelude.{String, List, map, Option, if◌then◌else◌}
use duckdb_load_testing_tool.Prelude.Result.{Result, ok, err}
use duckdb_load_testing_tool.Float.{Float64}
use duckdb_load_testing_tool.Analysis.Comparator.{Thresholds, default_thresholds}
use duckdb_load_testing_tool.Analysis.Regression.{RegressionFinding, detect_endpoint_regressions}
use duckdb_load_testing_tool.Analysis.Explain.{Explanation, explain}
use duckdb_load_testing_tool.Handlers.Analysis.{AnalysisHandlers, Reply, refused, answered}
use duckdb_load_testing_tool.Handlers.Analysis.Compare.{chosen_thresholds, lacks_id}

pub record DiagnoseRequest (F : Type 0) : Type 0 where
  pub baseline_run_id : String
  pub current_run_id : String
  pub thresholds : Option (Thresholds F)

pub record TimingChangeResponse (F : Type 0) : Type 0 where
  pub phase : String
  pub delta_ms : F

pub record ExplanationResponse (F : Type 0) : Type 0 where
  pub endpoint : String
  pub p95_baseline_ms : F
  pub p95_current_ms : F
  pub p95_change_percent : F
  pub largest_timing_change : TimingChangeResponse F
  pub affected_pods : List String
  pub error_rate_baseline : F
  pub error_rate_current : F
  pub severity : String

pub record DiagnoseResponse (F : Type 0) : Type 0 where
  pub regressions : List (RegressionFinding F)
  pub explanations : List (ExplanationResponse F)

abbrev pub explanation_response : {F : Type 0} → Explanation F → ExplanationResponse F
explanation_response e = record {
  endpoint = e.endpoint;
  p95_baseline_ms = e.p95_baseline_ms;
  p95_current_ms = e.p95_current_ms;
  p95_change_percent = e.p95_change_percent;
  largest_timing_change = record {
    phase = e.largest_timing_change.phase;
    delta_ms = e.largest_timing_change.delta_ms;
  };
  affected_pods = e.affected_pods;
  error_rate_baseline = e.error_rate_baseline;
  error_rate_current = e.error_rate_current;
  severity = e.severity;
}

-- A nil list of regressions becomes an empty one.
abbrev pub diagnose_answer :
    {F : Type 0}
    → Result (List (RegressionFinding F))
    → Result (List (Explanation F))
    → Reply (DiagnoseResponse F)
diagnose_answer (err e) explanations = refused 500 "diagnose failed"
diagnose_answer (ok regressions) (err e) = refused 500 "diagnose failed"
diagnose_answer (ok regressions) (ok explanations) =
    answered
      (record { regressions = regressions; explanations = map explanation_response explanations })

module _ {F : Type 0} ⦃d : Float64 F⦄ where
  -- The handler behind its guards.
  abbrev pub diagnose :
      AnalysisHandlers F → Thresholds F → String → String → Reply (DiagnoseResponse F)
  diagnose h t baseline current =
      diagnose_answer (detect_endpoint_regressions t h.db baseline current)
        (explain t h.db baseline current)

  -- HandleDiagnose
  unfoldable pub handle_diagnose :
      AnalysisHandlers F → Result (DiagnoseRequest F) → Reply (DiagnoseResponse F)
  handle_diagnose h (err e) = refused 400 "invalid request body"
  handle_diagnose h (ok req) =
      if lacks_id req.baseline_run_id req.current_run_id
      then refused 400 "baseline_run_id and current_run_id are required"
      else diagnose h (chosen_thresholds default_thresholds req.thresholds) req.baseline_run_id
          req.current_run_id
