-- ===== src/Tests/Handlers.antt =====
-- The analysis endpoints on two runs.
use duckdb_load_testing_tool.Prelude.{ℕ, ◌≤◌, ◌≡◌, refl, true, [], ◌∷◌, none}
use duckdb_load_testing_tool.Prelude.Int.{pos, ◌*ℤ◌, ◌-ℤ◌}
use duckdb_load_testing_tool.Prelude.Dict.{lookup, insert}
use duckdb_load_testing_tool.Prelude.Result.{ok}
use duckdb_load_testing_tool.Float.Milli.{Milli, milli_float}
use duckdb_load_testing_tool.Analysis.Endpoint.{get_endpoint_stats, by_endpoint}
use duckdb_load_testing_tool.Analysis.Comparator.{default_thresholds}
use duckdb_load_testing_tool.Analysis.Regression.{detect_endpoint_regressions}
use duckdb_load_testing_tool.Analysis.Explain.{explain}
use duckdb_load_testing_tool.Duckload.{gate_outcome}
use duckdb_load_testing_tool.Handlers.Analysis.{
  AnalysisHandlers, Reply, refused, refused_with, answered, new_analysis_handlers,
}
use duckdb_load_testing_tool.Handlers.Analysis.Limit.{
  trend_limit, parse_int64, digits_from, is_limit,
}
use duckdb_load_testing_tool.Handlers.Analysis.Statistics.{handle_trend}
use duckdb_load_testing_tool.Handlers.Analysis.Diagnose.{
  DiagnoseRequest, DiagnoseResponse, handle_diagnose,
}
use duckdb_load_testing_tool.Handlers.Analysis.Gate.{GateRequest, handle_gate}
use duckdb_load_testing_tool.Handlers.Analysis.Engine.{
  body_of, value_of, flags_of, handle_gate-gate_outcome,
}
use duckdb_load_testing_tool.Handlers.Analysis.Agreement.{
  explains, handle_diagnose-explains, TrendOf, handle_trend-limit,
}
use duckdb_load_testing_tool.Tests.Data.{database, answers}
use duckdb_load_testing_tool.Tests.Duckload.{world}

abbrev handlers : AnalysisHandlers Milli
handlers = new_analysis_handlers database

abbrev gate_request : GateRequest
gate_request = record { current_run_id = "cur"; baseline_run_id = "base"; policy = "version: 1" }

handle_gate-gate_outcome_example :
    body_of (handle_gate world.unmarshal handlers (ok gate_request))
    ≡ value_of (gate_outcome world (flags_of "runs.duckdb" "policy.yml" (pos 0) gate_request))
handle_gate-gate_outcome_example =
    handle_gate-gate_outcome world (record { database = database; run_ids = answers ("cur" ∷ []) })
      handlers "runs.duckdb" (λ p. cc) refl refl gate_request "policy.yml" (pos 0) (λ p. cc)
      (λ p. cc) (λ p. cc) refl

abbrev diagnose_request : DiagnoseRequest Milli
diagnose_request = record { baseline_run_id = "base"; current_run_id = "cur"; thresholds = none }

abbrev body_or_nothing : {F : Type 0} → Reply (DiagnoseResponse F) → DiagnoseResponse F
body_or_nothing (answered body) = body
body_or_nothing (refused code text) = record { regressions = []; explanations = [] }
body_or_nothing (refused_with code text e) = record { regressions = []; explanations = [] }

abbrev diagnosis : DiagnoseResponse Milli
diagnosis = body_or_nothing (handle_diagnose handlers (ok diagnose_request))

handle_diagnose-explains_example : explains "/a" diagnosis ≡ true
unfolding handle_diagnose detect_endpoint_regressions explain get_endpoint_stats lookup insert
    by_endpoint default_thresholds ◌*ℤ◌ ◌-ℤ◌
handle_diagnose-explains_example =
    handle_diagnose-explains handlers (ok diagnose_request) diagnosis refl "/a"

-- Texts that are no number from 1 to 100 leave the limit at 10.
trend_limits :
    (trend_limit "25" ≡ pos 25)
    × (trend_limit "101" ≡ pos 10)
    × (trend_limit "-5" ≡ pos 10)
    × (trend_limit "+7" ≡ pos 7)
    × (trend_limit "many" ≡ pos 10)
    × (trend_limit "" ≡ pos 10)
unfolding trend_limit parse_int64 digits_from is_limit
trend_limits = (refl, refl, refl, refl, refl, refl)

handle_trend-limit_example :
    (n : ℕ) × (1 ≤ n) × (n ≤ 100) × TrendOf handlers n (handle_trend handlers "25")
handle_trend-limit_example = handle_trend-limit handlers "25"
