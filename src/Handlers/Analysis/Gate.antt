-- ===== src/Handlers/Analysis/Gate.antt =====
-- `HandleGate` of sidecar-go/handlers/analysis_handlers.go.
use duckdb_load_testing_tool.Prelude.{String, str_eq, List, Option, none, some, if◌then◌else◌}
use duckdb_load_testing_tool.Prelude.Result.{Result, ok, err}
use duckdb_load_testing_tool.Float.{Float64}
use duckdb_load_testing_tool.Policy.{Policy, parse}
use duckdb_load_testing_tool.Analysis.Endpoint.{EndpointStats, get_endpoint_stats}
use duckdb_load_testing_tool.Gate.Types.{GateResult}
use duckdb_load_testing_tool.Gate.Evaluation.{evaluate}
use duckdb_load_testing_tool.Handlers.Analysis.{
  AnalysisHandlers, Reply, refused, refused_with, answered,
}

-- GateRequest. The policy is the text of its JSON.
pub record GateRequest : Type 0 where
  pub current_run_id : String
  pub baseline_run_id : String
  pub policy : String

abbrev pub some_stats : {B : Type 0} → Result B → Result (Option B)
some_stats (err e) = err e
some_stats (ok stats) = ok (some stats)

module _ {F : Type 0} ⦃d : Float64 F⦄ where
  -- What follows the query for the current run.
  abbrev pub gate_with_baseline :
      Policy F
      → List (EndpointStats F)
      → Result (Option (List (EndpointStats F)))
      → Reply (GateResult F)
  gate_with_baseline pol current (err e) = refused 500 "failed to analyze baseline run"
  gate_with_baseline pol current (ok baseline) = answered (evaluate current baseline pol)

  -- The baseline, nil where the request names none.
  abbrev pub baseline_stats : AnalysisHandlers F → String → Result (Option (List (EndpointStats F)))
  baseline_stats h run_id =
      if str_eq run_id "" then ok none else some_stats (get_endpoint_stats h.db run_id)

  abbrev pub gate_runs :
      AnalysisHandlers F
      → GateRequest
      → Policy F
      → Result (List (EndpointStats F))
      → Reply (GateResult F)
  gate_runs h req pol (err e) = refused 500 "failed to analyze current run"
  gate_runs h req pol (ok current) =
      gate_with_baseline pol current (baseline_stats h req.baseline_run_id)

  abbrev pub gate_policy :
      AnalysisHandlers F → GateRequest → Result (Policy F) → Reply (GateResult F)
  gate_policy h req (err e) = refused_with 400 "invalid policy: " e
  gate_policy h req (ok pol) = gate_runs h req pol (get_endpoint_stats h.db req.current_run_id)

  -- HandleGate, with yaml.Unmarshal as an argument
  unfoldable pub handle_gate :
      (String → Result (Policy F)) → AnalysisHandlers F → Result GateRequest → Reply (GateResult F)
  handle_gate unmarshal h (err e) = refused 400 "invalid request body"
  handle_gate unmarshal h (ok req) =
      if str_eq req.current_run_id ""
      then refused 400 "current_run_id is required"
      else if str_eq req.policy ""
      then refused 400 "policy is required"
      else gate_policy h req (parse unmarshal req.policy)
