-- ===== src/Tests/Duckload.antt =====
-- A gate run from its flags to its exit code.
use duckdb_load_testing_tool.Prelude.{◌≡◌, ◌⊎◌, [], ◌∷◌}
use duckdb_load_testing_tool.Prelude.Int.{pos}
use duckdb_load_testing_tool.Prelude.Result.{Error, ok, err}
use duckdb_load_testing_tool.Float.Milli.{Milli, milli_float}
use duckdb_load_testing_tool.Gate.Report.{exit_tool_error}
use duckdb_load_testing_tool.Duckload.{World, GateFlags, gate_outcome, run_gate}
use duckdb_load_testing_tool.Duckload.Exit.{Refused, Judged, run_gate-Judged}
use duckdb_load_testing_tool.Tests.Data.{policy, database, answers}

abbrev pub world : World Milli
world = record {
  read_file = λ path. ok "version: 1";
  unmarshal = λ text. ok policy;
  sql_open = λ dsn. ok (record { database = database; run_ids = answers ("cur" ∷ []) });
  print_json = λ result. ok tt;
}

abbrev flags : GateFlags
flags = record {
  positional = [];
  current_path = "current.duckdb";
  baseline_path = "";
  current_run_id = "";
  baseline_run_id = "base";
  policy_path = "policy.yml";
  format = "json";
  warn_exit_code = pos 3;
}

run_gate-Judged_example :
    (Refused world flags × (run_gate world flags ≡ pos 2)) ⊎ Judged world flags
run_gate-Judged_example = run_gate-Judged world flags
