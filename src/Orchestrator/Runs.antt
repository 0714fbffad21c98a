-- ===== src/Orchestrator/Runs.antt =====
-- `StartRun`, `EndRun`, `GetRun` and the test of `WaitForCompletion` of
-- sidecar-go/orchestrator/controller.go.
pub mod Lifecycle
use duckdb_load_testing_tool.Prelude.{
  String, Bool, true, false, Option, none, some, List, [], ◌∷◌, if◌then◌else◌,
}
use duckdb_load_testing_tool.Prelude.Int.{ℤ, pos}
use duckdb_load_testing_tool.Prelude.Dict.{Dict, lookup, insert}
use duckdb_load_testing_tool.Prelude.Result.{Result, ok, err, Error, formatted}
use duckdb_load_testing_tool.Orchestrator.{Pod, PodStatus, healthy, TestRun, Controller}

abbrev pub is_healthy : PodStatus → Bool
is_healthy healthy = true
is_healthy _ = false

-- "Get healthy pods"
unfoldable pub healthy_pods : Dict Pod → List String
healthy_pods [] = []
healthy_pods ((name, p) ∷ rest) =
    let others = healthy_pods rest in if is_healthy p.status then name ∷ others else others

abbrev pub start_new : String → ℤ → Option TestRun → Controller → Controller × Result TestRun
start_new id now (some r) c = (c, err (formatted "run %s already exists" (id ∷ [])))
start_new id now none c =
    let run : TestRun = record {
      id = id;
      status = "running";
      start_time = now;
      end_time = pos 0;
      pods = healthy_pods c.pods;
    } in
    (record c { runs = insert id run c.runs }, ok run)

-- StartRun
unfoldable pub start_run : String → ℤ → Controller → Controller × Result TestRun
unfolding healthy_pods
start_run id now c = start_new id now (lookup id c.runs) c

abbrev pub end_found : String → ℤ → Option TestRun → Controller → Controller × Result TestRun
end_found id now none c = (c, err (formatted "run %s not found" (id ∷ [])))
end_found id now (some r) c =
    let run : TestRun = record r { status = "completed"; end_time = now } in
    (record c { runs = insert id run c.runs }, ok run)

-- EndRun
unfoldable pub end_run : String → ℤ → Controller → Controller × Result TestRun
end_run id now c = end_found id now (lookup id c.runs) c

-- GetRun
abbrev pub get_run : String → Controller → Option TestRun
get_run id c = lookup id c.runs
