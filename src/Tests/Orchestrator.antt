-- ===== src/Tests/Orchestrator.antt =====
-- The controller with three pods.
use duckdb_load_testing_tool.Prelude.{
  ◌≡◌, true, false, Option, none, some, List, [], ◌∷◌, String, map, if◌then◌else◌, str_eq,
}
use duckdb_load_testing_tool.Prelude.Int.{pos}
use duckdb_load_testing_tool.Prelude.Dict.{Dict, lookup, insert}
use duckdb_load_testing_tool.Prelude.Result.{ok, err, Error, message}
use duckdb_load_testing_tool.Orchestrator.{Pod, Controller, new_controller}
use duckdb_load_testing_tool.Orchestrator.Flush.{
  FlushAnswer, FlushAllResult, flush_pod, flush_endpoint, flush_all,
}
use duckdb_load_testing_tool.Orchestrator.Flush.Settled.{settled_if, flush_all-settled}
use duckdb_load_testing_tool.Orchestrator.Pods.{
  names_of, HealthAnswer, failed, answered, health_check_all, register_pod,
}
use duckdb_load_testing_tool.Orchestrator.Health.{
  checked_if, listed, fault_of, health_check_all-checked,
}
use duckdb_load_testing_tool.Orchestrator.Wait.{
  Round, wait_for_completion, has_events, wait_for_completion-empty,
}
use duckdb_load_testing_tool.Orchestrator.Runs.{start_run, end_run, get_run}
use duckdb_load_testing_tool.Orchestrator.Runs.Lifecycle.{
  Call, started, ended, calls, status_of, is_ok, calls-stage,
}

abbrev three : Controller
three = register_pod "a" "10.0.0.1:8081" (pos 1) (
    register_pod "b" "10.0.0.2:8081" (pos 1)
      (register_pod "c" "10.0.0.3:8081" (pos 1) new_controller))

abbrev answers : String → HealthAnswer
answers name =
    if str_eq name "a"
    then answered (pos 200) (some (pos 7))
    else if str_eq name "b"
    then answered (pos 503) none
    else failed (message "connection refused")

health_check_all-checked_example :
    (c : Controller) × (results : Dict (Option Error)) × (health_check_all answers (pos 9) three
      ≡ ok (c, results))
    × ((j : String)
        → (lookup j c.pods
            ≡ checked_if
                (listed j ("c" ∷ "b" ∷ "a" ∷ []))
                (answers j)
                (pos 9)
                (lookup j three.pods))
          × (lookup j results
              ≡ (if listed j ("c" ∷ "b" ∷ "a" ∷ []) then some (fault_of (answers j)) else none)))
    × (c.runs ≡ [])
unfolding register_pod insert
health_check_all-checked_example = health_check_all-checked answers (pos 9) three

abbrev history : List Call
history = started "r" (pos 1) ∷ started "r" (pos 2) ∷ ended "r" (pos 3) ∷ ended "q" (pos 4) ∷ []

calls-stage_example :
    let c = calls history new_controller in
    (status_of (get_run "r" c) ≡ some "completed")
    × (is_ok (start_run "r" (pos 5) c).1 ≡ false)
    × (is_ok (end_run "r" (pos 5) c).1 ≡ true)
calls-stage_example = calls-stage history "r" (pos 5)

-- One round, in which the healthy pod still has events.
abbrev rounds : List Round
rounds = record { now = pos 9; answers = answers; ctx_err = none } ∷ []

wait_for_completion-empty_example :
    (c : Controller) × (e : Option Error) × (wait_for_completion rounds three ≡ ok (c, e))
    × (c.runs ≡ [])
    × (e ≡ none → (name : String) (p : Pod) → lookup name c.pods ≡ some p → has_events p ≡ false)
unfolding register_pod
wait_for_completion-empty_example = wait_for_completion-empty rounds three

abbrev flush_answers : String → String → FlushAnswer
flush_answers name path =
    if str_eq name "a"
    then FlushAnswer.answered (pos 200) ""
        (ok (record { flushed = pos 7; uploaded = false; key = "" }))
    else if str_eq name "b"
    then FlushAnswer.answered (pos 500) "flush failed" (err (message "invalid character"))
    else FlushAnswer.failed (message "connection refused")

flush_all-settled_example :
    let names = names_of three.pods in
    let path = flush_endpoint true in
    (c' : Controller) × (results : List FlushAllResult) × (flush_all flush_answers true three
      ≡ ok (c', results))
    × (results ≡ map (λ name. flush_pod name (flush_answers name path)) names)
    × ((j : String)
        → lookup j c'.pods
          ≡ settled_if (listed j names) j (flush_answers j path) (lookup j three.pods))
    × (c'.runs ≡ three.runs)
flush_all-settled_example = flush_all-settled flush_answers true three
