-- ===== src/Orchestrator/Pods.antt =====
-- `RegisterPod`, `UnregisterPod`, `HealthCheckAll` and `healthCheck` of
-- sidecar-go/orchestrator/controller.go.
use duckdb_load_testing_tool.Prelude.{String, Option, none, some, List, [], ◌∷◌, if◌then◌else◌}
use duckdb_load_testing_tool.Prelude.Int.{ℤ, pos, eqb_ℤ}
use duckdb_load_testing_tool.Prelude.Format.{show_ℤ}
use duckdb_load_testing_tool.Prelude.Dict.{Dict, lookup, insert, delete}
use duckdb_load_testing_tool.Prelude.Result.{
  Result, ok, err, Error, formatted, ◌>>=◌, nil_dereference,
}
use duckdb_load_testing_tool.Orchestrator.{Pod, unknown, healthy, unhealthy, Controller}

-- RegisterPod
unfoldable pub register_pod : String → String → ℤ → Controller → Controller
register_pod name address now c = record c {
  pods =
      insert name
        (record {
          name = name;
          address = address;
          status = unknown;
          buffer_size = pos 0;
          last_seen = now;
        })
        c.pods;
}

-- UnregisterPod
unfoldable pub unregister_pod : String → Controller → Controller
unregister_pod name c = record c { pods = delete name c.pods }

-- `c.pods[name].f = …`: a panic where the pod has gone
abbrev write_pod : String → (Pod → Pod) → Option Pod → Controller → Result Controller
write_pod name f none c = err nil_dereference
write_pod name f (some p) c = ok (record c { pods = insert name (f p) c.pods })

unfoldable pub update_pod : String → (Pod → Pod) → Controller → Result Controller
update_pod name f c = write_pod name f (lookup name c.pods) c

-- What a pod answers to a health check: no response, or a status code, and the buffer size where the
-- body decodes.
pub data HealthAnswer : Type 0 where
  failed : Error → HealthAnswer
  answered : (code : ℤ) (size : Option ℤ) → HealthAnswer

abbrev store_size : String → Option ℤ → Controller → Result (Controller × Option Error)
store_size name none c = ok (c, none)
store_size name (some n) c = do
  c' ← update_pod name (λ p. record p { buffer_size = n }) c
  ok (c', none)

-- healthCheck
unfoldable pub health_check :
    String → HealthAnswer → Controller → Result (Controller × Option Error)
unfolding update_pod
health_check name (failed e) c = ok (c, some e)
health_check name (answered code size) c =
    if eqb_ℤ code (pos 200)
    then store_size name size c
    else ok (c, some (formatted "unhealthy status: %d" (show_ℤ code ∷ [])))

-- The second critical section of the goroutine.
abbrev pub mark_health : Option Error → ℤ → Pod → Pod
mark_health (some e) now p = record p { status = unhealthy }
mark_health none now p = record p { status = healthy; last_seen = now }

-- The goroutine for one pod, with the entry of `results` that it makes.
unfoldable pub health_round :
    String → HealthAnswer → ℤ → Controller → Result (Controller × Option Error)
unfolding health_check
health_round name answer now c = do
  (c1, e) ← health_check name answer c
  c2 ← update_pod name (mark_health e now) c1
  ok (c2, e)

-- HealthCheckAll, where the goroutines run one after the other.
unfoldable pub health_rounds :
    (String → HealthAnswer)
    → ℤ
    → List String
    → Controller
    → Result (Controller × Dict (Option Error))
unfolding health_round
health_rounds answers now [] c = ok (c, [])
health_rounds answers now (name ∷ rest) c = do
  (c1, e) ← health_round name (answers name) now c
  (c2, results) ← health_rounds answers now rest c1
  ok (c2, insert name e results)

abbrev pub names_of : {A : Type 0} → Dict A → List String
names_of [] = []
names_of ((name, a) ∷ rest) = name ∷ names_of rest

unfoldable pub health_check_all :
    (String → HealthAnswer) → ℤ → Controller → Result (Controller × Dict (Option Error))
unfolding health_rounds
health_check_all answers now c = health_rounds answers now (names_of c.pods) c
