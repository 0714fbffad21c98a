-- ===== src/Orchestrator/Runs/Lifecycle.antt =====
-- The runs of the controller over a sequence of `StartRun` and `EndRun`, beside a state machine for
-- each run id: sidecar-go/orchestrator/controller.go.
use duckdb_load_testing_tool.Prelude.{
  ◌≡◌, refl, sym, ap, ◌∙◌, Bool-cases, inl, inr, String, Bool, true, false, not, Option, none, some,
  List, [], ◌∷◌, arith, str_eq, eq_iff, if◌then◌else◌,
}
use duckdb_load_testing_tool.Prelude.Int.{ℤ}
use duckdb_load_testing_tool.Prelude.Dict.{Dict, lookup, lookup-insert}
use duckdb_load_testing_tool.Prelude.Result.{Result, ok, err}
use duckdb_load_testing_tool.Orchestrator.{TestRun, Controller, new_controller}
use duckdb_load_testing_tool.Orchestrator.Runs.{start_new, end_found, start_run, end_run, get_run}

pub data Call : Type 0 where
  started ended : (id : String) (now : ℤ) → Call

unfoldable pub call : Call → Controller → Controller
unfolding start_run end_run
call (started id now) c = (start_run id now c).0
call (ended id now) c = (end_run id now c).0

unfoldable pub calls : List Call → Controller → Controller
unfolding call
calls [] c = c
calls (o ∷ rest) c = calls rest (call o c)

-- The specification: what one id goes through.
pub data Stage : Type 0 where
  absent running completed : Stage

abbrev start_stage : Stage → Stage
start_stage absent = running
start_stage s = s

abbrev end_stage : Stage → Stage
end_stage absent = absent
end_stage s = completed

abbrev pub next_stage : String → Call → Stage → Stage
next_stage id (started j now) s = if str_eq j id then start_stage s else s
next_stage id (ended j now) s = if str_eq j id then end_stage s else s

abbrev pub stage_after : String → List Call → Stage → Stage
stage_after id [] s = s
stage_after id (o ∷ rest) s = stage_after id rest (next_stage id o s)

abbrev pub text_of : Stage → Option String
text_of absent = none
text_of running = some "running"
text_of completed = some "completed"

abbrev pub is_absent : Stage → Bool
is_absent absent = true
is_absent _ = false

abbrev pub status_of : Option TestRun → Option String
status_of none = none
status_of (some r) = some r.status

abbrev pub is_ok : {A : Type 0} → Result A → Bool
is_ok (ok a) = true
is_ok (err e) = false

lookup-same :
    {V : Type 0} → (j id : String) (m : Dict V) → str_eq j id ≡ true → lookup j m ≡ lookup id m
lookup-same j id m h = ap (λ k. lookup k m) ((eq_iff j id).0 h)

absent-none : (s : Stage) → none ≡ text_of s → s ≡ absent
absent-none absent h = refl
absent-none running h = ground (arith)
absent-none completed h = ground (arith)

start_stage-some : (s : Stage) (t : String) → some t ≡ text_of s → start_stage s ≡ s
start_stage-some absent t h = ground (arith)
start_stage-some running t h = refl
start_stage-some completed t h = refl

end_stage-some : (s : Stage) (t : String) → some t ≡ text_of s → end_stage s ≡ completed
end_stage-some absent t h = ground (arith)
end_stage-some running t h = refl
end_stage-some completed t h = refl

status-start_new :
    (id j : String) (now : ℤ) (c : Controller) (s : Stage) (r : Option TestRun)
    → (str_eq j id ≡ true → status_of r ≡ text_of s)
    → status_of (lookup id c.runs) ≡ text_of s
    → status_of (lookup id (start_new j now r c).0.runs)
      ≡ text_of (if str_eq j id then start_stage s else s)
unfolding start_run
status-start_new id j now c s none own h = elim (Bool-cases (str_eq j id)) [
  | inl e ↦ rw (lookup-insert j id _ c.runs, e, absent-none s (own e)) refl
  | inr e ↦ rw (lookup-insert j id _ c.runs, e) h
]
status-start_new id j now c s (some r) own h = elim (Bool-cases (str_eq j id)) [
  | inl e ↦ rw (e, start_stage-some s r.status (own e)) h
  | inr e ↦ rw e h
]

status-end_found :
    (id j : String) (now : ℤ) (c : Controller) (s : Stage) (r : Option TestRun)
    → (str_eq j id ≡ true → status_of r ≡ text_of s)
    → status_of (lookup id c.runs) ≡ text_of s
    → status_of (lookup id (end_found j now r c).0.runs)
      ≡ text_of (if str_eq j id then end_stage s else s)
status-end_found id j now c s none own h = elim (Bool-cases (str_eq j id)) [
  | inl e ↦ rw (e, absent-none s (own e)) (h ∙ ap text_of (absent-none s (own e)))
  | inr e ↦ rw e h
]
status-end_found id j now c s (some r) own h = elim (Bool-cases (str_eq j id)) [
  | inl e ↦ rw (lookup-insert j id _ c.runs, e, end_stage-some s r.status (own e)) refl
  | inr e ↦ rw (lookup-insert j id _ c.runs, e) h
]

status-call :
    (id : String) (o : Call) (c : Controller) (s : Stage)
    → status_of (lookup id c.runs) ≡ text_of s
    → status_of (lookup id (call o c).runs) ≡ text_of (next_stage id o s)
unfolding call
status-call id (started j now) c s h =
    status-start_new id j now c s (lookup j c.runs)
      (λ e. ap status_of (lookup-same j id c.runs e) ∙ h) h
status-call id (ended j now) c s h =
    status-end_found id j now c s (lookup j c.runs)
      (λ e. ap status_of (lookup-same j id c.runs e) ∙ h) h

status-calls :
    (id : String) (os : List Call) (c : Controller) (s : Stage)
    → status_of (lookup id c.runs) ≡ text_of s
    → status_of (lookup id (calls os c).runs) ≡ text_of (stage_after id os s)
unfolding calls
status-calls id [] c s h = h
status-calls id (o ∷ rest) c s h =
    status-calls id rest (call o c) (next_stage id o s) (status-call id o c s h)

start_new-absent :
    (id : String) (now : ℤ) (c : Controller) (s : Stage) (r : Option TestRun)
    → status_of r ≡ text_of s
    → is_ok (start_new id now r c).1 ≡ is_absent s
start_new-absent id now c s none h = ap is_absent (sym (absent-none s h))
start_new-absent id now c absent (some r) h = ground (arith)
start_new-absent id now c running (some r) h = refl
start_new-absent id now c completed (some r) h = refl

end_found-absent :
    (id : String) (now : ℤ) (c : Controller) (s : Stage) (r : Option TestRun)
    → status_of r ≡ text_of s
    → is_ok (end_found id now r c).1 ≡ not (is_absent s)
end_found-absent id now c s none h = ap (λ t. not (is_absent t)) (sym (absent-none s h))
end_found-absent id now c absent (some r) h = ground (arith)
end_found-absent id now c running (some r) h = refl
end_found-absent id now c completed (some r) h = refl

-- After any sequence of calls of `StartRun` and `EndRun` on a new controller, the status of each run
-- is what the state machine of its id says: none before it starts, "running" from the first start to
-- the first end after it, and "completed" from then on. A further `StartRun` succeeds just for an id
-- that has not started, and a further `EndRun` just for one that has.
pub calls-stage :
    (os : List Call) (id : String) (now : ℤ)
    → let c = calls os new_controller in
      let s = stage_after id os absent in
      (status_of (get_run id c) ≡ text_of s)
      × (is_ok (start_run id now c).1 ≡ is_absent s)
      × (is_ok (end_run id now c).1 ≡ not (is_absent s))
unfolding start_run end_run
calls-stage os id now =
    let c = calls os new_controller in
    let s = stage_after id os absent in
    let h = status-calls id os new_controller absent (unfold lookup in refl) in
    (
      h,
      start_new-absent id now c s (lookup id c.runs) h,
      end_found-absent id now c s (lookup id c.runs) h,
    )
