-- ===== src/Orchestrator/Wait.antt =====
-- `WaitForCompletion` of sidecar-go/orchestrator/controller.go. The rounds that the deadline leaves
-- time for are a list; each has its clock, the answers of the pods, and the error of the context if
-- that is done before the next round.
use duckdb_load_testing_tool.Prelude.{
  ◌≡◌, refl, sym, ◌∙◌, ap, String, Bool, true, false, not, ◌&&◌, Option, none, some, List, [], ◌∷◌,
  arith, str_eq, Bool-cases, inl, inr,
}
use duckdb_load_testing_tool.Prelude.Int.{ℤ, pos, ltb_ℤ}
use duckdb_load_testing_tool.Prelude.Dict.{Dict, lookup}
use duckdb_load_testing_tool.Prelude.Result.{Result, ok, Error, message, ◌>>=◌}
use duckdb_load_testing_tool.Orchestrator.{Pod, Controller}
use duckdb_load_testing_tool.Orchestrator.Pods.{HealthAnswer, health_check_all}
use duckdb_load_testing_tool.Orchestrator.Runs.{is_healthy}
use duckdb_load_testing_tool.Orchestrator.Health.{health_check_all-checked}

pub record Round : Type 0 where
  pub now : ℤ
  pub answers : String → HealthAnswer
  pub ctx_err : Option Error

-- pod.Status == PodStatusHealthy && pod.BufferSize > 0
abbrev pub has_events : Pod → Bool
has_events p = is_healthy p.status && ltb_ℤ (pos 0) p.buffer_size

unfoldable pub all_empty : Dict Pod → Bool
all_empty [] = true
all_empty ((name, p) ∷ rest) = not (has_events p) && all_empty rest

-- What follows a health check; `later` is the rest of the loop.
abbrev after_check :
    Option Error
    → Bool
    → Controller
    → Result (Controller × Option Error)
    → Result (Controller × Option Error)
after_check ctx_err true c later = ok (c, none)
after_check (some e) false c later = ok (c, some e)
after_check none false c later = later

-- WaitForCompletion
unfoldable pub wait_for_completion : List Round → Controller → Result (Controller × Option Error)
unfolding all_empty
wait_for_completion [] c = ok (c, some (message "timeout waiting for completion"))
wait_for_completion (r ∷ rest) c = do
  (c', results) ← health_check_all r.answers r.now c
  after_check r.ctx_err (all_empty c'.pods) c' (wait_for_completion rest c')

all_empty-lookup :
    (name : String) (p : Pod) (m : Dict Pod)
    → all_empty m ≡ true
    → lookup name m ≡ some p
    → has_events p ≡ false
unfolding all_empty lookup
all_empty-lookup name p [] h e = ground (arith)
all_empty-lookup name p ((k, q) ∷ m) h e = elim (Bool-cases (str_eq k name)) [
  | inl s ↦ let same : q ≡ p = ground (arith) in ap has_events (sym same) ∙ ground (arith)
  | inr s ↦ all_empty-lookup name p m (ground arith) (ground arith)
]

abbrev NoEvents : Dict Pod → Type 0
NoEvents m = (name : String) (p : Pod) → lookup name m ≡ some p → has_events p ≡ false

abbrev Returns : Controller → Result (Controller × Option Error) → Type 0
Returns c r =
    (c' : Controller) × (e : Option Error) × (r ≡ ok (c', e))
    × (c'.runs ≡ c.runs)
    × (e ≡ none → NoEvents c'.pods)

after_check-Returns :
    (ctx_err : Option Error) (b : Bool) (c : Controller)
    (later : Result (Controller × Option Error))
    → (b ≡ true → NoEvents c.pods)
    → Returns c later
    → Returns c (after_check ctx_err b c later)
after_check-Returns ctx_err true c later good k = (c, none, refl, refl, λ h. good refl)
after_check-Returns (some e) false c later good k =
    (c, some e, refl, refl, λ h. absurd (ground (arith)))
after_check-Returns none false c later good k = k

-- Where no pod is unregistered in the meantime, waiting returns without a panic and leaves the runs
-- alone; if it returns no error, no pod that is then healthy has events in its buffer.
pub wait_for_completion-empty :
    (rounds : List Round) (c : Controller)
    → (c' : Controller) × (e : Option Error) × (wait_for_completion rounds c ≡ ok (c', e))
      × (c'.runs ≡ c.runs)
      × (e ≡ none → (name : String) (p : Pod) → lookup name c'.pods ≡ some p → has_events p ≡ false)
unfolding wait_for_completion
wait_for_completion-empty [] c = (c, _, refl, refl, λ h. ground (arith))
wait_for_completion-empty (r ∷ rest) c =
    let (c1, results, u, spec, runs) = health_check_all-checked r.answers r.now c in
    let (c2, e, u2, runs2, empty) = wait_for_completion-empty rest c1 in
    let (c', e', u', runs', empty') =
      after_check-Returns r.ctx_err (all_empty c1.pods) c1 (wait_for_completion rest c1)
        (λ h name p l. all_empty-lookup name p c1.pods h l) (c2, e, u2, runs2, empty) in
    (c', e', rw u u', runs' ∙ runs, empty')
