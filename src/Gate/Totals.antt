-- ===== src/Gate/Totals.antt =====
-- The result of `Evaluate` beside the findings that it makes.
use mathlib.Core.List.{Perm}
use duckdb_load_testing_tool.Prelude.Sorting.{IsSorted}
use duckdb_load_testing_tool.Gate.Build.{violation_less}
use duckdb_load_testing_tool.Prelude.{
  ◌≡◌, ◌⊎◌, refl, Option, List, [], ◌∷◌, ◌+◌, arith, All, length,
}
use duckdb_load_testing_tool.Float.{Float64}
use duckdb_load_testing_tool.Policy.{pass, warn, fail, unknown, Policy}
use duckdb_load_testing_tool.Policy.Load.{IsTreatment}
use duckdb_load_testing_tool.Analysis.Endpoint.{EndpointStats}
use duckdb_load_testing_tool.Gate.Types.{Finding, Sample, is_pass}
use duckdb_load_testing_tool.Gate.Findings.{
  unknown_finding, budget_finding, regression_finding, error_budget_finding,
  error_regression_finding,
}
use duckdb_load_testing_tool.Gate.Evaluation.{
  all_findings, evaluate, index_baseline, new_sorted, removed_sorted,
}
use duckdb_load_testing_tool.Gate.Induction.{Admits, sampled, all_findings-All}
use duckdb_load_testing_tool.Gate.Verdict.{
  verdict, violating, count_of, is_warn, is_fail, is_unknown, build-verdict, build-Counts,
  build-violations,
}

module _ {F : Type 0} ⦃d : Float64 F⦄ where
  -- The four statuses of the gate.
  abbrev IsKnown : Finding F → Type 0
  IsKnown f = (f.status ≡ pass) ⊎ (f.status ≡ warn) ⊎ (f.status ≡ fail) ⊎ (f.status ≡ unknown)

  Admits-IsKnown : (s : Sample F) → Admits IsKnown s
  unfolding unknown_finding budget_finding regression_finding error_budget_finding
      error_regression_finding
  Admits-IsKnown s = record {
    on_few = λ e metric reason. ground arith;
    on_unknown = λ on metric reason. ground arith;
    on_budget = λ e metric v lp. ground arith;
    on_regression = λ b c metric x y lp. ground arith;
    on_error_budget = λ e v ep. ground arith;
    on_error_regression = λ b c x y ep. ground arith;
  }

  total_of_IsKnown :
      (fs : List (Finding F))
      → All IsKnown fs
      → count_of is_pass fs + count_of is_warn fs + count_of is_fail fs + count_of is_unknown fs
        ≡ length fs
  total_of_IsKnown [] h = refl
  total_of_IsKnown (f ∷ fs) h = ground (arith, total_of_IsKnown fs)

  violating-length :
      (fs : List (Finding F)) → count_of is_pass fs + length (violating fs) ≡ length fs
  violating-length [] = refl
  violating-length (f ∷ fs) = ground (arith, violating-length fs)

  -- The findings that `Evaluate` makes for a current and a baseline run.
  abbrev pub findings :
      List (EndpointStats F) → Option (List (EndpointStats F)) → Policy F → List (Finding F)
  findings current baseline pol = all_findings pol (index_baseline baseline) current

  -- The overall status of a run is FAIL exactly when some check fails, or is UNKNOWN under a policy
  -- that treats UNKNOWN as FAIL; else it is WARN when some check warns, or is UNKNOWN under a policy
  -- that treats it as WARN; and PASS otherwise. The policy's treatment is PASS, WARN or FAIL.
  pub evaluate-verdict :
      (current : List (EndpointStats F)) (baseline : Option (List (EndpointStats F)))
      (pol : Policy F)
      → IsTreatment pol.unknown_treatment
      → (evaluate current baseline pol).status
        ≡ verdict pol.unknown_treatment (findings current baseline pol)
  unfolding evaluate
  evaluate-verdict current baseline pol h =
      build-verdict pol (findings current baseline pol)
        (new_sorted (index_baseline baseline) current)
        (removed_sorted (index_baseline baseline) current) h

  -- The summary accounts for every check that ran: its four counts are those of the findings with
  -- each status and add up to their number, and the violations are the findings that did not pass,
  -- each once, sorted by endpoint, metric and check.
  pub evaluate-totals :
      (current : List (EndpointStats F)) (baseline : Option (List (EndpointStats F)))
      (pol : Policy F)
      → let r = evaluate current baseline pol in
        let fs = findings current baseline pol in
        (r.summary.passed ≡ count_of is_pass fs)
        × (r.summary.warned ≡ count_of is_warn fs)
        × (r.summary.failed ≡ count_of is_fail fs)
        × (r.summary.unknown ≡ count_of is_unknown fs)
        × (r.summary.passed + r.summary.warned + r.summary.failed + r.summary.unknown ≡ length fs)
        × Perm r.violations (violating fs)
        × IsSorted violation_less r.violations
  unfolding evaluate
  evaluate-totals current baseline pol =
      let fs = findings current baseline pol in
      let base = index_baseline baseline in
      let counts = build-Counts pol fs (new_sorted base current) (removed_sorted base current) in
      let total = total_of_IsKnown fs (
        all_findings-All IsKnown pol base current (λ cur. Admits-IsKnown (sampled pol base cur))) in
      let v = build-violations pol fs (new_sorted base current) (removed_sorted base current) in
      (counts.0, counts.1, counts.2, counts.3, omega arith, v.0, v.1)
