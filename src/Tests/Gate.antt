-- ===== src/Tests/Gate.antt =====
-- The gate on two runs.
use mathlib.Core.List.{Perm}
use mathlib.Core.List.Perm
use duckdb_load_testing_tool.Prelude.{
  ◌≡◌, ◌≢◌, ◌≤◌, ◌⊎◌, refl, inl, inr, none, some, [], ◌∷◌, All, true, not, ◌&&◌, ◌+◌, String, arith,
}
use duckdb_load_testing_tool.Prelude.Int.{pos, ◌*ℤ◌, ◌-ℤ◌}
use duckdb_load_testing_tool.Prelude.Dict.{lookup, insert}
use duckdb_load_testing_tool.Analysis.Endpoint.{stats_of_row, by_endpoint}
use duckdb_load_testing_tool.Prelude.Sorting.{IsSorted}
use duckdb_load_testing_tool.Prelude.Text.{string_lt}
use duckdb_load_testing_tool.Float.Milli.{Milli, milli_float, Milli-IsOrdered}
use duckdb_load_testing_tool.Policy.{
  pass, fail, unknown, min_samples_or_default, effective_metric_policy,
}
use duckdb_load_testing_tool.Policy.Load.{IsTreatment}
use duckdb_load_testing_tool.Gate.Types.{budget}
use duckdb_load_testing_tool.Gate.Build.{rank, violation_less}
use duckdb_load_testing_tool.Gate.Findings.{
  regression_finding, budget_finding, error_budget_finding,
}
use duckdb_load_testing_tool.Gate.Evaluation.{evaluate, findings_of, index_baseline, named}
use duckdb_load_testing_tool.Gate.Verdict.{violating}
use duckdb_load_testing_tool.Gate.Totals.{evaluate-verdict, evaluate-totals, findings}
use duckdb_load_testing_tool.Gate.Thresholds.{regression_finding_breach, budget_mono}
use duckdb_load_testing_tool.Gate.Report.{exit_code, exit_code-evaluate}
use duckdb_load_testing_tool.Gate.Trust.{too_few-IsUnknown, too_few_baseline-NeedsBaseline}
use duckdb_load_testing_tool.Gate.Order.{evaluate-perm}
use duckdb_load_testing_tool.Gate.Endpoints.{evaluate-endpoints, member}
use duckdb_load_testing_tool.Tests.Data.{
  ms, current_run, shuffled_run, baseline_run, policy, latency, errors, slow, rare, fresh,
}

policy-IsTreatment : IsTreatment policy.unknown_treatment
policy-IsTreatment = inr (inl refl)

evaluate-verdict_example : (evaluate current_run (some baseline_run) policy).status ≡ fail
unfolding evaluate lookup insert stats_of_row ◌*ℤ◌ ◌-ℤ◌
evaluate-verdict_example =
    evaluate-verdict current_run (some baseline_run) policy policy-IsTreatment

exit_code-evaluate_example : exit_code (evaluate current_run none policy).status (pos 3) ≡ pos 3
unfolding evaluate lookup insert stats_of_row ◌*ℤ◌ ◌-ℤ◌
exit_code-evaluate_example = exit_code-evaluate current_run none policy (pos 3) policy-IsTreatment

-- Twelve checks: two thresholds of two metrics of three endpoints.
evaluate-totals_example :
    let r = evaluate current_run (some baseline_run) policy in
    let fs = findings current_run (some baseline_run) policy in
    (r.summary.passed ≡ 4)
    × (r.summary.warned ≡ 1)
    × (r.summary.failed ≡ 1)
    × (r.summary.unknown ≡ 6)
    × (r.summary.passed + r.summary.warned + r.summary.failed + r.summary.unknown ≡ 12)
    × Perm r.violations (violating fs)
    × IsSorted violation_less r.violations
unfolding evaluate lookup insert stats_of_row ◌*ℤ◌ ◌-ℤ◌
evaluate-totals_example = evaluate-totals current_run (some baseline_run) policy

-- 50% and 100 ms more
fail_not_pass : fail ≢ pass
fail_not_pass h = ground arith

regression_finding_breach_example :
    (t : Milli) × ((regression_finding "/a" "p95" (ms 200) (ms 300) latency).threshold ≡ some t)
    × (milli_float.lt t (ms 50) ≡ true)
    × (milli_float.le (ms 50) (ms 100) ≡ true)
unfolding regression_finding ◌*ℤ◌ ◌-ℤ◌
regression_finding_breach_example =
    regression_finding_breach "/a" "p95" (ms 200) (ms 300) latency fail_not_pass

budget_mono_example :
    (rank (budget_finding "/a" "p95" (ms 150) latency).status
      ≤ rank (budget_finding "/a" "p95" (ms 300) latency).status)
    × (rank (error_budget_finding "/a" (ms 150) errors).status
        ≤ rank (error_budget_finding "/a" (ms 300) errors).status)
budget_mono_example =
    budget_mono Milli-IsOrdered "/a" "p95" (ms 150) (ms 300) latency errors refl refl

too_few-IsUnknown_example :
    All (λ f. f.status ≡ unknown) (findings_of policy (index_baseline (some baseline_run)) rare)
unfolding stats_of_row min_samples_or_default effective_metric_policy lookup
too_few-IsUnknown_example = too_few-IsUnknown policy (index_baseline (some baseline_run)) rare refl

too_few_baseline-NeedsBaseline_example :
    All
      (λ f. (f.check ≡ budget) ⊎ (f.status ≡ unknown))
      (findings_of policy (index_baseline (some baseline_run)) fresh)
unfolding by_endpoint lookup insert stats_of_row
too_few_baseline-NeedsBaseline_example =
    too_few_baseline-NeedsBaseline policy (index_baseline (some baseline_run)) fresh (λ b e. cc e)

evaluate-perm_example :
    let r = evaluate current_run (some baseline_run) policy in
    let q = evaluate shuffled_run (some baseline_run) policy in
    (r.status ≡ q.status)
    × (r.summary.passed ≡ q.summary.passed)
    × (r.summary.warned ≡ q.summary.warned)
    × (r.summary.failed ≡ q.summary.failed)
    × (r.summary.unknown ≡ q.summary.unknown)
evaluate-perm_example =
    evaluate-perm policy (some baseline_run) current_run shuffled_run policy-IsTreatment
      (Perm.swap rare slow (fresh ∷ []))

evaluate-endpoints_example :
    let r = evaluate current_run (some baseline_run) policy in
    ((x : String)
      → (member x r.new_endpoints ≡ (named x current_run && not (named x baseline_run)))
        × (member x r.removed_endpoints ≡ (named x baseline_run && not (named x current_run))))
    × IsSorted string_lt r.new_endpoints
    × IsSorted string_lt r.removed_endpoints
evaluate-endpoints_example = evaluate-endpoints current_run baseline_run policy
