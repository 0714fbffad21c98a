-- ===== src/Gate/Report.antt =====
-- The exit code of the gate: sidecar-go/analysis/gate/report.go.
pub mod Human
use duckdb_load_testing_tool.Prelude.{◌≡◌, ap, ◌∙◌, Option, List, if◌then◌else◌, any, arith}
use duckdb_load_testing_tool.Prelude.Int.{ℤ, pos}
use duckdb_load_testing_tool.Float.{Float64}
use duckdb_load_testing_tool.Policy.{Status, warn, fail, Policy}
use duckdb_load_testing_tool.Policy.Load.{IsTreatment}
use duckdb_load_testing_tool.Analysis.Endpoint.{EndpointStats}
use duckdb_load_testing_tool.Gate.Types.{Finding}
use duckdb_load_testing_tool.Gate.Evaluation.{evaluate}
use duckdb_load_testing_tool.Gate.Verdict.{verdict, counts_as_fail, counts_as_warn}
use duckdb_load_testing_tool.Gate.Totals.{findings, evaluate-verdict}

-- ExitPass, ExitPolicyFailure and ExitToolError
abbrev pub exit_pass : ℤ
exit_pass = pos 0

abbrev pub exit_policy_failure : ℤ
exit_policy_failure = pos 1

abbrev pub exit_tool_error : ℤ
exit_tool_error = pos 2

-- (*Result).ExitCode, over the status of the result
unfoldable pub exit_code : Status → ℤ → ℤ
exit_code fail warn_exit_code = exit_policy_failure
exit_code warn warn_exit_code = warn_exit_code
exit_code _ warn_exit_code = exit_pass

module _ {F : Type 0} ⦃d : Float64 F⦄ where
  exit_code-verdict :
      (treatment : Status) (fs : List (Finding F)) (warn_exit_code : ℤ)
      → exit_code (verdict treatment fs) warn_exit_code ≡ (
          if any (counts_as_fail treatment) fs
          then exit_policy_failure
          else if any (counts_as_warn treatment) fs
          then warn_exit_code
          else exit_pass)
  unfolding exit_code
  exit_code-verdict treatment fs warn_exit_code = ground arith

  -- A gate run under a policy that treats UNKNOWN as PASS, WARN or FAIL exits with 1 just when some
  -- check counts as a failure, with the code chosen for warnings when none fails and some check
  -- counts as a warning, and with 0 otherwise.
  pub exit_code-evaluate :
      (current : List (EndpointStats F)) (baseline : Option (List (EndpointStats F)))
      (pol : Policy F) (warn_exit_code : ℤ)
      → IsTreatment pol.unknown_treatment
      → let fs = findings current baseline pol in
        exit_code (evaluate current baseline pol).status warn_exit_code ≡ (
          if any (counts_as_fail pol.unknown_treatment) fs
          then exit_policy_failure
          else if any (counts_as_warn pol.unknown_treatment) fs
          then warn_exit_code
          else exit_pass)
  exit_code-evaluate current baseline pol warn_exit_code h =
      ap (λ s. exit_code s warn_exit_code) (evaluate-verdict current baseline pol h)
      ∙ exit_code-verdict pol.unknown_treatment (findings current baseline pol) warn_exit_code
