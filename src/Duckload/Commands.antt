-- ===== src/Duckload/Commands.antt =====
-- The subcommands of sidecar-go/cmd/duckload/main.go, from the arguments of the process to its exit
-- code. The JSON encoder, which writes to the standard output, and the synthetic fixtures are the
-- record `Surroundings`.
use duckdb_load_testing_tool.Prelude.{
  String, Bool, true, false, not, ◌||◌, str_eq, is_some, List, [], ◌∷◌, Option, none, some,
  if◌then◌else◌,
}
use duckdb_load_testing_tool.Prelude.Int.{ℤ, pos}
use duckdb_load_testing_tool.Prelude.Dict.{Dict, lookup}
use duckdb_load_testing_tool.Prelude.Result.{Result, ok, err, message, wrap, ◌>>=◌}
use duckdb_load_testing_tool.Float.{Float64}
use duckdb_load_testing_tool.Analysis.Endpoint.{EndpointStats, get_endpoint_stats}
use duckdb_load_testing_tool.Analysis.Comparator.{
  RunStats, ComparisonResult, default_thresholds, get_run_stats, compare,
}
use duckdb_load_testing_tool.Analysis.Regression.{RegressionFinding, detect_endpoint_regressions}
use duckdb_load_testing_tool.Analysis.Explain.{Explanation, explain}
use duckdb_load_testing_tool.Gate.Report.{exit_pass}
use duckdb_load_testing_tool.Queries.{Query}
use duckdb_load_testing_tool.Queries.Validator.{Connection, validate_all}
use duckdb_load_testing_tool.Duckload.{World, GateFlags, open_read_only, run_gate}
use duckdb_load_testing_tool.Duckload.Args.{
  FlagSet, string_flags, Parsed, exits, parsed, parse_args, parse_flags,
}

-- `print` is printJSON of each of the values that the commands print, and `parse_int` the number of a
-- flag that flag.Int defines. A fixture is its scenario, its database and the id of its current run,
-- or the error with which it could not be built.
pub record Surroundings (F : Type 0) : Type 0 where
  pub world : World F
  pub print_stats : RunStats F → Result (Unit {0})
  pub print_endpoints : List (EndpointStats F) → Result (Unit {0})
  pub print_comparison : ComparisonResult F → Result (Unit {0})
  pub print_diagnosis : List (RegressionFinding F) → List (Explanation F) → Result (Unit {0})
  pub parse_int : String → Option ℤ
  pub fixtures : List (String × Result (Connection String))
  pub current_run_id : String
  pub catalog : Dict Query

-- The value of a flag that fs.String defines.
abbrev flag_or : String → String → Dict String → String
flag_or standard name m = elim (lookup name m) [ none ↦ standard | some value ↦ value ]

-- What a command makes of its parsed arguments: it returns an error or nil, unless flag.Parse has
-- ended the process.
abbrev with_args :
    FlagSet
    → List String
    → (Dict String → List String → Result (Unit {0}))
    → Parsed (Result (Unit {0}))
with_args set args command = elim (parse_args set args) [
  | exits code ↦ exits code
  | parsed r ↦ parsed (command r.0 r.1)
]

abbrev usage_error : {A : Type 0} → String → Result A
usage_error text = err (message text)

module _ {F : Type 0} ⦃d : Float64 F⦄ (env : Surroundings F) where
  -- Behind the check of the arguments of `summary`.
  abbrev summary_of_file : String → String → Result (Unit {0})
  summary_of_file path run_id = do
    file ← open_read_only env.world path
    stats ← wrap "failed to summarize run %q: %w" (run_id ∷ []) (get_run_stats file.database run_id)
    env.print_stats stats

  abbrev summary : Dict String → List String → Result (Unit {0})
  summary m [] = usage_error "usage: duckload summary <result.duckdb> --run-id <id>"
  summary m (path ∷ rest) =
      if str_eq (flag_or "" "run-id" m) ""
      then usage_error "usage: duckload summary <result.duckdb> --run-id <id>"
      else summary_of_file path (flag_or "" "run-id" m)

  -- runSummary
  unfoldable pub run_summary : List String → Parsed (Result (Unit {0}))
  run_summary args = with_args (string_flags ("run-id" ∷ [])) args summary

  abbrev endpoints_of_file : String → String → Result (Unit {0})
  endpoints_of_file path run_id = do
    file ← open_read_only env.world path
    stats ←
        wrap "failed to analyze endpoints for run %q: %w" (run_id ∷ [])
          (get_endpoint_stats file.database run_id)
    env.print_endpoints stats

  abbrev endpoints : Dict String → List String → Result (Unit {0})
  endpoints m [] = usage_error "usage: duckload endpoints <result.duckdb> --run-id <id>"
  endpoints m (path ∷ rest) =
      if str_eq (flag_or "" "run-id" m) ""
      then usage_error "usage: duckload endpoints <result.duckdb> --run-id <id>"
      else endpoints_of_file path (flag_or "" "run-id" m)

  -- runEndpoints
  unfoldable pub run_endpoints : List String → Parsed (Result (Unit {0}))
  run_endpoints args = with_args (string_flags ("run-id" ∷ [])) args endpoints

  abbrev two_runs : FlagSet
  two_runs = string_flags ("baseline" ∷ "current" ∷ [])

  abbrev lacks_run : Dict String → Bool
  lacks_run m = str_eq (flag_or "" "baseline" m) "" || str_eq (flag_or "" "current" m) ""

  abbrev comparison_of_file : String → String → String → Result (Unit {0})
  comparison_of_file path baseline current = do
    file ← open_read_only env.world path
    result ←
        wrap "failed to compare %q vs %q: %w" (baseline ∷ current ∷ [])
          (compare default_thresholds file.database baseline current)
    env.print_comparison result

  abbrev comparison : Dict String → List String → Result (Unit {0})
  comparison m [] =
      usage_error "usage: duckload compare <result.duckdb> --baseline <id> --current <id>"
  comparison m (path ∷ rest) =
      if lacks_run m
      then usage_error "usage: duckload compare <result.duckdb> --baseline <id> --current <id>"
      else comparison_of_file path (flag_or "" "baseline" m) (flag_or "" "current" m)

  -- runCompare
  unfoldable pub run_compare : List String → Parsed (Result (Unit {0}))
  run_compare args = with_args two_runs args comparison

  abbrev diagnosis_of_file : String → String → String → Result (Unit {0})
  diagnosis_of_file path baseline current = do
    file ← open_read_only env.world path
    regressions ←
        wrap "failed to detect regressions: %w" []
          (detect_endpoint_regressions default_thresholds file.database baseline current)
    explanations ←
        wrap "failed to build explanation: %w" []
          (explain default_thresholds file.database baseline current)
    env.print_diagnosis regressions explanations

  abbrev diagnosis : Dict String → List String → Result (Unit {0})
  diagnosis m [] =
      usage_error "usage: duckload diagnose <result.duckdb> --baseline <id> --current <id>"
  diagnosis m (path ∷ rest) =
      if lacks_run m
      then usage_error "usage: duckload diagnose <result.duckdb> --baseline <id> --current <id>"
      else diagnosis_of_file path (flag_or "" "baseline" m) (flag_or "" "current" m)

  -- runDiagnose
  unfoldable pub run_diagnose : List String → Parsed (Result (Unit {0}))
  run_diagnose args = with_args two_runs args diagnosis

  -- Whether a fixture fails: it could not be built, or some query of the catalog is not valid on it.
  abbrev fixture_fails : Result (Connection String) → Bool
  fixture_fails (err e) = true
  fixture_fails (ok db) = is_some (validate_all db (λ q. env.current_run_id ∷ []) env.catalog).1

  -- The variable `failed` after the loop over the fixtures.
  unfoldable pub any_fixture_fails : List (String × Result (Connection String)) → Bool → Bool
  any_fixture_fails [] failed = failed
  any_fixture_fails ((scenario, built) ∷ rest) failed =
      any_fixture_fails rest (if fixture_fails built then true else failed)

  abbrev checked_analysis : Parsed (Dict String) → Parsed (Result (Unit {0}))
  checked_analysis (exits code) = exits code
  checked_analysis (parsed m) = parsed (
      if any_fixture_fails env.fixtures false
      then err (message "one or more analysis queries failed validation")
      else ok tt)

  -- runCheckAnalysis, which gives its arguments to flag.Parse as they are
  unfoldable pub run_check_analysis : List String → Parsed (Result (Unit {0}))
  run_check_analysis args = checked_analysis (parse_flags (string_flags []) args [])

  -- The flags of `runGate`.
  abbrev gate_flag_set : FlagSet
  gate_flag_set = record {
    names =
        "current" ∷ "baseline" ∷ "run-id" ∷ "baseline-run-id" ∷ "policy" ∷ "format"
        ∷ "warn-exit-code" ∷ [];
    accepts = λ name value. not (str_eq name "warn-exit-code") || is_some (env.parse_int value);
  }

  abbrev int_or : ℤ → Option ℤ → ℤ
  int_or standard none = standard
  int_or standard (some n) = n

  abbrev warn_code : Option String → ℤ
  warn_code none = exit_pass
  warn_code (some text) = int_or exit_pass (env.parse_int text)

  unfoldable pub gate_flags : Dict String → List String → GateFlags
  gate_flags m positional = record {
    positional = positional;
    current_path = flag_or "" "current" m;
    baseline_path = flag_or "" "baseline" m;
    current_run_id = flag_or "" "run-id" m;
    baseline_run_id = flag_or "" "baseline-run-id" m;
    policy_path = flag_or "" "policy" m;
    format = flag_or "human" "format" m;
    warn_exit_code = warn_code (lookup "warn-exit-code" m);
  }

  -- runGate from its arguments, with its exit code
  unfoldable pub gate_main : List String → ℤ
  gate_main args = elim (parse_args gate_flag_set args) [
    | exits code ↦ code
    | parsed r ↦ run_gate env.world (gate_flags r.0 r.1)
  ]

  -- The code with which `main` ends after a command.
  abbrev pub exit_status : Parsed (Result (Unit {0})) → ℤ
  exit_status (exits code) = code
  exit_status (parsed (ok done)) = pos 0
  exit_status (parsed (err e)) = pos 1

  abbrev command_main : String → List String → ℤ
  command_main name args =
      if str_eq name "gate"
      then gate_main args
      else if str_eq name "summary"
      then exit_status (run_summary args)
      else if str_eq name "endpoints"
      then exit_status (run_endpoints args)
      else if str_eq name "compare"
      then exit_status (run_compare args)
      else if str_eq name "diagnose"
      then exit_status (run_diagnose args)
      else if str_eq name "check-analysis"
      then exit_status (run_check_analysis args)
      else if str_eq name "-h" || str_eq name "--help" || str_eq name "help"
      then pos 0
      else pos 1

  -- main, over os.Args without the name of the program
  unfoldable pub main_code : List String → ℤ
  main_code [] = pos 1
  main_code (name ∷ args) = command_main name args
