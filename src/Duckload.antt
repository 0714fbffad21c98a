-- ===== src/Duckload.antt =====
-- The command `duckload gate`: sidecar-go/cmd/duckload/main.go. The flags are taken parsed, and what
-- the file system, the YAML decoder, DuckDB and the JSON encoder do is the record `World`.
pub mod Exit
pub mod Args
pub mod Commands
use Prim.Native.Char.{code}
use Prim.Native.String.{String, ◌++◌ as append}
use duckdb_load_testing_tool.Prelude.{
  ◌==◌, Bool, true, false, not, ◌&&◌, ◌||◌, str_eq, Option, none, some, List, [], ◌∷◌, ◌++◌,
  if◌then◌else◌,
}
use duckdb_load_testing_tool.Prelude.Int.{ℤ}
use duckdb_load_testing_tool.Prelude.Result.{
  Error, Result, ok, err, message, formatted, wrapped, wrap, check, ◌>>=◌, ◌>>◌,
}
use duckdb_load_testing_tool.Float.{Float64}
use duckdb_load_testing_tool.Policy.{Policy, load}
use duckdb_load_testing_tool.Analysis.Database.{Database, Cursor, for_rows}
use duckdb_load_testing_tool.Analysis.Endpoint.{EndpointStats, get_endpoint_stats}
use duckdb_load_testing_tool.Gate.Types.{GateResult}
use duckdb_load_testing_tool.Gate.Evaluation.{evaluate}
use duckdb_load_testing_tool.Gate.Report.{exit_code, exit_tool_error}

-- The open database, with the answer to the query for its run ids.
pub record File (F : Type 0) : Type 0 where
  pub database : Database F
  pub run_ids : Result (Cursor String)

pub record World (F : Type 0) : Type 0 where
  pub read_file : String → Result String
  pub unmarshal : String → Result (Policy F)
  -- sql.Open of a data source name
  pub sql_open : String → Result (File F)
  -- printJSON
  pub print_json : GateResult F → Result (Unit {0})

-- The flags of `runGate` and the positional arguments.
pub record GateFlags : Type 0 where
  pub positional : List String
  pub current_path : String
  pub baseline_path : String
  pub current_run_id : String
  pub baseline_run_id : String
  pub policy_path : String
  pub format : String
  pub warn_exit_code : ℤ

abbrev pub is_nil : {A : Type 0} → List A → Bool
is_nil [] = true
is_nil (x ∷ xs) = false

-- The `switch` of `resolveSoleRunID`. The message with several ids lists them.
abbrev sole : String → List String → Result String
sole path [] = err (formatted "%s has no data in its metrics table" (path ∷ []))
sole path (id ∷ []) = ok id
sole path (id ∷ other ∷ rest) = err (
    formatted "%s contains multiple run_ids (%s); specify --run-id or --baseline-run-id to pick one"
      (path ∷ id ∷ other ∷ rest))

-- The checks of the arguments, by the messages.
unfoldable pub check_flags : GateFlags → Result (Unit {0})
check_flags flags =
    if not (is_nil flags.positional)
    then err (formatted "gate takes no positional arguments, got %v" flags.positional)
    else if str_eq flags.current_path "" || str_eq flags.policy_path ""
    then err (
        message
          "usage: duckload gate --current <result.duckdb> --policy <policy.yml> [--baseline <baseline.duckdb>]")
    else if not (str_eq flags.format "human") && not (str_eq flags.format "json")
    then err (formatted "--format must be \"human\" or \"json\", got %q" (flags.format ∷ []))
    else ok tt

-- strings.Contains(path, "?")
abbrev has_question_mark : String → Bool
has_question_mark String.[] = false
has_question_mark (String.◌∷◌ c rest) = code c == 63 || has_question_mark rest

-- The data source name: the path with the option that makes it read-only.
abbrev pub dsn_of : String → String
dsn_of path =
    append path (append (if has_question_mark path then "&" else "?") "access_mode=READ_ONLY")

-- openReadOnly
unfoldable pub open_read_only : {F : Type 0} → World F → String → Result (File F)
open_read_only w path =
    if str_eq path ""
    then err (message "a .duckdb file path is required")
    else wrap "failed to open %s: %w" (path ∷ []) (w.sql_open (dsn_of path))

module _ {F : Type 0} ⦃d : Float64 F⦄ where
  -- resolveSoleRunID
  unfoldable pub resolve_sole_run_id : File F → String → Result String
  unfolding for_rows
  resolve_sole_run_id file path = do
    cursor ← wrap "failed to read run_id values from %s: %w" (path ∷ []) file.run_ids
    ids ←
        for_rows (wrapped "failed to scan run_id from %s: %w" (path ∷ []))
          (λ id ids. ids ++ id ∷ []) cursor.rows []
    check cursor.rows_err
    sole path ids

  -- `if runID == ""`
  abbrev pub run_id_of : File F → String → String → Result String
  run_id_of file path run_id = if str_eq run_id "" then resolve_sole_run_id file path else ok run_id

  -- loadEndpointStats
  unfoldable pub load_endpoint_stats : World F → String → String → Result (List (EndpointStats F))
  unfolding open_read_only resolve_sole_run_id
  load_endpoint_stats w path run_id = do
    file ← open_read_only w path
    id ← run_id_of file path run_id
    wrap "failed to analyze endpoints for run %q in %s: %w" (id ∷ path ∷ [])
        (get_endpoint_stats file.database id)

  -- The baseline, nil where neither of its flags is given.
  unfoldable pub load_baseline : World F → GateFlags → Result (Option (List (EndpointStats F)))
  unfolding load_endpoint_stats
  load_baseline w flags =
      if str_eq flags.baseline_path "" && str_eq flags.baseline_run_id "" then ok none else do
        stats ←
            load_endpoint_stats w
              (if str_eq flags.baseline_path "" then flags.current_path else flags.baseline_path)
              flags.baseline_run_id
        ok (some stats)

  -- The result is printed before its exit code is returned; the report for a terminal never fails.
  abbrev pub print_result : World F → String → GateResult F → Result (Unit {0})
  print_result w format result = if str_eq format "json" then w.print_json result else ok tt

  -- `runGate` up to its exit code, with an error where it prints one and returns ExitToolError.
  unfoldable pub gate_outcome : World F → GateFlags → Result (GateResult F)
  unfolding check_flags load load_baseline
  gate_outcome w flags = do
    check_flags flags
    pol ← load w.read_file w.unmarshal flags.policy_path
    current ← load_endpoint_stats w flags.current_path flags.current_run_id
    baseline ← load_baseline w flags
    print_result w flags.format (evaluate current baseline pol)
    ok (evaluate current baseline pol)

  abbrev code_of : ℤ → Result (GateResult F) → ℤ
  code_of warn_exit_code (ok result) = exit_code result.status warn_exit_code
  code_of warn_exit_code (err e) = exit_tool_error

  -- runGate
  unfoldable pub run_gate : World F → GateFlags → ℤ
  unfolding gate_outcome
  run_gate w flags = code_of flags.warn_exit_code (gate_outcome w flags)
