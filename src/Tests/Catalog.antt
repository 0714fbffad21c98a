-- ===== src/Tests/Catalog.antt =====
-- A catalog of two query files, and its validation.
use mathlib.Core.List.{Perm}
use duckdb_load_testing_tool.Prelude.{
  String, ◌≡◌, refl, true, false, List, [], ◌∷◌, ◌++◌, All, length, str_eq, none, if◌then◌else◌,
}
use duckdb_load_testing_tool.Prelude.Dict.{Dict, lookup, insert}
use duckdb_load_testing_tool.Prelude.Result.{Result, ok, err, message}
use duckdb_load_testing_tool.Prelude.Sorting.{IsSorted, sort_by}
use duckdb_load_testing_tool.Analysis.Database.{for_rows}
use duckdb_load_testing_tool.Queries.{Query}
use duckdb_load_testing_tool.Queries.Text.{is_space}
use duckdb_load_testing_tool.Queries.Header.{parse}
use duckdb_load_testing_tool.Queries.Catalog.{
  DirEntry, Files, init, get, all, id_less, load_entries, load_entry, is_skipped, has_suffix,
  read_query, register, values,
}
use duckdb_load_testing_tool.Queries.Catalog.Complete.{
  query_files, AreRead, AreFound, has_id, init-catalog,
}
use duckdb_load_testing_tool.Queries.Validator.{
  Connection, Validation, validate, validate_all, check_required_columns, present_columns,
  absent_from, check_params, run_query, missing, mark_all,
}
use duckdb_load_testing_tool.Queries.Validator.Passing.{IsListed, HasRun, validate-ok}
use duckdb_load_testing_tool.Queries.Validator.Results.{AreValid, StopsAt, validate_all-results}

abbrev entries : List DirEntry
entries =
    record { name = "status.sql"; is_dir = false }
    ∷ record { name = "README.md"; is_dir = false }
    ∷ record { name = "old.sql"; is_dir = true }
    ∷ record { name = "pods.sql"; is_dir = false }
    ∷ []

abbrev text_at : String → Result String
text_at path =
    if str_eq path "sql/status.sql"
    then ok
        "-- id: status\n-- required_columns: run_id\n-- parameters: run_id\n-- expected_output: url, n\nSELECT 1"
    else if str_eq path "sql/pods.sql"
    then ok "-- id: pods\nSELECT 2"
    else err (message "file does not exist")

abbrev files : Files
files = record { read_dir = λ path. ok entries; read_file = text_at }

abbrev status_query : Query
status_query = record {
  id = "status";
  purpose = "";
  description = "";
  required_columns = "run_id" ∷ [];
  parameters = record { name = "run_id"; typ = "VARCHAR" } ∷ [];
  expected_output = "url" ∷ "n" ∷ [];
  sql = "SELECT 1";
}

abbrev pods_query : Query
pods_query = record {
  id = "pods";
  purpose = "";
  description = "";
  required_columns = [];
  parameters = [];
  expected_output = [];
  sql = "SELECT 2";
}

abbrev catalog : Dict Query
catalog = ("status", status_query) ∷ ("pods", pods_query) ∷ []

init-files : init files ≡ ok catalog
unfolding init load_entries load_entry is_skipped has_suffix read_query parse is_space register
    lookup insert
init-files = refl

all-catalog : all catalog ≡ pods_query ∷ status_query ∷ []
unfolding all sort_by values
all-catalog = refl

init-catalog_example :
    (es : List DirEntry) × (qs : List Query) × (files.read_dir "sql" ≡ ok es)
    × AreRead files (query_files es) qs
    × AreFound catalog qs
    × ((id : String) → (get id catalog).1 ≡ has_id id qs)
    × Perm (all catalog) qs
    × IsSorted id_less (all catalog)
init-catalog_example = init-catalog files catalog init-files

-- The second query does not run, as the database has no such table.
abbrev connection : Connection String
connection = record {
  metrics_columns = ok (record { rows = ok "run_id" ∷ ok "url" ∷ []; rows_err = none });
  query = λ text params.
      if str_eq text "SELECT 2"
      then err (message "Catalog Error")
      else ok (record { columns = ok ("url" ∷ []) });
}

abbrev status_validation : Validation
status_validation = record { query_id = "status"; columns = "url" ∷ []; missing_output = "n" ∷ [] }

validate-status : validate connection status_query ("run-1" ∷ []) ≡ ok status_validation
unfolding validate check_required_columns present_columns for_rows absent_from lookup insert
    check_params run_query missing mark_all
validate-status = refl

validate-ok_example :
    All (IsListed connection) status_query.required_columns
    × (length {A = String} ("run-1" ∷ []) ≡ length status_query.parameters)
    × HasRun connection status_query ("run-1" ∷ []) status_validation
validate-ok_example =
    validate-ok connection status_query ("run-1" ∷ []) status_validation validate-status

abbrev params_for : Query → List String
params_for q = if str_eq q.id "status" then "run-1" ∷ [] else []

validate_all-results_example :
    (passed : List Query) × (rest : List Query) × (all catalog ≡ passed ++ rest)
    × AreValid connection params_for passed (validate_all connection params_for catalog).0
    × StopsAt connection params_for rest (validate_all connection params_for catalog).1
validate_all-results_example = validate_all-results connection params_for catalog
