-- ===== src/Queries/Validator.antt =====
-- The check of the catalog against a database: sidecar-go/analysis/validator/validator.go. What
-- DuckDB answers is the record `Connection`, over the type of the bound parameters.
pub mod Passing
pub mod Results
use Prim.Native.String.{◌++◌ as append}
use duckdb_load_testing_tool.Prelude.{
  String, Bool, true, false, not, ◌==◌, List, [], ◌∷◌, ◌++◌, map, Option, none, some, length,
  if◌then◌else◌,
}
use duckdb_load_testing_tool.Prelude.Int.{pos}
use duckdb_load_testing_tool.Prelude.Dict.{Dict, lookup, insert}
use duckdb_load_testing_tool.Prelude.Format.{show_ℤ}
use duckdb_load_testing_tool.Prelude.Result.{
  Error, Result, ok, err, formatted, wrapped, wrap, check, ◌>>=◌, ◌>>◌,
}
use duckdb_load_testing_tool.Analysis.Database.{Cursor, for_rows}
use duckdb_load_testing_tool.Queries.{Parameter, Query}
use duckdb_load_testing_tool.Queries.Text.{join}
use duckdb_load_testing_tool.Queries.Catalog.{all}

-- The struct `Result`.
pub record Validation : Type 0 where
  pub query_id : String
  pub columns : List String
  pub missing_output : List String

-- *sql.Rows, with what `Columns` returns
pub record Rows : Type 0 where
  pub columns : Result (List String)

pub record Connection (A : Type 0) : Type 0 where
  -- the columns of `metrics` in information_schema
  pub metrics_columns : Result (Cursor String)
  -- `db.Query` of a text with its parameters
  pub query : String → List A → Result Rows

abbrev or_false : Option Bool → Bool
or_false none = false
or_false (some b) = b

-- `present[c]`, and `have[c]`
abbrev pub has_key : Dict Bool → String → Bool
has_key m c = or_false (lookup c m)

-- The loop of `missing` over the columns that are there.
unfoldable pub mark_all : List String → Dict Bool → Dict Bool
mark_all [] have = have
mark_all (c ∷ rest) have = mark_all rest (insert c true have)

-- The loop that collects the columns that are not there.
unfoldable pub absent_from : Dict Bool → List String → List String
absent_from have [] = []
absent_from have (c ∷ rest) =
    let others = absent_from have rest in if has_key have c then others else c ∷ others

-- missing
unfoldable pub missing : List String → List String → List String
missing expected actual = absent_from (mark_all actual []) expected

-- paramNames
abbrev pub param_names : List Parameter → List String
param_names = map (λ p. p.name)

abbrev pub is_nil : {A : Type 0} → List A → Bool
is_nil [] = true
is_nil (x ∷ xs) = false

-- The loop over the rows of the table's columns.
abbrev pub mark_rows : List (Result String) → Dict Bool → Result (Dict Bool)
mark_rows =
    for_rows (wrapped "validator: failed to scan column name: %w" []) (λ name m. insert name true m)

-- The columns of the table `metrics`.
abbrev pub present_in : Cursor String → Result (Dict Bool)
present_in cursor = do present ← mark_rows cursor.rows []; check cursor.rows_err; ok present

unfoldable pub present_columns : {A : Type 0} → Connection A → Result (Dict Bool)
present_columns db = do
  cursor ← wrap "validator: failed to introspect metrics schema: %w" [] db.metrics_columns
  present_in cursor

abbrev pub no_missing : Query → List String → Result (Unit {0})
no_missing q [] = ok tt
no_missing q (c ∷ cs) = err (
    formatted "validator: %s requires column(s) not present on metrics: %s"
      (q.id ∷ join ", " (c ∷ cs) ∷ []))

-- checkRequiredColumns
unfoldable pub check_required_columns : {A : Type 0} → Connection A → Query → Result (Unit {0})
check_required_columns db q =
    if is_nil q.required_columns
    then ok tt
    else do present ← present_columns db; no_missing q (absent_from present q.required_columns)

-- The check of the number of parameters.
unfoldable pub check_params : {A : Type 0} → Query → List A → Result (Unit {0})
check_params q params =
    if not (length params == length q.parameters)
    then err (
        formatted "validator: %s expects %d parameter(s) (%v), got %d" (
          q.id
          ∷ show_ℤ (pos (length q.parameters))
          ∷ append "[" (append (join " " (param_names q.parameters)) "]")
          ∷ show_ℤ (pos (length params))
          ∷ []))
    else ok tt

abbrev pub validation : Query → List String → Validation
validation q columns = record {
  query_id = q.id;
  columns = columns;
  missing_output = if is_nil q.expected_output then [] else missing q.expected_output columns;
}

-- The columns that the query gives, once EXPLAIN has taken it.
abbrev pub columns_of : Query → Rows → Result (List String)
columns_of q rows = wrap "validator: %s failed to read columns: %w" (q.id ∷ []) rows.columns

abbrev pub explained : {A : Type 0} → Connection A → Query → List A → Result Rows
explained db q params =
    wrap "validator: %s failed EXPLAIN: %w" (q.id ∷ []) (db.query (append "EXPLAIN " q.sql) params)

abbrev pub executed : {A : Type 0} → Connection A → Query → List A → Result Rows
executed db q params =
    wrap "validator: %s failed to execute: %w" (q.id ∷ []) (db.query q.sql params)

unfoldable pub run_query : {A : Type 0} → Connection A → Query → List A → Result Validation
run_query db q params = do
  plan ← explained db q params
  rows ← executed db q params
  columns ← columns_of q rows
  ok (validation q columns)

-- Validate
unfoldable pub validate : {A : Type 0} → Connection A → Query → List A → Result Validation
validate db q params = do check_required_columns db q; check_params q params; run_query db q params

-- `if err != nil { return results, err }`
abbrev pub or_stop :
    List Validation
    → Result Validation
    → (Validation → List Validation × Option Error)
    → List Validation × Option Error
or_stop results (err e) next = (results, some e)
or_stop results (ok r) next = next r

module _ {A : Type 0} (db : Connection A) (params_for : Query → List A) where
  -- The loop of `ValidateAll`, with the results so far.
  unfoldable pub validate_each : List Query → List Validation → List Validation × Option Error
  validate_each [] results = (results, none)
  validate_each (q ∷ rest) results =
      or_stop results (validate db q (params_for q)) (λ r. validate_each rest (results ++ r ∷ []))

  -- ValidateAll
  unfoldable pub validate_all : Dict Query → List Validation × Option Error
  validate_all catalog = validate_each (all catalog) []
