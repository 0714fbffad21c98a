-- ===== src/Analysis/Database.antt =====
-- What the analysis code sees of DuckDB through `database/sql`: for each query that it sends, an
-- error, or a cursor of rows. The SQL of sidecar-go/analysis/queries/sql is run by DuckDB, so the
-- answers are arguments of the model.
use duckdb_load_testing_tool.Prelude.{String, Option, List, [], ◌∷◌}
use duckdb_load_testing_tool.Prelude.Int.{ℤ}
use duckdb_load_testing_tool.Prelude.Result.{Error, Result, ok, err}

-- `rows.Next` and `rows.Scan` give one result for each row, and `rows.Err` the error that ended them.
pub record Cursor (R : Type 0) : Type 0 where
  pub rows : List (Result R)
  pub rows_err : Option Error

-- endpoint_summary.sql
pub record SummaryRow (F : Type 0) : Type 0 where
  pub endpoint : String
  pub request_count : ℤ
  pub error_count : ℤ
  pub avg_rtt : F
  pub p50_rtt : F
  pub p90_rtt : F
  pub p95_rtt : F
  pub p99_rtt : F
  pub max_rtt : F
  pub avg_dns : F
  pub avg_tcp : F
  pub avg_tls : F
  pub avg_ttfb : F
  pub avg_transfer : F

-- endpoint_status_distribution.sql
pub record StatusRow : Type 0 where
  pub endpoint : String
  pub status : ℤ
  pub count : ℤ

-- pod_endpoint_summary.sql
pub record PodRow (F : Type 0) : Type 0 where
  pub endpoint : String
  pub pod : String
  pub request_count : ℤ
  pub error_count : ℤ
  pub avg_rtt : F
  pub p95_rtt : F

-- The row of `GetRunStats`, and with its run of `GetHistoricalTrend`.
pub record RunRow (F : Type 0) : Type 0 where
  pub run_id : String
  pub total_requests : ℤ
  pub error_count : ℤ
  pub avg_rtt : F
  pub p50_rtt : F
  pub p95_rtt : F
  pub p99_rtt : F
  pub min_rtt : F
  pub max_rtt : F
  pub start_ts : ℤ
  pub end_ts : ℤ

-- The answers to the queries, by their bound arguments.
pub record Database (F : Type 0) : Type 0 where
  pub endpoint_summary : String → Result (Cursor (SummaryRow F))
  pub status_distribution : String → Result (Cursor StatusRow)
  pub pod_endpoint_summary : String → Result (Cursor (PodRow F))
  pub run_row : String → Result (RunRow F)
  pub trend : ℤ → Result (Cursor (RunRow F))

-- A loop `for rows.Next() { if err := rows.Scan(…); err != nil { return …err } body }`, where
-- `on_err` makes the returned error.
unfoldable pub for_rows :
    {R S : Type 0} → (Error → Error) → (R → S → S) → List (Result R) → S → Result S
for_rows on_err body [] s = ok s
for_rows on_err body (ok r ∷ rest) s = for_rows on_err body rest (body r s)
for_rows on_err body (err e ∷ rest) s = err (on_err e)
