-- ===== src/Tests/Data.antt =====
-- Two runs, their answers from DuckDB, and a policy.
use duckdb_load_testing_tool.Prelude.{
  ℕ, ◌*◌, String, none, some, List, [], ◌∷◌, str_eq, if◌then◌else◌,
}
use duckdb_load_testing_tool.Prelude.Int.{pos}
use duckdb_load_testing_tool.Prelude.Result.{Result, ok}
use duckdb_load_testing_tool.Float.Milli.{Milli, milli_float}
use duckdb_load_testing_tool.Policy.{Policy, LatencyPolicy, ErrorRatePolicy, warn}
use duckdb_load_testing_tool.Analysis.Database.{Database, Cursor, SummaryRow, RunRow}
use duckdb_load_testing_tool.Analysis.Endpoint.Order.{delivered}
use duckdb_load_testing_tool.Analysis.Endpoint.{EndpointStats, stats_of_row}

-- A whole number of milliseconds or percent.
abbrev pub ms : ℕ → Milli
ms n = some (pos (n * 1000))

-- endpoint, requests, errors and p95
abbrev pub summary_row : String → ℕ → ℕ → ℕ → SummaryRow Milli
summary_row endpoint count errors p95 = record {
  endpoint = endpoint;
  request_count = pos count;
  error_count = pos errors;
  avg_rtt = ms p95;
  p50_rtt = ms p95;
  p90_rtt = ms p95;
  p95_rtt = ms p95;
  p99_rtt = ms p95;
  max_rtt = ms p95;
  avg_dns = ms 1;
  avg_tcp = ms 2;
  avg_tls = ms 3;
  avg_ttfb = ms p95;
  avg_transfer = ms 4;
}

abbrev pub endpoint : String → ℕ → ℕ → ℕ → EndpointStats Milli
endpoint name count errors p95 = stats_of_row (summary_row name count errors p95)

-- The current run: /b has few requests, and /new is not in the baseline.
abbrev pub current_rows : List (SummaryRow Milli)
current_rows =
    summary_row "/a" 200 2 300 ∷ summary_row "/b" 10 0 10 ∷ summary_row "/new" 150 0 100 ∷ []

abbrev pub baseline_rows : List (SummaryRow Milli)
baseline_rows =
    summary_row "/a" 200 0 200 ∷ summary_row "/b" 200 0 10 ∷ summary_row "/gone" 100 0 40 ∷ []

abbrev pub slow : EndpointStats Milli
slow = endpoint "/a" 200 2 300

abbrev pub rare : EndpointStats Milli
rare = endpoint "/b" 10 0 10

abbrev pub fresh : EndpointStats Milli
fresh = endpoint "/new" 150 0 100

abbrev pub current_run : List (EndpointStats Milli)
current_run = slow ∷ rare ∷ fresh ∷ []

abbrev pub shuffled_run : List (EndpointStats Milli)
shuffled_run = rare ∷ slow ∷ fresh ∷ []

abbrev pub baseline_run : List (EndpointStats Milli)
baseline_run = endpoint "/a" 200 0 200 ∷ endpoint "/b" 200 0 10 ∷ endpoint "/gone" 100 0 40 ∷ []

-- p95: warn above 200 ms, fail above 500 ms, and fail where it grows by over 20% and at least 50 ms.
abbrev pub latency : LatencyPolicy Milli
latency = record {
  max_ms = some (ms 500);
  warn_max_ms = some (ms 200);
  max_regression_percent = some (ms 20);
  warn_regression_percent = none;
  min_absolute_regression_ms = some (ms 50);
}

abbrev pub errors : ErrorRatePolicy Milli
errors = record {
  max_absolute = some (ms 5);
  warn_max_absolute = none;
  max_absolute_increase = none;
  warn_absolute_increase = some (ms 2);
}

-- /b has its own limit.
abbrev pub policy : Policy Milli
policy = record {
  version = pos 1;
  unknown_treatment = warn;
  defaults = record {
    min_samples = none;
    p50 = none;
    p95 = some latency;
    p99 = none;
    error_rate = some errors;
  };
  endpoints =
      (
        "/b",
        record {
          min_samples = none;
          p50 = none;
          p95 = some (record {
            max_ms = some (ms 100);
            warn_max_ms = none;
            max_regression_percent = none;
            warn_regression_percent = none;
            min_absolute_regression_ms = none;
          });
          p99 = none;
          error_rate = none;
        },
      )
      ∷ [];
}

-- What DuckDB answers for the runs "base" and "cur".
abbrev pub answers : {R : Type 0} → List R → Result (Cursor R)
answers rows = ok (delivered rows)

abbrev run_row : String → RunRow Milli
run_row id =
    if str_eq id "base"
    then record {
      run_id = id;
      total_requests = pos 500;
      error_count = pos 0;
      avg_rtt = ms 90;
      p50_rtt = ms 90;
      p95_rtt = ms 200;
      p99_rtt = ms 210;
      min_rtt = ms 1;
      max_rtt = ms 220;
      start_ts = pos 0;
      end_ts = pos 10000;
    }
    else record {
      run_id = id;
      total_requests = pos 360;
      error_count = pos 2;
      avg_rtt = ms 120;
      p50_rtt = ms 110;
      p95_rtt = ms 300;
      p99_rtt = ms 310;
      min_rtt = ms 1;
      max_rtt = ms 330;
      start_ts = pos 0;
      end_ts = pos 10000;
    }

abbrev pub database : Database Milli
database = record {
  endpoint_summary = λ run. answers (if str_eq run "base" then baseline_rows else current_rows);
  status_distribution =
      λ run. answers (record { endpoint = "/a"; status = pos 200; count = pos 198 } ∷ []);
  pod_endpoint_summary = λ run. answers [];
  run_row = λ run. ok (run_row run);
  trend = λ limit. answers [];
}
