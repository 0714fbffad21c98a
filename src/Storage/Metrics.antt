-- ===== src/Storage/Metrics.antt =====
-- `MetricsStats` and `GetStats` of sidecar-go/storage/duckdb.go. The answer of DuckDB to the query is
-- an argument.
use duckdb_load_testing_tool.Prelude.{if◌then◌else◌, []}
use duckdb_load_testing_tool.Prelude.Int.{ℤ, pos, eqb_ℤ, ◌-ℤ◌}
use duckdb_load_testing_tool.Prelude.Result.{Result, wrap}
use duckdb_load_testing_tool.Float.{Float64, nought}

pub record MetricsStats (F : Type 0) : Type 0 where
  pub total_requests : ℤ
  pub error_count : ℤ
  pub avg_rtt : F
  pub p50_rtt : F
  pub p95_rtt : F
  pub p99_rtt : F
  pub start_ts : ℤ
  pub end_ts : ℤ

module _ {F : Type 0} ⦃d : Float64 F⦄ where
  open d use {lit, mul, div, feq, of_int}

  -- ErrorRate
  unfoldable pub error_rate : MetricsStats F → F
  error_rate s =
      if eqb_ℤ s.total_requests (pos 0)
      then nought
      else mul (div (of_int s.error_count) (of_int s.total_requests)) (lit 100 0)

  -- DurationSeconds
  unfoldable pub duration_seconds : MetricsStats F → F
  duration_seconds s = div (of_int (s.end_ts -ℤ s.start_ts)) (lit 1000 0)

  -- RPS
  unfoldable pub rps : MetricsStats F → F
  unfolding duration_seconds
  rps s =
      let duration = duration_seconds s in
      if feq duration nought then nought else div (of_int s.total_requests) duration

-- GetStats
abbrev pub get_stats : {F : Type 0} → Result (MetricsStats F) → Result (MetricsStats F)
get_stats row = wrap "failed to get stats: %w" [] row
