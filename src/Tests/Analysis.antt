-- ===== src/Tests/Analysis.antt =====
-- The analysis of two runs.
use duckdb_load_testing_tool.Prelude.{◌≡◌, ◌≢◌, refl, List, [], ◌∷◌, false, true, map, keep}
use duckdb_load_testing_tool.Prelude.Int.{pos, ◌*ℤ◌, ◌-ℤ◌, ◌+ℤ◌}
use duckdb_load_testing_tool.Prelude.Dict.{lookup, insert}
use duckdb_load_testing_tool.Prelude.Result.{Result, ok, err}
use duckdb_load_testing_tool.Float.{nought}
use duckdb_load_testing_tool.Float.Milli.{Milli, milli_float}
use duckdb_load_testing_tool.Analysis.Endpoint.{
  EndpointStats, stats_of_row, get_endpoint_stats, by_endpoint,
}
use duckdb_load_testing_tool.Analysis.Endpoint.Order.{core, get_endpoint_stats-core}
use duckdb_load_testing_tool.Analysis.Bottleneck.{TimingBreakdown}
use duckdb_load_testing_tool.Analysis.Comparator.{
  RunStats, default_thresholds, checks, compare_stats, get_run_stats,
}
use duckdb_load_testing_tool.Analysis.Comparator.Verdict.{found_by, compare_stats-passing}
use duckdb_load_testing_tool.Analysis.Comparator.Baseline.{
  no_stats, calculate_baseline, valid_runs, has_read, total_over, calculate_baseline-totals,
}
use duckdb_load_testing_tool.Analysis.Regression.{RegressionFinding, detect_endpoint_regressions}
use duckdb_load_testing_tool.Analysis.Explain.{Explanation, explain}
use duckdb_load_testing_tool.Analysis.Explain.Agreement.{explained, explain-regressed}
use duckdb_load_testing_tool.Tests.Data.{ms, database, current_rows}

abbrev or_else : {A : Type 0} → A → Result A → A
or_else a (ok b) = b
or_else a (err e) = a

abbrev detected : List (RegressionFinding Milli)
detected = or_else [] (detect_endpoint_regressions default_thresholds database "base" "cur")

abbrev explanations : List (Explanation Milli)
explanations = or_else [] (explain default_thresholds database "base" "cur")

explain-regressed_example : explained "/a" explanations ≡ true
unfolding detect_endpoint_regressions explain get_endpoint_stats lookup insert by_endpoint
    default_thresholds ◌*ℤ◌ ◌-ℤ◌
explain-regressed_example =
    explain-regressed default_thresholds database "base" "cur" detected explanations refl refl "/a"

get_endpoint_stats-core_example :
    (out : List (EndpointStats Milli)) × (get_endpoint_stats database "cur" ≡ ok out)
    × (map core out ≡ map stats_of_row current_rows)
get_endpoint_stats-core_example =
    get_endpoint_stats-core database "cur" current_rows
      (record { endpoint = "/a"; status = pos 200; count = pos 198 } ∷ []) refl refl
      ((refl, (refl, tt)), ((refl, tt), (tt, tt)))

abbrev slower : RunStats Milli
slower = or_else no_stats (get_run_stats database "cur")

abbrev change : TimingBreakdown Milli
change = record {
  dns = ms 1;
  tcp = ms 0;
  tls = milli_float.neg (ms 7);
  ttfb = ms 5;
  transfer = ms 2;
}

abbrev faster : RunStats Milli
faster = or_else no_stats (get_run_stats database "base")

compare_stats-passing_example :
    let r = compare_stats default_thresholds faster slower in
    (r.is_passing ≡ false) × (r.regressions ≡ found_by (checks default_thresholds faster slower))
unfolding compare_stats get_run_stats default_thresholds ◌*ℤ◌ ◌-ℤ◌
compare_stats-passing_example = compare_stats-passing default_thresholds faster slower

abbrev baseline : RunStats Milli
baseline = or_else no_stats (calculate_baseline database ("base" ∷ "cur" ∷ []))

calculate_baseline-totals_example :
    (runs : List (RunStats Milli))
    × (map ok runs ≡ keep has_read (map (get_run_stats database) ("base" ∷ "cur" ∷ [])))
    × (runs ≢ [])
    × (baseline.total_requests ≡ total_over (λ s. s.total_requests) runs)
    × (baseline.error_count ≡ total_over (λ s. s.error_count) runs)
    × (baseline.min_rtt ≡ nought)
    × (baseline.max_rtt ≡ nought)
unfolding calculate_baseline valid_runs get_run_stats ◌+ℤ◌
calculate_baseline-totals_example =
    calculate_baseline-totals database ("base" ∷ "cur" ∷ []) baseline refl
