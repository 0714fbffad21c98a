-- ===== src/Tests/Commands.antt =====
-- The command from its arguments.
use duckdb_load_testing_tool.Prelude.{◌≡◌, refl, String, [], ◌∷◌, none, some, str_eq, if◌then◌else◌}
use duckdb_load_testing_tool.Prelude.Int.{pos}
use duckdb_load_testing_tool.Prelude.Dict.{lookup}
use duckdb_load_testing_tool.Prelude.Result.{ok, err, message}
use duckdb_load_testing_tool.Float.Milli.{Milli, milli_float}
use duckdb_load_testing_tool.Duckload.Args.{
  FlagSet, string_flags, exits, parsed, has_equals, parse_args,
}
use duckdb_load_testing_tool.Duckload.Args.Order.{nothing, flag_value, no_flags, parse_args-order}
use duckdb_load_testing_tool.Duckload.Commands.{
  Surroundings, run_summary, run_check_analysis, any_fixture_fails, gate_main, main_code,
}
use duckdb_load_testing_tool.Duckload.{open_read_only}
use duckdb_load_testing_tool.Analysis.Comparator.{get_run_stats}
use duckdb_load_testing_tool.Prelude.Format.{show_ℤ}
use duckdb_load_testing_tool.Queries.Text.{join}
use duckdb_load_testing_tool.Policy.{warn}
use duckdb_load_testing_tool.Gate.Types.{Finding, regression}
use duckdb_load_testing_tool.Gate.Report.Human.{
  format_human, concat, findings_text, pad_right, format_ms,
}
use duckdb_load_testing_tool.Tests.Data.{ms}
use duckdb_load_testing_tool.Tests.Duckload.{world}

abbrev set : FlagSet
set = string_flags ("run-id" ∷ [])

parse_args-order_example :
    parse_args set ("--run-id" ∷ "x" ∷ "result.duckdb" ∷ [])
    ≡ parse_args set ("result.duckdb" ∷ "--run-id" ∷ "x" ∷ [])
unfolding has_equals
parse_args-order_example =
    parse_args-order set [] ("--run-id" ∷ "x" ∷ []) "result.duckdb" [] nothing
      (flag_value refl refl no_flags) refl

-- A value behind `=`, an unknown flag, a missing value, and help.
parsed_args :
    (parse_args set ("-run-id=a=b" ∷ "f" ∷ []) ≡ parsed (("run-id", "a=b") ∷ [], "f" ∷ []))
    × (parse_args set ("--id" ∷ "x" ∷ []) ≡ exits (pos 2))
    × (parse_args set ("--run-id" ∷ []) ≡ exits (pos 2))
    × (parse_args set ("-h" ∷ []) ≡ exits (pos 0))
unfolding parse_args has_equals
parsed_args = (refl, refl, refl, refl)

abbrev surroundings : Surroundings Milli
surroundings = record {
  world = world;
  print_stats = λ s. ok tt;
  print_endpoints = λ s. ok tt;
  print_comparison = λ s. ok tt;
  print_diagnosis = λ r e. ok tt;
  parse_int = λ text. none;
  fixtures = ("slow_pod", err (message "disk full")) ∷ [];
  current_run_id = "cur";
  catalog = [];
}

-- An undefined flag ends the process with 2, where an error of the command itself gives 1.
codes :
    (main_code surroundings ("summary" ∷ "f" ∷ "--run-id" ∷ "cur" ∷ []) ≡ pos 0)
    × (main_code surroundings ("summary" ∷ "f" ∷ []) ≡ pos 1)
    × (main_code surroundings ("summary" ∷ "f" ∷ "--id" ∷ "cur" ∷ []) ≡ pos 2)
    × (main_code surroundings ("check-analysis" ∷ []) ≡ pos 1)
    × (main_code surroundings ("gate" ∷ "--warn-exit-code" ∷ "x" ∷ []) ≡ pos 2)
    × (main_code surroundings ("help" ∷ []) ≡ pos 0)
    × (main_code surroundings [] ≡ pos 1)
unfolding main_code run_summary parse_args has_equals lookup open_read_only get_run_stats
    run_check_analysis any_fixture_fails gate_main
codes = (refl, refl, refl, refl, refl, refl, refl)

abbrev slower : Finding Milli
slower = record {
  scope = "GET /a";
  metric = "p95";
  check = regression;
  status = warn;
  baseline = some (ms 100);
  current = some (ms 125);
  delta = some (ms 25);
  change_percent = some (ms 25);
  threshold = some (ms 20);
  reason = "";
  primary_timing_change = some (record { phase = "ttfb"; delta_ms = ms 24 });
}

abbrev report : String
report =
    format_human (λ s. if str_eq s "ttfb" then "TTFB" else s)
      (record {
        schema = 1;
        status = warn;
        summary = record { passed = 3; warned = 1; failed = 0; unknown = 0 };
        violations = slower ∷ [];
        new_endpoints = "/b" ∷ "/c" ∷ [];
        removed_endpoints = [];
      })

report_text :
    report
    ≡ "PERFORMANCE GATE: WARN\n3 passed, 1 warned, 0 failed, 0 unknown\nnew endpoints (no baseline): /b, /c\n\nWARN    GET /a                   p95 (regression)\n        100.00ms -> 125.00ms  (+25.00%)\n        allowed: +20.00%\n        primary timing change: TTFB +24.00ms\n"
unfolding format_human concat show_ℤ join findings_text pad_right format_ms
report_text = refl
