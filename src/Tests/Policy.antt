-- ===== src/Tests/Policy.antt =====
-- Policies, decoded from texts by a table.
use duckdb_load_testing_tool.Prelude.{◌≡◌, ◌↔◌, String}
use duckdb_load_testing_tool.Prelude.Dict.{lookup}
use duckdb_load_testing_tool.Prelude.Result.{Result, ok}
use duckdb_load_testing_tool.Float.Milli.{Milli}
use duckdb_load_testing_tool.Policy.{Policy, other, parse, effective_metric_policy}
use duckdb_load_testing_tool.Policy.Load.{Accepted, parse-Accepted}
use duckdb_load_testing_tool.Policy.Merge.{
  Percentile, LatencyField, ErrorField, latency, latency_field, error_field, own_latency,
  own_error_rate, own_min_samples, first_set, effective_metric_policy_fields,
}
use duckdb_load_testing_tool.Tests.Data.{policy}

-- A file that leaves out `unknown_treatment`.
abbrev silent : Policy Milli
silent = record policy { unknown_treatment = other "" }

abbrev decode : String → Result (Policy Milli)
decode text = ok silent

parse-Accepted_example :
    (parse decode "version: 1" ≡ ok policy)
    ↔ ((q : Policy Milli) × (decode "version: 1" ≡ ok q) × Accepted q policy)
parse-Accepted_example = parse-Accepted decode "version: 1" policy

effective_metric_policy_fields_example :
    let own = lookup "/b" policy.endpoints in
    let effective = effective_metric_policy policy "/b" in
    ((q : Percentile) (f : LatencyField)
      → latency_field f (latency q effective)
        ≡ first_set
            (latency_field f (own_latency q own))
            (latency_field f (latency q policy.defaults)))
    × ((f : ErrorField)
        → error_field f effective.error_rate
          ≡ first_set
              (error_field f (own_error_rate own))
              (error_field f policy.defaults.error_rate))
    × (effective.min_samples ≡ first_set (own_min_samples own) policy.defaults.min_samples)
effective_metric_policy_fields_example = effective_metric_policy_fields policy "/b"
