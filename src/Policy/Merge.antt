-- ===== src/Policy/Merge.antt =====
-- Field-by-field resolution of a policy: `EffectiveMetricPolicy`, `mergeLatency`, `mergeErrorRate`.
use duckdb_load_testing_tool.Prelude.{String, ◌≡◌, Option, none, some, arith}
use duckdb_load_testing_tool.Prelude.Int.{ℤ}
use duckdb_load_testing_tool.Prelude.Dict.{lookup}
use duckdb_load_testing_tool.Policy.{
  LatencyPolicy, ErrorRatePolicy, MetricPolicy, Policy, override_latency, override_error_rate,
  apply_override, effective_metric_policy,
}

pub data Percentile : Type 0 where
  p50 p95 p99 : Percentile

-- The settings of one latency check, and of the error-rate check.
pub data LatencyField : Type 0 where
  max_ms warn_max_ms max_regression warn_regression min_absolute : LatencyField

pub data ErrorField : Type 0 where
  max_absolute warn_max_absolute max_increase warn_increase : ErrorField

-- The first of two settings that is there.
abbrev pub first_set : {A : Type 0} → Option A → Option A → Option A
first_set (some a) other = some a
first_set none other = other

module _ {F : Type 0} where
  abbrev pub latency : Percentile → MetricPolicy F → Option (LatencyPolicy F)
  latency p50 m = m.p50
  latency p95 m = m.p95
  latency p99 m = m.p99

  abbrev pub latency_field : LatencyField → Option (LatencyPolicy F) → Option F
  latency_field f none = none
  latency_field max_ms (some l) = l.max_ms
  latency_field warn_max_ms (some l) = l.warn_max_ms
  latency_field max_regression (some l) = l.max_regression_percent
  latency_field warn_regression (some l) = l.warn_regression_percent
  latency_field min_absolute (some l) = l.min_absolute_regression_ms

  abbrev pub error_field : ErrorField → Option (ErrorRatePolicy F) → Option F
  error_field f none = none
  error_field max_absolute (some l) = l.max_absolute
  error_field warn_max_absolute (some l) = l.warn_max_absolute
  error_field max_increase (some l) = l.max_absolute_increase
  error_field warn_increase (some l) = l.warn_absolute_increase

  -- What the file says for one endpoint, if anything.
  abbrev pub own_latency : Percentile → Option (MetricPolicy F) → Option (LatencyPolicy F)
  own_latency p none = none
  own_latency p (some m) = latency p m

  abbrev pub own_error_rate : Option (MetricPolicy F) → Option (ErrorRatePolicy F)
  own_error_rate none = none
  own_error_rate (some m) = m.error_rate

  abbrev pub own_min_samples : Option (MetricPolicy F) → Option ℤ
  own_min_samples none = none
  own_min_samples (some m) = m.min_samples

  latency_field-override :
      (f : LatencyField) (base own : Option (LatencyPolicy F))
      → latency_field f (override_latency base own)
        ≡ first_set (latency_field f own) (latency_field f base)
  unfolding override_latency
  latency_field-override max_ms base own = ground arith
  latency_field-override _ base own = ground arith

  error_field-override :
      (f : ErrorField) (base own : Option (ErrorRatePolicy F))
      → error_field f (override_error_rate base own)
        ≡ first_set (error_field f own) (error_field f base)
  unfolding override_error_rate
  error_field-override max_absolute base own = ground arith
  error_field-override _ base own = ground arith

  latency-apply :
      (q : Percentile) (base : MetricPolicy F) (own : Option (MetricPolicy F))
      → latency q (apply_override base own) ≡ override_latency (latency q base) (own_latency q own)
  unfolding apply_override
  latency-apply p50 base own = ground arith
  latency-apply _ base own = ground arith

  error_rate-apply :
      (base : MetricPolicy F) (own : Option (MetricPolicy F))
      → (apply_override base own).error_rate
        ≡ override_error_rate base.error_rate (own_error_rate own)
  unfolding apply_override
  error_rate-apply base own = ground arith

  min_samples-apply :
      (base : MetricPolicy F) (own : Option (MetricPolicy F))
      → (apply_override base own).min_samples ≡ first_set (own_min_samples own) base.min_samples
  unfolding apply_override
  min_samples-apply base own = ground arith

  -- Every setting of every check that applies to an endpoint is the one that the endpoint's own entry
  -- sets, and where it sets none, the default's: for the five settings of each percentile, the four
  -- of the error rate, and the sample minimum.
  pub effective_metric_policy_fields :
      (p : Policy F) (endpoint : String)
      → let own = lookup endpoint p.endpoints in
        let effective = effective_metric_policy p endpoint in
        ((q : Percentile) (f : LatencyField)
          → latency_field f (latency q effective)
            ≡ first_set
                (latency_field f (own_latency q own))
                (latency_field f (latency q p.defaults)))
        × ((f : ErrorField)
            → error_field f effective.error_rate
              ≡ first_set
                  (error_field f (own_error_rate own))
                  (error_field f p.defaults.error_rate))
        × (effective.min_samples ≡ first_set (own_min_samples own) p.defaults.min_samples)
  unfolding effective_metric_policy
  effective_metric_policy_fields p endpoint =
      let own = lookup endpoint p.endpoints in
      (
        λ q f. rw (latency-apply q p.defaults own) (latency_field-override f _ _),
        λ f. rw (error_rate-apply p.defaults own) (error_field-override f _ _),
        min_samples-apply p.defaults own,
      )
