-- ===== src/Policy.antt =====
-- The performance policy: sidecar-go/analysis/policy/policy.go. A pointer that may be nil is an
-- `Option`. The YAML decoder and the file system are arguments of `parse` and `load`.
pub mod Merge
pub mod Load
use duckdb_load_testing_tool.Prelude.{
  String, Option, none, some, [], ◌∷◌, Bool, true, false, str_eq, if◌then◌else◌,
}
use duckdb_load_testing_tool.Prelude.Int.{ℤ, pos, eqb_ℤ}
use duckdb_load_testing_tool.Prelude.Dict.{Dict, lookup}
use duckdb_load_testing_tool.Prelude.Format.{show_ℤ}
use duckdb_load_testing_tool.Prelude.Result.{Result, ok, err, formatted, wrap, ◌>>=◌, ◌>>◌}

-- SchemaVersion
abbrev pub schema_version : ℤ
schema_version = pos 1

-- `Status` is a string: its four constants, and any other text that a policy file may hold.
pub data Status : Type 0 where
  pass warn fail unknown : Status
  other : String → Status

abbrev pub status_text : Status → String
status_text pass = "PASS"
status_text warn = "WARN"
status_text fail = "FAIL"
status_text unknown = "UNKNOWN"
status_text (other s) = s

-- DefaultMinSamples
abbrev pub default_min_samples : ℤ
default_min_samples = pos 30

-- DefaultUnknownTreatment
abbrev pub default_unknown_treatment : Status
default_unknown_treatment = warn

pub record LatencyPolicy (F : Type 0) : Type 0 where
  pub max_ms : Option F
  pub warn_max_ms : Option F
  pub max_regression_percent : Option F
  pub warn_regression_percent : Option F
  pub min_absolute_regression_ms : Option F

pub record ErrorRatePolicy (F : Type 0) : Type 0 where
  pub max_absolute : Option F
  pub warn_max_absolute : Option F
  pub max_absolute_increase : Option F
  pub warn_absolute_increase : Option F

pub record MetricPolicy (F : Type 0) : Type 0 where
  pub min_samples : Option ℤ
  pub p50 : Option (LatencyPolicy F)
  pub p95 : Option (LatencyPolicy F)
  pub p99 : Option (LatencyPolicy F)
  pub error_rate : Option (ErrorRatePolicy F)

pub record Policy (F : Type 0) : Type 0 where
  pub version : ℤ
  pub unknown_treatment : Status
  pub defaults : MetricPolicy F
  pub endpoints : Dict (MetricPolicy F)

-- s == ""
abbrev pub is_empty : Status → Bool
is_empty (other s) = str_eq s ""
is_empty _ = false

-- The first `case` of the `switch` in `Validate`.
abbrev pub is_accepted : Status → Bool
is_accepted (other s) = str_eq s ""
is_accepted unknown = false
is_accepted _ = true

-- `if override.f != nil { merged.f = override.f }`
abbrev pub override_with : {A : Type 0} → Option A → Option A → Option A
override_with base (some a) = some a
override_with base none = base

module _ {F : Type 0} where
  -- (*Policy).Validate
  unfoldable pub validate : Policy F → Result (Unit {0})
  validate p =
      if eqb_ℤ p.version schema_version
      then (if is_accepted p.unknown_treatment
          then ok tt
          else err (
              formatted "unknown_treatment must be PASS, WARN, or FAIL, got %q"
                (status_text p.unknown_treatment ∷ [])))
      else err (
          formatted "unsupported policy version %d (expected %d)"
            (show_ℤ p.version ∷ show_ℤ schema_version ∷ []))

  -- The assignment of the default treatment in `Parse`.
  abbrev pub with_default_treatment : Policy F → Policy F
  with_default_treatment p =
      if is_empty p.unknown_treatment
      then record p { unknown_treatment = default_unknown_treatment }
      else p

  -- Parse, with `yaml.Unmarshal` as an argument
  unfoldable pub parse : (String → Result (Policy F)) → String → Result (Policy F)
  unfolding validate
  parse unmarshal text = do
    p ← wrap "failed to parse policy: %w" [] (unmarshal text)
    validate p
    ok (with_default_treatment p)

  -- Load, with `os.ReadFile` and `yaml.Unmarshal` as arguments
  unfoldable pub load :
      (String → Result String) → (String → Result (Policy F)) → String → Result (Policy F)
  unfolding parse
  load read_file unmarshal path = do
    text ← wrap "policy: failed to read %s: %w" (path ∷ []) (read_file path)
    wrap "policy: %s: %w" (path ∷ []) (parse unmarshal text)

  -- mergeLatency; the caller has checked that the override is not nil
  unfoldable pub merge_latency : Option (LatencyPolicy F) → LatencyPolicy F → LatencyPolicy F
  merge_latency none o = o
  merge_latency (some base) o = record {
    max_ms = override_with base.max_ms o.max_ms;
    warn_max_ms = override_with base.warn_max_ms o.warn_max_ms;
    max_regression_percent = override_with base.max_regression_percent o.max_regression_percent;
    warn_regression_percent = override_with base.warn_regression_percent o.warn_regression_percent;
    min_absolute_regression_ms =
        override_with base.min_absolute_regression_ms o.min_absolute_regression_ms;
  }

  -- mergeErrorRate
  unfoldable pub merge_error_rate :
      Option (ErrorRatePolicy F) → ErrorRatePolicy F → ErrorRatePolicy F
  merge_error_rate none o = o
  merge_error_rate (some base) o = record {
    max_absolute = override_with base.max_absolute o.max_absolute;
    warn_max_absolute = override_with base.warn_max_absolute o.warn_max_absolute;
    max_absolute_increase = override_with base.max_absolute_increase o.max_absolute_increase;
    warn_absolute_increase = override_with base.warn_absolute_increase o.warn_absolute_increase;
  }

  -- `if override.P50 != nil { effective.P50 = mergeLatency(effective.P50, override.P50) }`
  unfoldable pub override_latency :
      Option (LatencyPolicy F) → Option (LatencyPolicy F) → Option (LatencyPolicy F)
  unfolding merge_latency
  override_latency base none = base
  override_latency base (some o) = some (merge_latency base o)

  unfoldable pub override_error_rate :
      Option (ErrorRatePolicy F) → Option (ErrorRatePolicy F) → Option (ErrorRatePolicy F)
  unfolding merge_error_rate
  override_error_rate base none = base
  override_error_rate base (some o) = some (merge_error_rate base o)

  unfoldable pub apply_override : MetricPolicy F → Option (MetricPolicy F) → MetricPolicy F
  unfolding override_latency override_error_rate
  apply_override effective none = effective
  apply_override effective (some override) = record {
    min_samples = override_with effective.min_samples override.min_samples;
    p50 = override_latency effective.p50 override.p50;
    p95 = override_latency effective.p95 override.p95;
    p99 = override_latency effective.p99 override.p99;
    error_rate = override_error_rate effective.error_rate override.error_rate;
  }

  -- (*Policy).EffectiveMetricPolicy
  unfoldable pub effective_metric_policy : Policy F → String → MetricPolicy F
  unfolding apply_override
  effective_metric_policy p endpoint = apply_override p.defaults (lookup endpoint p.endpoints)

  -- MetricPolicy.MinSamplesOrDefault
  unfoldable pub min_samples_or_default : MetricPolicy F → ℤ
  min_samples_or_default m = elim m.min_samples [ some n ↦ n | none ↦ default_min_samples ]
