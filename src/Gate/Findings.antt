-- ===== src/Gate/Findings.antt =====
-- The single findings of the gate: one check of one metric of one endpoint.
use duckdb_load_testing_tool.Prelude.{
  String, Option, none, some, Bool, false, ◌&&◌, if◌then◌else◌, is_some,
}
use duckdb_load_testing_tool.Float.{Float64, nought, gt}
use duckdb_load_testing_tool.Policy.{
  Status, pass, warn, fail, unknown, LatencyPolicy, ErrorRatePolicy,
}
use duckdb_load_testing_tool.Gate.Types.{Check, budget, regression, Finding}

-- A threshold of one check, the harder one first, and the verdict of the four cases of the `switch`
-- statements: beyond the hard threshold, beyond the soft one, and within both, where the harder
-- threshold that is set is reported.
abbrev pub Verdict : Type 0 → Type 0
Verdict F = Status × Option F

-- One configured pair of thresholds, with the tests against them already made.
abbrev pub judge : {F : Type 0} → Bool → Bool → Option F → Option F → Verdict F
judge over_hard over_soft hard soft =
    if over_hard
    then (fail, hard)
    else if over_soft
    then (warn, soft)
    else if is_some hard
    then (pass, hard)
    else if is_some soft
    then (pass, soft)
    else (pass, none)

module _ {F : Type 0} where
  -- unknownFinding
  unfoldable pub unknown_finding : String → String → Check → String → Finding F
  unknown_finding endpoint metric check reason = record {
    scope = endpoint;
    metric = metric;
    check = check;
    status = unknown;
    baseline = none;
    current = none;
    delta = none;
    change_percent = none;
    threshold = none;
    reason = reason;
    primary_timing_change = none;
  }

module _ {F : Type 0} ⦃d : Float64 F⦄ where
  open d use {lit, sub, mul, div, lt, le, feq}

  -- p != nil && value > *p
  abbrev pub above : F → Option F → Bool
  above value none = false
  above value (some t) = gt value t

  -- percentChange
  unfoldable pub percent_change : F → F → F
  percent_change baseline current =
      if feq baseline nought then nought else mul (div (sub current baseline) baseline) (lit 100 0)

  -- budgetFinding
  unfoldable pub budget_finding : String → String → F → LatencyPolicy F → Finding F
  budget_finding endpoint metric current lp =
      let (status, threshold) =
        judge (above current lp.max_ms) (above current lp.warn_max_ms) lp.max_ms lp.warn_max_ms in
      record {
        scope = endpoint;
        metric = metric;
        check = budget;
        status = status;
        baseline = none;
        current = some current;
        delta = none;
        change_percent = none;
        threshold = threshold;
        reason = "";
        primary_timing_change = none;
      }

  -- minAbsolute of regressionFinding
  abbrev pub min_absolute : LatencyPolicy F → F
  min_absolute lp = elim lp.min_absolute_regression_ms [ none ↦ nought | some m ↦ m ]

  -- regressionFinding
  unfoldable pub regression_finding : String → String → F → F → LatencyPolicy F → Finding F
  unfolding percent_change
  regression_finding endpoint metric baseline current lp =
      let delta = sub current baseline in
      let change = percent_change baseline current in
      let exceeds_floor = le (min_absolute lp) delta in
      let (status, threshold) =
        judge (above change lp.max_regression_percent && exceeds_floor)
          (above change lp.warn_regression_percent && exceeds_floor) lp.max_regression_percent
          lp.warn_regression_percent in
      record {
        scope = endpoint;
        metric = metric;
        check = regression;
        status = status;
        baseline = some baseline;
        current = some current;
        delta = some delta;
        change_percent = some change;
        threshold = threshold;
        reason = "";
        primary_timing_change = none;
      }

  -- The budget half of evaluateErrorRate, with enough samples.
  unfoldable pub error_budget_finding : String → F → ErrorRatePolicy F → Finding F
  error_budget_finding endpoint current ep =
      let (status, threshold) =
        judge (above current ep.max_absolute) (above current ep.warn_max_absolute) ep.max_absolute
          ep.warn_max_absolute in
      record {
        scope = endpoint;
        metric = "error_rate";
        check = budget;
        status = status;
        baseline = none;
        current = some current;
        delta = none;
        change_percent = none;
        threshold = threshold;
        reason = "";
        primary_timing_change = none;
      }

  -- The regression half of evaluateErrorRate, with enough samples on both sides.
  unfoldable pub error_regression_finding : String → F → F → ErrorRatePolicy F → Finding F
  error_regression_finding endpoint baseline current ep =
      let delta = sub current baseline in
      let (status, threshold) =
        judge (above delta ep.max_absolute_increase) (above delta ep.warn_absolute_increase)
          ep.max_absolute_increase ep.warn_absolute_increase in
      record {
        scope = endpoint;
        metric = "error_rate";
        check = regression;
        status = status;
        baseline = some baseline;
        current = some current;
        delta = some delta;
        change_percent = none;
        threshold = threshold;
        reason = "";
        primary_timing_change = none;
      }
