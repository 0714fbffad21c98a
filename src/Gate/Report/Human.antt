-- ===== src/Gate/Report/Human.antt =====
-- The report for a terminal: `FormatHuman` and `formatMs` of sidecar-go/analysis/gate/report.go.
-- strings.ToUpper is an argument.
use Prim.Native.String.{◌++◌ as append, count}
use duckdb_load_testing_tool.Prelude.{
  ℕ, zero, suc, ◌-◌, String, Bool, true, false, str_eq, Option, none, some, List, [], ◌∷◌,
  if◌then◌else◌,
}
use duckdb_load_testing_tool.Prelude.Int.{pos}
use duckdb_load_testing_tool.Prelude.Format.{show_ℤ}
use duckdb_load_testing_tool.Float.{Float64}
use duckdb_load_testing_tool.Policy.{Status, unknown, status_text}
use duckdb_load_testing_tool.Analysis.Bottleneck.{TimingChange}
use duckdb_load_testing_tool.Gate.Types.{
  Check, budget, regression, check_text, Finding, Summary, GateResult,
}
use duckdb_load_testing_tool.Queries.Text.{join}

-- The text of the parts in a row.
unfoldable pub concat : List String → String
concat [] = ""
concat (s ∷ rest) = append s (concat rest)

unfoldable pub spaces : ℕ → String
spaces zero = ""
spaces (suc n) = append " " (spaces n)

-- `%-ns`, which counts characters
unfoldable pub pad_right : ℕ → String → String
unfolding spaces
pad_right width s = append s (spaces (width - count s))

abbrev list_line : String → List String → String
list_line label [] = ""
list_line label (x ∷ xs) = append label (append (join ", " (x ∷ xs)) "\n")

abbrev counts_line : Summary → String
counts_line s = concat (
    show_ℤ (pos s.passed)
    ∷ " passed, "
    ∷ show_ℤ (pos s.warned)
    ∷ " warned, "
    ∷ show_ℤ (pos s.failed)
    ∷ " failed, "
    ∷ show_ℤ (pos s.unknown)
    ∷ " unknown\n"
    ∷ [])

abbrev is_unknown : Status → Bool
is_unknown unknown = true
is_unknown _ = false

module _ {F : Type 0} ⦃d : Float64 F⦄ (to_upper : String → String) where
  open d use {format, format_signed}

  -- formatMs
  unfoldable pub format_ms : F → String → String
  format_ms v metric =
      if str_eq metric "error_rate" then append (format 2 v) "%" else append (format 2 v) "ms"

  abbrev change_part : Option F → String
  change_part none = ""
  change_part (some c) = concat ("  (" ∷ format_signed 2 c ∷ "%)" ∷ [])

  abbrev allowed_line : Option F → String
  allowed_line none = ""
  allowed_line (some t) = concat ("        allowed: " ∷ format_signed 2 t ∷ "%\n" ∷ [])

  abbrev timing_line : Option (TimingChange F) → String
  timing_line none = ""
  timing_line (some t) =
      if str_eq t.phase ""
      then ""
      else concat (
          "        primary timing change: "
          ∷ to_upper t.phase
          ∷ " "
          ∷ format_signed 2 t.delta_ms
          ∷ "ms\n"
          ∷ [])

  abbrev budget_part : Option F → String → String
  budget_part none metric = ""
  budget_part (some t) metric = concat ("  (budget: " ∷ format_ms t metric ∷ ")" ∷ [])

  -- The cases of the `switch` behind that of UNKNOWN.
  abbrev details_of : Check → Option F → Option F → Finding F → String
  details_of regression (some base) (some cur) f = concat (
      "        "
      ∷ format_ms base f.metric
      ∷ " -> "
      ∷ format_ms cur f.metric
      ∷ change_part f.change_percent
      ∷ "\n"
      ∷ allowed_line f.threshold
      ∷ timing_line f.primary_timing_change
      ∷ [])
  details_of regression none cur f = ""
  details_of regression (some base) none f = ""
  details_of budget base (some cur) f =
      concat (
        "        current: " ∷ format_ms cur f.metric ∷ budget_part f.threshold f.metric ∷ "\n" ∷ [])
  details_of budget base none f = ""

  abbrev finding_text : Finding F → String
  finding_text f = concat (
      pad_right 7 (status_text f.status)
      ∷ " "
      ∷ pad_right 24 f.scope
      ∷ " "
      ∷ f.metric
      ∷ " ("
      ∷ check_text f.check
      ∷ ")\n"
      ∷ (if is_unknown f.status
          then concat ("        reason: " ∷ f.reason ∷ "\n" ∷ [])
          else details_of f.check f.baseline f.current f)
      ∷ [])

  -- The loop over the violations.
  unfoldable pub findings_text : List (Finding F) → String
  findings_text [] = ""
  findings_text (f ∷ rest) = append (finding_text f) (findings_text rest)

  abbrev violations_text : List (Finding F) → String
  violations_text [] = ""
  violations_text (f ∷ rest) = append "\n" (findings_text (f ∷ rest))

  -- FormatHuman
  unfoldable pub format_human : GateResult F → String
  format_human r = concat (
      "PERFORMANCE GATE: "
      ∷ status_text r.status
      ∷ "\n"
      ∷ counts_line r.summary
      ∷ list_line "new endpoints (no baseline): " r.new_endpoints
      ∷ list_line "removed endpoints (baseline only): " r.removed_endpoints
      ∷ violations_text r.violations
      ∷ [])
