-- ===== src/Gate/Build.antt =====
-- The result of the gate from its findings: `worse` and `build`.
use duckdb_load_testing_tool.Prelude.{
  String, List, [], ◌∷◌, ◌++◌, Bool, not, ℕ, ◌+◌, str_eq, if◌then◌else◌, ltb,
}
use duckdb_load_testing_tool.Prelude.Text.{string_lt}
use duckdb_load_testing_tool.Prelude.Sorting.{sort_by}
use duckdb_load_testing_tool.Policy.{Status, pass, warn, fail, unknown, other, Policy}
use duckdb_load_testing_tool.Gate.Types.{
  Finding, Summary, GateResult, check_text, schema_version, is_pass,
}

-- The local variables of the loop of `build`.
pub record Tally (F : Type 0) : Type 0 where
  pub summary : Summary
  pub violations : List (Finding F)
  pub worst : Status

abbrev pub nothing_yet : {F : Type 0} → Tally F
nothing_yet = record {
  summary = record { passed = 0; warned = 0; failed = 0; unknown = 0 };
  violations = [];
  worst = pass;
}

-- The `rank` of `worse`: a text that the map lacks has the zero value.
abbrev pub rank : Status → ℕ
rank pass = 0
rank unknown = 1
rank warn = 2
rank fail = 3
rank (other _) = 0

-- worse
unfoldable pub worse : Status → Status → Status
worse a b = if ltb (rank a) (rank b) then b else a

-- The status by which a finding counts.
abbrev pub effective_status : Status → Status → Status
effective_status treatment unknown = treatment
effective_status treatment s = s

-- The `switch` of `build`.
abbrev pub count_status : Status → Summary → Summary
count_status pass s = record s { passed = s.passed + 1 }
count_status warn s = record s { warned = s.warned + 1 }
count_status fail s = record s { failed = s.failed + 1 }
count_status unknown s = record s { unknown = s.unknown + 1 }
count_status (other _) s = s

module _ {F : Type 0} where
  -- The loop body of `build`; `continue` skips the rest for a finding that passed.
  unfoldable pub tally_step : Status → Finding F → Tally F → Tally F
  unfolding worse
  tally_step treatment f t =
      let summary = count_status f.status t.summary in
      if is_pass f.status then record t { summary = summary } else record {
        summary = summary;
        violations = t.violations ++ f ∷ [];
        worst = worse t.worst (effective_status treatment f.status);
      }

  unfoldable pub tally_from : Status → Tally F → List (Finding F) → Tally F
  unfolding tally_step
  tally_from treatment t [] = t
  tally_from treatment t (f ∷ rest) = tally_from treatment (tally_step treatment f t) rest

  -- The order of `sort.Slice`.
  unfoldable pub violation_less : Finding F → Finding F → Bool
  violation_less a b =
      if not (str_eq a.scope b.scope)
      then string_lt a.scope b.scope
      else if not (str_eq a.metric b.metric)
      then string_lt a.metric b.metric
      else string_lt (check_text a.check) (check_text b.check)

  -- build
  unfoldable pub build : Policy F → List (Finding F) → List String → List String → GateResult F
  unfolding tally_from violation_less sort_by
  build pol findings new_endpoints removed_endpoints =
      let t = tally_from pol.unknown_treatment nothing_yet findings in
      record {
        schema = schema_version;
        status = t.worst;
        summary = t.summary;
        violations = sort_by violation_less t.violations;
        new_endpoints = new_endpoints;
        removed_endpoints = removed_endpoints;
      }
