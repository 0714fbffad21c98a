-- ===== src/Gate/Types.antt =====
-- The types of the gate: sidecar-go/analysis/gate/gate.go.
use duckdb_load_testing_tool.Prelude.{String, Option, List, Bool, true, false, ℕ}
use duckdb_load_testing_tool.Policy.{Status, pass}
use duckdb_load_testing_tool.Analysis.Endpoint.{EndpointStats}
use duckdb_load_testing_tool.Analysis.Bottleneck.{TimingChange}

-- SchemaVersion
abbrev pub schema_version : ℕ
schema_version = 1

pub data Check : Type 0 where
  budget regression : Check

-- The texts of the two checks, by which `build` sorts.
abbrev pub check_text : Check → String
check_text budget = "budget"
check_text regression = "regression"

abbrev pub insufficient_samples : String
insufficient_samples = "insufficient_samples"

abbrev pub no_baseline_endpoint : String
no_baseline_endpoint = "no_baseline_for_endpoint"

abbrev pub insufficient_baseline : String
insufficient_baseline = "insufficient_baseline_samples"

pub record Finding (F : Type 0) : Type 0 where
  pub scope : String
  pub metric : String
  pub check : Check
  pub status : Status
  pub baseline : Option F
  pub current : Option F
  pub delta : Option F
  pub change_percent : Option F
  pub threshold : Option F
  pub reason : String
  pub primary_timing_change : Option (TimingChange F)

pub record Summary : Type 0 where
  pub passed : ℕ
  pub warned : ℕ
  pub failed : ℕ
  pub unknown : ℕ

-- The field `SchemaVersion` is the constant.
pub record GateResult (F : Type 0) : Type 0 where
  pub schema : ℕ
  pub status : Status
  pub summary : Summary
  pub violations : List (Finding F)
  pub new_endpoints : List String
  pub removed_endpoints : List String

-- What `Evaluate` knows of one endpoint before its checks run. `base` is nil without a baseline run
-- and where the baseline run lacks the endpoint; `baseline_missing` tells the two apart.
pub record Sample (F : Type 0) : Type 0 where
  pub cur : EndpointStats F
  pub base : Option (EndpointStats F)
  pub baseline_missing : Bool
  pub insufficient_current : Bool
  pub insufficient_baseline : Bool
  pub timing_change : Option (TimingChange F)

abbrev pub is_pass : Status → Bool
is_pass pass = true
is_pass _ = false
