-- ===== src/Orchestrator.antt =====
-- The controller of distributed runs: sidecar-go/orchestrator/controller.go. The clock and the answers
-- of the pods are arguments.
pub mod Pods
pub mod Health
pub mod Runs
pub mod Wait
pub mod Flush
use duckdb_load_testing_tool.Prelude.{String, List, []}
use duckdb_load_testing_tool.Prelude.Int.{ℤ}
use duckdb_load_testing_tool.Prelude.Dict.{Dict}

pub data PodStatus : Type 0 where
  unknown healthy unhealthy flushing : PodStatus

pub record Pod : Type 0 where
  pub name : String
  pub address : String
  pub status : PodStatus
  pub buffer_size : ℤ
  pub last_seen : ℤ

-- The zero value of `end_time` is 0.
pub record TestRun : Type 0 where
  pub id : String
  pub status : String
  pub start_time : ℤ
  pub end_time : ℤ
  pub pods : List String

-- `pods` and `runs` map to pointers; each write through one is a write to the entry here.
pub record Controller : Type 0 where
  pub pods : Dict Pod
  pub runs : Dict TestRun

-- NewController
abbrev pub new_controller : Controller
new_controller = record { pods = []; runs = [] }
