-- ===== src/Handlers/Analysis.antt =====
-- The analysis endpoints of the sidecar: sidecar-go/handlers/analysis_handlers.go. A request body is
-- taken decoded, with an error where the decoder or http.MaxBytesReader gives one, and a parameter of
-- the URL is its text. The bodies are in the children.
pub mod Limit
pub mod Compare
pub mod Statistics
pub mod Diagnose
pub mod Gate
pub mod Engine
pub mod Agreement
use duckdb_load_testing_tool.Prelude.{ℕ, String}
use duckdb_load_testing_tool.Prelude.Result.{Error}
use duckdb_load_testing_tool.Float.{Float64}
use duckdb_load_testing_tool.Analysis.Database.{Database}
use duckdb_load_testing_tool.Analysis.Comparator.{Thresholds, default_thresholds}

-- AnalysisHandlers: the database of its comparator and its endpoint analyzer, and the thresholds of
-- the comparator.
pub record AnalysisHandlers (F : Type 0) : Type 0 where
  pub db : Database F
  pub thresholds : Thresholds F

-- NewAnalysisHandlers
abbrev pub new_analysis_handlers : {F : Type 0} → ⦃d : Float64 F⦄ → Database F → AnalysisHandlers F
new_analysis_handlers db = record { db = db; thresholds = default_thresholds }

-- What a handler writes: the text of http.Error with its code, the same with the message of an error
-- behind it, or a body that writeJSON sends with the code 200.
pub data Reply (B : Type 0) : Type 0 where
  refused : (code : ℕ) (text : String) → Reply B
  refused_with : (code : ℕ) (text : String) (e : Error) → Reply B
  answered : B → Reply B

-- http.StatusOK, or the code of the error.
abbrev pub code_of : {B : Type 0} → Reply B → ℕ
code_of (refused code text) = code
code_of (refused_with code text e) = code
code_of (answered body) = 200
