-- ===== src/Queries.antt =====
-- The query catalog: sidecar-go/analysis/queries/catalog.go. A text is a sequence of characters, so
-- a file is taken to be UTF-8.
pub mod Text
pub mod Header
pub mod Trimming
pub mod Splitting
pub mod Lines
pub mod Csv
pub mod HeaderLine
pub mod Body
pub mod RoundTrip
pub mod Catalog
pub mod Validator
use duckdb_load_testing_tool.Prelude.{String, List, []}

pub record Parameter : Type 0 where
  pub name : String
  pub typ : String

pub record Query : Type 0 where
  pub id : String
  pub purpose : String
  pub description : String
  pub required_columns : List String
  pub parameters : List Parameter
  pub expected_output : List String
  pub sql : String

-- Query{}
abbrev pub no_query : Query
no_query = record {
  id = "";
  purpose = "";
  description = "";
  required_columns = [];
  parameters = [];
  expected_output = [];
  sql = "";
}
