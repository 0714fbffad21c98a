-- ===== src/Tests/Queries.antt =====
-- Query files and the catalog that holds them.
use duckdb_load_testing_tool.Prelude.{◌≡◌, refl, [], ◌∷◌, arith}
use duckdb_load_testing_tool.Prelude.Result.{ok}
use duckdb_load_testing_tool.Queries.{Query}
use duckdb_load_testing_tool.Queries.Text.{is_space, trim_space, strip_prefix, join}
use duckdb_load_testing_tool.Queries.Header.{parse}
use duckdb_load_testing_tool.Queries.Csv.{show_parameter}
use duckdb_load_testing_tool.Queries.RoundTrip.{render, IsWritable, parse-render}

abbrev status_query : Query
status_query = record {
  id = "endpoint_status";
  purpose = "Status codes per endpoint: one run";
  description = "Counts requests.";
  required_columns = "run_id" ∷ "status" ∷ [];
  parameters = record { name = "run_id"; typ = "VARCHAR" } ∷ [];
  expected_output = "endpoint" ∷ "status" ∷ "count" ∷ [];
  sql = "SELECT status\n\nFROM metrics\n-- kept\nORDER BY status";
}

status_query-IsWritable : IsWritable status_query
unfolding trim_space is_space render show_parameter join strip_prefix
status_query-IsWritable = record {
  id_value = record { trimmed = refl; one_line = refl };
  purpose_value = record { trimmed = refl; one_line = refl };
  description_value = record { trimmed = refl; one_line = refl };
  columns = (
    record { trimmed = refl; not_blank = refl; no_comma = refl; one_line = refl },
    (record { trimmed = refl; not_blank = refl; no_comma = refl; one_line = refl }, tt),
  );
  parameter_list = (
    record {
      name_trimmed = refl;
      typ_trimmed = refl;
      name_no_colon = refl;
      name_no_comma = refl;
      typ_no_comma = refl;
      name_one_line = refl;
      typ_one_line = refl;
    },
    tt,
  );
  outputs = (
    record { trimmed = refl; not_blank = refl; no_comma = refl; one_line = refl },
    (
      record { trimmed = refl; not_blank = refl; no_comma = refl; one_line = refl },
      (record { trimmed = refl; not_blank = refl; no_comma = refl; one_line = refl }, tt),
    ),
  );
  sql_trimmed = refl;
  sql_no_cr = refl;
  sql_no_comment = refl;
  fits = omega arith;
}

parse-render_example : parse (render status_query) ≡ ok status_query
parse-render_example = parse-render status_query status_query-IsWritable

-- A hand-written file: an unknown key is dropped, a comment without a key goes on with the
-- description, and the text behind the header keeps its comments.
parse_example :
    parse
      "-- id: ab\n-- note: gone\n-- description: d: one\r\n--   two three\n\n-- parameters: run_id, z : INT ,\nSELECT 1\n\n-- id: no\nFROM x\n\n"
    ≡ ok (record {
      id = "ab";
      purpose = "";
      description = "d: one two three";
      required_columns = [];
      parameters =
          record { name = "run_id"; typ = "VARCHAR" } ∷ record { name = "z"; typ = "INT" } ∷ [];
      expected_output = [];
      sql = "SELECT 1\n\n-- id: no\nFROM x";
    })
unfolding parse is_space
parse_example = refl
