-- ===== src/Queries/Header.antt =====
-- The metadata header of a query file: `parse`, `splitHeaderLine`, `splitCSV` and `parseParameters`
-- of sidecar-go/analysis/queries/catalog.go.
use Prim.Native.Char.{code}
use Prim.Native.String.{String}
use duckdb_load_testing_tool.Prelude.{
  ℕ, Bool, true, false, not, ◌&&◌, ◌||◌, List, [], ◌∷◌, ◌++◌, map, Option, none, some, str_eq, leb,
  ◌==◌, if◌then◌else◌,
}
use duckdb_load_testing_tool.Prelude.Result.{Result, ok, ◌>>=◌}
use duckdb_load_testing_tool.Queries.{Parameter, Query, no_query}
use duckdb_load_testing_tool.Queries.Text.{
  is_blank, trim_space, strip_prefix, trim_prefix, cut_at, split, join, scan_lines,
}

unfoldable pub is_key_char : ℕ → Bool
is_key_char r = leb b'a' r && leb r b'z' || r == b'_'

unfoldable pub is_key : String → Bool
unfolding is_key_char
is_key String.[] = true
is_key (String.◌∷◌ c s) = is_key_char (code c) && is_key s

-- The key and the value around the first colon, where the key is one.
abbrev pub header_parts : Option (String × String) → Option (String × String)
header_parts none = none
header_parts (some (before_colon, behind)) =
    let key = trim_space before_colon in
    if not (is_key key) || is_blank key then none else some (key, trim_space behind)

-- splitHeaderLine
unfoldable pub split_header_line : String → Option (String × String)
unfolding trim_space cut_at is_key
split_header_line s = header_parts (cut_at b':' s)

-- The loop of `splitCSV`.
unfoldable pub csv_items : List String → List String
unfolding trim_space
csv_items [] = []
csv_items (p ∷ rest) =
    let others = csv_items rest in if is_blank (trim_space p) then others else trim_space p ∷ others

-- splitCSV, where nil is the empty list
unfoldable pub split_csv : String → List String
unfolding csv_items split
split_csv s = if is_blank (trim_space s) then [] else csv_items (split b',' s)

-- One round of `parseParameters`.
abbrev pub typed : String → Option (String × String) → Parameter
typed n none = record { name = n; typ = "VARCHAR" }
typed n (some (before_colon, behind)) = record {
  name = trim_space before_colon;
  typ = trim_space behind;
}

unfoldable pub parse_parameter : String → Parameter
unfolding trim_space cut_at
parse_parameter n = typed n (cut_at b':' n)

-- parseParameters
unfoldable pub parse_parameters : String → List Parameter
unfolding parse_parameter split_csv
parse_parameters s = map parse_parameter (split_csv s)

-- The variables of `parse` while it reads the lines.
pub record Progress : Type 0 where
  pub query : Query
  pub sql_lines : List String
  pub desc_lines : List String
  pub in_header : Bool

-- The `switch` on the key.
unfoldable pub set_field : String → String → Progress → Progress
unfolding split_csv parse_parameters
set_field key val p =
    if str_eq key "id"
    then record p { query = record p.query { id = val } }
    else if str_eq key "purpose"
    then record p { query = record p.query { purpose = val } }
    else if str_eq key "description"
    then record p { desc_lines = p.desc_lines ++ val ∷ [] }
    else if str_eq key "required_columns"
    then record p { query = record p.query { required_columns = split_csv val } }
    else if str_eq key "parameters"
    then record p { query = record p.query { parameters = parse_parameters val } }
    else if str_eq key "expected_output"
    then record p { query = record p.query { expected_output = split_csv val } }
    else p

-- A comment without a key continues a description that has begun.
abbrev pub continued : String → List String → List String
continued body [] = []
continued body (d ∷ ds) = d ∷ ds ++ trim_prefix "  " body ∷ []

abbrev pub comment : String → Option (String × String) → Progress → Progress
comment body (some (key, val)) p = set_field key val p
comment body none p = record p { desc_lines = continued body p.desc_lines }

-- A line that is no comment of the header.
abbrev pub other_line : String → Progress → Progress
other_line line p =
    if is_blank (trim_space line) && p.in_header
    then p
    else record p { in_header = false; sql_lines = p.sql_lines ++ line ∷ [] }

abbrev pub header_line : String → Option String → Progress → Progress
header_line line none p = other_line line p
header_line line (some rest) p =
    let body = trim_space rest in comment body (split_header_line body) p

-- One round of the loop of `parse`.
unfoldable pub parse_line : String → Progress → Progress
unfolding trim_space strip_prefix trim_prefix split_header_line set_field
parse_line line p =
    if p.in_header
    then header_line line (strip_prefix "--" (trim_space line)) p
    else other_line line p

unfoldable pub parse_lines : List String → Progress → Progress
unfolding parse_line
parse_lines [] p = p
parse_lines (line ∷ rest) p = parse_lines rest (parse_line line p)

abbrev pub nothing_read : Progress
nothing_read = record { query = no_query; sql_lines = []; desc_lines = []; in_header = true }

abbrev pub finished : Progress → Query
finished p = record p.query {
  description = trim_space (join " " p.desc_lines);
  sql = trim_space (join "\n" p.sql_lines);
}

-- parse
unfoldable pub parse : String → Result Query
unfolding scan_lines parse_lines trim_space join
parse content = do lines ← scan_lines content; ok (finished (parse_lines lines nothing_read))
