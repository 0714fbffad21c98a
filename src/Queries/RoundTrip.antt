-- ===== src/Queries/RoundTrip.antt =====
-- Query files as the catalog's authors write them, and what `parse` of
-- sidecar-go/analysis/queries/catalog.go makes of them.
use Prim.Native.String.{String, len}
use mathlib.Core.List.{map-append}
use duckdb_load_testing_tool.Prelude.{
  ◌<◌, ◌≡◌, refl, sym, ap, ◌∙◌, Bool, true, List, [], ◌∷◌, ◌++◌, All, map, none,
}
use duckdb_load_testing_tool.Prelude.Result.{ok, ◌>>=◌}
use duckdb_load_testing_tool.Queries.{Query}
use duckdb_load_testing_tool.Queries.Text.{
  is_blank, trim_right, trim_space, strip_prefix, split, join, drop_cr, without_last_blank,
  max_token, scan_lines,
}
use duckdb_load_testing_tool.Queries.Header.{
  is_key, Progress, set_field, parse_line, parse_lines, nothing_read, finished, parse,
}
use duckdb_load_testing_tool.Queries.Trimming.{trim_space-trim_right, trim_space-drop_cr}
use duckdb_load_testing_tool.Queries.Splitting.{
  lacks, split-join, join-split, without_last_blank-append, trim_right-without_last_blank, join_one,
}
use duckdb_load_testing_tool.Queries.Lines.{scan_lines_of_short, map-drop_cr-split}
use duckdb_load_testing_tool.Queries.Csv.{
  IsItem, IsParameter, show_parameter, split_csv-join, parse_parameters-join, All-show_parameter,
  trim_space-join, lacks-join, trimmed-starts_clean,
}
use duckdb_load_testing_tool.Queries.HeaderLine.{
  header_text, parse_line-header_text, lacks-header_text,
}
use duckdb_load_testing_tool.Queries.Body.{progress, parse_lines_of_sql}

abbrev columns_text : Query → String
columns_text q = join ", " q.required_columns

abbrev parameters_text : Query → String
parameters_text q = join ", " (map show_parameter q.parameters)

abbrev outputs_text : Query → String
outputs_text q = join ", " q.expected_output

-- The header of a query, with a blank line behind it.
unfoldable pub header_lines : Query → List String
header_lines q =
    header_text "id" q.id
    ∷ header_text "purpose" q.purpose
    ∷ header_text "description" q.description
    ∷ header_text "required_columns" (columns_text q)
    ∷ header_text "parameters" (parameters_text q)
    ∷ header_text "expected_output" (outputs_text q)
    ∷ ""
    ∷ []

-- The file of a query.
unfoldable pub render : Query → String
unfolding header_lines join
render q = join "\n" (header_lines q ++ q.sql ∷ [])

-- A text that a header line can hold as it is.
pub record IsValue (s : String) : Type 0 where
  pub trimmed : trim_space s ≡ s
  pub one_line : lacks b'\n' s ≡ true

-- A query that a file can express.
pub record IsWritable (q : Query) : Type 0 where
  pub id_value : IsValue q.id
  pub purpose_value : IsValue q.purpose
  pub description_value : IsValue q.description
  pub columns : All IsItem q.required_columns
  pub parameter_list : All IsParameter q.parameters
  pub outputs : All IsItem q.expected_output
  pub sql_trimmed : trim_space q.sql ≡ q.sql
  pub sql_no_cr : lacks b'\r' q.sql ≡ true
  pub sql_no_comment : strip_prefix "--" q.sql ≡ none
  pub fits : len (render q) < max_token

header_lines-lack : (q : Query) → IsWritable q → All (λ l. lacks b'\n' l ≡ true) (header_lines q)
unfolding header_lines
header_lines-lack q h =
    let columns = lacks-join q.required_columns h.columns in
    let parameters = lacks-join _ (All-show_parameter q.parameters h.parameter_list) in
    let outputs = lacks-join q.expected_output h.outputs in
    (
      lacks-header_text "id" q.id refl h.id_value.one_line,
      (
        lacks-header_text "purpose" q.purpose refl h.purpose_value.one_line,
        (
          lacks-header_text "description" q.description refl h.description_value.one_line,
          (
            lacks-header_text "required_columns" (columns_text q) refl columns,
            (
              lacks-header_text "parameters" (parameters_text q) refl parameters,
              (lacks-header_text "expected_output" (outputs_text q) refl outputs, (refl, tt)),
            ),
          ),
        ),
      ),
    )

without_last_blank-split :
    (ls : List String) (s : String)
    → without_last_blank (ls ++ split b'\n' s) ≡ ls ++ without_last_blank (split b'\n' s)
unfolding split
without_last_blank-split ls s = without_last_blank-append ls _ _

-- The lines that the scanner gives.
scan_lines-render :
    (q : Query)
    → IsWritable q
    → scan_lines (render q)
      ≡ ok (map drop_cr (header_lines q) ++ without_last_blank (split b'\n' q.sql))
scan_lines-render q h =
    let sql = without_last_blank (split b'\n' q.sql) in
    let parts : split b'\n' (render q) ≡ header_lines q ++ split b'\n' q.sql =
      unfold render in split-join b'\n' "\n" (header_lines q) q.sql refl (header_lines-lack q h) in
    scan_lines_of_short (render q) h.fits
    ∙ ap (λ ls. ok (map drop_cr ls))
        (ap without_last_blank parts ∙ without_last_blank-split (header_lines q) q.sql)
    ∙ ap ok (
        map-append drop_cr (header_lines q) sql
        ∙ ap (λ ls. map drop_cr (header_lines q) ++ ls) (map-drop_cr-split q.sql h.sql_no_cr))

parse_lines-append :
    (xs ys : List String) (p : Progress)
    → parse_lines (xs ++ ys) p ≡ parse_lines ys (parse_lines xs p)
unfolding parse_lines
parse_lines-append [] ys p = refl
parse_lines-append (x ∷ xs) ys p = parse_lines-append xs ys (parse_line x p)

-- One header line, whose value is trimmed.
header_step :
    (key val : String) (rest : List String) (p : Progress)
    → is_key key ≡ true
    → is_blank key ≡ Bool.false
    → p.in_header ≡ true
    → trim_space val ≡ val
    → parse_lines (drop_cr (header_text key val) ∷ rest) p ≡ parse_lines rest (set_field key val p)
unfolding parse_lines
header_step key val rest p h k inside e = ap (parse_lines rest) (
    parse_line-header_text (drop_cr (header_text key val)) key val p
      (trim_space-drop_cr (header_text key val)) h k inside
    ∙ ap (λ v. set_field key v p) e)

blank_step :
    (q : Query) (ds : List String)
    → parse_lines (map drop_cr ("" ∷ [])) (progress q ds [] true) ≡ progress q ds [] true
unfolding parse_lines parse_line drop_cr
blank_step q ds = refl

-- What the header sets.
abbrev header_of : Query → Query
header_of q = record q { description = ""; sql = "" }

-- The lines of the header set the fields of the query.
parse_lines-header_lines :
    (q : Query)
    → IsWritable q
    → parse_lines (map drop_cr (header_lines q)) nothing_read
      ≡ progress (header_of q) (q.description ∷ []) [] true
unfolding header_lines set_field is_key
parse_lines-header_lines q h =
    header_step "id" q.id _ nothing_read refl refl refl h.id_value.trimmed
    ∙ header_step "purpose" q.purpose _ _ refl refl refl h.purpose_value.trimmed
    ∙ header_step "description" q.description _ _ refl refl refl h.description_value.trimmed
    ∙ header_step "required_columns" (columns_text q) _ _ refl refl refl
        (trim_space-join _ h.columns)
    ∙ header_step "parameters" (parameters_text q) _ _ refl refl refl
        (trim_space-join _ (All-show_parameter q.parameters h.parameter_list))
    ∙ header_step "expected_output" (outputs_text q) _ _ refl refl refl
        (trim_space-join _ h.outputs)
    ∙ blank_step _ (q.description ∷ [])
    ∙ rw
        (
          split_csv-join q.required_columns h.columns,
          parse_parameters-join q.parameters h.parameter_list,
          split_csv-join q.expected_output h.outputs,
        )
        refl

sql_text : (s : String) → trim_space (join "\n" (without_last_blank (split b'\n' s))) ≡ trim_space s
sql_text s =
    let lines = join "\n" (without_last_blank (split b'\n' s)) in
    let same : trim_right lines ≡ trim_right (join "\n" (split b'\n' s)) =
      unfold split in trim_right-without_last_blank _ _ in
    sym (trim_space-trim_right lines)
    ∙ ap trim_space same
    ∙ trim_space-trim_right (join "\n" (split b'\n' s))
    ∙ ap trim_space (join-split "\n" s)

finished-progress :
    (q : Query) (b : Bool)
    → IsWritable q
    → finished
        (progress (header_of q) (q.description ∷ []) (without_last_blank (split b'\n' q.sql)) b)
      ≡ q
finished-progress q b h =
    ap
      (λ d. record q {
        description = trim_space d;
        sql = trim_space (join "\n" (without_last_blank (split b'\n' q.sql)));
      })
      (join_one " " q.description)
    ∙ ap
        (λ d. record q {
          description = d;
          sql = trim_space (join "\n" (without_last_blank (split b'\n' q.sql)));
        })
        h.description_value.trimmed
    ∙ ap (λ s. record q { sql = s }) (sql_text q.sql ∙ h.sql_trimmed)

-- A query that a file can express reads back from the file as it is: `parse` takes each field from
-- its own header line, keeps the order of columns and parameters, and takes the rest of the file,
-- less the space around it, for the SQL.
pub parse-render : (q : Query) → IsWritable q → parse (render q) ≡ ok q
unfolding parse
parse-render q h =
    let sql = without_last_blank (split b'\n' q.sql) in
    let (b, e) =
      parse_lines_of_sql q.sql (header_of q) (q.description ∷ [])
        (trimmed-starts_clean q.sql h.sql_trimmed) h.sql_no_comment in
    ap (λ r. r >>= λ lines. ok (finished (parse_lines lines nothing_read))) (scan_lines-render q h)
    ∙ ap (λ p. ok (finished p))
        (parse_lines-append (map drop_cr (header_lines q)) sql nothing_read
          ∙ ap (parse_lines sql) (parse_lines-header_lines q h)
          ∙ e)
    ∙ ap ok (finished-progress q b h)
