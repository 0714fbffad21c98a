-- ===== src/Queries/Body.antt =====
-- The SQL behind the header of a query file, as `parse` of
-- sidecar-go/analysis/queries/catalog.go collects it.
use Prim.Native.Char.{Char, code}
use Prim.Native.String.{String}
use mathlib.Core.List.{append_assoc, append-nil}
use duckdb_load_testing_tool.Prelude.{
  ℕ, ◌≡◌, refl, sym, ap, ◌∙◌, ◌==◌, Bool, true, false, ◌&&◌, List, [], ◌∷◌, ◌++◌, arith,
  if◌then◌else◌, Bool-cases, inl, inr, none,
}
use duckdb_load_testing_tool.Queries.{Query}
use duckdb_load_testing_tool.Queries.Text.{
  is_space, is_blank, keep_char, trim_left, trim_right, trim_space, strip_prefix, pieces, split,
  without_last_blank,
}
use duckdb_load_testing_tool.Queries.Header.{Progress, parse_line, parse_lines, header_line}
use duckdb_load_testing_tool.Queries.Trimming.{starts_clean, trim_right-cons}
use duckdb_load_testing_tool.Queries.HeaderLine.{parse_line_inside}

abbrev pub progress : Query → List String → List String → Bool → Progress
progress query desc_lines sql_lines in_header = record {
  query = query;
  sql_lines = sql_lines;
  desc_lines = desc_lines;
  in_header = in_header;
}

and_false : (b : Bool) → (b && false) ≡ false
and_false true = refl
and_false false = refl

parse_line_behind :
    (line : String) (q : Query) (ds sql : List String)
    → parse_line line (progress q ds sql false) ≡ progress q ds (sql ++ line ∷ []) false
unfolding parse_line
parse_line_behind line q ds sql = rw and_false refl

parse_lines_behind :
    (lines : List String) (q : Query) (ds sql : List String)
    → parse_lines lines (progress q ds sql false) ≡ progress q ds (sql ++ lines) false
unfolding parse_lines
parse_lines_behind [] q ds sql = ap (λ x. progress q ds x false) (sym (append-nil sql))
parse_lines_behind (line ∷ rest) q ds sql =
    ap (parse_lines rest) (parse_line_behind line q ds sql)
    ∙ parse_lines_behind rest q ds (sql ++ line ∷ [])
    ∙ ap (λ x. progress q ds x false) (append_assoc sql (line ∷ []) rest)

parse_line_first :
    (line : String) (q : Query) (ds : List String)
    → strip_prefix "--" (trim_space line) ≡ none
    → is_blank (trim_space line) ≡ false
    → parse_line line (progress q ds [] true) ≡ progress q ds (line ∷ []) false
parse_line_first line q ds h k =
    parse_line_inside line (progress q ds [] true) refl
    ∙ ap (λ o. header_line line o (progress q ds [] true)) h
    ∙ ap (λ b. if b && true then progress q ds [] true else progress q ds (line ∷ []) false) k

line_end_is_space : (n : ℕ) → is_space n ≡ false → (n == b'\n') ≡ false
unfolding is_space
line_end_is_space n h = ground arith

strip_prefix-keep_char :
    (d : Char) (t : String) → (45 == code d) ≡ false → strip_prefix "-" (keep_char d t) ≡ none
strip_prefix-keep_char d String.[] h = elim (Bool-cases (is_space (code d))) [
  | inl e ↦ rw e (unfold strip_prefix in refl)
  | inr e ↦ rw e (unfold strip_prefix in rw h refl)
]
strip_prefix-keep_char d (String.◌∷◌ c t) h = unfold strip_prefix in rw h refl

strip_prefix-second :
    (s : String)
    → strip_prefix "-" s ≡ none
    → strip_prefix "-" (trim_right (pieces b'\n' s).0) ≡ none
unfolding strip_prefix pieces trim_right
strip_prefix-second String.[] h = refl
strip_prefix-second (String.◌∷◌ d s) h = elim (Bool-cases (code d == b'\n')) [
  | inl e ↦ rw e refl
  | inr e ↦
      let dash : (45 == code d) ≡ false = ground arith in
      rw e (strip_prefix-keep_char d (trim_right (pieces b'\n' s).0) dash)
]

strip_prefix-first :
    (c : Char) (s : String)
    → strip_prefix "--" (String.◌∷◌ c s) ≡ none
    → strip_prefix "--" (String.◌∷◌ c (trim_right (pieces b'\n' s).0)) ≡ none
unfolding strip_prefix
strip_prefix-first c s k = elim (Bool-cases (45 == code c)) [
  | inl e ↦ let k' : strip_prefix "-" s ≡ none = ground arith in rw e (strip_prefix-second s k')
  | inr e ↦ rw e refl
]

trim_space-cons :
    (c : Char) (s : String)
    → is_space (code c) ≡ false
    → trim_space (String.◌∷◌ c s) ≡ String.◌∷◌ c (trim_right s)
unfolding trim_space trim_left
trim_space-cons c s h = rw h (trim_right-cons c s h)

without_last_blank-cons :
    (c : Char) (p : String) (ps : List String)
    → without_last_blank (String.◌∷◌ c p ∷ ps) ≡ String.◌∷◌ c p ∷ without_last_blank ps
unfolding without_last_blank
without_last_blank-cons c p [] = refl
without_last_blank-cons c p (q ∷ ps) = refl

split-cons :
    (c : Char) (s : String)
    → (code c == b'\n') ≡ false
    → split b'\n' (String.◌∷◌ c s) ≡ String.◌∷◌ c (pieces b'\n' s).0 ∷ (pieces b'\n' s).1
unfolding split pieces
split-cons c s h = rw h refl

parse_lines_from_first :
    (line : String) (rest : List String) (q : Query) (ds : List String)
    → strip_prefix "--" (trim_space line) ≡ none
    → is_blank (trim_space line) ≡ false
    → parse_lines (line ∷ rest) (progress q ds [] true) ≡ progress q ds (line ∷ rest) false
unfolding parse_lines
parse_lines_from_first line rest q ds h k =
    ap (parse_lines rest) (parse_line_first line q ds h k)
    ∙ parse_lines_behind rest q ds (line ∷ [])

-- The lines of a text that begins with neither a space nor a comment are the lines of the SQL.
pub parse_lines_of_sql :
    (sql : String) (q : Query) (ds : List String)
    → starts_clean sql ≡ true
    → strip_prefix "--" sql ≡ none
    → let lines = without_last_blank (split b'\n' sql) in
      (b : Bool) × (parse_lines lines (progress q ds [] true) ≡ progress q ds lines b)
parse_lines_of_sql String.[] q ds h k =
    (true, unfold parse_lines without_last_blank split pieces in refl)
parse_lines_of_sql (String.◌∷◌ c s) q ds h k =
    let clean : is_space (code c) ≡ false = ground arith in
    let first = String.◌∷◌ c (pieces b'\n' s).0 in
    let trimmed = trim_space-cons c (pieces b'\n' s).0 clean in
    (
      false,
      rw (split-cons c s (line_end_is_space (code c) clean), without_last_blank-cons)
          (parse_lines_from_first first (without_last_blank (pieces b'\n' s).1) q ds
            (ap (strip_prefix "--") trimmed ∙ strip_prefix-first c s k) (ap is_blank trimmed)),
    )
