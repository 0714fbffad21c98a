-- ===== src/Queries/HeaderLine.antt =====
-- How `parse` of sidecar-go/analysis/queries/catalog.go reads a line of the header.
use Prim.Native.Char.{code}
use Prim.Native.String.{String, ◌++◌ as append}
use text.Mathlib.TextLemmas.{nil-append, cons-append}
use duckdb_load_testing_tool.Prelude.{
  ℕ, ◌≡◌, refl, ap, ◌∙◌, ◌==◌, true, false, arith, if◌then◌else◌, some,
}
use duckdb_load_testing_tool.Queries.Text.{
  is_space, is_blank, trim_left, trim_right, trim_space, strip_prefix,
}
use duckdb_load_testing_tool.Queries.Header.{
  is_key, is_key_char, split_header_line, Progress, set_field, parse_line, other_line, header_line,
  comment,
}
use duckdb_load_testing_tool.Queries.Trimming.{
  trim_space-trim_right, trim_space_after_space, starts_clean, trim_left_of_clean, trim_right-cons,
}
use duckdb_load_testing_tool.Queries.Splitting.{lacks}
use duckdb_load_testing_tool.Queries.Csv.{cut_at-append, lacks-append}

-- A key with its colon, and the text behind it.
abbrev with_colon : String → String → String
with_colon key text = append key (String.◌∷◌ ":" text)

key_char_is_no_space : (n : ℕ) → is_key_char n ≡ true → is_space n ≡ false
unfolding is_key_char is_space
key_char_is_no_space n h = ground arith

key_char_is_no_colon : (n : ℕ) → is_key_char n ≡ true → (n == b':') ≡ false
unfolding is_key_char
key_char_is_no_colon n h = ground arith

colon_is_no_space : is_space (code ":") ≡ false
unfolding is_space
colon_is_no_space = refl

is_key-lacks : (key : String) → is_key key ≡ true → lacks b':' key ≡ true
unfolding is_key
is_key-lacks String.[] h = refl
is_key-lacks (String.◌∷◌ c s) h = ground (arith, key_char_is_no_colon (code c), is_key-lacks s)

is_key-starts_clean : (key t : String) → is_key key ≡ true → starts_clean (with_colon key t) ≡ true
unfolding is_key
is_key-starts_clean String.[] t h = rw (nil-append, colon_is_no_space) refl
is_key-starts_clean (String.◌∷◌ c s) t h =
    rw cons-append (ground (arith, key_char_is_no_space (code c)))

is_key-trim_right :
    (key t : String)
    → is_key key ≡ true
    → trim_right (with_colon key t) ≡ with_colon key (trim_right t)
unfolding is_key
is_key-trim_right String.[] t h =
    rw (nil-append, nil-append) (trim_right-cons ":" t colon_is_no_space)
is_key-trim_right (String.◌∷◌ c s) t h =
    let k : is_key_char (code c) ≡ true = ground arith in
    let l : is_key s ≡ true = ground arith in
    rw
      (
        cons-append,
        cons-append,
        trim_right-cons c (with_colon s t) (key_char_is_no_space (code c) k),
        is_key-trim_right s t l,
      )
      refl

is_key-trim_right_alone : (key : String) → is_key key ≡ true → trim_right key ≡ key
unfolding is_key trim_right
is_key-trim_right_alone String.[] h = refl
is_key-trim_right_alone (String.◌∷◌ c s) h =
    let k : is_key_char (code c) ≡ true = ground arith in
    let l : is_key s ≡ true = ground arith in
    trim_right-cons c s (key_char_is_no_space (code c) k)
    ∙ ap (String.◌∷◌ c) (is_key-trim_right_alone s l)

is_key-trim_space : (key : String) → is_key key ≡ true → trim_space key ≡ key
unfolding trim_space trim_left is_key
is_key-trim_space String.[] h = unfold trim_right in refl
is_key-trim_space (String.◌∷◌ c s) h =
    let k : is_key_char (code c) ≡ true = ground arith in
    rw (key_char_is_no_space (code c) k) (is_key-trim_right_alone (String.◌∷◌ c s) h)

-- A key, a colon and any text are a header line with the text trimmed.
split_header_line-with_colon :
    (key t : String)
    → is_key key ≡ true
    → is_blank key ≡ false
    → split_header_line (with_colon key t) ≡ some (key, trim_space t)
unfolding split_header_line
split_header_line-with_colon key t h k =
    rw (cut_at-append b':' ":" key t (is_key-lacks key h) refl, is_key-trim_space key h, h, k) refl

-- `-- key: value`
abbrev pub header_text : String → String → String
header_text key val = append "-- " (with_colon key (String.◌∷◌ " " val))

dashes-append : (s : String) → append "-- " s ≡ String.◌∷◌ "-" (String.◌∷◌ "-" (String.◌∷◌ " " s))
dashes-append s = rw (cons-append, cons-append, cons-append, nil-append) refl

dash_is_no_space : is_space (code "-") ≡ false
unfolding is_space
dash_is_no_space = refl

space_is_space : is_space (code " ") ≡ true
unfolding is_space
space_is_space = refl

trim_space-dashes :
    (s : String)
    → trim_space (String.◌∷◌ "-" (String.◌∷◌ "-" s))
      ≡ String.◌∷◌ "-" (String.◌∷◌ "-" (trim_right s))
unfolding trim_space trim_left
trim_space-dashes s =
    rw
      (
        dash_is_no_space,
        trim_right-cons "-" (String.◌∷◌ "-" s) dash_is_no_space,
        trim_right-cons "-" s dash_is_no_space,
      )
      refl

strip_prefix-dashes : (s : String) → strip_prefix "--" (String.◌∷◌ "-" (String.◌∷◌ "-" s)) ≡ some s
unfolding strip_prefix
strip_prefix-dashes s = refl

trimmed : (s : String) → starts_clean s ≡ true → trim_space s ≡ trim_right s
unfolding trim_space
trimmed s h = ap trim_right (trim_left_of_clean s h)

-- The comment of a header line, after its dashes.
body_of_header_text :
    (key val : String)
    → is_key key ≡ true
    → trim_space (trim_right (String.◌∷◌ " " (with_colon key (String.◌∷◌ " " val))))
      ≡ with_colon key (trim_right (String.◌∷◌ " " val))
body_of_header_text key val h =
    let text = with_colon key (String.◌∷◌ " " val) in
    trim_space-trim_right (String.◌∷◌ " " text)
    ∙ trim_space_after_space " " text space_is_space
    ∙ trimmed text (is_key-starts_clean key (String.◌∷◌ " " val) h)
    ∙ is_key-trim_right key (String.◌∷◌ " " val) h

trim_space-header_text :
    (key val : String)
    → trim_space (header_text key val)
      ≡ String.◌∷◌ "-"
          (String.◌∷◌ "-" (trim_right (String.◌∷◌ " " (with_colon key (String.◌∷◌ " " val)))))
trim_space-header_text key val =
    let text = with_colon key (String.◌∷◌ " " val) in
    ap trim_space (dashes-append text) ∙ trim_space-dashes (String.◌∷◌ " " text)

parts_of_header_text :
    (key val : String)
    → is_key key ≡ true
    → is_blank key ≡ false
    → split_header_line
        (trim_space (trim_right (String.◌∷◌ " " (with_colon key (String.◌∷◌ " " val)))))
      ≡ some (key, trim_space val)
parts_of_header_text key val h k =
    ap split_header_line (body_of_header_text key val h)
    ∙ split_header_line-with_colon key (trim_right (String.◌∷◌ " " val)) h k
    ∙ ap (λ v. some (key, v))
        (trim_space-trim_right (String.◌∷◌ " " val) ∙ trim_space_after_space " " val space_is_space)

pub parse_line_inside :
    (line : String) (p : Progress)
    → p.in_header ≡ true
    → parse_line line p ≡ header_line line (strip_prefix "--" (trim_space line)) p
unfolding parse_line
parse_line_inside line p h =
    ap
      (λ b.
        if b then header_line line (strip_prefix "--" (trim_space line)) p else other_line line p)
      h

-- In the header, a line that is a key and a value but for the space around it sets the field of that
-- key to the value without the space around it.
pub parse_line-header_text :
    (line key val : String) (p : Progress)
    → trim_space line ≡ trim_space (header_text key val)
    → is_key key ≡ true
    → is_blank key ≡ false
    → p.in_header ≡ true
    → parse_line line p ≡ set_field key (trim_space val) p
parse_line-header_text line key val p e h k inside =
    let rest = trim_right (String.◌∷◌ " " (with_colon key (String.◌∷◌ " " val))) in
    parse_line_inside line p inside
    ∙ ap (λ o. header_line line o p)
        (ap (strip_prefix "--") (e ∙ trim_space-header_text key val) ∙ strip_prefix-dashes rest)
    ∙ ap (λ o. comment (trim_space rest) o p) (parts_of_header_text key val h k)

pub lacks-header_text :
    (key val : String)
    → lacks b'\n' key ≡ true
    → lacks b'\n' val ≡ true
    → lacks b'\n' (header_text key val) ≡ true
lacks-header_text key val h k =
    lacks-append b'\n' "-- " (with_colon key (String.◌∷◌ " " val)) refl
      (lacks-append b'\n' key (String.◌∷◌ ":" (String.◌∷◌ " " val)) h k)
