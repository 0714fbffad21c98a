-- ===== src/Queries/Text.antt =====
-- What the catalog uses of Go's `strings`, `unicode` and `bufio`, on characters.
use Prim.Native.Char.{Char, code}
use Prim.Native.String.{String, ◌++◌ as append, len}
use duckdb_load_testing_tool.Prelude.{
  ℕ, Bool, true, false, ◌&&◌, ◌||◌, List, [], ◌∷◌, Option, none, some, leb, ◌==◌, if◌then◌else◌,
  any, map,
}
use duckdb_load_testing_tool.Prelude.Result.{Result, ok, err, message}

-- unicode.IsSpace
unfoldable pub is_space : ℕ → Bool
is_space c =
    leb 9 c && leb c 13
    || c == 32
    || c == 133
    || c == 160
    || c == 5760
    || leb 8192 c && leb c 8202
    || c == 8232
    || c == 8233
    || c == 8239
    || c == 8287
    || c == 12288

unfoldable pub trim_left : String → String
trim_left String.[] = String.[]
trim_left (String.◌∷◌ c s) = if is_space (code c) then trim_left s else String.◌∷◌ c s

-- A character before what the trimming leaves of the text behind it.
abbrev pub keep_char : Char → String → String
keep_char c String.[] = if is_space (code c) then String.[] else String.◌∷◌ c String.[]
keep_char c (String.◌∷◌ d s) = String.◌∷◌ c (String.◌∷◌ d s)

unfoldable pub trim_right : String → String
trim_right String.[] = String.[]
trim_right (String.◌∷◌ c s) = keep_char c (trim_right s)

-- strings.TrimSpace
unfoldable pub trim_space : String → String
unfolding trim_left trim_right
trim_space s = trim_right (trim_left s)

-- s == ""
abbrev pub is_blank : String → Bool
is_blank String.[] = true
is_blank (String.◌∷◌ c s) = false

-- What follows a prefix: strings.HasPrefix and strings.TrimPrefix together.
unfoldable pub strip_prefix : String → String → Option String
strip_prefix String.[] s = some s
strip_prefix (String.◌∷◌ p ps) String.[] = none
strip_prefix (String.◌∷◌ p ps) (String.◌∷◌ c s) =
    if code p == code c then strip_prefix ps s else none

-- strings.TrimPrefix
abbrev pub or_same : String → Option String → String
or_same s none = s
or_same s (some rest) = rest

unfoldable pub trim_prefix : String → String → String
unfolding strip_prefix
trim_prefix p s = or_same s (strip_prefix p s)

abbrev pub before : Char → Option (String × String) → Option (String × String)
before c none = none
before c (some (s, rest)) = some (String.◌∷◌ c s, rest)

-- The texts before and after the first separator: `s[:idx]` and `s[idx+1:]` with strings.Index.
unfoldable pub cut_at : ℕ → String → Option (String × String)
cut_at sep String.[] = none
cut_at sep (String.◌∷◌ c s) = if code c == sep then some (String.[], s) else before c (cut_at sep s)

abbrev pub new_piece : String × List String → String × List String
new_piece (p, ps) = (String.[], p ∷ ps)

abbrev pub longer_piece : Char → String × List String → String × List String
longer_piece c (p, ps) = (String.◌∷◌ c p, ps)

-- The first part of a split, and the others.
unfoldable pub pieces : ℕ → String → String × List String
pieces sep String.[] = (String.[], [])
pieces sep (String.◌∷◌ c s) =
    let rest = pieces sep s in if code c == sep then new_piece rest else longer_piece c rest

-- strings.Split, which gives at least one part.
unfoldable pub split : ℕ → String → List String
unfolding pieces
split sep s = (pieces sep s).0 ∷ (pieces sep s).1

-- strings.Join
unfoldable pub join : String → List String → String
join sep [] = ""
join sep (s ∷ []) = s
join sep (s ∷ t ∷ rest) = append s (append sep (join sep (t ∷ rest)))

-- bufio.dropCR
unfoldable pub drop_cr : String → String
drop_cr String.[] = String.[]
drop_cr (String.◌∷◌ c String.[]) = if code c == b'\r' then String.[] else String.◌∷◌ c String.[]
drop_cr (String.◌∷◌ c (String.◌∷◌ d s)) = String.◌∷◌ c (drop_cr (String.◌∷◌ d s))

-- What stands behind the last line end is no line if it is empty.
unfoldable pub without_last_blank : List String → List String
without_last_blank [] = []
without_last_blank (l ∷ []) = if is_blank l then [] else l ∷ []
without_last_blank (l ∷ m ∷ rest) = l ∷ without_last_blank (m ∷ rest)

-- The largest buffer that `parse` gives its scanner.
abbrev pub max_token : ℕ
max_token = 1048576

abbrev pub too_long : String → Bool
too_long l = leb max_token (len l)

-- The lines of a bufio.Scanner, or its error. A line fits if it fills the buffer with its line end.
unfoldable pub scan_lines : String → Result (List String)
unfolding split without_last_blank drop_cr
scan_lines content =
    let raw = without_last_blank (split b'\n' content) in
    if any too_long raw then err (message "bufio.Scanner: token too long") else ok (map drop_cr raw)
