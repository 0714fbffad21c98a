-- ===== src/Queries/Csv.antt =====
-- Lists of names in a header line: `splitCSV` and `parseParameters` of
-- sidecar-go/analysis/queries/catalog.go.
use Prim.Native.Char.{Char, code}
use Prim.Native.String.{String, ◌++◌ as append}
use text.Mathlib.TextLemmas.{nil-append, cons-append, append-nil}
use duckdb_load_testing_tool.Prelude.{
  ℕ, ◌≡◌, refl, sym, ap, ◌∙◌, ◌==◌, true, false, List, [], ◌∷◌, All, map, arith, some,
}
use duckdb_load_testing_tool.Queries.{Parameter}
use duckdb_load_testing_tool.Queries.Text.{
  is_space, is_blank, trim_left, trim_right, trim_space, cut_at, pieces, split, join,
}
use duckdb_load_testing_tool.Queries.Header.{
  csv_items, split_csv, parse_parameter, parse_parameters,
}
use duckdb_load_testing_tool.Queries.Trimming.{
  starts_clean, starts_clean-trim_space, trim_left_of_clean, trim_right-cons, trim_right-append,
  trim_space_after_space,
}
use duckdb_load_testing_tool.Queries.Splitting.{
  join_one, join_two, lacks, split-append, split_of_lacks,
}

-- An item that a list of names can hold.
pub record IsItem (s : String) : Type 0 where
  pub trimmed : trim_space s ≡ s
  pub not_blank : is_blank s ≡ false
  pub no_comma : lacks b',' s ≡ true
  pub one_line : lacks b'\n' s ≡ true

-- A space in front of a list changes no item.
csv_items_after_space :
    (c : Char) (s : String)
    → is_space (code c) ≡ true
    → (code c == b',') ≡ false
    → csv_items (split b',' (String.◌∷◌ c s)) ≡ csv_items (split b',' s)
unfolding split pieces csv_items
csv_items_after_space c s h k = rw (k, trim_space_after_space c (pieces b',' s).0 h) refl

pub trimmed-starts_clean : (s : String) → trim_space s ≡ s → starts_clean s ≡ true
trimmed-starts_clean s h = sym (ap starts_clean h) ∙ starts_clean-trim_space s

-- What begins with an item is not blank.
is_blank-trim_space :
    (s t : String)
    → starts_clean s ≡ true
    → is_blank s ≡ false
    → is_blank (trim_space (append s t)) ≡ false
unfolding trim_space trim_left
is_blank-trim_space String.[] t h k = cc
is_blank-trim_space (String.◌∷◌ c s) t h k =
    let clean : is_space (code c) ≡ false = ground arith in
    rw (cons-append, clean, trim_right-cons c (append s t) clean) refl

csv_items-cons :
    (s : String) (rest : List String) → IsItem s → csv_items (s ∷ rest) ≡ s ∷ csv_items rest
unfolding csv_items
csv_items-cons s rest h = rw (h.trimmed, h.not_blank) refl

comma_append : (s : String) → append ", " s ≡ String.◌∷◌ "," (String.◌∷◌ " " s)
comma_append s = rw (cons-append, cons-append, nil-append) refl

space_is_space : is_space (code " ") ≡ true
unfolding is_space
space_is_space = refl

csv_items-nil : csv_items [] ≡ []
unfolding csv_items
csv_items-nil = refl

csv_items-join :
    (s : String) (rest : List String)
    → IsItem s
    → All IsItem rest
    → csv_items (split b',' (join ", " (s ∷ rest))) ≡ s ∷ rest
csv_items-join s [] h hs =
    rw (join_one ", " s, split_of_lacks b',' s h.no_comma, csv_items-cons s [] h, csv_items-nil)
      refl
csv_items-join s (t ∷ rest) h (k, ks) =
    rw
      (
        join_two ", " s t rest,
        comma_append,
        split-append b',' "," s (String.◌∷◌ " " (join ", " (t ∷ rest))) refl,
        split_of_lacks b',' s h.no_comma,
        csv_items-cons s _ h,
        csv_items_after_space " " (join ", " (t ∷ rest)) space_is_space refl,
      )
      (ap (λ ls. s ∷ ls) (csv_items-join t rest k ks))

join_begins : (s : String) (rest : List String) → (t : String) × (join ", " (s ∷ rest) ≡ append s t)
join_begins s [] = ("", join_one ", " s ∙ sym (append-nil s))
join_begins s (t ∷ rest) = (append ", " (join ", " (t ∷ rest)), join_two ", " s t rest)

-- A list of names, with a comma and a space between two, reads back as that list.
pub split_csv-join : (items : List String) → All IsItem items → split_csv (join ", " items) ≡ items
unfolding split_csv trim_space trim_left trim_right
split_csv-join [] h = unfold join in refl
split_csv-join (s ∷ rest) (h, hs) =
    let (t, e) = join_begins s rest in
    let full : is_blank (trim_space (join ", " (s ∷ rest))) ≡ false =
      rw e (is_blank-trim_space s t (trimmed-starts_clean s h.trimmed) h.not_blank) in
    rw full (csv_items-join s rest h hs)

-- A parameter as a header writes it.
unfoldable pub show_parameter : Parameter → String
show_parameter p = append p.name (String.◌∷◌ ":" p.typ)

-- A parameter that a header can hold.
pub record IsParameter (p : Parameter) : Type 0 where
  pub name_trimmed : trim_space p.name ≡ p.name
  pub typ_trimmed : trim_space p.typ ≡ p.typ
  pub name_no_colon : lacks b':' p.name ≡ true
  pub name_no_comma : lacks b',' p.name ≡ true
  pub typ_no_comma : lacks b',' p.typ ≡ true
  pub name_one_line : lacks b'\n' p.name ≡ true
  pub typ_one_line : lacks b'\n' p.typ ≡ true

pub lacks-append :
    (n : ℕ) (s t : String) → lacks n s ≡ true → lacks n t ≡ true → lacks n (append s t) ≡ true
lacks-append n String.[] t h k = rw nil-append k
lacks-append n (String.◌∷◌ c s) t h k =
    let l : lacks n (append s t) ≡ true = lacks-append n s t (ground arith) k in
    rw cons-append (ground (arith, l))

starts_clean-append :
    (s t : String)
    → starts_clean s ≡ true
    → starts_clean t ≡ true
    → starts_clean (append s t) ≡ true
starts_clean-append String.[] t h k = rw nil-append k
starts_clean-append (String.◌∷◌ c s) t h k = rw cons-append h

trim_right_of_trimmed : (s : String) → trim_space s ≡ s → trim_right s ≡ s
unfolding trim_space
trim_right_of_trimmed s h =
    ap trim_right (sym (trim_left_of_clean s (trimmed-starts_clean s h))) ∙ h

pub cut_at-append :
    (sep : ℕ) (c : Char) (s t : String)
    → lacks sep s ≡ true
    → code c ≡ sep
    → cut_at sep (append s (String.◌∷◌ c t)) ≡ some (s, t)
unfolding cut_at
cut_at-append sep c String.[] t h k = rw nil-append (ground arith)
cut_at-append sep c (String.◌∷◌ d s) t h k =
    let l : lacks sep s ≡ true = ground arith in
    let n : (code d == sep) ≡ false = ground arith in
    rw (cons-append, n, cut_at-append sep c s t l k) refl

colon_is_no_space : is_space (code ":") ≡ false
unfolding is_space
colon_is_no_space = refl

colon-trim_right : (t : String) → trim_right (String.◌∷◌ ":" t) ≡ String.◌∷◌ ":" (trim_right t)
colon-trim_right t = trim_right-cons ":" t colon_is_no_space

is_blank-append : (s t : String) → is_blank t ≡ false → is_blank (append s t) ≡ false
is_blank-append String.[] t h = rw nil-append h
is_blank-append (String.◌∷◌ c s) t h = rw cons-append refl

show_parameter-IsItem : (p : Parameter) → IsParameter p → IsItem (show_parameter p)
unfolding show_parameter trim_space
show_parameter-IsItem p h =
    let typ = String.◌∷◌ ":" p.typ in
    let clean : starts_clean (append p.name typ) ≡ true =
      starts_clean-append p.name typ (trimmed-starts_clean p.name h.name_trimmed)
        (rw colon_is_no_space) in
    let kept : trim_right typ ≡ typ =
      colon-trim_right p.typ ∙ ap (String.◌∷◌ ":") (trim_right_of_trimmed p.typ h.typ_trimmed) in
    record {
      trimmed =
          ap trim_right (trim_left_of_clean (append p.name typ) clean)
          ∙ trim_right-append p.name typ (rw kept)
          ∙ ap (append p.name) kept;
      not_blank = is_blank-append p.name typ refl;
      no_comma = lacks-append b',' p.name typ h.name_no_comma h.typ_no_comma;
      one_line = lacks-append b'\n' p.name typ h.name_one_line h.typ_one_line;
    }

parse_parameter-show_parameter :
    (p : Parameter) → IsParameter p → parse_parameter (show_parameter p) ≡ p
unfolding parse_parameter show_parameter
parse_parameter-show_parameter p h =
    rw (cut_at-append b':' ":" p.name p.typ h.name_no_colon refl, h.name_trimmed, h.typ_trimmed)
      refl

pub All-show_parameter :
    (ps : List Parameter) → All IsParameter ps → All IsItem (map show_parameter ps)
All-show_parameter [] h = tt
All-show_parameter (p ∷ ps) (h, hs) = (show_parameter-IsItem p h, All-show_parameter ps hs)

map-parse_parameter :
    (ps : List Parameter) → All IsParameter ps → map parse_parameter (map show_parameter ps) ≡ ps
map-parse_parameter [] h = refl
map-parse_parameter (p ∷ ps) (h, hs) =
    rw (parse_parameter-show_parameter p h, map-parse_parameter ps hs) refl

-- A list of parameters reads back as that list.
pub parse_parameters-join :
    (ps : List Parameter)
    → All IsParameter ps
    → parse_parameters (join ", " (map show_parameter ps)) ≡ ps
unfolding parse_parameters
parse_parameters-join ps h =
    rw (split_csv-join (map show_parameter ps) (All-show_parameter ps h)) (map-parse_parameter ps h)

is_blank-begins : (s t : String) → is_blank s ≡ false → is_blank (append s t) ≡ false
is_blank-begins String.[] t h = cc
is_blank-begins (String.◌∷◌ c s) t h = rw cons-append refl

begins_clean :
    (s t : String) → starts_clean s ≡ true → is_blank s ≡ false → starts_clean (append s t) ≡ true
begins_clean String.[] t h k = cc
begins_clean (String.◌∷◌ c s) t h k = rw cons-append h

trim_space_of_clean : (s : String) → starts_clean s ≡ true → trim_space s ≡ trim_right s
unfolding trim_space
trim_space_of_clean s h = ap trim_right (trim_left_of_clean s h)

is_blank-join :
    (s : String) (rest : List String) → IsItem s → is_blank (join ", " (s ∷ rest)) ≡ false
is_blank-join s rest h = let (t, e) = join_begins s rest in rw e (is_blank-begins s t h.not_blank)

trim_right-join :
    (s : String) (rest : List String)
    → IsItem s
    → All IsItem rest
    → trim_right (join ", " (s ∷ rest)) ≡ join ", " (s ∷ rest)
trim_right-join s [] h hs = rw (join_one ", " s) (trim_right_of_trimmed s h.trimmed)
trim_right-join s (t ∷ rest) h (k, ks) =
    let more = join ", " (t ∷ rest) in
    let ih : trim_right more ≡ more = trim_right-join t rest k ks in
    let comma : trim_right (append ", " more) ≡ append ", " more =
      trim_right-append ", " more (ap is_blank ih ∙ is_blank-join t rest k) ∙ ap (append ", ") ih in
    rw (join_two ", " s t rest) (
      trim_right-append s (append ", " more)
        (ap is_blank comma ∙ is_blank-append ", " more (is_blank-join t rest k))
      ∙ ap (append s) comma)

-- A list of names has no space around it.
pub trim_space-join :
    (items : List String) → All IsItem items → trim_space (join ", " items) ≡ join ", " items
trim_space-join [] h = unfold join trim_space trim_left trim_right in refl
trim_space-join (s ∷ rest) (h, hs) =
    let (t, e) = join_begins s rest in
    let clean : starts_clean (join ", " (s ∷ rest)) ≡ true =
      rw e (begins_clean s t (trimmed-starts_clean s h.trimmed) h.not_blank) in
    trim_space_of_clean (join ", " (s ∷ rest)) clean ∙ trim_right-join s rest h hs

-- A list of names stands on one line.
pub lacks-join : (items : List String) → All IsItem items → lacks b'\n' (join ", " items) ≡ true
lacks-join [] h = unfold join in refl
lacks-join (s ∷ []) (h, hs) = rw (join_one ", " s) h.one_line
lacks-join (s ∷ t ∷ rest) (h, hs) = rw (join_two ", " s t rest) (
    lacks-append b'\n' s (append ", " (join ", " (t ∷ rest))) h.one_line
      (lacks-append b'\n' ", " (join ", " (t ∷ rest)) refl (lacks-join (t ∷ rest) hs)))
