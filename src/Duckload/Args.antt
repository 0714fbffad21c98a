-- ===== src/Duckload/Args.antt =====
-- The arguments of the command: `parseArgs` of sidecar-go/cmd/duckload/main.go, and what it uses of
-- the package flag, whose flags all take a value here.
pub mod Order
use Prim.Native.Char.{code}
use Prim.Native.String.{String}
use duckdb_load_testing_tool.Prelude.{
  Bool, true, false, not, ◌&&◌, ◌||◌, ◌==◌, List, [], ◌∷◌, any, str_eq, Option, none, some,
  if◌then◌else◌,
}
use duckdb_load_testing_tool.Prelude.Int.{ℤ, pos}
use duckdb_load_testing_tool.Prelude.Dict.{Dict, insert}

-- strings.HasPrefix(a, "-")
abbrev pub is_flag : String → Bool
is_flag String.[] = false
is_flag (String.◌∷◌ c s) = code c == b'-'

-- strings.Contains(a, "=")
unfoldable pub has_equals : String → Bool
has_equals String.[] = false
has_equals (String.◌∷◌ c s) = code c == b'=' || has_equals s

-- The variables flagArgs and positional.
pub record Split : Type 0 where
  pub flag_args : List String
  pub positional : List String

abbrev pub one_flag : String → Split → Split
one_flag a s = record s { flag_args = a ∷ s.flag_args }

abbrev pub flag_and_value : String → String → Split → Split
flag_and_value a v s = record s { flag_args = a ∷ v ∷ s.flag_args }

abbrev pub one_positional : String → Split → Split
one_positional a s = record s { positional = a ∷ s.positional }

abbrev pub no_args : Split
no_args = record { flag_args = []; positional = [] }

-- The loop of parseArgs. The argument behind a flag without `=` is its value.
unfoldable pub split_args : List String → Split
split_args [] = no_args
split_args (a ∷ []) = if is_flag a then one_flag a no_args else one_positional a no_args
split_args (a ∷ v ∷ rest) =
    let next = split_args (v ∷ rest) in
    let behind = split_args rest in
    if is_flag a
    then (if has_equals a then one_flag a next else flag_and_value a v behind)
    else one_positional a next

-- The name of a flag, and its value behind the first `=` that is not its first character.
pub record Named : Type 0 where
  pub name : String
  pub value : Option String

abbrev longer_name : Named → (String → String) → Named
longer_name n f = record n { name = f n.name }

unfoldable pub cut_value : String → Named
cut_value String.[] = record { name = ""; value = none }
cut_value (String.◌∷◌ c s) =
    if code c == b'='
    then record { name = ""; value = some s }
    else longer_name (cut_value s) (String.◌∷◌ c)

-- What flag.Parse makes of an argument.
pub data Shape : Type 0 where
  -- not a flag, or the terminator: it ends the flags
  ends : Shape
  bad_syntax : Shape
  named : Named → Shape

abbrev shape_of_name : String → Shape
shape_of_name String.[] = bad_syntax
shape_of_name (String.◌∷◌ c s) =
    if code c == b'-' || code c == b'='
    then bad_syntax
    else named (longer_name (cut_value s) (String.◌∷◌ c))

abbrev shape_after_dash : String → Shape
shape_after_dash String.[] = ends
shape_after_dash (String.◌∷◌ c String.[]) =
    if code c == b'-' then ends else shape_of_name (String.◌∷◌ c String.[])
shape_after_dash (String.◌∷◌ c (String.◌∷◌ d s)) =
    if code c == b'-'
    then shape_of_name (String.◌∷◌ d s)
    else shape_of_name (String.◌∷◌ c (String.◌∷◌ d s))

unfoldable pub shape_of : String → Shape
unfolding cut_value
shape_of String.[] = ends
shape_of (String.◌∷◌ c s) = if code c == b'-' then shape_after_dash s else ends

-- With flag.ExitOnError, Parse returns the values that it has set, or ends the process.
pub data Parsed (A : Type 0) : Type 0 where
  exits : ℤ → Parsed A
  parsed : A → Parsed A

-- The flags of a command: their names, and the values that each accepts.
pub record FlagSet : Type 0 where
  pub names : List String
  pub accepts : String → String → Bool

abbrev pub string_flags : List String → FlagSet
string_flags names = record { names = names; accepts = λ name value. true }

-- A flag that is not defined: help ends the process without an error.
abbrev undefined_flag : String → Parsed (Dict String)
undefined_flag name = exits (if str_eq name "help" || str_eq name "h" then pos 0 else pos 2)

abbrev defined : FlagSet → String → Bool
defined set name = any (λ n. str_eq n name) set.names

-- How parsing goes on, with the values so far.
abbrev Continue : Type 0
Continue = Dict String → Parsed (Dict String)

abbrev set_value : FlagSet → String → String → Dict String → Continue → Parsed (Dict String)
set_value set name value m next =
    if set.accepts name value then next (insert name value m) else exits (pos 2)

-- The value of a flag: its own, or the argument behind it.
abbrev set_flag :
    FlagSet → Named → Dict String → Continue → Option (String × Continue) → Parsed (Dict String)
set_flag set n m next behind = elim n.value [
  | some value ↦ set_value set n.name value m next
  | none ↦ elim behind [ none ↦ exits (pos 2) | some (value, go) ↦ set_value set n.name value m go ]
]

-- One flag. `next` goes on behind it, and `behind` behind the argument that follows it.
abbrev parse_flag :
    FlagSet → Shape → Dict String → Continue → Option (String × Continue) → Parsed (Dict String)
parse_flag set ends m next behind = parsed m
parse_flag set bad_syntax m next behind = exits (pos 2)
parse_flag set (named n) m next behind =
    if defined set n.name then set_flag set n m next behind else undefined_flag n.name

-- (*FlagSet).Parse
unfoldable pub parse_flags : FlagSet → List String → Continue
unfolding shape_of insert
parse_flags set [] m = parsed m
parse_flags set (a ∷ []) m = parse_flag set (shape_of a) m (λ n. parsed n) none
parse_flags set (a ∷ v ∷ rest) m =
    parse_flag set (shape_of a) m (λ n. parse_flags set (v ∷ rest) n)
      (some (v, λ n. parse_flags set rest n))

abbrev pub with_positional : List String → Parsed (Dict String) → Parsed (Dict String × List String)
with_positional args (exits code) = exits code
with_positional args (parsed m) = parsed (m, args)

-- parseArgs, which returns the values of the flags as well
unfoldable pub parse_args : FlagSet → List String → Parsed (Dict String × List String)
unfolding split_args parse_flags
parse_args set args =
    let s = split_args args in with_positional s.positional (parse_flags set s.flag_args [])
