-- ===== src/Handlers/Analysis/Limit.antt =====
-- The limit of a trend: `HandleTrend` of sidecar-go/handlers/analysis_handlers.go, with the
-- `Int64` of json.Number.
use Prim.Native.Char.{code}
use Prim.Native.String.{String}
use duckdb_load_testing_tool.Prelude.{
  ℕ, zero, suc, ◌+◌, ◌-◌, ◌*◌, ◌^◌, ◌≤◌, ◌≡◌, refl, Bool, true, ◌&&◌, Option, none, some, ltb, leb,
  ◌==◌, if◌then◌else◌, arith, Bool-cases, inl, inr,
}
use duckdb_load_testing_tool.Prelude.Int.{ℤ, pos, negsuc, ltb_ℤ, leb_ℤ}

-- The number behind a text of decimal digits, after `n`.
unfoldable pub digits_from : ℕ → String → Option ℕ
digits_from n String.[] = some n
digits_from n (String.◌∷◌ c s) =
    let rest = digits_from (10 * n + (code c - b'0')) s in
    if leb b'0' (code c) && leb (code c) b'9' then rest else none

abbrev unsigned : String → Option ℕ
unsigned String.[] = none
unsigned (String.◌∷◌ c s) = digits_from 0 (String.◌∷◌ c s)

-- An int64 is at most 2^63 - 1 and at least -2^63.
abbrev positive : Option ℕ → Option ℤ
positive none = none
positive (some n) = if ltb n (2 ^ 63) then some (pos n) else none

abbrev negative : Option ℕ → Option ℤ
negative none = none
negative (some zero) = some (pos 0)
negative (some (suc n)) = if ltb n (2 ^ 63) then some (negsuc n) else none

-- strconv.ParseInt(s, 10, 64), none for an error
unfoldable pub parse_int64 : String → Option ℤ
parse_int64 String.[] = none
parse_int64 (String.◌∷◌ c s) =
    if code c == b'+'
    then positive (unsigned s)
    else if code c == b'-'
    then negative (unsigned s)
    else positive (unsigned (String.◌∷◌ c s))

abbrev pub default_limit : ℤ
default_limit = pos 10

-- l > 0 && l <= 100
unfoldable pub is_limit : ℤ → Bool
is_limit l = ltb_ℤ (pos 0) l && leb_ℤ l (pos 100)

-- The assignment of a number that may be a limit.
abbrev accepted : Option ℤ → ℤ
accepted none = default_limit
accepted (some l) = if is_limit l then l else default_limit

-- The limit that the text of the parameter sets.
unfoldable pub trend_limit : String → ℤ
trend_limit String.[] = default_limit
trend_limit (String.◌∷◌ c s) = accepted (parse_int64 (String.◌∷◌ c s))

-- A number of runs that the database may be asked for.
abbrev pub IsLimit : ℤ → Type 0
IsLimit l = (n : ℕ) × (l ≡ pos n) × (1 ≤ n) × (n ≤ 100)

default_limit-IsLimit : IsLimit default_limit
default_limit-IsLimit = (10, refl, omega arith, omega arith)

is_limit-IsLimit : (l : ℤ) → is_limit l ≡ true → IsLimit l
unfolding is_limit
is_limit-IsLimit (pos n) h =
    let low : 1 ≤ n = ground arith in let high : n ≤ 100 = ground arith in (n, refl, low, high)
is_limit-IsLimit (negsuc n) h = ground arith

accepted-IsLimit : (o : Option ℤ) → IsLimit (accepted o)
accepted-IsLimit none = default_limit-IsLimit
accepted-IsLimit (some l) = elim (Bool-cases (is_limit l)) [
  | inl e ↦ rw e (is_limit-IsLimit l e)
  | inr e ↦ rw e default_limit-IsLimit
]

pub trend_limit-IsLimit : (text : String) → IsLimit (trend_limit text)
unfolding trend_limit
trend_limit-IsLimit String.[] = default_limit-IsLimit
trend_limit-IsLimit (String.◌∷◌ c s) = accepted-IsLimit (parse_int64 (String.◌∷◌ c s))
