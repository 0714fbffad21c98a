-- ===== src/Duckload/Args/Order.antt =====
-- The order of flags and other arguments: `parseArgs` of sidecar-go/cmd/duckload/main.go.
use duckdb_load_testing_tool.Prelude.{
  String, ◌≡◌, refl, sym, ap, ◌∙◌, true, false, List, [], ◌∷◌, ◌++◌,
}
use duckdb_load_testing_tool.Duckload.Args.{
  FlagSet, is_flag, has_equals, Split, one_flag, flag_and_value, one_positional, split_args,
  parse_args, parse_flags, with_positional,
}

-- Arguments in which no flag waits for its value.
pub data IsComplete : List String → Type 0 where
  nothing : IsComplete []
  with_equals :
      {a : String} {rest : List String}
      → is_flag a ≡ true
      → has_equals a ≡ true
      → IsComplete rest
      → IsComplete (a ∷ rest)
  with_value :
      {a v : String} {rest : List String}
      → is_flag a ≡ true
      → has_equals a ≡ false
      → IsComplete rest
      → IsComplete (a ∷ v ∷ rest)
  other :
      {a : String} {rest : List String}
      → is_flag a ≡ false
      → IsComplete rest
      → IsComplete (a ∷ rest)

abbrev joined : Split → Split → Split
joined s t = record {
  flag_args = s.flag_args ++ t.flag_args;
  positional = s.positional ++ t.positional;
}

split_args-equals :
    (a : String) (rest : List String)
    → is_flag a ≡ true
    → has_equals a ≡ true
    → split_args (a ∷ rest) ≡ one_flag a (split_args rest)
unfolding split_args
split_args-equals a [] h k = rw h refl
split_args-equals a (v ∷ rest) h k = rw (h, k) refl

split_args-value :
    (a v : String) (rest : List String)
    → is_flag a ≡ true
    → has_equals a ≡ false
    → split_args (a ∷ v ∷ rest) ≡ flag_and_value a v (split_args rest)
unfolding split_args
split_args-value a v rest h k = rw (h, k) refl

split_args-other :
    (a : String) (rest : List String)
    → is_flag a ≡ false
    → split_args (a ∷ rest) ≡ one_positional a (split_args rest)
unfolding split_args
split_args-other a [] h = rw h refl
split_args-other a (v ∷ rest) h = rw h refl

split_args-append :
    {xs : List String} (ys : List String)
    → IsComplete xs
    → split_args (xs ++ ys) ≡ joined (split_args xs) (split_args ys)
split_args-append ys nothing = unfold split_args in refl
split_args-append ys (with_equals {a} {rest} h k c) =
    split_args-equals a (rest ++ ys) h k
    ∙ ap (one_flag a) (split_args-append ys c)
    ∙ ap (λ s. joined s (split_args ys)) (sym (split_args-equals a rest h k))
split_args-append ys (with_value {a} {v} {rest} h k c) =
    split_args-value a v (rest ++ ys) h k
    ∙ ap (flag_and_value a v) (split_args-append ys c)
    ∙ ap (λ s. joined s (split_args ys)) (sym (split_args-value a v rest h k))
split_args-append ys (other {a} {rest} h c) =
    split_args-other a (rest ++ ys) h
    ∙ ap (one_positional a) (split_args-append ys c)
    ∙ ap (λ s. joined s (split_args ys)) (sym (split_args-other a rest h))

-- Flags alone, each with its value.
pub data AreFlags : List String → Type 0 where
  no_flags : AreFlags []
  flag_equals :
      {a : String} {rest : List String}
      → is_flag a ≡ true
      → has_equals a ≡ true
      → AreFlags rest
      → AreFlags (a ∷ rest)
  flag_value :
      {a v : String} {rest : List String}
      → is_flag a ≡ true
      → has_equals a ≡ false
      → AreFlags rest
      → AreFlags (a ∷ v ∷ rest)

AreFlags-IsComplete : {xs : List String} → AreFlags xs → IsComplete xs
AreFlags-IsComplete no_flags = nothing
AreFlags-IsComplete (flag_equals h k c) = with_equals h k (AreFlags-IsComplete c)
AreFlags-IsComplete (flag_value h k c) = with_value h k (AreFlags-IsComplete c)

no_positional : {xs : List String} → AreFlags xs → (split_args xs).positional ≡ []
no_positional no_flags = unfold split_args in refl
no_positional (flag_equals {a} {rest} h k c) =
    ap (λ s. s.positional) (split_args-equals a rest h k) ∙ no_positional c
no_positional (flag_value {a} {v} {rest} h k c) =
    ap (λ s. s.positional) (split_args-value a v rest h k) ∙ no_positional c

-- A positional argument behind flags, and in front of them.
moved :
    (flags : List String) (file : String) (rest : List String)
    → AreFlags flags
    → is_flag file ≡ false
    → split_args (flags ++ file ∷ rest) ≡ split_args (file ∷ (flags ++ rest))
moved flags file rest k no_flag =
    let s = split_args flags in
    let behind = split_args rest in
    let c = AreFlags-IsComplete k in
    split_args-append (file ∷ rest) c
    ∙ ap (joined s) (split_args-other file rest no_flag)
    ∙ ap
        (λ p. record {
          flag_args = s.flag_args ++ behind.flag_args;
          positional = p ++ file ∷ behind.positional;
        })
        (no_positional k)
    ∙ ap
        (λ p. record {
          flag_args = s.flag_args ++ behind.flag_args;
          positional = file ∷ (p ++ behind.positional);
        })
        (sym (no_positional k))
    ∙ ap (one_positional file) (sym (split_args-append rest c))
    ∙ sym (split_args-other file (flags ++ rest) no_flag)

-- Flags with their values may stand in front of an argument that is no flag or behind it: parseArgs
-- gives the same values and the same positional arguments, whatever stands around the two. The
-- arguments in front must not end in a flag that waits for its value.
pub parse_args-order :
    (set : FlagSet) (front flags : List String) (file : String) (rest : List String)
    → IsComplete front
    → AreFlags flags
    → is_flag file ≡ false
    → parse_args set (front ++ (flags ++ file ∷ rest))
      ≡ parse_args set (front ++ file ∷ (flags ++ rest))
unfolding parse_args
parse_args-order set front flags file rest h k no_flag =
    ap (λ s. with_positional s.positional (parse_flags set s.flag_args []))
      (split_args-append (flags ++ file ∷ rest) h
        ∙ ap (joined (split_args front)) (moved flags file rest k no_flag)
        ∙ sym (split_args-append (file ∷ (flags ++ rest)) h))
