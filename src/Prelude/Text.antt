-- ===== src/Prelude/Text.antt =====
-- The order of texts, as Go's `<` on strings: by bytes, which for UTF-8 is the order of the code
-- points that `compare` uses.
use Prim.Native.Nat.{compare as compare_ℕ, Ordering}
use Prim.Native.Char.{code}
use Prim.Native.String.{compare, then}
use Prim.Native.String.compare
use text.Mathlib.Text.{is_lt}
use duckdb_load_testing_tool.Prelude.{ℕ, String, ◌≡◌, refl, Bool, true, false, arith}

-- `s < t`
abbrev pub string_lt : String → String → Bool
string_lt s t = is_lt (compare s t)

-- The answer of the comparison the other way round.
abbrev swapped : Ordering → Ordering
swapped Ordering.lt = Ordering.gt
swapped Ordering.eq = Ordering.eq
swapped Ordering.gt = Ordering.lt

swapped-compare_ℕ : (m n : ℕ) → compare_ℕ n m ≡ swapped (compare_ℕ m n)
swapped-compare_ℕ m n = ground arith

swapped-then : (a b : Ordering) → then (swapped a) (swapped b) ≡ swapped (then a b)
swapped-then Ordering.lt b = refl
swapped-then Ordering.eq b = refl
swapped-then Ordering.gt b = refl

swapped-compare : (s t : String) → compare t s ≡ swapped (compare s t)
swapped-compare String.[] String.[] = refl
swapped-compare String.[] (String.◌∷◌ d t) = rw (compare.cons-nil, compare.nil-cons)
swapped-compare (String.◌∷◌ c s) String.[] = rw (compare.cons-nil, compare.nil-cons)
swapped-compare (String.◌∷◌ c s) (String.◌∷◌ d t) =
    rw
      (
        compare.cons-cons d c t s,
        compare.cons-cons c d s t,
        swapped-compare_ℕ (code c) (code d),
        swapped-compare s t,
      )
      (swapped-then _ _)

not_both : (o : Ordering) → is_lt o ≡ true → is_lt (swapped o) ≡ false
not_both Ordering.lt h = refl
not_both Ordering.eq h = refl
not_both Ordering.gt h = cc

pub string_lt_asymm : (s t : String) → string_lt s t ≡ true → string_lt t s ≡ false
string_lt_asymm s t h = rw (swapped-compare s t) (not_both (compare s t) h)
