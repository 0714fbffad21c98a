-- ===== src/Realtime/Sort.antt =====
-- `sortFloat64s`, `average` and `percentile` of sidecar-go/realtime/hub.go.
pub mod Sorted
pub mod Percentiles
use duckdb_load_testing_tool.Prelude.{
  ℕ, suc, ◌-◌, List, [], ◌∷◌, ◌++◌, Bool, if◌then◌else◌, length, zero, Option, none, some,
}
use duckdb_load_testing_tool.Prelude.Int.{ℤ, pos, negsuc}
use duckdb_load_testing_tool.Prelude.Result.{Result, ok, err, Error, message}
use duckdb_load_testing_tool.Float.{Float64, nought, gt}

-- `values[i]`, a panic where the index is out of range
abbrev pub at : {F : Type 0} → List F → ℕ → Result F
at [] i = err (message "runtime error: index out of range")
at (v ∷ rest) zero = ok v
at (v ∷ rest) (suc i) = at rest i

abbrev pub at_int : {F : Type 0} → List F → ℤ → Result F
at_int values (pos i) = at values i
at_int values (negsuc i) = err (message "runtime error: index out of range")

module _ {F : Type 0} ⦃d : Float64 F⦄ where
  open d use {lit, add, mul, div, of_int, trunc}

  -- The inner loop: `values[0..i)` stands from its end to its start, as `j` runs through it. What is
  -- larger than `key` moves up by one place, and `key` takes the place that is left.
  unfoldable pub insert_key : F → List F → List F
  insert_key key [] = key ∷ []
  insert_key key (v ∷ before) =
      let rest = insert_key key before in if gt v key then v ∷ rest else key ∷ v ∷ before

  -- The outer loop, over the sorted part, reversed, and the values that are still to come.
  unfoldable pub sort_from : List F → List F → List F
  unfolding insert_key
  sort_from sorted [] = sorted
  sort_from sorted (key ∷ rest) = sort_from (insert_key key sorted) rest

  abbrev pub reverse_onto : List F → List F → List F
  reverse_onto [] out = out
  reverse_onto (x ∷ xs) out = reverse_onto xs (x ∷ out)

  -- sortFloat64s
  unfoldable pub sort_float64s : List F → List F
  unfolding sort_from
  sort_float64s values = reverse_onto (sort_from [] values) []

  unfoldable pub sum_from : F → List F → F
  sum_from acc [] = acc
  sum_from acc (v ∷ rest) = sum_from (add acc v) rest

  -- average
  unfoldable pub average : List F → F
  unfolding sum_from
  average [] = nought
  average (v ∷ rest) =
      let values = v ∷ rest in div (sum_from nought values) (of_int (pos (length values)))

  -- int(float64(len(values)-1) * p)
  abbrev pub percentile_index : ℕ → F → ℤ
  percentile_index last p = trunc (mul (of_int (pos last)) p)

  -- percentile
  unfoldable pub percentile : List F → F → Result F
  percentile [] p = ok nought
  percentile (v ∷ rest) p = at_int (v ∷ rest) (percentile_index (length rest) p)
