-- ===== src/Realtime/Sort/Percentiles.antt =====
-- `percentile` of sidecar-go/realtime/hub.go on a sorted window.
use mathlib.Core.List.{Perm}
use duckdb_load_testing_tool.Prelude.{
  ℕ, ◌≤◌, ◌<◌, ◌^◌, ◌≡◌, refl, sym, ap, ◌∙◌, List, [], ◌∷◌, false, arith, length,
}
use duckdb_load_testing_tool.Prelude.Int.{pos}
use duckdb_load_testing_tool.Prelude.Result.{ok}
use duckdb_load_testing_tool.Prelude.Shuffle.{sum_over, sum_over-perm}
use duckdb_load_testing_tool.Float.{Float64, IsOrdered, IsIndexing}
use duckdb_load_testing_tool.Realtime.Sort.{sort_float64s, at, at_int, percentile_index, percentile}
use duckdb_load_testing_tool.Realtime.Sort.Sorted.{IsAscending, at-ok, at_mono, sort_float64s-perm}

sum_over-length : {A : Type 0} (xs : List A) → sum_over (λ x. 1) xs ≡ length xs
sum_over-length [] = refl
sum_over-length (x ∷ xs) = omega (arith, sum_over-length xs)

length-perm : {A : Type 0} {xs ys : List A} → Perm xs ys → length xs ≡ length ys
length-perm {xs} {ys} p = sym (sum_over-length xs) ∙ sum_over-perm (λ x. 1) p ∙ sum_over-length ys

pub length-sort_float64s :
    {F : Type 0} ⦃d : Float64 F⦄ → (values : List F) → length (sort_float64s values) ≡ length values
length-sort_float64s values = length-perm (sort_float64s-perm values)

module _ {F : Type 0} ⦃d : Float64 F⦄ (indexing : IsIndexing F) where
  open d use {lt, lit}

  percentile-ok :
      (x : F) (xs : List F) (k : ℕ)
      → length xs < 2 ^ 53
      → k ≤ 100
      → (i : ℕ) × (a : F) × (percentile_index (length xs) (lit k 2) ≡ pos i)
        × (at (x ∷ xs) i ≡ ok a)
        × (percentile (x ∷ xs) (lit k 2) ≡ ok a)
  unfolding percentile
  percentile-ok x xs k small k≤ =
      let (i, ei, i≤) = indexing.index_of (length xs) k small k≤ in
      let (a, ea) = at-ok (x ∷ xs) i (omega arith) in (i, a, ei, ea, ap (at_int (x ∷ xs)) ei ∙ ea)

  pub percentile-total :
      (values : List F) (k : ℕ)
      → length values < 2 ^ 53
      → k ≤ 100
      → (a : F) × (percentile values (lit k 2) ≡ ok a)
  unfolding percentile
  percentile-total [] k small k≤ = (_, refl)
  percentile-total (x ∷ xs) k small k≤ =
      let (i, a, ei, ea, p) = percentile-ok x xs k (omega arith) k≤ in (a, p)

  module _ (laws : IsOrdered F) where
    -- Percentiles of one ascending window, in the order of their percentages.
    pub percentile_mono :
        (values : List F) (k l : ℕ)
        → IsAscending values
        → length values < 2 ^ 53
        → 0 < length values
        → k ≤ l
        → l ≤ 100
        → (a : F) × (b : F) × (percentile values (lit k 2) ≡ ok a)
          × (percentile values (lit l 2) ≡ ok b)
          × (lt b a ≡ false)
    percentile_mono [] k l up small h k≤ l≤ = absurd (omega arith)
    percentile_mono (x ∷ xs) k l up small h k≤ l≤ =
        let (i, a, ei, ea, pa) = percentile-ok x xs k (omega arith) (omega arith) in
        let (j, b, ej, eb, pb) = percentile-ok x xs l (omega arith) l≤ in
        let i≤j = indexing.index_mono (length xs) k l i j (omega arith) k≤ l≤ ei ej in
        (a, b, pa, pb, at_mono laws (x ∷ xs) i j a b up i≤j ea eb)
