-- ===== src/Realtime/Stats/Ordered.antt =====
-- What `calculatePercentiles` stores.
use mathlib.Core.Path.{subst}
use duckdb_load_testing_tool.Prelude.{◌<◌, ◌^◌, ◌≡◌, refl, false, arith, length, List, [], ◌∷◌, All}
use duckdb_load_testing_tool.Prelude.Result.{ok}
use duckdb_load_testing_tool.Float.{Float64, IsNumber, IsOrdered, IsIndexing}
use duckdb_load_testing_tool.Realtime.Sort.{sort_float64s}
use duckdb_load_testing_tool.Realtime.Sort.Sorted.{sort_float64s-IsAscending}
use duckdb_load_testing_tool.Realtime.Sort.Percentiles.{
  percentile-total, percentile_mono, length-sort_float64s,
}
use duckdb_load_testing_tool.Realtime.Stats.{HubStats, calculate_percentiles, stored, is_empty}

is_empty-pos : {A : Type 0} → (xs : List A) → 0 < length xs → is_empty xs ≡ false
is_empty-pos [] h = absurd (omega arith)
is_empty-pos (x ∷ xs) h = refl

module _ {F : Type 0} ⦃d : Float64 F⦄ (indexing : IsIndexing F) where
  open d use {lt, lit}

  -- No panic: the three indices are in range.
  pub calculate_percentiles-ok :
      (h : HubStats F)
      → length h.rtt_buffer < 2 ^ 53
      → is_empty h.rtt_buffer ≡ false
      → (a : F) × (b : F) × (c : F) × (calculate_percentiles h
          ≡ ok (stored (sort_float64s h.rtt_buffer) a b c h))
  unfolding calculate_percentiles
  calculate_percentiles-ok h small e =
      let values = sort_float64s h.rtt_buffer in
      let size = length-sort_float64s h.rtt_buffer in
      let (a, pa) = percentile-total indexing values 50 (omega arith) (omega arith) in
      let (b, pb) = percentile-total indexing values 95 (omega arith) (omega arith) in
      let (c, pc) = percentile-total indexing values 99 (omega arith) (omega arith) in
      (a, b, c, rw (e, pa, pb, pc) refl)

  pub calculate_percentiles-ordered :
      IsOrdered F
      → (h : HubStats F) → 0 < length h.rtt_buffer
      → length h.rtt_buffer < 2 ^ 53
      → All IsNumber h.rtt_buffer
      → (a : F) × (b : F) × (c : F) × (calculate_percentiles h
          ≡ ok (stored (sort_float64s h.rtt_buffer) a b c h))
        × (lt b a ≡ false)
        × (lt c b ≡ false)
  unfolding calculate_percentiles
  calculate_percentiles-ordered laws h some_values small numbers =
      let values = sort_float64s h.rtt_buffer in
      let size = length-sort_float64s h.rtt_buffer in
      let (up, _) = sort_float64s-IsAscending laws h.rtt_buffer numbers in
      let (a, b, pa, pb, a≤b) =
        percentile_mono indexing laws values 50 95 up (omega arith) (omega arith) (omega arith)
          (omega arith) in
      let (b', c, pb', pc, b≤c) =
        percentile_mono indexing laws values 95 99 up (omega arith) (omega arith) (omega arith)
          (omega arith) in
      let e = is_empty-pos h.rtt_buffer some_values in
      let same : b' ≡ b = cc in
      (a, b, c, rw (e, pa, pb, pc) refl, a≤b, subst (λ z. lt c z ≡ false) same b≤c)
