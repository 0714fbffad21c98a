-- ===== src/Analysis/Comparator/Verdict.antt =====
-- When a comparison passes, and what a regression means.
use mathlib.Core.List.{append-nil, append_assoc}
use duckdb_load_testing_tool.Prelude.{
  ◌≡◌, sym, ◌∙◌, Option, none, some, List, [], ◌∷◌, ◌++◌, Bool, true, false, not, ◌&&◌, arith, any,
  if◌then◌else◌,
}
use duckdb_load_testing_tool.Float.{Float64}
use duckdb_load_testing_tool.Analysis.Comparator.{
  Regression, RunStats, Thresholds, is_critical, report_all, checks, compare_stats,
}

module _ {F : Type 0} ⦃d : Float64 F⦄ where
  open d use {lit, sub, mul, div, feq}

  -- The regressions that a list of checks found.
  abbrev pub found_by : List (Option (Regression F)) → List (Regression F)
  found_by [] = []
  found_by (none ∷ cs) = found_by cs
  found_by (some r ∷ cs) = r ∷ found_by cs

  passing-report_all :
      (cs : List (Option (Regression F))) (rs : List (Regression F)) (passing : Bool)
      → (report_all cs (rs, passing)).1 ≡ (passing && not (any is_critical (found_by cs)))
  unfolding report_all
  passing-report_all [] rs passing = ground arith
  passing-report_all (none ∷ cs) rs passing = passing-report_all cs rs passing
  passing-report_all (some r ∷ cs) rs passing =
      ground
        (arith, passing-report_all cs (rs ++ r ∷ []) (if is_critical r then false else passing))

  regressions-report_all :
      (cs : List (Option (Regression F))) (rs : List (Regression F)) (passing : Bool)
      → (report_all cs (rs, passing)).0 ≡ rs ++ found_by cs
  unfolding report_all
  regressions-report_all [] rs passing = sym (append-nil rs)
  regressions-report_all (none ∷ cs) rs passing = regressions-report_all cs rs passing
  regressions-report_all (some r ∷ cs) rs passing =
      regressions-report_all cs (rs ++ r ∷ []) (if is_critical r then false else passing)
      ∙ append_assoc rs (r ∷ []) (found_by cs)

  -- A comparison passes just when none of the regressions that it lists is critical, so one that
  -- passes may still list warnings; and it lists what its six checks found, in their order.
  pub compare_stats-passing :
      (t : Thresholds F) (base cur : RunStats F)
      → let r = compare_stats t base cur in
        (r.is_passing ≡ not (any is_critical r.regressions))
        × (r.regressions ≡ found_by (checks t base cur))
  unfolding compare_stats
  compare_stats-passing t base cur =
      let cs = checks t base cur in
      let e = regressions-report_all cs [] true in (rw e (passing-report_all cs [] true), e)
