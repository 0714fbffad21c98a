-- ===== src/Gate/Thresholds.antt =====
-- When a check warns or fails: the budgets, and the noise floor of a comparison.
use duckdb_load_testing_tool.Prelude.{
  String, ◌≡◌, ◌≢◌, ◌≤◌, refl, Option, none, some, Bool, true, false, ◌&&◌, arith, Bool-cases, inl,
  inr,
}
use duckdb_load_testing_tool.Float.{Float64, gt, IsNumber, IsOrdered}
use duckdb_load_testing_tool.Policy.{pass, LatencyPolicy, ErrorRatePolicy}
use duckdb_load_testing_tool.Gate.Findings.{
  above, judge, Verdict, budget_finding, regression_finding, error_budget_finding, percent_change,
  min_absolute,
}
use duckdb_load_testing_tool.Gate.Build.{rank}

module _ {F : Type 0} ⦃d : Float64 F⦄ where
  open d use {lt, le, sub}

  -- A verdict on `v` under a further condition.
  abbrev judged : F → Bool → Option F → Option F → Verdict F
  judged v also hard soft = judge (above v hard && also) (above v soft && also) hard soft

  abbrev Breach : F → Bool → Option F → Option F → Type 0
  Breach v also hard soft =
      (t : F) × ((judged v also hard soft).1 ≡ some t) × (gt v t ≡ true) × (also ≡ true)

  soft-Breach :
      (v : F) (also : Bool) (hard soft : Option F)
      → (above v hard && also) ≡ false
      → (judged v also hard soft).0 ≢ pass
      → Breach v also hard soft
  soft-Breach v also hard none off h = absurd (h (ground arith))
  soft-Breach v also hard (some t) off h = (t, ground arith, ground arith, ground arith)

  judge-Breach :
      (v : F) (also : Bool) (hard soft : Option F)
      → (judged v also hard soft).0 ≢ pass
      → Breach v also hard soft
  judge-Breach v also none soft h = soft-Breach v also none soft refl h
  judge-Breach v also (some t) soft h = elim (Bool-cases (gt v t && also)) [
    | inl on ↦ (t, ground arith, ground arith, ground arith)
    | inr off ↦ soft-Breach v also (some t) soft off h
  ]

  -- A WARN or FAIL verdict of a comparison of latencies, for an endpoint that is `baseline` and then
  -- `current`, is reported with the threshold that the relative change exceeds, and the absolute
  -- change is at least the policy's floor.
  pub regression_finding_breach :
      (endpoint metric : String) (baseline current : F) (lp : LatencyPolicy F)
      → (regression_finding endpoint metric baseline current lp).status ≢ pass
      → (t : F) × ((regression_finding endpoint metric baseline current lp).threshold ≡ some t)
        × (gt (percent_change baseline current) t ≡ true)
        × (le (min_absolute lp) (sub current baseline) ≡ true)
  unfolding regression_finding
  regression_finding_breach endpoint metric baseline current lp h =
      judge-Breach (percent_change baseline current) (le (min_absolute lp) (sub current baseline))
        lp.max_regression_percent lp.warn_regression_percent h

  module _ (laws : IsOrdered F) where
    open laws use {not-lt_trans}

    above_mono :
        (a b : F) (t : Option F) → IsNumber b → lt b a ≡ false → above a t ≡ true → above b t ≡ true
    above_mono a b none n h e = cc
    above_mono a b (some t) n h e = ground (arith, not-lt_trans a b t n h)

    rank-judge :
        (a b : F) (hard soft : Option F)
        → IsNumber b
        → lt b a ≡ false
        → rank (judge (above a hard) (above a soft) hard soft).0
          ≤ rank (judge (above b hard) (above b soft) hard soft).0
    rank-judge a b hard soft n h = ground (arith, above_mono a b hard n h, above_mono a b soft n h)

    -- A budget is monotone: a latency that is no better never gets a better verdict, in the order
    -- PASS, WARN, FAIL; and so with an error rate.
    pub budget_mono :
        (endpoint metric : String) (a b : F) (lp : LatencyPolicy F) (ep : ErrorRatePolicy F)
        → IsNumber b
        → lt b a ≡ false
        → (rank (budget_finding endpoint metric a lp).status
            ≤ rank (budget_finding endpoint metric b lp).status)
          × (rank (error_budget_finding endpoint a ep).status
              ≤ rank (error_budget_finding endpoint b ep).status)
    unfolding budget_finding error_budget_finding
    budget_mono endpoint metric a b lp ep n h = (
      rank-judge a b lp.max_ms lp.warn_max_ms n h,
      rank-judge a b ep.max_absolute ep.warn_max_absolute n h,
    )
