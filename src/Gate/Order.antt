-- ===== src/Gate/Order.antt =====
-- `Evaluate` on rearranged lists of endpoints: sidecar-go/analysis/gate/gate.go.
use mathlib.Core.List.{Perm}
use duckdb_load_testing_tool.Prelude.{
  ◌≡◌, refl, ap, ap₂, sym, ◌∙◌, Option, List, [], ◌∷◌, ◌++◌, Bool, ◌||◌, ◌+◌, arith, if◌then◌else◌,
  any, any-append,
}
use duckdb_load_testing_tool.Prelude.Shuffle.{sum_over, any-perm, sum_over-perm}
use duckdb_load_testing_tool.Float.{Float64}
use duckdb_load_testing_tool.Policy.{Status, Policy, pass, warn, fail}
use duckdb_load_testing_tool.Policy.Load.{IsTreatment}
use duckdb_load_testing_tool.Analysis.Endpoint.{EndpointStats}
use duckdb_load_testing_tool.Gate.Types.{Finding, is_pass}
use duckdb_load_testing_tool.Gate.Evaluation.{
  Baseline, findings_of, all_findings, evaluate, index_baseline,
}
use duckdb_load_testing_tool.Gate.Verdict.{
  counts_as_fail, counts_as_warn, count_of, is_warn, is_fail, is_unknown,
}
use duckdb_load_testing_tool.Gate.Totals.{evaluate-verdict, evaluate-totals}

module _ {F : Type 0} ⦃d : Float64 F⦄ (pol : Policy F) (base : Baseline F) where
  any-all_findings :
      (p : Finding F → Bool) (current : List (EndpointStats F))
      → any p (all_findings pol base current) ≡ any (λ c. any p (findings_of pol base c)) current
  unfolding all_findings
  any-all_findings p [] = refl
  any-all_findings p (c ∷ cs) =
      any-append p (findings_of pol base c) (all_findings pol base cs)
      ∙ ap (λ b. any p (findings_of pol base c) || b) (any-all_findings p cs)

  count_of-append :
      (p : Status → Bool) (fs gs : List (Finding F))
      → count_of p (fs ++ gs) ≡ count_of p fs + count_of p gs
  count_of-append p [] gs = omega arith
  count_of-append p (f ∷ fs) gs = ground (arith, count_of-append p fs gs)

  count_of-all_findings :
      (p : Status → Bool) (current : List (EndpointStats F))
      → count_of p (all_findings pol base current)
        ≡ sum_over (λ c. count_of p (findings_of pol base c)) current
  unfolding all_findings
  count_of-all_findings p [] = refl
  count_of-all_findings p (c ∷ cs) = omega (
    arith,
    count_of-append p (findings_of pol base c) (all_findings pol base cs),
    count_of-all_findings p cs,
  )

  module _ {xs ys : List (EndpointStats F)} (shuffled : Perm xs ys) where
    any_shuffled :
        (p : Finding F → Bool) → any p (all_findings pol base xs) ≡ any p (all_findings pol base ys)
    any_shuffled p =
        any-all_findings p xs
        ∙ any-perm (λ c. any p (findings_of pol base c)) shuffled
        ∙ sym (any-all_findings p ys)

    count_shuffled :
        (p : Status → Bool)
        → count_of p (all_findings pol base xs) ≡ count_of p (all_findings pol base ys)
    count_shuffled p =
        count_of-all_findings p xs
        ∙ sum_over-perm (λ c. count_of p (findings_of pol base c)) shuffled
        ∙ sym (count_of-all_findings p ys)

module _ {F : Type 0} ⦃d : Float64 F⦄ where
  -- For a policy that treats UNKNOWN as PASS, WARN or FAIL, two current runs that list the same
  -- endpoints in any order get the same overall status and the same four counts.
  pub evaluate-perm :
      (pol : Policy F) (baseline : Option (List (EndpointStats F))) (xs ys : List (EndpointStats F))
      → IsTreatment pol.unknown_treatment
      → Perm xs ys
      → let r = evaluate xs baseline pol in
        let q = evaluate ys baseline pol in
        (r.status ≡ q.status)
        × (r.summary.passed ≡ q.summary.passed)
        × (r.summary.warned ≡ q.summary.warned)
        × (r.summary.failed ≡ q.summary.failed)
        × (r.summary.unknown ≡ q.summary.unknown)
  evaluate-perm pol baseline xs ys h p =
      let base = index_baseline baseline in
      let t = pol.unknown_treatment in
      let r = evaluate-totals xs baseline pol in
      let q = evaluate-totals ys baseline pol in
      (
        evaluate-verdict xs baseline pol h
            ∙ ap₂ (λ a b. if a then fail else if b then warn else pass)
                (any_shuffled pol base p (counts_as_fail t))
                (any_shuffled pol base p (counts_as_warn t))
            ∙ sym (evaluate-verdict ys baseline pol h),
        r.0 ∙ count_shuffled pol base p is_pass ∙ sym q.0,
        r.1 ∙ count_shuffled pol base p is_warn ∙ sym q.1,
        r.2 ∙ count_shuffled pol base p is_fail ∙ sym q.2,
        r.3 ∙ count_shuffled pol base p is_unknown ∙ sym q.3,
      )
