-- ===== src/Gate/Trust.antt =====
-- What too few samples, a missing baseline or no baseline at all make of the findings.
use duckdb_load_testing_tool.Prelude.{
  ◌≡◌, ◌⊎◌, refl, ◌∙◌, none, some, List, [], true, arith, All, inl, inr,
}
use duckdb_load_testing_tool.Float.{Float64}
use duckdb_load_testing_tool.Policy.{unknown, Policy, effective_metric_policy}
use duckdb_load_testing_tool.Analysis.Endpoint.{EndpointStats}
use duckdb_load_testing_tool.Gate.Types.{budget, Finding, Sample}
use duckdb_load_testing_tool.Gate.Findings.{unknown_finding, budget_finding, error_budget_finding}
use duckdb_load_testing_tool.Gate.Evaluation.{
  Baseline, too_few, sample_of, findings_of, all_findings, evaluate, base_of,
}
use duckdb_load_testing_tool.Gate.Induction.{
  Admits, Compared, sampled, findings_of-All, all_findings-All,
}

module _ {F : Type 0} ⦃d : Float64 F⦄ where
  abbrev IsUnknown : Finding F → Type 0
  IsUnknown f = f.status ≡ unknown

  insufficient_sampled :
      (pol : Policy F) (baseline : Baseline F) (cur : EndpointStats F)
      → (sampled pol baseline cur).insufficient_current
        ≡ too_few cur (effective_metric_policy pol cur.endpoint)
  unfolding sample_of
  insufficient_sampled pol baseline cur = refl

  Admits-IsUnknown : (s : Sample F) → s.insufficient_current ≡ true → Admits IsUnknown s
  unfolding unknown_finding
  Admits-IsUnknown s few = record {
    on_few = λ e metric reason. refl;
    on_unknown = λ on metric reason. refl;
    on_budget = λ e metric v lp. cc;
    on_regression = λ b c metric x y lp. let e = c.current_enough in cc;
    on_error_budget = λ e v ep. cc;
    on_error_regression = λ b c x y ep. let e = c.current_enough in cc;
  }

  -- Where the current run has fewer requests to an endpoint than the policy's minimum for it, every
  -- finding of the endpoint is UNKNOWN, whatever was measured: none passes, warns or fails.
  pub too_few-IsUnknown :
      (pol : Policy F) (baseline : Baseline F) (cur : EndpointStats F)
      → too_few cur (effective_metric_policy pol cur.endpoint) ≡ true
      → All (λ f. f.status ≡ unknown) (findings_of pol baseline cur)
  too_few-IsUnknown pol baseline cur few =
      findings_of-All IsUnknown pol baseline cur
        (Admits-IsUnknown (sampled pol baseline cur) (insufficient_sampled pol baseline cur ∙ few))

  -- A regression finding has a verdict only where both runs have enough samples.
  abbrev NeedsBaseline : Finding F → Type 0
  NeedsBaseline f = (f.check ≡ budget) ⊎ (f.status ≡ unknown)

  Admits-NeedsBaseline :
      (s : Sample F) → ((b : EndpointStats F) → ¬ Compared s b) → Admits NeedsBaseline s
  unfolding unknown_finding budget_finding error_budget_finding
  Admits-NeedsBaseline s never = record {
    on_few = λ e metric reason. inr refl;
    on_unknown = λ on metric reason. inr refl;
    on_budget = λ e metric v lp. inl refl;
    on_regression = λ b c metric x y lp. absurd (never b c);
    on_error_budget = λ e v ep. inl refl;
    on_error_regression = λ b c x y ep. absurd (never b c);
  }

  not-Compared :
      (pol : Policy F) (baseline : Baseline F) (cur : EndpointStats F)
      → ((b : EndpointStats F)
          → base_of cur.endpoint baseline ≡ some b
          → too_few b (effective_metric_policy pol cur.endpoint) ≡ true)
      → (b : EndpointStats F) → ¬ Compared (sampled pol baseline cur) b
  unfolding sample_of
  not-Compared pol baseline cur few b c =
      let e = c.base in let g = c.baseline_enough in ground (arith, few b c.base)

  -- Where the baseline run has no entry for an endpoint, or fewer requests to it than the policy's
  -- minimum, the comparison gives no verdict: every finding of the endpoint is of the absolute
  -- budget, or UNKNOWN.
  pub too_few_baseline-NeedsBaseline :
      (pol : Policy F) (baseline : Baseline F) (cur : EndpointStats F)
      → ((b : EndpointStats F)
          → base_of cur.endpoint baseline ≡ some b
          → too_few b (effective_metric_policy pol cur.endpoint) ≡ true)
      → All (λ f. (f.check ≡ budget) ⊎ (f.status ≡ unknown)) (findings_of pol baseline cur)
  too_few_baseline-NeedsBaseline pol baseline cur few =
      findings_of-All NeedsBaseline pol baseline cur
        (Admits-NeedsBaseline (sampled pol baseline cur) (not-Compared pol baseline cur few))

  Admits-budget :
      (pol : Policy F) (cur : EndpointStats F)
      → Admits (λ f. f.check ≡ budget) (sampled pol none cur)
  unfolding sample_of unknown_finding budget_finding error_budget_finding
  Admits-budget pol cur = record {
    on_few = λ e metric reason. refl;
    on_unknown = λ on metric reason. cc;
    on_budget = λ e metric v lp. refl;
    on_regression = λ b c metric x y lp. let e = c.base in cc;
    on_error_budget = λ e v ep. refl;
    on_error_regression = λ b c x y ep. let e = c.base in cc;
  }

  -- Without a baseline run the gate checks budgets alone: no finding compares two runs, and no
  -- endpoint is reported as new or as removed.
  pub evaluate_budget_only :
      (pol : Policy F) (current : List (EndpointStats F))
      → All (λ f. f.check ≡ budget) (all_findings pol none current)
        × ((evaluate current none pol).new_endpoints ≡ [])
        × ((evaluate current none pol).removed_endpoints ≡ [])
  unfolding evaluate
  evaluate_budget_only pol current =
      (all_findings-All (λ f. f.check ≡ budget) pol none current (Admits-budget pol), refl, refl)
