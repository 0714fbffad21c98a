-- ===== src/Gate/Induction.antt =====
-- One rule for what holds of every finding of an endpoint: it is enough that it holds of each way to
-- make a finding, under the tests that lead there.
use duckdb_load_testing_tool.Prelude.{
  String, ◌≡◌, refl, Option, none, some, List, [], ◌∷◌, ◌++◌, Bool, true, false, ◌||◌, is_some, All,
  All-append, Bool-cases, inl, inr,
}
use duckdb_load_testing_tool.Float.{Float64}
use duckdb_load_testing_tool.Policy.{
  LatencyPolicy, ErrorRatePolicy, MetricPolicy, Policy, effective_metric_policy,
}
use duckdb_load_testing_tool.Analysis.Endpoint.{EndpointStats}
use duckdb_load_testing_tool.Gate.Types.{budget, regression, Finding, Sample}
use duckdb_load_testing_tool.Gate.Findings.{
  unknown_finding, budget_finding, regression_finding, error_budget_finding,
  error_regression_finding,
}
use duckdb_load_testing_tool.Gate.Checks.{
  budget_half, regression_half, regression_switch, with_timing, latency_budget, latency_regression,
  evaluate_latency, error_rate_budget, error_rate_regression, evaluate_error_rate, check_endpoint,
}
use duckdb_load_testing_tool.Gate.Evaluation.{Baseline, sample_of, findings_of, all_findings}

module _ {F : Type 0} ⦃d : Float64 F⦄ where
  -- The tests that lead to a regression finding with a verdict.
  pub record Compared (s : Sample F) (b : EndpointStats F) : Type 0 where
    pub base : s.base ≡ some b
    pub current_enough : s.insufficient_current ≡ false
    pub baseline_enough : s.insufficient_baseline ≡ false

  pub record Admits (P : Finding F → Type 0) (s : Sample F) : Type 0 where
    pub on_few :
        s.insufficient_current ≡ true
        → (metric reason : String) → P (unknown_finding s.cur.endpoint metric budget reason)
    pub on_unknown :
        (is_some s.base || s.baseline_missing) ≡ true
        → (metric reason : String) → P (unknown_finding s.cur.endpoint metric regression reason)
    pub on_budget :
        s.insufficient_current ≡ false
        → (metric : String) (v : F) (lp : LatencyPolicy F)
        → P (budget_finding s.cur.endpoint metric v lp)
    pub on_regression :
        (b : EndpointStats F)
        → Compared s b
        → (metric : String) (x y : F) (lp : LatencyPolicy F)
        → P (with_timing s.timing_change (regression_finding s.cur.endpoint metric x y lp))
    pub on_error_budget :
        s.insufficient_current ≡ false
        → (v : F) (ep : ErrorRatePolicy F) → P (error_budget_finding s.cur.endpoint v ep)
    pub on_error_regression :
        (b : EndpointStats F)
        → Compared s b
        → (x y : F) (ep : ErrorRatePolicy F) → P (error_regression_finding s.cur.endpoint x y ep)

  module _ (P : Finding F → Type 0) (s : Sample F) (h : Admits P s) where
    budget_half-All :
        (configured : Bool) (metric : String) (f : Finding F)
        → (s.insufficient_current ≡ false → P f)
        → All P (budget_half configured s metric f)
    budget_half-All false metric f p = tt
    budget_half-All true metric f p = elim (Bool-cases s.insufficient_current) [
      | inl e ↦ rw e (h.on_few e metric _, tt)
      | inr e ↦ rw e (p e, tt)
    ]

    regression_switch-All :
        (missing few few_baseline : Bool) (base : Option (EndpointStats F)) (metric : String)
        (g : EndpointStats F → Finding F)
        → s.base ≡ base
        → s.insufficient_current ≡ few
        → s.insufficient_baseline ≡ few_baseline
        → (is_some s.base || s.baseline_missing) ≡ true
        → ((b : EndpointStats F) → Compared s b → P (g b))
        → All P (
            regression_switch missing few few_baseline base
              (unknown_finding s.cur.endpoint metric regression)
              g)
    regression_switch-All true few fewb base metric g eb ec el on p = (h.on_unknown on metric _, tt)
    regression_switch-All false true fewb base metric g eb ec el on p =
        (h.on_unknown on metric _, tt)
    regression_switch-All false false true base metric g eb ec el on p =
        (h.on_unknown on metric _, tt)
    regression_switch-All false false false none metric g eb ec el on p = tt
    regression_switch-All false false false (some b) metric g eb ec el on p =
        (p b (record { base = eb; current_enough = ec; baseline_enough = el }), tt)

    regression_half-All :
        (configured : Bool) (metric : String) (g : EndpointStats F → Finding F)
        → ((b : EndpointStats F) → Compared s b → P (g b))
        → All P (regression_half configured s metric g)
    regression_half-All false metric g p = tt
    regression_half-All true metric g p = elim (Bool-cases (is_some s.base || s.baseline_missing)) [
      | inl on ↦ rw on (
          regression_switch-All s.baseline_missing s.insufficient_current s.insufficient_baseline
            s.base metric g refl refl refl on p)
      | inr off ↦ rw off tt
    ]

    latency_budget-All :
        (metric : String) (lp : LatencyPolicy F) (extract : EndpointStats F → F)
        → All P (latency_budget metric lp extract s)
    unfolding latency_budget
    latency_budget-All metric lp extract =
        budget_half-All (is_some lp.max_ms || is_some lp.warn_max_ms) metric
          (budget_finding s.cur.endpoint metric (extract s.cur) lp)
          (λ e. h.on_budget e metric (extract s.cur) lp)

    latency_regression-All :
        (metric : String) (lp : LatencyPolicy F) (extract : EndpointStats F → F)
        → All P (latency_regression metric lp extract s)
    unfolding latency_regression
    latency_regression-All metric lp extract =
        regression_half-All
          (is_some lp.max_regression_percent || is_some lp.warn_regression_percent) metric
          (λ b.
            with_timing s.timing_change
              (regression_finding s.cur.endpoint metric (extract b) (extract s.cur) lp))
          (λ b c. h.on_regression b c metric (extract b) (extract s.cur) lp)

    error_rate_budget-All : (ep : ErrorRatePolicy F) → All P (error_rate_budget ep s)
    unfolding error_rate_budget
    error_rate_budget-All ep =
        budget_half-All (is_some ep.max_absolute || is_some ep.warn_max_absolute) "error_rate"
          (error_budget_finding s.cur.endpoint s.cur.error_rate ep)
          (λ e. h.on_error_budget e s.cur.error_rate ep)

    error_rate_regression-All : (ep : ErrorRatePolicy F) → All P (error_rate_regression ep s)
    unfolding error_rate_regression
    error_rate_regression-All ep =
        regression_half-All (is_some ep.max_absolute_increase || is_some ep.warn_absolute_increase)
          "error_rate"
          (λ b. error_regression_finding s.cur.endpoint b.error_rate s.cur.error_rate ep)
          (λ b c. h.on_error_regression b c b.error_rate s.cur.error_rate ep)

    evaluate_latency-All :
        (metric : String) (lp : Option (LatencyPolicy F)) (extract : EndpointStats F → F)
        → All P (evaluate_latency metric lp extract s)
    unfolding evaluate_latency
    evaluate_latency-All metric none extract = tt
    evaluate_latency-All metric (some lp) extract =
        All-append P (latency_budget metric lp extract s) (latency_regression metric lp extract s)
          (latency_budget-All metric lp extract) (latency_regression-All metric lp extract)

    evaluate_error_rate-All : (ep : Option (ErrorRatePolicy F)) → All P (evaluate_error_rate ep s)
    unfolding evaluate_error_rate
    evaluate_error_rate-All none = tt
    evaluate_error_rate-All (some ep) =
        All-append P (error_rate_budget ep s) (error_rate_regression ep s)
          (error_rate_budget-All ep) (error_rate_regression-All ep)

    pub check_endpoint-All : (mp : MetricPolicy F) → All P (check_endpoint mp s)
    unfolding check_endpoint
    check_endpoint-All mp =
        let l50 = evaluate_latency "p50" mp.p50 (λ t. t.p50_rtt) s in
        let l95 = evaluate_latency "p95" mp.p95 (λ t. t.p95_rtt) s in
        let l99 = evaluate_latency "p99" mp.p99 (λ t. t.p99_rtt) s in
        let err = evaluate_error_rate mp.error_rate s in
        All-append P l50 (l95 ++ (l99 ++ err)) (evaluate_latency-All "p50" mp.p50 (λ t. t.p50_rtt))
          (All-append P l95 (l99 ++ err) (evaluate_latency-All "p95" mp.p95 (λ t. t.p95_rtt)) (
            All-append P l99 err (evaluate_latency-All "p99" mp.p99 (λ t. t.p99_rtt))
              (evaluate_error_rate-All mp.error_rate)))

  -- The sample that one round of the loop makes.
  abbrev pub sampled : Policy F → Baseline F → EndpointStats F → Sample F
  sampled pol baseline cur = sample_of (effective_metric_policy pol cur.endpoint) baseline cur

  module _ (P : Finding F → Type 0) (pol : Policy F) (baseline : Baseline F) where
    pub findings_of-All :
        (cur : EndpointStats F)
        → Admits P (sampled pol baseline cur)
        → All P (findings_of pol baseline cur)
    unfolding findings_of
    findings_of-All cur h =
        check_endpoint-All P (sampled pol baseline cur) h (effective_metric_policy pol cur.endpoint)

    pub all_findings-All :
        (current : List (EndpointStats F))
        → ((cur : EndpointStats F) → Admits P (sampled pol baseline cur))
        → All P (all_findings pol baseline current)
    unfolding all_findings
    all_findings-All [] h = tt
    all_findings-All (cur ∷ rest) h =
        All-append P (findings_of pol baseline cur) (all_findings pol baseline rest)
          (findings_of-All cur (h cur)) (all_findings-All rest h)
