-- ===== src/Analysis/Explain/Agreement.antt =====
-- `Explain` beside `DetectEndpointRegressions`: sidecar-go/analysis/explain.go and regression.go.
use duckdb_load_testing_tool.Prelude.{
  String, ◌≡◌, ◌⊎◌, refl, List, [], ◌∷◌, Bool, true, false, not, ◌&&◌, ◌||◌, arith, any, any-append,
  str_eq, if◌then◌else◌, inl, inr,
}
use duckdb_load_testing_tool.Prelude.Dict.{Dict, lookup}
use duckdb_load_testing_tool.Prelude.Result.{Result, ok, err, ◌>>=◌}
use duckdb_load_testing_tool.Float.{Float64}
use duckdb_load_testing_tool.Analysis.Database.{Database}
use duckdb_load_testing_tool.Analysis.Comparator.{Thresholds}
use duckdb_load_testing_tool.Analysis.Bottleneck.{BottleneckEvidence, analyze_bottleneck}
use duckdb_load_testing_tool.Analysis.Regression.{
  EndpointComparison, RegressionFinding, compare_endpoints, regressed_latency, regressed_errors,
  regressions_of, detect_each, detect_endpoint_regressions,
}
use duckdb_load_testing_tool.Analysis.Explain.{
  Explanation, explanation, affected_pods, explain_each, explain, index_bottlenecks,
}

module _ {F : Type 0} where
  -- One round of the loop of `Explain`, over what its test and its query answer.
  abbrev round :
      Bool
      → Result (List String)
      → Result (List (Explanation F))
      → (List String → Explanation F)
      → Result (List (Explanation F))
  round quiet pods others make =
      if quiet then others else do ps ← pods; more ← others; ok (make ps ∷ more)

  -- What a round that succeeds says of the rounds after it.
  abbrev Rest :
      Bool
      → Result (List (Explanation F))
      → (List String → Explanation F)
      → List (Explanation F)
      → Type 0
  Rest quiet others make es =
      ((quiet ≡ true) × (others ≡ ok es))
      ⊎ ((quiet ≡ false)
          × ((ps : List String) × (more : List (Explanation F)) × (others ≡ ok more)
              × (es ≡ make ps ∷ more)))

  round_inv :
      (quiet : Bool) (pods : Result (List String)) (others : Result (List (Explanation F)))
      (make : List String → Explanation F) (es : List (Explanation F))
      → round quiet pods others make ≡ ok es
      → Rest quiet others make es
  round_inv true pods others make es h = inl (refl, h)
  round_inv false (ok ps) (ok more) make es h = inr (refl, (ps, more, refl, cc))
  round_inv false (ok ps) (err e) make es h = cc
  round_inv false (err e) others make es h = cc

module _ {F : Type 0} where
  -- Whether an endpoint is explained, and whether it has a regression.
  abbrev pub explained : String → List (Explanation F) → Bool
  explained x = any (λ e. str_eq e.endpoint x)

  abbrev pub regressed : String → List (RegressionFinding F) → Bool
  regressed x = any (λ f. str_eq f.scope x)

module _ {F : Type 0} ⦃d : Float64 F⦄ (t : Thresholds F) (db : Database F) where
  regressed-regressions_of :
      (x : String) (c : EndpointComparison F)
      → regressed x (regressions_of t c)
        ≡ ((regressed_latency t c || regressed_errors t c) && str_eq c.endpoint x)
  unfolding regressions_of
  regressed-regressions_of x c = ground arith

  explain_each-regressed :
      (x : String) (run_id : String) (evidence : Dict (BottleneckEvidence F))
      (cs : List (EndpointComparison F)) (es : List (Explanation F))
      → explain_each t db run_id evidence cs ≡ ok es
      → explained x es ≡ regressed x (detect_each t cs)
  unfolding detect_each explain_each
  explain_each-regressed x run_id evidence [] es h = cc h
  explain_each-regressed x run_id evidence (c ∷ cs) es h =
      let others = explain_each t db run_id evidence cs in
      let quiet = not (regressed_latency t c) && not (regressed_errors t c) in
      let split = any-append (λ f. str_eq f.scope x) (regressions_of t c) (detect_each t cs) in
      let own = regressed-regressions_of x c in
      elim (round_inv quiet (affected_pods db run_id c.endpoint) others
        (λ ps. explanation t (lookup c.endpoint evidence) ps c) es h) [
          | inl (q, e) ↦
              ground (arith, split, own, explain_each-regressed x run_id evidence cs es e)
          | inr (q, (ps, more, e, g)) ↦
              rw g (ground (arith, split, own, explain_each-regressed x run_id evidence cs more e))
        ]

  agreement :
      (x run_id : String) (found : Result (List (EndpointComparison F)))
      (bottlenecks : Result (List (BottleneckEvidence F))) (fs : List (RegressionFinding F))
      (es : List (Explanation F))
      → (do cs ← found; ok (detect_each t cs)) ≡ ok fs
      → (do cs ← found; bs ← bottlenecks; explain_each t db run_id (index_bottlenecks bs []) cs)
        ≡ ok es
      → explained x es ≡ regressed x fs
  agreement x run_id (ok cs) (ok bs) fs es hd he =
      let e = explain_each-regressed x run_id (index_bottlenecks bs []) cs es he in cc (e, hd)
  agreement x run_id (ok cs) (err e) fs es hd he = cc
  agreement x run_id (err e) bottlenecks fs es hd he = cc

  -- When `DetectEndpointRegressions` and `Explain` both succeed on two runs, with the same
  -- thresholds, the endpoints that are explained are just those that have a regression finding.
  pub explain-regressed :
      (baseline_run_id current_run_id : String) (fs : List (RegressionFinding F))
      (es : List (Explanation F))
      → detect_endpoint_regressions t db baseline_run_id current_run_id ≡ ok fs
      → explain t db baseline_run_id current_run_id ≡ ok es
      → (x : String) → explained x es ≡ regressed x fs
  unfolding detect_endpoint_regressions explain
  explain-regressed baseline_run_id current_run_id fs es hd he x =
      agreement x current_run_id (compare_endpoints db baseline_run_id current_run_id)
        (analyze_bottleneck db baseline_run_id current_run_id) fs es hd he
