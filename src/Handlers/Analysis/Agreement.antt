-- ===== src/Handlers/Analysis/Agreement.antt =====
-- What `HandleDiagnose` and `HandleTrend` of sidecar-go/handlers/analysis_handlers.go answer.
use duckdb_load_testing_tool.Prelude.{
  ℕ, ◌≤◌, String, ◌≡◌, refl, ap, ◌∙◌, Bool, true, false, ◌||◌, List, [], ◌∷◌, map, any, str_eq,
  if◌then◌else◌, inl, inr, ◌⊎◌,
}
use duckdb_load_testing_tool.Prelude.Int.{pos}
use duckdb_load_testing_tool.Prelude.Result.{Result, Error, ok, err, Result-cases}
use duckdb_load_testing_tool.Float.{Float64}
use duckdb_load_testing_tool.Analysis.Comparator.{
  Thresholds, RunStats, default_thresholds, get_historical_trend,
}
use duckdb_load_testing_tool.Analysis.Regression.{RegressionFinding, detect_endpoint_regressions}
use duckdb_load_testing_tool.Analysis.Explain.{Explanation, explain}
use duckdb_load_testing_tool.Analysis.Explain.Agreement.{explained, regressed, explain-regressed}
use duckdb_load_testing_tool.Handlers.Analysis.{AnalysisHandlers, Reply, refused, answered}
use duckdb_load_testing_tool.Handlers.Analysis.Compare.{chosen_thresholds, lacks_id}
use duckdb_load_testing_tool.Handlers.Analysis.Limit.{trend_limit-IsLimit}
use duckdb_load_testing_tool.Handlers.Analysis.Statistics.{
  TrendResponse, run_stats_response, handle_trend, trend_answer,
}
use duckdb_load_testing_tool.Handlers.Analysis.Diagnose.{
  DiagnoseRequest, DiagnoseResponse, explanation_response, diagnose_answer, diagnose,
  handle_diagnose,
}

module _ {F : Type 0} where
  -- Whether the response explains an endpoint.
  abbrev pub explains : String → DiagnoseResponse F → Bool
  explains x body = any (λ e. str_eq e.endpoint x) body.explanations

  explained-map :
      (x : String) (es : List (Explanation F))
      → any (λ e. str_eq e.endpoint x) (map explanation_response es) ≡ explained x es
  explained-map x [] = refl
  explained-map x (e ∷ es) = ap (λ b. str_eq e.endpoint x || b) (explained-map x es)

  diagnose_answer-explains :
      (found : Result (List (RegressionFinding F))) (explanations : Result (List (Explanation F)))
      (body : DiagnoseResponse F)
      → diagnose_answer found explanations ≡ answered body
      → ((fs : List (RegressionFinding F)) (es : List (Explanation F))
          → found ≡ ok fs
          → explanations ≡ ok es
          → (x : String) → explained x es ≡ regressed x fs)
      → (x : String) → explains x body ≡ regressed x body.regressions
  diagnose_answer-explains (ok fs) (ok es) body h agree x =
      let e : body ≡ record { regressions = fs; explanations = map explanation_response es } = cc in
      rw e (explained-map x es ∙ agree fs es refl refl x)
  diagnose_answer-explains (ok fs) (err e) body h agree x = cc
  diagnose_answer-explains (err e) explanations body h agree x = cc

module _ {F : Type 0} ⦃d : Float64 F⦄ where
  diagnose-explains :
      (h : AnalysisHandlers F) (t : Thresholds F) (baseline current : String)
      (body : DiagnoseResponse F)
      → diagnose h t baseline current ≡ answered body
      → (x : String) → explains x body ≡ regressed x body.regressions
  diagnose-explains h t baseline current body e =
      diagnose_answer-explains (detect_endpoint_regressions t h.db baseline current)
        (explain t h.db baseline current) body e (explain-regressed t h.db baseline current)

  -- When `HandleDiagnose` answers with a body, its explanations and its regressions name the same
  -- endpoints, whatever thresholds the request has set.
  pub handle_diagnose-explains :
      (h : AnalysisHandlers F) (req : Result (DiagnoseRequest F)) (body : DiagnoseResponse F)
      → handle_diagnose h req ≡ answered body
      → (x : String) → explains x body ≡ regressed x body.regressions
  unfolding handle_diagnose
  handle_diagnose-explains h (err e) body answer x = cc
  handle_diagnose-explains h (ok req) body answer x =
      guarded (lacks_id req.baseline_run_id req.current_run_id) answer
    where
      guarded :
          (b : Bool)
          → (if b
              then refused 400 "baseline_run_id and current_run_id are required"
              else diagnose h
                  (chosen_thresholds default_thresholds req.thresholds)
                  req.baseline_run_id
                  req.current_run_id)
            ≡ answered body
          → explains x body ≡ regressed x body.regressions
      guarded true e = cc
      guarded false e = diagnose-explains h _ req.baseline_run_id req.current_run_id body e x

  -- What `HandleTrend` answers where the database has been asked for n runs.
  abbrev pub TrendOf : AnalysisHandlers F → ℕ → Reply (TrendResponse F) → Type 0
  TrendOf h n reply =
      ((runs : List (RunStats F)) × (get_historical_trend h.db (pos n) ≡ ok runs)
        × (reply ≡ answered (record { runs = map run_stats_response runs })))
      ⊎ ((e : Error) × (get_historical_trend h.db (pos n) ≡ err e)
          × (reply ≡ refused 500 "failed to get trend"))

  -- For any text of the parameter limit, `HandleTrend` asks the database for at least one run and at
  -- most 100, and answers with the statistics of just the runs that it gets, in their order, or with
  -- the code 500 where it gets an error.
  pub handle_trend-limit :
      (h : AnalysisHandlers F) (text : String)
      → (n : ℕ) × (1 ≤ n) × (n ≤ 100) × TrendOf h n (handle_trend h text)
  unfolding handle_trend
  handle_trend-limit h text =
      let (n, same, low, high) = trend_limit-IsLimit text in
      let asked = ap (λ m. trend_answer (get_historical_trend h.db m)) same in
      (
        n,
        low,
        high,
        elim (Result-cases (get_historical_trend h.db (pos n))) [
          | inl (runs, e) ↦ inl (runs, e, asked ∙ ap trend_answer e)
          | inr (failure, e) ↦ inr (failure, e, asked ∙ ap trend_answer e)
        ],
      )
