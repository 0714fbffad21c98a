-- ===== src/Analysis/Bottleneck.antt =====
-- Which timing phase moved the most: sidecar-go/analysis/bottleneck.go.
pub mod Largest
use duckdb_load_testing_tool.Prelude.{
  String, Option, none, some, List, [], ◌∷◌, Bool, if◌then◌else◌,
}
use duckdb_load_testing_tool.Prelude.Dict.{Dict, lookup, insert}
use duckdb_load_testing_tool.Prelude.Result.{Result, ok, err, wrap, ◌>>=◌}
use duckdb_load_testing_tool.Float.{Float64, nought, gt}
use duckdb_load_testing_tool.Analysis.Database.{Database}
use duckdb_load_testing_tool.Analysis.Endpoint.{EndpointStats, get_endpoint_stats, by_endpoint}

pub record TimingBreakdown (F : Type 0) : Type 0 where
  pub dns : F
  pub tcp : F
  pub tls : F
  pub ttfb : F
  pub transfer : F

pub record TimingChange (F : Type 0) : Type 0 where
  pub phase : String
  pub delta_ms : F

pub record BottleneckEvidence (F : Type 0) : Type 0 where
  pub endpoint : String
  pub baseline : TimingBreakdown F
  pub current : TimingBreakdown F
  pub delta : TimingBreakdown F
  pub largest_contributor : String
  pub largest_contributor_ms : F

module _ {F : Type 0} ⦃d : Float64 F⦄ where
  open d use {sub, neg, lt}

  -- abs
  unfoldable pub abs : F → F
  abs v = if lt v nought then neg v else v

  abbrev pub change : String → F → TimingChange F
  change phase delta = record { phase = phase; delta_ms = delta }

  -- `phases[1:]` of `largestPhase`, and `phases`
  abbrev pub rest_phases : TimingBreakdown F → List (TimingChange F)
  rest_phases b =
      change "tcp" b.tcp
      ∷ change "tls" b.tls
      ∷ change "ttfb" b.ttfb
      ∷ change "transfer" b.transfer
      ∷ []

  abbrev pub phases : TimingBreakdown F → List (TimingChange F)
  phases b = change "dns" b.dns ∷ rest_phases b

  -- The loop of `largestPhase`.
  unfoldable pub largest_from : TimingChange F → List (TimingChange F) → TimingChange F
  unfolding abs
  largest_from best [] = best
  largest_from best (p ∷ rest) =
      largest_from (if gt (abs p.delta_ms) (abs best.delta_ms) then p else best) rest

  -- largestPhase
  unfoldable pub largest_phase : TimingBreakdown F → TimingChange F
  unfolding largest_from
  largest_phase b = largest_from (change "dns" b.dns) (rest_phases b)

  abbrev pub breakdown : EndpointStats F → TimingBreakdown F
  breakdown s = record {
    dns = s.avg_dns;
    tcp = s.avg_tcp;
    tls = s.avg_tls;
    ttfb = s.avg_ttfb;
    transfer = s.avg_transfer;
  }

  abbrev pub breakdown_delta : TimingBreakdown F → TimingBreakdown F → TimingBreakdown F
  breakdown_delta cur base = record {
    dns = sub cur.dns base.dns;
    tcp = sub cur.tcp base.tcp;
    tls = sub cur.tls base.tls;
    ttfb = sub cur.ttfb base.ttfb;
    transfer = sub cur.transfer base.transfer;
  }

  -- TimingDelta
  unfoldable pub timing_delta : EndpointStats F → EndpointStats F → BottleneckEvidence F
  unfolding largest_phase
  timing_delta baseline current =
      let delta = breakdown_delta (breakdown current) (breakdown baseline) in
      let largest = largest_phase delta in
      record {
        endpoint = current.endpoint;
        baseline = breakdown baseline;
        current = breakdown current;
        delta = delta;
        largest_contributor = largest.phase;
        largest_contributor_ms = largest.delta_ms;
      }

  -- The loop of `AnalyzeBottleneck`: endpoints of the current run that the baseline lacks are skipped.
  unfoldable pub compare_each :
      Dict (EndpointStats F) → List (EndpointStats F) → List (BottleneckEvidence F)
  unfolding timing_delta
  compare_each base [] = []
  compare_each base (cur ∷ rest) =
      let others = compare_each base rest in
      elim (lookup cur.endpoint base) [ none ↦ others | some b ↦ timing_delta b cur ∷ others ]

  -- AnalyzeBottleneck
  unfoldable pub analyze_bottleneck :
      Database F → String → String → Result (List (BottleneckEvidence F))
  unfolding compare_each
  analyze_bottleneck db baseline_run_id current_run_id = do
    baseline ← wrap "bottleneck analysis: baseline: %w" [] (get_endpoint_stats db baseline_run_id)
    current ← wrap "bottleneck analysis: current: %w" [] (get_endpoint_stats db current_run_id)
    ok (compare_each (by_endpoint baseline) current)
