-- ===== src/Handlers/Analysis/Statistics.antt =====
-- `HandleRunStats`, `HandleEndpoints`, `HandleTrend` and `HandleCalculateBaseline` of
-- sidecar-go/handlers/analysis_handlers.go.
use duckdb_load_testing_tool.Prelude.{String, str_eq, List, [], ◌∷◌, map, if◌then◌else◌}
use duckdb_load_testing_tool.Prelude.Int.{ℤ, pos}
use duckdb_load_testing_tool.Prelude.Dict.{Dict}
use duckdb_load_testing_tool.Prelude.Result.{Result, ok, err}
use duckdb_load_testing_tool.Float.{Float64, nought}
use duckdb_load_testing_tool.Analysis.Endpoint.{EndpointStats, get_endpoint_stats}
use duckdb_load_testing_tool.Analysis.Comparator.{RunStats, get_run_stats, get_historical_trend}
use duckdb_load_testing_tool.Analysis.Comparator.Baseline.{calculate_baseline}
use duckdb_load_testing_tool.Analysis.Regression.{round_to}
use duckdb_load_testing_tool.Handlers.Analysis.{AnalysisHandlers, Reply, refused, answered}
use duckdb_load_testing_tool.Handlers.Analysis.Limit.{trend_limit}

pub record RunStatsResponse (F : Type 0) : Type 0 where
  pub run_id : String
  pub total_requests : ℤ
  pub error_count : ℤ
  pub error_rate : F
  pub avg_rtt : F
  pub p50_rtt : F
  pub p95_rtt : F
  pub p99_rtt : F
  pub min_rtt : F
  pub max_rtt : F
  pub rps : F
  pub duration_seconds : F

pub record EndpointStatsResponse (F : Type 0) : Type 0 where
  pub endpoint : String
  pub request_count : ℤ
  pub error_count : ℤ
  pub error_rate : F
  pub avg_rtt : F
  pub p50_rtt : F
  pub p90_rtt : F
  pub p95_rtt : F
  pub p99_rtt : F
  pub max_rtt : F
  pub avg_dns : F
  pub avg_tcp : F
  pub avg_tls : F
  pub avg_ttfb : F
  pub avg_transfer : F
  pub status_distribution : Dict ℤ

pub record EndpointsResponse (F : Type 0) : Type 0 where
  pub run_id : String
  pub endpoints : List (EndpointStatsResponse F)

pub record TrendResponse (F : Type 0) : Type 0 where
  pub runs : List (RunStatsResponse F)

-- BaselineRequest
pub record BaselineRequest : Type 0 where
  pub run_ids : List String

module _ {F : Type 0} ⦃d : Float64 F⦄ where
  -- analysis.Round(x, 2)
  abbrev rounded : F → F
  rounded x = round_to x (pos 2)

  abbrev pub run_stats_response : RunStats F → RunStatsResponse F
  run_stats_response stats = record {
    run_id = stats.run_id;
    total_requests = stats.total_requests;
    error_count = stats.error_count;
    error_rate = rounded stats.error_rate;
    avg_rtt = rounded stats.avg_rtt;
    p50_rtt = rounded stats.p50_rtt;
    p95_rtt = rounded stats.p95_rtt;
    p99_rtt = rounded stats.p99_rtt;
    min_rtt = rounded stats.min_rtt;
    max_rtt = rounded stats.max_rtt;
    rps = rounded stats.rps;
    duration_seconds = rounded stats.duration_seconds;
  }

  abbrev run_stats_answer : Result (RunStats F) → Reply (RunStatsResponse F)
  run_stats_answer (err e) = refused 500 "failed to get run stats"
  run_stats_answer (ok stats) = answered (run_stats_response stats)

  -- HandleRunStats
  unfoldable pub handle_run_stats : AnalysisHandlers F → String → Reply (RunStatsResponse F)
  handle_run_stats h run_id =
      if str_eq run_id ""
      then refused 400 "run_id is required"
      else run_stats_answer (get_run_stats h.db run_id)

  abbrev endpoint_response : EndpointStats F → EndpointStatsResponse F
  endpoint_response s = record {
    endpoint = s.endpoint;
    request_count = s.request_count;
    error_count = s.error_count;
    error_rate = rounded s.error_rate;
    avg_rtt = rounded s.avg_rtt;
    p50_rtt = rounded s.p50_rtt;
    p90_rtt = rounded s.p90_rtt;
    p95_rtt = rounded s.p95_rtt;
    p99_rtt = rounded s.p99_rtt;
    max_rtt = rounded s.max_rtt;
    avg_dns = rounded s.avg_dns;
    avg_tcp = rounded s.avg_tcp;
    avg_tls = rounded s.avg_tls;
    avg_ttfb = rounded s.avg_ttfb;
    avg_transfer = rounded s.avg_transfer;
    status_distribution = s.status_distribution;
  }

  abbrev endpoints_answer : String → Result (List (EndpointStats F)) → Reply (EndpointsResponse F)
  endpoints_answer run_id (err e) = refused 500 "failed to analyze endpoints"
  endpoints_answer run_id (ok stats) =
      answered (record { run_id = run_id; endpoints = map endpoint_response stats })

  -- HandleEndpoints
  unfoldable pub handle_endpoints : AnalysisHandlers F → String → Reply (EndpointsResponse F)
  handle_endpoints h run_id =
      if str_eq run_id ""
      then refused 400 "run_id is required"
      else endpoints_answer run_id (get_endpoint_stats h.db run_id)

  abbrev pub trend_answer : Result (List (RunStats F)) → Reply (TrendResponse F)
  trend_answer (err e) = refused 500 "failed to get trend"
  trend_answer (ok trend) = answered (record { runs = map run_stats_response trend })

  -- HandleTrend
  unfoldable pub handle_trend : AnalysisHandlers F → String → Reply (TrendResponse F)
  handle_trend h limit = trend_answer (get_historical_trend h.db (trend_limit limit))

  -- The smallest and the largest time and the duration are left at zero.
  abbrev baseline_response : RunStats F → RunStatsResponse F
  baseline_response baseline = record {
    run_id = baseline.run_id;
    total_requests = baseline.total_requests;
    error_count = baseline.error_count;
    error_rate = rounded baseline.error_rate;
    avg_rtt = rounded baseline.avg_rtt;
    p50_rtt = rounded baseline.p50_rtt;
    p95_rtt = rounded baseline.p95_rtt;
    p99_rtt = rounded baseline.p99_rtt;
    min_rtt = nought;
    max_rtt = nought;
    rps = rounded baseline.rps;
    duration_seconds = nought;
  }

  abbrev baseline_answer : Result (RunStats F) → Reply (RunStatsResponse F)
  baseline_answer (err e) = refused 500 "failed to calculate baseline"
  baseline_answer (ok baseline) = answered (baseline_response baseline)

  -- `len(req.RunIDs) == 0`, and the rest of the handler
  abbrev baseline_of_runs : AnalysisHandlers F → List String → Reply (RunStatsResponse F)
  baseline_of_runs h [] = refused 400 "run_ids are required"
  baseline_of_runs h (id ∷ ids) = baseline_answer (calculate_baseline h.db (id ∷ ids))

  -- HandleCalculateBaseline
  unfoldable pub handle_calculate_baseline :
      AnalysisHandlers F → Result BaselineRequest → Reply (RunStatsResponse F)
  handle_calculate_baseline h (err e) = refused 400 "invalid request body"
  handle_calculate_baseline h (ok req) = baseline_of_runs h req.run_ids
