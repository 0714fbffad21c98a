-- ===== src/Analysis/Endpoint.antt =====
-- Per-endpoint statistics of a run: sidecar-go/analysis/endpoint.go.
pub mod Order
use duckdb_load_testing_tool.Prelude.{
  String, Option, none, some, List, [], ◌∷◌, ◌++◌, if◌then◌else◌,
}
use duckdb_load_testing_tool.Prelude.Int.{ℤ, pos, ltb_ℤ}
use duckdb_load_testing_tool.Prelude.Dict.{Dict, lookup, insert}
use duckdb_load_testing_tool.Prelude.Format.{show_ℤ}
use duckdb_load_testing_tool.Prelude.Result.{
  Error, Result, ok, err, wrapped, wrap, check, nil_dereference, ◌>>=◌, ◌>>◌,
}
use duckdb_load_testing_tool.Float.{Float64, nought}
use duckdb_load_testing_tool.Analysis.Database.{Database, Cursor, SummaryRow, StatusRow, for_rows}

pub record EndpointStats (F : Type 0) : Type 0 where
  pub endpoint : String
  pub request_count : ℤ
  pub error_count : ℤ
  pub error_rate : F
  pub avg_rtt : F
  pub p50_rtt : F
  pub p90_rtt : F
  pub p95_rtt : F
  pub p99_rtt : F
  pub max_rtt : F
  pub avg_dns : F
  pub avg_tcp : F
  pub avg_tls : F
  pub avg_ttfb : F
  pub avg_transfer : F
  pub status_distribution : Dict ℤ

-- The variables of the first loop: `byEndpoint` and `order`.
abbrev pub Collected : Type 0 → Type 0
Collected F = Dict (EndpointStats F) × List String

module _ {F : Type 0} ⦃d : Float64 F⦄ where
  open d use {lit, mul, div, of_int}

  -- float64(errors) / float64(requests) * 100, and the zero value where there are no requests
  unfoldable pub error_rate_of : ℤ → ℤ → F
  error_rate_of errors requests =
      if ltb_ℤ (pos 0) requests
      then mul (div (of_int errors) (of_int requests)) (lit 100 0)
      else nought

  unfoldable pub stats_of_row : SummaryRow F → EndpointStats F
  unfolding error_rate_of
  stats_of_row r = record {
    endpoint = r.endpoint;
    request_count = r.request_count;
    error_count = r.error_count;
    error_rate = error_rate_of r.error_count r.request_count;
    avg_rtt = r.avg_rtt;
    p50_rtt = r.p50_rtt;
    p90_rtt = r.p90_rtt;
    p95_rtt = r.p95_rtt;
    p99_rtt = r.p99_rtt;
    max_rtt = r.max_rtt;
    avg_dns = r.avg_dns;
    avg_tcp = r.avg_tcp;
    avg_tls = r.avg_tls;
    avg_ttfb = r.avg_ttfb;
    avg_transfer = r.avg_transfer;
    status_distribution = [];
  }

  abbrev pub collect : SummaryRow F → Collected F → Collected F
  collect r (stats, order) = (insert r.endpoint (stats_of_row r) stats, order ++ r.endpoint ∷ [])

  abbrev pub add_status : StatusRow → EndpointStats F → EndpointStats F
  add_status r s = record s {
    status_distribution = insert (show_ℤ r.status) r.count s.status_distribution;
  }

  -- The body of the second loop: the map's entry is a pointer, so the entry itself changes.
  abbrev pub distribute : StatusRow → Dict (EndpointStats F) → Dict (EndpointStats F)
  distribute r stats = elim (lookup r.endpoint stats) [
    | none ↦ stats
    | some s ↦ insert r.endpoint (add_status r s) stats
  ]

  -- The last loop: `*byEndpoint[ep]` for each name in `order`, a panic where the map has no entry.
  unfoldable pub gather : Dict (EndpointStats F) → List String → Result (List (EndpointStats F))
  gather stats [] = ok []
  gather stats (ep ∷ order) =
      let rest = gather stats order in
      elim (lookup ep stats) [ none ↦ err nil_dereference | some s ↦ do out ← rest; ok (s ∷ out) ]

  -- The two loops over rows, and the list that they leave.
  unfoldable pub assemble :
      Cursor (SummaryRow F) → Result (Cursor StatusRow) → Result (List (EndpointStats F))
  unfolding for_rows gather stats_of_row
  assemble summary distribution = do
    (stats, order) ←
        for_rows (wrapped "endpoint analysis: scan failed: %w" []) collect summary.rows ([], [])
    check summary.rows_err
    dist ←
        wrap "endpoint analysis: %s failed: %w" ("endpoint_status_distribution" ∷ []) distribution
    stats' ←
        for_rows (wrapped "endpoint analysis: scan status distribution failed: %w" []) distribute
          dist.rows stats
    check dist.rows_err
    gather stats' order

  -- (*EndpointAnalyzer).GetEndpointStats
  unfoldable pub get_endpoint_stats : Database F → String → Result (List (EndpointStats F))
  unfolding assemble
  get_endpoint_stats db run_id = do
    summary ←
        wrap "endpoint analysis: %s failed: %w" ("endpoint_summary" ∷ [])
          (db.endpoint_summary run_id)
    assemble summary (db.status_distribution run_id)

  -- `for _, s := range stats { byEndpoint[s.Endpoint] = s }`, which the analysis and the gate repeat.
  unfoldable pub index : List (EndpointStats F) → Dict (EndpointStats F) → Dict (EndpointStats F)
  index [] m = m
  index (s ∷ rest) m = index rest (insert s.endpoint s m)

  unfoldable pub by_endpoint : List (EndpointStats F) → Dict (EndpointStats F)
  unfolding index
  by_endpoint stats = index stats []
