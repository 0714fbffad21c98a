-- ===== src/Tests/Storage.antt =====
-- The store and the ingest handlers, over a database that is the list of its rows.
use duckdb_load_testing_tool.Prelude.{ℕ, ◌≡◌, refl, List, [], ◌∷◌, ◌++◌, map, none, some, arith}
use duckdb_load_testing_tool.Prelude.Int.{pos}
use duckdb_load_testing_tool.Prelude.Result.{Result, ok, err, message}
use duckdb_load_testing_tool.Float.Milli.{Milli, milli_float}
use duckdb_load_testing_tool.Event.{Event, is_error}
use duckdb_load_testing_tool.Storage.{Outside, DuckDbStorage, Row, row_of, new_storage}
use duckdb_load_testing_tool.Storage.Flush.{flush}
use duckdb_load_testing_tool.Storage.Conservation.{IsCopying, Flushed, flush-Flushed}
use duckdb_load_testing_tool.Storage.History.{
  Operation, added, added_all, flushed, run, run-contents,
}
use duckdb_load_testing_tool.Storage.Metrics.{MetricsStats}
use duckdb_load_testing_tool.Realtime.Stats.{HubStats, new_hub}
use duckdb_load_testing_tool.Handlers.{Store, Handlers, new_handlers, set_realtime_hub}
use duckdb_load_testing_tool.Handlers.DuckDb.{duck_db_store, duck_db_store-IsBuffering}
use duckdb_load_testing_tool.Handlers.Flush.{Answered, handle_flush-Answered}
use duckdb_load_testing_tool.Handlers.Ingest.{handle_flush, Clock}
use duckdb_load_testing_tool.Handlers.Accounts.{
  Request, single, batch, handle_all, handle_all-accounts,
}
use duckdb_load_testing_tool.Tests.Data.{ms}

abbrev tail_of : List Row → List Row
tail_of [] = []
tail_of (head ∷ rows) = rows

-- No step fails.
abbrev pub outside : Outside (List Row)
outside = record {
  create = λ name. ok tt;
  write_row = λ rows row. ok tt;
  flush_rows = λ rows. ok tt;
  marshal = λ tags. ok "{}";
  copy = λ tmp rows db. (db ++ tail_of rows, ok tt);
}

-- DuckDB refuses each file.
abbrev pub refusing : Outside (List Row)
refusing = record outside { copy = λ tmp rows db. (db, err (message "Conversion Error")) }

outside-IsCopying : IsCopying outside (λ db. db)
outside-IsCopying = record {
  on_success = λ tmp head rows db h. refl;
  on_failure = λ tmp rows db e h. cc h;
}

pub refusing-IsCopying : IsCopying refusing (λ db. db)
refusing-IsCopying = record {
  on_success = λ tmp head rows db h. cc h;
  on_failure = λ tmp rows db e h. refl;
}

abbrev pub event : ℕ → ℕ → Event Milli
event status rtt = record {
  run_id = "r";
  ts = pos 1;
  pod_id = "p";
  vu = pos 1;
  iter = pos 1;
  method = "GET";
  url = "/a";
  name = "a";
  status = pos status;
  body_len = pos 0;
  rtt = ms rtt;
  dns_lookup = ms 0;
  tcp_connect = ms 0;
  tls_handshake = ms 0;
  ttfb = ms 0;
  content_transfer = ms 0;
  request_size = pos 0;
  response_size = pos 0;
  error_code = "";
  error_msg = "";
  tags = none;
}

abbrev pub empty : DuckDbStorage (List Row) Milli
empty = new_storage [] "metrics.duckdb"

abbrev ops : List (Operation Milli)
ops = added (event 200 30) ∷ flushed (event 500 10 ∷ []) ∷ added_all (event 200 20 ∷ []) ∷ []

run-contents_example :
    (run outside ops empty).db ++ map (row_of outside) (run outside ops empty).buffer
    ≡ map (row_of outside) (event 200 30 ∷ event 500 10 ∷ event 200 20 ∷ [])
run-contents_example = run-contents outside (λ db. db) outside-IsCopying ops empty

abbrev one : DuckDbStorage (List Row) Milli
one = record empty { buffer = event 200 30 ∷ [] }

-- A flush that fails, while one event comes in.
flush-Flushed_example :
    Flushed refusing
      (λ db. db)
      refusing-IsCopying
      one
      (event 500 10 ∷ [])
      (flush refusing (event 500 10 ∷ []) one)
flush-Flushed_example = flush-Flushed refusing (λ db. db) refusing-IsCopying one (event 500 10 ∷ [])

abbrev pub clock : Clock
clock = record { now = pos 7; now_ms = pos 7100; sent_ms = pos 7101 }

abbrev requests : List (Request Milli)
requests =
    single clock (ok (event 200 30))
    ∷ single clock (err (message "EOF"))
    ∷ batch (λ e. clock) (ok (event 500 10 ∷ event 200 20 ∷ []))
    ∷ []

abbrev started : Handlers (DuckDbStorage (List Row) Milli) Milli
started = set_realtime_hub new_hub (new_handlers empty none "r")

abbrev pub no_row : List Row → Result (MetricsStats Milli)
no_row db = err (message "no row")

abbrev pub store : Store (DuckDbStorage (List Row) Milli) Milli
store = duck_db_store outside no_row

handle_all-accounts_example :
    let h = handle_all store (λ m. ok "{}") requests started in
    (hub : HubStats Milli) × (h.hub ≡ some hub)
    × (h.storage.buffer ≡ event 200 30 ∷ event 500 10 ∷ event 200 20 ∷ [])
    × (hub.stats.total_requests ≡ pos 3)
    × (hub.stats.error_count ≡ pos 1)
    × (hub.rtt_buffer ≡ ms 30 ∷ ms 10 ∷ ms 20 ∷ [])
unfolding is_error
handle_all-accounts_example =
    handle_all-accounts store (λ s. s.buffer) (λ m. ok "{}")
      (duck_db_store-IsBuffering outside no_row) requests started refl (omega arith)

abbrev buffered : Handlers (DuckDbStorage (List Row) Milli) Milli
buffered = new_handlers one none "r"

handle_flush-Answered_example :
    Answered refusing no_row
      (λ db. db)
      refusing-IsCopying
      buffered
      (handle_flush (duck_db_store refusing no_row) buffered).0
      (handle_flush (duck_db_store refusing no_row) buffered).1
handle_flush-Answered_example =
    handle_flush-Answered refusing no_row (λ db. db) refusing-IsCopying buffered
