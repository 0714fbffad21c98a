-- ===== src/Tests/Server.antt =====
-- The server, from its start over a few actions.
use Prim.Native.String.{◌++◌ as append}
use duckdb_load_testing_tool.Prelude.{
  ◌≡◌, refl, String, if◌then◌else◌, str_eq, List, [], ◌∷◌, ◌++◌, map, some, arith,
}
use duckdb_load_testing_tool.Prelude.Int.{pos}
use duckdb_load_testing_tool.Prelude.Result.{ok, err, message}
use duckdb_load_testing_tool.Float.Milli.{Milli, milli_float}
use duckdb_load_testing_tool.Event.{is_error}
use duckdb_load_testing_tool.Storage.{Row, row_of, DuckDbStorage, open_storage}
use duckdb_load_testing_tool.Storage.S3.{Aws, Objects}
use duckdb_load_testing_tool.Storage.Flush.{flush}
use duckdb_load_testing_tool.Realtime.Stats.{HubStats}
use duckdb_load_testing_tool.Handlers.{Handlers}
use duckdb_load_testing_tool.Handlers.DuckDb.{duck_db_store}
use duckdb_load_testing_tool.Handlers.Accounts.{single, batch}
use duckdb_load_testing_tool.Server.{
  Machine, Action, ingested, flushed, flushed_and_uploaded, stats_read, health_read, ticked,
  handlers_for, start, serve_all,
}
use duckdb_load_testing_tool.Server.Events.{held, start-serve_all}
use duckdb_load_testing_tool.Server.Uploads.{Answers, handle_flush_upload-has_s3}
use duckdb_load_testing_tool.Tests.Storage.{
  refusing, refusing-IsCopying, event, clock, no_row, store, empty,
}

-- Only the bucket is named.
abbrev env : String → String
env key = if str_eq key "S3_BUCKET" then "runs" else ""

-- The table has no row yet.
abbrev machine : Machine (List Row)
machine = record {
  env = env;
  join_path = λ dir name. append dir (append "/" name);
  make_dir = λ dir. ok tt;
  open_db = λ file. ok [];
  exec_schema = λ db. (db, ok tt);
}

abbrev aws : Aws (Unit {0}) (Unit {0})
aws = record {
  load_default = ok tt;
  load_static = λ region access_key secret_key. ok tt;
  client_of = λ loaded. tt;
  client_at = λ endpoint loaded. tt;
}

-- Every upload is refused.
abbrev objects : Objects (Unit {0}) String
objects = record {
  open_file = λ path. ok path;
  create_file = λ path. ok path;
  upload = λ client bucket key file. err (message "AccessDenied");
  download = λ client bucket key file. err (message "AccessDenied");
  list = λ client bucket prefix. ok [];
  delete = λ client bucket key. ok tt;
}

-- Every flush fails here.
abbrev actions : List (Action Milli)
actions =
    ingested (single clock (ok (event 200 30)))
    ∷ ticked
    ∷ ingested (single clock (err (message "EOF")))
    ∷ flushed_and_uploaded
    ∷ ingested (batch (λ n. clock) (ok (event 500 10 ∷ event 200 20 ∷ [])))
    ∷ stats_read
    ∷ flushed
    ∷ health_read
    ∷ []

abbrev running : Handlers (DuckDbStorage (List Row) Milli) Milli
running =
    handlers_for aws objects machine (record empty { db_file = "/data/local-run-pod-local.duckdb" })

start-serve_all_example :
    let h =
      serve_all (duck_db_store refusing no_row) (λ m. ok "{}") (λ path. path) actions running in
    (db : List Row) × (hub : HubStats Milli) × (machine.open_db "/data/local-run-pod-local.duckdb"
      ≡ ok db)
    × (held refusing no_row (λ rows. rows) refusing-IsCopying (λ m. ok "{}") (λ path. path) h
        ≡ db ++ map (row_of refusing) (event 200 30 ∷ event 500 10 ∷ event 200 20 ∷ []))
    × (h.hub ≡ some hub)
    × (hub.stats.total_requests ≡ pos 3)
    × (hub.stats.error_count ≡ pos 1)
unfolding start open_storage is_error
start-serve_all_example =
    start-serve_all refusing no_row (λ rows. rows) refusing-IsCopying (λ m. ok "{}") (λ path. path)
      aws objects machine running actions refl (omega arith)

handle_flush_upload-has_s3_example :
    Answers aws objects env store (λ path. path) running running.storage 0
unfolding flush
handle_flush_upload-has_s3_example =
    handle_flush_upload-has_s3 aws objects env store (λ path. path) running running.storage 0 refl
      refl
