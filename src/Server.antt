-- ===== src/Server.antt =====
-- The server: sidecar-go/main.go, and what sidecar-go/server/server.go routes to the handlers. The
-- environment, the file system and the libraries are arguments.
pub mod Events
pub mod Uploads
use Prim.Native.String.{◌++◌ as append}
use duckdb_load_testing_tool.Prelude.{
  ℕ, String, Bool, true, false, str_eq, List, [], ◌∷◌, ◌++◌, Option, none, some, length,
  if◌then◌else◌,
}
use duckdb_load_testing_tool.Prelude.Int.{pos}
use duckdb_load_testing_tool.Prelude.Result.{Result, ok, err, wrap, ◌>>=◌}
use duckdb_load_testing_tool.Float.{Float64}
use duckdb_load_testing_tool.Storage.{Outside, DuckDbStorage, open_storage}
use duckdb_load_testing_tool.Storage.Metrics.{MetricsStats}
use duckdb_load_testing_tool.Storage.S3.{
  Aws, Objects, S3Uploader, new_s3_uploader_from_env, upload_file, is_configured,
}
use duckdb_load_testing_tool.Realtime.Stats.{HubStats, Message, new_hub, update_buffer_size}
use duckdb_load_testing_tool.Event.{Event}
use duckdb_load_testing_tool.Handlers.{Store, Uploader, Handlers, new_handlers, set_realtime_hub}
use duckdb_load_testing_tool.Handlers.DuckDb.{duck_db_store}
use duckdb_load_testing_tool.Handlers.Ingest.{
  handle_flush, handle_flush_upload, handle_stats, handle_health,
}
use duckdb_load_testing_tool.Handlers.Accounts.{Request, handle}

abbrev or_default : String → String → String
or_default v default = if str_eq v "" then default else v

-- getEnvOrDefault, with os.Getenv as an argument
abbrev pub get_env_or_default : (String → String) → String → String → String
get_env_or_default env key default = or_default (env key) default

abbrev db_name : (String → String) → String
db_name env =
    append (get_env_or_default env "RUN_ID" "local-run")
      (append "-" (append (get_env_or_default env "POD_NAME" "pod-local") ".duckdb"))

-- filepath.Join, os.MkdirAll, sql.Open and the Exec of the schema
pub record Machine (D : Type 0) : Type 0 where
  pub env : String → String
  pub join_path : String → String → String
  pub make_dir : String → Result (Unit {0})
  pub open_db : String → Result D
  pub exec_schema : D → D × Result (Unit {0})

abbrev pub data_dir : {D : Type 0} → Machine D → String
data_dir m = get_env_or_default m.env "DATA_DIR" "/data"

abbrev pub db_file : {D : Type 0} → Machine D → String
db_file m = m.join_path (data_dir m) (db_name m.env)

-- The methods of *S3Uploader that the interface asks for.
abbrev pub uploader_of : {L File : Type 0} → Objects L File → S3Uploader L → Uploader
uploader_of objects u = record {
  is_configured = is_configured (some u);
  upload_file = upload_file objects u;
}

-- `var uploader handlers.Uploader`: after an error, which main only logs, the pointer is nil.
abbrev pub uploader_or_nil :
    {L File : Type 0} → Objects L File → Result (Option (S3Uploader L)) → Option Uploader
uploader_or_nil objects (err e) = none
uploader_or_nil objects (ok none) = none
uploader_or_nil objects (ok (some u)) = some (uploader_of objects u)

abbrev pub uploader_from_env :
    {C L File : Type 0} → Aws C L → Objects L File → (String → String) → Option Uploader
uploader_from_env aws objects env = uploader_or_nil objects (new_s3_uploader_from_env aws env)

module _ {D F C L File : Type 0} ⦃d : Float64 F⦄ (aws : Aws C L) (objects : Objects L File) where
  -- The handlers that main makes for its store.
  abbrev pub handlers_for : Machine D → DuckDbStorage D F → Handlers (DuckDbStorage D F) F
  handlers_for m store = set_realtime_hub new_hub (
      new_handlers store (uploader_from_env aws objects m.env)
        (get_env_or_default m.env "RUN_ID" "local-run"))

  -- main up to the start of its goroutines. An error is that of a log.Fatalf.
  unfoldable pub start : Machine D → Result (Handlers (DuckDbStorage D F) F)
  unfolding open_storage
  start m = do
    made ← wrap "failed to create data dir: %v" [] (m.make_dir (data_dir m))
    store ←
        wrap "failed to create storage: %v" [] (open_storage m.open_db m.exec_schema (db_file m))
    ok (handlers_for m store)

-- What the server does: a request to one of the routes, or a tick of the background flusher.
pub data Action (F : Type 0) : Type 0 where
  ingested : Request F → Action F
  flushed : Action F
  flushed_and_uploaded : Action F
  stats_read : Action F
  health_read : Action F
  ticked : Action F

abbrev sized : {F : Type 0} → ⦃d : Float64 F⦄ → ℕ → Option (HubStats F) → Option (HubStats F)
sized n none = none
sized n (some hub) = some (update_buffer_size (pos n) hub)

module _ {S F : Type 0} ⦃d : Float64 F⦄ (store : Store S F) where
  -- One round of the background flusher, which only logs what the flush returns.
  unfoldable pub background_flush : Handlers S F → Handlers S F
  background_flush h =
      let s = (store.flush h.storage).0 in
      record h { storage = s; hub = sized (store.buffer_size s) h.hub }

  module _ (marshal : Message (Event F) → Result String) (base : String → String) where
    unfoldable pub serve : Action F → Handlers S F → Handlers S F
    unfolding background_flush handle_flush handle_flush_upload handle_stats handle_health
    serve (ingested r) h = handle store marshal r h
    serve flushed h = (handle_flush store h).0
    serve flushed_and_uploaded h = (handle_flush_upload store base h).0
    serve stats_read h = (handle_stats store h).0
    serve health_read h = (handle_health store h).0
    serve ticked h = background_flush h

    -- The actions, one after the other.
    unfoldable pub serve_all : List (Action F) → Handlers S F → Handlers S F
    unfolding serve
    serve_all [] h = h
    serve_all (a ∷ rest) h = serve_all rest (serve a h)
