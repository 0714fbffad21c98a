-- ===== src/Handlers.antt =====
-- The HTTP handlers of the sidecar: sidecar-go/handlers/handlers.go and interfaces.go. A decoded body
-- is an argument of a handler, and its answer a `Response`.
pub mod Ingest
pub mod Accounts
pub mod DuckDb
pub mod Flush
pub mod Analysis
use duckdb_load_testing_tool.Prelude.{
  ℕ, zero, String, Bool, true, false, not, ◌||◌, str_eq, List, [], ◌∷◌, ◌++◌, Option, none, some,
  length, ◌≡◌, if◌then◌else◌,
}
use duckdb_load_testing_tool.Prelude.Int.{ℤ, pos}
use duckdb_load_testing_tool.Prelude.Result.{Result, ok, err, Error}
use duckdb_load_testing_tool.Event.{Event}
use duckdb_load_testing_tool.Storage.Metrics.{MetricsStats}
use duckdb_load_testing_tool.Realtime.Stats.{HubStats}

-- The interface `Storage`, over the state S of a store. `flush` and `get_stats` give what the store
-- returns along with the store after the call.
pub record Store (S F : Type 0) : Type 0 where
  pub add_event : Event F → S → S
  pub add_events : List (Event F) → S → S
  pub buffer_size : S → ℕ
  pub flush : S → S × Result ℕ
  pub get_db_file : S → String
  pub get_stats : S → Result (MetricsStats F)

-- What the handlers rely on: an added event is in the buffer.
pub record IsBuffering {S F : Type 0} (store : Store S F) (buffer_of : S → List (Event F))
    : Type 0 where
  pub buffered : (e : Event F) (s : S) → buffer_of (store.add_event e s) ≡ buffer_of s ++ e ∷ []
  pub buffered_all :
      (es : List (Event F)) (s : S) → buffer_of (store.add_events es s) ≡ buffer_of s ++ es
  pub size : (s : S) → store.buffer_size s ≡ length (buffer_of s)

-- The interface `Uploader`
pub record Uploader : Type 0 where
  pub is_configured : Bool
  pub upload_file : String → String → Result (Unit {0})

-- `uploader` and `hub` are none for a nil interface and a nil pointer. `broadcasts` is what the
-- handlers have sent to the channel of the hub.
pub record Handlers (S F : Type 0) : Type 0 where
  pub storage : S
  pub uploader : Option Uploader
  pub run_id : String
  pub hub : Option (HubStats F)
  pub broadcasts : List String

pub record FlushResponse : Type 0 where
  pub flushed : ℕ
  pub uploaded : Bool
  pub key : String
  pub message : String

pub record StatsResponse (F : Type 0) : Type 0 where
  pub total_requests : ℤ
  pub error_count : ℤ
  pub error_rate : F
  pub avg_rtt : F
  pub p50_rtt : F
  pub p95_rtt : F
  pub p99_rtt : F
  pub rps : F
  pub duration_sec : F
  pub buffer_size : ℕ

pub record HealthResponse : Type 0 where
  pub status : String
  pub buffer_size : ℕ
  pub db_file : String
  pub s3_enabled : Bool

-- The bodies that the handlers write. `error_text` is http.Error.
pub data Body (F : Type 0) : Type 0 where
  no_body : Body F
  error_text : String → Body F
  ingest : (accepted : ℕ) (message : String) → Body F
  flush : FlushResponse → Body F
  stats : StatsResponse F → Body F
  health : HealthResponse → Body F

pub record Response (F : Type 0) : Type 0 where
  pub code : ℕ
  pub body : Body F

abbrev pub respond : {F : Type 0} → ℕ → Body F → Response F
respond code body = record { code = code; body = body }

-- NewHandlers and SetRealtimeHub
abbrev pub new_handlers : {S F : Type 0} → S → Option Uploader → String → Handlers S F
new_handlers storage uploader run_id = record {
  storage = storage;
  uploader = uploader;
  run_id = run_id;
  hub = none;
  broadcasts = [];
}

abbrev pub set_realtime_hub : {S F : Type 0} → HubStats F → Handlers S F → Handlers S F
set_realtime_hub hub h = record h { hub = some hub }
