-- ===== src/Handlers/Ingest.antt =====
-- `HandleIngest`, `HandleIngestBatch`, `HandleFlush`, `HandleFlushUpload`, `HandleStats` and
-- `HandleHealth` of sidecar-go/handlers/handlers.go.
use Prim.Native.String.{◌++◌ as append}
use duckdb_load_testing_tool.Prelude.{
  ℕ, suc, String, Bool, true, false, not, ◌||◌, str_eq, List, [], ◌∷◌, ◌++◌, Option, none, some,
  length, if◌then◌else◌,
}
use duckdb_load_testing_tool.Prelude.Int.{ℤ, pos, leb_ℤ}
use duckdb_load_testing_tool.Prelude.Result.{Result, ok, err}
use duckdb_load_testing_tool.Float.{Float64}
use duckdb_load_testing_tool.Event.{Event}
use duckdb_load_testing_tool.Storage.Metrics.{MetricsStats, error_rate, rps, duration_seconds}
use duckdb_load_testing_tool.Realtime.Stats.{
  HubStats, MetricType, Message, record_event, update_buffer_size, broadcast_of,
}
use duckdb_load_testing_tool.Handlers.{Store, Uploader, Handlers, Response, Body, respond}

-- The clock of one event: as `RecordEvent` reads it, in seconds and in milliseconds, and as
-- `BroadcastEvent` does.
pub record Clock : Type 0 where
  pub now : ℤ
  pub now_ms : ℤ
  pub sent_ms : ℤ

-- `isError`
abbrev pub counts_as_error : {F : Type 0} → Event F → Bool
counts_as_error ev = leb_ℤ (pos 400) ev.status || not (str_eq ev.error_code "")

abbrev send : Option String → List String → List String
send none sent = sent
send (some text) sent = sent ++ text ∷ []

-- runs/<run id>/<base name>
abbrev pub upload_key : (String → String) → String → String → String
upload_key base run_id db_file = append "runs/" (append run_id (append "/" (base db_file)))

-- `h.uploader != nil && h.uploader.IsConfigured()`
abbrev pub s3_enabled : Option Uploader → Bool
s3_enabled none = false
s3_enabled (some u) = u.is_configured

module _ {F : Type 0} ⦃d : Float64 F⦄ where
  -- (*Hub).RecordEvent of one event, as the handlers call it.
  abbrev pub record_of : Clock → Event F → HubStats F → HubStats F
  record_of t ev = record_event t.now t.now_ms ev.rtt (counts_as_error ev) ev.vu

  abbrev event_message : ℤ → Event F → Message (Event F)
  event_message sent_ms ev = record { type = MetricType.event; timestamp = sent_ms; data_ = ev }

  -- The loop of `HandleIngestBatch`, with the clock of each round.
  unfoldable pub record_each : (ℕ → Clock) → List (Event F) → HubStats F → HubStats F
  record_each clock [] hub = hub
  record_each clock (ev ∷ rest) hub =
      record_each (λ n. clock (suc n)) rest (record_of (clock 0) ev hub)

module _ {S F : Type 0} ⦃d : Float64 F⦄ (store : Store S F) where
  -- `if h.hub != nil { … }` of `HandleIngest`, with BroadcastEvent
  abbrev observe :
      (Message (Event F) → Result String)
      → Clock
      → Event F
      → Option (HubStats F)
      → Handlers S F
      → Handlers S F
  observe marshal t ev none h = h
  observe marshal t ev (some hub) h = record h {
    hub = some (record_of t ev hub);
    broadcasts = send (broadcast_of (marshal (event_message t.sent_ms ev))) h.broadcasts;
  }

  -- HandleIngest
  unfoldable pub handle_ingest :
      (Message (Event F) → Result String)
      → Clock
      → Result (Event F)
      → Handlers S F
      → Handlers S F × Response F
  handle_ingest marshal t (err e) h = (h, respond 400 (Body.error_text "bad payload"))
  handle_ingest marshal t (ok ev) h = (
    observe marshal t ev h.hub (record h { storage = store.add_event ev h.storage }),
    respond 202 Body.no_body,
  )

  -- `if h.hub != nil { … }` of `HandleIngestBatch`
  abbrev observe_all :
      (ℕ → Clock) → List (Event F) → Option (HubStats F) → Handlers S F → Handlers S F
  observe_all clock evs none h = h
  observe_all clock evs (some hub) h = record h {
    hub = some (update_buffer_size (pos (store.buffer_size h.storage)) (record_each clock evs hub));
  }

  -- HandleIngestBatch
  unfoldable pub handle_ingest_batch :
      (ℕ → Clock) → Result (List (Event F)) → Handlers S F → Handlers S F × Response F
  unfolding record_each
  handle_ingest_batch clock (err e) h = (h, respond 400 (Body.error_text "bad payload"))
  handle_ingest_batch clock (ok []) h = (h, respond 400 (Body.ingest 0 "no events provided"))
  handle_ingest_batch clock (ok (ev ∷ rest)) h = (
    observe_all clock (ev ∷ rest) h.hub
        (record h { storage = store.add_events (ev ∷ rest) h.storage }),
    respond 202 (Body.ingest (length (ev ∷ rest)) ""),
  )

  abbrev flush_failed : Response F
  flush_failed = respond 500 (Body.error_text "flush failed")

  abbrev pub flush_response : ℕ → Bool → String → String → Response F
  flush_response count uploaded key message =
      respond 200
        (Body.flush (record { flushed = count; uploaded = uploaded; key = key; message = message }))

  abbrev pub flush_answer : Handlers S F → S × Result ℕ → Handlers S F × Response F
  flush_answer h (s, ok count) = (record h { storage = s }, flush_response count false "" "")
  flush_answer h (s, err e) = (record h { storage = s }, flush_failed)

  -- HandleFlush
  unfoldable pub handle_flush : Handlers S F → Handlers S F × Response F
  handle_flush h = flush_answer h (store.flush h.storage)

  abbrev pub uploaded : ℕ → String → Result (Unit {0}) → Response F
  uploaded count key (ok done) = flush_response count true key ""
  uploaded count key (err e) = respond 500 (Body.error_text "upload failed")

  -- What follows a flush that returned a count. The tests are those of `s3_enabled`.
  abbrev pub upload : (String → String) → ℕ → Option Uploader → Handlers S F → Response F
  upload base count none h = flush_response count false "" "no S3 configured; flush done"
  upload base count (some u) h =
      let key = upload_key base h.run_id (store.get_db_file h.storage) in
      if u.is_configured
      then uploaded count key (u.upload_file key (store.get_db_file h.storage))
      else flush_response count false "" "no S3 configured; flush done"

  abbrev pub flush_upload_answer :
      (String → String) → Handlers S F → S × Result ℕ → Handlers S F × Response F
  flush_upload_answer base h (s, ok count) =
      let h' : Handlers S F = record h { storage = s } in (h', upload base count h.uploader h')
  flush_upload_answer base h (s, err e) = (record h { storage = s }, flush_failed)

  -- HandleFlushUpload, where `base` is filepath.Base
  unfoldable pub handle_flush_upload : (String → String) → Handlers S F → Handlers S F × Response F
  handle_flush_upload base h = flush_upload_answer base h (store.flush h.storage)

  abbrev stats_answer : Result (MetricsStats F) → Handlers S F → Response F
  stats_answer (err e) h = respond 500 (Body.error_text "failed to get stats")
  stats_answer (ok stats) h = respond 200 (
      Body.stats (record {
        total_requests = stats.total_requests;
        error_count = stats.error_count;
        error_rate = error_rate stats;
        avg_rtt = stats.avg_rtt;
        p50_rtt = stats.p50_rtt;
        p95_rtt = stats.p95_rtt;
        p99_rtt = stats.p99_rtt;
        rps = rps stats;
        duration_sec = duration_seconds stats;
        buffer_size = store.buffer_size h.storage;
      }))

  -- HandleStats: what the flush returns is dropped.
  unfoldable pub handle_stats : Handlers S F → Handlers S F × Response F
  handle_stats h =
      let h' : Handlers S F = record h { storage = (store.flush h.storage).0 } in
      (h', stats_answer (store.get_stats h'.storage) h')

  -- HandleHealth
  unfoldable pub handle_health : Handlers S F → Handlers S F × Response F
  handle_health h = (
    h,
    respond 200 (
        Body.health (record {
          status = "ok";
          buffer_size = store.buffer_size h.storage;
          db_file = store.get_db_file h.storage;
          s3_enabled = s3_enabled h.uploader;
        })),
  )
