-- ===== src/Server/Events.antt =====
-- What becomes of the events that the server of sidecar-go/main.go accepts.
use mathlib.Core.Path.{subst}
use mathlib.Core.List.{append-nil, append_assoc, map-append}
use duckdb_load_testing_tool.Prelude.{
  ℕ, ◌+◌, ◌<◌, ◌^◌, ◌≡◌, refl, sym, ap, ◌∙◌, String, List, [], ◌∷◌, ◌++◌, map, some, arith, length,
  length-append,
}
use duckdb_load_testing_tool.Prelude.Int.{pos}
use duckdb_load_testing_tool.Prelude.Result.{Result, ok, err, wrap, wrap-ok, bind-ok}
use duckdb_load_testing_tool.Float.{Float64}
use duckdb_load_testing_tool.Event.{Event}
use duckdb_load_testing_tool.Storage.{
  Outside, DuckDbStorage, Row, row_of, add_event, add_events, open_storage, with_schema,
  create_schema, new_storage,
}
use duckdb_load_testing_tool.Storage.S3.{Aws, Objects}
use duckdb_load_testing_tool.Storage.Flush.{flush}
use duckdb_load_testing_tool.Storage.Metrics.{MetricsStats}
use duckdb_load_testing_tool.Storage.Conservation.{IsCopying, flush-Flushed}
use duckdb_load_testing_tool.Storage.History.{contents, contents-add, contents-Flushed}
use duckdb_load_testing_tool.Realtime.Stats.{HubStats, Message, new_hub, update_buffer_size}
use duckdb_load_testing_tool.Realtime.Stats.Window.{Follows-new_hub, Follows-update_buffer_size}
use duckdb_load_testing_tool.Handlers.{Handlers, Store}
use duckdb_load_testing_tool.Handlers.DuckDb.{duck_db_store}
use duckdb_load_testing_tool.Handlers.Ingest.{
  Clock, record_of, record_each, handle_ingest, handle_ingest_batch, handle_flush,
  handle_flush_upload, handle_stats, handle_health, flush_answer, flush_upload_answer,
}
use duckdb_load_testing_tool.Handlers.Accounts.{
  single, batch, accepted_of, handle, errors_in, rtts, length-rtts, Accounts, Accounts-record_of,
  Accounts-record_each,
}
use duckdb_load_testing_tool.Server.{
  Machine, db_file, data_dir, handlers_for, start, Action, ingested, flushed, flushed_and_uploaded,
  stats_read, health_read, ticked, background_flush, serve, serve_all,
}

abbrev events_of : {F : Type 0} → Action F → List (Event F)
events_of (ingested r) = accepted_of r
events_of flushed = []
events_of flushed_and_uploaded = []
events_of stats_read = []
events_of health_read = []
events_of ticked = []

-- The events of all ingest requests that decode.
abbrev pub events_in : {F : Type 0} → List (Action F) → List (Event F)
events_in [] = []
events_in (a ∷ rest) = events_of a ++ events_in rest

module _ {D F : Type 0} ⦃d : Float64 F⦄ (outside : Outside D)
    (stats_row : D → Result (MetricsStats F)) (rows_of : D → List Row)
    (copying : IsCopying outside rows_of) (marshal : Message (Event F) → Result String)
    (base : String → String) where
  abbrev store : Store (DuckDbStorage D F) F
  store = duck_db_store outside stats_row

  abbrev pub held : Handlers (DuckDbStorage D F) F → List Row
  held h = contents outside rows_of copying h.storage

  -- These events are in the hub's statistics, and in the table or the buffer.
  record Tracks (before : List Row) (evs : List (Event F)) (h : Handlers (DuckDbStorage D F) F)
      : Type 0 where
    hub : HubStats F
    there : h.hub ≡ some hub
    accounts : Accounts hub evs
    kept : held h ≡ before ++ map (row_of outside) evs

  kept_more :
      (before : List Row) (evs new : List (Event F)) (h : Handlers (DuckDbStorage D F) F)
      → held h ≡ before ++ map (row_of outside) evs
      → rows_of h.storage.db ++ map (row_of outside) (h.storage.buffer ++ new)
        ≡ before ++ map (row_of outside) (evs ++ new)
  kept_more before evs new h k =
      contents-add outside rows_of copying h.storage new
      ∙ ap (λ r. r ++ map (row_of outside) new) k
      ∙ append_assoc before _ _
      ∙ ap (λ r. before ++ r) (sym (map-append (row_of outside) evs new))

  Tracks-single :
      (before : List Row) (evs : List (Event F)) (t : Clock) (ev : Event F)
      (h : Handlers (DuckDbStorage D F) F)
      → Tracks before evs h
      → length evs + 1 < 2 ^ 63
      → Tracks before (evs ++ ev ∷ []) (handle store marshal (single t (ok ev)) h)
  unfolding handle handle_ingest add_event
  Tracks-single before evs t ev h k small = rw k.there (record {
    hub = record_of t ev k.hub;
    there = refl;
    accounts = Accounts-record_of t ev k.hub evs k.accounts small;
    kept = kept_more before evs (ev ∷ []) h k.kept;
  })

  Tracks-batch :
      (before : List Row) (evs new : List (Event F)) (clock : ℕ → Clock)
      (h : Handlers (DuckDbStorage D F) F)
      → Tracks before evs h
      → length evs + length new < 2 ^ 63
      → Tracks before (evs ++ new) (handle store marshal (batch clock (ok new)) h)
  unfolding handle handle_ingest_batch add_events
  Tracks-batch before evs [] clock h k small =
      subst (λ l. Tracks before l h) (sym (append-nil evs)) k
  Tracks-batch before evs (ev ∷ rest) clock h k small =
      let new = ev ∷ rest in
      let size = pos (length (h.storage.buffer ++ new)) in
      rw k.there (record {
        hub = update_buffer_size size (record_each clock new k.hub);
        there = refl;
        accounts =
            Follows-update_buffer_size size (record_each clock new k.hub) (rtts (evs ++ new))
              (errors_in (evs ++ new)) (Accounts-record_each clock new k.hub evs k.accounts small);
        kept = kept_more before evs new h k.kept;
      })

  -- Every flush keeps what table and buffer hold together.
  held-flush :
      (h : Handlers (DuckDbStorage D F) F)
      → held (record h { storage = (flush outside [] h.storage).0 }) ≡ held h
  held-flush h =
      contents-Flushed outside rows_of copying h.storage [] (flush outside [] h.storage)
        (flush-Flushed outside rows_of copying h.storage [])
      ∙ append-nil (held h)

  Tracks-flush :
      (before : List Row) (evs : List (Event F)) (h : Handlers (DuckDbStorage D F) F)
      → Tracks before evs h
      → Tracks before evs (record h { storage = (flush outside [] h.storage).0 })
  Tracks-flush before evs h k = record {
    hub = k.hub;
    there = k.there;
    accounts = k.accounts;
    kept = held-flush h ∙ k.kept;
  }

  Tracks-background_flush :
      (before : List Row) (evs : List (Event F)) (h : Handlers (DuckDbStorage D F) F)
      → Tracks before evs h
      → Tracks before evs (background_flush store h)
  unfolding background_flush
  Tracks-background_flush before evs h k =
      let size = pos (length (flush outside [] h.storage).0.buffer) in
      rw k.there (record {
        hub = update_buffer_size size k.hub;
        there = refl;
        accounts = Follows-update_buffer_size size k.hub (rtts evs) (errors_in evs) k.accounts;
        kept = held-flush h ∙ k.kept;
      })

  state-flush_answer :
      (h : Handlers (DuckDbStorage D F) F) (answer : DuckDbStorage D F × Result ℕ)
      → (flush_answer store h answer).0 ≡ record h { storage = answer.0 }
  state-flush_answer h (s, ok n) = refl
  state-flush_answer h (s, err e) = refl

  state-flush_upload_answer :
      (h : Handlers (DuckDbStorage D F) F) (answer : DuckDbStorage D F × Result ℕ)
      → (flush_upload_answer store base h answer).0 ≡ record h { storage = answer.0 }
  state-flush_upload_answer h (s, ok n) = refl
  state-flush_upload_answer h (s, err e) = refl

  no_event :
      (before : List Row) (evs : List (Event F)) (h h' : Handlers (DuckDbStorage D F) F)
      → h' ≡ h
      → Tracks before evs h
      → Tracks before (evs ++ []) h'
  no_event before evs h h' e k =
      subst (Tracks before (evs ++ [])) (sym e)
        (subst (λ l. Tracks before l h) (sym (append-nil evs)) k)

  Tracks-serve :
      (before : List Row) (evs : List (Event F)) (a : Action F) (h : Handlers (DuckDbStorage D F) F)
      → Tracks before evs h
      → length evs + length (events_of a) < 2 ^ 63
      → Tracks before (evs ++ events_of a) (serve store marshal base a h)
  unfolding serve
  Tracks-serve before evs (ingested (single t (ok ev))) h k small =
      Tracks-single before evs t ev h k small
  Tracks-serve before evs (ingested (single t (err e))) h k small =
      no_event before evs h _ (unfold handle handle_ingest in refl) k
  Tracks-serve before evs (ingested (batch clock (ok new))) h k small =
      Tracks-batch before evs new clock h k small
  Tracks-serve before evs (ingested (batch clock (err e))) h k small =
      no_event before evs h _ (unfold handle handle_ingest_batch in refl) k
  Tracks-serve before evs flushed h k small =
      no_event before evs _ _
        (unfold handle_flush in state-flush_answer h (flush outside [] h.storage))
        (Tracks-flush before evs h k)
  Tracks-serve before evs flushed_and_uploaded h k small =
      no_event before evs _ _
        (unfold handle_flush_upload in state-flush_upload_answer h (flush outside [] h.storage))
        (Tracks-flush before evs h k)
  Tracks-serve before evs stats_read h k small =
      no_event before evs _ _ (unfold handle_stats in refl) (Tracks-flush before evs h k)
  Tracks-serve before evs health_read h k small =
      no_event before evs h _ (unfold handle_health in refl) k
  Tracks-serve before evs ticked h k small =
      no_event before evs _ _ refl (Tracks-background_flush before evs h k)

  Tracks-serve_all :
      (before : List Row) (evs : List (Event F)) (acts : List (Action F))
      (h : Handlers (DuckDbStorage D F) F)
      → Tracks before evs h
      → length evs + length (events_in acts) < 2 ^ 63
      → Tracks before (evs ++ events_in acts) (serve_all store marshal base acts h)
  unfolding serve_all
  Tracks-serve_all before evs [] h k small = no_event before evs h h refl k
  Tracks-serve_all before evs (a ∷ rest) h k small =
      let size = length-append (events_of a) (events_in rest) in
      let size' = length-append evs (events_of a) in
      subst
        (λ l. Tracks before l (serve_all store marshal base rest (serve store marshal base a h)))
        (append_assoc evs (events_of a) (events_in rest))
        (Tracks-serve_all before (evs ++ events_of a) rest (serve store marshal base a h)
          (Tracks-serve before evs a h k (omega arith)) (omega arith))

  Tracks-opened :
      {C L File : Type 0} (aws : Aws C L) (objects : Objects L File) (m : Machine D)
      (answer : D × Result (Unit {0})) (s : DuckDbStorage D F)
      → with_schema (db_file m) answer ≡ ok s
      → Tracks (rows_of answer.0) [] (handlers_for aws objects m s)
  Tracks-opened aws objects m (db', ok done) s e =
      let fresh : Tracks (rows_of db') []
          (handlers_for aws objects m (new_storage db' (db_file m))) =
        record { hub = new_hub; there = refl; accounts = Follows-new_hub; kept = refl } in
      let same : new_storage db' (db_file m) ≡ s = cc in
      subst (λ o. Tracks (rows_of db') [] (handlers_for aws objects m o)) same fresh
  Tracks-opened aws objects m (db', err f) s e = cc

  opened_with :
      (m : Machine D) (r : Result D) (s : DuckDbStorage D F)
      → create_schema m.exec_schema (db_file m) r ≡ ok s
      → (db : D) × (r ≡ ok db) × (with_schema (db_file m) (m.exec_schema db) ≡ ok s)
  opened_with m (ok db) s e = (db, refl, e)
  opened_with m (err f) s e = cc

  Tracks-start :
      {C L File : Type 0} (aws : Aws C L) (objects : Objects L File) (m : Machine D)
      (h : Handlers (DuckDbStorage D F) F)
      → start aws objects m ≡ ok h
      → (db : D) × (m.open_db (db_file m) ≡ ok db) × Tracks (rows_of (m.exec_schema db).0) [] h
  unfolding start open_storage
  Tracks-start aws objects m h r =
      let (_, _, r1) =
        bind-ok (wrap "failed to create data dir: %v" [] (m.make_dir (data_dir m))) _ h r in
      let (s, r2, r3) =
        bind-ok
          (wrap "failed to create storage: %v" []
            (open_storage m.open_db m.exec_schema (db_file m)))
          _ h r1 in
      let r4 =
        wrap-ok "failed to create storage: %v" [] (open_storage m.open_db m.exec_schema (db_file m))
          s r2 in
      let same : handlers_for aws objects m s ≡ h = cc in
      let (db, opened, r5) = opened_with m (m.open_db (db_file m)) s r4 in
      (
        db,
        opened,
        subst (Tracks (rows_of (m.exec_schema db).0) []) same
            (Tracks-opened aws objects m (m.exec_schema db) s r5),
      )

  -- Where DuckDB copies all rows of a CSV file or none, and main has started with a database: after
  -- any sequence of requests to ingest, decoded or not, of flushes over HTTP with an upload or
  -- without, of requests for statistics and health, and of ticks of the background flusher, whatever
  -- of this fails, and with fewer than 2^63 events in all, the rows of the table followed by those of
  -- the buffer are the rows the database opened with, followed by one for each accepted event, in
  -- order, and the live statistics count just those events and their errors.
  pub start-serve_all :
      {C L File : Type 0} (aws : Aws C L) (objects : Objects L File) (m : Machine D)
      (h : Handlers (DuckDbStorage D F) F) (acts : List (Action F))
      → start aws objects m ≡ ok h
      → length (events_in acts) < 2 ^ 63
      → (db : D) × (hub : HubStats F) × (m.open_db (db_file m) ≡ ok db)
        × (held (serve_all store marshal base acts h)
            ≡ rows_of (m.exec_schema db).0 ++ map (row_of outside) (events_in acts))
        × ((serve_all store marshal base acts h).hub ≡ some hub)
        × (hub.stats.total_requests ≡ pos (length (events_in acts)))
        × (hub.stats.error_count ≡ pos (errors_in (events_in acts)))
  start-serve_all aws objects m h acts r small =
      let (db, opened, k) = Tracks-start aws objects m h r in
      let t = Tracks-serve_all (rows_of (m.exec_schema db).0) [] acts h k (omega arith) in
      (
        db,
        t.hub,
        opened,
        t.kept,
        t.there,
        t.accounts.total ∙ ap pos (length-rtts (events_in acts)),
        t.accounts.failed,
      )
