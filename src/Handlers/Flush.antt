-- ===== src/Handlers/Flush.antt =====
-- `HandleFlush` of sidecar-go/handlers/handlers.go on the store of sidecar-go/storage/duckdb.go.
use mathlib.Core.List.{append-nil}
use duckdb_load_testing_tool.Prelude.{
  ℕ, ◌≡◌, refl, ◌∙◌, ◌⊎◌, inl, inr, false, List, [], ◌++◌, map, length,
}
use duckdb_load_testing_tool.Prelude.Result.{Result, ok, err}
use duckdb_load_testing_tool.Float.{Float64}
use duckdb_load_testing_tool.Storage.{Outside, DuckDbStorage, Row, row_of}
use duckdb_load_testing_tool.Storage.Flush.{flush}
use duckdb_load_testing_tool.Storage.Metrics.{MetricsStats}
use duckdb_load_testing_tool.Storage.Conservation.{IsCopying, Flushed, flush-Flushed}
use duckdb_load_testing_tool.Handlers.{Handlers, Response, Body, respond}
use duckdb_load_testing_tool.Handlers.DuckDb.{duck_db_store}
use duckdb_load_testing_tool.Handlers.Ingest.{handle_flush, flush_answer}

module _ {D F : Type 0} ⦃d : Float64 F⦄ (outside : Outside D)
    (stats_row : D → Result (MetricsStats F)) (rows_of : D → List Row)
    (copying : IsCopying outside rows_of) where
  -- The answer and the store after a flush that wrote the buffer, and after one that failed.
  abbrev pub Answered :
      Handlers (DuckDbStorage D F) F → Handlers (DuckDbStorage D F) F → Response F → Type 0
  Answered h h' r =
      ((r
          ≡ respond 200 (
              Body.flush (record {
                flushed = length h.storage.buffer;
                uploaded = false;
                key = "";
                message = "";
              })))
        × (h'.storage.buffer ≡ [])
        × (rows_of h'.storage.db ≡ rows_of h.storage.db ++ map (row_of outside) h.storage.buffer))
      ⊎ ((r ≡ respond 500 (Body.error_text "flush failed"))
          × (h'.storage.buffer ≡ h.storage.buffer)
          × (rows_of h'.storage.db ≡ rows_of h.storage.db))

  flush_answer-Answered :
      (h : Handlers (DuckDbStorage D F) F) (answer : DuckDbStorage D F × Result ℕ)
      → Flushed outside rows_of copying h.storage [] answer
      → Answered h
          (flush_answer (duck_db_store outside stats_row) h answer).0
          (flush_answer (duck_db_store outside stats_row) h answer).1
  flush_answer-Answered h (s, ok n) (w, b, c) = inl (rw c refl, b, w)
  flush_answer-Answered h (s, err e) (w, b) = inr (refl, b ∙ append-nil h.storage.buffer, w)

  -- Where DuckDB copies all rows of a CSV file or none, and no event comes in meanwhile, `HandleFlush`
  -- answers in one of two ways: with status 200 and the number of buffered events, and then the table
  -- has gained their rows and the buffer is empty; or with status 500, and then the table has the rows
  -- it had and the buffer holds the events it held.
  pub handle_flush-Answered :
      (h : Handlers (DuckDbStorage D F) F)
      → Answered h
          (handle_flush (duck_db_store outside stats_row) h).0
          (handle_flush (duck_db_store outside stats_row) h).1
  unfolding handle_flush
  handle_flush-Answered h =
      flush_answer-Answered h (flush outside [] h.storage)
        (flush-Flushed outside rows_of copying h.storage [])
