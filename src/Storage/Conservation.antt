-- ===== src/Storage/Conservation.antt =====
-- The table and the buffer around one call of `Flush`, of sidecar-go/storage/duckdb.go.
use mathlib.Core.List.{append-nil, append_assoc}
use duckdb_load_testing_tool.Prelude.{
  ℕ, String, ◌≡◌, refl, sym, ap, ◌∙◌, List, [], ◌∷◌, ◌++◌, map, length, inl, inr,
}
use duckdb_load_testing_tool.Prelude.Result.{Result, ok, err, Error, wrap, Result-cases, bind-ok}
use duckdb_load_testing_tool.Float.{Float64}
use duckdb_load_testing_tool.Event.{Event}
use duckdb_load_testing_tool.Storage.{Outside, DuckDbStorage, Row, header, row_of, add_events}
use duckdb_load_testing_tool.Storage.Flush.{
  write_rows, write_csv, write_batch, flush, flush_buffer, settle, copied, tmp_of,
}

-- What DuckDB says of a COPY from a CSV file with a header line: where it succeeds, it adds the rows
-- below the header to the table; where it fails, it adds none.
pub record IsCopying {D : Type 0} (outside : Outside D) (rows_of : D → List Row) : Type 0 where
  pub on_success :
      (tmp : String) (head : Row) (rows : List Row) (db : D)
      → (outside.copy tmp (head ∷ rows) db).1 ≡ ok tt
      → rows_of (outside.copy tmp (head ∷ rows) db).0 ≡ rows_of db ++ rows
  pub on_failure :
      (tmp : String) (rows : List Row) (db : D) (e : Error)
      → (outside.copy tmp rows db).1 ≡ err e
      → rows_of (outside.copy tmp rows db).0 ≡ rows_of db

module _ {D F : Type 0} ⦃d : Float64 F⦄ (outside : Outside D) (rows_of : D → List Row)
    (copying : IsCopying outside rows_of) where
  write_rows-ok :
      (rows : List Row) (batch : List (Event F)) (all : List Row)
      → write_rows outside rows batch ≡ ok all
      → all ≡ rows ++ map (row_of outside) batch
  unfolding write_rows
  write_rows-ok rows [] all h = rw append-nil cc
  write_rows-ok rows (e ∷ rest) all h =
      let row = row_of outside e in
      let (done, _, h') =
        bind-ok (wrap "csv write error: %w" [] (outside.write_row rows row)) _ all h in
      write_rows-ok (rows ++ row ∷ []) rest all h' ∙ append_assoc rows (row ∷ []) _

  write_csv-ok :
      (tmp : String) (batch : List (Event F)) (all : List Row)
      → write_csv outside tmp batch ≡ ok all
      → all ≡ header ∷ map (row_of outside) batch
  unfolding write_csv
  write_csv-ok tmp batch all h =
      let (_, _, h1) = bind-ok (wrap "create tmp csv error: %w" [] (outside.create tmp)) _ all h in
      let (_, _, h2) =
        bind-ok (wrap "csv header write error: %w" [] (outside.write_row [] header)) _ all h1 in
      let (rows, h3, h4) = bind-ok (write_rows outside (header ∷ []) batch) _ all h2 in
      let (_, _, h5) = bind-ok (wrap "csv flush error: %w" [] (outside.flush_rows rows)) _ all h4 in
      let same : rows ≡ all = cc in sym same ∙ write_rows-ok (header ∷ []) batch rows h3

  -- What `writeBatch` does to the table, by its answer.
  abbrev pub Written : List (Event F) → D → D × Result ℕ → Type 0
  Written batch db (db', ok n) =
      (rows_of db' ≡ rows_of db ++ map (row_of outside) batch) × (n ≡ length batch)
  Written batch db (db', err e) = rows_of db' ≡ rows_of db

  copied-Written :
      (batch : List (Event F)) (db : D) (answer : D × Result (Unit {0}))
      → (answer.1 ≡ ok tt → rows_of answer.0 ≡ rows_of db ++ map (row_of outside) batch)
      → ((e : Error) → answer.1 ≡ err e → rows_of answer.0 ≡ rows_of db)
      → Written batch db (copied (length batch) answer)
  copied-Written batch db (db', ok tt) good bad = (good refl, refl)
  copied-Written batch db (db', err e) good bad = bad e refl

  write_batch-Written :
      (db_file : String) (batch : List (Event F)) (db : D)
      → Written batch db (write_batch outside db_file batch db)
  unfolding write_batch
  write_batch-Written db_file batch db =
      let tmp = tmp_of db_file in
      elim (Result-cases (write_csv outside tmp batch)) [
        | inl (rows, h) ↦
            let shape = write_csv-ok tmp batch rows h in
            rw (h, shape)
              (copied-Written batch db (outside.copy tmp (header ∷ map (row_of outside) batch) db)
                (copying.on_success tmp header (map (row_of outside) batch) db)
                (copying.on_failure tmp (header ∷ map (row_of outside) batch) db))
        | inr (e, h) ↦ rw h refl
      ]

  -- What `Flush` does, by its answer, where the events `during` come in while it runs.
  abbrev pub Flushed : DuckDbStorage D F → List (Event F) → DuckDbStorage D F × Result ℕ → Type 0
  Flushed s during (s', ok n) =
      (rows_of s'.db ≡ rows_of s.db ++ map (row_of outside) s.buffer)
      × (s'.buffer ≡ during)
      × (n ≡ length s.buffer)
  Flushed s during (s', err e) = (rows_of s'.db ≡ rows_of s.db) × (s'.buffer ≡ s.buffer ++ during)

  settle-Flushed :
      (s : DuckDbStorage D F) (during batch : List (Event F)) (answer : D × Result ℕ)
      → s.buffer ≡ batch
      → Written batch s.db answer
      → Flushed s during (settle batch answer (record s { buffer = [] ++ during }))
  settle-Flushed s during batch (db', ok n) e (w, c) =
      (w ∙ ap (λ b. rows_of s.db ++ map (row_of outside) b) (sym e), refl, c ∙ ap length (sym e))
  settle-Flushed s during batch (db', err _) e w = (w, ap (λ b. b ++ during) (sym e))

  flush_buffer-Flushed :
      (s : DuckDbStorage D F) (during batch : List (Event F))
      → s.buffer ≡ batch
      → Flushed s during (flush_buffer outside during batch s)
  unfolding add_events
  flush_buffer-Flushed s during [] e = rw (e, append-nil) (refl, refl, refl)
  flush_buffer-Flushed s during (x ∷ xs) e =
      settle-Flushed s during s.buffer (write_batch outside s.db_file s.buffer s.db) refl
        (write_batch-Written s.db_file s.buffer s.db)

  -- Where DuckDB copies all rows of a CSV file or none: if `Flush` returns a count, it is the length
  -- of the buffer, the table has gained the rows of the buffered events in their order, and the
  -- buffer holds just the events that were added while it ran; if `Flush` returns an error, from
  -- whichever step, the table has the rows it had, and the buffer holds the events it held and then
  -- those that were added while it ran.
  pub flush-Flushed :
      (s : DuckDbStorage D F) (during : List (Event F)) → Flushed s during (flush outside during s)
  unfolding flush
  flush-Flushed s during = flush_buffer-Flushed s during s.buffer refl
