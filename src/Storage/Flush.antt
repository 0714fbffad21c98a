-- ===== src/Storage/Flush.antt =====
-- `Flush` and `writeBatch` of sidecar-go/storage/duckdb.go.
use Prim.Native.String.{◌++◌ as append}
use duckdb_load_testing_tool.Prelude.{ℕ, zero, String, List, [], ◌∷◌, ◌++◌, length}
use duckdb_load_testing_tool.Prelude.Result.{Result, ok, err, ◌>>=◌, ◌>>◌, wrap}
use duckdb_load_testing_tool.Float.{Float64}
use duckdb_load_testing_tool.Event.{Event}
use duckdb_load_testing_tool.Storage.{Outside, DuckDbStorage, Row, header, row_of, add_events}

abbrev pub tmp_of : String → String
tmp_of db_file = append db_file ".tmp.csv"

-- The end of `writeBatch`, with the answer of DuckDB.
abbrev pub copied : {D : Type 0} → ℕ → D × Result (Unit {0}) → D × Result ℕ
copied count (db, r) = (db, wrap "duckdb copy error: %w" [] r >> ok count)

abbrev pub copy_rows : {D : Type 0} → Outside D → String → ℕ → D → Result (List Row) → D × Result ℕ
copy_rows outside tmp count db (err e) = (db, err e)
copy_rows outside tmp count db (ok rows) = copied count (outside.copy tmp rows db)

module _ {D F : Type 0} ⦃d : Float64 F⦄ where
  -- The loop over the batch; `rows` is what the file holds by then, and in the end all that it holds.
  unfoldable pub write_rows : Outside D → List Row → List (Event F) → Result (List Row)
  write_rows outside rows [] = ok rows
  write_rows outside rows (e ∷ rest) =
      let row = row_of outside e in
      wrap "csv write error: %w" [] (outside.write_row rows row)
      >> write_rows outside (rows ++ row ∷ []) rest

  -- The file `tmp`, from its creation to its last flush.
  unfoldable pub write_csv : Outside D → String → List (Event F) → Result (List Row)
  unfolding write_rows
  write_csv outside tmp batch = do
    created ← wrap "create tmp csv error: %w" [] (outside.create tmp)
    written ← wrap "csv header write error: %w" [] (outside.write_row [] header)
    rows ← write_rows outside (header ∷ []) batch
    flushed ← wrap "csv flush error: %w" [] (outside.flush_rows rows)
    ok rows

  -- writeBatch
  unfoldable pub write_batch : Outside D → String → List (Event F) → D → D × Result ℕ
  unfolding write_csv
  write_batch outside db_file batch db =
      let tmp = tmp_of db_file in
      copy_rows outside tmp (length batch) db (write_csv outside tmp batch)

  -- The first critical section of `Flush`: the batch, and the store with a new buffer.
  abbrev pub take_buffer : DuckDbStorage D F → List (Event F) × DuckDbStorage D F
  take_buffer s = (s.buffer, record s { buffer = [] })

  -- The rest of `Flush`, after `writeBatch`: "Put events back in buffer on failure".
  abbrev pub settle :
      List (Event F) → D × Result ℕ → DuckDbStorage D F → DuckDbStorage D F × Result ℕ
  settle batch (db, ok count) s = (record s { db = db }, ok count)
  settle batch (db, err e) s = (record s { db = db; buffer = batch ++ s.buffer }, err e)

  -- `Flush` of a buffer that is not empty, where `during` is what other goroutines add while the
  -- batch is written.
  abbrev pub flush_batch :
      Outside D → List (Event F) → List (Event F) × DuckDbStorage D F → DuckDbStorage D F × Result ℕ
  flush_batch outside during (batch, s) =
      settle batch (write_batch outside s.db_file batch s.db) (add_events during s)

  abbrev pub flush_buffer :
      Outside D → List (Event F) → List (Event F) → DuckDbStorage D F → DuckDbStorage D F × Result ℕ
  flush_buffer outside during [] s = (add_events during s, ok zero)
  flush_buffer outside during (e ∷ es) s = flush_batch outside during (take_buffer s)

  -- Flush
  unfoldable pub flush :
      Outside D → List (Event F) → DuckDbStorage D F → DuckDbStorage D F × Result ℕ
  unfolding write_batch add_events
  flush outside during s = flush_buffer outside during s.buffer s
