-- ===== src/Storage.antt =====
-- The buffered store: `DuckDBStorage` of sidecar-go/storage/duckdb.go. What the file system and DuckDB
-- do is an argument, `Outside`.
pub mod Flush
pub mod Conservation
pub mod History
pub mod Metrics
pub mod S3
use duckdb_load_testing_tool.Prelude.{
  ℕ, zero, suc, String, Bool, List, [], ◌∷◌, ◌++◌, Option, none, some, length,
}
use duckdb_load_testing_tool.Prelude.Format.{show_ℤ}
use duckdb_load_testing_tool.Prelude.Dict.{Dict}
use duckdb_load_testing_tool.Prelude.Result.{Result, ok, err, Error, wrapped, ◌>>=◌, ◌>>◌, wrap}
use duckdb_load_testing_tool.Float.{Float64}
use duckdb_load_testing_tool.Event.{Event}

-- One line of a CSV file.
abbrev pub Row : Type 0
Row = List String

-- What `writeBatch` calls, over the database D: each answer may be an error. A write to the CSV file
-- sees the rows that the file has by then.
pub record Outside (D : Type 0) : Type 0 where
  -- os.Create
  pub create : String → Result (Unit {0})
  -- (*csv.Writer).Write, and Flush with Error
  pub write_row : List Row → Row → Result (Unit {0})
  pub flush_rows : List Row → Result (Unit {0})
  -- json.Marshal of the tags
  pub marshal : Dict String → Result String
  -- db.Exec of a COPY from the named file, which holds these rows
  pub copy : String → List Row → D → D × Result (Unit {0})

-- `db` stands for the handle and what it leads to.
pub record DuckDbStorage (D F : Type 0) : Type 0 where
  pub db : D
  pub db_file : String
  pub buffer : List (Event F)

-- The order of the fields of a row.
abbrev pub header : Row
header =
    "ts" ∷ "run_id" ∷ "pod_id" ∷ "vu" ∷ "iter" ∷ "method" ∷ "url" ∷ "name" ∷ "status" ∷ "body_len"
    ∷ "rtt" ∷ "dns_lookup" ∷ "tcp_connect" ∷ "tls_handshake" ∷ "ttfb" ∷ "content_transfer"
    ∷ "request_size" ∷ "response_size" ∷ "error_code" ∷ "error_msg" ∷ "tags" ∷ []

abbrev text_or_empty : Result String → String
text_or_empty (ok text) = text
text_or_empty (err e) = ""

-- `tagsJSON`: no text for nil tags and for tags that do not marshal
abbrev pub tags_json : (Dict String → Result String) → Option (Dict String) → String
tags_json marshal none = ""
tags_json marshal (some tags) = text_or_empty (marshal tags)

module _ {D F : Type 0} ⦃d : Float64 F⦄ where
  open d use {format}

  -- The variable `row`: a float is written with "%f", to six places.
  unfoldable pub row_of : Outside D → Event F → Row
  row_of outside e =
      show_ℤ e.ts
      ∷ e.run_id
      ∷ e.pod_id
      ∷ show_ℤ e.vu
      ∷ show_ℤ e.iter
      ∷ e.method
      ∷ e.url
      ∷ e.name
      ∷ show_ℤ e.status
      ∷ show_ℤ e.body_len
      ∷ format 6 e.rtt
      ∷ format 6 e.dns_lookup
      ∷ format 6 e.tcp_connect
      ∷ format 6 e.tls_handshake
      ∷ format 6 e.ttfb
      ∷ format 6 e.content_transfer
      ∷ show_ℤ e.request_size
      ∷ show_ℤ e.response_size
      ∷ e.error_code
      ∷ e.error_msg
      ∷ tags_json outside.marshal e.tags
      ∷ []

  -- The struct that `NewDuckDBStorage` makes
  abbrev pub new_storage : D → String → DuckDbStorage D F
  new_storage db db_file = record { db = db; db_file = db_file; buffer = [] }

  abbrev pub with_schema : String → D × Result (Unit {0}) → Result (DuckDbStorage D F)
  with_schema db_file (db, ok done) = ok (new_storage db db_file)
  with_schema db_file (db, err e) = err (wrapped "failed to create table: %w" [] e)

  abbrev pub create_schema :
      (D → D × Result (Unit {0})) → String → Result D → Result (DuckDbStorage D F)
  create_schema exec db_file (err e) = err (wrapped "failed to open duckdb: %w" [] e)
  create_schema exec db_file (ok db) = with_schema db_file (exec db)

  -- NewDuckDBStorage, with sql.Open and the Exec of the table's schema as arguments
  unfoldable pub open_storage :
      (String → Result D) → (D → D × Result (Unit {0})) → String → Result (DuckDbStorage D F)
  open_storage open_db exec db_file = create_schema exec db_file (open_db db_file)

  -- AddEvent
  unfoldable pub add_event : Event F → DuckDbStorage D F → DuckDbStorage D F
  add_event e s = record s { buffer = s.buffer ++ e ∷ [] }

  -- AddEvents
  unfoldable pub add_events : List (Event F) → DuckDbStorage D F → DuckDbStorage D F
  add_events es s = record s { buffer = s.buffer ++ es }

  -- BufferSize
  abbrev pub buffer_size : DuckDbStorage D F → ℕ
  buffer_size s = length s.buffer

  -- GetDBFile
  abbrev pub get_db_file : DuckDbStorage D F → String
  get_db_file s = s.db_file
