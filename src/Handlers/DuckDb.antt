-- ===== src/Handlers/DuckDb.antt =====
-- `DuckDBStorage` as the store of the handlers. No event is added while one of its flushes runs here.
use duckdb_load_testing_tool.Prelude.{[], refl}
use duckdb_load_testing_tool.Prelude.Result.{Result}
use duckdb_load_testing_tool.Float.{Float64}
use duckdb_load_testing_tool.Storage.{
  Outside, DuckDbStorage, add_event, add_events, buffer_size, get_db_file,
}
use duckdb_load_testing_tool.Storage.Flush.{flush}
use duckdb_load_testing_tool.Storage.Metrics.{MetricsStats, get_stats}
use duckdb_load_testing_tool.Handlers.{Store, IsBuffering}

module _ {D F : Type 0} ⦃d : Float64 F⦄ (outside : Outside D)
    (stats_row : D → Result (MetricsStats F)) where
  abbrev pub duck_db_store : Store (DuckDbStorage D F) F
  duck_db_store = record {
    add_event = add_event;
    add_events = add_events;
    buffer_size = buffer_size;
    flush = flush outside [];
    get_db_file = get_db_file;
    get_stats = λ s. get_stats (stats_row s.db);
  }

  pub duck_db_store-IsBuffering : IsBuffering duck_db_store (λ s. s.buffer)
  unfolding add_event add_events
  duck_db_store-IsBuffering = record {
    buffered = λ e s. refl;
    buffered_all = λ es s. refl;
    size = λ s. refl;
  }
