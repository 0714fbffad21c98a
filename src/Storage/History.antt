-- ===== src/Storage/History.antt =====
-- The table and the buffer over a sequence of calls: sidecar-go/storage/duckdb.go.
use mathlib.Core.List.{append-nil, append_assoc, map-append}
use duckdb_load_testing_tool.Prelude.{ℕ, ◌≡◌, sym, ap, ap₂, ◌∙◌, List, [], ◌∷◌, ◌++◌, map}
use duckdb_load_testing_tool.Prelude.Result.{Result, ok, err}
use duckdb_load_testing_tool.Float.{Float64}
use duckdb_load_testing_tool.Event.{Event}
use duckdb_load_testing_tool.Storage.{Outside, DuckDbStorage, Row, row_of, add_event, add_events}
use duckdb_load_testing_tool.Storage.Flush.{flush}
use duckdb_load_testing_tool.Storage.Conservation.{IsCopying, Flushed, flush-Flushed}

-- The calls of the store's methods, in the order of their last critical sections before a write. A
-- flush carries the events that are added while it runs; no two flushes overlap.
pub data Operation (F : Type 0) : Type 0 where
  added : Event F → Operation F
  added_all : List (Event F) → Operation F
  flushed : (during : List (Event F)) → Operation F

abbrev pub events_of_one : {F : Type 0} → Operation F → List (Event F)
events_of_one (added e) = e ∷ []
events_of_one (added_all es) = es
events_of_one (flushed during) = during

-- All events that the operations add, in order.
abbrev pub events_of : {F : Type 0} → List (Operation F) → List (Event F)
events_of [] = []
events_of (o ∷ rest) = events_of_one o ++ events_of rest

module _ {D F : Type 0} ⦃d : Float64 F⦄ (outside : Outside D) where
  unfoldable pub operate : Operation F → DuckDbStorage D F → DuckDbStorage D F
  operate (added e) s = add_event e s
  operate (added_all es) s = add_events es s
  operate (flushed during) s = (flush outside during s).0

  unfoldable pub run : List (Operation F) → DuckDbStorage D F → DuckDbStorage D F
  run [] s = s
  run (o ∷ rest) s = run rest (operate o s)

  module _ (rows_of : D → List Row) (copying : IsCopying outside rows_of) where
    -- The rows of the table and then those of the buffered events.
    abbrev pub contents : DuckDbStorage D F → List Row
    contents s = rows_of s.db ++ map (row_of outside) s.buffer

    pub contents-add :
        (s : DuckDbStorage D F) (es : List (Event F))
        → rows_of s.db ++ map (row_of outside) (s.buffer ++ es)
          ≡ contents s ++ map (row_of outside) es
    contents-add s es =
        ap (λ r. rows_of s.db ++ r) (map-append (row_of outside) s.buffer es)
        ∙ sym (append_assoc (rows_of s.db) _ _)

    pub contents-Flushed :
        (s : DuckDbStorage D F) (during : List (Event F)) (answer : DuckDbStorage D F × Result ℕ)
        → Flushed outside rows_of copying s during answer
        → contents answer.0 ≡ contents s ++ map (row_of outside) during
    contents-Flushed s during (s', ok n) (w, b, c) = ap₂ (λ r e. r ++ map (row_of outside) e) w b
    contents-Flushed s during (s', err e) (w, b) =
        ap₂ (λ r e. r ++ map (row_of outside) e) w b ∙ contents-add s during

    contents-operate :
        (o : Operation F) (s : DuckDbStorage D F)
        → contents (operate o s) ≡ contents s ++ map (row_of outside) (events_of_one o)
    unfolding operate
    contents-operate (added e) s = unfold add_event in contents-add s (e ∷ [])
    contents-operate (added_all es) s = unfold add_events in contents-add s es
    contents-operate (flushed during) s =
        contents-Flushed s during (flush outside during s)
          (flush-Flushed outside rows_of copying s during)

    -- Where DuckDB copies all rows of a CSV file or none: after any sequence of calls of `AddEvent`,
    -- `AddEvents` and `Flush`, with events that are added while a flush runs and whatever fails, the
    -- rows of the table followed by those of the buffered events are the ones that were there before,
    -- followed by one for each added event, in the order in which they were added.
    pub run-contents :
        (ops : List (Operation F)) (s : DuckDbStorage D F)
        → contents (run ops s) ≡ contents s ++ map (row_of outside) (events_of ops)
    unfolding run
    run-contents [] s = sym (append-nil (contents s))
    run-contents (o ∷ rest) s =
        run-contents rest (operate o s)
        ∙ ap (λ r. r ++ map (row_of outside) (events_of rest)) (contents-operate o s)
        ∙ append_assoc (contents s) _ _
        ∙ ap (λ r. contents s ++ r)
            (sym (map-append (row_of outside) (events_of_one o) (events_of rest)))
