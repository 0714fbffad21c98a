-- ===== src/Tests/Realtime.antt =====
-- The hub on a few events.
use duckdb_load_testing_tool.Prelude.{◌≡◌, refl, List, [], ◌∷◌, true, false, arith}
use duckdb_load_testing_tool.Prelude.Int.{pos, ◌*ℤ◌}
use duckdb_load_testing_tool.Prelude.Result.{ok}
use duckdb_load_testing_tool.Float.Milli.{Milli, milli_float, Milli-IsOrdered, Milli-IsIndexing}
use duckdb_load_testing_tool.Realtime.Sort.{sort_float64s}
use duckdb_load_testing_tool.Realtime.Stats.{HubStats, new_hub, calculate_percentiles, stored}
use duckdb_load_testing_tool.Realtime.Stats.Ordered.{calculate_percentiles-ordered}
use duckdb_load_testing_tool.Realtime.Stats.Window.{
  Operation, recorded, resized, averaged, run, run-new_hub,
}
use duckdb_load_testing_tool.Realtime.Stats.Rate.{Call, record_all, record_event-rate}
use duckdb_load_testing_tool.Tests.Data.{ms}

abbrev values : List Milli
values = ms 30 ∷ ms 10 ∷ ms 20 ∷ []

abbrev hub : HubStats Milli
hub = record new_hub { rtt_buffer = values }

calculate_percentiles-ordered_example :
    (a : Milli) × (b : Milli) × (c : Milli) × (calculate_percentiles hub
      ≡ ok (stored (sort_float64s values) a b c hub))
    × (milli_float.lt b a ≡ false)
    × (milli_float.lt c b ≡ false)
calculate_percentiles-ordered_example =
    calculate_percentiles-ordered Milli-IsIndexing Milli-IsOrdered hub (omega arith) (omega arith)
      (refl, (refl, (refl, tt)))

abbrev ops : List (Operation Milli)
ops =
    recorded (pos 7) (pos 7100) (ms 30) false (pos 1)
    ∷ averaged
    ∷ recorded (pos 8) (pos 8200) (ms 10) true (pos 2)
    ∷ resized (pos 2)
    ∷ []

run-new_hub_example :
    (h : HubStats Milli) × (run ops new_hub ≡ ok h)
    × (h.rtt_buffer ≡ ms 30 ∷ ms 10 ∷ [])
    × (h.stats.total_requests ≡ pos 2)
    × (h.stats.error_count ≡ pos 1)
run-new_hub_example = run-new_hub Milli-IsIndexing ops (omega arith)

abbrev call : Call Milli
call = record { now_ms = pos 7100; rtt = ms 30; is_error = false; vu = pos 1 }

record_event-rate_example :
    (record_all
      (pos 8)
      (call ∷ [])
      (record_all (pos 7) (call ∷ call ∷ []) new_hub)).stats.requests_per_sec
    ≡ ms 2
unfolding ◌*ℤ◌ new_hub
record_event-rate_example =
    record_event-rate (pos 7) (pos 8) call (call ∷ []) call new_hub refl refl (omega arith)
