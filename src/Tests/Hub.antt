-- ===== src/Tests/Hub.antt =====
-- The clients of the hub over a few steps.
use duckdb_load_testing_tool.Prelude.{ℕ, ◌≡◌, refl, true, not, ◌&&◌, List, [], ◌∷◌, ◌++◌}
use duckdb_load_testing_tool.Prelude.Result.{ok}
use duckdb_load_testing_tool.Realtime.Hub.{
  Clients, Step, registered, unregistered, broadcast, written, no_clients, run, member,
  handle_broadcast,
}
use duckdb_load_testing_tool.Realtime.Client.{
  text_frame, ping_frame, waiting, Pump, PumpStep, sent, closing, taken, flushed, ticked,
  write_pump, queued,
}
use duckdb_load_testing_tool.Realtime.Client.Drained.{drain, IsDrained, write_pump-drain}
use duckdb_load_testing_tool.Realtime.Hub.Panics.{run-closed}
use duckdb_load_testing_tool.Realtime.Hub.Delivery.{received, full_of, run-received}

-- Client 1 leaves, and is unregistered once more.
abbrev steps : List Step
steps =
    registered 1
    ∷ broadcast "a"
    ∷ registered 2
    ∷ unregistered 1
    ∷ unregistered 1
    ∷ broadcast "b"
    ∷ written 2
    ∷ []

run-closed_example :
    (s : Clients) × (run steps no_clients ≡ ok s)
    × ((c : ℕ) → s.closed c ≡ (member c (1 ∷ 2 ∷ []) && not (member c s.clients)))
run-closed_example = run-closed steps (refl, (refl, tt))

run-received_example :
    (s : Clients) × (s' : Clients) × (run steps no_clients ≡ ok s)
    × (handle_broadcast "c" s ≡ ok s')
    × ((k : ℕ) → s'.queue k ≡ received "c" (member k s.clients) (s.queue k))
    × (s'.dropping ≡ s.dropping ++ full_of s.queue s.clients)
run-received_example = run-received steps "c" (refl, (refl, tt))

-- Two messages go out in one text, and a third waits when the hub closes the channel.
abbrev pump_steps : List PumpStep
pump_steps =
    sent "a" ∷ taken (ok tt) ∷ sent "b" ∷ flushed (ok tt) ∷ ticked (ok tt) ∷ sent "c" ∷ closing ∷ []

write_pump-drain_example :
    (s : Pump) × (write_pump drain (record {
      queue = "c" ∷ [];
      closed = true;
      frames = text_frame "a\nb" ∷ ping_frame ∷ [];
      stage = waiting;
    })
      ≡ ok s)
    × IsDrained s ("a" ∷ "b" ∷ "c" ∷ [])
unfolding write_pump queued
write_pump-drain_example = write_pump-drain pump_steps _ (refl, (refl, (refl, tt))) refl refl refl
