-- ===== src/Realtime/Hub.antt =====
-- The clients of the hub: `NewClient` of sidecar-go/realtime/client.go, and `Run`, `Register`,
-- `Unregister` and `ClientCount` of sidecar-go/realtime/hub.go. A client is the number of its pointer;
-- what the loop of `Run` receives, and what `WritePump` takes, is a list of steps in any order.
pub mod Panics
pub mod Delivery
use duckdb_load_testing_tool.Prelude.{
  ℕ, zero, suc, ◌==◌, ltb, String, Bool, true, false, not, if◌then◌else◌, List, [], ◌∷◌, ◌++◌, any,
  keep, drop, length,
}
use duckdb_load_testing_tool.Prelude.Result.{Result, ok, err, Error, message, ◌>>=◌}

-- The capacity of the channel `send` of a client.
abbrev pub send_capacity : ℕ
send_capacity = 256

-- `clients` holds the keys of the map. `queue` is what waits in the channel of each client, and
-- `dropping` the clients for which a goroutine of the broadcast waits to unregister them.
pub record Clients : Type 0 where
  pub clients : List ℕ
  pub closed : ℕ → Bool
  pub queue : ℕ → List String
  pub dropping : List ℕ

abbrev pub member : ℕ → List ℕ → Bool
member c = any (λ k. k == c)

abbrev pub update : {A : Type 0} → ℕ → A → (ℕ → A) → ℕ → A
update c a f k = if k == c then a else f k

-- No client has connected.
abbrev pub no_clients : Clients
no_clients = record { clients = []; closed = λ c. false; queue = λ c. []; dropping = [] }

-- h.clients[client] = true
unfoldable pub handle_register : ℕ → Clients → Clients
handle_register c s = if member c s.clients then s else record s { clients = s.clients ++ c ∷ [] }

-- close(client.send)
abbrev pub close_send : ℕ → Clients → Result Clients
close_send c s =
    if s.closed c
    then err (message "close of closed channel")
    else ok (record s { closed = update c true s.closed })

unfoldable pub handle_unregister : ℕ → Clients → Result Clients
handle_unregister c s =
    if member c s.clients
    then close_send c (record s { clients = keep (λ k. not (k == c)) s.clients })
    else ok s

-- The inner `select`: a send on a closed channel panics, and a full one takes the default.
abbrev pub offer : String → ℕ → Clients → Clients
offer m c s =
    if ltb (length (s.queue c)) send_capacity
    then record s { queue = update c (s.queue c ++ m ∷ []) s.queue }
    else record s { dropping = s.dropping ++ c ∷ [] }

abbrev pub send_to : String → ℕ → Clients → Result Clients
send_to m c s = if s.closed c then err (message "send on closed channel") else ok (offer m c s)

unfoldable pub send_each : String → List ℕ → Clients → Result Clients
send_each m [] s = ok s
send_each m (c ∷ rest) s = send_to m c s >>= send_each m rest

unfoldable pub handle_broadcast : String → Clients → Result Clients
unfolding send_each
handle_broadcast m s = send_each m s.clients s

-- What the loop receives from its channels, and a receive of `WritePump` from the channel of a client.
pub data Step : Type 0 where
  registered : ℕ → Step
  unregistered : ℕ → Step
  broadcast : String → Step
  written : ℕ → Step

-- One round of `Run`, or of `WritePump`.
unfoldable pub step : Step → Clients → Result Clients
unfolding handle_register handle_unregister handle_broadcast
step (registered c) s = ok (handle_register c s)
step (unregistered c) s = handle_unregister c s
step (broadcast m) s = handle_broadcast m s
step (written c) s = ok (record s { queue = update c (drop 1 (s.queue c)) s.queue })

unfoldable pub run : List Step → Clients → Result Clients
unfolding step
run [] s = ok s
run (e ∷ rest) s = step e s >>= run rest

-- ClientCount
abbrev pub client_count : Clients → ℕ
client_count s = length s.clients
