-- ===== src/Realtime/Client.antt =====
-- The goroutines of a WebSocket client: sidecar-go/realtime/client.go. What the socket answers, and
-- what the hub does with the channel of the client meanwhile, is a list of steps in any order.
pub mod Messages
pub mod Drained
use Prim.Native.String.{◌++◌ as append}
use duckdb_load_testing_tool.Prelude.{
  ℕ, String, Bool, true, false, List, [], ◌∷◌, ◌++◌, if◌then◌else◌,
}
use duckdb_load_testing_tool.Prelude.Result.{Result, ok, err, Error, message, ◌>>=◌}
use duckdb_load_testing_tool.Realtime.Hub.{Step, registered, unregistered}

-- What goes out on the socket.
pub data Frame : Type 0 where
  text_frame : String → Frame
  close_frame : Frame
  ping_frame : Frame

-- Where `WritePump` is: at the `select`, between the writer of a message and the look at the queue, or
-- behind its loop.
pub data Stage : Type 0 where
  waiting : Stage
  writing : String → Stage
  returned : Stage

-- `queue` and `closed` are the channel `send`.
pub record Pump : Type 0 where
  pub queue : List String
  pub closed : Bool
  pub frames : List Frame
  pub stage : Stage

-- NewClient, with its channel only
abbrev pub new_client : Pump
new_client = record { queue = []; closed = false; frames = []; stage = waiting }

-- The hub sends a message or closes the channel; the pump takes the case of a message, with the answer
-- of NextWriter or WriteMessage; it writes the queue, with the answer of Close; it takes the ticker's
-- case, with the answer of WriteMessage.
pub data PumpStep : Type 0 where
  sent : String → PumpStep
  closing : PumpStep
  taken : Result (Unit {0}) → PumpStep
  flushed : Result (Unit {0}) → PumpStep
  ticked : Result (Unit {0}) → PumpStep

-- c.send <- m, in the hub
abbrev pub send_message : String → Pump → Result Pump
send_message m s =
    if s.closed
    then err (message "send on closed channel")
    else ok (record s { queue = s.queue ++ m ∷ [] })

-- close(c.send), in the hub
abbrev pub close_channel : Pump → Result Pump
close_channel s =
    if s.closed then err (message "close of closed channel") else ok (record s { closed = true })

-- `if err != nil { return }` behind NextWriter
abbrev pub open_writer : Result (Unit {0}) → String → Pump → Pump
open_writer (err e) m s = record s { stage = returned }
open_writer (ok u) m s = record s { stage = writing m }

-- `if !ok { … return }`, where the error of WriteMessage is dropped
abbrev pub say_close : Result (Unit {0}) → Pump → Pump
say_close (err e) s = record s { stage = returned }
say_close (ok u) s = record s { frames = s.frames ++ close_frame ∷ []; stage = returned }

-- `case message, ok := <-c.send`: an empty channel that is open has nothing to take.
abbrev pub receive : Result (Unit {0}) → List String → Pump → Pump
receive a [] s = if s.closed then say_close a s else s
receive a (m ∷ rest) s = open_writer a m (record s { queue = rest })

-- The loop `for i := 0; i < n; i++` over what waits.
unfoldable pub queued : List String → String
queued [] = ""
queued (k ∷ ks) = append "\n" (append k (queued ks))

-- The writes of one message of the socket, up to the answer of `w.Close()`.
abbrev pub write_queued : Result (Unit {0}) → String → Pump → Pump
write_queued (err e) m s = record s { queue = []; stage = returned }
write_queued (ok u) m s = record s {
  queue = [];
  frames = s.frames ++ text_frame (append m (queued s.queue)) ∷ [];
  stage = waiting;
}

-- `case <-ticker.C`
abbrev pub say_ping : Result (Unit {0}) → Pump → Pump
say_ping (err e) s = record s { stage = returned }
say_ping (ok u) s = record s { frames = s.frames ++ ping_frame ∷ [] }

-- The pump's own steps happen only where the pump is at them.
abbrev pub take_at : Stage → Result (Unit {0}) → Pump → Pump
take_at waiting a s = receive a s.queue s
take_at (writing m) a s = s
take_at returned a s = s

abbrev pub flush_at : Stage → Result (Unit {0}) → Pump → Pump
flush_at waiting a s = s
flush_at (writing m) a s = write_queued a m s
flush_at returned a s = s

abbrev pub tick_at : Stage → Result (Unit {0}) → Pump → Pump
tick_at waiting a s = say_ping a s
tick_at (writing m) a s = s
tick_at returned a s = s

unfoldable pub pump_step : PumpStep → Pump → Result Pump
pump_step (sent m) s = send_message m s
pump_step closing s = close_channel s
pump_step (taken a) s = ok (take_at s.stage a s)
pump_step (flushed a) s = ok (flush_at s.stage a s)
pump_step (ticked a) s = ok (tick_at s.stage a s)

-- WritePump, and what the hub does with the channel meanwhile.
unfoldable pub write_pump : List PumpStep → Pump → Result Pump
unfolding pump_step
write_pump [] s = ok s
write_pump (e ∷ rest) s = pump_step e s >>= write_pump rest

-- ReadPump, from what ReadMessage answers to what it sends to the hub. Without an error it reads on.
unfoldable pub read_pump : ℕ → List (Result String) → List Step
read_pump c [] = []
read_pump c (ok m ∷ rest) = read_pump c rest
read_pump c (err e ∷ rest) = unregistered c ∷ []

-- ServeWs, with the answer of the upgrade
unfoldable pub serve_ws : ℕ → Result (Unit {0}) → List (Result String) → List Step
unfolding read_pump
serve_ws c (err e) reads = []
serve_ws c (ok u) reads = registered c ∷ read_pump c reads
