-- ===== src/Realtime/Client/Drained.antt =====
-- What WritePump puts on the socket: sidecar-go/realtime/client.go.
use Prim.Native.String.{◌++◌ as append}
use mathlib.Core.Path.{subst}
use mathlib.Core.List.{append-nil}
use duckdb_load_testing_tool.Prelude.{
  String, ◌≡◌, refl, sym, true, false, List, [], ◌∷◌, ◌++◌, All, arith,
}
use duckdb_load_testing_tool.Prelude.Result.{ok}
use duckdb_load_testing_tool.Realtime.Client.{
  Frame, text_frame, close_frame, Stage, waiting, writing, returned, Pump, new_client, PumpStep,
  taken, flushed, queued, pump_step, write_pump,
}
use duckdb_load_testing_tool.Realtime.Client.Messages.{
  delivered, sent_in, IsOneLine, delivered-append, split-queued, has_returned, Accounts, pump_of,
  without_loss, Accounts-write_pump,
}

-- The pump's rounds, each taken or not, once the channel is closed.
abbrev pub drain : List PumpStep
drain = flushed (ok tt) ∷ taken (ok tt) ∷ flushed (ok tt) ∷ taken (ok tt) ∷ []

-- All messages are delivered, the last frame is that of the close, and the pump has returned.
abbrev pub IsDrained : Pump → List String → Type 0
IsDrained s all_sent =
    (s.stage ≡ returned)
    × (delivered s.frames ≡ all_sent)
    × ((before : List Frame) × (s.frames ≡ before ++ close_frame ∷ []))

delivered-queued :
    (m : String) (q : List String) (fs : List Frame) (d : List String)
    → All IsOneLine (m ∷ q)
    → delivered fs ++ m ∷ q ≡ d
    → delivered ((fs ++ text_frame (append m (queued q)) ∷ []) ++ close_frame ∷ []) ≡ d
delivered-queued m q fs d ls h =
    rw
      (
        delivered-append (fs ++ text_frame (append m (queued q)) ∷ []) (close_frame ∷ []),
        append-nil (delivered (fs ++ text_frame (append m (queued q)) ∷ [])),
        delivered-append fs (text_frame (append m (queued q)) ∷ []),
        split-queued m q ls,
        append-nil q,
      )
      h

IsDrained-queued :
    (m : String) (q : List String) (fs : List Frame) (d : List String)
    → Accounts (pump_of (m ∷ q) true fs waiting) d
    → IsDrained
        (pump_of [] true
          ((fs ++ text_frame (append m (queued q)) ∷ []) ++ close_frame ∷ [])
          returned)
        d
IsDrained-queued m q fs d h =
    let all_there = without_loss h.lost (m ∷ q) fs d (h.loses refl) h.account in
    (refl, delivered-queued m q fs d h.lines all_there, (_, refl))

drain-IsDrained :
    (st : Stage) (q : List String) (fs : List Frame) (d : List String)
    → has_returned st ≡ false
    → Accounts (pump_of q true fs st) d
    → (s' : Pump) × (write_pump drain (pump_of q true fs st) ≡ ok s') × IsDrained s' d
unfolding write_pump pump_step
drain-IsDrained waiting [] fs d n h =
    let all_there : delivered (fs ++ close_frame ∷ []) ≡ d =
      rw (delivered-append fs (close_frame ∷ []))
        (without_loss h.lost [] fs d (h.loses refl) h.account) in
    (_, refl, (refl, all_there, (fs, refl)))
drain-IsDrained waiting (m ∷ q) fs d n h = (_, refl, IsDrained-queued m q fs d h)
drain-IsDrained (writing m) q fs d n h = (
  _,
  refl,
  IsDrained-queued m q fs d
      (record { lost = h.lost; account = h.account; lines = h.lines; loses = λ f. h.loses refl }),
)
drain-IsDrained returned q fs d n h = ground arith

-- While the messages hold no line end, all that the hub has sent to a client that WritePump still
-- serves reaches the socket once the channel is closed: from every state that the steps lead to, four
-- more rounds of the pump with a socket that works make the lines of the texts on the socket just the
-- messages sent, in their order, put a close frame behind them, and let WritePump return.
pub write_pump-drain :
    (es : List PumpStep) (s : Pump)
    → All IsOneLine (sent_in es)
    → write_pump es new_client ≡ ok s
    → s.closed ≡ true
    → has_returned s.stage ≡ false
    → (s' : Pump) × (write_pump drain s ≡ ok s') × IsDrained s' (sent_in es)
write_pump-drain es s ls r shut n =
    let h : Accounts s (sent_in es) =
      Accounts-write_pump es new_client s [] ls r
        (record { lost = []; account = refl; lines = tt; loses = λ f. refl }) in
    subst
      (λ c.
        Accounts (pump_of s.queue c s.frames s.stage) (sent_in es)
        → (s' : Pump) × (write_pump drain (pump_of s.queue c s.frames s.stage) ≡ ok s')
          × IsDrained s' (sent_in es))
      (sym shut) (drain-IsDrained s.stage s.queue s.frames (sent_in es) n) h
