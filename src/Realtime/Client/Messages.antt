-- ===== src/Realtime/Client/Messages.antt =====
-- Where the messages of a client are, over the steps of WritePump: sidecar-go/realtime/client.go.
use Prim.Native.String.{◌++◌ as append}
use mathlib.Core.Path.{subst}
use mathlib.Core.List.{append-nil, append_assoc}
use text.Mathlib.TextLemmas.{nil-append, cons-append, append-nil as text_append-nil}
use duckdb_load_testing_tool.Prelude.{
  String, ◌≡◌, refl, sym, ap, ◌∙◌, Bool, true, false, List, [], ◌∷◌, ◌++◌, All, arith, All-append,
}
use duckdb_load_testing_tool.Prelude.Result.{Result, ok, err, guard-ok, bind-ok}
use duckdb_load_testing_tool.Queries.Text.{split}
use duckdb_load_testing_tool.Queries.Splitting.{lacks, split-append, split_of_lacks}
use duckdb_load_testing_tool.Realtime.Client.{
  Frame, text_frame, close_frame, ping_frame, Stage, waiting, writing, returned, Pump, PumpStep,
  sent, closing, taken, flushed, ticked, queued, take_at, flush_at, tick_at, pump_step, write_pump,
}

-- The messages that the client reads: the lines of each text.
abbrev pub delivered : List Frame → List String
delivered [] = []
delivered (text_frame t ∷ fs) = split b'\n' t ++ delivered fs
delivered (close_frame ∷ fs) = delivered fs
delivered (ping_frame ∷ fs) = delivered fs

-- The messages that the hub sends.
abbrev pub sent_in : List PumpStep → List String
sent_in [] = []
sent_in (sent m ∷ rest) = m ∷ sent_in rest
sent_in (closing ∷ rest) = sent_in rest
sent_in (taken a ∷ rest) = sent_in rest
sent_in (flushed a ∷ rest) = sent_in rest
sent_in (ticked a ∷ rest) = sent_in rest

-- A message without a line end, as json.Marshal writes it.
abbrev pub IsOneLine : String → Type 0
IsOneLine m = lacks b'\n' m ≡ true

pub delivered-append : (fs gs : List Frame) → delivered (fs ++ gs) ≡ delivered fs ++ delivered gs
delivered-append [] gs = refl
delivered-append (text_frame t ∷ fs) gs =
    rw (delivered-append fs gs) (sym (append_assoc (split b'\n' t) (delivered fs) (delivered gs)))
delivered-append (close_frame ∷ fs) gs = delivered-append fs gs
delivered-append (ping_frame ∷ fs) gs = delivered-append fs gs

pub split-queued :
    (m : String) (ks : List String)
    → All IsOneLine (m ∷ ks)
    → split b'\n' (append m (queued ks)) ≡ m ∷ ks
unfolding queued
split-queued m [] (l, ls) = rw (text_append-nil m) (split_of_lacks b'\n' m l)
split-queued m (k ∷ ks) (l, ls) =
    rw
      (
        cons-append "\n" "" (append k (queued ks)),
        nil-append (append k (queued ks)),
        split-append b'\n' "\n" m (append k (queued ks)) refl,
        split_of_lacks b'\n' m l,
        split-queued k ks ls,
      )
      refl

-- What the pump holds outside its channel.
abbrev pub in_hand : Stage → List String
in_hand waiting = []
in_hand (writing m) = m ∷ []
in_hand returned = []

abbrev pub has_returned : Stage → Bool
has_returned waiting = false
has_returned (writing m) = false
has_returned returned = true

-- Each message sent is delivered, lost by an error of the socket, in hand, or in the channel.
pub record Accounts (s : Pump) (all_sent : List String) : Type 0 where
  pub lost : List String
  pub account : delivered s.frames ++ (lost ++ (in_hand s.stage ++ s.queue)) ≡ all_sent
  pub lines : All IsOneLine (in_hand s.stage ++ s.queue)
  pub loses : has_returned s.stage ≡ false → lost ≡ []

-- The invariant over the fields of the pump.
abbrev pub pump_of : List String → Bool → List Frame → Stage → Pump
pump_of q c fs st = record { queue = q; closed = c; frames = fs; stage = st }

pub without_loss :
    (lost rest : List String) (fs : List Frame) (d : List String)
    → lost ≡ []
    → delivered fs ++ (lost ++ rest) ≡ d
    → delivered fs ++ rest ≡ d
without_loss lost rest fs d none_lost h = sym (ap (λ l. delivered fs ++ (l ++ rest)) none_lost) ∙ h

Accounts-close :
    (a : Result (Unit {0})) (c : Bool) (fs : List Frame) (d : List String)
    → Accounts (pump_of [] c fs waiting) d
    → Accounts (take_at waiting a (pump_of [] c fs waiting)) d
Accounts-close a false fs d h = h
Accounts-close (err e) true fs d h = record {
  lost = h.lost;
  account = h.account;
  lines = tt;
  loses = λ f. ground arith;
}
Accounts-close (ok u) true fs d h = record {
  lost = h.lost;
  account = rw (delivered-append fs (close_frame ∷ []), append-nil (delivered fs)) h.account;
  lines = tt;
  loses = λ f. ground arith;
}

Accounts-take :
    (st : Stage) (a : Result (Unit {0})) (q : List String) (c : Bool) (fs : List Frame)
    (d : List String)
    → Accounts (pump_of q c fs st) d
    → Accounts (take_at st a (pump_of q c fs st)) d
Accounts-take waiting a [] c fs d h = Accounts-close a c fs d h
Accounts-take waiting (err e) (m ∷ rest) c fs d h = record {
  lost = m ∷ [];
  account = without_loss h.lost (m ∷ rest) fs d (h.loses refl) h.account;
  lines = h.lines.1;
  loses = λ f. ground arith;
}
Accounts-take waiting (ok u) (m ∷ rest) c fs d h = record {
  lost = h.lost;
  account = h.account;
  lines = h.lines;
  loses = λ f. h.loses refl;
}
Accounts-take (writing m) a q c fs d h = h
Accounts-take returned a q c fs d h = h

Accounts-flush :
    (st : Stage) (a : Result (Unit {0})) (q : List String) (c : Bool) (fs : List Frame)
    (d : List String)
    → Accounts (pump_of q c fs st) d
    → Accounts (flush_at st a (pump_of q c fs st)) d
Accounts-flush waiting a q c fs d h = h
Accounts-flush (writing m) (err e) q c fs d h = record {
  lost = m ∷ q;
  account = rw (append-nil q) (without_loss h.lost (m ∷ q) fs d (h.loses refl) h.account);
  lines = tt;
  loses = λ f. ground arith;
}
Accounts-flush (writing m) (ok u) q c fs d h = record {
  lost = [];
  account =
      rw
        (
          delivered-append fs (text_frame (append m (queued q)) ∷ []),
          split-queued m q h.lines,
          append-nil q,
          append-nil (delivered fs ++ m ∷ q),
        )
        (without_loss h.lost (m ∷ q) fs d (h.loses refl) h.account);
  lines = tt;
  loses = λ f. refl;
}
Accounts-flush returned a q c fs d h = h

Accounts-tick :
    (st : Stage) (a : Result (Unit {0})) (q : List String) (c : Bool) (fs : List Frame)
    (d : List String)
    → Accounts (pump_of q c fs st) d
    → Accounts (tick_at st a (pump_of q c fs st)) d
Accounts-tick waiting (err e) q c fs d h = record {
  lost = h.lost;
  account = h.account;
  lines = h.lines;
  loses = λ f. ground arith;
}
Accounts-tick waiting (ok u) q c fs d h = record {
  lost = h.lost;
  account = rw (delivered-append fs (ping_frame ∷ []), append-nil (delivered fs)) h.account;
  lines = h.lines;
  loses = h.loses;
}
Accounts-tick (writing m) a q c fs d h = h
Accounts-tick returned a q c fs d h = h

-- A message that the hub sends stands behind all others.
sent_last :
    (fs lost hand q all_sent : List String) (m : String)
    → fs ++ (lost ++ (hand ++ q)) ≡ all_sent
    → fs ++ (lost ++ (hand ++ (q ++ m ∷ []))) ≡ all_sent ++ m ∷ []
sent_last fs lost hand q all_sent m h =
    sym (
      append_assoc fs (lost ++ (hand ++ q)) (m ∷ [])
      ∙ ap (λ x. fs ++ x)
          (append_assoc lost (hand ++ q) (m ∷ [])
            ∙ ap (λ x. lost ++ x) (append_assoc hand q (m ∷ []))))
    ∙ ap (λ x. x ++ m ∷ []) h

Accounts-send :
    (s : Pump) (m : String) (d : List String)
    → IsOneLine m
    → Accounts s d
    → Accounts (record s { queue = s.queue ++ m ∷ [] }) (d ++ m ∷ [])
Accounts-send s m d l h = record {
  lost = h.lost;
  account = sent_last (delivered s.frames) h.lost (in_hand s.stage) s.queue d m h.account;
  lines =
      subst (All IsOneLine) (append_assoc (in_hand s.stage) s.queue (m ∷ []))
        (All-append IsOneLine (in_hand s.stage ++ s.queue) (m ∷ []) h.lines (l, tt));
  loses = h.loses;
}

Accounts-moved :
    (x s' : Pump) (d : List String) → ok x ≡ ok s' → Accounts x d → Accounts s' (d ++ [])
Accounts-moved x s' d r h =
    let e : x ≡ s' = cc in
    subst (λ c. Accounts s' c) (sym (append-nil d)) (subst (λ y. Accounts y d) e h)

Accounts-pump_step :
    (e : PumpStep) (s s' : Pump) (d : List String)
    → All IsOneLine (sent_in (e ∷ []))
    → pump_step e s ≡ ok s'
    → Accounts s d
    → Accounts s' (d ++ sent_in (e ∷ []))
unfolding pump_step
Accounts-pump_step (sent m) s s' d ls r h =
    let (still_open, e) = guard-ok s.closed _ _ s' r in
    subst (λ y. Accounts y (d ++ m ∷ [])) e (Accounts-send s m d ls.0 h)
Accounts-pump_step closing s s' d ls r h =
    let (still_open, e) = guard-ok s.closed _ _ s' r in
    Accounts-moved (record s { closed = true }) s' d (ap ok e)
      (record { lost = h.lost; account = h.account; lines = h.lines; loses = h.loses })
Accounts-pump_step (taken a) s s' d ls r h =
    Accounts-moved (take_at s.stage a s) s' d r
      (Accounts-take s.stage a s.queue s.closed s.frames d h)
Accounts-pump_step (flushed a) s s' d ls r h =
    Accounts-moved (flush_at s.stage a s) s' d r
      (Accounts-flush s.stage a s.queue s.closed s.frames d h)
Accounts-pump_step (ticked a) s s' d ls r h =
    Accounts-moved (tick_at s.stage a s) s' d r
      (Accounts-tick s.stage a s.queue s.closed s.frames d h)

sent_in-cons :
    (e : PumpStep) (es : List PumpStep) → sent_in (e ∷ es) ≡ sent_in (e ∷ []) ++ sent_in es
sent_in-cons (sent m) es = refl
sent_in-cons closing es = refl
sent_in-cons (taken a) es = refl
sent_in-cons (flushed a) es = refl
sent_in-cons (ticked a) es = refl

All-cons :
    (e : PumpStep) (es : List PumpStep)
    → All IsOneLine (sent_in (e ∷ es))
    → All IsOneLine (sent_in (e ∷ [])) × All IsOneLine (sent_in es)
All-cons (sent m) es (l, ls) = ((l, tt), ls)
All-cons closing es ls = (tt, ls)
All-cons (taken a) es ls = (tt, ls)
All-cons (flushed a) es ls = (tt, ls)
All-cons (ticked a) es ls = (tt, ls)

pub Accounts-write_pump :
    (es : List PumpStep) (s s' : Pump) (d : List String)
    → All IsOneLine (sent_in es)
    → write_pump es s ≡ ok s'
    → Accounts s d
    → Accounts s' (d ++ sent_in es)
unfolding write_pump
Accounts-write_pump [] s s' d ls r h = Accounts-moved s s' d r h
Accounts-write_pump (e ∷ es) s s' d ls r h =
    let (s1, r1, r2) = bind-ok (pump_step e s) (write_pump es) s' r in
    let (l, ls1) = All-cons e es ls in
    subst (Accounts s')
      (append_assoc d (sent_in (e ∷ [])) (sent_in es) ∙ ap (λ x. d ++ x) (sym (sent_in-cons e es)))
      (Accounts-write_pump es s1 s' (d ++ sent_in (e ∷ [])) ls1 r2
        (Accounts-pump_step e s s1 d l r1 h))
