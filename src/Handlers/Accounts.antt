-- ===== src/Handlers/Accounts.antt =====
-- Sequences of requests to the ingest handlers of sidecar-go/handlers/handlers.go.
use mathlib.Core.Path.{subst, subst₂}
use mathlib.Core.List.{append-nil, append_assoc}
use duckdb_load_testing_tool.Prelude.{
  ℕ, suc, ◌+◌, ◌≤◌, ◌<◌, ◌^◌, ◌≡◌, refl, sym, ap, ◌∙◌, String, List, [], ◌∷◌, ◌++◌, some, arith,
  length, length-append, if◌then◌else◌,
}
use duckdb_load_testing_tool.Prelude.Int.{pos}
use duckdb_load_testing_tool.Prelude.Result.{Result, ok, err}
use duckdb_load_testing_tool.Float.{Float64}
use duckdb_load_testing_tool.Event.{Event, is_error}
use duckdb_load_testing_tool.Realtime.Stats.{HubStats, Message, new_hub, update_buffer_size}
use duckdb_load_testing_tool.Realtime.Stats.Window.{
  last_values, Follows, Follows-record_event, Follows-new_hub, Follows-update_buffer_size,
}
use duckdb_load_testing_tool.Handlers.{Store, IsBuffering, Handlers}
use duckdb_load_testing_tool.Handlers.Ingest.{
  Clock, counts_as_error, record_of, record_each, handle_ingest, handle_ingest_batch,
}

-- A request to one of the two ingest endpoints, with its decoded body.
pub data Request (F : Type 0) : Type 0 where
  single : Clock → Result (Event F) → Request F
  batch : (ℕ → Clock) → Result (List (Event F)) → Request F

abbrev pub accepted_of : {F : Type 0} → Request F → List (Event F)
accepted_of (single t (ok ev)) = ev ∷ []
accepted_of (single t (err e)) = []
accepted_of (batch clock (ok evs)) = evs
accepted_of (batch clock (err e)) = []

-- The events of all requests that decode.
abbrev pub accepted : {F : Type 0} → List (Request F) → List (Event F)
accepted [] = []
accepted (r ∷ rest) = accepted_of r ++ accepted rest

abbrev pub rtts : {F : Type 0} → List (Event F) → List F
rtts [] = []
rtts (ev ∷ rest) = ev.rtt ∷ rtts rest

-- How many events `IsError` finds.
abbrev pub errors_in : {F : Type 0} → List (Event F) → ℕ
errors_in [] = 0
errors_in (ev ∷ rest) = let n = errors_in rest in if is_error ev then suc n else n

pub length-rtts : {F : Type 0} → (evs : List (Event F)) → length (rtts evs) ≡ length evs
length-rtts [] = refl
length-rtts (ev ∷ rest) = omega (arith, length-rtts rest)

rtts-append : {F : Type 0} → (xs ys : List (Event F)) → rtts (xs ++ ys) ≡ rtts xs ++ rtts ys
rtts-append [] ys = refl
rtts-append (x ∷ xs) ys = ap (λ r. x.rtt ∷ r) (rtts-append xs ys)

errors-append :
    {F : Type 0} → (xs ys : List (Event F)) → errors_in (xs ++ ys) ≡ errors_in xs + errors_in ys
errors-append [] ys = omega arith
errors-append (x ∷ xs) ys = ground (arith, errors-append xs ys)

errors-le : {F : Type 0} → (xs : List (Event F)) → errors_in xs ≤ length xs
errors-le [] = omega arith
errors-le (x ∷ xs) = ground (arith, errors-le xs)

-- The two tests for an error are the same.
counts_as_error-is_error : {F : Type 0} → (ev : Event F) → counts_as_error ev ≡ is_error ev
unfolding is_error
counts_as_error-is_error ev = ground arith

module _ {F : Type 0} ⦃d : Float64 F⦄ where
  -- The statistics of these events, and of no other.
  abbrev pub Accounts : HubStats F → List (Event F) → Type 0
  Accounts hub evs = Follows hub (rtts evs) (errors_in evs)

  pub Accounts-record_of :
      (t : Clock) (ev : Event F) (hub : HubStats F) (evs : List (Event F))
      → Accounts hub evs
      → length evs + 1 < 2 ^ 63
      → Accounts (record_of t ev hub) (evs ++ ev ∷ [])
  Accounts-record_of t ev hub evs a small =
      let counted : (if counts_as_error ev then suc (errors_in evs) else errors_in evs)
          ≡ errors_in (evs ++ ev ∷ []) =
        ground (arith, errors-append evs (ev ∷ []), counts_as_error-is_error ev) in
      subst₂ (Follows (record_of t ev hub)) (sym (rtts-append evs (ev ∷ []))) counted (
        Follows-record_event t.now t.now_ms ev.rtt (counts_as_error ev) ev.vu hub (rtts evs)
          (errors_in evs) a (omega (arith, length-rtts evs))
          (omega (arith, length-rtts evs, errors-le evs)))

  pub Accounts-record_each :
      (clock : ℕ → Clock) (new : List (Event F)) (hub : HubStats F) (evs : List (Event F))
      → Accounts hub evs
      → length evs + length new < 2 ^ 63
      → Accounts (record_each clock new hub) (evs ++ new)
  unfolding record_each
  Accounts-record_each clock [] hub evs a small = subst (Accounts hub) (sym (append-nil evs)) a
  Accounts-record_each clock (ev ∷ rest) hub evs a small =
      let size = length-append evs (ev ∷ []) in
      subst (Accounts (record_each (λ n. clock (suc n)) rest (record_of (clock 0) ev hub)))
        (append_assoc evs (ev ∷ []) rest)
        (Accounts-record_each (λ n. clock (suc n)) rest (record_of (clock 0) ev hub)
          (evs ++ ev ∷ []) (Accounts-record_of (clock 0) ev hub evs a (omega arith)) (omega arith))

module _ {S F : Type 0} ⦃d : Float64 F⦄ (store : Store S F)
    (marshal : Message (Event F) → Result String) where
  unfoldable pub handle : Request F → Handlers S F → Handlers S F
  handle (single t r) h = (handle_ingest store marshal t r h).0
  handle (batch clock r) h = (handle_ingest_batch store clock r h).0

  unfoldable pub handle_all : List (Request F) → Handlers S F → Handlers S F
  handle_all [] h = h
  handle_all (r ∷ rest) h = handle_all rest (handle r h)

module _ {S F : Type 0} ⦃d : Float64 F⦄ (store : Store S F) (buffer_of : S → List (Event F))
    (marshal : Message (Event F) → Result String) where
  -- What was accepted is in the hub's statistics and at the end of the store's buffer.
  record Kept (before : List (Event F)) (evs : List (Event F)) (h : Handlers S F) : Type 0 where
    hub : HubStats F
    there : h.hub ≡ some hub
    accounts : Accounts hub evs
    stored : buffer_of h.storage ≡ before ++ evs

  module _ (buffering : IsBuffering store buffer_of) where
    Kept-single :
        (before evs : List (Event F)) (t : Clock) (ev : Event F) (h : Handlers S F)
        → Kept before evs h
        → length evs + 1 < 2 ^ 63
        → Kept before (evs ++ ev ∷ []) (handle store marshal (single t (ok ev)) h)
    unfolding handle handle_ingest
    Kept-single before evs t ev h k small = rw k.there (record {
      hub = record_of t ev k.hub;
      there = refl;
      accounts = Accounts-record_of t ev k.hub evs k.accounts small;
      stored =
          buffering.buffered ev h.storage
          ∙ ap (λ b. b ++ ev ∷ []) k.stored
          ∙ append_assoc before evs (ev ∷ []);
    })

    Kept-batch :
        (before evs : List (Event F)) (clock : ℕ → Clock) (new : List (Event F)) (h : Handlers S F)
        → Kept before evs h
        → length evs + length new < 2 ^ 63
        → Kept before (evs ++ new) (handle store marshal (batch clock (ok new)) h)
    unfolding handle handle_ingest_batch
    Kept-batch before evs clock [] h k small = subst (λ l. Kept before l h) (sym (append-nil evs)) k
    Kept-batch before evs clock (ev ∷ rest) h k small =
        let new = ev ∷ rest in
        let storage = store.add_events new h.storage in
        rw k.there (record {
          hub = update_buffer_size (pos (store.buffer_size storage)) (record_each clock new k.hub);
          there = refl;
          accounts =
              Follows-update_buffer_size (pos (store.buffer_size storage))
                (record_each clock new k.hub) (rtts (evs ++ new)) (errors_in (evs ++ new))
                (Accounts-record_each clock new k.hub evs k.accounts small);
          stored =
              buffering.buffered_all new h.storage
              ∙ ap (λ b. b ++ new) k.stored
              ∙ append_assoc before evs new;
        })

    Kept-handle :
        (before evs : List (Event F)) (r : Request F) (h : Handlers S F)
        → Kept before evs h
        → length evs + length (accepted_of r) < 2 ^ 63
        → Kept before (evs ++ accepted_of r) (handle store marshal r h)
    Kept-handle before evs (single t (ok ev)) h k small = Kept-single before evs t ev h k small
    Kept-handle before evs (single t (err e)) h k small =
        unfold handle handle_ingest in subst (λ l. Kept before l h) (sym (append-nil evs)) k
    Kept-handle before evs (batch clock (ok new)) h k small =
        Kept-batch before evs clock new h k small
    Kept-handle before evs (batch clock (err e)) h k small =
        unfold handle handle_ingest_batch in subst (λ l. Kept before l h) (sym (append-nil evs)) k

    Kept-handle_all :
        (before evs : List (Event F)) (rs : List (Request F)) (h : Handlers S F)
        → Kept before evs h
        → length evs + length (accepted rs) < 2 ^ 63
        → Kept before (evs ++ accepted rs) (handle_all store marshal rs h)
    unfolding handle_all
    Kept-handle_all before evs [] h k small = subst (λ l. Kept before l h) (sym (append-nil evs)) k
    Kept-handle_all before evs (r ∷ rest) h k small =
        let size = length-append (accepted_of r) (accepted rest) in
        let size' = length-append evs (accepted_of r) in
        let k' = Kept-handle before evs r h k (omega arith) in
        subst (λ l. Kept before l (handle_all store marshal rest (handle store marshal r h)))
          (append_assoc evs (accepted_of r) (accepted rest))
          (Kept-handle_all before (evs ++ accepted_of r) rest (handle store marshal r h) k'
            (omega arith))

    -- For a store that buffers what is added, handlers whose hub is new, and any sequence of requests
    -- to the two ingest endpoints, decoded or not, with fewer than 2^63 events in all: afterwards the
    -- store's buffer has gained the events of the requests that decode, in order, and the hub has
    -- TotalRequests equal to their number, ErrorCount equal to the number of those that `IsError`
    -- finds, and the last 1000 of their RTTs in its RTT buffer.
    pub handle_all-accounts :
        (rs : List (Request F)) (h : Handlers S F)
        → h.hub ≡ some new_hub
        → length (accepted rs) < 2 ^ 63
        → (hub : HubStats F) × ((handle_all store marshal rs h).hub ≡ some hub)
          × (buffer_of (handle_all store marshal rs h).storage ≡ buffer_of h.storage ++ accepted rs)
          × (hub.stats.total_requests ≡ pos (length (accepted rs)))
          × (hub.stats.error_count ≡ pos (errors_in (accepted rs)))
          × (hub.rtt_buffer ≡ last_values 1000 (rtts (accepted rs)))
    handle_all-accounts rs h fresh small =
        let start : Kept (buffer_of h.storage) [] h = record {
          hub = new_hub;
          there = fresh;
          accounts = Follows-new_hub;
          stored = sym (append-nil (buffer_of h.storage));
        } in
        let k = Kept-handle_all (buffer_of h.storage) [] rs h start (omega arith) in
        (
          k.hub,
          k.there,
          k.stored,
          k.accounts.total ∙ ap pos (length-rtts (accepted rs)),
          k.accounts.failed,
          k.accounts.buffer,
        )
