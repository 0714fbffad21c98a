-- ===== src/Realtime/Stats.antt =====
-- The live statistics of the hub: `LiveStats`, `NewHub`, `RecordEvent`, `UpdateBufferSize`,
-- `calculatePercentiles`, `sendStats` and `GetStats` of sidecar-go/realtime/hub.go. The clock is an
-- argument, and `json.Marshal` is an argument of `send_stats`.
pub mod Window
pub mod Rate
pub mod Ordered
use duckdb_load_testing_tool.Prelude.{
  ℕ, zero, suc, ◌+◌, ◌-◌, ◌^◌, ◌<◌, ◌≡◌, arith, ◌==◌, String, Bool, true, false, not, if◌then◌else◌,
  ltb, length, drop, List, [], ◌∷◌, ◌++◌, Option, none, some,
}
use duckdb_load_testing_tool.Prelude.Int.{ℤ, pos, negsuc, eqb_ℤ, ltb_ℤ}
use duckdb_load_testing_tool.Prelude.Result.{Result, ok, err, ◌>>=◌}
use duckdb_load_testing_tool.Float.{Float64, nought}
use duckdb_load_testing_tool.Realtime.Sort.{sort_float64s, average, percentile}

pub record LiveStats (F : Type 0) : Type 0 where
  pub total_requests : ℤ
  pub requests_per_sec : F
  pub error_count : ℤ
  pub error_rate : F
  pub avg_rtt : F
  pub p50_rtt : F
  pub p95_rtt : F
  pub p99_rtt : F
  pub active_vus : ℤ
  pub buffer_size : ℤ
  pub last_event_time : ℤ

-- The fields of `Hub` below "Stats tracking". No code assigns `windowSize` after `NewHub`.
pub record HubStats (F : Type 0) : Type 0 where
  pub stats : LiveStats F
  pub rtt_buffer : List F
  pub window_size : ℕ
  pub last_second : ℤ
  pub req_count : ℤ

pub data MetricType : Type 0 where
  event stats heartbeat : MetricType

pub record Message (D : Type 0) : Type 0 where
  pub type : MetricType
  pub timestamp : ℤ
  pub data_ : D

-- `n++` on an int64
unfoldable pub incr64 : ℤ → ℤ
incr64 (pos n) = if suc n == 2 ^ 63 then negsuc (2 ^ 63 - 1) else pos (suc n)
incr64 (negsuc zero) = pos zero
incr64 (negsuc (suc n)) = negsuc n

pub incr64-pos : (n : ℕ) → suc n < 2 ^ 63 → incr64 (pos n) ≡ pos (suc n)
unfolding incr64
incr64-pos n h = ground arith

abbrev pub incr64_if : Bool → ℤ → ℤ
incr64_if true n = incr64 n
incr64_if false n = n

-- What json.Marshal gives: the bytes to broadcast, or nothing but a line in the log.
abbrev pub broadcast_of : Result String → Option String
broadcast_of (ok text) = some text
broadcast_of (err e) = none

abbrev pub is_empty : {A : Type 0} → List A → Bool
is_empty [] = true
is_empty (x ∷ xs) = false

module _ {F : Type 0} ⦃d : Float64 F⦄ where
  open d use {lit, mul, div, of_int}

  abbrev no_stats : LiveStats F
  no_stats = record {
    total_requests = pos 0;
    requests_per_sec = nought;
    error_count = pos 0;
    error_rate = nought;
    avg_rtt = nought;
    p50_rtt = nought;
    p95_rtt = nought;
    p99_rtt = nought;
    active_vus = pos 0;
    buffer_size = pos 0;
    last_event_time = pos 0;
  }

  -- NewHub
  unfoldable pub new_hub : HubStats F
  new_hub = record {
    stats = no_stats;
    rtt_buffer = [];
    window_size = 1000;
    last_second = pos 0;
    req_count = pos 0;
  }

  -- "Track requests per second": the test is `now != h.lastSecond`.
  abbrev pub track_second : Bool → ℤ → HubStats F → HubStats F
  track_second false now h = record h { req_count = incr64 h.req_count }
  track_second true now h = record h {
    stats = record (h.stats) { requests_per_sec = of_int h.req_count };
    req_count = pos 1;
    last_second = now;
  }

  -- "Add RTT to buffer"
  abbrev pub push_rtt : F → ℕ → List F → List F
  push_rtt rtt window buffer =
      let longer = buffer ++ rtt ∷ [] in
      if ltb window (length longer) then drop 1 longer else longer

  -- RecordEvent
  unfoldable pub record_event : ℤ → ℤ → F → Bool → ℤ → HubStats F → HubStats F
  unfolding incr64
  record_event now now_ms rtt is_error vu h =
      let counted = record (h.stats) {
        total_requests = incr64 h.stats.total_requests;
        error_count = incr64_if is_error h.stats.error_count;
        last_event_time = now_ms;
      } in
      let tracked =
        track_second (not (eqb_ℤ now h.last_second)) now (record h { stats = counted }) in
      record tracked { rtt_buffer = push_rtt rtt tracked.window_size tracked.rtt_buffer }

  -- UpdateBufferSize
  unfoldable pub update_buffer_size : ℤ → HubStats F → HubStats F
  update_buffer_size size h = record h { stats = record (h.stats) { buffer_size = size } }

  abbrev pub stored : List F → F → F → F → HubStats F → HubStats F
  stored values p50 p95 p99 h = record h {
    stats = record (h.stats) {
      avg_rtt = average values;
      p50_rtt = p50;
      p95_rtt = p95;
      p99_rtt = p99;
    };
  }

  abbrev store_percentiles : List F → HubStats F → Result (HubStats F)
  store_percentiles values h = do
    p50 ← percentile values (lit 50 2)
    p95 ← percentile values (lit 95 2)
    p99 ← percentile values (lit 99 2)
    ok (stored values p50 p95 p99 h)

  -- calculatePercentiles
  unfoldable pub calculate_percentiles : HubStats F → Result (HubStats F)
  calculate_percentiles h =
      if is_empty h.rtt_buffer then ok h else store_percentiles (sort_float64s h.rtt_buffer) h

  abbrev pub with_error_rate : LiveStats F → LiveStats F
  with_error_rate s =
      if ltb_ℤ (pos 0) s.total_requests
      then record s {
        error_rate = mul (div (of_int s.error_count) (of_int s.total_requests)) (lit 100 0);
      }
      else s

  abbrev stats_message : ℤ → LiveStats F → Message (LiveStats F)
  stats_message now_ms s = record {
    type = MetricType.stats;
    timestamp = now_ms;
    data_ = with_error_rate s;
  }

  -- sendStats, with what it sends to the channel `broadcast`
  unfoldable pub send_stats :
      (Message (LiveStats F) → Result String) → ℤ → HubStats F → Result (HubStats F × Option String)
  send_stats marshal now_ms h = do
    h' ← calculate_percentiles h
    ok (h', broadcast_of (marshal (stats_message now_ms h'.stats)))

  -- GetStats
  abbrev pub get_stats : HubStats F → LiveStats F
  get_stats h = h.stats
