-- ===== src/Realtime/Stats/Window.antt =====
-- The hub of sidecar-go/realtime/hub.go over a sequence of its operations.
use mathlib.Core.Path.{subst₂}
use mathlib.Core.List.{append-nil, append_assoc}
use native.Mathlib.Nat.{add-zero}
use duckdb_load_testing_tool.Prelude.{
  ℕ, zero, suc, ◌+◌, ◌-◌, ◌≤◌, ◌<◌, ◌^◌, ◌≡◌, refl, sym, ap, ◌∙◌, Bool, true, false, not, arith,
  ltb, length, drop, List, [], ◌∷◌, ◌++◌, length-append, Bool-cases, inl, inr, if◌then◌else◌,
}
use duckdb_load_testing_tool.Prelude.Int.{ℤ, pos, eqb_ℤ}
use duckdb_load_testing_tool.Prelude.Result.{Result, ok, ◌>>=◌}
use duckdb_load_testing_tool.Float.{Float64, IsIndexing}
use duckdb_load_testing_tool.Realtime.Sort.{sort_float64s}
use duckdb_load_testing_tool.Realtime.Stats.Ordered.{calculate_percentiles-ok}
use duckdb_load_testing_tool.Realtime.Stats.{
  HubStats, new_hub, record_event, update_buffer_size, calculate_percentiles, stored, is_empty,
  push_rtt, track_second, incr64, incr64-pos, incr64_if,
}

-- The last values of a list, as many as the window holds.
abbrev pub last_values : {A : Type 0} → ℕ → List A → List A
last_values window xs = drop (length xs - window) xs

drop-append :
    {A : Type 0} → (n : ℕ) (xs ys : List A) → n ≤ length xs → drop n (xs ++ ys) ≡ drop n xs ++ ys
drop-append zero xs ys h = refl
drop-append (suc n) [] ys h = absurd (omega arith)
drop-append (suc n) (x ∷ xs) ys h = drop-append n xs ys (omega arith)

length-drop : {A : Type 0} → (n : ℕ) (xs : List A) → length (drop n xs) ≡ length xs - n
length-drop zero xs = omega arith
length-drop (suc n) [] = omega arith
length-drop (suc n) (x ∷ xs) = omega (arith, length-drop n xs)

drop_one-drop : {A : Type 0} → (n : ℕ) (xs : List A) → drop 1 (drop n xs) ≡ drop (suc n) xs
drop_one-drop zero xs = refl
drop_one-drop (suc n) [] = refl
drop_one-drop (suc n) (x ∷ xs) = drop_one-drop n xs

push_rtt-last :
    {F : Type 0} ⦃d : Float64 F⦄
    → (x : F) (window : ℕ) (xs : List F)
    → push_rtt x window (last_values window xs) ≡ last_values window (xs ++ x ∷ [])
push_rtt-last x window xs =
    let n = length xs - window in
    let size = length-append (drop n xs) (x ∷ []) in
    let size' = length-append xs (x ∷ []) in
    let cut = drop-append n xs (x ∷ []) (omega arith) in
    elim (Bool-cases (ltb window (length (drop n xs ++ x ∷ [])))) [
      | inl e ↦
          let k : suc n ≡ length (xs ++ x ∷ []) - window = ground (arith, length-drop n xs) in
          rw e (
            ap (drop 1) (sym cut)
            ∙ drop_one-drop n (xs ++ x ∷ [])
            ∙ ap (λ k. drop k (xs ++ x ∷ [])) k)
      | inr e ↦
          let k : n ≡ length (xs ++ x ∷ []) - window = ground (arith, length-drop n xs) in
          rw e (sym cut ∙ ap (λ k. drop k (xs ++ x ∷ [])) k)
    ]

incr64_if-pos :
    (b : Bool) (n : ℕ) → suc n < 2 ^ 63 → incr64_if b (pos n) ≡ pos (if b then suc n else n)
incr64_if-pos true n h = incr64-pos n h
incr64_if-pos false n h = refl

if-suc : (b : Bool) (m n : ℕ) → (if b then suc m else m) + n ≡ m + (if b then suc n else n)
if-suc true m n = omega arith
if-suc false m n = refl

pub counted_errors : (b : Bool) (e n n' : ℕ) → e ≤ n → n' ≡ suc n → (if b then suc e else e) ≤ n'
counted_errors b e n n' h h' = ground arith

-- What the hub's methods do to the statistics.
pub data Operation (F : Type 0) : Type 0 where
  recorded : (now now_ms : ℤ) (rtt : F) (is_error : Bool) (vu : ℤ) → Operation F
  resized : ℤ → Operation F
  averaged : Operation F

module _ {F : Type 0} ⦃d : Float64 F⦄ where
  unfoldable pub operate : Operation F → HubStats F → Result (HubStats F)
  operate (recorded now now_ms rtt is_error vu) h = ok (record_event now now_ms rtt is_error vu h)
  operate (resized size) h = ok (update_buffer_size size h)
  operate averaged h = calculate_percentiles h

  unfoldable pub run : List (Operation F) → HubStats F → Result (HubStats F)
  run [] h = ok h
  run (o ∷ rest) h = operate o h >>= run rest

  -- The values that the operations record, in order, and how many of them are errors.
  abbrev pub rtts_of : List (Operation F) → List F
  rtts_of [] = []
  rtts_of (recorded now now_ms rtt is_error vu ∷ rest) = rtt ∷ rtts_of rest
  rtts_of (resized size ∷ rest) = rtts_of rest
  rtts_of (averaged ∷ rest) = rtts_of rest

  abbrev pub errors_of : List (Operation F) → ℕ
  errors_of [] = 0
  errors_of (recorded now now_ms rtt is_error vu ∷ rest) =
      let n = errors_of rest in if is_error then suc n else n
  errors_of (resized size ∷ rest) = errors_of rest
  errors_of (averaged ∷ rest) = errors_of rest

  -- The state after some values were recorded, some of them of errors.
  pub record Follows (h : HubStats F) (seen : List F) (errors : ℕ) : Type 0 where
    pub window : h.window_size ≡ 1000
    pub buffer : h.rtt_buffer ≡ last_values 1000 seen
    pub total : h.stats.total_requests ≡ pos (length seen)
    pub failed : h.stats.error_count ≡ pos errors

  -- `track_second` leaves all this alone.
  kept-track_second :
      (b : Bool) (now : ℤ) (h : HubStats F)
      → ((track_second b now h).window_size ≡ h.window_size)
        × ((track_second b now h).rtt_buffer ≡ h.rtt_buffer)
        × ((track_second b now h).stats.total_requests ≡ h.stats.total_requests)
        × ((track_second b now h).stats.error_count ≡ h.stats.error_count)
  kept-track_second true now h = (refl, refl, refl, refl)
  kept-track_second false now h = (refl, refl, refl, refl)

  -- The end of `record_event`, on a state that has counted the event already.
  Follows-push_rtt :
      (rtt : F) (t : HubStats F) (seen : List F) (errors : ℕ)
      → t.window_size ≡ 1000
      → t.rtt_buffer ≡ last_values 1000 seen
      → t.stats.total_requests ≡ pos (suc (length seen))
      → t.stats.error_count ≡ pos errors
      → Follows
          (record t { rtt_buffer = push_rtt rtt t.window_size t.rtt_buffer })
          (seen ++ rtt ∷ [])
          errors
  Follows-push_rtt rtt t seen errors w b n e =
      let size = length-append seen (rtt ∷ []) in
      record {
        window = w;
        buffer = rw (w, b) (push_rtt-last rtt 1000 seen);
        total = n ∙ ap pos (omega arith);
        failed = e;
      }

  pub Follows-record_event :
      (now now_ms : ℤ) (rtt : F) (is_error : Bool) (vu : ℤ) (h : HubStats F) (seen : List F)
      (errors : ℕ)
      → Follows h seen errors
      → length seen + 1 < 2 ^ 63
      → errors ≤ length seen
      → Follows
          (record_event now now_ms rtt is_error vu h)
          (seen ++ rtt ∷ [])
          (if is_error then suc errors else errors)
  unfolding record_event
  Follows-record_event now now_ms rtt is_error vu h seen errors f small e≤ =
      let b = not (eqb_ℤ now h.last_second) in
      let counted : HubStats F = record h {
        stats = record (h.stats) {
          total_requests = incr64 h.stats.total_requests;
          error_count = incr64_if is_error h.stats.error_count;
          last_event_time = now_ms;
        };
      } in
      let (w, r, n, e) = kept-track_second b now counted in
      Follows-push_rtt rtt (track_second b now counted) seen
        (if is_error then suc errors else errors) (w ∙ f.window) (r ∙ f.buffer)
        (n ∙ ap incr64 f.total ∙ incr64-pos (length seen) (omega arith))
        (e ∙ ap (incr64_if is_error) f.failed ∙ incr64_if-pos is_error errors (omega arith))

  Follows-calculate_percentiles :
      IsIndexing F
      → (h : HubStats F) (seen : List F) (errors : ℕ) → Follows h seen errors
      → (h' : HubStats F) × (calculate_percentiles h ≡ ok h') × Follows h' seen errors
  unfolding calculate_percentiles
  Follows-calculate_percentiles ix h seen errors f = elim (Bool-cases (is_empty h.rtt_buffer)) [
    | inl e ↦ (h, rw e refl, f)
    | inr e ↦
        let size : length h.rtt_buffer < 2 ^ 53 =
          rw (f.buffer, length-drop (length seen - 1000) seen) (omega arith) in
        let (a, b, c, p) = calculate_percentiles-ok ix h size e in
        (
          stored (sort_float64s h.rtt_buffer) a b c h,
          p,
          record { window = f.window; buffer = f.buffer; total = f.total; failed = f.failed },
        )
  ]

  pub Follows-new_hub : Follows new_hub [] 0
  unfolding new_hub
  Follows-new_hub = record { window = refl; buffer = refl; total = refl; failed = refl }

  pub Follows-update_buffer_size :
      (size : ℤ) (h : HubStats F) (seen : List F) (errors : ℕ)
      → Follows h seen errors
      → Follows (update_buffer_size size h) seen errors
  unfolding update_buffer_size
  Follows-update_buffer_size size h seen errors f = record {
    window = f.window;
    buffer = f.buffer;
    total = f.total;
    failed = f.failed;
  }

  Follows-run :
      IsIndexing F
      → (ops : List (Operation F)) (h : HubStats F) (seen : List F) (errors : ℕ)
      → Follows h seen errors
      → length seen + length (rtts_of ops) < 2 ^ 63
      → errors ≤ length seen
      → (h' : HubStats F) × (run ops h ≡ ok h')
        × Follows h' (seen ++ rtts_of ops) (errors + errors_of ops)
  unfolding run operate
  Follows-run ix [] h seen errors f small e≤ = (h, refl, rw (append-nil, add-zero errors) f)
  Follows-run ix (recorded now now_ms rtt is_error vu ∷ rest) h seen errors f small e≤ =
      let size = length-append seen (rtt ∷ []) in
      let errors1 = if is_error then suc errors else errors in
      let f1 = Follows-record_event now now_ms rtt is_error vu h seen errors f (omega arith) e≤ in
      let (h2, q, f2) =
        Follows-run ix rest (record_event now now_ms rtt is_error vu h) (seen ++ rtt ∷ []) errors1
          f1 (omega arith)
          (counted_errors is_error errors (length seen) (length (seen ++ rtt ∷ [])) e≤
            (omega arith)) in
      (
        h2,
        q,
        subst₂ (Follows h2) (append_assoc seen (rtt ∷ []) (rtts_of rest))
            (if-suc is_error errors (errors_of rest)) f2,
      )
  Follows-run ix (resized size ∷ rest) h seen errors f small e≤ =
      Follows-run ix rest (update_buffer_size size h) seen errors
        (Follows-update_buffer_size size h seen errors f) small e≤
  Follows-run ix (averaged ∷ rest) h seen errors f small e≤ =
      let (h1, p, f1) = Follows-calculate_percentiles ix h seen errors f in
      let (h2, q, f2) = Follows-run ix rest h1 seen errors f1 small e≤ in (h2, rw p q, f2)

  -- Where the product of a length and a percentage rounds to an index in range, any sequence of
  -- calls of `RecordEvent`, `UpdateBufferSize` and `calculatePercentiles` on a new hub, with fewer
  -- than 2^63 calls of `RecordEvent`, returns without a panic; after it the RTT buffer holds the last
  -- 1000 recorded RTTs in their order, TotalRequests is the number of recorded events, and
  -- ErrorCount is how many of them are errors.
  pub run-new_hub :
      IsIndexing F
      → (ops : List (Operation F)) → length (rtts_of ops) < 2 ^ 63
      → (h : HubStats F) × (run ops new_hub ≡ ok h)
        × (h.rtt_buffer ≡ last_values 1000 (rtts_of ops))
        × (h.stats.total_requests ≡ pos (length (rtts_of ops)))
        × (h.stats.error_count ≡ pos (errors_of ops))
  run-new_hub ix ops small =
      let (h, p, f) = Follows-run ix ops new_hub [] 0 Follows-new_hub (omega arith) (omega arith) in
      (h, p, f.buffer, f.total, f.failed ∙ ap pos (omega arith))
