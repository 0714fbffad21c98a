-- ===== src/Realtime/Stats/Rate.antt =====
-- The rate of requests that the hub reports.
use duckdb_load_testing_tool.Prelude.{
  ℕ, suc, ◌+◌, ◌<◌, ◌^◌, ◌≡◌, refl, ap, ◌∙◌, Bool, false, not, arith, length, List, [], ◌∷◌,
}
use duckdb_load_testing_tool.Prelude.Int.{ℤ, pos, eqb_ℤ, eqb_ℤ-refl}
use duckdb_load_testing_tool.Float.{Float64}
use duckdb_load_testing_tool.Realtime.Stats.{HubStats, record_event, incr64, incr64-pos}

-- The arguments of one call of `RecordEvent`, less its time in seconds.
pub record Call (F : Type 0) : Type 0 where
  pub now_ms : ℤ
  pub rtt : F
  pub is_error : Bool
  pub vu : ℤ

module _ {F : Type 0} ⦃d : Float64 F⦄ where
  open d use {of_int}

  -- Calls of `RecordEvent` within one second.
  unfoldable pub record_all : ℤ → List (Call F) → HubStats F → HubStats F
  record_all now [] h = h
  record_all now (c ∷ rest) h =
      record_all now rest (record_event now c.now_ms c.rtt c.is_error c.vu h)

  same_second :
      (now : ℤ) (c : Call F) (h : HubStats F) (n : ℕ)
      → h.last_second ≡ now
      → h.req_count ≡ pos n
      → suc n < 2 ^ 63
      → ((record_event now c.now_ms c.rtt c.is_error c.vu h).last_second ≡ now)
        × ((record_event now c.now_ms c.rtt c.is_error c.vu h).req_count ≡ pos (suc n))
  unfolding record_event
  same_second now c h n e k small =
      let t : not (eqb_ℤ now h.last_second) ≡ false = rw (e, eqb_ℤ-refl now) refl in
      rw t (e, ap incr64 k ∙ incr64-pos n small)

  record_all-same_second :
      (now : ℤ) (calls : List (Call F)) (h : HubStats F) (n : ℕ)
      → h.last_second ≡ now
      → h.req_count ≡ pos n
      → n + length calls < 2 ^ 63
      → ((record_all now calls h).last_second ≡ now)
        × ((record_all now calls h).req_count ≡ pos (n + length calls))
  unfolding record_all
  record_all-same_second now [] h n e k small = (e, k ∙ ap pos (omega arith))
  record_all-same_second now (c ∷ rest) h n e k small =
      let h1 = record_event now c.now_ms c.rtt c.is_error c.vu h in
      let (e1, k1) = same_second now c h n e k (omega arith) in
      let (e2, k2) = record_all-same_second now rest h1 (suc n) e1 k1 (omega arith) in
      (e2, k2 ∙ ap pos (omega arith))

  other_second :
      (now : ℤ) (c : Call F) (h : HubStats F)
      → eqb_ℤ now h.last_second ≡ false
      → ((record_event now c.now_ms c.rtt c.is_error c.vu h).last_second ≡ now)
        × ((record_event now c.now_ms c.rtt c.is_error c.vu h).req_count ≡ pos 1)
        × ((record_event now c.now_ms c.rtt c.is_error c.vu h).stats.requests_per_sec
            ≡ of_int h.req_count)
  unfolding record_event
  other_second now c h e = rw e (refl, refl, refl)

  -- After calls of `RecordEvent` within a second that the hub has not counted before, from 1 to
  -- 2^63 - 1 of them, the first call in another second sets RequestsPerSec to their number.
  pub record_event-rate :
      (second later : ℤ) (first : Call F) (rest : List (Call F)) (last : Call F) (h : HubStats F)
      → eqb_ℤ second h.last_second ≡ false
      → eqb_ℤ later second ≡ false
      → length (first ∷ rest) < 2 ^ 63
      → (record_all later (last ∷ []) (record_all second (first ∷ rest) h)).stats.requests_per_sec
        ≡ of_int (pos (length (first ∷ rest)))
  unfolding record_all
  record_event-rate second later first rest last h fresh other small =
      let h1 = record_event second first.now_ms first.rtt first.is_error first.vu h in
      let (e1, k1, _) = other_second second first h fresh in
      let (e2, k2) = record_all-same_second second rest h1 1 e1 k1 (omega arith) in
      let (_, _, r) = other_second later last (record_all second rest h1) (rw e2 other) in
      r ∙ ap of_int (k2 ∙ ap pos (omega arith))
