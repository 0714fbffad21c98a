-- ===== src/Analysis/Comparator/Baseline.antt =====
-- The baseline of several runs: `CalculateBaseline` of sidecar-go/analysis/comparator.go.
use duckdb_load_testing_tool.Prelude.{
  String, ◌≡◌, ◌≢◌, refl, sym, ap, ◌∙◌, Bool, true, false, List, [], ◌∷◌, map, keep,
  if◌then◌else◌, length, inl, inr,
}
use duckdb_load_testing_tool.Prelude.Int.{ℤ, pos, ltb_ℤ, ◌+ℤ◌, +ℤ_zero, zero_+ℤ, +ℤ_assoc}
use duckdb_load_testing_tool.Prelude.Result.{Result, ok, err, message, Result-cases}
use duckdb_load_testing_tool.Float.{Float64, nought}
use duckdb_load_testing_tool.Analysis.Database.{Database}
use duckdb_load_testing_tool.Analysis.Comparator.{RunStats, get_run_stats, percentage}

abbrev pub has_read : {A : Type 0} → Result A → Bool
has_read (ok a) = true
has_read (err e) = false

module _ {F : Type 0} ⦃d : Float64 F⦄ where
  open d use {add, div, of_int}

  -- `if err != nil { … continue }`
  abbrev pub or_skip : Result (RunStats F) → List (RunStats F) → List (RunStats F)
  or_skip (err e) others = others
  or_skip (ok s) others = s ∷ others

  -- The loop that collects `allStats`: runs whose query fails are skipped.
  unfoldable pub valid_runs : Database F → List String → List (RunStats F)
  valid_runs db [] = []
  valid_runs db (run_id ∷ rest) =
      let others = valid_runs db rest in or_skip (get_run_stats db run_id) others

  -- `&RunStats{RunID: "baseline"}`
  abbrev pub no_stats : RunStats F
  no_stats = record {
    run_id = "baseline";
    total_requests = pos 0;
    error_count = pos 0;
    error_rate = nought;
    avg_rtt = nought;
    p50_rtt = nought;
    p95_rtt = nought;
    p99_rtt = nought;
    min_rtt = nought;
    max_rtt = nought;
    rps = nought;
    duration_seconds = nought;
  }

  -- The loop that sums.
  abbrev add_run : RunStats F → RunStats F → RunStats F
  add_run b s = record b {
    total_requests = b.total_requests +ℤ s.total_requests;
    error_count = b.error_count +ℤ s.error_count;
    avg_rtt = add b.avg_rtt s.avg_rtt;
    p50_rtt = add b.p50_rtt s.p50_rtt;
    p95_rtt = add b.p95_rtt s.p95_rtt;
    p99_rtt = add b.p99_rtt s.p99_rtt;
    rps = add b.rps s.rps;
  }

  unfoldable pub sum_runs : RunStats F → List (RunStats F) → RunStats F
  sum_runs b [] = b
  sum_runs b (s ∷ rest) = sum_runs (add_run b s) rest

  -- The division by the number of runs, and the error rate of all requests together.
  abbrev pub averaged : F → RunStats F → RunStats F
  averaged n b = record b {
    avg_rtt = div b.avg_rtt n;
    p50_rtt = div b.p50_rtt n;
    p95_rtt = div b.p95_rtt n;
    p99_rtt = div b.p99_rtt n;
    rps = div b.rps n;
    error_rate =
        if ltb_ℤ (pos 0) b.total_requests
        then percentage b.error_count b.total_requests
        else b.error_rate;
  }

  unfoldable pub baseline_of : List (RunStats F) → Result (RunStats F)
  unfolding sum_runs
  baseline_of [] = err (message "no valid runs found")
  baseline_of (s ∷ rest) =
      let all = s ∷ rest in ok (averaged (of_int (pos (length all))) (sum_runs no_stats all))

  -- (*Comparator).CalculateBaseline
  unfoldable pub calculate_baseline : Database F → List String → Result (RunStats F)
  unfolding valid_runs baseline_of
  calculate_baseline db [] = err (message "no run IDs provided")
  calculate_baseline db (run_id ∷ rest) = baseline_of (valid_runs db (run_id ∷ rest))

  -- Sums over runs, in the integers.
  abbrev pub total_over : (RunStats F → ℤ) → List (RunStats F) → ℤ
  total_over f [] = pos 0
  total_over f (s ∷ rest) = f s +ℤ total_over f rest

  totals-sum_runs :
      (b : RunStats F) (all : List (RunStats F))
      → ((sum_runs b all).total_requests
          ≡ b.total_requests +ℤ total_over (λ s. s.total_requests) all)
        × ((sum_runs b all).error_count ≡ b.error_count +ℤ total_over (λ s. s.error_count) all)
        × ((sum_runs b all).min_rtt ≡ b.min_rtt)
        × ((sum_runs b all).max_rtt ≡ b.max_rtt)
        × ((sum_runs b all).duration_seconds ≡ b.duration_seconds)
  unfolding sum_runs
  totals-sum_runs b [] =
      (sym (+ℤ_zero b.total_requests), sym (+ℤ_zero b.error_count), refl, refl, refl)
  totals-sum_runs b (s ∷ rest) =
      let ih = totals-sum_runs (add_run b s) rest in
      (
        ih.0 ∙ +ℤ_assoc b.total_requests s.total_requests (total_over (λ t. t.total_requests) rest),
        ih.1 ∙ +ℤ_assoc b.error_count s.error_count (total_over (λ t. t.error_count) rest),
        ih.2,
        ih.3,
        ih.4,
      )

  baseline_of-totals :
      (runs : List (RunStats F)) (b : RunStats F)
      → baseline_of runs ≡ ok b
      → (runs ≢ [])
        × (b.total_requests ≡ total_over (λ s. s.total_requests) runs)
        × (b.error_count ≡ total_over (λ s. s.error_count) runs)
        × (b.min_rtt ≡ nought)
        × (b.max_rtt ≡ nought)
  unfolding baseline_of
  baseline_of-totals [] b h = cc
  baseline_of-totals (s ∷ rest) b h =
      let t = totals-sum_runs no_stats (s ∷ rest) in
      let requests = total_over (λ r. r.total_requests) (s ∷ rest) in
      let errors = total_over (λ r. r.error_count) (s ∷ rest) in
      let e : ok (averaged (of_int (pos (length (s ∷ rest)))) (sum_runs no_stats (s ∷ rest)))
          ≡ ok b =
        h in
      (
        λ p. cc,
        cc (e, t.0, zero_+ℤ requests),
        cc (e, t.1, zero_+ℤ errors),
        cc (e, t.2),
        cc (e, t.3),
      )

  or_skip-keep :
      (r : Result (RunStats F)) (runs : List (RunStats F)) (reads : List (Result (RunStats F)))
      → map ok runs ≡ keep has_read reads
      → map ok (or_skip r runs) ≡ keep has_read (r ∷ reads)
  or_skip-keep (ok s) runs reads h = ap (λ rs. ok s ∷ rs) h
  or_skip-keep (err e) runs reads h = h

  valid_runs-keep :
      (db : Database F) (run_ids : List String)
      → map ok (valid_runs db run_ids) ≡ keep has_read (map (get_run_stats db) run_ids)
  unfolding valid_runs
  valid_runs-keep db [] = refl
  valid_runs-keep db (run_id ∷ rest) =
      or_skip-keep (get_run_stats db run_id) (valid_runs db rest) (map (get_run_stats db) rest)
        (valid_runs-keep db rest)

  -- Where a baseline of several runs is returned, the runs that count are those of the list whose
  -- query succeeded, in the order of the list and once for each time that it names them, whatever
  -- other runs could not be read: there is at least one, and the baseline has the sums of their
  -- requests and of their errors. Its smallest and largest times stay zero, whatever the runs are.
  pub calculate_baseline-totals :
      (db : Database F) (run_ids : List String) (b : RunStats F)
      → calculate_baseline db run_ids ≡ ok b
      → (runs : List (RunStats F))
        × (map ok runs ≡ keep has_read (map (get_run_stats db) run_ids))
        × (runs ≢ [])
        × (b.total_requests ≡ total_over (λ s. s.total_requests) runs)
        × (b.error_count ≡ total_over (λ s. s.error_count) runs)
        × (b.min_rtt ≡ nought)
        × (b.max_rtt ≡ nought)
  unfolding calculate_baseline
  calculate_baseline-totals db [] b h = cc
  calculate_baseline-totals db (run_id ∷ rest) b h =
      let run_ids = run_id ∷ rest in
      let (some_run, requests, errors, least, most) =
        baseline_of-totals (valid_runs db run_ids) b h in
      (
        valid_runs db run_ids,
        valid_runs-keep db run_ids,
        some_run,
        requests,
        errors,
        least,
        most,
      )
