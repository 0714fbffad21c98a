-- ===== src/Duckload/Exit.antt =====
-- The exit code of `duckload gate`: sidecar-go/cmd/duckload/main.go.
use duckdb_load_testing_tool.Prelude.{
  ◌≡◌, refl, sym, ◌∙◌, ap, [], ◌∷◌, ◌⊎◌, inl, inr, String, Option, none, some, List, any, length,
  Bool, true, false, not, ◌&&◌, ◌||◌, ◌==◌, str_eq, if◌then◌else◌, arith, Bool-cases,
}
use duckdb_load_testing_tool.Prelude.Int.{pos}
use duckdb_load_testing_tool.Prelude.Result.{
  Error, Result, ok, err, ◌>>=◌, wrap, bind-ok, bind-err, wrap-ok, Result-cases,
}
use duckdb_load_testing_tool.Float.{Float64}
use duckdb_load_testing_tool.Policy.{Policy, parse, load}
use duckdb_load_testing_tool.Policy.Load.{IsTreatment, parse-IsTreatment}
use duckdb_load_testing_tool.Analysis.Endpoint.{EndpointStats}
use duckdb_load_testing_tool.Gate.Types.{GateResult}
use duckdb_load_testing_tool.Gate.Evaluation.{evaluate}
use duckdb_load_testing_tool.Gate.Totals.{findings}
use duckdb_load_testing_tool.Gate.Verdict.{counts_as_fail, counts_as_warn}
use duckdb_load_testing_tool.Gate.Report.{
  exit_code, exit_code-evaluate, exit_pass, exit_policy_failure, exit_tool_error,
}
use duckdb_load_testing_tool.Duckload.{
  World, GateFlags, check_flags, load_endpoint_stats, load_baseline, print_result, gate_outcome,
  run_gate, is_nil,
}

load-IsTreatment :
    {F : Type 0} (read_file : String → Result String) (unmarshal : String → Result (Policy F))
    (path : String) (p : Policy F)
    → load read_file unmarshal path ≡ ok p
    → IsTreatment p.unknown_treatment
unfolding load
load-IsTreatment read_file unmarshal path p h =
    let (text, _, h1) =
      bind-ok (wrap "policy: failed to read %s: %w" (path ∷ []) (read_file path)) _ p h in
    (parse-IsTreatment unmarshal text p
      (wrap-ok "policy: %s: %w" (path ∷ []) (parse unmarshal text) p h1)).1

-- No positional argument, both files named, and one of the two formats.
abbrev pub are_accepted : GateFlags → Bool
are_accepted flags =
    length flags.positional == 0
    && (not (str_eq flags.current_path "") && not (str_eq flags.policy_path ""))
    && (str_eq flags.format "human" || str_eq flags.format "json")

is_nil-length : {A : Type 0} → (xs : List A) → is_nil xs ≡ (length xs == 0)
is_nil-length [] = refl
is_nil-length (x ∷ xs) = ground arith

check_flags-ok : (flags : GateFlags) → check_flags flags ≡ ok tt → are_accepted flags ≡ true
unfolding check_flags
check_flags-ok flags h = ground (arith, is_nil-length flags.positional)

check_flags-err :
    (flags : GateFlags) (e : Error) → check_flags flags ≡ err e → are_accepted flags ≡ false
unfolding check_flags
check_flags-err flags e h = ground (arith, is_nil-length flags.positional)

module _ {F : Type 0} ⦃d : Float64 F⦄ where
  abbrev some_stats : Result (List (EndpointStats F)) → Result (Option (List (EndpointStats F)))
  some_stats (ok stats) = ok (some stats)
  some_stats (err e) = err e

  bind-some_stats :
      (m : Result (List (EndpointStats F))) → (m >>= λ stats. ok (some stats)) ≡ some_stats m
  bind-some_stats (ok stats) = refl
  bind-some_stats (err e) = refl

  -- The run to compare with: of the baseline's file where one is named, else a run that is named of
  -- the current file, else none.
  abbrev pub baseline_read : World F → GateFlags → Result (Option (List (EndpointStats F)))
  baseline_read w flags =
      if not (str_eq flags.baseline_path "")
      then some_stats (load_endpoint_stats w flags.baseline_path flags.baseline_run_id)
      else if not (str_eq flags.baseline_run_id "")
      then some_stats (load_endpoint_stats w flags.current_path flags.baseline_run_id)
      else ok none

  -- The two orders of the tests, over how a run is read.
  baseline_choice :
      (no_file no_run : Bool) (read : String → String → Result (List (EndpointStats F)))
      (file current run : String)
      → (if no_file && no_run then ok none else do
          stats ← read (if no_file then current else file) run
          ok (some stats))
        ≡ (if not no_file
          then some_stats (read file run)
          else if not no_run then some_stats (read current run) else ok none)
  baseline_choice true true read file current run = refl
  baseline_choice true false read file current run = bind-some_stats (read current run)
  baseline_choice false b read file current run = bind-some_stats (read file run)

  load_baseline-baseline_read :
      (w : World F) (flags : GateFlags) → load_baseline w flags ≡ baseline_read w flags
  unfolding load_baseline
  load_baseline-baseline_read w flags =
      baseline_choice (str_eq flags.baseline_path "") (str_eq flags.baseline_run_id "")
        (load_endpoint_stats w) flags.baseline_path flags.current_path flags.baseline_run_id

  -- A step before the verdict that fails: a flag is wrong, an input cannot be read, or the result is
  -- to be printed as JSON and cannot be.
  abbrev pub Refused : World F → GateFlags → Type 0
  Refused w flags =
      (are_accepted flags ≡ false)
      ⊎ (((e : Error) × (load w.read_file w.unmarshal flags.policy_path ≡ err e))
      ⊎ (((e : Error) × (load_endpoint_stats w flags.current_path flags.current_run_id ≡ err e))
      ⊎ (((e : Error) × (baseline_read w flags ≡ err e))
      ⊎ ((pol : Policy F) × (current : List (EndpointStats F))
        × (baseline : Option (List (EndpointStats F))) × (e : Error)
        × (load w.read_file w.unmarshal flags.policy_path ≡ ok pol)
        × (load_endpoint_stats w flags.current_path flags.current_run_id ≡ ok current)
        × (baseline_read w flags ≡ ok baseline)
        × (str_eq flags.format "json" ≡ true)
        × (w.print_json (evaluate current baseline pol) ≡ err e)))))

  -- What a gate run that had all its inputs, and printed its result, did.
  abbrev pub Judged : World F → GateFlags → Type 0
  Judged w flags =
      (pol : Policy F) × (current : List (EndpointStats F)) × (baseline : Option
        (List (EndpointStats F)))
      × (are_accepted flags ≡ true)
      × (load w.read_file w.unmarshal flags.policy_path ≡ ok pol)
      × (load_endpoint_stats w flags.current_path flags.current_run_id ≡ ok current)
      × (baseline_read w flags ≡ ok baseline)
      × (str_eq flags.format "json" ≡ true → w.print_json (evaluate current baseline pol) ≡ ok tt)
      × (run_gate w flags ≡ (
          if any (counts_as_fail pol.unknown_treatment) (findings current baseline pol)
          then pos 1
          else if any (counts_as_warn pol.unknown_treatment) (findings current baseline pol)
          then flags.warn_exit_code
          else pos 0))

  print_result-ok :
      (w : World F) (format : String) (r : GateResult F)
      → print_result w format r ≡ ok tt
      → str_eq format "json" ≡ true
      → w.print_json r ≡ ok tt
  print_result-ok w format r h e = ground (arith, h, e)

  print_result-err :
      (w : World F) (format : String) (r : GateResult F) (e : Error)
      → print_result w format r ≡ err e
      → (str_eq format "json" ≡ true) × (w.print_json r ≡ err e)
  print_result-err w format r e h = ground (arith, h)

  gate_outcome-Refused :
      (w : World F) (flags : GateFlags) (e : Error)
      → gate_outcome w flags ≡ err e
      → Refused w flags
  unfolding gate_outcome
  gate_outcome-Refused w flags e h = elim (bind-err (check_flags flags) _ e h) [
    | inl c ↦ inl (check_flags-err flags e c)
    | inr (_, _, h1) ↦ elim (bind-err (load w.read_file w.unmarshal flags.policy_path) _ e h1) [
      | inl c ↦ inr (inl (e, c))
      | inr (pol, hp, h2) ↦
          elim (bind-err (load_endpoint_stats w flags.current_path flags.current_run_id) _ e h2) [
            | inl c ↦ inr (inr (inl (e, c)))
            | inr (current, hc, h3) ↦ elim (bind-err (load_baseline w flags) _ e h3) [
              | inl c ↦ inr (inr (inr (inl (e, sym (load_baseline-baseline_read w flags) ∙ c))))
              | inr (baseline, hb, h4) ↦ elim (bind-err
                  (print_result w flags.format (evaluate current baseline pol)) _ e h4) [
                | inl c ↦
                    let (json, printed) =
                      print_result-err w flags.format (evaluate current baseline pol) e c in
                    inr (inr (inr (inr (
                      pol,
                      current,
                      baseline,
                      e,
                      hp,
                      hc,
                      sym (load_baseline-baseline_read w flags) ∙ hb,
                      json,
                      printed,
                    ))))
                | inr (_, _, h5) ↦ cc
              ]
            ]
          ]
    ]
  ]

  -- `duckload gate` exits with 2 when a flag is wrong, an input cannot be read, or the result cannot
  -- be printed as JSON where that is the format. In every other case the flags are in order, the
  -- policy, the current run and the baseline that the flags ask for were read and a JSON result was
  -- printed, and it exits with 1 just when some check of theirs counts as a failure, with the code
  -- chosen for warnings when none does and some check counts as a warning, and with 0 otherwise.
  pub run_gate-Judged :
      (w : World F) (flags : GateFlags)
      → (Refused w flags × (run_gate w flags ≡ pos 2)) ⊎ Judged w flags
  unfolding run_gate
  run_gate-Judged w flags = elim (Result-cases (gate_outcome w flags)) [
    | inr (e, h) ↦ inl (gate_outcome-Refused w flags e h, rw h refl)
    | inl (result, h) ↦
        let (_, checked, h1) = bind-ok (check_flags flags) _ result h in
        let (pol, hp, h2) = bind-ok (load w.read_file w.unmarshal flags.policy_path) _ result h1 in
        let (current, hc, h3) =
          bind-ok (load_endpoint_stats w flags.current_path flags.current_run_id) _ result h2 in
        let (baseline, hb, h4) = bind-ok (load_baseline w flags) _ result h3 in
        let (_, printed, h5) =
          bind-ok (print_result w flags.format (evaluate current baseline pol)) _ result h4 in
        let same : evaluate current baseline pol ≡ result = cc in
        let treatment = load-IsTreatment w.read_file w.unmarshal flags.policy_path pol hp in
        inr (
          pol,
          current,
          baseline,
          check_flags-ok flags checked,
          hp,
          hc,
          sym (load_baseline-baseline_read w flags) ∙ hb,
          print_result-ok w flags.format (evaluate current baseline pol) printed,
          rw h (
              ap (λ r. exit_code r.status flags.warn_exit_code) (sym same)
              ∙ exit_code-evaluate current baseline pol flags.warn_exit_code treatment),
        )
  ]
