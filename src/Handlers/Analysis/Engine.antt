-- ===== src/Handlers/Analysis/Engine.antt =====
-- `HandleGate` of sidecar-go/handlers/analysis_handlers.go beside `duckload gate` of
-- sidecar-go/cmd/duckload/main.go: the same evaluation behind both.
use duckdb_load_testing_tool.Prelude.{
  String, ◌∷◌, ◌≡◌, ◌≢◌, refl, sym, ap, ◌∙◌, Bool, true, false, List, [], Option, none, some,
  str_eq, eq_iff, if◌then◌else◌, Bool-cases, inl, inr,
}
use duckdb_load_testing_tool.Prelude.Int.{ℤ}
use duckdb_load_testing_tool.Prelude.Result.{Result, ok, err, wrap, ◌>>=◌}
use duckdb_load_testing_tool.Float.{Float64}
use duckdb_load_testing_tool.Policy.{Policy, parse, load}
use duckdb_load_testing_tool.Analysis.Endpoint.{EndpointStats, get_endpoint_stats}
use duckdb_load_testing_tool.Gate.Types.{GateResult}
use duckdb_load_testing_tool.Gate.Evaluation.{evaluate}
use duckdb_load_testing_tool.Duckload.{
  World, File, GateFlags, check_flags, dsn_of, open_read_only, load_endpoint_stats, load_baseline,
  gate_outcome, run_id_of,
}
use duckdb_load_testing_tool.Handlers.Analysis.{
  AnalysisHandlers, Reply, refused, refused_with, answered,
}
use duckdb_load_testing_tool.Handlers.Analysis.Gate.{
  GateRequest, handle_gate, gate_policy, gate_runs, gate_with_baseline, baseline_stats, some_stats,
}

-- The body of an answer, and the value of a result.
abbrev pub body_of : {B : Type 0} → Reply B → Option B
body_of (refused code text) = none
body_of (refused_with code text e) = none
body_of (answered body) = some body

abbrev pub value_of : {B : Type 0} → Result B → Option B
value_of (ok b) = some b
value_of (err e) = none

value_of-wrap :
    {B : Type 0} (format : String) (args : List String) (r : Result B)
    → value_of (wrap format args r) ≡ value_of r
value_of-wrap format args (ok b) = refl
value_of-wrap format args (err e) = refl

str_eq_of_ne : (s t : String) → s ≢ t → str_eq s t ≡ false
str_eq_of_ne s t h = elim (Bool-cases (str_eq s t)) [
  | inl e ↦ absurd (h ((eq_iff s t).0 e))
  | inr e ↦ e
]

ne_of_str_eq : (s t : String) → str_eq s t ≡ false → s ≢ t
ne_of_str_eq s t h e = let i : str_eq s t ≡ true = (eq_iff s t).1 e in cc (h, i)

value_of-some :
    {B : Type 0} (m n : Result B)
    → value_of m ≡ value_of n
    → value_of (m >>= λ s. ok (some s)) ≡ value_of (some_stats n)
value_of-some (ok a) (ok b) h = let e : a ≡ b = cc in ap (λ x. some (some x)) e
value_of-some (ok a) (err e) h = cc
value_of-some (err e) (ok b) h = cc
value_of-some (err e) (err f) h = refl

-- A branch that asks for a baseline, or does not.
branch-value :
    {B : Type 0} (none_named : Bool) (m n : Result B)
    → (none_named ≡ false → value_of m ≡ value_of n)
    → value_of (if none_named then ok none else m >>= λ s. ok (some s))
      ≡ value_of (if none_named then ok none else some_stats n)
branch-value true m n h = refl
branch-value false m n h = value_of-some m n (h refl)

ap₃ :
    {A B C D : Type 0} (f : A → B → C → D) {a a' : A} {b b' : B} {c c' : C}
    → a ≡ a'
    → b ≡ b'
    → c ≡ c'
    → f a b c ≡ f a' b' c'
ap₃ f p q r = λ i. f (p i) (q i) (r i)

-- The flags of a gate run that reads both runs from one file, and writes for a terminal.
abbrev pub flags_of : String → String → ℤ → GateRequest → GateFlags
flags_of current_path policy_path warn_exit_code req = record {
  positional = [];
  current_path = current_path;
  baseline_path = "";
  current_run_id = req.current_run_id;
  baseline_run_id = req.baseline_run_id;
  policy_path = policy_path;
  format = "human";
  warn_exit_code = warn_exit_code;
}

module _ {F : Type 0} ⦃d : Float64 F⦄ where
  -- The evaluation, once its three inputs are there.
  abbrev evaluated :
      Option (Policy F)
      → Option (List (EndpointStats F))
      → Option (Option (List (EndpointStats F)))
      → Option (GateResult F)
  evaluated (some pol) (some current) (some baseline) = some (evaluate current baseline pol)
  evaluated (some pol) (some current) none = none
  evaluated (some pol) none baseline = none
  evaluated none current baseline = none

  body-gate_with_baseline :
      (pol : Policy F) (current : List (EndpointStats F))
      (baseline : Result (Option (List (EndpointStats F))))
      → body_of (gate_with_baseline pol current baseline)
        ≡ evaluated (some pol) (some current) (value_of baseline)
  body-gate_with_baseline pol current (ok baseline) = refl
  body-gate_with_baseline pol current (err e) = refl

  body-gate_runs :
      (h : AnalysisHandlers F) (req : GateRequest) (pol : Policy F)
      (current : Result (List (EndpointStats F)))
      → body_of (gate_runs h req pol current)
        ≡ evaluated (some pol) (value_of current) (value_of (baseline_stats h req.baseline_run_id))
  body-gate_runs h req pol (ok current) =
      body-gate_with_baseline pol current (baseline_stats h req.baseline_run_id)
  body-gate_runs h req pol (err e) = refl

  body-gate_policy :
      (h : AnalysisHandlers F) (req : GateRequest) (pol : Result (Policy F))
      → body_of (gate_policy h req pol)
        ≡ evaluated
            (value_of pol)
            (value_of (get_endpoint_stats h.db req.current_run_id))
            (value_of (baseline_stats h req.baseline_run_id))
  body-gate_policy h req (ok pol) =
      body-gate_runs h req pol (get_endpoint_stats h.db req.current_run_id)
  body-gate_policy h req (err e) = refl

  handle_gate-body :
      (unmarshal : String → Result (Policy F)) (h : AnalysisHandlers F) (req : GateRequest)
      → req.current_run_id ≢ ""
      → req.policy ≢ ""
      → body_of (handle_gate unmarshal h (ok req))
        ≡ evaluated
            (value_of (parse unmarshal req.policy))
            (value_of (get_endpoint_stats h.db req.current_run_id))
            (value_of (baseline_stats h req.baseline_run_id))
  unfolding handle_gate
  handle_gate-body unmarshal h req current policy =
      rw (str_eq_of_ne req.current_run_id "" current, str_eq_of_ne req.policy "" policy)
        (body-gate_policy h req (parse unmarshal req.policy))

  -- The steps of the command.
  abbrev steps :
      Result (Policy F)
      → Result (List (EndpointStats F))
      → Result (Option (List (EndpointStats F)))
      → Result (GateResult F)
  steps loaded current baseline = do
    pol ← loaded
    cur ← current
    base ← baseline
    ok (evaluate cur base pol)

  value_of-steps :
      (loaded : Result (Policy F)) (current : Result (List (EndpointStats F)))
      (baseline : Result (Option (List (EndpointStats F))))
      → value_of (steps loaded current baseline)
        ≡ evaluated (value_of loaded) (value_of current) (value_of baseline)
  value_of-steps (ok pol) (ok cur) (ok base) = refl
  value_of-steps (ok pol) (ok cur) (err e) = refl
  value_of-steps (ok pol) (err e) baseline = refl
  value_of-steps (err e) current baseline = refl

  module _ (w : World F) (file : File F) (h : AnalysisHandlers F) (path : String)
      (filled : path ≢ "") (opened : w.sql_open (dsn_of path) ≡ ok file)
      (same_db : file.database ≡ h.db) where
    open_read_only-file : open_read_only w path ≡ ok file
    unfolding open_read_only
    open_read_only-file = rw (str_eq_of_ne path "" filled, opened) refl

    -- What follows the opening of the file.
    analyzed : String → File F → Result (List (EndpointStats F))
    analyzed id f = do
      i ← run_id_of f path id
      wrap "failed to analyze endpoints for run %q in %s: %w" (i ∷ path ∷ [])
          (get_endpoint_stats f.database i)

    analyzed-value :
        (id : String)
        → id ≢ ""
        → value_of (analyzed id file) ≡ value_of (get_endpoint_stats h.db id)
    unfolding analyzed
    analyzed-value id named =
        rw (str_eq_of_ne id "" named, same_db)
          (value_of-wrap "failed to analyze endpoints for run %q in %s: %w" (id ∷ path ∷ [])
            (get_endpoint_stats h.db id))

    load-analyzed :
        (id : String) → load_endpoint_stats w path id ≡ (open_read_only w path >>= analyzed id)
    unfolding load_endpoint_stats analyzed
    load-analyzed id = refl

    load_endpoint_stats-value :
        (id : String)
        → id ≢ ""
        → value_of (load_endpoint_stats w path id) ≡ value_of (get_endpoint_stats h.db id)
    load_endpoint_stats-value id named =
        ap value_of (load-analyzed id ∙ ap (λ r. r >>= analyzed id) open_read_only-file)
        ∙ analyzed-value id named

    load_baseline-branch :
        (policy_path : String) (code : ℤ) (req : GateRequest)
        → load_baseline w (flags_of path policy_path code req) ≡ (
            if str_eq req.baseline_run_id ""
            then ok none
            else load_endpoint_stats w path req.baseline_run_id >>= λ stats. ok (some stats))
    unfolding load_baseline
    load_baseline-branch policy_path code req = refl

    load_baseline-value :
        (policy_path : String) (code : ℤ) (req : GateRequest)
        → value_of (load_baseline w (flags_of path policy_path code req))
          ≡ value_of (baseline_stats h req.baseline_run_id)
    load_baseline-value policy_path code req =
        let id = req.baseline_run_id in
        ap value_of (load_baseline-branch policy_path code req)
        ∙ branch-value (str_eq id "") (load_endpoint_stats w path id) (get_endpoint_stats h.db id)
            (λ e. load_endpoint_stats-value id (ne_of_str_eq id "" e))

    load-value :
        (policy_path text : String)
        → w.read_file policy_path ≡ ok text
        → value_of (load w.read_file w.unmarshal policy_path) ≡ value_of (parse w.unmarshal text)
    unfolding load
    load-value policy_path text read =
        ap
          (λ r. value_of (
            wrap "policy: failed to read %s: %w" (policy_path ∷ []) r >>= λ t.
            wrap "policy: %s: %w" (policy_path ∷ []) (parse w.unmarshal t)))
          read
        ∙ value_of-wrap "policy: %s: %w" (policy_path ∷ []) (parse w.unmarshal text)

    -- The steps of the command behind the check of its arguments.
    command_steps : String → ℤ → GateRequest → Result (GateResult F)
    command_steps policy_path code req =
        steps (load w.read_file w.unmarshal policy_path)
          (load_endpoint_stats w path req.current_run_id)
          (load_baseline w (flags_of path policy_path code req))

    command_steps_lem :
        (policy_path : String) (code : ℤ) (req : GateRequest)
        → command_steps policy_path code req
          ≡ steps
              (load w.read_file w.unmarshal policy_path)
              (load_endpoint_stats w path req.current_run_id)
              (load_baseline w (flags_of path policy_path code req))
    unfolding command_steps
    command_steps_lem policy_path code req = refl

    check_flags-steps :
        (policy_path : String) (code : ℤ) (req : GateRequest)
        → gate_outcome w (flags_of path policy_path code req) ≡ (
            check_flags (flags_of path policy_path code req) >>= λ _.
            command_steps policy_path code req)
    unfolding gate_outcome command_steps
    check_flags-steps policy_path code req = refl

    check_flags-ok :
        (policy_path : String) (code : ℤ) (req : GateRequest)
        → policy_path ≢ ""
        → check_flags (flags_of path policy_path code req) ≡ ok tt
    unfolding check_flags
    check_flags-ok policy_path code req named =
        rw (str_eq_of_ne path "" filled, str_eq_of_ne policy_path "" named) refl

    gate_outcome-steps :
        (policy_path : String) (code : ℤ) (req : GateRequest)
        → policy_path ≢ ""
        → gate_outcome w (flags_of path policy_path code req) ≡ command_steps policy_path code req
    gate_outcome-steps policy_path code req named =
        check_flags-steps policy_path code req
        ∙ ap (λ r. r >>= λ _. command_steps policy_path code req)
            (check_flags-ok policy_path code req named)

    -- With one database behind both, a request to the gate endpoint is answered with a verdict just
    -- when the command has one for the same two runs and the same policy text, and it is the same
    -- verdict, findings and all. The request names its current run and holds a policy, and the
    -- command reads the policy from a file and writes for a terminal.
    pub handle_gate-gate_outcome :
        (req : GateRequest) (policy_path : String) (code : ℤ)
        → req.current_run_id ≢ ""
        → req.policy ≢ ""
        → policy_path ≢ ""
        → w.read_file policy_path ≡ ok req.policy
        → body_of (handle_gate w.unmarshal h (ok req))
          ≡ value_of (gate_outcome w (flags_of path policy_path code req))
    handle_gate-gate_outcome req policy_path code current policy file_named read =
        let flags = flags_of path policy_path code req in
        let loaded = load w.read_file w.unmarshal policy_path in
        let stats = load_endpoint_stats w path req.current_run_id in
        handle_gate-body w.unmarshal h req current policy
        ∙ ap₃ (λ p c b. evaluated p c b) (sym (load-value policy_path req.policy read))
            (sym (load_endpoint_stats-value req.current_run_id current))
            (sym (load_baseline-value policy_path code req))
        ∙ sym (value_of-steps loaded stats (load_baseline w flags))
        ∙ sym (
            ap value_of (
              gate_outcome-steps policy_path code req file_named
              ∙ command_steps_lem policy_path code req))
