-- ===== src/Gate/Verdict.antt =====
-- What `build` makes of a list of findings: the overall status, the counts and the violations.
use mathlib.Core.Path.{subst}
use mathlib.Core.List.{Perm, append-nil, append_assoc}
use mathlib.Core.List.Perm
use duckdb_load_testing_tool.Prelude.{
  String, ◌≡◌, refl, sym, ap, ◌∙◌, inl, inr, Bool-cases, List, [], ◌∷◌, ◌++◌, Bool, true, false,
  not, ℕ, ◌+◌, arith, if◌then◌else◌, length, keep, any, eq_iff,
}
use duckdb_load_testing_tool.Prelude.Text.{string_lt_asymm}
use duckdb_load_testing_tool.Prelude.Sorting.{IsSorted, sort_by-IsSorted, sort_by-perm}
use duckdb_load_testing_tool.Policy.{Status, pass, warn, fail, unknown, Policy}
use duckdb_load_testing_tool.Policy.Load.{IsTreatment}
use duckdb_load_testing_tool.Gate.Types.{Finding, Summary, is_pass, check_text}
use duckdb_load_testing_tool.Gate.Build.{
  Tally, nothing_yet, worse, effective_status, tally_step, tally_from, violation_less, build,
}

abbrev pub is_fail : Status → Bool
is_fail fail = true
is_fail _ = false

abbrev pub is_warn : Status → Bool
is_warn warn = true
is_warn _ = false

abbrev pub is_unknown : Status → Bool
is_unknown unknown = true
is_unknown _ = false

module _ {F : Type 0} where
  -- A finding that counts as a failure, or as a warning, once UNKNOWN findings are treated.
  abbrev pub counts_as_fail : Status → Finding F → Bool
  counts_as_fail treatment f = is_fail (effective_status treatment f.status)

  abbrev pub counts_as_warn : Status → Finding F → Bool
  counts_as_warn treatment f = is_warn (effective_status treatment f.status)

  -- The specification of the overall status.
  abbrev pub verdict : Status → List (Finding F) → Status
  verdict treatment findings =
      if any (counts_as_fail treatment) findings
      then fail
      else if any (counts_as_warn treatment) findings
      then warn
      else pass

  worse-verdict :
      (treatment : Status) (w : Status) (f : Finding F) (fs : List (Finding F))
      → IsTreatment treatment
      → IsTreatment w
      → worse (worse w (effective_status treatment f.status)) (verdict treatment fs)
        ≡ worse w (verdict treatment (f ∷ fs))
  unfolding worse
  worse-verdict treatment w f fs ht hw = ground arith

  worse-pass :
      (treatment : Status) (fs : List (Finding F))
      → worse pass (verdict treatment fs) ≡ verdict treatment fs
  unfolding worse
  worse-pass treatment fs = ground arith

  worse-IsTreatment :
      (treatment : Status) (w : Status) (f : Finding F)
      → IsTreatment treatment
      → IsTreatment w
      → IsTreatment (worse w (effective_status treatment f.status))
  unfolding worse
  worse-IsTreatment treatment w f ht hw = ground arith

  worst-tally_step :
      (treatment : Status) (f : Finding F) (t : Tally F)
      → IsTreatment t.worst
      → (tally_step treatment f t).worst ≡ worse t.worst (effective_status treatment f.status)
  unfolding tally_step
  worst-tally_step treatment f t h = ground arith

  worst-tally_from :
      (treatment : Status) (fs : List (Finding F)) (t : Tally F)
      → IsTreatment treatment
      → IsTreatment t.worst
      → (tally_from treatment t fs).worst ≡ worse t.worst (verdict treatment fs)
  unfolding tally_from
  worst-tally_from treatment [] t ht hw = unfold worse in ground arith
  worst-tally_from treatment (f ∷ fs) t ht hw =
      let e = worst-tally_step treatment f t hw in
      worst-tally_from treatment fs (tally_step treatment f t) ht
        (rw e (worse-IsTreatment treatment t.worst f ht hw))
      ∙ rw e (worse-verdict treatment t.worst f fs ht hw)

  -- The overall status is FAIL exactly when a finding counts as a failure, else WARN when one counts
  -- as a warning, and PASS otherwise, where an UNKNOWN finding counts as the policy treats it.
  pub build-verdict :
      (pol : Policy F) (findings : List (Finding F)) (added removed : List String)
      → IsTreatment pol.unknown_treatment
      → (build pol findings added removed).status ≡ verdict pol.unknown_treatment findings
  unfolding build
  build-verdict pol findings added removed h =
      worst-tally_from pol.unknown_treatment findings nothing_yet h (inl refl)
      ∙ worse-pass pol.unknown_treatment findings

  -- How many findings have a status.
  abbrev pub count_of : (Status → Bool) → List (Finding F) → ℕ
  count_of p findings = length (keep (λ f. p f.status) findings)

  -- The counts of a summary are those of the findings on top of `base`.
  abbrev Counts : Summary → Summary → List (Finding F) → Type 0
  Counts s base fs =
      (s.passed ≡ base.passed + count_of is_pass fs)
      × (s.warned ≡ base.warned + count_of is_warn fs)
      × (s.failed ≡ base.failed + count_of is_fail fs)
      × (s.unknown ≡ base.unknown + count_of is_unknown fs)

  tally_step-Counts :
      (treatment : Status) (f : Finding F) (t : Tally F)
      → Counts (tally_step treatment f t).summary t.summary (f ∷ [])
  unfolding tally_step
  tally_step-Counts treatment f t = ground arith

  tally_from-Counts :
      (treatment : Status) (fs : List (Finding F)) (t : Tally F)
      → Counts (tally_from treatment t fs).summary t.summary fs
  unfolding tally_from
  tally_from-Counts treatment [] t = omega arith
  tally_from-Counts treatment (f ∷ fs) t = ground (
    arith,
    tally_step-Counts treatment f t,
    tally_from-Counts treatment fs (tally_step treatment f t),
  )

  violations-tally_step :
      (treatment : Status) (f : Finding F) (t : Tally F)
      → (tally_step treatment f t).violations
        ≡ t.violations ++ (if is_pass f.status then [] else f ∷ [])
  unfolding tally_step
  violations-tally_step treatment f t = elim (Bool-cases (is_pass f.status)) [
    | inl e ↦ rw e (sym (append-nil t.violations))
    | inr e ↦ rw e refl
  ]

  -- The findings that are no PASS.
  abbrev pub violating : List (Finding F) → List (Finding F)
  violating = keep (λ f. not (is_pass f.status))

  violating-cons :
      (v : List (Finding F)) (f : Finding F) (fs : List (Finding F))
      → (v ++ (if is_pass f.status then [] else f ∷ [])) ++ violating fs ≡ v ++ violating (f ∷ fs)
  violating-cons v f fs = elim (Bool-cases (is_pass f.status)) [
    | inl e ↦ rw e (ap (λ w. w ++ violating fs) (append-nil v))
    | inr e ↦ rw e (append_assoc v (f ∷ []) (violating fs))
  ]

  violations-tally_from :
      (treatment : Status) (fs : List (Finding F)) (t : Tally F)
      → (tally_from treatment t fs).violations ≡ t.violations ++ violating fs
  unfolding tally_from
  violations-tally_from treatment [] t = sym (append-nil t.violations)
  violations-tally_from treatment (f ∷ fs) t =
      violations-tally_from treatment fs (tally_step treatment f t)
      ∙ ap (λ v. v ++ violating fs) (violations-tally_step treatment f t)
      ∙ violating-cons t.violations f fs

  -- The summary counts every finding under its own status, whatever the treatment of UNKNOWN ones.
  pub build-Counts :
      (pol : Policy F) (findings : List (Finding F)) (added removed : List String)
      → let s = (build pol findings added removed).summary in
        (s.passed ≡ count_of is_pass findings)
        × (s.warned ≡ count_of is_warn findings)
        × (s.failed ≡ count_of is_fail findings)
        × (s.unknown ≡ count_of is_unknown findings)
  unfolding build
  build-Counts pol findings added removed =
      omega (arith, tally_from-Counts pol.unknown_treatment findings nothing_yet)

  less_asymm : (a b : Finding F) → violation_less a b ≡ true → violation_less b a ≡ false
  unfolding violation_less
  less_asymm a b h = ground (
    arith,
    eq_iff a.scope b.scope,
    eq_iff b.scope a.scope,
    eq_iff a.metric b.metric,
    eq_iff b.metric a.metric,
    string_lt_asymm a.scope b.scope,
    string_lt_asymm a.metric b.metric,
    string_lt_asymm (check_text a.check) (check_text b.check),
  )

  -- The violations are the findings that are no PASS, each of them once and no other, in the order
  -- of their endpoint, metric and check.
  pub build-violations :
      (pol : Policy F) (findings : List (Finding F)) (added removed : List String)
      → let v = (build pol findings added removed).violations in
        Perm v (violating findings) × IsSorted violation_less v
  unfolding build
  build-violations pol findings added removed =
      let t = tally_from pol.unknown_treatment nothing_yet findings in
      let e = violations-tally_from pol.unknown_treatment findings nothing_yet in
      (
        Perm.trans (sort_by-perm violation_less t.violations)
            (subst (λ v. Perm t.violations v) e (Perm.refl _)),
        sort_by-IsSorted violation_less less_asymm t.violations,
      )
