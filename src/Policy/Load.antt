-- ===== src/Policy/Load.antt =====
-- What `Parse` accepts.
use duckdb_load_testing_tool.Prelude.{
  String, ◌≡◌, ◌≢◌, refl, sym, ap, ◌∙◌, ◌↔◌, ◌⊎◌, inl, inr, arith, eq_iff,
}
use duckdb_load_testing_tool.Prelude.Int.{eqb_ℤ-eq}
use duckdb_load_testing_tool.Prelude.Result.{Error, Result, ok, err, ◌>>◌, Result-cases}
use duckdb_load_testing_tool.Policy.{
  Policy, Status, pass, warn, fail, other, parse, validate, schema_version, with_default_treatment,
}

-- PASS, WARN or FAIL: the treatments by which an UNKNOWN finding can count.
abbrev pub IsTreatment : Status → Type 0
IsTreatment s = (s ≡ pass) ⊎ (s ≡ warn) ⊎ (s ≡ fail)

module _ {F : Type 0} where
  -- What `Parse` makes of a decoded policy.
  abbrev checked : Policy F → Result (Policy F)
  checked q = validate q >> ok (with_default_treatment q)

  parse-eq-checked :
      (unmarshal : String → Result (Policy F)) (text : String) (q : Policy F)
      → unmarshal text ≡ ok q
      → parse unmarshal text ≡ checked q
  unfolding parse
  parse-eq-checked unmarshal text q e = rw e

  parse-ne-ok :
      (unmarshal : String → Result (Policy F)) (text : String) (e : Error) (p : Policy F)
      → unmarshal text ≡ err e
      → parse unmarshal text ≢ ok p
  unfolding parse
  parse-ne-ok unmarshal text e p u = rw u (λ h. cc)

  version_of_checked : (q p : Policy F) → checked q ≡ ok p → p.version ≡ schema_version
  unfolding validate
  version_of_checked q p h = ground (arith, eqb_ℤ-eq q.version schema_version)

  checked-IsTreatment :
      (q p : Policy F)
      → checked q ≡ ok p
      → IsTreatment p.unknown_treatment
        × ((q.unknown_treatment ≡ p.unknown_treatment)
            ⊎ ((q.unknown_treatment ≡ other "") × (p.unknown_treatment ≡ warn)))
  unfolding validate
  checked-IsTreatment q p h = go q.unknown_treatment refl
    where
      go :
          (s : Status)
          → q.unknown_treatment ≡ s
          → IsTreatment p.unknown_treatment
            × ((q.unknown_treatment ≡ p.unknown_treatment)
                ⊎ ((q.unknown_treatment ≡ other "") × (p.unknown_treatment ≡ warn)))
      go (other t) e = ground (arith, eq_iff t "")
      go _ e = ground arith

  rest_of_checked :
      (q p : Policy F) → checked q ≡ ok p → (p.defaults ≡ q.defaults) × (p.endpoints ≡ q.endpoints)
  unfolding validate
  rest_of_checked q p h = ground arith

  version_of_accepted : (q p : Policy F) → checked q ≡ ok p → q.version ≡ schema_version
  unfolding validate
  version_of_accepted q p h = ground (arith, eqb_ℤ-eq q.version schema_version)

  checked_of :
      (q : Policy F)
      → q.version ≡ schema_version
      → IsTreatment q.unknown_treatment ⊎ (q.unknown_treatment ≡ other "")
      → checked q ≡ ok (with_default_treatment q)
  unfolding validate
  checked_of q v t = ground arith

  -- A policy that `Parse` returns has the supported version, and its treatment of UNKNOWN findings
  -- is PASS, WARN or FAIL: the decoded one, or WARN where the decoded one is the empty text. Its
  -- defaults and its endpoint entries are those that the decoder returned.
  pub parse-IsTreatment :
      (unmarshal : String → Result (Policy F)) (text : String) (p : Policy F)
      → parse unmarshal text ≡ ok p
      → (p.version ≡ schema_version)
        × IsTreatment p.unknown_treatment
        × ((q : Policy F) × (unmarshal text ≡ ok q)
            × (p.defaults ≡ q.defaults)
            × (p.endpoints ≡ q.endpoints)
            × ((q.unknown_treatment ≡ p.unknown_treatment)
                ⊎ ((q.unknown_treatment ≡ other "") × (p.unknown_treatment ≡ warn))))
  parse-IsTreatment unmarshal text p h = elim (Result-cases (unmarshal text)) [
    | inl (q, e) ↦
        let c : checked q ≡ ok p = sym (parse-eq-checked unmarshal text q e) ∙ h in
        let t = checked-IsTreatment q p c in
        let r = rest_of_checked q p c in (version_of_checked q p c, t.0, (q, e, r.0, r.1, t.1))
    | inr (x, e) ↦ absurd (parse-ne-ok unmarshal text x p e h)
  ]

  -- `Parse` accepts every decoded policy of the supported version whose treatment of UNKNOWN
  -- findings is PASS, WARN, FAIL or the empty text, and refuses every other text.
  pub parse-ok_iff :
      (unmarshal : String → Result (Policy F)) (text : String)
      → ((p : Policy F) × (parse unmarshal text ≡ ok p)) ↔ (
          (q : Policy F) × (unmarshal text ≡ ok q)
          × (q.version ≡ schema_version)
          × (IsTreatment q.unknown_treatment ⊎ (q.unknown_treatment ≡ other "")))
  parse-ok_iff unmarshal text = (
    λ (p, h). elim (Result-cases (unmarshal text)) [
      | inl (q, e) ↦
          let c : checked q ≡ ok p = sym (parse-eq-checked unmarshal text q e) ∙ h in
          (q, e, version_of_accepted q p c, ground (arith, checked-IsTreatment q p c))
      | inr (x, e) ↦ absurd (parse-ne-ok unmarshal text x p e h)
    ],
    λ (q, e, v, t).
        (with_default_treatment q, parse-eq-checked unmarshal text q e ∙ checked_of q v t),
  )

  -- What `Parse` returns for a decoded policy that it accepts.
  abbrev pub Accepted : Policy F → Policy F → Type 0
  Accepted q p =
      (q.version ≡ schema_version)
      × ((IsTreatment q.unknown_treatment × (p ≡ q))
          ⊎ ((q.unknown_treatment ≡ other "") × (p ≡ record q { unknown_treatment = warn })))

  checked-Accepted : (q p : Policy F) → checked q ≡ ok p → Accepted q p
  unfolding validate
  checked-Accepted q p h = go q.unknown_treatment refl
    where
      go : (s : Status) → q.unknown_treatment ≡ s → Accepted q p
      go (other t) e = ground (arith, eq_iff t "", eqb_ℤ-eq q.version schema_version)
      go _ e = ground (arith, eqb_ℤ-eq q.version schema_version)

  with_default_treatment-Accepted : (q p : Policy F) → Accepted q p → with_default_treatment q ≡ p
  with_default_treatment-Accepted q p (v, inl (t, e)) = ground arith
  with_default_treatment-Accepted q p (v, inr (t, e)) = ground arith

  Accepted-cases :
      (q p : Policy F)
      → Accepted q p
      → IsTreatment q.unknown_treatment ⊎ (q.unknown_treatment ≡ other "")
  Accepted-cases q p (v, inl (t, e)) = inl t
  Accepted-cases q p (v, inr (t, e)) = inr t

  -- `Parse` returns a policy just when the text decodes to one of the supported version: the decoded
  -- policy where it treats UNKNOWN findings as PASS, WARN or FAIL, and the decoded policy with the
  -- treatment WARN where that setting is the empty text. It refuses every other text.
  pub parse-Accepted :
      (unmarshal : String → Result (Policy F)) (text : String) (p : Policy F)
      → (parse unmarshal text ≡ ok p) ↔ ((q : Policy F) × (unmarshal text ≡ ok q) × Accepted q p)
  parse-Accepted unmarshal text p = (
    λ h. elim (Result-cases (unmarshal text)) [
      | inl (q, e) ↦ (q, e, checked-Accepted q p (sym (parse-eq-checked unmarshal text q e) ∙ h))
      | inr (x, e) ↦ absurd (parse-ne-ok unmarshal text x p e h)
    ],
    λ (q, e, a).
        parse-eq-checked unmarshal text q e
        ∙ checked_of q a.0 (Accepted-cases q p a)
        ∙ ap ok (with_default_treatment-Accepted q p a),
  )
