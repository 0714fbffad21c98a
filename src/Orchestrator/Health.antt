-- ===== src/Orchestrator/Health.antt =====
-- A health check of all pods, with no pod removed in between: sidecar-go/orchestrator/controller.go.
use duckdb_load_testing_tool.Prelude.{
  ◌≡◌, refl, sym, ap, ◌∙◌, String, Bool, true, false, ◌||◌, Option, none, some, List, [], ◌∷◌, any,
  arith, str_eq, eq_iff, if◌then◌else◌, Bool-cases, Option-cases, is_some, inl, inr,
}
use duckdb_load_testing_tool.Prelude.Int.{ℤ, pos, eqb_ℤ}
use duckdb_load_testing_tool.Prelude.Format.{show_ℤ}
use duckdb_load_testing_tool.Prelude.Dict.{Dict, lookup, insert, lookup-insert}
use duckdb_load_testing_tool.Prelude.Result.{ok, Error, formatted}
use duckdb_load_testing_tool.Orchestrator.{Pod, Controller}
use duckdb_load_testing_tool.Orchestrator.Pods.{
  update_pod, HealthAnswer, failed, answered, mark_health, health_round, health_rounds,
  health_check_all, names_of,
}

-- What is wrong with an answer.
abbrev pub fault_of : HealthAnswer → Option Error
fault_of (failed e) = some e
fault_of (answered code size) =
    if eqb_ℤ code (pos 200)
    then none
    else some (formatted "unhealthy status: %d" (show_ℤ code ∷ []))

abbrev with_size : Option ℤ → Pod → Pod
with_size none p = p
with_size (some n) p = record p { buffer_size = n }

-- A pod after its check.
abbrev pub checked : HealthAnswer → ℤ → Pod → Pod
checked (failed e) now p = mark_health (some e) now p
checked (answered code size) now p =
    if eqb_ℤ code (pos 200)
    then mark_health none now (with_size size p)
    else mark_health (fault_of (answered code size)) now p

-- The pods after one has changed.
abbrev pub Changed : String → Pod → Controller → Controller → Type 0
Changed name p c c' =
    ((j : String) → lookup j c'.pods ≡ (if str_eq name j then some p else lookup j c.pods))
    × (c'.runs ≡ c.runs)

pub update_pod-ok :
    (name : String) (f : Pod → Pod) (p : Pod) (c : Controller)
    → lookup name c.pods ≡ some p
    → (c' : Controller) × (update_pod name f c ≡ ok c') × Changed name (f p) c c'
unfolding update_pod
update_pod-ok name f p c h = (
  record c { pods = insert name (f p) c.pods },
  rw h refl,
  (λ j. lookup-insert name j (f p) c.pods, refl),
)

-- Two writes to one pod.
pub Changed-twice :
    (name : String) (p q : Pod) (c c1 c2 : Controller)
    → Changed name p c c1
    → Changed name q c1 c2
    → Changed name q c c2
Changed-twice name p q c c1 c2 (h, r) (h', r') = (λ j. ground (arith, h j, h' j), r' ∙ r)

pub lookup-Changed :
    (name : String) (p : Pod) (c c' : Controller)
    → Changed name p c c'
    → lookup name c'.pods ≡ some p
lookup-Changed name p c c' (h, r) = ground (arith, h name, eq_iff name name)

health_round-ok :
    (name : String) (answer : HealthAnswer) (now : ℤ) (p : Pod) (c : Controller)
    → lookup name c.pods ≡ some p
    → (c' : Controller) × (health_round name answer now c ≡ ok (c', fault_of answer))
      × Changed name (checked answer now p) c c'
unfolding health_round
health_round-ok name (failed e) now p c h =
    let (c', u, k) = update_pod-ok name (mark_health (some e) now) p c h in (c', rw u refl, k)
health_round-ok name (answered code none) now p c h = elim (Bool-cases (eqb_ℤ code (pos 200))) [
  | inl e ↦
      let (c', u, k) = update_pod-ok name (mark_health none now) p c h in
      (c', rw (e, u) refl, rw e k)
  | inr e ↦
      let (c', u, k) =
        update_pod-ok name
          (mark_health (some (formatted "unhealthy status: %d" (show_ℤ code ∷ []))) now) p c h in
      (c', rw (e, u) refl, rw e k)
]
health_round-ok name (answered code (some n)) now p c h = elim (Bool-cases (eqb_ℤ code (pos 200))) [
  | inl e ↦
      let sized : Pod = record p { buffer_size = n } in
      let (c1, u1, k1) = update_pod-ok name (λ q. record q { buffer_size = n }) p c h in
      let (c2, u2, k2) =
        update_pod-ok name (mark_health none now) sized c1 (lookup-Changed name sized c c1 k1) in
      (
        c2,
        rw (e, u1, u2) refl,
        rw e (Changed-twice name sized (mark_health none now sized) c c1 c2 k1 k2),
      )
  | inr e ↦
      let (c', u, k) =
        update_pod-ok name
          (mark_health (some (formatted "unhealthy status: %d" (show_ℤ code ∷ []))) now) p c h in
      (c', rw (e, u) refl, rw e k)
]

checked_idem :
    (answer : HealthAnswer) (now : ℤ) (p : Pod)
    → checked answer now (checked answer now p) ≡ checked answer now p
checked_idem (failed e) now p = refl
checked_idem (answered code none) now p = elim (Bool-cases (eqb_ℤ code (pos 200))) [
  | inl e ↦ rw e refl
  | inr e ↦ rw e refl
]
checked_idem (answered code (some n)) now p = elim (Bool-cases (eqb_ℤ code (pos 200))) [
  | inl e ↦ rw e refl
  | inr e ↦ rw e refl
]

abbrev pub listed : String → List String → Bool
listed j = any (λ k. str_eq k j)

abbrev pub checked_if : Bool → HealthAnswer → ℤ → Option Pod → Option Pod
checked_if true answer now (some p) = some (checked answer now p)
checked_if true answer now none = none
checked_if false answer now p = p

pub still_there :
    (name : String) (p : Pod) (c c1 : Controller) (j : String)
    → Changed name p c c1
    → is_some (lookup j c.pods) ≡ true
    → is_some (lookup j c1.pods) ≡ true
still_there name p c c1 j (h, r) e = ground (arith, h j)

pub listed-is_some :
    {A : Type 0}
    → (j : String) (m : Dict A) → listed j (names_of m) ≡ true
    → is_some (lookup j m) ≡ true
unfolding lookup
listed-is_some j [] h = ground (arith)
listed-is_some j ((k, a) ∷ m) h = ground (arith, listed-is_some j m)

checked_if-checked :
    (b : Bool) (answer : HealthAnswer) (now : ℤ) (p : Pod)
    → checked_if b answer now (some (checked answer now p)) ≡ some (checked answer now p)
checked_if-checked true answer now p = ap some (checked_idem answer now p)
checked_if-checked false answer now p = refl

pods_step :
    (answers : String → HealthAnswer) (now : ℤ) (name : String) (rest : List String) (p : Pod)
    (c c1 : Controller) (j : String)
    → lookup name c.pods ≡ some p
    → Changed name (checked (answers name) now p) c c1
    → checked_if (listed j rest) (answers j) now (lookup j c1.pods)
      ≡ checked_if (str_eq name j || listed j rest) (answers j) now (lookup j c.pods)
pods_step answers now name rest p c c1 j e (h, r) = elim (Bool-cases (str_eq name j)) [
  | inl s ↦
      let same = (eq_iff name j).0 s in
      let own : lookup j c.pods ≡ some p = ap (λ k. lookup k c.pods) (sym same) ∙ e in
      let answer = ap (λ k. some (checked (answers k) now p)) same in
      let after : lookup j c1.pods ≡ some (checked (answers j) now p) = rw (h j, s) answer in
      rw (s, own, after) (checked_if-checked (listed j rest) (answers j) now p)
  | inr s ↦ rw (h j, s) refl
]

results_step :
    (answers : String → HealthAnswer) (name j : String) (b : Bool) (r : Option (Option Error))
    → r ≡ (if b then some (fault_of (answers j)) else none)
    → (if str_eq name j then some (fault_of (answers name)) else r)
      ≡ (if str_eq name j || b then some (fault_of (answers j)) else none)
results_step answers name j b r h = elim (Bool-cases (str_eq name j)) [
  | inl s ↦ rw s (ap (λ k. some (fault_of (answers k))) ((eq_iff name j).0 s))
  | inr s ↦ rw s h
]

health_rounds-ok :
    (answers : String → HealthAnswer) (now : ℤ) (names : List String) (c : Controller)
    → ((j : String) → listed j names ≡ true → is_some (lookup j c.pods) ≡ true)
    → (c' : Controller) × (results : Dict (Option Error)) × (health_rounds answers now names c
        ≡ ok (c', results))
      × ((j : String)
          → (lookup j c'.pods ≡ checked_if (listed j names) (answers j) now (lookup j c.pods))
            × (lookup j results ≡ (if listed j names then some (fault_of (answers j)) else none)))
      × (c'.runs ≡ c.runs)
unfolding health_rounds
health_rounds-ok answers now [] c there = (c, [], refl, (λ j. (refl, unfold lookup in refl)), refl)
health_rounds-ok answers now (name ∷ rest) c there =
    let here : is_some (lookup name c.pods) ≡ true =
      there name (ground (arith, eq_iff name name)) in
    elim (Option-cases (lookup name c.pods)) [
      | inl none_e ↦ absurd (ground (arith))
      | inr (p, e) ↦
          let (c1, u1, k1) = health_round-ok name (answers name) now p c e in
          let (c2, results, u2, spec, r2) = health_rounds-ok answers now rest c1 (λ j h.
            still_there name (checked (answers name) now p) c c1 j k1 (there j (ground arith))) in
          (
            c2,
            insert name (fault_of (answers name)) results,
            rw (u1, u2) refl,
            (λ j. (
              (spec j).0 ∙ pods_step answers now name rest p c c1 j e k1,
              lookup-insert name j (fault_of (answers name)) results
                  ∙ results_step answers name j (listed j rest) (lookup j results) (spec j).1,
            )),
            r2 ∙ k1.1,
          )
    ]

pub health_check_all-checked :
    (answers : String → HealthAnswer) (now : ℤ) (c : Controller)
    → (c' : Controller) × (results : Dict (Option Error)) × (health_check_all answers now c
        ≡ ok (c', results))
      × ((j : String)
          → (lookup j c'.pods
              ≡ checked_if (listed j (names_of c.pods)) (answers j) now (lookup j c.pods))
            × (lookup j results
                ≡ (if listed j (names_of c.pods) then some (fault_of (answers j)) else none)))
      × (c'.runs ≡ c.runs)
unfolding health_check_all
health_check_all-checked answers now c =
    health_rounds-ok answers now (names_of c.pods) c (λ j h. listed-is_some j c.pods h)
