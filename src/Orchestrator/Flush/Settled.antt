-- ===== src/Orchestrator/Flush/Settled.antt =====
-- The pods after a flush of all of them: `FlushAll` of sidecar-go/orchestrator/controller.go.
use duckdb_load_testing_tool.Prelude.{
  String, ◌≡◌, refl, sym, ap, ◌∙◌, Bool, true, false, ◌||◌, Option, none, some, List, [], ◌∷◌, map,
  arith, str_eq, eq_iff, Bool-cases, Option-cases, is_some, inl, inr,
}
use duckdb_load_testing_tool.Prelude.Dict.{lookup}
use duckdb_load_testing_tool.Prelude.Result.{ok, Error}
use duckdb_load_testing_tool.Orchestrator.{Pod, Controller}
use duckdb_load_testing_tool.Orchestrator.Pods.{names_of}
use duckdb_load_testing_tool.Orchestrator.Health.{
  Changed, update_pod-ok, Changed-twice, lookup-Changed, listed, listed-is_some, still_there,
}
use duckdb_load_testing_tool.Orchestrator.Flush.{
  FlushAnswer, FlushAllResult, flush_pod, settle_pod, start_flush, flush_round, flush_rounds,
  flush_endpoint, flush_all,
}

-- A pod after its flush.
abbrev pub settled : String → FlushAnswer → Pod → Pod
settled name answer = settle_pod (flush_pod name answer).error

settle_pod-start_flush :
    (e : Option Error) (p : Pod) → settle_pod e (start_flush p) ≡ settle_pod e p
settle_pod-start_flush none p = refl
settle_pod-start_flush (some e) p = refl

settle_pod_idem : (e : Option Error) (p : Pod) → settle_pod e (settle_pod e p) ≡ settle_pod e p
settle_pod_idem none p = refl
settle_pod_idem (some e) p = refl

flush_round-ok :
    (name : String) (answer : FlushAnswer) (p : Pod) (c : Controller)
    → lookup name c.pods ≡ some p
    → (c' : Controller) × (flush_round name answer c ≡ ok c')
      × Changed name (settled name answer p) c c'
unfolding flush_round
flush_round-ok name answer p c h =
    let e = (flush_pod name answer).error in
    let started : Pod = start_flush p in
    let (c1, u1, k1) = update_pod-ok name start_flush p c h in
    let (c2, u2, k2) =
      update_pod-ok name (settle_pod e) started c1 (lookup-Changed name started c c1 k1) in
    let k = Changed-twice name started (settle_pod e started) c c1 c2 k1 k2 in
    (c2, rw (u1, u2) refl, rw (← settle_pod-start_flush e p) k)

abbrev pub settled_if : Bool → String → FlushAnswer → Option Pod → Option Pod
settled_if true name answer (some p) = some (settled name answer p)
settled_if true name answer none = none
settled_if false name answer p = p

settled_if-settled :
    (b : Bool) (name : String) (answer : FlushAnswer) (p : Pod)
    → settled_if b name answer (some (settled name answer p)) ≡ some (settled name answer p)
settled_if-settled true name answer p = ap some (settle_pod_idem (flush_pod name answer).error p)
settled_if-settled false name answer p = refl

settled_step :
    (answers : String → FlushAnswer) (name : String) (rest : List String) (p : Pod)
    (c c1 : Controller) (j : String)
    → lookup name c.pods ≡ some p
    → Changed name (settled name (answers name) p) c c1
    → settled_if (listed j rest) j (answers j) (lookup j c1.pods)
      ≡ settled_if (str_eq name j || listed j rest) j (answers j) (lookup j c.pods)
settled_step answers name rest p c c1 j e (h, r) = elim (Bool-cases (str_eq name j)) [
  | inl s ↦
      let same = (eq_iff name j).0 s in
      let own : lookup j c.pods ≡ some p = ap (λ k. lookup k c.pods) (sym same) ∙ e in
      let answer = ap (λ k. some (settled k (answers k) p)) same in
      let after : lookup j c1.pods ≡ some (settled j (answers j) p) = rw (h j, s) answer in
      rw (s, own, after) (settled_if-settled (listed j rest) j (answers j) p)
  | inr s ↦ rw (h j, s) refl
]

flush_rounds-ok :
    (answers : String → FlushAnswer) (names : List String) (c : Controller)
    → ((j : String) → listed j names ≡ true → is_some (lookup j c.pods) ≡ true)
    → (c' : Controller) × (results : List FlushAllResult) × (flush_rounds answers names c
        ≡ ok (c', results))
      × (results ≡ map (λ name. flush_pod name (answers name)) names)
      × ((j : String)
          → lookup j c'.pods ≡ settled_if (listed j names) j (answers j) (lookup j c.pods))
      × (c'.runs ≡ c.runs)
unfolding flush_rounds
flush_rounds-ok answers [] c there = (c, [], refl, refl, (λ j. refl), refl)
flush_rounds-ok answers (name ∷ rest) c there =
    let here : is_some (lookup name c.pods) ≡ true =
      there name (ground (arith, eq_iff name name)) in
    elim (Option-cases (lookup name c.pods)) [
      | inl none_e ↦ absurd (ground (arith))
      | inr (p, e) ↦
          let after = settled name (answers name) p in
          let (c1, u1, k1) = flush_round-ok name (answers name) p c e in
          let (c2, results, u2, made, spec, r2) =
            flush_rounds-ok answers rest c1
              (λ j h. still_there name after c c1 j k1 (there j (ground arith))) in
          (
            c2,
            flush_pod name (answers name) ∷ results,
            rw (u1, u2) refl,
            ap (λ rs. flush_pod name (answers name) ∷ rs) made,
            (λ j. spec j ∙ settled_step answers name rest p c c1 j e k1),
            r2 ∙ k1.1,
          )
    ]

pub flush_all-settled :
    (answers : String → String → FlushAnswer) (upload : Bool) (c : Controller)
    → let names = names_of c.pods in
      let path = flush_endpoint upload in
      (c' : Controller) × (results : List FlushAllResult) × (flush_all answers upload c
        ≡ ok (c', results))
      × (results ≡ map (λ name. flush_pod name (answers name path)) names)
      × ((j : String)
          → lookup j c'.pods ≡ settled_if (listed j names) j (answers j path) (lookup j c.pods))
      × (c'.runs ≡ c.runs)
unfolding flush_all
flush_all-settled answers upload c =
    flush_rounds-ok (λ name. answers name (flush_endpoint upload)) (names_of c.pods) c
      (λ j h. listed-is_some j c.pods h)
