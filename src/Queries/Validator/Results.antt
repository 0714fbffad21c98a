-- ===== src/Queries/Validator/Results.antt =====
-- What a run over all queries returns: sidecar-go/analysis/validator/validator.go.
use mathlib.Core.Path.{subst}
use mathlib.Core.List.{append-nil, append_assoc}
use duckdb_load_testing_tool.Prelude.{
  ◌≡◌, refl, sym, ap, ◌∙◌, List, [], ◌∷◌, ◌++◌, Option, none, some, inl, inr,
}
use duckdb_load_testing_tool.Prelude.Dict.{Dict}
use duckdb_load_testing_tool.Prelude.Result.{Error, ok, err, Result-cases}
use duckdb_load_testing_tool.Queries.{Query}
use duckdb_load_testing_tool.Queries.Catalog.{all}
use duckdb_load_testing_tool.Queries.Validator.{
  Validation, Connection, validate, validate_each, validate_all, or_stop,
}

module _ {A : Type 0} (db : Connection A) (params_for : Query → List A) where
  -- The results of the queries, one for each.
  abbrev pub AreValid : List Query → List Validation → Type 0
  AreValid [] [] = Unit
  AreValid (q ∷ qs) (r ∷ rs) = (validate db q (params_for q) ≡ ok r) × AreValid qs rs
  AreValid [] (r ∷ rs) = ⊥
  AreValid (q ∷ qs) [] = ⊥

  -- Where the run over the queries has stopped: behind the last, or at one that fails.
  abbrev pub StopsAt : List Query → Option Error → Type 0
  StopsAt [] none = Unit
  StopsAt (q ∷ rest) (some e) = validate db q (params_for q) ≡ err e
  StopsAt [] (some e) = ⊥
  StopsAt (q ∷ rest) none = ⊥

  -- What a run over some queries returns, after the results so far.
  abbrev Outcome : List Query → List Validation → List Validation × Option Error → Type 0
  Outcome qs before (results, e) =
      (passed : List Query) × (rest : List Query) × (found : List Validation) × (qs
        ≡ passed ++ rest)
      × (results ≡ before ++ found)
      × AreValid passed found
      × StopsAt rest e

  validate_each-accepted :
      (q : Query) (qs : List Query) (before : List Validation) (r : Validation)
      → validate db q (params_for q) ≡ ok r
      → validate_each db params_for (q ∷ qs) before
        ≡ validate_each db params_for qs (before ++ r ∷ [])
  unfolding validate_each
  validate_each-accepted q qs before r e =
      ap (λ v. or_stop before v (λ x. validate_each db params_for qs (before ++ x ∷ []))) e

  validate_each-refused :
      (q : Query) (qs : List Query) (before : List Validation) (e : Error)
      → validate db q (params_for q) ≡ err e
      → validate_each db params_for (q ∷ qs) before ≡ (before, some e)
  unfolding validate_each
  validate_each-refused q qs before e h =
      ap (λ v. or_stop before v (λ x. validate_each db params_for qs (before ++ x ∷ []))) h

  validate_each-Outcome :
      (qs : List Query) (before : List Validation)
      → Outcome qs before (validate_each db params_for qs before)
  validate_each-Outcome [] before =
      unfold validate_each in ([], [], [], refl, sym (append-nil before), tt, tt)
  validate_each-Outcome (q ∷ qs) before = elim (Result-cases (validate db q (params_for q))) [
    | inl (r, e) ↦
        let (passed, rest, found, split, results, valid, stops) =
          validate_each-Outcome qs (before ++ r ∷ []) in
        subst (Outcome (q ∷ qs) before) (sym (validate_each-accepted q qs before r e)) (
          q ∷ passed,
          rest,
          r ∷ found,
          ap (λ ps. q ∷ ps) split,
          results ∙ append_assoc before (r ∷ []) found,
          (e, valid),
          stops,
        )
    | inr (failure, e) ↦
        subst (Outcome (q ∷ qs) before) (sym (validate_each-refused q qs before failure e))
          ([], q ∷ qs, [], refl, sym (append-nil before), tt, e)
  ]

  -- `ValidateAll` takes the queries of the catalog in the order of `All` and returns one result for
  -- each until the first that fails, whose error it returns. Without an error it has validated all.
  pub validate_all-results :
      (catalog : Dict Query)
      → let (results, e) = validate_all db params_for catalog in
        (passed : List Query) × (rest : List Query) × (all catalog ≡ passed ++ rest)
        × AreValid passed results
        × StopsAt rest e
  unfolding validate_all
  validate_all-results catalog =
      let (passed, rest, found, split, results, valid, stops) =
        validate_each-Outcome (all catalog) [] in
      (passed, rest, split, subst (AreValid passed) (sym results) valid, stops)
