-- ===== src/Gate/Endpoints.antt =====
-- The endpoints that only one of the two runs has.
use duckdb_load_testing_tool.Prelude.{
  String, ◌≡◌, refl, ◌∙◌, ap, some, List, [], ◌∷◌, Bool, false, not, ◌&&◌, ◌||◌, arith, str_eq,
  eq_iff, is_some,
}
use duckdb_load_testing_tool.Prelude.Text.{string_lt, string_lt_asymm}
use duckdb_load_testing_tool.Prelude.Dict.{Dict, lookup, insert, lookup-insert}
use duckdb_load_testing_tool.Prelude.Sorting.{sort_by, insert_sorted, IsSorted, sort_by-IsSorted}
use duckdb_load_testing_tool.Float.{Float64}
use duckdb_load_testing_tool.Policy.{Policy}
use duckdb_load_testing_tool.Analysis.Endpoint.{EndpointStats, index, by_endpoint}
use duckdb_load_testing_tool.Gate.Evaluation.{
  named, new_endpoints_of, absent_keys, removed_endpoints_of, evaluate,
}

-- Whether a list holds a name.
abbrev pub member : String → List String → Bool
member x [] = false
member x (y ∷ ys) = str_eq y x || member x ys

member-insert_sorted :
    (x y : String) (ys : List String)
    → member x (insert_sorted string_lt y ys) ≡ (str_eq y x || member x ys)
unfolding insert_sorted
member-insert_sorted x y [] = refl
member-insert_sorted x y (z ∷ zs) = ground (arith, member-insert_sorted x y zs)

member-sort_by : (x : String) (ys : List String) → member x (sort_by string_lt ys) ≡ member x ys
unfolding sort_by
member-sort_by x [] = refl
member-sort_by x (y ∷ ys) =
    ground (arith, member-insert_sorted x y (sort_by string_lt ys), member-sort_by x ys)

module _ {F : Type 0} ⦃d : Float64 F⦄ where
  lookup-index :
      (x : String) (stats : List (EndpointStats F)) (m : Dict (EndpointStats F))
      → is_some (lookup x (index stats m)) ≡ (named x stats || is_some (lookup x m))
  unfolding index named
  lookup-index x [] m = refl
  lookup-index x (s ∷ rest) m =
      ground (arith, lookup-index x rest (insert s.endpoint s m), lookup-insert s.endpoint x s m)

  lookup-by_endpoint :
      (x : String) (stats : List (EndpointStats F))
      → is_some (lookup x (by_endpoint stats)) ≡ named x stats
  unfolding by_endpoint lookup
  lookup-by_endpoint x stats = ground (arith, lookup-index x stats [])

  member-new_endpoints_of :
      (x : String) (base : Dict (EndpointStats F)) (current : List (EndpointStats F))
      → member x (new_endpoints_of (some base) current)
        ≡ (named x current && not (is_some (lookup x base)))
  unfolding new_endpoints_of named
  member-new_endpoints_of x base [] = refl
  member-new_endpoints_of x base (cur ∷ rest) =
      ground (arith, member-new_endpoints_of x base rest, eq_iff cur.endpoint x)

  member-absent_keys :
      (x : String) (current : List (EndpointStats F)) (base : Dict (EndpointStats F))
      → member x (absent_keys current base) ≡ (is_some (lookup x base) && not (named x current))
  unfolding absent_keys lookup
  member-absent_keys x current [] = refl
  member-absent_keys x current ((name, s) ∷ rest) =
      ground (arith, member-absent_keys x current rest, eq_iff name x)

  -- With a baseline run, the endpoints reported as new are just those that the current run has and
  -- the baseline lacks, the removed ones just those that the baseline has and the current run lacks,
  -- and both lists are sorted.
  pub evaluate-endpoints :
      (current baseline : List (EndpointStats F)) (pol : Policy F)
      → let r = evaluate current (some baseline) pol in
        ((x : String)
          → (member x r.new_endpoints ≡ (named x current && not (named x baseline)))
            × (member x r.removed_endpoints ≡ (named x baseline && not (named x current))))
        × IsSorted string_lt r.new_endpoints
        × IsSorted string_lt r.removed_endpoints
  unfolding evaluate
  evaluate-endpoints current baseline pol =
      let base = by_endpoint baseline in
      (
        λ x. (
          member-sort_by x (new_endpoints_of (some base) current)
              ∙ member-new_endpoints_of x base current
              ∙ ap (λ b. named x current && not b) (lookup-by_endpoint x baseline),
          member-sort_by x (removed_endpoints_of (some base) current)
              ∙ member-absent_keys x current base
              ∙ ap (λ b. b && not (named x current)) (lookup-by_endpoint x baseline),
        ),
        sort_by-IsSorted string_lt string_lt_asymm (new_endpoints_of (some base) current),
        sort_by-IsSorted string_lt string_lt_asymm (removed_endpoints_of (some base) current),
      )
