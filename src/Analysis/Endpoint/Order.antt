-- ===== src/Analysis/Endpoint/Order.antt =====
-- The result of `GetEndpointStats` beside the rows of its query.
use mathlib.Core.List.{append_assoc, append-nil}
use text.Mathlib.TextPositions.{eq_refl}
use duckdb_load_testing_tool.Prelude.{
  String, ◌≡◌, refl, ap, ◌∙◌, Option, none, some, List, [], ◌∷◌, ◌++◌, map, false, arith, str_eq,
  eq_iff, All, Option-cases, inl, inr,
}
use duckdb_load_testing_tool.Prelude.Dict.{Dict, lookup, insert, lookup-insert}
use duckdb_load_testing_tool.Prelude.Result.{Error, ok}
use duckdb_load_testing_tool.Float.{Float64}
use duckdb_load_testing_tool.Analysis.Database.{Database, Cursor, SummaryRow, StatusRow, for_rows}
use duckdb_load_testing_tool.Analysis.Endpoint.{
  EndpointStats, stats_of_row, collect, distribute, add_status, gather, assemble,
  get_endpoint_stats,
}

-- Rows that all arrive.
abbrev pub delivered : {R : Type 0} → List R → Cursor R
delivered rows = record { rows = map ok rows; rows_err = none }

module _ {F : Type 0} ⦃d : Float64 F⦄ where
  abbrev names : List (SummaryRow F) → List String
  names [] = []
  names (r ∷ rest) = r.endpoint ∷ names rest

  -- No two rows have the same endpoint.
  abbrev pub IsDistinct : List (SummaryRow F) → Type 0
  IsDistinct [] = Unit
  IsDistinct (r ∷ rest) = All (λ q. str_eq q.endpoint r.endpoint ≡ false) rest × IsDistinct rest

  -- The statistics without the status distribution, which the second query fills.
  abbrev pub core : EndpointStats F → EndpointStats F
  core s = record s { status_distribution = [] }

  index_rows : List (SummaryRow F) → Dict (EndpointStats F) → Dict (EndpointStats F)
  index_rows [] m = m
  index_rows (r ∷ rest) m = index_rows rest (insert r.endpoint (stats_of_row r) m)

  for_rows-collect :
      (on_err : Error → Error) (rows : List (SummaryRow F)) (m : Dict (EndpointStats F))
      (order : List String)
      → for_rows on_err collect (map ok rows) (m, order)
        ≡ ok (index_rows rows m, order ++ names rows)
  unfolding for_rows index_rows
  for_rows-collect on_err [] m order = rw append-nil
  for_rows-collect on_err (r ∷ rest) m order =
      for_rows-collect on_err rest (insert r.endpoint (stats_of_row r) m) (order ++ r.endpoint ∷ [])
      ∙ rw (append_assoc order (r.endpoint ∷ []) (names rest))

  lookup-index_rows_other :
      (x : String) (rows : List (SummaryRow F)) (m : Dict (EndpointStats F))
      → All (λ q. str_eq q.endpoint x ≡ false) rows
      → lookup x (index_rows rows m) ≡ lookup x m
  unfolding index_rows
  lookup-index_rows_other x [] m h = refl
  lookup-index_rows_other x (r ∷ rest) m (h, hs) =
      lookup-index_rows_other x rest (insert r.endpoint (stats_of_row r) m) hs
      ∙ lookup-insert r.endpoint x (stats_of_row r) m
      ∙ rw h

  -- The entry of each row.
  abbrev Holds : Dict (EndpointStats F) → SummaryRow F → Type 0
  Holds m r = lookup r.endpoint m ≡ some (stats_of_row r)

  index_rows-Holds :
      (rows : List (SummaryRow F)) (m : Dict (EndpointStats F))
      → IsDistinct rows
      → All (Holds (index_rows rows m)) rows
  unfolding index_rows
  index_rows-Holds [] m h = tt
  index_rows-Holds (r ∷ rest) m (h, hs) = (
    lookup-index_rows_other r.endpoint rest (insert r.endpoint (stats_of_row r) m) h
        ∙ lookup-insert r.endpoint r.endpoint (stats_of_row r) m
        ∙ rw (eq_refl r.endpoint),
    index_rows-Holds rest (insert r.endpoint (stats_of_row r) m) hs,
  )

  -- An entry up to its status distribution.
  abbrev core? : Option (EndpointStats F) → Option (EndpointStats F)
  core? none = none
  core? (some s) = some (core s)

  core-distribute :
      (x : String) (r : StatusRow) (m : Dict (EndpointStats F))
      → core? (lookup x (distribute r m)) ≡ core? (lookup x m)
  core-distribute x r m = elim (Option-cases (lookup r.endpoint m)) [
    | inl e ↦ rw (e, distribute) refl
    | inr (s, e) ↦
        rw (e, distribute)
          (ground (arith, eq_iff r.endpoint x, e, lookup-insert r.endpoint x (add_status r s) m))
  ]

  spread : List StatusRow → Dict (EndpointStats F) → Dict (EndpointStats F)
  spread [] m = m
  spread (r ∷ rest) m = spread rest (distribute r m)

  for_rows-distribute :
      (on_err : Error → Error) (rows : List StatusRow) (m : Dict (EndpointStats F))
      → for_rows on_err distribute (map ok rows) m ≡ ok (spread rows m)
  unfolding for_rows spread
  for_rows-distribute on_err [] m = refl
  for_rows-distribute on_err (r ∷ rest) m = for_rows-distribute on_err rest (distribute r m)

  core-spread :
      (x : String) (rows : List StatusRow) (m : Dict (EndpointStats F))
      → core? (lookup x (spread rows m)) ≡ core? (lookup x m)
  unfolding spread
  core-spread x [] m = refl
  core-spread x (r ∷ rest) m = core-spread x rest (distribute r m) ∙ core-distribute x r m

  -- What the last loop needs of the map.
  abbrev HoldsCore : Dict (EndpointStats F) → SummaryRow F → Type 0
  HoldsCore m r = core? (lookup r.endpoint m) ≡ some (stats_of_row r)

  HoldsCore-spread :
      (rows : List (SummaryRow F)) (st : List StatusRow) (m : Dict (EndpointStats F))
      → All (Holds m) rows
      → All (HoldsCore (spread st m)) rows
  unfolding stats_of_row
  HoldsCore-spread [] st m h = tt
  HoldsCore-spread (r ∷ rest) st m (h, hs) =
      (core-spread r.endpoint st m ∙ ap core? h, HoldsCore-spread rest st m hs)

  gather-ok :
      (m : Dict (EndpointStats F)) (rows : List (SummaryRow F))
      → All (HoldsCore m) rows
      → (out : List (EndpointStats F)) × (gather m (names rows) ≡ ok out)
        × (map core out ≡ map stats_of_row rows)
  unfolding gather
  gather-ok m [] h = ([], refl, refl)
  gather-ok m (r ∷ rest) (h, hs) =
      let (out, e, g) = gather-ok m rest hs in
      elim (Option-cases (lookup r.endpoint m)) [
        | inl n ↦ absurd (let k = rw n at h in cc)
        | inr (s, k) ↦ (s ∷ out, rw (k, gather) (rw e refl), cc (g, k, h))
      ]

  assemble-ok :
      (rows : List (SummaryRow F)) (st : List StatusRow)
      → IsDistinct rows
      → (out : List (EndpointStats F)) × (assemble (delivered rows) (ok (delivered st)) ≡ ok out)
        × (map core out ≡ map stats_of_row rows)
  unfolding assemble gather-ok
  assemble-ok rows st distinct =
      let m = index_rows rows [] in
      let (out, e, g) =
        gather-ok (spread st m) rows
          (HoldsCore-spread rows st m (index_rows-Holds rows [] distinct)) in
      (out, rw (for_rows-collect, for_rows-distribute) e, g)

  -- When both queries of a run deliver all their rows, and no two rows of the first name the same
  -- endpoint, `GetEndpointStats` succeeds: it reads no nil pointer, and returns for each row of the
  -- first query, in their order, the statistics of that row with its error rate; only the status
  -- distributions come from the second query.
  pub get_endpoint_stats-core :
      (db : Database F) (run_id : String) (rows : List (SummaryRow F)) (st : List StatusRow)
      → db.endpoint_summary run_id ≡ ok (delivered rows)
      → db.status_distribution run_id ≡ ok (delivered st)
      → IsDistinct rows
      → (out : List (EndpointStats F)) × (get_endpoint_stats db run_id ≡ ok out)
        × (map core out ≡ map stats_of_row rows)
  unfolding get_endpoint_stats
  get_endpoint_stats-core db run_id rows st summary distribution distinct =
      let (out, e, g) = assemble-ok rows st distinct in (out, rw (summary, distribution) e, g)
