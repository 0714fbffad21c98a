-- ===== src/Queries/Validator/Passing.antt =====
-- What a validation that passes has checked: sidecar-go/analysis/validator/validator.go.
use Prim.Native.String.{◌++◌ as append}
use duckdb_load_testing_tool.Prelude.{
  String, ◌≡◌, refl, sym, ap, ◌∙◌, Bool, true, false, not, ◌&&◌, ◌||◌, ◌==◌, List, [], ◌∷◌, All,
  any, length, str_eq, eq_iff, if◌then◌else◌, arith, Bool-cases, inl, inr,
}
use duckdb_load_testing_tool.Prelude.Dict.{Dict, lookup, insert, lookup-insert}
use duckdb_load_testing_tool.Prelude.Result.{
  Result, ok, err, wrap, check, ◌>>=◌, ◌>>◌, bind-ok, guard-ok, wrap-ok,
}
use duckdb_load_testing_tool.Analysis.Database.{Cursor, for_rows}
use duckdb_load_testing_tool.Queries.{Query}
use duckdb_load_testing_tool.Queries.Validator.{
  Validation, Rows, Connection, has_key, mark_all, absent_from, missing, present_columns,
  no_missing, check_required_columns, check_params, validation, validate, mark_rows, present_in,
  is_nil, run_query, explained, executed, columns_of,
}

-- The column is in the list.
abbrev pub member : String → List String → Bool
member c = any (λ x. str_eq x c)

has_key-insert :
    (k c : String) (m : Dict Bool) → has_key (insert k true m) c ≡ (str_eq k c || has_key m c)
has_key-insert k c m =
    rw (lookup-insert k c true m)
      (elim (Bool-cases (str_eq k c)) [ inl e ↦ rw e refl | inr e ↦ rw e refl ])

has_key-mark_all :
    (names : List String) (m : Dict Bool) (c : String)
    → has_key (mark_all names m) c ≡ (member c names || has_key m c)
unfolding mark_all
has_key-mark_all [] m c = refl
has_key-mark_all (x ∷ names) m c =
    ground (arith, has_key-mark_all names (insert x true m) c, has_key-insert x c m)

member-absent_from :
    (have : Dict Bool) (expected : List String) (c : String)
    → member c (absent_from have expected) ≡ (member c expected && not (has_key have c))
unfolding absent_from
member-absent_from have [] c = refl
member-absent_from have (x ∷ expected) c = elim (Bool-cases (str_eq x c)) [
  | inl e ↦
      let same : has_key have x ≡ has_key have c = ap (has_key have) ((eq_iff x c).0 e) in
      ground (arith, e, same, member-absent_from have expected c)
  | inr e ↦ ground (arith, e, member-absent_from have expected c)
]

has_key_of_nothing : (c : String) → has_key [] c ≡ false
unfolding lookup
has_key_of_nothing c = refl

member-missing :
    (expected actual : List String) (c : String)
    → member c (missing expected actual) ≡ (member c expected && not (member c actual))
unfolding missing
member-missing expected actual c = ground (
  arith,
  member-absent_from (mark_all actual []) expected c,
  has_key-mark_all actual [] c,
  has_key_of_nothing c,
)

-- The names that a cursor has given.
abbrev pub names_of : List (Result String) → List String
names_of [] = []
names_of (ok name ∷ rest) = name ∷ names_of rest
names_of (err e ∷ rest) = names_of rest

has_key-mark_rows :
    (rows : List (Result String)) (m present : Dict Bool) (c : String)
    → mark_rows rows m ≡ ok present
    → has_key present c ≡ (member c (names_of rows) || has_key m c)
unfolding for_rows
has_key-mark_rows [] m present c h = let e : m ≡ present = cc in ap (λ x. has_key x c) (sym e)
has_key-mark_rows (ok x ∷ rows) m present c h =
    ground (arith, has_key-mark_rows rows (insert x true m) present c h, has_key-insert x c m)
has_key-mark_rows (err e ∷ rows) m present c h = cc

-- The schema of the database names this column of `metrics`.
abbrev pub IsListed : {A : Type 0} → Connection A → String → Type 0
IsListed db c =
    (cursor : Cursor String) × (db.metrics_columns ≡ ok cursor)
    × (member c (names_of cursor.rows) ≡ true)

present_columns-IsListed :
    {A : Type 0} (db : Connection A) (present : Dict Bool) (c : String)
    → present_columns db ≡ ok present
    → has_key present c ≡ true
    → IsListed db c
unfolding present_columns
present_columns-IsListed db present c h k =
    let (cursor, opened, read) =
      bind-ok (wrap "validator: failed to introspect metrics schema: %w" [] db.metrics_columns)
        present_in present h in
    let (found, marked, rest) =
      bind-ok (mark_rows cursor.rows []) (λ m. check cursor.rows_err >> ok m) present read in
    let (_, _, same) = bind-ok (check cursor.rows_err) (λ _. ok found) present rest in
    (
      cursor,
      wrap-ok _ _ db.metrics_columns cursor opened,
      ground (
        arith,
        has_key-mark_rows cursor.rows [] found c marked,
        has_key_of_nothing c,
        ap (λ r. r) same,
      ),
    )

no_missing-nil : (q : Query) (cols : List String) → no_missing q cols ≡ ok tt → cols ≡ []
no_missing-nil q [] h = refl
no_missing-nil q (c ∷ cols) h = cc

absent_from-has_key :
    (present : Dict Bool) (cols : List String)
    → absent_from present cols ≡ []
    → All (λ c. has_key present c ≡ true) cols
unfolding absent_from
absent_from-has_key present [] h = tt
absent_from-has_key present (c ∷ cols) h = elim (Bool-cases (has_key present c)) [
  | inl e ↦
      let rest : absent_from present cols ≡ [] = ground (arith, e) in
      (e, absent_from-has_key present cols rest)
  | inr e ↦ ground (arith, e)
]

All-IsListed :
    {A : Type 0} (db : Connection A) (present : Dict Bool) (cols : List String)
    → present_columns db ≡ ok present
    → All (λ c. has_key present c ≡ true) cols
    → All (IsListed db) cols
All-IsListed db present [] h k = tt
All-IsListed db present (c ∷ cols) h (k, ks) =
    (present_columns-IsListed db present c h k, All-IsListed db present cols h ks)

check_required_columns-IsListed :
    {A : Type 0} (db : Connection A) (q : Query)
    → check_required_columns db q ≡ ok tt
    → All (IsListed db) q.required_columns
unfolding check_required_columns
check_required_columns-IsListed db q h = of_columns q.required_columns h
  where
    of_columns :
        (cols : List String)
        → (if is_nil cols
            then ok tt
            else present_columns db >>= λ present. no_missing q (absent_from present cols))
          ≡ ok tt
        → All (IsListed db) cols
    of_columns [] k = tt
    of_columns (c ∷ cols) k =
        let (present, read, full) =
          bind-ok (present_columns db) (λ m. no_missing q (absent_from m (c ∷ cols))) tt k in
        All-IsListed db present (c ∷ cols) read
          (absent_from-has_key present (c ∷ cols) (no_missing-nil q _ full))

check_params-length :
    {A : Type 0} (q : Query) (params : List A)
    → check_params q params ≡ ok tt
    → length params ≡ length q.parameters
unfolding check_params
check_params-length q params h =
    let (same, _) = guard-ok (not (length params == length q.parameters)) _ tt tt h in
    ground (arith, same)

missing_output-lem :
    (q : Query) (columns : List String) (c : String)
    → member c (validation q columns).missing_output
      ≡ (member c q.expected_output && not (member c columns))
missing_output-lem q columns c = of_expected q.expected_output
  where
    of_expected :
        (expected : List String)
        → member c (if is_nil expected then [] else missing expected columns)
          ≡ (member c expected && not (member c columns))
    of_expected [] = refl
    of_expected (x ∷ rest) = member-missing (x ∷ rest) columns c

-- What a run of a query that returns has done.
abbrev pub HasRun : {A : Type 0} → Connection A → Query → List A → Validation → Type 0
HasRun db q params r =
    (plan : Rows) × (rows : Rows) × (db.query (append "EXPLAIN " q.sql) params ≡ ok plan)
    × (db.query q.sql params ≡ ok rows)
    × (rows.columns ≡ ok r.columns)
    × (r.query_id ≡ q.id)
    × ((c : String)
        → member c r.missing_output ≡ (member c q.expected_output && not (member c r.columns)))

run_query-HasRun :
    {A : Type 0} (db : Connection A) (q : Query) (params : List A) (r : Validation)
    → run_query db q params ≡ ok r
    → HasRun db q params r
unfolding run_query
run_query-HasRun db q params r h =
    let (plan, planned, h1) =
      bind-ok (explained db q params)
        (λ p. executed db q params >>= λ rows. columns_of q rows >>= λ cs. ok (validation q cs)) r
        h in
    let (rows, ran, h2) =
      bind-ok (executed db q params) (λ rows. columns_of q rows >>= λ cs. ok (validation q cs)) r
        h1 in
    let (columns, named, h3) = bind-ok (columns_of q rows) (λ cs. ok (validation q cs)) r h2 in
    let e : validation q columns ≡ r = cc in
    (
      plan,
      rows,
      wrap-ok _ _ _ plan planned,
      wrap-ok _ _ _ rows ran,
      wrap-ok _ _ rows.columns columns named ∙ ap (λ v. ok v.columns) e,
      ap (λ v. v.query_id) (sym e),
      λ c.
          ap (λ v. member c v.missing_output) (sym e)
          ∙ missing_output-lem q columns c
          ∙ ap (λ v. member c q.expected_output && not (member c v.columns)) e,
    )

-- A query that `Validate` accepts needs only columns that the schema names for `metrics`, and was
-- given as many parameters as it declares. EXPLAIN of its text and the text itself have both run with
-- these parameters, the result holds the columns that the run gave, and its missing columns are just
-- those that the query expects and the run did not give.
pub validate-ok :
    {A : Type 0} (db : Connection A) (q : Query) (params : List A) (r : Validation)
    → validate db q params ≡ ok r
    → All (IsListed db) q.required_columns
      × (length params ≡ length q.parameters)
      × HasRun db q params r
unfolding validate
validate-ok db q params r h =
    let (_, columns, h1) =
      bind-ok (check_required_columns db q) (λ _. check_params q params >> run_query db q params) r
        h in
    let (_, counted, h2) = bind-ok (check_params q params) (λ _. run_query db q params) r h1 in
    (
      check_required_columns-IsListed db q columns,
      check_params-length q params counted,
      run_query-HasRun db q params r h2,
    )
