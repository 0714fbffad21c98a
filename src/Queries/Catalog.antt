-- ===== src/Queries/Catalog.antt =====
-- The catalog itself: `init`, `Get`, `MustGet` and `All` of
-- sidecar-go/analysis/queries/catalog.go. A panic is an error here, and the embedded files are the
-- record `Files`.
pub mod Complete
use Prim.Native.String.{String, ◌++◌ as append}
use duckdb_load_testing_tool.Prelude.{
  ◌≡◌, ◌||◌, Bool, true, false, not, List, [], ◌∷◌, map, Option, none, some, str_eq, is_some,
  if◌then◌else◌,
}
use duckdb_load_testing_tool.Prelude.Dict.{Dict, lookup, insert}
use duckdb_load_testing_tool.Prelude.Result.{Result, ok, err, message, formatted, wrap, ◌>>=◌}
use duckdb_load_testing_tool.Prelude.Sorting.{sort_by}
use duckdb_load_testing_tool.Prelude.Text.{string_lt}
use duckdb_load_testing_tool.Queries.{Query, no_query}
use duckdb_load_testing_tool.Queries.Header.{parse}

-- fs.DirEntry
pub record DirEntry : Type 0 where
  pub name : String
  pub is_dir : Bool

-- sqlFS
pub record Files : Type 0 where
  pub read_dir : String → Result (List DirEntry)
  pub read_file : String → Result String

-- strings.HasSuffix
unfoldable pub has_suffix : String → String → Bool
has_suffix suffix String.[] = str_eq String.[] suffix
has_suffix suffix (String.◌∷◌ c s) = str_eq (String.◌∷◌ c s) suffix || has_suffix suffix s

-- `e.IsDir() || !strings.HasSuffix(e.Name(), ".sql")`
unfoldable pub is_skipped : DirEntry → Bool
is_skipped e = e.is_dir || not (has_suffix ".sql" e.name)

-- A parsed query with an id.
abbrev pub with_id : String → Query → Result Query
with_id name q =
    if str_eq q.id ""
    then err (formatted "queries: %s is missing an '-- id:' header" (name ∷ []))
    else ok q

abbrev pub text_of : Files → String → Result String
text_of files name =
    wrap "queries: failed to read %s: %v" (name ∷ []) (files.read_file (append "sql/" name))

abbrev pub query_of : String → String → Result Query
query_of name text = do
  q ← wrap "queries: failed to parse %s: %v" (name ∷ []) (parse text)
  with_id name q

-- One file, read and parsed.
unfoldable pub read_query : Files → String → Result Query
read_query files name = do text ← text_of files name; query_of name text

-- `catalog[q.ID] = q`, unless the id is taken
unfoldable pub register : Query → Dict Query → Result (Dict Query)
register q catalog =
    if is_some (lookup q.id catalog)
    then err (formatted "queries: duplicate query id %q" (q.id ∷ []))
    else ok (insert q.id q catalog)

-- One round of the loop of `init`.
unfoldable pub load_entry : Files → DirEntry → Dict Query → Result (Dict Query)
load_entry files e catalog =
    if is_skipped e then ok catalog else do q ← read_query files e.name; register q catalog

unfoldable pub load_entries : Files → List DirEntry → Dict Query → Result (Dict Query)
load_entries files [] catalog = ok catalog
load_entries files (e ∷ rest) catalog = do
  next ← load_entry files e catalog
  load_entries files rest next

-- init
unfoldable pub init : Files → Result (Dict Query)
init files = do
  entries ← wrap "queries: failed to read embedded sql dir: %v" [] (files.read_dir "sql")
  load_entries files entries []

abbrev or_no_query : Option Query → Query
or_no_query none = no_query
or_no_query (some q) = q

-- Get
unfoldable pub get : String → Dict Query → Query × Bool
get id catalog = let found = lookup id catalog in (or_no_query found, is_some found)

abbrev or_panic : String → Option Query → Result Query
or_panic id none = err (formatted "queries: unknown query id %q" (id ∷ []))
or_panic id (some q) = ok q

-- MustGet
unfoldable pub must_get : String → Dict Query → Result Query
must_get id catalog = or_panic id (lookup id catalog)

-- `out[i].ID < out[j].ID`
abbrev pub id_less : Query → Query → Bool
id_less p q = string_lt p.id q.id

-- The loop of `All`, which takes the values of the map in the order of the list.
unfoldable pub values : Dict Query → List Query
values [] = []
values ((id, q) ∷ rest) = q ∷ values rest

-- All
unfoldable pub all : Dict Query → List Query
all catalog = sort_by id_less (values catalog)

-- EndpointSummary, EndpointStatusDistribution and PodEndpointSummary
abbrev pub endpoint_summary : String
endpoint_summary = "endpoint_summary"

abbrev pub endpoint_status_distribution : String
endpoint_status_distribution = "endpoint_status_distribution"

abbrev pub pod_endpoint_summary : String
pod_endpoint_summary = "pod_endpoint_summary"
