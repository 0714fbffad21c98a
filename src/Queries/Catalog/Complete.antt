-- ===== src/Queries/Catalog/Complete.antt =====
-- What the catalog holds once `init` of sidecar-go/analysis/queries/catalog.go has run.
use text.Mathlib.TextPositions.{eq_refl}
use mathlib.Core.Path.{subst}
use mathlib.Core.List.{Perm, append-nil, append_assoc}
use duckdb_load_testing_tool.Prelude.{
  String, ◌≡◌, ◌≢◌, refl, sym, ap, ◌∙◌, Bool, true, false, List, [], ◌∷◌, ◌++◌, map, All,
  All-append, Option, none, some, is_some, str_eq, eq_iff, if◌then◌else◌, arith, Bool-cases, inl,
  inr, ◌⊎◌, any,
}
use duckdb_load_testing_tool.Prelude.Dict.{Dict, lookup, insert, lookup-insert}
use duckdb_load_testing_tool.Prelude.Result.{Result, ok, wrap, ◌>>=◌, bind-ok, guard-ok, wrap-ok}
use duckdb_load_testing_tool.Prelude.Sorting.{sort_by, IsSorted, sort_by-perm, sort_by-IsSorted}
use duckdb_load_testing_tool.Prelude.Text.{string_lt_asymm}
use duckdb_load_testing_tool.Queries.{Query}
use duckdb_load_testing_tool.Queries.Header.{parse}
use duckdb_load_testing_tool.Queries.Catalog.{
  DirEntry, Files, is_skipped, read_query, register, load_entry, load_entries, init, get, id_less,
  values, all, text_of, query_of, with_id,
}

-- The files that `init` reads, in the order of the directory.
abbrev pub query_files : List DirEntry → List String
query_files [] = []
query_files (e ∷ rest) =
    let others = query_files rest in if is_skipped e then others else e.name ∷ others

-- Each file read to its query.
abbrev pub AreRead : Files → List String → List Query → Type 0
AreRead files [] [] = Unit
AreRead files (name ∷ names) (q ∷ qs) = (read_query files name ≡ ok q) × AreRead files names qs
AreRead files [] (q ∷ qs) = ⊥
AreRead files (name ∷ names) [] = ⊥

-- Each query is the one of its id, which is not empty.
abbrev pub AreFound : Dict Query → List Query → Type 0
AreFound catalog = All (λ q. (q.id ≢ "") × (get q.id catalog ≡ (q, true)))

insert_new :
    (k : String) (v : Query) (m : Dict Query) → lookup k m ≡ none → insert k v m ≡ m ++ (k, v) ∷ []
unfolding lookup insert
insert_new k v [] h = refl
insert_new k v ((j, w) ∷ m) h = elim (Bool-cases (str_eq j k)) [
  | inl e ↦ ground (arith, e)
  | inr e ↦
      let l : lookup k m ≡ none = ground (arith, e) in
      rw e (ap (λ x. (j, w) ∷ x) (insert_new k v m l))
]

abbrev keyed : Query → String × Query
keyed q = (q.id, q)

absent : (o : Option Query) → is_some o ≡ false → o ≡ none
absent none h = refl
absent (some q) h = cc

-- What a round that reads a query does.
register-ok :
    (q : Query) (catalog next : Dict Query)
    → register q catalog ≡ ok next
    → (lookup q.id catalog ≡ none) × (next ≡ insert q.id q catalog)
unfolding register
register-ok q catalog next h =
    let (new, e) = guard-ok (is_some (lookup q.id catalog)) _ (insert q.id q catalog) next h in
    (absent (lookup q.id catalog) new, sym e)

abbrev Rounds : Files → DirEntry → Dict Query → Dict Query → Type 0
Rounds files e catalog next =
    ((is_skipped e ≡ true) × (next ≡ catalog))
    ⊎ ((is_skipped e ≡ false)
        × ((q : Query) × (read_query files e.name ≡ ok q) × (register q catalog ≡ ok next)))

load_entry-Rounds :
    (files : Files) (e : DirEntry) (catalog next : Dict Query)
    → load_entry files e catalog ≡ ok next
    → Rounds files e catalog next
unfolding load_entry
load_entry-Rounds files e catalog next h = rounds (is_skipped e) (read_query files e.name) h
  where
    rounds :
        (skip : Bool) (q : Result Query)
        → (if skip then ok catalog else q >>= λ p. register p catalog) ≡ ok next
        → ((skip ≡ true) × (next ≡ catalog))
          ⊎ ((skip ≡ false) × ((p : Query) × (q ≡ ok p) × (register p catalog ≡ ok next)))
    rounds true q h = inl (refl, cc)
    rounds false q h = inr (refl, bind-ok q (λ p. register p catalog) next h)

read_query-id :
    (files : Files) (name : String) (q : Query) → read_query files name ≡ ok q → q.id ≢ ""
unfolding read_query
read_query-id files name q h =
    let (text, _, read) = bind-ok (text_of files name) (query_of name) q h in
    let (p, _, named) =
      bind-ok (wrap "queries: failed to parse %s: %v" (name ∷ []) (parse text)) (with_id name) q
        read in
    let (filled, e) = guard-ok (str_eq p.id "") _ p q named in
    λ blank. ground (arith, eq_iff p.id "", e, ap (λ x. x.id) e, blank, filled)

-- Each query of a part of the catalog is the one that the catalog has under its id.
abbrev AreKeyed : Dict Query → List Query → Type 0
AreKeyed catalog = All (λ q. lookup q.id catalog ≡ some q)

other_key :
    (k j : String) (p : Query) (m : Dict Query)
    → lookup k m ≡ none
    → lookup j m ≡ some p
    → str_eq k j ≡ false
other_key k j p m h e = elim (Bool-cases (str_eq k j)) [
  | inl same ↦
      let i : lookup k m ≡ lookup j m = ap (λ x. lookup x m) ((eq_iff k j).0 same) in cc (i, h, e)
  | inr other ↦ other
]

AreKeyed-insert :
    (q : Query) (catalog : Dict Query) (qs : List Query)
    → lookup q.id catalog ≡ none
    → AreKeyed catalog qs
    → AreKeyed (insert q.id q catalog) qs
AreKeyed-insert q catalog [] new h = tt
AreKeyed-insert q catalog (p ∷ qs) new (h, hs) =
    let other = other_key q.id p.id p catalog new h in
    (rw (lookup-insert q.id p.id q catalog, other) h, AreKeyed-insert q catalog qs new hs)

-- What the loop of `init` has done to a catalog: the queries that it has added.
abbrev Loaded : Files → List DirEntry → Dict Query → Dict Query → Type 0
Loaded files entries catalog next =
    (qs : List Query) × AreRead files (query_files entries) qs
    × (next ≡ catalog ++ map keyed qs)
    × All (λ q. q.id ≢ "") qs
    × ((ps : List Query) → AreKeyed catalog ps → AreKeyed next (ps ++ qs))

skip-Loaded :
    (files : Files) (e : DirEntry) (rest : List DirEntry) (catalog next : Dict Query)
    → is_skipped e ≡ true
    → Loaded files rest catalog next
    → Loaded files (e ∷ rest) catalog next
skip-Loaded files e rest catalog next skipped (qs, reads, added, named, keys) =
    (qs, rw skipped reads, added, named, keys)

add-Loaded :
    (files : Files) (e : DirEntry) (rest : List DirEntry) (catalog next : Dict Query) (q : Query)
    → is_skipped e ≡ false
    → read_query files e.name ≡ ok q
    → lookup q.id catalog ≡ none
    → Loaded files rest (insert q.id q catalog) next
    → Loaded files (e ∷ rest) catalog next
add-Loaded files e rest catalog next q kept read new (qs, reads, added, named, keys) = (
  q ∷ qs,
  rw kept (read, reads),
  added
      ∙ ap (λ m. m ++ map keyed qs) (insert_new q.id q catalog new)
      ∙ append_assoc catalog (keyed q ∷ []) (map keyed qs),
  (read_query-id files e.name q read, named),
  λ ps h. subst (AreKeyed next) (append_assoc ps (q ∷ []) qs) (
      keys (ps ++ q ∷ []) (
        All-append _ ps (q ∷ []) (AreKeyed-insert q catalog ps new h)
          (rw (lookup-insert q.id q.id q catalog, eq_refl q.id) refl, tt))),
)

ok_inj : {m : Dict Query} (n : Dict Query) → ok m ≡ ok n → m ≡ n
ok_inj n h = cc

load_entries-Loaded :
    (files : Files) (entries : List DirEntry) (catalog next : Dict Query)
    → load_entries files entries catalog ≡ ok next
    → Loaded files entries catalog next
unfolding load_entries
load_entries-Loaded files [] catalog next h = (
  [],
  tt,
  sym (ok_inj next h) ∙ sym (append-nil catalog),
  tt,
  λ ps k.
      subst (AreKeyed next) (sym (append-nil ps)) (subst (λ m. AreKeyed m ps) (ok_inj next h) k),
)
load_entries-Loaded files (e ∷ rest) catalog next h =
    let (mid, first, others) =
      bind-ok (load_entry files e catalog) (λ m. load_entries files rest m) next h in
    let ih : Loaded files rest mid next = load_entries-Loaded files rest mid next others in
    elim (load_entry-Rounds files e catalog mid first) [
      | inl (skipped, same) ↦
          skip-Loaded files e rest catalog next skipped
            (subst (λ m. Loaded files rest m next) same ih)
      | inr (kept, (q, read, registered)) ↦
          let (new, inserted) = register-ok q catalog mid registered in
          add-Loaded files e rest catalog next q kept read new
            (subst (λ m. Loaded files rest m next) inserted ih)
    ]

values-keyed : (qs : List Query) → values (map keyed qs) ≡ qs
unfolding values
values-keyed [] = refl
values-keyed (q ∷ qs) = ap (λ ps. q ∷ ps) (values-keyed qs)

-- Whether the catalog knows an id.
abbrev pub has_id : String → List Query → Bool
has_id id = any (λ q. str_eq q.id id)

known-keyed : (id : String) (qs : List Query) → (get id (map keyed qs)).1 ≡ has_id id qs
unfolding get lookup
known-keyed id [] = refl
known-keyed id (q ∷ qs) = ground (arith, known-keyed id qs)

AreKeyed-AreFound :
    (catalog : Dict Query) (qs : List Query)
    → AreKeyed catalog qs
    → All (λ q. q.id ≢ "") qs
    → AreFound catalog qs
unfolding get
AreKeyed-AreFound catalog [] h k = tt
AreKeyed-AreFound catalog (q ∷ qs) (h, hs) (k, ks) =
    ((k, rw h refl), AreKeyed-AreFound catalog qs hs ks)

-- When `init` returns without a panic, it has read every file of the directory whose name ends in
-- .sql, and the queries of these files are the catalog: each has an id that is not empty and is the
-- one that `Get` returns for it, `Get` knows no other id, and `All` returns each of them once, in the
-- order of their ids.
pub init-catalog :
    (files : Files) (catalog : Dict Query)
    → init files ≡ ok catalog
    → (entries : List DirEntry) × (qs : List Query) × (files.read_dir "sql" ≡ ok entries)
      × AreRead files (query_files entries) qs
      × AreFound catalog qs
      × ((id : String) → (get id catalog).1 ≡ has_id id qs)
      × Perm (all catalog) qs
      × IsSorted id_less (all catalog)
unfolding init all
init-catalog files catalog h =
    let (entries, listed, loaded) =
      bind-ok (wrap "queries: failed to read embedded sql dir: %v" [] (files.read_dir "sql"))
        (λ es. load_entries files es []) catalog h in
    let (qs, reads, added, named, keys) = load_entries-Loaded files entries [] catalog loaded in
    (
      entries,
      qs,
      wrap-ok _ _ (files.read_dir "sql") entries listed,
      reads,
      AreKeyed-AreFound catalog qs (keys [] tt) named,
      λ id. ap (λ c. (get id c).1) added ∙ known-keyed id qs,
      subst (λ vs. Perm (sort_by id_less (values catalog)) vs) (ap values added ∙ values-keyed qs)
          (sort_by-perm id_less (values catalog)),
      sort_by-IsSorted id_less (λ p q. string_lt_asymm p.id q.id) (values catalog),
    )
