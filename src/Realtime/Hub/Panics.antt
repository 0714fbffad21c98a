-- ===== src/Realtime/Hub/Panics.antt =====
-- The channels of the clients over any sequence of steps of the hub: sidecar-go/realtime/hub.go.
use mathlib.Core.Path.{subst}
use mathlib.Core.List.{append-nil, append_assoc}
use duckdb_load_testing_tool.Prelude.{
  ℕ, ◌==◌, ◌≡◌, refl, sym, ap, ◌∙◌, true, false, not, ◌&&◌, ◌||◌, List, [], ◌∷◌, ◌++◌, keep, arith,
  String, Bool-cases, inl, inr, any-append, length, ltb, drop,
}
use duckdb_load_testing_tool.Prelude.Result.{ok}
use duckdb_load_testing_tool.Realtime.Hub.{
  Clients, member, update, no_clients, handle_register, handle_unregister, send_each,
  handle_broadcast, Step, registered, unregistered, broadcast, written, step, run, send_capacity,
}

-- The clients that the steps register.
abbrev pub registered_in : List Step → List ℕ
registered_in [] = []
registered_in (registered c ∷ rest) = c ∷ registered_in rest
registered_in (unregistered c ∷ rest) = registered_in rest
registered_in (broadcast m ∷ rest) = registered_in rest
registered_in (written c ∷ rest) = registered_in rest

-- No client of `seen` registers, and none registers twice: `ServeWs` makes a new client for each
-- connection, and registers it once.
abbrev pub IsFresh : List ℕ → List Step → Type 0
IsFresh seen [] = Unit
IsFresh seen (registered c ∷ rest) = (member c seen ≡ false) × IsFresh (seen ++ c ∷ []) rest
IsFresh seen (unregistered c ∷ rest) = IsFresh seen rest
IsFresh seen (broadcast m ∷ rest) = IsFresh seen rest
IsFresh seen (written c ∷ rest) = IsFresh seen rest

-- No client stands in the list twice.
abbrev pub IsDistinct : List ℕ → Type 0
IsDistinct [] = Unit
IsDistinct (c ∷ rest) = (member c rest ≡ false) × IsDistinct rest

-- The channel of a client is closed just when it was in the map, and no longer is.
pub record Consistent (seen : List ℕ) (s : Clients) : Type 0 where
  pub seen_before : (c : ℕ) → member c s.clients ≡ true → member c seen ≡ true
  pub closed_when : (c : ℕ) → s.closed c ≡ (member c seen && not (member c s.clients))
  pub distinct : IsDistinct s.clients

pub open_of :
    (seen : List ℕ) (s : Clients) (c : ℕ)
    → Consistent seen s
    → member c s.clients ≡ true
    → s.closed c ≡ false
open_of seen s c k h = ground (arith, k.closed_when c)

member-append : (c k : ℕ) (xs : List ℕ) → member c (xs ++ k ∷ []) ≡ (member c xs || k == c)
member-append c k xs = ground (arith, any-append (λ j. j == c) xs (k ∷ []))

member-keep :
    (c k : ℕ) (xs : List ℕ) → member c (keep (λ j. not (j == k)) xs) ≡ (member c xs && not (k == c))
member-keep c k [] = refl
member-keep c k (x ∷ xs) = ground (arith, member-keep c k xs)

IsDistinct-append :
    (c : ℕ) (xs : List ℕ) → IsDistinct xs → member c xs ≡ false → IsDistinct (xs ++ c ∷ [])
IsDistinct-append c [] d h = (refl, tt)
IsDistinct-append c (x ∷ xs) (new, d) h =
    (ground (arith, member-append x c xs), IsDistinct-append c xs d (ground arith))

IsDistinct-keep : (c : ℕ) (xs : List ℕ) → IsDistinct xs → IsDistinct (keep (λ i. not (i == c)) xs)
IsDistinct-keep c [] d = tt
IsDistinct-keep c (x ∷ xs) (new, d) = elim (Bool-cases (x == c)) [
  | inl e ↦ rw e (IsDistinct-keep c xs d)
  | inr e ↦ rw e (ground (arith, member-keep x c xs), IsDistinct-keep c xs d)
]

closed_new :
    (seen : List ℕ) (c : ℕ) (s : Clients)
    → Consistent seen s
    → member c seen ≡ false
    → member c s.clients ≡ false
    → (j : ℕ) → s.closed j ≡ (member j (seen ++ c ∷ []) && not (member j (s.clients ++ c ∷ [])))
closed_new seen c s k new absent j = elim (Bool-cases (c == j)) [
  | inl e ↦
      let same : c ≡ j = ground (arith) in
      ground (
        arith,
        member-append j c s.clients,
        member-append j c seen,
        k.closed_when c,
        ap s.closed same,
      )
  | inr e ↦ ground (arith, member-append j c s.clients, member-append j c seen, k.closed_when j)
]

Consistent-handle_register :
    (seen : List ℕ) (c : ℕ) (s : Clients)
    → Consistent seen s
    → member c seen ≡ false
    → Consistent (seen ++ c ∷ []) (handle_register c s)
unfolding handle_register
Consistent-handle_register seen c s k new =
    let absent : member c s.clients ≡ false = ground (arith, k.seen_before c) in
    rw absent (record {
      seen_before = λ j h.
          ground (arith, member-append j c s.clients, member-append j c seen, k.seen_before j);
      closed_when = λ j. closed_new seen c s k new absent j;
      distinct = IsDistinct-append c s.clients k.distinct absent;
    })

closed_removed :
    (seen : List ℕ) (c : ℕ) (s : Clients)
    → Consistent seen s
    → member c s.clients ≡ true
    → (j : ℕ)
    → update c true s.closed j
      ≡ (member j seen && not (member j (keep (λ i. not (i == c)) s.clients)))
closed_removed seen c s k here j = elim (Bool-cases (c == j)) [
  | inl e ↦
      let same : c ≡ j = ground (arith) in
      let known = subst (λ i. member i seen ≡ true) same (k.seen_before c here) in
      ground (arith, member-keep j c s.clients)
  | inr e ↦ ground (arith, member-keep j c s.clients, k.closed_when j)
]

Consistent-handle_unregister :
    (seen : List ℕ) (c : ℕ) (s : Clients)
    → Consistent seen s
    → (s' : Clients) × (handle_unregister c s ≡ ok s') × Consistent seen s'
unfolding handle_unregister
Consistent-handle_unregister seen c s k = elim (Bool-cases (member c s.clients)) [
  | inl here ↦ (
    record s { clients = keep (λ j. not (j == c)) s.clients; closed = update c true s.closed },
    rw (here, open_of seen s c k here) refl,
    record {
      seen_before = λ j h. ground (arith, member-keep j c s.clients, k.seen_before j);
      closed_when = λ j. closed_removed seen c s k here j;
      distinct = IsDistinct-keep c s.clients k.distinct;
    },
  )
  | inr gone ↦ (s, rw gone refl, k)
]

-- A broadcast to open channels: no panic, and the map and the channels' ends are left alone.
send_each-ok :
    (m : String) (cs : List ℕ) (s : Clients)
    → ((c : ℕ) → member c cs ≡ true → s.closed c ≡ false)
    → (s' : Clients) × (send_each m cs s ≡ ok s')
      × (s'.clients ≡ s.clients)
      × (s'.closed ≡ s.closed)
unfolding send_each
send_each-ok m [] s all_open = (s, refl, refl, refl)
send_each-ok m (c ∷ rest) s all_open = elim (Bool-cases (ltb (length (s.queue c)) send_capacity)) [
  | inl e ↦
      let (s', p, q, r) =
        send_each-ok m rest (record s { queue = update c (s.queue c ++ m ∷ []) s.queue })
          (λ j h. all_open j (ground arith)) in
      (s', rw (all_open c (ground arith), e) p, q, r)
  | inr e ↦
      let (s', p, q, r) =
        send_each-ok m rest (record s { dropping = s.dropping ++ c ∷ [] })
          (λ j h. all_open j (ground arith)) in
      (s', rw (all_open c (ground arith), e) p, q, r)
]

Consistent-handle_broadcast :
    (seen : List ℕ) (m : String) (s : Clients)
    → Consistent seen s
    → (s' : Clients) × (handle_broadcast m s ≡ ok s') × Consistent seen s'
unfolding handle_broadcast
Consistent-handle_broadcast seen m s k =
    let (s', p, q, r) = send_each-ok m s.clients s (λ c h. open_of seen s c k h) in
    (
      s',
      p,
      record {
        seen_before = λ c h. k.seen_before c (subst (λ cs. member c cs ≡ true) q h);
        closed_when = λ c.
            ap (λ f. f c) r
            ∙ k.closed_when c
            ∙ ap (λ cs. member c seen && not (member c cs)) (sym q);
        distinct = subst IsDistinct (sym q) k.distinct;
      },
    )

Consistent-run :
    (seen : List ℕ) (steps : List Step) (s : Clients)
    → Consistent seen s
    → IsFresh seen steps
    → (s' : Clients) × (run steps s ≡ ok s') × Consistent (seen ++ registered_in steps) s'
unfolding run step
Consistent-run seen [] s k new = (s, refl, subst (λ l. Consistent l s) (sym (append-nil seen)) k)
Consistent-run seen (registered c ∷ rest) s k (new, more) =
    let (s', p, k') =
      Consistent-run (seen ++ c ∷ []) rest (handle_register c s)
        (Consistent-handle_register seen c s k new) more in
    (s', p, subst (λ l. Consistent l s') (append_assoc seen (c ∷ []) (registered_in rest)) k')
Consistent-run seen (unregistered c ∷ rest) s k new =
    let (s1, p1, k1) = Consistent-handle_unregister seen c s k in
    let (s', p, k') = Consistent-run seen rest s1 k1 new in (s', rw p1 p, k')
Consistent-run seen (broadcast m ∷ rest) s k new =
    let (s1, p1, k1) = Consistent-handle_broadcast seen m s k in
    let (s', p, k') = Consistent-run seen rest s1 k1 new in (s', rw p1 p, k')
Consistent-run seen (written c ∷ rest) s k new =
    Consistent-run seen rest (record s { queue = update c (drop 1 (s.queue c)) s.queue })
      (record { seen_before = k.seen_before; closed_when = k.closed_when; distinct = k.distinct })
      new

pub run-Consistent :
    (steps : List Step)
    → IsFresh [] steps
    → (s : Clients) × (run steps no_clients ≡ ok s) × Consistent (registered_in steps) s
run-Consistent steps new =
    Consistent-run [] steps no_clients
      (record { seen_before = λ c h. cc h; closed_when = λ c. refl; distinct = tt }) new

-- For any sequence of registrations, unregistrations, also repeated ones, broadcasts and receives by
-- the clients, in which no client registers twice, the hub returns without a panic: it never sends
-- on a closed channel and never closes one again. Afterwards the channel of a client is closed just
-- when the client has registered and is no longer in the map.
pub run-closed :
    (steps : List Step)
    → IsFresh [] steps
    → (s : Clients) × (run steps no_clients ≡ ok s)
      × ((c : ℕ) → s.closed c ≡ (member c (registered_in steps) && not (member c s.clients)))
run-closed steps new = let (s, p, k) = run-Consistent steps new in (s, p, k.closed_when)
