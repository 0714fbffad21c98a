-- ===== src/Realtime/Hub/Delivery.antt =====
-- One broadcast of the hub to its clients: sidecar-go/realtime/hub.go.
use mathlib.Core.Path.{subst}
use mathlib.Core.List.{append-nil, append_assoc}
use duckdb_load_testing_tool.Prelude.{
  ℕ, ◌==◌, ◌≡◌, refl, sym, ap, ◌∙◌, Bool, true, false, not, ◌&&◌, List, [], ◌∷◌, ◌++◌, keep, arith,
  String, Bool-cases, inl, inr, if◌then◌else◌, length, ltb,
}
use duckdb_load_testing_tool.Prelude.Result.{ok}
use duckdb_load_testing_tool.Realtime.Hub.Panics.{
  IsDistinct, IsFresh, run-Consistent, open_of, registered_in,
}
use duckdb_load_testing_tool.Realtime.Hub.{
  Step, run, no_clients, Clients, member, update, send_each, handle_broadcast, send_capacity,
}

-- Whether one more message fits.
abbrev pub has_room : List String → Bool
has_room q = ltb (length q) send_capacity

-- The channel after a broadcast, of a client that is in the map or not.
abbrev pub received : String → Bool → List String → List String
received m there q = if there && has_room q then q ++ m ∷ [] else q

-- The clients without room.
abbrev pub full_of : (ℕ → List String) → List ℕ → List ℕ
full_of queue = keep λ c. not (has_room (queue c))

not-member : (c j : ℕ) (cs : List ℕ) → member c cs ≡ false → member j cs ≡ true → (c == j) ≡ false
not-member c j cs h h' = elim (Bool-cases (c == j)) [
  | inl e ↦
      let same : c ≡ j = ground arith in
      let h2 = subst (λ i. member i cs ≡ false) same h in ground arith
  | inr e ↦ e
]

full_of-update :
    (c : ℕ) (q : List String) (queue : ℕ → List String) (cs : List ℕ)
    → ((j : ℕ) → member j cs ≡ true → (c == j) ≡ false)
    → full_of (update c q queue) cs ≡ full_of queue cs
full_of-update c q queue [] other = refl
full_of-update c q queue (x ∷ rest) other =
    let ih = full_of-update c q queue rest (λ j h. other j (ground arith)) in
    let same : update c q queue x ≡ queue x = ground (arith, other x) in rw (same, ih) refl

received-update :
    (m : String) (c : ℕ) (queue : ℕ → List String) (rest : List ℕ) (k : ℕ)
    → member c rest ≡ false
    → has_room (queue c) ≡ true
    → received m (member k rest) (update c (queue c ++ m ∷ []) queue k)
      ≡ received m (member k (c ∷ rest)) (queue k)
received-update m c queue rest k new room = elim (Bool-cases (c == k)) [
  | inl e ↦
      let same : c ≡ k = ground arith in
      let absent = subst (λ i. member i rest ≡ false) same new in
      let room' = subst (λ i. has_room (queue i) ≡ true) same room in
      let value = ap (λ i. queue i ++ m ∷ []) same in
      let e' : (k == c) ≡ true = ground arith in ground (arith, absent, room', value)
  | inr e ↦ ground arith
]

received-full :
    (m : String) (c : ℕ) (queue : ℕ → List String) (rest : List ℕ) (k : ℕ)
    → has_room (queue c) ≡ false
    → received m (member k rest) (queue k) ≡ received m (member k (c ∷ rest)) (queue k)
received-full m c queue rest k full = elim (Bool-cases (c == k)) [
  | inl e ↦
      let same : c ≡ k = ground arith in
      let full' = subst (λ i. has_room (queue i) ≡ false) same full in ground (arith, full')
  | inr e ↦ ground arith
]

send_each-received :
    (m : String) (cs : List ℕ) (s : Clients)
    → ((c : ℕ) → member c cs ≡ true → s.closed c ≡ false)
    → IsDistinct cs
    → (s' : Clients) × (send_each m cs s ≡ ok s')
      × ((k : ℕ) → s'.queue k ≡ received m (member k cs) (s.queue k))
      × (s'.dropping ≡ s.dropping ++ full_of s.queue cs)
unfolding send_each
send_each-received m [] s all_open d = (s, refl, λ k. refl, sym (append-nil s.dropping))
send_each-received m (c ∷ rest) s all_open (new, d) = elim (Bool-cases (has_room (s.queue c))) [
  | inl e ↦
      let q = s.queue c ++ m ∷ [] in
      let (s', p, received_k, dropping) =
        send_each-received m rest (record s { queue = update c q s.queue })
          (λ j h. all_open j (ground arith)) d in
      (
        s',
        rw (all_open c (ground arith), e) p,
        λ k. received_k k ∙ received-update m c s.queue rest k new e,
        dropping
            ∙ ap (λ l. s.dropping ++ l)
                (full_of-update c q s.queue rest (λ j h. not-member c j rest new h))
            ∙ rw e refl,
      )
  | inr e ↦
      let (s', p, received_k, dropping) =
        send_each-received m rest (record s { dropping = s.dropping ++ c ∷ [] })
          (λ j h. all_open j (ground arith)) d in
      (
        s',
        rw (all_open c (ground arith), e) p,
        λ k. received_k k ∙ received-full m c s.queue rest k e,
        dropping ∙ append_assoc s.dropping (c ∷ []) (full_of s.queue rest) ∙ rw e refl,
      )
]

-- After any sequence of registrations, unregistrations, broadcasts and receives in which no client
-- registers twice, one more broadcast returns without a panic: each client in the map with fewer than
-- 256 waiting messages has the message behind them, every other channel is as before, and the
-- clients in the map without room are those for which a goroutine now waits to unregister them.
pub run-received :
    (steps : List Step) (m : String)
    → IsFresh [] steps
    → (s : Clients) × (s' : Clients) × (run steps no_clients ≡ ok s)
      × (handle_broadcast m s ≡ ok s')
      × ((k : ℕ) → s'.queue k ≡ received m (member k s.clients) (s.queue k))
      × (s'.dropping ≡ s.dropping ++ full_of s.queue s.clients)
unfolding handle_broadcast
run-received steps m new =
    let (s, p, k) = run-Consistent steps new in
    let (s', q, queues, dropping) =
      send_each-received m s.clients s (λ c h. open_of (registered_in steps) s c k h) k.distinct in
    (s, s', p, q, queues, dropping)
