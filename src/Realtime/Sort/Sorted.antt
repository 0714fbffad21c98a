-- ===== src/Realtime/Sort/Sorted.antt =====
-- The order of what `sortFloat64s` of sidecar-go/realtime/hub.go returns.
use mathlib.Core.Path.{subst}
use mathlib.Core.List.{Perm, append-nil, perm_middle}
use mathlib.Core.List.Perm
use duckdb_load_testing_tool.Prelude.{
  ℕ, zero, suc, ◌≤◌, ◌<◌, ◌≡◌, refl, List, [], ◌∷◌, ◌++◌, false, arith, All, Bool-cases, inl, inr,
  length,
}
use duckdb_load_testing_tool.Prelude.Result.{ok}
use duckdb_load_testing_tool.Float.{Float64, gt, IsNumber, IsOrdered}
use duckdb_load_testing_tool.Realtime.Sort.{insert_key, sort_from, reverse_onto, sort_float64s, at}

module _ {F : Type 0} ⦃d : Float64 F⦄ where
  open d use {lt, lit}

  insert_key-perm : (key : F) (sorted : List F) → Perm (insert_key key sorted) (key ∷ sorted)
  unfolding insert_key
  insert_key-perm key [] = Perm.refl _
  insert_key-perm key (v ∷ before) = elim (Bool-cases (gt v key)) [
    | inl e ↦ rw e (Perm.trans (Perm.cons v (insert_key-perm key before)) (Perm.swap key v before))
    | inr e ↦ rw e (Perm.refl _)
  ]

  sort_from-perm : (sorted values : List F) → Perm (sort_from sorted values) (sorted ++ values)
  unfolding sort_from
  sort_from-perm sorted [] = rw append-nil (Perm.refl _)
  sort_from-perm sorted (key ∷ rest) = Perm.trans (sort_from-perm (insert_key key sorted) rest) (
      Perm.trans (Perm.append_right rest (insert_key-perm key sorted))
        (Perm.symm (perm_middle sorted rest)))

  reverse_onto-perm : (xs out : List F) → Perm (reverse_onto xs out) (xs ++ out)
  reverse_onto-perm [] out = Perm.refl _
  reverse_onto-perm (x ∷ xs) out = Perm.trans (reverse_onto-perm xs (x ∷ out)) (perm_middle xs out)

  pub sort_float64s-perm : (values : List F) → Perm (sort_float64s values) values
  unfolding sort_float64s
  sort_float64s-perm values =
      let sorted = sort_from [] values in
      Perm.trans (reverse_onto-perm sorted []) (rw append-nil (sort_from-perm [] values))

  -- Every value is at most, or at least, all the later ones.
  abbrev pub IsAscending : List F → Type 0
  IsAscending [] = Unit
  IsAscending (x ∷ xs) = All (λ y. lt y x ≡ false) xs × IsAscending xs

  abbrev IsDescending : List F → Type 0
  IsDescending [] = Unit
  IsDescending (x ∷ xs) = All (λ y. lt x y ≡ false) xs × IsDescending xs

  module _ (laws : IsOrdered F) where
    open laws use {lt_asymm, not-lt_trans}

    All-not-lt_trans :
        (x y : F) (zs : List F)
        → IsNumber y
        → lt x y ≡ false
        → All (λ z. lt y z ≡ false) zs
        → All (λ z. lt x z ≡ false) zs
    All-not-lt_trans x y [] n h hs = tt
    All-not-lt_trans x y (z ∷ zs) n h (k, ks) =
        (not-lt_trans z y x n k h, All-not-lt_trans x y zs n h ks)

    All-insert_key :
        (P : F → Type 0) (key : F) (xs : List F) → P key → All P xs → All P (insert_key key xs)
    unfolding insert_key
    All-insert_key P key [] p ps = (p, tt)
    All-insert_key P key (v ∷ before) p (q, qs) = elim (Bool-cases (gt v key)) [
      | inl e ↦ rw e (q, All-insert_key P key before p qs)
      | inr e ↦ rw e (p, (q, qs))
    ]

    insert_key-IsDescending :
        (key : F) (sorted : List F)
        → IsNumber key
        → All IsNumber sorted
        → IsDescending sorted
        → IsDescending (insert_key key sorted)
    unfolding insert_key
    insert_key-IsDescending key [] nk ns h = (tt, tt)
    insert_key-IsDescending key (v ∷ before) nk (nv, ns) (h, hs) = elim (Bool-cases (gt v key)) [
      | inl e ↦ rw e (
        All-insert_key (λ z. lt v z ≡ false) key before (lt_asymm key v e) h,
        insert_key-IsDescending key before nk ns hs,
      )
      | inr e ↦ rw e ((e, All-not-lt_trans key v before nv e h), (h, hs))
    ]

    sort_from-IsDescending :
        (sorted values : List F)
        → All IsNumber sorted
        → All IsNumber values
        → IsDescending sorted
        → IsDescending (sort_from sorted values)
    unfolding sort_from
    sort_from-IsDescending sorted [] ns nv h = h
    sort_from-IsDescending sorted (key ∷ rest) ns (nk, nr) h =
        sort_from-IsDescending (insert_key key sorted) rest
          (All-insert_key IsNumber key sorted nk ns) nr (insert_key-IsDescending key sorted nk ns h)

    -- Each value of the first list is at most each of the second.
    abbrev Below : List F → List F → Type 0
    Below out = All λ x. All (λ y. lt y x ≡ false) out

    Below-cons :
        (x : F) (out xs : List F) → All (λ z. lt x z ≡ false) xs → Below out xs → Below (x ∷ out) xs
    Below-cons x out [] h b = tt
    Below-cons x out (z ∷ xs) (h, hs) (b, bs) = ((h, b), Below-cons x out xs hs bs)

    reverse_onto-IsAscending :
        (xs out : List F)
        → IsDescending xs
        → IsAscending out
        → Below out xs
        → IsAscending (reverse_onto xs out)
    reverse_onto-IsAscending [] out h up b = up
    reverse_onto-IsAscending (x ∷ xs) out (h, hs) up (b, bs) =
        reverse_onto-IsAscending xs (x ∷ out) hs (b, up) (Below-cons x out xs h bs)

    Below-nil : (xs : List F) → Below [] xs
    Below-nil [] = tt
    Below-nil (x ∷ xs) = (tt, Below-nil xs)

    -- For values that are all numbers, `sortFloat64s` returns a rearrangement of them in which no
    -- value is less than an earlier one.
    pub sort_float64s-IsAscending :
        (values : List F)
        → All IsNumber values
        → IsAscending (sort_float64s values) × Perm (sort_float64s values) values
    sort_float64s-IsAscending values n = (
      unfold sort_float64s in
          reverse_onto-IsAscending (sort_from [] values) []
            (sort_from-IsDescending [] values tt n tt) tt (Below-nil (sort_from [] values)),
      sort_float64s-perm values,
    )

    All-at : (P : F → Type 0) (xs : List F) (i : ℕ) (a : F) → All P xs → at xs i ≡ ok a → P a
    All-at P [] i a h e = cc
    All-at P (x ∷ xs) zero a (p, ps) e = subst P (cc) p
    All-at P (x ∷ xs) (suc i) a (p, ps) e = All-at P xs i a ps e

    not-lt_self : (a : F) → lt a a ≡ false
    not-lt_self a = elim (Bool-cases (lt a a)) [ inl e ↦ absurd (cc (lt_asymm a a e)) | inr e ↦ e ]

    pub at_mono :
        (xs : List F) (i j : ℕ) (a b : F)
        → IsAscending xs
        → i ≤ j
        → at xs i ≡ ok a
        → at xs j ≡ ok b
        → lt b a ≡ false
    at_mono [] i j a b h le ei ej = cc
    at_mono (x ∷ xs) zero zero a b h le ei ej =
        let e : a ≡ b = cc in subst (λ z. lt z a ≡ false) e (not-lt_self a)
    at_mono (x ∷ xs) zero (suc j) a b (h, hs) le ei ej =
        let e : x ≡ a = cc in
        subst (λ z. lt b z ≡ false) e (All-at (λ y. lt y x ≡ false) xs j b h ej)
    at_mono (x ∷ xs) (suc i) zero a b h le ei ej = absurd (omega arith)
    at_mono (x ∷ xs) (suc i) (suc j) a b (h, hs) le ei ej =
        at_mono xs i j a b hs (omega arith) ei ej

pub at-ok : {F : Type 0} (xs : List F) (i : ℕ) → i < length xs → (a : F) × (at xs i ≡ ok a)
at-ok [] i h = absurd (omega arith)
at-ok (x ∷ xs) zero h = (x, refl)
at-ok (x ∷ xs) (suc i) h = at-ok xs i (omega arith)
