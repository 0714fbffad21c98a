-- ===== src/Prelude/Shuffle.antt =====
-- What a rearrangement of a list keeps: whether some element passes a test, and a sum over the list.
use mathlib.Core.Logic.{∥∥₁_elim}
use mathlib.Core.List.{Perm, Permᴰ}
use native.Mathlib.Nat.{ℕ_set}
use duckdb_load_testing_tool.Prelude.{ℕ, ◌+◌, ◌≡◌, refl, ap, ◌∙◌, Bool, List, [], ◌∷◌, arith, any}

module _ {A : Type 0} where
  abbrev pub sum_over : (A → ℕ) → List A → ℕ
  sum_over g [] = 0
  sum_over g (x ∷ xs) = g x + sum_over g xs

  any-Permᴰ : (g : A → Bool) {xs ys : List A} → Permᴰ xs ys → any g xs ≡ any g ys
  any-Permᴰ g Permᴰ.nil = refl
  any-Permᴰ g (Permᴰ.cons e p) = cc (ap g e, any-Permᴰ g p)
  any-Permᴰ g (Permᴰ.swap e e') = ground (arith, ap g e, ap g e')
  any-Permᴰ g (Permᴰ.trans p q) = any-Permᴰ g p ∙ any-Permᴰ g q

  sum_over-Permᴰ : (g : A → ℕ) {xs ys : List A} → Permᴰ xs ys → sum_over g xs ≡ sum_over g ys
  sum_over-Permᴰ g Permᴰ.nil = refl
  sum_over-Permᴰ g (Permᴰ.cons e p) = omega (arith, ap g e, sum_over-Permᴰ g p)
  sum_over-Permᴰ g (Permᴰ.swap e e') = omega (arith, ap g e, ap g e')
  sum_over-Permᴰ g (Permᴰ.trans p q) = sum_over-Permᴰ g p ∙ sum_over-Permᴰ g q

  pub any-perm : (g : A → Bool) {xs ys : List A} → Perm xs ys → any g xs ≡ any g ys
  any-perm g p = ∥∥₁_elim p (hlevel) (any-Permᴰ g)

  pub sum_over-perm : (g : A → ℕ) {xs ys : List A} → Perm xs ys → sum_over g xs ≡ sum_over g ys
  sum_over-perm g p = ∥∥₁_elim p (ℕ_set _ _) (sum_over-Permᴰ g)
