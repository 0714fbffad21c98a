-- ===== src/Float/Milli.antt =====
-- Floats for the runs of the tests: whole thousandths, with `none` for NaN. Every assumption that
-- the theorems make of `float64` holds here.
use Prim.Native.String.{◌++◌ as append}
use native.Mathlib.Nat.{mul-le-mul_left}
use duckdb_load_testing_tool.Float.{Float64, IsOrdered, IsIndexing}
use duckdb_load_testing_tool.Prelude.{
  ℕ, zero, suc, ◌+◌, ◌*◌, ◌/◌, ◌%◌, ◌^◌, String, Bool, true, false, Option, none, some,
  if◌then◌else◌, arith, ◌≡◌, refl, ◌≤◌,
}
use duckdb_load_testing_tool.Prelude.Int.{ℤ, pos, negsuc, ltb_ℤ, leb_ℤ, eqb_ℤ, ◌+ℤ◌, ◌-ℤ◌, ◌*ℤ◌}
use duckdb_load_testing_tool.Prelude.Format.{show_ℕ}

abbrev pub Milli : Type 0
Milli = Option ℤ

abbrev magnitude : ℤ → ℕ
magnitude (pos n) = n
magnitude (negsuc n) = suc n

abbrev signed : Bool → ℕ → ℤ
signed true zero = pos 0
signed true (suc n) = negsuc n
signed false n = pos n

abbrev is_negative : ℤ → Bool
is_negative (pos n) = false
is_negative (negsuc n) = true

-- Division towards zero.
abbrev quotient : ℤ → ℤ → ℤ
quotient a (pos n) = signed (is_negative a) (magnitude a / n)
quotient (pos m) (negsuc n) = signed true (m / suc n)
quotient (negsuc m) (negsuc n) = pos (suc m / suc n)

abbrev on_numbers {ℓ} : {A : Type ℓ} → A → (ℤ → ℤ → A) → Milli → Milli → A
on_numbers otherwise f (some a) (some b) = f a b
on_numbers otherwise f _ _ = otherwise

abbrev on_number {ℓ} : {A : Type ℓ} → A → (ℤ → A) → Milli → A
on_number otherwise f (some a) = f a
on_number otherwise f none = otherwise

abbrev is_zero : ℤ → Bool
is_zero (pos zero) = true
is_zero _ = false

abbrev ratio : ℤ → ℤ → Milli
ratio a b = if is_zero b then none else some (quotient (a *ℤ pos 1000) b)

-- Two decimal places, cut off.
abbrev two_places : ℤ → String
two_places z =
    let n = magnitude z in
    append (if is_negative z then "-" else "") (
      append (show_ℕ (n / 1000))
        (append "." (append (show_ℕ (n / 100 % 10)) (show_ℕ (n / 10 % 10)))))

instance abbrev pub milli_float : Float64 Milli
milli_float = record {
  lit = λ n k. some (pos (n * 1000 / 10 ^ k));
  add = on_numbers none λ a b. some (a +ℤ b);
  sub = on_numbers none λ a b. some (a -ℤ b);
  mul = on_numbers none λ a b. some (quotient (a *ℤ b) (pos 1000));
  div = on_numbers none ratio;
  neg = on_number none λ a. some (pos 0 -ℤ a);
  lt = on_numbers false ltb_ℤ;
  le = on_numbers false leb_ℤ;
  feq = on_numbers false eqb_ℤ;
  of_int = λ n. some (n *ℤ pos 1000);
  trunc = on_number (pos 0) λ a. quotient a (pos 1000);
  round = on_number none λ a. some (signed (is_negative a) ((magnitude a + 500) / 1000 * 1000));
  pow = on_numbers none λ a b. some (pos ((magnitude a / 1000) ^ (magnitude b / 1000) * 1000));
  format = λ places. on_number "NaN" two_places;
  format_signed =
      λ places. on_number "NaN" λ a. append (if is_negative a then "" else "+") (two_places a);
}

pub Milli-IsOrdered : IsOrdered Milli
Milli-IsOrdered = ground arith

-- The index, in thousandths.
abbrev milli_index : ℕ → ℕ → ℕ
milli_index n k = n * 1000 * (k * 1000 / 100) / 1000 / 1000

pos-* : (a b : ℕ) → pos a *ℤ pos b ≡ pos (a * b)
unfolding ◌*ℤ◌
pos-* a b = ground arith

Milli-index :
    (n k : ℕ)
    → milli_float.trunc (milli_float.mul (milli_float.of_int (pos n)) (milli_float.lit k 2))
      ≡ pos (milli_index n k)
Milli-index n k = rw (pos-* n 1000, pos-* (n * 1000) (k * 1000 / 100)) refl

*-mono : (m a b : ℕ) → a ≤ b → m * a ≤ m * b
*-mono m a b h = mul-le-mul_left m h

milli_index_mono : (n k l : ℕ) → k ≤ l → milli_index n k ≤ milli_index n l
milli_index_mono n k l h =
    let h2 = *-mono (n * 1000) (k * 1000 / 100) (l * 1000 / 100) (omega arith) in omega arith

milli_index_bound : (n k : ℕ) → k ≤ 100 → milli_index n k ≤ n
milli_index_bound n k h =
    let h2 = *-mono (n * 1000) (k * 1000 / 100) 1000 (omega arith) in omega arith

pub Milli-IsIndexing : IsIndexing Milli
Milli-IsIndexing = record {
  index_of = λ n k n< k≤. (milli_index n k, Milli-index n k, milli_index_bound n k k≤);
  index_mono = λ n k l i j n< k≤l l≤ ei ej.
      let h = milli_index_mono n k l k≤l in
      let hi : milli_index n k ≡ i = cc (Milli-index n k) in
      let hj : milli_index n l ≡ j = cc (Milli-index n l) in omega arith;
}
