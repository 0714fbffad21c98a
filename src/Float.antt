-- ===== src/Float.antt =====
-- Go's `float64`, with the operations of the language, `math` and `fmt` that the program uses, as a
-- parameter of the model. `IsOrdered` and the records below it are what IEEE 754 says of them.
pub mod Milli
use duckdb_load_testing_tool.Prelude.{ℕ, ◌≤◌, ◌<◌, ◌^◌, ◌≡◌, String, Bool, true, false, not, ◌⊎◌}
use duckdb_load_testing_tool.Prelude.Int.{ℤ, pos}

pub record Float64 (F : Type 0) : Type 0 where
  -- the literal n / 10 ^ k
  pub lit : ℕ → ℕ → F
  pub add : F → F → F
  pub sub : F → F → F
  pub mul : F → F → F
  pub div : F → F → F
  -- -x
  pub neg : F → F
  -- x < y
  pub lt : F → F → Bool
  -- x <= y
  pub le : F → F → Bool
  -- x == y
  pub feq : F → F → Bool
  -- float64(n)
  pub of_int : ℤ → F
  -- int(x), for an x that an int holds
  pub trunc : F → ℤ
  -- math.Round and math.Pow
  pub round : F → F
  pub pow : F → F → F
  -- "%.nf", and "%+.nf", which shows a plus sign
  pub format : ℕ → F → String
  pub format_signed : ℕ → F → String

module _ {F : Type 0} ⦃d : Float64 F⦄ where
  open d use {lit, lt, feq}

  -- 0
  abbrev pub nought : F
  nought = lit 0 0

  -- x != x holds of NaN alone.
  abbrev pub IsNumber : F → Type 0
  IsNumber x = feq x x ≡ true

  -- x > y
  abbrev pub gt : F → F → Bool
  gt x y = lt y x

-- The order of floats: strict, and total away from NaN, which compares with nothing.
pub record IsOrdered (F : Type 0) ⦃d : Float64 F⦄ : Type 0 where
  pub lt_numbers : (x y : F) → d.lt x y ≡ true → IsNumber x × IsNumber y
  pub lt_asymm : (x y : F) → d.lt x y ≡ true → d.lt y x ≡ false
  pub lt_trans : (x y z : F) → d.lt x y ≡ true → d.lt y z ≡ true → d.lt x z ≡ true
  pub not-lt_trans :
      (x y z : F) → IsNumber y → d.lt y x ≡ false → d.lt z y ≡ false → d.lt z x ≡ false
  pub le-eq-not-lt : (x y : F) → IsNumber x → IsNumber y → d.le x y ≡ not (d.lt y x)
  pub lit_number : (n k : ℕ) → IsNumber (d.lit n k)

-- `int(float64(n) * p)` for a number n that a float holds exactly and a percentage p: the product
-- rounds to a value from 0 to n, and does not fall as p rises.
pub record IsIndexing (F : Type 0) ⦃d : Float64 F⦄ : Type 0 where
  pub index_of :
      (n k : ℕ)
      → n < 2 ^ 53
      → k ≤ 100
      → (i : ℕ) × (d.trunc (d.mul (d.of_int (pos n)) (d.lit k 2)) ≡ pos i) × (i ≤ n)
  pub index_mono :
      (n k l i j : ℕ)
      → n < 2 ^ 53
      → k ≤ l
      → l ≤ 100
      → d.trunc (d.mul (d.of_int (pos n)) (d.lit k 2)) ≡ pos i
      → d.trunc (d.mul (d.of_int (pos n)) (d.lit l 2)) ≡ pos j
      → i ≤ j
