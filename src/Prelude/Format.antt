-- ===== src/Prelude/Format.antt =====
-- `%d`: the decimal form of an integer.
use Prim.Native.String.{◌++◌ as append}
use duckdb_load_testing_tool.Prelude.{ℕ, zero, suc, ◌/◌, ◌%◌, String, ltb, if◌then◌else◌, ◌≡◌, refl}
use duckdb_load_testing_tool.Prelude.Int.{ℤ, pos, negsuc}

-- The digit of a number below ten.
abbrev pub digit : ℕ → String
digit zero = "0"
digit (suc zero) = "1"
digit (suc (suc zero)) = "2"
digit (suc (suc (suc zero))) = "3"
digit (suc (suc (suc (suc zero)))) = "4"
digit (suc (suc (suc (suc (suc zero))))) = "5"
digit (suc (suc (suc (suc (suc (suc zero)))))) = "6"
digit (suc (suc (suc (suc (suc (suc (suc zero))))))) = "7"
digit (suc (suc (suc (suc (suc (suc (suc (suc zero)))))))) = "8"
digit _ = "9"

-- The fuel is the number of digits that may still come.
show_digits : ℕ → ℕ → String
show_digits zero n = ""
show_digits (suc fuel) n =
    let rest = show_digits fuel (n / 10) in
    if ltb n 10 then digit n else append rest (digit (n % 10))

unfoldable pub show_ℕ : ℕ → String
unfolding show_digits
show_ℕ n = show_digits (suc n) n

unfoldable pub show_ℤ : ℤ → String
unfolding show_ℕ
show_ℤ (pos n) = show_ℕ n
show_ℤ (negsuc n) = append "-" (show_ℕ (suc n))

shown : show_ℤ (negsuc 1049) ≡ "-1050"
unfolding show_ℤ
shown = refl
