-- ===== src/Queries/Lines.antt =====
-- The lines of a text that a bufio.Scanner reads without an error, and without carriage returns.
use Prim.Native.Char.{Char, code, len_utf8}
use Prim.Native.String.{String, len}
use Prim.Native.String.len
use duckdb_load_testing_tool.Prelude.{
  ℕ, ◌+◌, ◌≤◌, ◌<◌, ◌≡◌, refl, ap, ◌==◌, true, false, List, [], ◌∷◌, All, any, map, arith,
  if◌then◌else◌, Bool-cases, inl, inr,
}
use duckdb_load_testing_tool.Prelude.Result.{ok}
use duckdb_load_testing_tool.Queries.Text.{
  is_blank, pieces, new_piece, longer_piece, split, drop_cr, without_last_blank, too_long,
  max_token, scan_lines,
}
use duckdb_load_testing_tool.Queries.Splitting.{lacks, any-without_last_blank}

-- No part of a split is longer than the text.
abbrev AreShort : ℕ → String × List String → Type 0
AreShort n (p, ps) = (len p ≤ n) × All (λ q. len q ≤ n) ps

larger_bound :
    (m n : ℕ) (ps : List String) → m ≤ n → All (λ q. len q ≤ m) ps → All (λ q. len q ≤ n) ps
larger_bound m n [] h a = tt
larger_bound m n (p ∷ ps) h (a, more) = (omega arith, larger_bound m n ps h more)

AreShort-cons :
    (sep : ℕ) (c : Char) (m : ℕ) (r : String × List String)
    → AreShort m r
    → AreShort (len_utf8 c + m) (if code c == sep then new_piece r else longer_piece c r)
AreShort-cons sep c m (p, ps) (h, hs) = elim (Bool-cases (code c == sep)) [
  | inl e ↦
      rw e (
        rw len.nil (omega arith),
        (omega arith, larger_bound m (len_utf8 c + m) ps (omega arith) hs),
      )
  | inr e ↦ rw e (rw len.cons (omega arith), larger_bound m (len_utf8 c + m) ps (omega arith) hs)
]

pieces-AreShort : (sep : ℕ) (s : String) → AreShort (len s) (pieces sep s)
unfolding pieces
pieces-AreShort sep String.[] = (rw len.nil (omega arith), tt)
pieces-AreShort sep (String.◌∷◌ c s) =
    rw (len.cons c s) (AreShort-cons sep c (len s) (pieces sep s) (pieces-AreShort sep s))

any-too_long :
    (n : ℕ) (ps : List String) → n < max_token → All (λ q. len q ≤ n) ps → any too_long ps ≡ false
any-too_long n [] h a = refl
any-too_long n (p ∷ ps) h (a, more) = ground (arith, any-too_long n ps h more)

-- A text that a buffer of the scanner holds has no line that is too long.
split-too_long : (s : String) → len s < max_token → any too_long (split b'\n' s) ≡ false
unfolding split
split-too_long s h =
    let (p, ps) = pieces-AreShort b'\n' s in any-too_long (len s) (split b'\n' s) h (p, ps)

pub scan_lines_of_short :
    (s : String)
    → len s < max_token
    → scan_lines s ≡ ok (map drop_cr (without_last_blank (split b'\n' s)))
unfolding scan_lines
scan_lines_of_short s h =
    rw (any-without_last_blank too_long (split b'\n' s) (split-too_long s h)) refl

drop_cr_of_lacks : (s : String) → lacks b'\r' s ≡ true → drop_cr s ≡ s
unfolding drop_cr
drop_cr_of_lacks String.[] h = refl
drop_cr_of_lacks (String.◌∷◌ c String.[]) h = ground arith
drop_cr_of_lacks (String.◌∷◌ c (String.◌∷◌ d s)) h =
    ap (String.◌∷◌ c) (drop_cr_of_lacks (String.◌∷◌ d s) (ground arith))

abbrev AllLack : ℕ → String × List String → Type 0
AllLack n (p, ps) = (lacks n p ≡ true) × All (λ q. lacks n q ≡ true) ps

AllLack-cons :
    (n sep : ℕ) (c : Char) (r : String × List String)
    → (code c == n) ≡ false
    → AllLack n r
    → AllLack n (if code c == sep then new_piece r else longer_piece c r)
AllLack-cons n sep c (p, ps) k (h, hs) = elim (Bool-cases (code c == sep)) [
  | inl e ↦ rw e (refl, (h, hs))
  | inr e ↦ rw e (rw k h, hs)
]

pieces-AllLack : (n sep : ℕ) (s : String) → lacks n s ≡ true → AllLack n (pieces sep s)
unfolding pieces
pieces-AllLack n sep String.[] h = (refl, tt)
pieces-AllLack n sep (String.◌∷◌ c s) h =
    let k : (code c == n) ≡ false = ground arith in
    let l : lacks n s ≡ true = ground arith in
    AllLack-cons n sep c (pieces sep s) k (pieces-AllLack n sep s l)

map-drop_cr :
    (ls : List String)
    → All (λ l. lacks b'\r' l ≡ true) ls
    → map drop_cr (without_last_blank ls) ≡ without_last_blank ls
unfolding without_last_blank
map-drop_cr [] h = refl
map-drop_cr (l ∷ []) (h, hs) = elim (Bool-cases (is_blank l)) [
  | inl e ↦ rw e refl
  | inr e ↦ rw (e, drop_cr_of_lacks l h) refl
]
map-drop_cr (l ∷ m ∷ ls) (h, hs) = rw (drop_cr_of_lacks l h, map-drop_cr (m ∷ ls) hs) refl

-- A text without carriage returns keeps its lines as they are.
pub map-drop_cr-split :
    (s : String)
    → lacks b'\r' s ≡ true
    → map drop_cr (without_last_blank (split b'\n' s)) ≡ without_last_blank (split b'\n' s)
unfolding split
map-drop_cr-split s h =
    let (p, ps) = pieces-AllLack b'\r' b'\n' s h in map-drop_cr (split b'\n' s) (p, ps)
