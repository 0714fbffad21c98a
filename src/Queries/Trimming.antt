-- ===== src/Queries/Trimming.antt =====
-- How trimming meets itself, line ends and what stands in front of it: strings.TrimSpace.
use Prim.Native.Char.{Char, code}
use Prim.Native.String.{String, ◌++◌ as append}
use text.Mathlib.TextLemmas.{nil-append, cons-append}
use duckdb_load_testing_tool.Prelude.{
  ◌≡◌, refl, sym, ap, ◌∙◌, ◌==◌, Bool, true, false, not, arith, if◌then◌else◌, ℕ, Bool-cases, inl,
  inr,
}
use duckdb_load_testing_tool.Queries.Text.{
  is_space, trim_left, trim_right, trim_space, keep_char, is_blank, drop_cr,
}

trim_right-keep_char :
    (c : Char) (t : String) → trim_right t ≡ t → trim_right (keep_char c t) ≡ keep_char c t
unfolding trim_right
trim_right-keep_char c String.[] h = elim (Bool-cases (is_space (code c))) [
  | inl e ↦ rw e
  | inr e ↦ rw (e, e)
]
trim_right-keep_char c (String.◌∷◌ d t) h = rw h

trim_right_idem : (s : String) → trim_right (trim_right s) ≡ trim_right s
unfolding trim_right
trim_right_idem String.[] = refl
trim_right_idem (String.◌∷◌ c s) = trim_right-keep_char c (trim_right s) (trim_right_idem s)

trim_left-keep_char :
    (c : Char) (t : String)
    → trim_left (keep_char c t) ≡ (if is_space (code c) then trim_left t else keep_char c t)
unfolding trim_left
trim_left-keep_char c String.[] = elim (Bool-cases (is_space (code c))) [
  | inl e ↦ rw e
  | inr e ↦ rw (e, e)
]
trim_left-keep_char c (String.◌∷◌ d t) = refl

trim_left-trim_right : (s : String) → trim_left (trim_right s) ≡ trim_right (trim_left s)
unfolding trim_right trim_left
trim_left-trim_right String.[] = refl
trim_left-trim_right (String.◌∷◌ c s) =
    rw (trim_left-keep_char c (trim_right s), trim_left-trim_right s)
      (elim (Bool-cases (is_space (code c))) [ inl e ↦ rw e | inr e ↦ rw e ])

-- The trimming of a text that is trimmed behind already.
pub trim_space-trim_right : (s : String) → trim_space (trim_right s) ≡ trim_space s
unfolding trim_space
trim_space-trim_right s = rw trim_left-trim_right (trim_right_idem (trim_left s))

pub trim_space_after_space :
    (c : Char) (s : String) → is_space (code c) ≡ true → trim_space (String.◌∷◌ c s) ≡ trim_space s
unfolding trim_space trim_left
trim_space_after_space c s h = rw h

cr_is_space : (n : ℕ) → (n == b'\r') ≡ true → is_space n ≡ true
unfolding is_space
cr_is_space n h = ground arith

trim_right-drop_cr : (s : String) → trim_right (drop_cr s) ≡ trim_right s
unfolding trim_right drop_cr
trim_right-drop_cr String.[] = refl
trim_right-drop_cr (String.◌∷◌ c String.[]) = elim (Bool-cases (code c == b'\r')) [
  | inl e ↦ rw (e, cr_is_space (code c) e)
  | inr e ↦ rw e
]
trim_right-drop_cr (String.◌∷◌ c (String.◌∷◌ d s)) =
    ap (keep_char c) (trim_right-drop_cr (String.◌∷◌ d s))

-- Trimming takes a carriage return away as well.
pub trim_space-drop_cr : (s : String) → trim_space (drop_cr s) ≡ trim_space s
trim_space-drop_cr s =
    sym (trim_space-trim_right (drop_cr s))
    ∙ ap trim_space (trim_right-drop_cr s)
    ∙ trim_space-trim_right s

-- The text does not begin with a space.
abbrev pub starts_clean : String → Bool
starts_clean String.[] = true
starts_clean (String.◌∷◌ c s) = not (is_space (code c))

starts_clean-trim_left : (s : String) → starts_clean (trim_left s) ≡ true
unfolding trim_left
starts_clean-trim_left String.[] = refl
starts_clean-trim_left (String.◌∷◌ c s) = ground (arith, starts_clean-trim_left s)

starts_clean-keep_char :
    (c : Char) (t : String) → is_space (code c) ≡ false → starts_clean (keep_char c t) ≡ true
starts_clean-keep_char c String.[] h = rw (h, h)
starts_clean-keep_char c (String.◌∷◌ d t) h = rw h

starts_clean-trim_right : (s : String) → starts_clean s ≡ true → starts_clean (trim_right s) ≡ true
unfolding trim_right
starts_clean-trim_right String.[] h = refl
starts_clean-trim_right (String.◌∷◌ c s) h = starts_clean-keep_char c (trim_right s) (ground arith)

pub starts_clean-trim_space : (s : String) → starts_clean (trim_space s) ≡ true
unfolding trim_space
starts_clean-trim_space s = starts_clean-trim_right (trim_left s) (starts_clean-trim_left s)

pub trim_left_of_clean : (s : String) → starts_clean s ≡ true → trim_left s ≡ s
unfolding trim_left
trim_left_of_clean String.[] h = refl
trim_left_of_clean (String.◌∷◌ c s) h = ground arith

-- A character that is no space stops the trimming behind it.
pub trim_right-cons :
    (c : Char) (s : String)
    → is_space (code c) ≡ false
    → trim_right (String.◌∷◌ c s) ≡ String.◌∷◌ c (trim_right s)
unfolding trim_right
trim_right-cons c s h = cons_of (trim_right s)
  where
    cons_of : (t : String) → keep_char c t ≡ String.◌∷◌ c t
    cons_of String.[] = rw h
    cons_of (String.◌∷◌ d t) = refl

keep_char-append :
    (c : Char) (s w : String)
    → is_blank w ≡ false
    → keep_char c (append s w) ≡ String.◌∷◌ c (append s w)
keep_char-append c String.[] String.[] h = cc
keep_char-append c String.[] (String.◌∷◌ d w) h = rw nil-append refl
keep_char-append c (String.◌∷◌ d s) w h = rw cons-append refl

-- The trimming behind a text that keeps a character ends there.
pub trim_right-append :
    (s t : String)
    → is_blank (trim_right t) ≡ false
    → trim_right (append s t) ≡ append s (trim_right t)
unfolding trim_right
trim_right-append String.[] t h = rw (nil-append t, nil-append (trim_right t)) refl
trim_right-append (String.◌∷◌ c s) t h =
    rw (cons-append c s t, trim_right-append s t h, cons-append c s (trim_right t))
      (keep_char-append c s (trim_right t) h)
