-- ===== src/Queries/Splitting.antt =====
-- Cutting a text at a character and putting the parts together: strings.Split, strings.Join and the
-- lines of a bufio.Scanner.
use Prim.Native.Char.{Char, code}
use Prim.Native.String.{String, ◌++◌ as append}
use text.Mathlib.TextEquality.{Char-path}
use text.Mathlib.TextLemmas.{nil-append, cons-append, append-nil}
use duckdb_load_testing_tool.Prelude.{
  ℕ, ◌≡◌, refl, sym, ap, ◌∙◌, ◌==◌, Bool, true, false, not, ◌&&◌, List, [], ◌∷◌, ◌++◌, All, any,
  arith, Bool-cases, inl, inr,
}
use duckdb_load_testing_tool.Queries.Text.{
  is_space, trim_right, keep_char, pieces, split, join, without_last_blank,
}

-- No character of the text has this code.
abbrev pub lacks : ℕ → String → Bool
lacks n String.[] = true
lacks n (String.◌∷◌ c s) = not (code c == n) && lacks n s

abbrev joined_pieces : String × List String → List String → String × List String
joined_pieces (p, ps) more = (p, ps ++ more)

pieces-append :
    (sep : ℕ) (c : Char) (s t : String)
    → code c ≡ sep
    → pieces sep (append s (String.◌∷◌ c t)) ≡ joined_pieces (pieces sep s) (split sep t)
unfolding pieces split
pieces-append sep c String.[] t h = rw nil-append (ground (arith, h))
pieces-append sep c (String.◌∷◌ d s) t h =
    rw (cons-append, pieces-append sep c s t h)
      (elim (Bool-cases (code d == sep)) [ inl e ↦ rw e | inr e ↦ rw e ])

-- A split at a separator is the split before it and the split behind it.
pub split-append :
    (sep : ℕ) (c : Char) (s t : String)
    → code c ≡ sep
    → split sep (append s (String.◌∷◌ c t)) ≡ split sep s ++ split sep t
unfolding split
split-append sep c s t h = rw (pieces-append sep c s t h) refl

pieces_of_lacks : (sep : ℕ) (s : String) → lacks sep s ≡ true → pieces sep s ≡ (s, [])
unfolding pieces
pieces_of_lacks sep String.[] h = refl
pieces_of_lacks sep (String.◌∷◌ c s) h = elim (Bool-cases (code c == sep)) [
  | inl e ↦ ground (arith, e)
  | inr e ↦ let l : lacks sep s ≡ true = ground (arith, e) in rw (e, pieces_of_lacks sep s l) refl
]

pub split_of_lacks : (sep : ℕ) (s : String) → lacks sep s ≡ true → split sep s ≡ s ∷ []
unfolding split
split_of_lacks sep s h = rw (pieces_of_lacks sep s h) refl

pub join_before_last :
    (sep s last : String) (ls : List String)
    → join sep (s ∷ (ls ++ last ∷ [])) ≡ append s (append sep (join sep (ls ++ last ∷ [])))
unfolding join
join_before_last sep s last [] = refl
join_before_last sep s last (l ∷ ls) = refl

-- A join splits into the parts that lack the separator, and the parts of the last.
pub split-join :
    (sep : ℕ) (c : Char) (ls : List String) (last : String)
    → code c ≡ sep
    → All (λ l. lacks sep l ≡ true) ls
    → split sep (join (String.◌∷◌ c String.[]) (ls ++ last ∷ [])) ≡ ls ++ split sep last
split-join sep c [] last h hs = unfold join in refl
split-join sep c (l ∷ ls) last h (k, ks) =
    rw
      (
        join_before_last (String.◌∷◌ c String.[]) l last ls,
        cons-append c String.[] (join (String.◌∷◌ c String.[]) (ls ++ last ∷ [])),
        nil-append (join (String.◌∷◌ c String.[]) (ls ++ last ∷ [])),
        split-append sep c l (join (String.◌∷◌ c String.[]) (ls ++ last ∷ [])) h,
        split_of_lacks sep l k,
        split-join sep c ls last h ks,
      )
      refl

join-longer :
    (sep : String) (c : Char) (p : String) (ps : List String)
    → join sep (String.◌∷◌ c p ∷ ps) ≡ String.◌∷◌ c (join sep (p ∷ ps))
unfolding join
join-longer sep c p [] = refl
join-longer sep c p (q ∷ ps) = cons-append c p (append sep (join sep (q ∷ ps)))

join_blank_first :
    (c : Char) (s : String) (ls : List String)
    → join (String.◌∷◌ c String.[]) ("" ∷ s ∷ ls)
      ≡ String.◌∷◌ c (join (String.◌∷◌ c String.[]) (s ∷ ls))
unfolding join
join_blank_first c s ls = rw (nil-append, cons-append, nil-append) refl

-- Joining the parts of a split gives the text back.
pub join-split : (c : Char) (s : String) → join (String.◌∷◌ c String.[]) (split (code c) s) ≡ s
unfolding split pieces
join-split c String.[] = unfold join in refl
join-split c (String.◌∷◌ d s) = elim (Bool-cases (code d == code c)) [
  | inl e ↦
      let same : code c ≡ code d = ground arith in
      rw e (
        join_blank_first c (pieces (code c) s).0 (pieces (code c) s).1
        ∙ ap (String.◌∷◌ c) (join-split c s)
        ∙ ap (λ x. String.◌∷◌ x s) (Char-path c d same))
  | inr e ↦ rw e (
      join-longer _ d (pieces (code c) s).0 (pieces (code c) s).1
      ∙ ap (String.◌∷◌ d) (join-split c s))
]

trim_right-append_cong :
    (s t u : String)
    → trim_right t ≡ trim_right u
    → trim_right (append s t) ≡ trim_right (append s u)
unfolding trim_right
trim_right-append_cong String.[] t u h = rw (nil-append t, nil-append u) h
trim_right-append_cong (String.◌∷◌ c s) t u h =
    rw (cons-append c s t, cons-append c s u) (ap (keep_char c) (trim_right-append_cong s t u h))

pub join_two :
    (sep l m : String) (ls : List String)
    → join sep (l ∷ m ∷ ls) ≡ append l (append sep (join sep (m ∷ ls)))
unfolding join
join_two sep l m ls = refl

pub join_one : (sep l : String) → join sep (l ∷ []) ≡ l
unfolding join
join_one sep l = refl

trim_right-join_cong :
    (sep l m n : String) (ms ns : List String)
    → trim_right (join sep (m ∷ ms)) ≡ trim_right (join sep (n ∷ ns))
    → trim_right (join sep (l ∷ m ∷ ms)) ≡ trim_right (join sep (l ∷ n ∷ ns))
trim_right-join_cong sep l m n ms ns h =
    rw (join_two sep l m ms, join_two sep l n ns)
      (trim_right-append_cong l _ _ (trim_right-append_cong sep _ _ h))

trim_right_line_end : trim_right (append "\n" "") ≡ trim_right ""
unfolding trim_right is_space
trim_right_line_end = refl

-- The blank part that a line end leaves behind goes with the trimming.
pub trim_right-without_last_blank :
    (l : String) (ls : List String)
    → trim_right (join "\n" (without_last_blank (l ∷ ls))) ≡ trim_right (join "\n" (l ∷ ls))
unfolding without_last_blank
trim_right-without_last_blank String.[] [] = unfold join in refl
trim_right-without_last_blank (String.◌∷◌ c l) [] = refl
trim_right-without_last_blank l (String.[] ∷ []) =
    rw (join_one "\n" l, join_two "\n" l "" [], join_one "\n" "")
      (ap trim_right (sym (append-nil l))
        ∙ sym (trim_right-append_cong l (append "\n" "") "" trim_right_line_end))
trim_right-without_last_blank l (String.◌∷◌ c m ∷ []) = refl
trim_right-without_last_blank l (m ∷ n ∷ ls) =
    trim_right-join_cong "\n" l m m (without_last_blank (n ∷ ls)) (n ∷ ls)
      (trim_right-without_last_blank m (n ∷ ls))

-- Lines in front stay where they are.
pub without_last_blank-append :
    (ls : List String) (m : String) (ms : List String)
    → without_last_blank (ls ++ m ∷ ms) ≡ ls ++ without_last_blank (m ∷ ms)
unfolding without_last_blank
without_last_blank-append [] m ms = refl
without_last_blank-append (l ∷ []) m ms = refl
without_last_blank-append (l ∷ k ∷ ls) m ms =
    ap (λ ks. l ∷ ks) (without_last_blank-append (k ∷ ls) m ms)

pub any-without_last_blank :
    (p : String → Bool) (ls : List String)
    → any p ls ≡ false
    → any p (without_last_blank ls) ≡ false
unfolding without_last_blank
any-without_last_blank p [] h = refl
any-without_last_blank p (l ∷ []) h = ground arith
any-without_last_blank p (l ∷ m ∷ ls) h = ground (arith, any-without_last_blank p (m ∷ ls))
