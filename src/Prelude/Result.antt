-- ===== src/Prelude/Result.antt =====
-- Go's `(value, error)` results. An error keeps its format string and its arguments apart; only the
-- rendering of the message is left out.
use duckdb_load_testing_tool.Prelude.{
  String, List, Option, none, some, ◌≡◌, refl, ◌⊎◌, inl, inr, Bool, true, false, if◌then◌else◌,
}

pub data Error : Type 0 where
  -- errors.New, and an error of code outside the repository
  message : String → Error
  -- fmt.Errorf(format, arguments...)
  formatted : String → List String → Error
  -- fmt.Errorf(format with %w, arguments..., err)
  wrapped : String → List String → Error → Error

pub data Result {ℓ} (A : Type ℓ) : Type ℓ where
  ok : A → Result A
  err : Error → Result A

infixl 5 ◌>>=◌ ◌>>◌
abbrev pub ◌>>=◌ {ℓ κ} : {A : Type ℓ} {B : Type κ} → Result A → (A → Result B) → Result B
ok value >>= next = next value
err failure >>= next = err failure

abbrev pub ◌>>◌ {ℓ} : {B : Type ℓ} → Result (Unit {0}) → Result B → Result B
first >> second = first >>= λ _. second

-- `if err != nil { return …, fmt.Errorf(format, …, err) }`
abbrev pub wrap {ℓ} : {A : Type ℓ} → String → List String → Result A → Result A
wrap format args (ok a) = ok a
wrap format args (err e) = err (wrapped format args e)

-- `if err != nil { return …, err }` for an error that may be nil.
abbrev pub check : Option Error → Result (Unit {0})
check none = ok tt
check (some e) = err e

-- A read through a nil pointer panics.
abbrev pub nil_dereference : Error
nil_dereference = message "runtime error: invalid memory address or nil pointer dereference"

pub Result-cases {ℓ} :
    {A : Type ℓ} (r : Result A) → ((a : A) × (r ≡ ok a)) ⊎ ((e : Error) × (r ≡ err e))
Result-cases (ok a) = inl (a, refl)
Result-cases (err e) = inr (e, refl)

-- A chain that returns has returned at each step.
pub bind-ok {ℓ κ} :
    {A : Type ℓ} {B : Type κ} (m : Result A) (f : A → Result B) (b : B)
    → (m >>= f) ≡ ok b
    → (a : A) × (m ≡ ok a) × (f a ≡ ok b)
bind-ok (ok a) f b h = (a, refl, h)
bind-ok (err e) f b h = cc

-- A test that returns an error, and has not.
pub guard-ok {ℓ} :
    {A : Type ℓ} (b : Bool) (e : Error) (a c : A)
    → (if b then err e else ok a) ≡ ok c
    → (b ≡ false) × (a ≡ c)
guard-ok true e a c h = cc
guard-ok false e a c h = (refl, cc)

pub wrap-ok {ℓ} :
    {A : Type ℓ} (format : String) (args : List String) (r : Result A) (a : A)
    → wrap format args r ≡ ok a
    → r ≡ ok a
wrap-ok format args (ok b) a h = h
wrap-ok format args (err e) a h = cc

-- A chain that fails has failed at its first step or behind it.
pub bind-err {ℓ κ} :
    {A : Type ℓ} {B : Type κ} (m : Result A) (f : A → Result B) (e : Error)
    → (m >>= f) ≡ err e
    → (m ≡ err e) ⊎ ((a : A) × (m ≡ ok a) × (f a ≡ err e))
bind-err (ok a) f e h = inr (a, refl, h)
bind-err (err d) f e h = inl cc
