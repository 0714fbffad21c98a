-- ===== src/Analysis/Bottleneck/Largest.antt =====
-- The phase that `largestPhase` of sidecar-go/analysis/bottleneck.go names.
use duckdb_load_testing_tool.Prelude.{
  ◌≡◌, ◌⊎◌, refl, inl, inr, List, [], ◌∷◌, Bool, true, false, arith, if◌then◌else◌, All,
}
use duckdb_load_testing_tool.Float.{Float64, IsNumber, IsOrdered, gt}
use duckdb_load_testing_tool.Analysis.Bottleneck.{
  TimingChange, TimingBreakdown, abs, change, rest_phases, phases, largest_from, largest_phase,
}

module _ {F : Type 0} ⦃d : Float64 F⦄ where
  -- `p` did not move more than `best`.
  abbrev pub NotMore : TimingChange F → TimingChange F → Type 0
  NotMore best p = gt (abs p.delta_ms) (abs best.delta_ms) ≡ false

  -- How much the phase moved is a number.
  abbrev pub HasMoved : TimingChange F → Type 0
  HasMoved p = IsNumber (abs p.delta_ms)

  -- The value is one of the list.
  abbrev pub OneOf : TimingChange F → List (TimingChange F) → Type 0
  OneOf r [] = ⊥
  OneOf r (p ∷ ps) = (r ≡ p) ⊎ OneOf r ps

  largest_from-OneOf :
      (best : TimingChange F) (rest : List (TimingChange F))
      → OneOf (largest_from best rest) (best ∷ rest)
  unfolding largest_from
  largest_from-OneOf best [] = inl refl
  largest_from-OneOf best (p ∷ rest) =
      pick (gt (abs p.delta_ms) (abs best.delta_ms)) (largest_from-OneOf p rest)
        (largest_from-OneOf best rest)
    where
      skip : {r : TimingChange F} → OneOf r (best ∷ rest) → (r ≡ best) ⊎ ((r ≡ p) ⊎ OneOf r rest)
      skip (inl e) = inl e
      skip (inr m) = inr (inr m)

      pick :
          (b : Bool)
          → OneOf (largest_from p rest) (p ∷ rest)
          → OneOf (largest_from best rest) (best ∷ rest)
          → OneOf (largest_from (if b then p else best) rest) (best ∷ p ∷ rest)
      pick true m n = inr m
      pick false m n = skip n

  module _ (laws : IsOrdered F) where
    open laws use {lt_asymm, not-lt_trans}

    NotMore-trans : (a b c : TimingChange F) → HasMoved b → NotMore a b → NotMore b c → NotMore a c
    NotMore-trans a b c n h k =
        not-lt_trans (abs c.delta_ms) (abs b.delta_ms) (abs a.delta_ms) n k h

    -- The larger of two phases, as the loop picks it.
    abbrev larger : TimingChange F → TimingChange F → TimingChange F
    larger best p = if gt (abs p.delta_ms) (abs best.delta_ms) then p else best

    NotMore-larger :
        (best p : TimingChange F)
        → HasMoved best
        → HasMoved p
        → HasMoved (larger best p) × NotMore (larger best p) best × NotMore (larger best p) p
    NotMore-larger best p nb np = ground (
      arith,
      lt_asymm (abs best.delta_ms) (abs p.delta_ms),
      lt_asymm (abs best.delta_ms) (abs best.delta_ms),
      lt_asymm (abs p.delta_ms) (abs p.delta_ms),
    )

    largest_from-NotMore :
        (best : TimingChange F) (rest : List (TimingChange F))
        → HasMoved best
        → All HasMoved rest
        → let r = largest_from best rest in HasMoved r × NotMore r best × All (NotMore r) rest
    unfolding largest_from
    largest_from-NotMore best [] nb ns =
        (nb, ground (arith, lt_asymm (abs best.delta_ms) (abs best.delta_ms)), tt)
    largest_from-NotMore best (p ∷ rest) nb (np, ns) =
        let (moved, over_best, over_p) = NotMore-larger best p nb np in
        let next = larger best p in
        let r = largest_from next rest in
        let (r_moved, over_next, over_rest) = largest_from-NotMore next rest moved ns in
        (
          r_moved,
          NotMore-trans r next best moved over_next over_best,
          (NotMore-trans r next p moved over_next over_p, over_rest),
        )

    largest_phase_lem :
        (b : TimingBreakdown F)
        → largest_phase b ≡ largest_from (change "dns" b.dns) (rest_phases b)
    unfolding largest_phase
    largest_phase_lem b = refl

    -- Where the five changes are numbers, the phase that `largestPhase` names is one of the five,
    -- with its own signed change, and none of the five moved by more in absolute value.
    pub largest_phase-NotMore :
        (b : TimingBreakdown F)
        → All HasMoved (phases b)
        → OneOf (largest_phase b) (phases b) × All (NotMore (largest_phase b)) (phases b)
    largest_phase-NotMore b (n, ns) =
        let (moved, over_dns, over_rest) =
          largest_from-NotMore (change "dns" b.dns) (rest_phases b) n ns in
        rw (largest_phase_lem b)
          (largest_from-OneOf (change "dns" b.dns) (rest_phases b), (over_dns, over_rest))
