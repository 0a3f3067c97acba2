-- ===== src/Benchmark/Percentile.antt =====
-- scripts/benchmark.py, `percentile`.
pub mod Laws
use model_route.Base.{
  ℕ, suc, zero, ◌-◌, ◌≤◌, ◌≡◌, Bool, true, false, ◌||◌, not, List, [], ◌∷◌, length, ◌==◌,
  if◌then◌else◌,
}
use model_route.Base.Float.{Float, ◌≼◌}
use model_route.Base.Sorting.{sorted}
use model_route.Errors.{Exception, value_error, other}
use model_route.Runtime.{Outcome, ok, raise}

-- Python's functions on floats: `math.floor` and `math.ceil` of a float that is not negative, and
-- `sum`.
pub record Builtins (F : Type 0) : Type 0 where
  pub floor : F → ℕ
  pub ceil : F → ℕ
  pub sum : List F → F

-- `xs[n]`
unfoldable pub item : {F : Type 0} → List F → ℕ → Outcome F
item [] n = raise (other "IndexError")
item (x ∷ xs) n = elim n [ zero ↦ ok x | suc m ↦ item xs m ]

module _ {F : Type 0} ⦃fl : Float F⦄ (builtins : Builtins F) where
  -- `ordered[lower] + (ordered[upper] - ordered[lower]) * fraction`
  unfoldable pub interpolated : F → Outcome F → Outcome F → Outcome F
  interpolated fraction (ok a) (ok b) = ok (fl.add a (fl.mul (fl.sub b a) fraction))
  interpolated fraction (raise e) _ = raise e
  interpolated fraction (ok a) (raise e) = raise e

  unfoldable pub at_position : List F → F → Outcome F
  unfolding interpolated item
  at_position ordered position =
      let lower = builtins.floor position in
      let upper = builtins.ceil position in
      if lower == upper
      then item ordered lower
      else interpolated (fl.sub position (fl.of_nat lower)) (item ordered lower)
          (item ordered upper)

  unfoldable pub percentile : List F → F → Outcome F
  unfolding at_position
  percentile [] quantile = ok (fl.of_nat 0)
  percentile (x ∷ xs) quantile =
      if fl.lt quantile (fl.of_nat 0) || fl.lt (fl.of_nat 1) quantile
      then raise (value_error "quantile must be between 0 and 1")
      else at_position (sorted fl.lt (x ∷ xs)) (fl.mul (fl.of_nat (length (x ∷ xs) - 1)) quantile)
