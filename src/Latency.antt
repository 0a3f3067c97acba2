-- ===== src/Latency.antt =====
-- app/services/latency.py: an exponentially weighted average of the latency of each provider.
pub mod History
use model_route.Base.{String, Option, none, some, []}
use model_route.Base.Dict.{Dict, lookup, insert}
use model_route.Base.Float.{Float}
use mathlib.Core.Option

pub record LatencyTracker (F : Type 0) : Type 0 where
  pub alpha : F
  pub initial_latency_ms : F
  pub ewma_ms : Dict F

module _ {F : Type 0} where
  -- `LatencyTracker(alpha=alpha, initial_latency_ms=initial)`
  unfoldable pub new_tracker : F → F → LatencyTracker F
  new_tracker alpha initial = record { alpha = alpha; initial_latency_ms = initial; ewma_ms = [] }

  unfoldable pub get : LatencyTracker F → String → F
  get t provider_identity = Option.get_or (lookup provider_identity t.ewma_ms) t.initial_latency_ms

module _ {F : Type 0} ⦃fl : Float F⦄ where
  -- The new average: the first sample is taken whole.
  unfoldable pub average : F → Option F → F → F
  average alpha none latency_ms = latency_ms
  average alpha (some previous) latency_ms =
      fl.add (fl.mul alpha latency_ms) (fl.mul (fl.sub (fl.of_nat 1) alpha) previous)

  unfoldable pub record_latency : LatencyTracker F → String → F → LatencyTracker F
  unfolding average
  record_latency t provider_identity latency_ms = record t {
    ewma_ms =
        insert provider_identity (average t.alpha (lookup provider_identity t.ewma_ms) latency_ms)
          t.ewma_ms;
  }
