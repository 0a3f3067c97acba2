-- ===== src/Examples/Routing.antt =====
-- Routes, averages and rows on small inputs.
use Prim.Native.String.{◌++◌ as ◌<>◌}
use model_route.Base.{String, ℕ, ◌≡◌, ◌≢◌, ◌⊎◌, ◌↔◌, refl, List, [], ◌∷◌}
use model_route.Base.Float.{millionths, millionths-IsOrdered}
use model_route.Base.Unicode.{ascii}
use model_route.Errors.{Exception, gateway, no_eligible_provider, value_error}
use model_route.Examples.{empty_world, test_router, slow_provider, good_provider, test_generation}
use model_route.Latency.{LatencyTracker, get}
use model_route.Latency.History.{tracked, expected, samples_of, get-tracked}
use model_route.Providers.{Provider}
use model_route.Base.Sorting.{sorted}
use model_route.Router.{default_lt, candidates, raised, ProviderRouter, eligible_of, route}
use model_route.Router.Keys.{Ranks}
use model_route.Router.Laws.{Preferred, less_by, cost_of, latency_of, route-Ranks, route_raises}

abbrev tracker : LatencyTracker ℕ
tracker = empty_world.latency

abbrev ranked : List (Provider ℕ)
ranked = slow_provider ∷ good_provider ∷ []

routed : route ascii test_router tracker "fixed" test_generation ≡ candidates ranked
unfolding route eligible_of sorted default_lt
routed = refl

abbrev strategy : String
strategy = "fixed"

route-Ranks_example :
    (eligible_of test_router ≢ [])
    × (((strategy ≡ "fixed")
          × Preferred ascii test_router tracker strategy test_generation
              (eligible_of test_router)
              ranked)
        ⊎ (((strategy ≡ "cheapest")
              × Ranks
                  (less_by ascii test_router tracker strategy test_generation
                    (cost_of ascii test_router tracker strategy test_generation))
                  (eligible_of test_router)
                  ranked)
            ⊎ ((strategy ≡ "fastest")
                × Ranks
                    (less_by ascii test_router tracker strategy test_generation
                      (latency_of ascii test_router tracker strategy test_generation))
                    (eligible_of test_router)
                    ranked)))
route-Ranks_example =
    route-Ranks ascii test_router tracker strategy test_generation millionths-IsOrdered ranked
      routed

abbrev no_providers : ProviderRouter ℕ
no_providers = record test_router { providers = [] }

abbrev nobody : Exception
nobody = gateway (no_eligible_provider "No eligible provider is configured")

route_raises_example :
    (route ascii no_providers tracker strategy test_generation ≡ raised nobody) ↔ (
      ((eligible_of no_providers ≡ []) × (nobody ≡ nobody))
      ⊎ ((eligible_of no_providers ≢ [])
          × (strategy ≢ "fixed")
          × (strategy ≢ "cheapest")
          × (strategy ≢ "fastest")
          × (nobody ≡ value_error ("Unsupported routing strategy: " <> strategy))))
route_raises_example = route_raises ascii no_providers tracker strategy test_generation nobody

-- The samples of two providers, the newest first.
abbrev history : List (String × ℕ)
history = ("a:m", 20) ∷ ("b:m", 5) ∷ ("a:m", 10) ∷ []

get-tracked_example :
    get (tracked 300_000 7 history) "a:m" ≡ expected 300_000 7 (samples_of 300_000 7 "a:m" history)
get-tracked_example = get-tracked 300_000 7 "a:m" history
