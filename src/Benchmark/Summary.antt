-- ===== src/Benchmark/Summary.antt =====
-- scripts/benchmark.py, `summarize`.
pub mod Laws
use model_route.Base.{
  String, ℕ, ◌+◌, ◌-◌, Bool, true, false, Option, none, some, List, [], ◌∷◌, map, length, count_if,
  str_eq, str_lt, ◌==◌, if◌then◌else◌,
}
use mathlib.Core.Option
use model_route.Base.Dict.{Dict, lookup, insert}
use model_route.Base.Float.{Float}
use model_route.Base.Sorting.{sorted}
use model_route.Benchmark.{RequestOutcome}
use model_route.Benchmark.Percentile.{Builtins, percentile}
use model_route.Errors.{Exception}
use model_route.Runtime.{Outcome, ok, raise}

-- `outcome.get("cache_hit") is True`, and `is False`.
unfoldable pub is_bool : Bool → Option Bool → Bool
is_bool true (some true) = true
is_bool false (some false) = true
is_bool _ _ = false

-- The categories that are not empty.
unfoldable pub categories : {F : Type 0} → List (RequestOutcome F) → List String
categories [] = []
categories (o ∷ os) =
    let rest = categories os in
    elim o.error_category [ none ↦ rest | some c ↦ if str_eq c "" then rest else c ∷ rest ]

-- `Counter(…)`
unfoldable pub counter : List String → Dict ℕ → Dict ℕ
counter [] d = d
counter (c ∷ cs) d = counter cs (insert c (Option.get_or (lookup c d) 0 + 1) d)

-- `dict(sorted(error_categories.items()))`
unfoldable pub error_categories : {F : Type 0} → List (RequestOutcome F) → Dict ℕ
unfolding categories counter
error_categories outcomes = sorted (λ a b. str_lt a.0 b.0) (counter (categories outcomes) [])

-- The dict of `summarize`.
pub record Summary (F : Type 0) : Type 0 where
  pub scenario : String
  pub concurrency : ℕ
  pub total_requests : ℕ
  pub successful_requests : ℕ
  pub failed_requests : ℕ
  pub error_rate : F
  pub total_elapsed_seconds : F
  pub requests_per_second : F
  pub average_latency_ms : F
  pub p50_latency_ms : F
  pub p95_latency_ms : F
  pub unexpected_cache_hits : ℕ
  pub unexpected_cache_misses : ℕ
  pub error_counts : Dict ℕ

module _ {F : Type 0} ⦃fl : Float F⦄ (builtins : Builtins F) where
  -- `x / total if total else 0.0`
  unfoldable pub per_request : F → ℕ → F
  per_request x total = if total == 0 then fl.of_nat 0 else fl.div x (fl.of_nat total)

  unfoldable pub requests_rate : ℕ → F → F
  requests_rate total elapsed =
      if fl.eq elapsed (fl.of_nat 0) then fl.of_nat 0 else fl.div (fl.of_nat total) elapsed

  unfoldable pub latencies_of : List (RequestOutcome F) → List F
  latencies_of outcomes = map (λ o. o.latency_ms) outcomes

  -- The dict, with its percentiles.
  unfoldable pub summary_of : String → ℕ → List (RequestOutcome F) → F → F → F → Summary F
  unfolding error_categories count_if is_bool per_request requests_rate latencies_of
  summary_of scenario concurrency outcomes elapsed p50 p95 = record {
    scenario = scenario;
    concurrency = concurrency;
    total_requests = length outcomes;
    successful_requests = count_if (λ o. o.success) outcomes;
    failed_requests = length outcomes - count_if (λ o. o.success) outcomes;
    error_rate =
        per_request (fl.of_nat (length outcomes - count_if (λ o. o.success) outcomes))
          (length outcomes);
    total_elapsed_seconds = elapsed;
    requests_per_second = requests_rate (length outcomes) elapsed;
    average_latency_ms = per_request (builtins.sum (latencies_of outcomes)) (length outcomes);
    p50_latency_ms = p50;
    p95_latency_ms = p95;
    unexpected_cache_hits =
        if str_eq scenario "uncached" then count_if (λ o. is_bool true o.cache_hit) outcomes else 0;
    unexpected_cache_misses =
        if str_eq scenario "cached" then count_if (λ o. is_bool false o.cache_hit) outcomes else 0;
    error_counts = error_categories outcomes;
  }

  unfoldable pub with_percentiles :
      String → ℕ → List (RequestOutcome F) → F → Outcome F → Outcome F → Outcome (Summary F)
  with_percentiles scenario concurrency outcomes elapsed (raise e) p95 = raise e
  with_percentiles scenario concurrency outcomes elapsed (ok p50) (raise e) = raise e
  with_percentiles scenario concurrency outcomes elapsed (ok p50) (ok p95) =
      ok (summary_of scenario concurrency outcomes elapsed p50 p95)

  unfoldable pub summarize : String → ℕ → List (RequestOutcome F) → F → Outcome (Summary F)
  unfolding with_percentiles percentile latencies_of
  summarize scenario concurrency outcomes elapsed =
      with_percentiles scenario concurrency outcomes elapsed
        (percentile builtins (latencies_of outcomes) (fl.div (fl.of_nat 50) (fl.of_nat 100)))
        (percentile builtins (latencies_of outcomes) (fl.div (fl.of_nat 95) (fl.of_nat 100)))
