-- ===== src/Metrics/Summary.antt =====
-- app/services/metrics.py, `summary` and `_provider_row`: the dicts that are made of the results of
-- the SQL statements.
pub mod Sums
pub mod Laws
use model_route.Base.{
  String, ℕ, ◌+◌, Bool, true, false, ◌&&◌, ◌||◌, not, Option, none, some, List, [], ◌∷◌, map,
  length, count_if, keep, ◌==◌, str_eq, if◌then◌else◌,
}
use mathlib.Core.Option
use model_route.Base.Float.{Float}
use model_route.Base.Grouping.{group, group_keys}
use model_route.Base.Sorting.{sorted}
use model_route.Decimal
use model_route.Errors.{Exception, gateway, metrics_unavailable}
use model_route.Metrics.Statements.{
  Aggregate, ProviderAggregate, aggregate_statement, provider_statement, execute,
}
use model_route.Runtime.{
  Host, World, Row, Decimal, Outcome, ok, raise, Action, ◌>>=◌, pure, throw, ask,
}

-- The dict of `_provider_row`.
pub record ProviderRow (F : Type 0) : Type 0 where
  pub provider : String
  pub model : Option String
  pub request_count : ℕ
  pub success_count : ℕ
  pub average_latency_ms : F
  pub input_tokens : ℕ
  pub output_tokens : ℕ
  pub estimated_cost_usd : F

-- The dict of `summary`.
pub record MetricsSummary (F : Type 0) : Type 0 where
  pub total_requests : ℕ
  pub successful_requests : ℕ
  pub success_rate : F
  pub cache_hits : ℕ
  pub cache_hit_rate : F
  pub fallback_count : ℕ
  pub input_tokens : ℕ
  pub output_tokens : ℕ
  pub estimated_cost_usd : F
  pub average_latency_ms : F
  pub p50_latency_ms : F
  pub p95_latency_ms : F
  pub providers : List (ProviderRow F)

module _ {F : Type 0} ⦃fl : Float F⦄ (host : Host F) where
  -- `float(x or 0)`
  unfoldable pub float_or_zero : Option F → F
  float_or_zero none = fl.of_nat 0
  float_or_zero (some x) = if fl.eq x (fl.of_nat 0) then fl.of_nat 0 else x

  unfoldable pub cost_or_zero : Option Decimal → F
  cost_or_zero none = fl.of_nat 0
  cost_or_zero (some d) = if d.coefficient == 0 then fl.of_nat 0 else host.float_of d

  -- `count / total if total else 0.0`
  unfoldable pub rate : ℕ → ℕ → F
  rate count total = if total == 0 then fl.of_nat 0 else fl.div (fl.of_nat count) (fl.of_nat total)

  -- `_provider_row`
  unfoldable pub provider_row : ProviderAggregate F → ProviderRow F
  provider_row row = record {
    provider = row.key.0;
    model = row.key.1;
    request_count = row.count_requests;
    success_count = row.count_successes;
    average_latency_ms = float_or_zero row.group_latency;
    input_tokens = Option.get_or row.group_input 0;
    output_tokens = Option.get_or row.group_output 0;
    estimated_cost_usd = cost_or_zero row.group_cost;
  }

  unfoldable pub summary_of : Aggregate F → List (ProviderAggregate F) → MetricsSummary F
  summary_of a providers = record {
    total_requests = a.count_total;
    successful_requests = a.count_success;
    success_rate = rate a.count_success a.count_total;
    cache_hits = a.count_cache_hit;
    cache_hit_rate = rate a.count_cache_hit a.count_total;
    fallback_count = a.count_fallback;
    input_tokens = Option.get_or a.sum_input 0;
    output_tokens = Option.get_or a.sum_output 0;
    estimated_cost_usd = cost_or_zero a.sum_cost;
    average_latency_ms = float_or_zero a.avg_latency;
    p50_latency_ms = float_or_zero a.p50_latency;
    p95_latency_ms = float_or_zero a.p95_latency;
    providers = map provider_row providers;
  }

  unfoldable pub summary : Action F (MetricsSummary F)
  unfolding execute
  summary = do
    a ← execute host (λ n. aggregate_statement host)
    providers ← execute host (λ n. provider_statement host)
    pure (summary_of a providers)
