-- ===== src/Metrics.antt =====
-- app/services/metrics.py, the writing side: one row for each completion. Columns are those of
-- app/db/models.py.
pub mod Laws
pub mod Table
pub mod Statements
pub mod Summary
pub mod Recent
use Prim.Native.String.{count}
use model_route.Base.{
  String, ℕ, Bool, true, false, not, ◌&&◌, ◌||◌, Option, none, some, List, [], ◌∷◌, ◌++◌, leb,
  str_eq, if◌then◌else◌,
}
use model_route.Decimal
use model_route.Providers.{ProviderMetadata}
use model_route.Runtime.{
  Host, World, Row, RequestMetric, Decimal, Event, logged, LogLine, metric_insert_failed, Outcome,
  ok, Action, ◌>>=◌, ◌>>◌, pure, note, ask,
}
use model_route.Schemas.{ChatCompletionResponse}

fits : ℕ → Option String → Bool
fits n none = true
fits n (some s) = leb (count s) n

-- The lengths of the text columns, and the range of an `Integer`.
unfoldable pub fits_columns : {F : Type 0} → RequestMetric F → Bool
unfolding fits
fits_columns m =
    fits 50 m.provider
    && (fits 100 m.model
        && (fits 20 (some m.routing_strategy)
            && (fits 20 (some m.status)
                && (fits 100 m.error_category
                    && (leb m.input_tokens 2_147_483_647 && leb m.output_tokens 2_147_483_647)))))

-- `request_id` is unique.
unfoldable pub has_request_id : {F : Type 0} → String → List (Row F) → Bool
has_request_id id [] = false
has_request_id id (row ∷ rows) = str_eq id row.metric.request_id || has_request_id id rows

module _ {F : Type 0} (host : Host F) where
  unfoldable pub estimate_cost : ℕ → ℕ → ProviderMetadata F → Bool → Decimal
  estimate_cost input_tokens output_tokens provider true = Decimal.of_nat 0
  estimate_cost input_tokens output_tokens provider false = Decimal.per_million (
      Decimal.add
        (Decimal.mul (Decimal.of_nat input_tokens)
          (host.decimal_of provider.input_cost_per_million))
        (Decimal.mul (Decimal.of_nat output_tokens)
          (host.decimal_of provider.output_cost_per_million)))

  -- Whether the database takes the row at its `n`-th request.
  unfoldable pub accepts : ℕ → RequestMetric F → List (Row F) → Bool
  accepts n metric rows =
      not (host.database_fails n)
      && (fits_columns metric && not (has_request_id metric.request_id rows))

  insert_row : RequestMetric F → ℕ → Action F Bool
  insert_row metric n w =
      if accepts n metric w.rows
      then (
        ok true,
        record w {
          rows =
              w.rows ++ record { id = n; timestamp = host.database_time n; metric = metric } ∷ [];
        },
      )
      else (ok false, record w { events = logged metric_insert_failed ∷ w.events })

  -- `_record`
  unfoldable pub record_metric : RequestMetric F → Action F Bool
  unfolding insert_row
  record_metric metric = do n ← ask (λ n. n); insert_row metric n

  -- The row of a success.
  unfoldable pub success_metric :
      ChatCompletionResponse F → String → ProviderMetadata F → RequestMetric F
  success_metric response routing_strategy provider = record {
    request_id = response.request_id;
    provider = some response.provider;
    model = some response.model;
    routing_strategy = routing_strategy;
    status = "success";
    latency_ms = response.latency_ms;
    input_tokens = response.input_tokens;
    output_tokens = response.output_tokens;
    estimated_cost_usd =
        estimate_cost response.input_tokens response.output_tokens provider response.cache_hit;
    cache_hit = response.cache_hit;
    fallback_used = response.fallback_used;
    error_category = none;
  }

  unfoldable pub record_success :
      ChatCompletionResponse F → String → ProviderMetadata F → Action F Bool
  record_success response routing_strategy provider =
      record_metric (success_metric response routing_strategy provider)

  unfoldable pub record_failure : String → String → F → String → Action F Bool
  record_failure request_id routing_strategy latency_ms error_category = record_metric (record {
    request_id = request_id;
    provider = none;
    model = none;
    routing_strategy = routing_strategy;
    status = "error";
    latency_ms = latency_ms;
    input_tokens = 0;
    output_tokens = 0;
    estimated_cost_usd = Decimal.of_nat 0;
    cache_hit = false;
    fallback_used = false;
    error_category = some error_category;
  })
