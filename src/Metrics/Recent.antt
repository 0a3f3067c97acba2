-- ===== src/Metrics/Recent.antt =====
-- app/services/metrics.py, `recent`.
pub mod Laws
use model_route.Base.{String, ℕ, Bool, Option, List, map, take, min, max, ltb}
use model_route.Base.Int.{ℤ, pos, negsuc}
use model_route.Base.Sorting.{sorted}
use model_route.Metrics.Statements.{execute}
use model_route.Runtime.{Host, Row, Action, ◌>>=◌, pure}

-- The dict of a row.
pub record RecentMetric (F : Type 0) : Type 0 where
  pub request_id : String
  pub timestamp : ℕ
  pub provider : Option String
  pub model : Option String
  pub routing_strategy : String
  pub status : String
  pub latency_ms : F
  pub input_tokens : ℕ
  pub output_tokens : ℕ
  pub estimated_cost_usd : F
  pub cache_hit : Bool
  pub fallback_used : Bool
  pub error_category : Option String

-- `min(max(limit, 1), 100)`
unfoldable pub row_limit : ℤ → ℕ
row_limit (pos n) = min (max n 1) 100
row_limit (negsuc n) = 1

-- `order_by(timestamp.desc())`
unfoldable pub newer : {F : Type 0} → Row F → Row F → Bool
newer a b = ltb b.timestamp a.timestamp

module _ {F : Type 0} (host : Host F) where
  -- The order of rows with one timestamp is that in which the database reads them.
  unfoldable pub recent_statement : ℤ → ℕ → List (Row F) → List (Row F)
  unfolding take newer row_limit
  recent_statement limit n rows = take (row_limit limit) (sorted newer (host.scan n rows))

  unfoldable pub recent_metric : Row F → RecentMetric F
  recent_metric row = record {
    request_id = row.metric.request_id;
    timestamp = row.timestamp;
    provider = row.metric.provider;
    model = row.metric.model;
    routing_strategy = row.metric.routing_strategy;
    status = row.metric.status;
    latency_ms = row.metric.latency_ms;
    input_tokens = row.metric.input_tokens;
    output_tokens = row.metric.output_tokens;
    estimated_cost_usd = host.float_of row.metric.estimated_cost_usd;
    cache_hit = row.metric.cache_hit;
    fallback_used = row.metric.fallback_used;
    error_category = row.metric.error_category;
  }

  unfoldable pub recent : ℤ → Action F (List (RecentMetric F))
  recent limit = do
    metrics ← execute host (recent_statement limit)
    pure (map recent_metric metrics)
