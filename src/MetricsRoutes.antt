-- ===== src/MetricsRoutes.antt =====
-- app/api/metrics_routes.py: the routes that read the metrics.
pub mod Laws
use model_route.Base.{
  String, ℕ, Bool, true, false, ◌&&◌, Option, none, some, List, leb, if◌then◌else◌,
}
use model_route.Base.Float.{Float}
use model_route.Base.Int.{ℤ, pos, negsuc}
use model_route.Errors.{Exception, gateway, metrics_unavailable}
use model_route.Metrics.Recent.{RecentMetric, recent}
use model_route.Metrics.Summary.{MetricsSummary, summary}
use model_route.Runtime.{Host, World, Outcome, ok, raise, Action, ◌>>=◌, pure, throw}

-- The answer: what is shown, an `HTTPException`, or a query that FastAPI refuses.
pub data MetricsReply (A : Type 0) : Type 0 where
  content : A → MetricsReply A
  http_exception : ℕ → String → MetricsReply A
  invalid_query : MetricsReply A

-- `unavailable`
unfoldable pub unavailable : {A : Type 0} → MetricsReply A
unavailable = http_exception 503 "Metrics database unavailable"

-- `Query(ge=1, le=100)`
unfoldable pub in_query_range : ℤ → Bool
in_query_range (pos n) = leb 1 n && leb n 100
in_query_range (negsuc n) = false

module _ {F : Type 0} where
  -- The `try` statement that the routes share.
  unfoldable pub after_metrics : {A : Type 0} → Outcome A → Action F (MetricsReply A)
  unfolding unavailable
  after_metrics (ok a) = pure (content a)
  after_metrics (raise (gateway (metrics_unavailable _))) = pure unavailable
  after_metrics (raise e) = throw e

  unfoldable pub try_metrics : {A : Type 0} → Action F A → Action F (MetricsReply A)
  unfolding after_metrics
  try_metrics m w = let (r, w') = m w in after_metrics r w'

module _ {F : Type 0} ⦃fl : Float F⦄ (host : Host F) where
  unfoldable pub metrics_summary : Action F (MetricsReply (MetricsSummary F))
  unfolding try_metrics
  metrics_summary = try_metrics (summary host)

  recent_limited : ℤ → Action F (MetricsReply (List (RecentMetric F)))
  unfolding try_metrics in_query_range
  recent_limited limit w =
      if in_query_range limit then try_metrics (recent host limit) w else (ok invalid_query, w)

  unfoldable pub recent_metrics : Option ℤ → Action F (MetricsReply (List (RecentMetric F)))
  unfolding recent_limited
  recent_metrics none = recent_limited (pos 20)
  recent_metrics (some limit) = recent_limited limit

  -- The context of the page.
  unfoldable pub dashboard_context : Action F (MetricsSummary F × List (RecentMetric F))
  dashboard_context = do s ← summary host; r ← recent host (pos 20); pure (s, r)

  unfoldable pub dashboard : Action F (MetricsReply (MetricsSummary F × List (RecentMetric F)))
  unfolding try_metrics dashboard_context
  dashboard = try_metrics dashboard_context
