-- ===== src/Examples/Metrics.antt =====
-- The reading of the metrics, on a table of one success and one failure.
use mathlib.Core.List.Perm
use model_route.Base.{
  ◌⊎◌, ℕ, ◌≡◌, refl, true, false, ◌||◌, inl, inr, none, some, List, [], ◌∷◌, map,
}
use model_route.Base.Float.{millionths}
use model_route.Base.Int.{pos}
use model_route.Decimal
use model_route.Examples.{test_host, empty_world}
use model_route.Metrics.{fits_columns, has_request_id}
use model_route.Metrics.Recent.{recent}
use model_route.Metrics.Recent.Laws.{AreNewest, shown, recent_lem}
use model_route.Metrics.Statements.Laws.{asked}
use model_route.Metrics.Summary.{MetricsSummary, summary}
use model_route.Metrics.Summary.Laws.{AddsUp, summary_lem}
use model_route.Metrics.Table.{IsTable}
use model_route.MetricsRoutes.{invalid_query, metrics_summary, recent_metrics, dashboard}
use model_route.MetricsRoutes.Laws.{
  InRange, OutOfRange, Replies, summary_at, recent_at, summary_fails, metrics_routes_lem,
}
use model_route.Runtime.{World, Row, ok}

abbrev good_row : Row ℕ
good_row = record {
  id = 1;
  timestamp = 5;
  metric = record {
    request_id = "one";
    provider = some "openai";
    model = some "m";
    routing_strategy = "fixed";
    status = "success";
    latency_ms = 9;
    input_tokens = 3;
    output_tokens = 4;
    estimated_cost_usd = Decimal.of_nat 0;
    cache_hit = true;
    fallback_used = false;
    error_category = none;
  };
}

abbrev failed_row : Row ℕ
failed_row = record {
  id = 2;
  timestamp = 6;
  metric = record {
    request_id = "two";
    provider = none;
    model = none;
    routing_strategy = "fixed";
    status = "error";
    latency_ms = 9;
    input_tokens = 0;
    output_tokens = 0;
    estimated_cost_usd = Decimal.of_nat 0;
    cache_hit = false;
    fallback_used = false;
    error_category = some "AllProvidersFailedError";
  };
}

abbrev metric_rows : List (Row ℕ)
metric_rows = good_row ∷ failed_row ∷ []

metric_rows-IsTable : IsTable metric_rows
unfolding fits_columns has_request_id
metric_rows-IsTable = (
  inl ("openai", refl, refl),
  refl,
  refl,
  (inr (refl, refl, refl, refl, refl, refl), refl, refl, tt),
)

abbrev metric_world : World ℕ
metric_world = record empty_world { rows = metric_rows }

summary_lem_example :
    (s : MetricsSummary ℕ) × (summary test_host metric_world ≡ (ok s, asked (asked metric_world)))
    × AddsUp 2 s
summary_lem_example = summary_lem test_host metric_world metric_rows-IsTable refl refl

recent_lem_example :
    (listed : List (Row ℕ)) × (recent test_host (pos 7) metric_world
      ≡ (ok (map (shown test_host) listed), asked metric_world))
    × AreNewest test_host (pos 7) metric_rows listed
recent_lem_example = recent_lem test_host (pos 7) metric_world Perm.rfl refl

metrics_routes_lem_example :
    Replies
      (summary_fails test_host 0)
      (summary_at test_host metric_world)
      metric_world
      (metrics_summary test_host metric_world)
    × Replies
        (test_host.database_fails 0)
        (recent_at test_host (pos 20) 0 metric_world)
        metric_world
        (recent_metrics test_host none metric_world)
    × ((InRange test_host (pos 0)
          × Replies
              (test_host.database_fails 0)
              (recent_at test_host (pos 0) 0 metric_world)
              metric_world
              (recent_metrics test_host (some (pos 0)) metric_world))
        ⊎ (OutOfRange test_host (pos 0)
            × (recent_metrics test_host (some (pos 0)) metric_world
                ≡ (ok invalid_query, metric_world))))
    × Replies
        (summary_fails test_host 0 || test_host.database_fails 2)
        (summary_at test_host metric_world, recent_at test_host (pos 20) 2 metric_world)
        metric_world
        (dashboard test_host metric_world)
metrics_routes_lem_example = metrics_routes_lem test_host (pos 0) metric_world
