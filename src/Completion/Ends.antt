-- ===== src/Completion/Ends.antt =====
-- The ends of a completion (app/services/completion_service.py): the response, and the row that
-- `_record_success` or `_record_failure` writes.
use model_route.Base.{
  String, ℕ, suc, ◌≡◌, ◌≤◌, Bool, false, ◌&&◌, List, [], ◌∷◌, ◌++◌, arith, if◌then◌else◌, count_if,
  none, some,
}
use model_route.Base.Float.{Float}
use model_route.Completion.{CompletionService, record_success, record_failure}
use model_route.Completion.Trace.{calls}
use model_route.Decimal
use model_route.Metrics
use model_route.Metrics.Laws.{record_metric_lem}
use model_route.Metrics.{success_metric, accepts, record_metric}
use model_route.Providers.{Provider, ProviderResult}
use model_route.Runtime.{Host, World, Row, RequestMetric, ok}
use model_route.Schemas.{ChatCompletionRequest, ChatCompletionResponse, strategy_value}

module _ {F : Type 0} ⦃fl : Float F⦄ (host : Host F) (service : CompletionService F) where
  -- From the request number `since` on, the clock does not read earlier than the start.
  abbrev pub ClockRuns : F → ℕ → Type 0
  ClockRuns started_at since =
      (n : ℕ)
      → since ≤ n
      → fl.lt (fl.mul (fl.sub (host.perf_counter n) started_at) (fl.of_nat 1_000)) (fl.of_nat 0)
        ≡ false

  -- The rows after a record of a metric: one more, unless there is no metrics service or the
  -- database refuses it.
  abbrev pub Recorded : RequestMetric F → List (Row F) → List (Row F) → Type 0
  Recorded m before after =
      (n : ℕ) × (after ≡ (
        if service.has_metrics && accepts host n m before
        then before ++ record { id = n; timestamp = host.database_time n; metric = m } ∷ []
        else before))

  pub Recorded-from :
      (m : RequestMetric F) (before before' after : List (Row F))
      → before' ≡ before
      → Recorded m before' after
      → Recorded m before after
  Recorded-from m before before' after same r = rw (← same) r

  -- What recording leaves alone.
  abbrev pub Kept : World F → World F → Type 0
  Kept w w' =
      ((id : String) → calls id w' ≡ calls id w) × (w'.latency ≡ w.latency) × (w'.redis ≡ w.redis)

  module _ (request : ChatCompletionRequest F) (request_id : String) (started_at : F) where
    -- The response to a result, if its latency is read at the `n`-th request.
    abbrev pub response_of : ProviderResult → Bool → Bool → ℕ → ChatCompletionResponse F
    response_of result cache_hit fallback_used n = record {
      request_id = request_id;
      provider = result.provider;
      model = result.model;
      content = result.content;
      input_tokens = result.input_tokens;
      output_tokens = result.output_tokens;
      latency_ms = fl.mul (fl.sub (host.perf_counter n) started_at) (fl.of_nat 1_000);
      cache_hit = cache_hit;
      fallback_used = fallback_used;
    }

    -- The row of a failed request.
    abbrev pub failure_metric : String → ℕ → RequestMetric F
    failure_metric error_category n = record {
      request_id = request_id;
      provider = none;
      model = none;
      routing_strategy = strategy_value request.strategy;
      status = "error";
      latency_ms = fl.mul (fl.sub (host.perf_counter n) started_at) (fl.of_nat 1_000);
      input_tokens = 0;
      output_tokens = 0;
      estimated_cost_usd = Decimal.of_nat 0;
      cache_hit = false;
      fallback_used = false;
      error_category = some error_category;
    }

    pub record_success_lem :
        (r : ChatCompletionResponse F) (provider : Provider F) (w : World F)
        → let out = record_success host service r request provider.metadata w in
          (out.0 ≡ ok tt)
          × Recorded
              (success_metric host r (strategy_value request.strategy) provider.metadata)
              w.rows
              out.1.rows
          × Kept w out.1
    unfolding record_success Metrics.record_success calls count_if
    record_success_lem r provider w =
        let m = success_metric host r (strategy_value request.strategy) provider.metadata in
        let done = record_metric_lem host m w in
        (
          ground (arith, done),
          (w.tick, ground (arith, done)),
          ((λ id. ground (arith, done)), ground (arith, done), ground (arith, done)),
        )

    pub record_failure_lem :
        (error_category : String) (w : World F)
        → let out = record_failure host service request_id request started_at error_category w in
          (out.0 ≡ ok tt)
          × Recorded (failure_metric error_category w.tick) w.rows out.1.rows
          × Kept w out.1
    unfolding record_failure Metrics.record_failure calls count_if
    record_failure_lem error_category w =
        let m = failure_metric error_category w.tick in
        let done = record_metric_lem host m (record w { tick = suc w.tick }) in
        (
          ground (arith, done),
          (suc w.tick, ground (arith, done)),
          ((λ id. ground (arith, done)), ground (arith, done), ground (arith, done)),
        )
