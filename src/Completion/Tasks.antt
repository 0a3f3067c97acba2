-- ===== src/Completion/Tasks.antt =====
-- `complete` of app/services/completion_service.py as a coroutine, in pieces between which other
-- requests run: each wait ends a piece, and so does each look at the clock or at the averages.
pub mod Alone
pub mod Pieces
pub mod Takes
pub mod Costs
pub mod Budget
pub mod Origin
pub mod Cases
pub mod Sources
pub mod Steps
use model_route.Base.{
  String, ℕ, zero, suc, Bool, true, false, ◌&&◌, Option, none, some, List, [], ◌∷◌, ltb,
  if◌then◌else◌,
}
use model_route.Base.Float.{Float}
use model_route.Base.Unicode.{Unicode}
use model_route.Cache
use model_route.Completion.{
  CompletionService, Attempted, succeeded, gave_up, warning, response, record_success, elapsed_ms,
  sleep_before_retry, update_latency, start_time,
}
use model_route.Errors.{
  ProviderError, Exception, gateway, no_eligible_provider, all_providers_failed, retryable,
  type_name,
}
use model_route.Metrics
use model_route.Providers.{
  GenerationRequest, Provider, ProviderResult, Reply, generated, failed, crashed, identity,
}
use model_route.Router.{Routed, candidates, raised, route}
use model_route.Runtime.{Host, generate_called, logged, note, ask}
use model_route.Schemas.{ChatCompletionRequest, ChatCompletionResponse, strategy_value}
use model_route.Tasks.{Task, ◌>>=◌, ◌>>◌, pure, throw, lift, look}

module _ {F : Type 0} ⦃fl : Float F⦄ (host : Host F) (service : CompletionService F) where
  -- `_record_failure`
  unfoldable pub record_failure_task :
      String → ChatCompletionRequest F → F → String → Task F (Unit {0})
  record_failure_task request_id request started_at error_category =
      if service.has_metrics
      then (do
        latency_ms ← lift (elapsed_ms host service started_at)
        lift (
            Metrics.record_failure host request_id (strategy_value request.strategy) latency_ms
              error_category)
        pure tt)
      else pure tt

  -- The end of the `except` clause.
  unfoldable pub retry_or_stop_task :
      ProviderError → ℕ → Task F (Attempted F × String) → Task F (Attempted F × String)
  retry_or_stop_task exc attempt again =
      if retryable exc && ltb attempt service.max_retries
      then lift (sleep_before_retry host service) >> again
      else pure (gave_up, type_name exc)

  unfoldable pub after_reply_task :
      Provider F
      → Reply
      → F
      → ℕ
      → String
      → (String → Task F (Attempted F × String))
      → Task F (Attempted F × String)
  unfolding retry_or_stop_task
  after_reply_task provider (generated result) attempt_started_at attempt category again =
      pure (succeeded result attempt_started_at, category)
  after_reply_task provider (failed exc) attempt_started_at attempt category again =
      lift (note (logged (warning provider.metadata.name exc attempt)))
      >> retry_or_stop_task exc attempt (again (type_name exc))
  after_reply_task provider (crashed e) attempt_started_at attempt category again = throw e

  -- The loop over attempts, with `left` rounds to go.
  unfoldable pub attempts_task :
      Provider F → GenerationRequest F → ℕ → ℕ → String → Task F (Attempted F × String)
  unfolding after_reply_task
  attempts_task provider request zero attempt category = pure (gave_up, category)
  attempts_task provider request (suc left) attempt category = do
    attempt_started_at ← lift (ask host.perf_counter)
    reply ← lift (ask (λ n. provider.generate n request))
    lift (note (generate_called (identity provider.metadata)))
    after_reply_task provider reply attempt_started_at attempt category
        (attempts_task provider request left (suc attempt))

  module _ (u : Unicode) (request : ChatCompletionRequest F)
      (generation_request : GenerationRequest F) (request_id : String) (started_at : F) where
    unfoldable pub respond_task :
        Provider F → ProviderResult → Bool → Bool → Task F (ChatCompletionResponse F)
    respond_task provider result cache_hit fallback_used = do
      r ← lift (response host service result request_id started_at cache_hit fallback_used)
      lift (record_success host service r request provider.metadata)
      pure r

    -- After a result.
    unfoldable pub finish_task :
        Provider F → String → ProviderResult → F → ℕ → Task F (ChatCompletionResponse F)
    unfolding respond_task
    finish_task provider cache_key result attempt_started_at candidate_index = do
      provider_latency_ms ← lift (elapsed_ms host service attempt_started_at)
      lift (
          update_latency host service u request generation_request request_id started_at provider
            provider_latency_ms)
      lift (Cache.set host service.cache cache_key result)
      respond_task provider result false (ltb 0 candidate_index)

    unfoldable pub after_attempts_task :
        Provider F
        → String
        → ℕ
        → Attempted F × String
        → (String → Task F (ChatCompletionResponse F))
        → Task F (ChatCompletionResponse F)
    unfolding finish_task
    after_attempts_task provider cache_key index (succeeded result attempt_started_at, category)
          next =
        finish_task provider cache_key result attempt_started_at index
    after_attempts_task provider cache_key index (gave_up, category) next = next category

    -- One round of the loop over candidates; `next` is the rest of the loop.
    unfoldable pub try_candidate_task :
        Provider F
        → ℕ
        → String
        → (String → Task F (ChatCompletionResponse F))
        → Option ProviderResult
        → Task F (ChatCompletionResponse F)
    unfolding respond_task after_attempts_task attempts_task
    try_candidate_task provider index category next (some cached) =
        respond_task provider cached true (ltb 0 index)
    try_candidate_task provider index category next none = do
      ended ← attempts_task provider generation_request (suc service.max_retries) 0 category
      after_attempts_task provider (Cache.build_key host provider generation_request) index ended
          next

    unfoldable pub try_candidates_task :
        List (Provider F) → ℕ → String → Task F (ChatCompletionResponse F)
    unfolding try_candidate_task record_failure_task
    try_candidates_task [] index category = do
      record_failure_task request_id request started_at category
      throw (gateway (all_providers_failed "All eligible providers failed"))
    try_candidates_task (provider ∷ providers) index category = do
      cached ← lift (Cache.get host (Cache.build_key host provider generation_request))
      try_candidate_task provider index category (try_candidates_task providers (suc index)) cached

    unfoldable pub after_error_task : Exception → Task F (ChatCompletionResponse F)
    unfolding record_failure_task
    after_error_task (gateway (no_eligible_provider message)) = do
      record_failure_task request_id request started_at "NoEligibleProviderError"
      throw (gateway (no_eligible_provider message))
    after_error_task e = throw e

    unfoldable pub after_route_task : Routed (List (Provider F)) → Task F (ChatCompletionResponse F)
    unfolding after_error_task try_candidates_task
    after_route_task (raised e) = after_error_task e
    after_route_task (candidates ps) = try_candidates_task ps 0 "AllProvidersFailedError"

    -- The route is taken by the averages of that moment.
    unfoldable pub route_task : Task F (ChatCompletionResponse F)
    unfolding after_route_task
    route_task = look (λ w.
        after_route_task
          (route u service.router w.latency (strategy_value request.strategy) generation_request))

  unfoldable pub complete_task :
      Unicode → ChatCompletionRequest F → Option F → Task F (ChatCompletionResponse F)
  unfolding route_task
  complete_task u request started_at = do
    gateway_started_at ← lift (start_time host service started_at)
    request_id ← lift (ask host.uuid4)
    route_task u request
        (record {
          prompt = request.prompt;
          temperature = request.temperature;
          max_tokens = request.max_tokens;
        })
        request_id gateway_started_at
