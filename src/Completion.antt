-- ===== src/Completion.antt =====
-- app/services/completion_service.py: routing, cache lookup, bounded retries, fallback to the next
-- provider, and one record of how the request ended.
pub mod Trace
pub mod Attempts
pub mod Ends
pub mod Serve
pub mod Candidates
pub mod Walk
pub mod Complete
pub mod Rows
pub mod Repeat
pub mod Store
pub mod Tasks
use model_route.Base.{
  String, ℕ, zero, suc, ◌+◌, Bool, true, false, not, ◌&&◌, Option, none, some, List, [], ◌∷◌, ltb,
  if◌then◌else◌,
}
use model_route.Base.Float.{Float}
use model_route.Base.Unicode.{Unicode}
use model_route.Cache
use model_route.Cache.{ResponseCache}
use model_route.Errors.{
  ProviderError, timeout, rate_limit, Exception, gateway, no_eligible_provider,
  all_providers_failed, validation_error, GatewayError, retryable, type_name,
}
use model_route.Latency.{record_latency}
use model_route.Metrics
use model_route.Providers.{
  GenerationRequest, Provider, ProviderMetadata, ProviderResult, Reply, generated, failed, crashed,
  identity,
}
use model_route.Router.{Routed, candidates, raised, ProviderRouter, route}
use model_route.Runtime.{
  Host, World, Event, generate_called, slept, logged, LogLine, provider_failed,
  provider_failed_from, Outcome, ok, raise, Action, ◌>>=◌, ◌>>◌, pure, throw, note, ask,
}
use model_route.Schemas.{ChatCompletionRequest, ChatCompletionResponse, strategy_value}

-- `CompletionService`; `has_metrics` says that `metrics` is not `None`.
pub record CompletionService (F : Type 0) : Type 0 where
  pub router : ProviderRouter F
  pub cache : ResponseCache
  pub max_retries : ℕ
  pub retry_delay_seconds : F
  pub has_metrics : Bool

-- How the attempts at one provider end: a result and the time at which its attempt began, or not.
pub data Attempted (F : Type 0) : Type 0 where
  succeeded : ProviderResult → F → Attempted F
  gave_up : Attempted F

-- The three formats of the warning.
unfoldable pub warning : String → ProviderError → ℕ → LogLine
warning name (timeout p m (some source)) attempt =
    provider_failed_from name (type_name (timeout p m (some source))) source
      (retryable (timeout p m (some source))) (attempt + 1)
warning name (rate_limit p m (some source)) attempt =
    provider_failed_from name (type_name (rate_limit p m (some source))) source
      (retryable (rate_limit p m (some source))) (attempt + 1)
warning name exc attempt = provider_failed name (type_name exc) (retryable exc) (attempt + 1)

module _ {F : Type 0} ⦃fl : Float F⦄ (host : Host F) (service : CompletionService F) where
  -- `(perf_counter() - started_at) * 1_000`
  pub elapsed_ms : F → Action F F
  elapsed_ms started_at = do
    now ← ask host.perf_counter
    pure (fl.mul (fl.sub now started_at) (fl.of_nat 1_000))

  -- The response model refuses a negative latency.
  validated : ChatCompletionResponse F → Action F (ChatCompletionResponse F)
  validated response =
      if fl.lt response.latency_ms (fl.of_nat 0) then throw validation_error else pure response

  -- `_response`
  unfoldable pub response :
      ProviderResult → String → F → Bool → Bool → Action F (ChatCompletionResponse F)
  unfolding elapsed_ms validated
  response result request_id started_at cache_hit fallback_used = do
    latency_ms ← elapsed_ms started_at
    validated (record {
      request_id = request_id;
      provider = result.provider;
      model = result.model;
      content = result.content;
      input_tokens = result.input_tokens;
      output_tokens = result.output_tokens;
      latency_ms = latency_ms;
      cache_hit = cache_hit;
      fallback_used = fallback_used;
    })

  -- `_record_success`
  unfoldable pub record_success :
      ChatCompletionResponse F → ChatCompletionRequest F → ProviderMetadata F → Action F (Unit {0})
  record_success response request provider_metadata w =
      if service.has_metrics
      then (Metrics.record_success host response (strategy_value request.strategy) provider_metadata
            >> pure tt)
          w
      else pure tt w

  -- `_record_failure`
  unfoldable pub record_failure :
      String → ChatCompletionRequest F → F → String → Action F (Unit {0})
  unfolding elapsed_ms
  record_failure request_id request started_at error_category w =
      if service.has_metrics
      then (do
        latency_ms ← elapsed_ms started_at
        Metrics.record_failure host request_id (strategy_value request.strategy) latency_ms
            error_category
        pure tt)
          w
      else pure tt w

  -- `if self.retry_delay_seconds: await self.sleep(self.retry_delay_seconds)`
  pub sleep_before_retry : Action F (Unit {0})
  sleep_before_retry =
      if fl.eq service.retry_delay_seconds (fl.of_nat 0)
      then pure tt
      else note (slept service.retry_delay_seconds)

  -- The end of the `except` clause: `continue` or `break`.
  retry_or_stop :
      ProviderError → ℕ → Action F (Attempted F × String) → Action F (Attempted F × String)
  unfolding sleep_before_retry
  retry_or_stop exc attempt again =
      if retryable exc && ltb attempt service.max_retries
      then sleep_before_retry >> again
      else pure (gave_up, type_name exc)

  -- One round of the loop over attempts, given the reply; `again` is the rest of the loop.
  after_reply :
      Provider F
      → Reply
      → F
      → ℕ
      → String
      → (String → Action F (Attempted F × String))
      → Action F (Attempted F × String)
  unfolding retry_or_stop
  after_reply provider (generated result) attempt_started_at attempt category again =
      pure (succeeded result attempt_started_at, category)
  after_reply provider (failed exc) attempt_started_at attempt category again =
      note (logged (warning provider.metadata.name exc attempt))
      >> retry_or_stop exc attempt (again (type_name exc))
  after_reply provider (crashed e) attempt_started_at attempt category again = throw e

  -- `for attempt in range(self.max_retries + 1)`, with `left` rounds to go. It returns the last
  -- error category too.
  unfoldable pub attempts :
      Provider F → GenerationRequest F → ℕ → ℕ → String → Action F (Attempted F × String)
  unfolding after_reply
  attempts provider request zero attempt category = pure (gave_up, category)
  attempts provider request (suc left) attempt category = do
    attempt_started_at ← ask host.perf_counter
    reply ← ask (λ n. provider.generate n request)
    note (generate_called (identity provider.metadata))
    after_reply provider reply attempt_started_at attempt category
        (attempts provider request left (suc attempt))

  module _ (u : Unicode) (request : ChatCompletionRequest F)
      (generation_request : GenerationRequest F) (request_id : String) (started_at : F) where
    unfoldable pub update_latency : Provider F → F → Action F (Unit {0})
    update_latency provider provider_latency_ms w = (
      ok tt,
      record w {
        latency = record_latency w.latency (identity provider.metadata) provider_latency_ms;
      },
    )

    -- `_response`, `_record_success` and `return`.
    unfoldable pub respond :
        Provider F → ProviderResult → Bool → Bool → Action F (ChatCompletionResponse F)
    respond provider result cache_hit fallback_used = do
      r ← response result request_id started_at cache_hit fallback_used
      record_success r request provider.metadata
      pure r

    -- After a result: the latency, the cache, and the response.
    unfoldable pub finish :
        Provider F → String → ProviderResult → F → ℕ → Action F (ChatCompletionResponse F)
    unfolding update_latency elapsed_ms respond
    finish provider cache_key result attempt_started_at candidate_index = do
      provider_latency_ms ← elapsed_ms attempt_started_at
      update_latency provider provider_latency_ms
      Cache.set host service.cache cache_key result
      respond provider result false (ltb 0 candidate_index)

    unfoldable pub after_attempts :
        Provider F
        → String
        → ℕ
        → Attempted F × String
        → (String → Action F (ChatCompletionResponse F))
        → Action F (ChatCompletionResponse F)
    unfolding finish
    after_attempts provider cache_key index (succeeded result attempt_started_at, category) next =
        finish provider cache_key result attempt_started_at index
    after_attempts provider cache_key index (gave_up, category) next = next category

    -- One round of the loop over candidates; `next` is the rest of the loop.
    unfoldable pub try_candidate :
        Provider F
        → ℕ
        → String
        → (String → Action F (ChatCompletionResponse F))
        → Option ProviderResult
        → Action F (ChatCompletionResponse F)
    unfolding respond after_attempts
    try_candidate provider index category next (some cached) =
        respond provider cached true (ltb 0 index)
    try_candidate provider index category next none = do
      ended ← attempts provider generation_request (suc service.max_retries) 0 category
      after_attempts provider (Cache.build_key host provider generation_request) index ended next

    -- `for candidate_index, provider in enumerate(candidates)`, and what follows the loop.
    unfoldable pub try_candidates :
        List (Provider F) → ℕ → String → Action F (ChatCompletionResponse F)
    unfolding try_candidate
    try_candidates [] index category = do
      record_failure request_id request started_at category
      throw (gateway (all_providers_failed "All eligible providers failed"))
    try_candidates (provider ∷ providers) index category = do
      cached ← Cache.get host (Cache.build_key host provider generation_request)
      try_candidate provider index category (try_candidates providers (suc index)) cached

    -- `except NoEligibleProviderError`; any other exception of `route` passes.
    unfoldable pub after_error : Exception → Action F (ChatCompletionResponse F)
    after_error (gateway (no_eligible_provider message)) = do
      record_failure request_id request started_at "NoEligibleProviderError"
      throw (gateway (no_eligible_provider message))
    after_error e = throw e

    unfoldable pub after_route : Routed (List (Provider F)) → Action F (ChatCompletionResponse F)
    unfolding after_error
    after_route (raised e) = after_error e
    after_route (candidates ps) = try_candidates ps 0 "AllProvidersFailedError"

    unfoldable pub route_and_try : Action F (ChatCompletionResponse F)
    unfolding after_route
    route_and_try w =
        after_route
          (route u service.router w.latency (strategy_value request.strategy) generation_request) w

  -- `started_at if started_at is not None else perf_counter()`
  unfoldable pub start_time : Option F → Action F F
  start_time none = ask host.perf_counter
  start_time (some t) = pure t

  unfoldable pub complete :
      Unicode → ChatCompletionRequest F → Option F → Action F (ChatCompletionResponse F)
  unfolding start_time route_and_try
  complete u request started_at = do
    gateway_started_at ← start_time started_at
    request_id ← ask host.uuid4
    route_and_try u request
        (record {
          prompt = request.prompt;
          temperature = request.temperature;
          max_tokens = request.max_tokens;
        })
        request_id gateway_started_at
