-- ===== src/Completion/Tasks/Alone.antt =====
-- A completion that nothing interrupts (app/services/completion_service.py): the coroutine does
-- what `complete` of Completion does.
use model_route.Base.{
  String, ℕ, zero, suc, inl, inr, refl, Bool, true, false, ◌&&◌, Option, none, some, List, [], ◌∷◌,
  ltb, Bool-cases,
}
use model_route.Base.Float.{Float}
use model_route.Base.Unicode.{Unicode}
use model_route.Cache
use model_route.Completion.{
  CompletionService, complete, route_and_try, after_route, after_error, start_time, try_candidates,
  try_candidate, after_attempts, attempts, after_reply, retry_or_stop, finish, respond, response,
  update_latency, elapsed_ms, record_success, record_failure, sleep_before_retry, warning,
  Attempted, succeeded, gave_up,
}
use model_route.Completion.Tasks.{
  complete_task, route_task, after_route_task, after_error_task, try_candidates_task,
  try_candidate_task, after_attempts_task, attempts_task, after_reply_task, retry_or_stop_task,
  finish_task, respond_task, record_failure_task,
}
use model_route.Errors.{
  ProviderError, Exception, gateway, no_eligible_provider, all_providers_failed,
  rate_limiter_unavailable, metrics_unavailable, provider_error, value_error, validation_error,
  other, retryable, type_name,
}
use model_route.Metrics
use model_route.Providers.{
  GenerationRequest, Provider, ProviderResult, Reply, generated, failed, crashed,
}
use model_route.Router.{Routed, candidates, raised, route}
use model_route.Runtime.{Host, Action, ◌>>=◌, ◌>>◌, pure, note, logged}
use model_route.Schemas.{ChatCompletionRequest, ChatCompletionResponse, strategy_value}
use model_route.Tasks
use model_route.Tasks.Laws.{Runs, bind-Runs}

module _ {F : Type 0} where
  -- An action in one piece, and what follows it.
  lift-Runs :
      {A B : Type 0} (m : Action F A) (f : A → Tasks.Task F B) (g : A → Action F B)
      → ((a : A) → Runs (f a) (g a))
      → Runs (Tasks.◌>>=◌ (Tasks.lift m) f) (m >>= g)
  lift-Runs m f g next = bind-Runs (Tasks.lift m) m f g (λ w. refl) next

module _ {F : Type 0} ⦃fl : Float F⦄ (host : Host F) (service : CompletionService F) where
  record_failure-Runs :
      (id : String) (request : ChatCompletionRequest F) (t : F) (category : String)
      → Runs
          (record_failure_task host service id request t category)
          (record_failure host service id request t category)
  unfolding record_failure_task record_failure
  record_failure-Runs id request t category w = elim (Bool-cases service.has_metrics) [
    | inl on ↦ rw on (
        lift-Runs
          (Metrics.record_failure host id (strategy_value request.strategy)
            (fl.mul (fl.sub (host.perf_counter w.tick) t) (fl.of_nat 1_000)) category)
          (λ _. Tasks.pure tt) (λ _. pure tt) (λ _ v. refl) _)
    | inr off ↦ rw off refl
  ]

  retry_or_stop-Runs :
      (exc : ProviderError) (attempt : ℕ) (again : Tasks.Task F (Attempted F × String))
      (again' : Action F (Attempted F × String))
      → Runs again again'
      → Runs
          (retry_or_stop_task host service exc attempt again)
          (retry_or_stop host service exc attempt again')
  unfolding retry_or_stop_task retry_or_stop
  retry_or_stop-Runs exc attempt again again' same w =
      elim (Bool-cases (retryable exc && ltb attempt service.max_retries)) [
        | inl retried ↦
            rw retried
              (lift-Runs (sleep_before_retry host service) (λ _. again) (λ _. again') (λ _. same) w)
        | inr stopped ↦ rw stopped refl
      ]

  after_reply-Runs :
      (p : Provider F) (reply : Reply) (t : F) (attempt : ℕ) (category : String)
      (again : String → Tasks.Task F (Attempted F × String))
      (again' : String → Action F (Attempted F × String))
      → ((c : String) → Runs (again c) (again' c))
      → Runs
          (after_reply_task host service p reply t attempt category again)
          (after_reply host service p reply t attempt category again')
  unfolding after_reply_task after_reply
  after_reply-Runs p (generated r) t attempt category again again' same w = refl
  after_reply-Runs p (failed exc) t attempt category again again' same w =
      lift-Runs (note (logged (warning p.metadata.name exc attempt)))
        (λ _. retry_or_stop_task host service exc attempt (again (type_name exc)))
        (λ _. retry_or_stop host service exc attempt (again' (type_name exc)))
        (λ _. retry_or_stop-Runs exc attempt _ _ (same (type_name exc))) w
  after_reply-Runs p (crashed e) t attempt category again again' same w = refl

  attempts-Runs :
      (p : Provider F) (g : GenerationRequest F) (left attempt : ℕ) (category : String)
      → Runs
          (attempts_task host service p g left attempt category)
          (attempts host service p g left attempt category)
  unfolding attempts_task attempts
  attempts-Runs p g zero attempt category w = refl
  attempts-Runs p g (suc left) attempt category w =
      after_reply-Runs p (p.generate (suc w.tick) g) (host.perf_counter w.tick) attempt category _ _
        (attempts-Runs p g left (suc attempt)) _

  module _ (u : Unicode) (request : ChatCompletionRequest F) (g : GenerationRequest F) (id : String)
      (t : F) where
    respond-Runs :
        (p : Provider F) (r : ProviderResult) (hit fallback : Bool)
        → Runs
            (respond_task host service u request g id t p r hit fallback)
            (respond host service u request g id t p r hit fallback)
    unfolding respond_task respond
    respond-Runs p r hit fallback =
        lift-Runs (response host service r id t hit fallback) _
          (λ x. record_success host service x request p.metadata >> pure x)
          (λ x.
            lift-Runs (record_success host service x request p.metadata) (λ _. Tasks.pure x)
              (λ _. pure x) (λ _ w. refl))

    finish-Runs :
        (p : Provider F) (key : String) (r : ProviderResult) (began : F) (index : ℕ)
        → Runs
            (finish_task host service u request g id t p key r began index)
            (finish host service u request g id t p key r began index)
    unfolding finish_task finish elapsed_ms update_latency
    finish-Runs p key r began index w =
        lift-Runs (Cache.set host service.cache key r)
          (λ _. respond_task host service u request g id t p r false (ltb 0 index))
          (λ _. respond host service u request g id t p r false (ltb 0 index))
          (λ _. respond-Runs p r false (ltb 0 index)) _

    after_attempts-Runs :
        (p : Provider F) (key : String) (index : ℕ) (ended : Attempted F × String)
        (next : String → Tasks.Task F (ChatCompletionResponse F))
        (next' : String → Action F (ChatCompletionResponse F))
        → ((c : String) → Runs (next c) (next' c))
        → Runs
            (after_attempts_task host service u request g id t p key index ended next)
            (after_attempts host service u request g id t p key index ended next')
    unfolding after_attempts_task after_attempts
    after_attempts-Runs p key index (succeeded r began, c) next next' same =
        finish-Runs p key r began index
    after_attempts-Runs p key index (gave_up, c) next next' same = same c

    try_candidate-Runs :
        (p : Provider F) (index : ℕ) (category : String)
        (next : String → Tasks.Task F (ChatCompletionResponse F))
        (next' : String → Action F (ChatCompletionResponse F))
        → ((c : String) → Runs (next c) (next' c))
        → (found : Option ProviderResult)
        → Runs
            (try_candidate_task host service u request g id t p index category next found)
            (try_candidate host service u request g id t p index category next' found)
    unfolding try_candidate_task try_candidate
    try_candidate-Runs p index category next next' same (some r) =
        respond-Runs p r true (ltb 0 index)
    try_candidate-Runs p index category next next' same none =
        bind-Runs (attempts_task host service p g (suc service.max_retries) 0 category)
          (attempts host service p g (suc service.max_retries) 0 category) _ _
          (attempts-Runs p g (suc service.max_retries) 0 category)
          (λ ended. after_attempts-Runs p _ index ended next next' same)

    try_candidates-Runs :
        (ps : List (Provider F)) (index : ℕ) (category : String)
        → Runs
            (try_candidates_task host service u request g id t ps index category)
            (try_candidates host service u request g id t ps index category)
    unfolding try_candidates_task try_candidates
    try_candidates-Runs [] index category =
        bind-Runs {B = ChatCompletionResponse F}
          (record_failure_task host service id request t category)
          (record_failure host service id request t category) _ _
          (record_failure-Runs id request t category) (λ _ w. refl)
    try_candidates-Runs (p ∷ ps) index category =
        lift-Runs (Cache.get host (Cache.build_key host p g))
          (try_candidate_task host service u request g id t p index category
            (try_candidates_task host service u request g id t ps (suc index)))
          (try_candidate host service u request g id t p index category
            (try_candidates host service u request g id t ps (suc index)))
          (try_candidate-Runs p index category _ _ (try_candidates-Runs ps (suc index)))

    after_error-Runs :
        (e : Exception)
        → Runs
            (after_error_task host service u request g id t e)
            (after_error host service u request g id t e)
    unfolding after_error_task after_error
    after_error-Runs (gateway (no_eligible_provider message)) w =
        bind-Runs {B = ChatCompletionResponse F}
          (record_failure_task host service id request t "NoEligibleProviderError")
          (record_failure host service id request t "NoEligibleProviderError") _ _
          (record_failure-Runs id request t "NoEligibleProviderError") (λ _ v. refl) w
    after_error-Runs (gateway (all_providers_failed m)) w = refl
    after_error-Runs (gateway (rate_limiter_unavailable m)) w = refl
    after_error-Runs (gateway (metrics_unavailable m)) w = refl
    after_error-Runs (gateway (provider_error x)) w = refl
    after_error-Runs (value_error m) w = refl
    after_error-Runs validation_error w = refl
    after_error-Runs (other m) w = refl

    after_route-Runs :
        (routed : Routed (List (Provider F)))
        → Runs
            (after_route_task host service u request g id t routed)
            (after_route host service u request g id t routed)
    unfolding after_route_task after_route
    after_route-Runs (raised e) = after_error-Runs e
    after_route-Runs (candidates ps) = try_candidates-Runs ps 0 "AllProvidersFailedError"

    route-Runs :
        Runs
          (route_task host service u request g id t)
          (route_and_try host service u request g id t)
    unfolding route_task route_and_try
    route-Runs w =
        after_route-Runs (route u service.router w.latency (strategy_value request.strategy) g) w

  -- A completion that nothing interrupts ends as `complete` does, and leaves the same state.
  pub complete_task-Runs :
      (u : Unicode) (request : ChatCompletionRequest F) (started_at : Option F)
      → Runs
          (complete_task host service u request started_at)
          (complete host service u request started_at)
  unfolding complete_task complete start_time
  complete_task-Runs u request none w = route-Runs u request _ _ _ _
  complete_task-Runs u request (some t) w = route-Runs u request _ _ _ _
