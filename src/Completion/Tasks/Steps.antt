-- ===== src/Completion/Tasks/Steps.antt =====
-- What each piece of a completion does, whatever happened since the piece before
-- (app/services/completion_service.py).
use model_route.Base.{
  String, ℕ, zero, suc, inr, refl, Bool, true, false, ◌&&◌, Option, none, some, List, [], ◌∷◌,
  arith, ltb,
}
use model_route.Base.Float.{Float}
use model_route.Base.Unicode.{Unicode}
use model_route.Cache
use model_route.Cache.{ResponseCache, build_key}
use model_route.Completion.{
  CompletionService, start_time, response, update_latency, elapsed_ms, record_success,
  sleep_before_retry, warning, Attempted, succeeded, gave_up,
}
use model_route.Completion.Tasks.{
  complete_task, route_task, after_route_task, after_error_task, try_candidates_task,
  try_candidate_task, after_attempts_task, attempts_task, after_reply_task, retry_or_stop_task,
  finish_task, respond_task, record_failure_task,
}
use model_route.Completion.Tasks.Cases.{after_error_elim}
use model_route.Errors.{ProviderError, Exception, retryable, type_name}
use model_route.Metrics
use model_route.Metrics.{record_metric, success_metric}
use model_route.Providers.{
  GenerationRequest, Provider, ProviderResult, Reply, generated, failed, crashed, identity,
}
use model_route.Router.{Routed, candidates, raised, route}
use model_route.Runtime.{Host, ask, note, logged, generate_called}
use model_route.Schemas.{ChatCompletionRequest, ChatCompletionResponse, strategy_value}
use model_route.Tasks.{Task, ◌>>=◌, ◌>>◌, lift, pure}
use model_route.Tasks.Laws.{bind-Each}
use model_route.Completion.Tasks.Pieces.{
  Gentle, Gentle-quiet, IsGentle, EachGentle, lift-Gentle, if-Gentle, note-Gentle, ask-Gentle,
  record_metric-Gentle, get-Gentle, set-Gentle, start-Gentle, elapsed-Gentle, sleep-Gentle,
  response-Gentle, record_success-Gentle,
}

module _ {F : Type 0} ⦃fl : Float F⦄ (host : Host F) (service : CompletionService F) where
  record_failure-Gentle :
      (id : String) (request : ChatCompletionRequest F) (t : F) (category : String)
      → EachGentle (record_failure_task host service id request t category)
  unfolding record_failure_task Metrics.record_failure
  record_failure-Gentle id request t category =
      if-Gentle service.has_metrics _ (pure tt)
        (lift-Gentle (elapsed_ms host service t) _ (elapsed-Gentle host service t) (λ ms.
          lift-Gentle (Metrics.record_failure host id (strategy_value request.strategy) ms category)
            (λ _. pure tt) (record_metric-Gentle host _ (inr (refl, refl, refl, refl, refl, refl)))
            (λ _. tt)))
        tt

  retry_or_stop-Gentle :
      (exc : ProviderError) (attempt : ℕ) (again : Task F (Attempted F × String))
      → EachGentle again
      → EachGentle (retry_or_stop_task host service exc attempt again)
  unfolding retry_or_stop_task
  retry_or_stop-Gentle exc attempt again each =
      if-Gentle (retryable exc && ltb attempt service.max_retries) _ (pure (gave_up, type_name exc))
        (lift-Gentle (sleep_before_retry host service) (λ _. again) (sleep-Gentle host service)
          (λ _. each))
        tt

  after_reply-Gentle :
      (p : Provider F) (reply : Reply) (t : F) (attempt : ℕ) (category : String)
      (again : String → Task F (Attempted F × String))
      → ((c : String) → EachGentle (again c))
      → EachGentle (after_reply_task host service p reply t attempt category again)
  unfolding after_reply_task
  after_reply-Gentle p (generated r) t attempt category again each = tt
  after_reply-Gentle p (failed exc) t attempt category again each =
      lift-Gentle (note (logged (warning p.metadata.name exc attempt))) _
        (note-Gentle (logged (warning p.metadata.name exc attempt)))
        (λ _. retry_or_stop-Gentle exc attempt _ (each (type_name exc)))
  after_reply-Gentle p (crashed e) t attempt category again each = tt

  attempts-Gentle :
      (p : Provider F) (g : GenerationRequest F) (left attempt : ℕ) (category : String)
      → EachGentle (attempts_task host service p g left attempt category)
  unfolding attempts_task
  attempts-Gentle p g zero attempt category = tt
  attempts-Gentle p g (suc left) attempt category =
      let react : F → Reply → Task F (Attempted F × String) = λ t reply.
        after_reply_task host service p reply t attempt category
          (attempts_task host service p g left (suc attempt)) in
      let called : F → Reply → Task F (Attempted F × String) =
        λ t reply. lift (note (generate_called (identity p.metadata))) >> react t reply in
      lift-Gentle (ask host.perf_counter) (λ t. lift (ask (λ n. p.generate n g)) >>= called t)
        (ask-Gentle host.perf_counter)
        (λ t.
          lift-Gentle (ask (λ n. p.generate n g)) (called t) (ask-Gentle (λ n. p.generate n g))
            (λ reply.
              lift-Gentle (note (generate_called (identity p.metadata))) (λ _. react t reply)
                (note-Gentle (generate_called (identity p.metadata)))
                (λ _.
                  after_reply-Gentle p reply t attempt category _
                    (attempts-Gentle p g left (suc attempt)))))

  module _ (u : Unicode) (request : ChatCompletionRequest F) (g : GenerationRequest F) (id : String)
      (t : F) where
    update-Gentle :
        (p : Provider F) (x : F) → IsGentle (update_latency host service u request g id t p x)
    unfolding update_latency
    update-Gentle p x w =
        Gentle-quiet w (update_latency host service u request g id t p x w).1 (omega arith) refl
          refl

    respond-Gentle :
        (p : Provider F) (r : ProviderResult) (hit fallback : Bool)
        → EachGentle (respond_task host service u request g id t p r hit fallback)
    unfolding respond_task
    respond-Gentle p r hit fallback =
        lift-Gentle (response host service r id t hit fallback) _
          (response-Gentle host service r id t hit fallback)
          (λ x.
            lift-Gentle (record_success host service x request p.metadata) (λ _. pure x)
              (record_success-Gentle host service x request p) (λ _. tt))

    finish-Gentle :
        (p : Provider F) (r : ProviderResult) (began : F) (index : ℕ)
        → EachGentle
            (finish_task host service u request g id t p (build_key host p g) r began index)
    unfolding finish_task
    finish-Gentle p r began index =
        lift-Gentle (elapsed_ms host service began) _ (elapsed-Gentle host service began) (λ x.
          lift-Gentle (update_latency host service u request g id t p x) _ (update-Gentle p x) (λ _.
            lift-Gentle (Cache.set host service.cache (build_key host p g) r)
              (λ _. respond_task host service u request g id t p r false (ltb 0 index))
              (set-Gentle host service.cache p g r) (λ _. respond-Gentle p r false (ltb 0 index))))

    after_attempts-Gentle :
        (p : Provider F) (index : ℕ) (ended : Attempted F × String)
        (next : String → Task F (ChatCompletionResponse F))
        → ((c : String) → EachGentle (next c))
        → EachGentle (
            after_attempts_task host service u request g id t p
              (build_key host p g)
              index
              ended
              next)
    unfolding after_attempts_task
    after_attempts-Gentle p index (succeeded r began, c) next each = finish-Gentle p r began index
    after_attempts-Gentle p index (gave_up, c) next each = each c

    try_candidate-Gentle :
        (p : Provider F) (index : ℕ) (category : String)
        (next : String → Task F (ChatCompletionResponse F))
        → ((c : String) → EachGentle (next c))
        → (found : Option ProviderResult)
        → EachGentle (try_candidate_task host service u request g id t p index category next found)
    unfolding try_candidate_task
    try_candidate-Gentle p index category next each (some r) = respond-Gentle p r true (ltb 0 index)
    try_candidate-Gentle p index category next each none =
        bind-Each Gentle (attempts_task host service p g (suc service.max_retries) 0 category) _
          (attempts-Gentle p g (suc service.max_retries) 0 category)
          (λ ended. after_attempts-Gentle p index ended next each)

    try_candidates-Gentle :
        (ps : List (Provider F)) (index : ℕ) (category : String)
        → EachGentle (try_candidates_task host service u request g id t ps index category)
    unfolding try_candidates_task
    try_candidates-Gentle [] index category =
        bind-Each {B = ChatCompletionResponse F} Gentle
          (record_failure_task host service id request t category) _
          (record_failure-Gentle id request t category) (λ _. tt)
    try_candidates-Gentle (p ∷ ps) index category =
        lift-Gentle (Cache.get host (build_key host p g))
          (try_candidate_task host service u request g id t p index category
            (try_candidates_task host service u request g id t ps (suc index)))
          (get-Gentle host (build_key host p g))
          (try_candidate-Gentle p index category _ (try_candidates-Gentle ps (suc index)))

    after_error-Gentle :
        (e : Exception) → EachGentle (after_error_task host service u request g id t e)
    after_error-Gentle =
        after_error_elim host service u request g id t EachGentle
          (λ e.
            bind-Each {B = ChatCompletionResponse F} Gentle
              (record_failure_task host service id request t "NoEligibleProviderError") _
              (record_failure-Gentle id request t "NoEligibleProviderError") (λ _. tt))
          (λ e. tt)

    after_route-Gentle :
        (routed : Routed (List (Provider F)))
        → EachGentle (after_route_task host service u request g id t routed)
    unfolding after_route_task
    after_route-Gentle (raised e) = after_error-Gentle e
    after_route-Gentle (candidates ps) = try_candidates-Gentle ps 0 "AllProvidersFailedError"

    route-Gentle : EachGentle (route_task host service u request g id t)
    unfolding route_task
    route-Gentle w = (
      Gentle-quiet w w (omega arith) refl refl,
      after_route-Gentle (route u service.router w.latency (strategy_value request.strategy) g),
    )

  -- No piece of a completion sets time back, changes a row, spoils the table, or writes a key that
  -- is not the cache's, whatever other requests did before it.
  pub complete_task-Gentle :
      (u : Unicode) (request : ChatCompletionRequest F) (started_at : Option F)
      → EachGentle (complete_task host service u request started_at)
  unfolding complete_task
  complete_task-Gentle u request started_at =
      let g : GenerationRequest F = record {
        prompt = request.prompt;
        temperature = request.temperature;
        max_tokens = request.max_tokens;
      } in
      let routed : F → String → Task F (ChatCompletionResponse F) =
        λ t id. route_task host service u request g id t in
      lift-Gentle (start_time host service started_at) (λ t. lift (ask host.uuid4) >>= routed t)
        (start-Gentle host service started_at)
        (λ t.
          lift-Gentle (ask host.uuid4) (routed t) (ask-Gentle host.uuid4)
            (λ id. route-Gentle u request g id t))
