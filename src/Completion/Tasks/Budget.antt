-- ===== src/Completion/Tasks/Budget.antt =====
-- What a completion spends at most, however it is interrupted
-- (app/services/completion_service.py).
use model_route.Base.{
  ◌+◌, ◌*◌, ◌≡◌, refl, arith, count_if, String, ℕ, suc, refl, Bool, true, false, Option, none, some,
  List, [], ◌∷◌, arith, ltb,
}
use model_route.Base.Float.{Float}
use model_route.Base.Unicode.{Unicode}
use model_route.Cache
use model_route.Cache.{ResponseCache, build_key}
use model_route.Completion.{
  CompletionService, start_time, response, update_latency, elapsed_ms, record_success, Attempted,
  succeeded, gave_up,
}
use model_route.Completion.Tasks.{
  complete_task, route_task, after_route_task, after_error_task, try_candidates_task,
  try_candidate_task, after_attempts_task, attempts_task, finish_task, respond_task,
  record_failure_task,
}
use model_route.Completion.Tasks.Cases.{after_error_elim}
use model_route.Errors.{Exception}
use model_route.Providers.{GenerationRequest, Provider, ProviderResult}
use model_route.Router.{Routed, candidates, raised, route}
use model_route.Runtime.{Host, World, ask}
use model_route.Schemas.{ChatCompletionRequest, ChatCompletionResponse, strategy_value}
use model_route.Tasks.{Task, ◌>>=◌, ◌>>◌, lift, pure, throw}
use model_route.Completion.Candidates.{tries}
use model_route.Completion.Trace.{calls}
use model_route.Completion.Rows.{tries-route-le}
use model_route.Completion.Tasks.Takes.{
  ask-Takes, get-Takes, set-Takes, start-Takes, elapsed-Takes, response-Takes, record_success-Takes,
}
use model_route.Tasks.Spending.{Takes, Spends, Spends-le, bind-Spends, lift-Spends, quiet-Spends}
use model_route.Completion.Tasks.Costs.{tried, record_failure-Spends, attempts-Spends}

module _ {F : Type 0} ⦃fl : Float F⦄ (host : Host F) (service : CompletionService F)
    (i : String) where
  module _ (u : Unicode) (request : ChatCompletionRequest F) (g : GenerationRequest F) (id : String)
      (t : F) where
    update-Takes :
        (p : Provider F) (x : F) → Takes i 0 0 (update_latency host service u request g id t p x)
    unfolding update_latency calls
    update-Takes p x w = (omega arith, omega arith)

    respond-Spends :
        (p : Provider F) (r : ProviderResult) (hit fallback : Bool)
        → Spends i 0 1 (respond_task host service u request g id t p r hit fallback)
    unfolding respond_task
    respond-Spends p r hit fallback =
        quiet-Spends i 0 1 (response host service r id t hit fallback) _
          (response-Takes host service i r id t hit fallback)
          (λ x.
            lift-Spends i 0 1 0 0 (record_success host service x request p.metadata) (λ _. pure x)
              (record_success-Takes host service i x request p) (λ _. tt))

    finish-Spends :
        (p : Provider F) (key : String) (r : ProviderResult) (began : F) (index : ℕ)
        → Spends i 0 1 (finish_task host service u request g id t p key r began index)
    unfolding finish_task
    finish-Spends p key r began index =
        let answer : Task F (ChatCompletionResponse F) =
          respond_task host service u request g id t p r false (ltb 0 index) in
        let stored : Task F (ChatCompletionResponse F) =
          lift (Cache.set host service.cache key r) >> answer in
        quiet-Spends i 0 1 (elapsed_ms host service began)
          (λ x. lift (update_latency host service u request g id t p x) >> stored)
          (elapsed-Takes host service i began)
          (λ x.
            quiet-Spends i 0 1 (update_latency host service u request g id t p x) (λ _. stored)
              (update-Takes p x)
              (λ _.
                quiet-Spends i 0 1 (Cache.set host service.cache key r) (λ _. answer)
                  (set-Takes host i service.cache key r)
                  (λ _. respond-Spends p r false (ltb 0 index))))

    after_attempts-Spends :
        (n : ℕ) (p : Provider F) (key : String) (index : ℕ) (ended : Attempted F × String)
        (next : String → Task F (ChatCompletionResponse F))
        → ((c : String) → Spends i n 1 (next c))
        → Spends i n 1 (after_attempts_task host service u request g id t p key index ended next)
    unfolding after_attempts_task
    after_attempts-Spends n p key index (succeeded r began, c) next each =
        Spends-le i 0 n 1 1 (finish_task host service u request g id t p key r began index)
          (omega arith) (omega arith) (finish-Spends p key r began index)
    after_attempts-Spends n p key index (gave_up, c) next each = each c

    try_candidate-Spends :
        (n : ℕ) (p : Provider F) (index : ℕ) (category : String)
        (next : String → Task F (ChatCompletionResponse F))
        → ((c : String) → Spends i n 1 (next c))
        → (found : Option ProviderResult)
        → Spends i
            (tried host service i p (suc service.max_retries) + n)
            1
            (try_candidate_task host service u request g id t p index category next found)
    unfolding try_candidate_task
    try_candidate-Spends n p index category next each (some r) =
        Spends-le i 0 (tried host service i p (suc service.max_retries) + n) 1 1
          (respond_task host service u request g id t p r true (ltb 0 index)) (omega arith)
          (omega arith) (respond-Spends p r true (ltb 0 index))
    try_candidate-Spends n p index category next each none =
        let most = tried host service i p (suc service.max_retries) in
        Spends-le i (most + n) (most + n) (0 + 1) 1
          (try_candidate_task host service u request g id t p index category next none)
          (omega arith) (omega arith)
          (bind-Spends i most 0 n 1
            (attempts_task host service p g (suc service.max_retries) 0 category) _
            (attempts-Spends host service i p g (suc service.max_retries) 0 category)
            (λ ended. after_attempts-Spends n p _ index ended next each))

    -- The calls of the provider that the candidates may take.
    abbrev most_calls : List (Provider F) → ℕ
    most_calls ps = tries i ps * suc service.max_retries

    try_candidates-Spends :
        (ps : List (Provider F)) (index : ℕ) (category : String)
        → Spends i
            (most_calls ps)
            1
            (try_candidates_task host service u request g id t ps index category)
    unfolding try_candidates_task tries count_if
    try_candidates-Spends [] index category =
        Spends-le i 0 (most_calls []) (1 + 0) 1
          (try_candidates_task host service u request g id t [] index category) (omega arith)
          (omega arith)
          (bind-Spends i {B = ChatCompletionResponse F} 0 1 0 0
            (record_failure_task host service id request t category) _
            (record_failure-Spends host service i id request t category) (λ _. tt))
    try_candidates-Spends (p ∷ ps) index category =
        Spends-le i (tried host service i p (suc service.max_retries) + most_calls ps)
          (most_calls (p ∷ ps)) 1 1
          (try_candidates_task host service u request g id t (p ∷ ps) index category) (ground arith)
          (omega arith)
          (quiet-Spends i (tried host service i p (suc service.max_retries) + most_calls ps) 1
            (Cache.get host (build_key host p g))
            (try_candidate_task host service u request g id t p index category
              (try_candidates_task host service u request g id t ps (suc index)))
            (get-Takes host i (build_key host p g))
            (try_candidate-Spends (most_calls ps) p index category _
              (try_candidates-Spends ps (suc index))))

    after_error-Spends :
        (n : ℕ) (e : Exception) → Spends i n 1 (after_error_task host service u request g id t e)
    after_error-Spends n =
        after_error_elim host service u request g id t (Spends i n 1)
          (λ e.
            Spends-le i (0 + 0) n (1 + 0) 1
              (record_failure_task host service id request t "NoEligibleProviderError" >> throw e)
              (omega arith) (omega arith)
              (bind-Spends i {B = ChatCompletionResponse F} 0 1 0 0
                (record_failure_task host service id request t "NoEligibleProviderError") _
                (record_failure-Spends host service i id request t "NoEligibleProviderError")
                (λ _. tt)))
          (λ e. tt)

    after_route-Spends :
        (w : World F) (routed : Routed (List (Provider F)))
        → route u service.router w.latency (strategy_value request.strategy) g ≡ routed
        → Spends i
            (most_calls service.router.providers)
            1
            (after_route_task host service u request g id t routed)
    unfolding after_route_task
    after_route-Spends w (raised e) same = after_error-Spends _ e
    after_route-Spends w (candidates ps) same =
        Spends-le i (most_calls ps) (most_calls service.router.providers) 1 1
          (try_candidates_task host service u request g id t ps 0 "AllProvidersFailedError")
          (grind (arith, tries-route-le host service request u w g ps same i)) (omega arith)
          (try_candidates-Spends ps 0 "AllProvidersFailedError")

    route-Spends :
        Spends i (most_calls service.router.providers) 1 (route_task host service u request g id t)
    unfolding route_task
    route-Spends = λ w. (_, 1, omega arith, omega arith, after_route-Spends w _ refl)

  -- However a completion is interrupted, it calls the providers of one identity at most
  -- `max_retries + 1` times for each that is configured, and it writes one row at most.
  pub complete_task-Spends :
      (u : Unicode) (request : ChatCompletionRequest F) (started_at : Option F)
      → Spends i
          (tries i service.router.providers * suc service.max_retries)
          1
          (complete_task host service u request started_at)
  unfolding complete_task
  complete_task-Spends u request started_at =
      let g : GenerationRequest F = record {
        prompt = request.prompt;
        temperature = request.temperature;
        max_tokens = request.max_tokens;
      } in
      let most = tries i service.router.providers * suc service.max_retries in
      let routed : F → String → Task F (ChatCompletionResponse F) =
        λ t id. route_task host service u request g id t in
      quiet-Spends i most 1 (start_time host service started_at)
        (λ t. lift (ask host.uuid4) >>= routed t) (start-Takes host service i started_at)
        (λ t.
          quiet-Spends i most 1 (ask host.uuid4) (routed t) (ask-Takes i host.uuid4)
            (λ id. route-Spends u request g id t))
