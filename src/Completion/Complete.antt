-- ===== src/Completion/Complete.antt =====
-- The whole of `complete` (app/services/completion_service.py): from the route to the end.
use model_route.Base.{
  String, ℕ, suc, ◌≡◌, ◌≤◌, ◌⊎◌, inl, inr, refl, Option, none, some, List, [], arith,
}
use model_route.Base.Float.{Float}
use model_route.Base.Unicode.{Unicode}
use model_route.Completion.{
  CompletionService, complete, route_and_try, after_route, after_error, record_failure, start_time,
}
use model_route.Completion.Candidates.{Ending}
use model_route.Completion.Ends.{ClockRuns, Recorded, failure_metric, record_failure_lem}
use model_route.Completion.Trace.{calls}
use model_route.Completion.Walk.{try_candidates_lem}
use model_route.Errors.{gateway, no_eligible_provider}
use model_route.Providers.{GenerationRequest, Provider}
use model_route.Router.{Routed, candidates, raised, route, eligible_of}
use model_route.Router.Laws.{route_raises}
use model_route.Runtime.{Host, World, Outcome, raise, bind-ok, throw}
use model_route.Schemas.{
  ChatCompletionRequest, ChatCompletionResponse, Strategy, fixed, cheapest, fastest, strategy_value,
}

module _ {F : Type 0} (host : Host F) where
  -- The start of the request, and the state in which the route is taken.
  abbrev pub start_of : Option F → World F → F
  start_of none w = host.perf_counter w.tick
  start_of (some t) w = t

  abbrev pub begun : Option F → World F → World F
  begun none w = record w { tick = suc (suc w.tick) }
  begun (some t) w = record w { tick = suc w.tick }

  abbrev pub id_of : Option F → World F → String
  id_of none w = host.uuid4 (suc w.tick)
  id_of (some t) w = host.uuid4 w.tick

module _ {F : Type 0} ⦃fl : Float F⦄ (host : Host F) (service : CompletionService F) (u : Unicode)
    (request : ChatCompletionRequest F) where
  abbrev pub generation_of : GenerationRequest F
  generation_of = record {
    prompt = request.prompt;
    temperature = request.temperature;
    max_tokens = request.max_tokens;
  }

  -- Either no provider is eligible, which is recorded and raised without any call; or the walk over
  -- the routed candidates ends the request.
  abbrev pub Completed :
      String → F → World F → Outcome (ChatCompletionResponse F) × World F → Type 0
  Completed request_id t w out =
      ((eligible_of service.router ≡ [])
        × (out.0 ≡ raise (gateway (no_eligible_provider "No eligible provider is configured")))
        × Recorded host service
            (failure_metric host service request request_id t "NoEligibleProviderError" w.tick)
            w.rows out.1.rows
        × ((id : String) → calls id out.1 ≡ calls id w))
      ⊎ ((ps : List (Provider F)) × (route u service.router w.latency
              (strategy_value request.strategy) generation_of
            ≡ candidates ps)
          × Ending host service request generation_of request_id t ps 0 "AllProvidersFailedError" w
              out)

  known_strategy :
      (s : Strategy)
      → (strategy_value s ≡ "fixed")
        ⊎ ((strategy_value s ≡ "cheapest") ⊎ (strategy_value s ≡ "fastest"))
  unfolding strategy_value
  known_strategy fixed = inl refl
  known_strategy cheapest = inr (inl refl)
  known_strategy fastest = inr (inr refl)

  after_route_lem :
      (request_id : String) (t : F) (since : ℕ) (w : World F)
      → ClockRuns host service t since
      → since ≤ w.tick
      → (x : Routed (List (Provider F)))
      → route u service.router w.latency (strategy_value request.strategy) generation_of ≡ x
      → Completed request_id t w (after_route host service u request generation_of request_id t x w)
  unfolding after_route
  after_route_lem request_id t since w clock later (candidates ps) e = inr (
    ps,
    e,
    try_candidates_lem host service u request generation_of request_id t since clock ps 0 _ w later,
  )
  after_route_lem request_id t since w clock later (raised x) e =
      elim ((route_raises u service.router w.latency (strategy_value request.strategy) generation_of
          x).0
        e) [
          | inl (nobody, is_gateway) ↦
              let failed_with =
                record_failure host service request_id request t "NoEligibleProviderError" in
              let message : String = "No eligible provider is configured" in
              let (done, row, kept) =
                record_failure_lem host service request request_id t "NoEligibleProviderError" w in
              let step =
                bind-ok {B = ChatCompletionResponse F} failed_with
                  (λ _. throw (gateway (no_eligible_provider message))) tt w done in
              rw (is_gateway, after_error, step) (inl (nobody, refl, row, kept.0))
          | inr (somebody, not_fixed, not_cheapest, not_fastest, is_value) ↦
              absurd (ground (arith, known_strategy request.strategy))
        ]

  -- If no later read of the clock is earlier than the start, a completion ends in one of two ways.
  -- No provider is eligible: no provider is called, and the failure is recorded and raised. Or the
  -- routed candidates are walked, which ends in one of four ways. A provider serves the request
  -- after all before it failed: the response holds a cached result or the provider's, says which,
  -- and says whether the provider was not the first; it is recorded. All candidates failed: the
  -- category of the last failure is recorded, and `AllProvidersFailedError` raised. After the
  -- candidates before failed, a provider raises an exception that is no `ProviderError`, or a
  -- cached value is of the wrong type: that passes on, and nothing is recorded. In each case the
  -- candidates that failed were called, no candidate after the last one was, and none more than
  -- `max_retries + 1` times, by the identities of the candidates.
  pub complete_lem :
      (started_at : Option F) (w : World F)
      → ClockRuns host service (start_of host started_at w) w.tick
      → Completed
          (id_of host started_at w)
          (start_of host started_at w)
          (begun host started_at w)
          (complete host service u request started_at w)
  unfolding complete route_and_try start_time
  complete_lem none w clock =
      after_route_lem _ _ w.tick (begun host none w) clock (omega arith) _ refl
  complete_lem (some t) w clock =
      after_route_lem _ _ w.tick (begun host (some t) w) clock (omega arith) _ refl
