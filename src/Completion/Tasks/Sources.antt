-- ===== src/Completion/Tasks/Sources.antt =====
-- From the loop over the candidates up to `complete`: whose reply a response is, whatever other
-- requests do meanwhile (app/services/completion_service.py).
use mathlib.Core.List.{Mem, mem-cons_self, mem-cons_of_mem}
use model_route.Base.{String, ℕ, suc, ◌≡◌, refl, Option, none, some, List, [], ◌∷◌, All, map_All}
use model_route.Base.Float.{Float}
use model_route.Base.Sorting.Laws.{All-sorted}
use model_route.Base.Unicode.{Unicode}
use model_route.Cache
use model_route.Cache.{build_key}
use model_route.Completion.{CompletionService, start_time}
use model_route.Completion.Tasks.{
  complete_task, route_task, after_route_task, after_error_task, try_candidates_task,
  try_candidate_task, record_failure_task,
}
use model_route.Completion.Tasks.Origin.{IsFrom, IfFound, try_candidate-From}
use model_route.Completion.Tasks.Cases.{after_error_elim}
use model_route.Errors.{Exception, gateway, all_providers_failed}
use model_route.Providers.{GenerationRequest, Provider, ProviderResult}
use model_route.Router.{Routed, candidates, raised, route, eligible_of}
use model_route.Router.Laws.{route-sorted}
use model_route.Runtime.{Host, World, Outcome, ok, raise, ask}
use model_route.Schemas.{ChatCompletionRequest, ChatCompletionResponse, strategy_value}
use model_route.Tasks.{Task, ◌>>=◌, lift}
use model_route.Tasks.Yielding.{IfOk, Yields, lift-Yields, any-Yields, map-Yields, raises-Yields}

module _ {F : Type 0} ⦃fl : Float F⦄ (host : Host F) (service : CompletionService F)
    (u : Unicode) where
  module _ (g : GenerationRequest F) (request : ChatCompletionRequest F) (id : String) (t : F)
      (all : List (Provider F)) where
    found-IfFound :
        (p : Provider F) (w : World F) (out : Outcome (Option ProviderResult))
        → (Cache.get host (build_key host p g) w).0 ≡ out
        → IfOk (IfFound host service g p) out
    found-IfFound p w (ok none) e = tt
    found-IfFound p w (ok (some r)) e = (w, e)
    found-IfFound p w (raise x) e = tt

    try_candidates-From :
        (ps : List (Provider F)) (index : ℕ) (category : String)
        → All (λ p. Mem p all) ps
        → Yields
            (IsFrom host service g all id)
            (try_candidates_task host service u request g id t ps index category)
    unfolding try_candidates_task
    try_candidates-From [] index category among =
        raises-Yields (IsFrom host service g all id)
          (record_failure_task host service id request t category)
          (gateway (all_providers_failed "All eligible providers failed"))
    try_candidates-From (p ∷ ps) index category (m, among) =
        lift-Yields (IfFound host service g p) (IsFrom host service g all id)
          (Cache.get host (build_key host p g))
          (try_candidate_task host service u request g id t p index category
            (try_candidates_task host service u request g id t ps (suc index)))
          (λ w. found-IfFound p w _ refl)
          (λ found kept.
            try_candidate-From host service g u request id t all p index category _ found m kept
              (λ c. try_candidates-From ps (suc index) c among))

    after_error-From :
        (e : Exception)
        → Yields (IsFrom host service g all id) (after_error_task host service u request g id t e)
    after_error-From =
        after_error_elim host service u request g id t (Yields (IsFrom host service g all id))
          (raises-Yields (IsFrom host service g all id)
            (record_failure_task host service id request t "NoEligibleProviderError"))
          (λ e. tt)

  each-Mem : (ps : List (Provider F)) → All (λ p. Mem p ps) ps
  each-Mem [] = tt
  each-Mem (p ∷ ps) = (mem-cons_self, map_All ps (λ q m. mem-cons_of_mem p m) (each-Mem ps))

  module _ (g : GenerationRequest F) (request : ChatCompletionRequest F) (id : String) (t : F) where
    -- The candidates are the eligible providers.
    candidates-Mem :
        (w : World F) (ps : List (Provider F))
        → route u service.router w.latency (strategy_value request.strategy) g ≡ candidates ps
        → All (λ p. Mem p (eligible_of service.router)) ps
    candidates-Mem w ps e =
        let eligible = eligible_of service.router in
        let (lt, same) = route-sorted u service.router w.latency _ g ps e in
        rw same (All-sorted lt (λ p. Mem p eligible) eligible (each-Mem eligible))

    after_route-From :
        (w : World F) (routed : Routed (List (Provider F)))
        → route u service.router w.latency (strategy_value request.strategy) g ≡ routed
        → Yields
            (IsFrom host service g (eligible_of service.router) id)
            (after_route_task host service u request g id t routed)
    unfolding after_route_task
    after_route-From w (raised e) same =
        after_error-From g request id t (eligible_of service.router) e
    after_route-From w (candidates ps) same =
        try_candidates-From g request id t (eligible_of service.router) ps 0
          "AllProvidersFailedError" (candidates-Mem w ps same)

  -- What the service asks of the providers.
  abbrev pub asked : ChatCompletionRequest F → GenerationRequest F
  asked request = record {
    prompt = request.prompt;
    temperature = request.temperature;
    max_tokens = request.max_tokens;
  }

  -- The response has an id of its own, and is what an eligible provider replied to this request, or
  -- was cached for it.
  abbrev pub Answered : ChatCompletionRequest F → ChatCompletionResponse F → Type 0
  Answered request r =
      (n : ℕ) × IsFrom host service (asked request) (eligible_of service.router) (host.uuid4 n) r

  pub complete_task-Answered :
      (request : ChatCompletionRequest F) (started_at : Option F)
      → Yields (Answered request) (complete_task host service u request started_at)
  unfolding complete_task route_task
  complete_task-Answered request started_at =
      let g = asked request in
      let routed : F → String → Task F (ChatCompletionResponse F) =
        λ t id. route_task host service u request g id t in
      any-Yields (Answered request) (start_time host service started_at)
        (λ t. lift (ask host.uuid4) >>= routed t)
        (λ t.
          lift-Yields (λ id. (n : ℕ) × (host.uuid4 n ≡ id)) (Answered request) (ask host.uuid4)
            (routed t) (λ w. (w.tick, refl))
            (λ id (n, e) w.
              map-Yields (IsFrom host service g (eligible_of service.router) id) (Answered request)
                _ (λ r from. (n, rw e from)) (after_route-From g request id t w _ refl)))
