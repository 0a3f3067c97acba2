-- ===== src/Completion/Store.antt =====
-- What a completion leaves alone in Redis (app/services/completion_service.py with
-- app/services/cache.py): every key that is not a key of the cache.
use Prim.Native.String.{◌++◌ as ◌<>◌}
use text.Mathlib.TextEquality.{eq_iff}
use model_route.Base.{
  String, ℕ, suc, ◌≡◌, ◌≢◌, ◌⊎◌, inl, inr, refl, ap, ◌∙◌, Bool, true, false, Option, none, some,
  List, [], ◌∷◌, arith, ltb,
}
use model_route.Base.Dict.{lookup}
use model_route.Base.Float.{Float}
use model_route.Base.Unicode.{Unicode}
use model_route.Cache
use model_route.Cache.{ResponseCache, build_key}
use model_route.Completion.{
  CompletionService, complete, route_and_try, after_route, after_error, start_time, try_candidates,
  try_candidate, after_attempts, attempts, finish, respond, response, update_latency, elapsed_ms,
  record_success, record_failure, Attempted, succeeded, gave_up,
}
use model_route.Completion.Attempts.{attempts_lem}
use model_route.Completion.Ends.{record_success_lem, record_failure_lem}
use model_route.Completion.Trace.{get-quiet}
use model_route.Errors.{
  Exception, gateway, no_eligible_provider, all_providers_failed, rate_limiter_unavailable,
  metrics_unavailable, provider_error, value_error, validation_error, other,
}
use model_route.Providers.{GenerationRequest, Provider, ProviderResult}
use model_route.Redis
use model_route.Router.{Routed, candidates, raised, route}
use model_route.Runtime.{
  Host, World, Outcome, ok, raise, Action, ◌>>=◌, ◌>>◌, pure, throw, bind-ok, bind-raise,
}
use model_route.Schemas.{ChatCompletionRequest, ChatCompletionResponse, strategy_value}

-- A key that the cache never writes.
abbrev pub NoCacheKey : String → Type 0
NoCacheKey k = (s : String) → k ≢ "modelroute:cache:" <> s

outcome_cases :
    {A : Type 0} (o : Outcome A) → ((a : A) × (o ≡ ok a)) ⊎ ((e : Exception) × (o ≡ raise e))
outcome_cases (ok a) = inl (a, refl)
outcome_cases (raise e) = inr (e, refl)

module _ {F : Type 0} (k : String) where
  -- The newest write of the key stays.
  abbrev pub Keeps : {A : Type 0} → Action F A → Type 0
  Keeps m = (w : World F) → lookup k (m w).1.redis ≡ lookup k w.redis

  bind-Keeps :
      {A B : Type 0} (m : Action F A) (f : A → Action F B)
      → Keeps m
      → ((a : A) → Keeps (f a))
      → Keeps (m >>= f)
  bind-Keeps m f first next w = elim (outcome_cases (m w).0) [
    | inl (a, e) ↦ ap (λ x. lookup k x.1.redis) (bind-ok m f a w e) ∙ next a (m w).1 ∙ first w
    | inr (x, e) ↦ ap (λ y. lookup k y.1.redis) (bind-raise m f x w e) ∙ first w
  ]

module _ {F : Type 0} (host : Host F) (k : String) (apart : NoCacheKey k) where
  get-Keeps : (key : String) → Keeps k (Cache.get host key)
  get-Keeps key w = ap (lookup k) (get-quiet host key w).4

  pub set-Keeps :
      (cache : ResponseCache) (s : String) (r : ProviderResult)
      → Keeps k (Cache.set host cache ("modelroute:cache:" <> s) r)
  unfolding Cache.set Redis.set lookup
  set-Keeps cache s r w =
      let key = "modelroute:cache:" <> s in ground (arith, eq_iff k key, apart s)

module _ {F : Type 0} ⦃fl : Float F⦄ (host : Host F) (service : CompletionService F) (u : Unicode)
    (request : ChatCompletionRequest F) (k : String) (apart : NoCacheKey k) where
  module _ (g : GenerationRequest F) (id : String) (t : F) where
    response-Keeps :
        (r : ProviderResult) (hit fallback : Bool)
        → Keeps k (response host service r id t hit fallback)
    unfolding response
    response-Keeps r hit fallback w = ground arith

    abbrev recorded : Provider F → ChatCompletionResponse F → Action F (ChatCompletionResponse F)
    recorded p x = record_success host service x request p.metadata >> pure x

    recorded-Keeps : (p : Provider F) (x : ChatCompletionResponse F) → Keeps k (recorded p x)
    recorded-Keeps p x =
        bind-Keeps k (record_success host service x request p.metadata) (λ _. pure x)
          (λ w. ap (lookup k) (record_success_lem host service request id t x p w).2.2)
          (λ _ w. refl)

    respond-Keeps :
        (p : Provider F) (r : ProviderResult) (hit fallback : Bool)
        → Keeps k (respond host service u request g id t p r hit fallback)
    unfolding respond
    respond-Keeps p r hit fallback =
        bind-Keeps k (response host service r id t hit fallback) (recorded p)
          (response-Keeps r hit fallback) (recorded-Keeps p)

    elapsed-Keeps : (began : F) → Keeps k (elapsed_ms host service began)
    unfolding elapsed_ms
    elapsed-Keeps began w = refl

    update-Keeps :
        (p : Provider F) (x : F) → Keeps k (update_latency host service u request g id t p x)
    unfolding update_latency
    update-Keeps p x w = refl

    abbrev stored : Provider F → ProviderResult → ℕ → Action F (ChatCompletionResponse F)
    stored p r index =
        Cache.set host service.cache (build_key host p g) r
        >> respond host service u request g id t p r false (ltb 0 index)

    stored-Keeps : (p : Provider F) (r : ProviderResult) (index : ℕ) → Keeps k (stored p r index)
    unfolding build_key
    stored-Keeps p r index =
        bind-Keeps k (Cache.set host service.cache (build_key host p g) r)
          (λ _. respond host service u request g id t p r false (ltb 0 index))
          (set-Keeps host k apart service.cache _ r) (λ _. respond-Keeps p r false (ltb 0 index))

    finish-Keeps :
        (p : Provider F) (r : ProviderResult) (began : F) (index : ℕ)
        → Keeps k (finish host service u request g id t p (build_key host p g) r began index)
    unfolding finish
    finish-Keeps p r began index =
        bind-Keeps k (elapsed_ms host service began)
          (λ x. update_latency host service u request g id t p x >> stored p r index)
          (elapsed-Keeps began)
          (λ x.
            bind-Keeps k (update_latency host service u request g id t p x) (λ _. stored p r index)
              (update-Keeps p x) (λ _. stored-Keeps p r index))

    attempts-Keeps :
        (p : Provider F) (category : String)
        → Keeps k (attempts host service p g (suc service.max_retries) 0 category)
    attempts-Keeps p category w =
        ap (lookup k) (attempts_lem host service p g category w).redis_kept

    after_attempts-Keeps :
        (p : Provider F) (index : ℕ) (next : String → Action F (ChatCompletionResponse F))
        → ((c : String) → Keeps k (next c))
        → (ended : Attempted F × String)
        → Keeps k
            (after_attempts host service u request g id t p (build_key host p g) index ended next)
    unfolding after_attempts
    after_attempts-Keeps p index next kept (succeeded r began, c) = finish-Keeps p r began index
    after_attempts-Keeps p index next kept (gave_up, c) = kept c

    try_candidate-Keeps :
        (p : Provider F) (index : ℕ) (category : String)
        (next : String → Action F (ChatCompletionResponse F))
        → ((c : String) → Keeps k (next c))
        → (found : Option ProviderResult)
        → Keeps k (try_candidate host service u request g id t p index category next found)
    unfolding try_candidate
    try_candidate-Keeps p index category next kept (some r) = respond-Keeps p r true (ltb 0 index)
    try_candidate-Keeps p index category next kept none =
        bind-Keeps k (attempts host service p g (suc service.max_retries) 0 category)
          (λ ended.
            after_attempts host service u request g id t p (build_key host p g) index ended next)
          (attempts-Keeps p category) (after_attempts-Keeps p index next kept)

    record_failure-Keeps :
        (category : String) → Keeps k (record_failure host service id request t category)
    record_failure-Keeps category w =
        ap (lookup k) (record_failure_lem host service request id t category w).2.2

    try_candidates-Keeps :
        (ps : List (Provider F)) (index : ℕ) (category : String)
        → Keeps k (try_candidates host service u request g id t ps index category)
    unfolding try_candidates
    try_candidates-Keeps [] index category =
        bind-Keeps k {B = ChatCompletionResponse F}
          (record_failure host service id request t category)
          (λ _. throw (gateway (all_providers_failed "All eligible providers failed")))
          (record_failure-Keeps category) (λ _ w. refl)
    try_candidates-Keeps (p ∷ ps) index category =
        bind-Keeps k (Cache.get host (build_key host p g))
          (try_candidate host service u request g id t p index category
            (try_candidates host service u request g id t ps (suc index)))
          (get-Keeps host k apart _)
          (try_candidate-Keeps p index category _ (try_candidates-Keeps ps (suc index)))

    after_error-Keeps : (e : Exception) → Keeps k (after_error host service u request g id t e)
    unfolding after_error
    after_error-Keeps (gateway (no_eligible_provider message)) w =
        bind-Keeps k {B = ChatCompletionResponse F}
          (record_failure host service id request t "NoEligibleProviderError")
          (λ _. throw (gateway (no_eligible_provider message)))
          (record_failure-Keeps "NoEligibleProviderError") (λ _ v. refl) w
    after_error-Keeps (gateway (all_providers_failed m)) w = refl
    after_error-Keeps (gateway (rate_limiter_unavailable m)) w = refl
    after_error-Keeps (gateway (metrics_unavailable m)) w = refl
    after_error-Keeps (gateway (provider_error x)) w = refl
    after_error-Keeps (value_error m) w = refl
    after_error-Keeps validation_error w = refl
    after_error-Keeps (other m) w = refl

    after_route-Keeps :
        (routed : Routed (List (Provider F)))
        → Keeps k (after_route host service u request g id t routed)
    unfolding after_route
    after_route-Keeps (raised e) = after_error-Keeps e
    after_route-Keeps (candidates ps) = try_candidates-Keeps ps 0 "AllProvidersFailedError"

    route_and_try-Keeps : Keeps k (route_and_try host service u request g id t)
    unfolding route_and_try
    route_and_try-Keeps w =
        after_route-Keeps (route u service.router w.latency (strategy_value request.strategy) g) w

  -- A completion writes to no key but those of the cache.
  pub complete-Keeps :
      (started_at : Option F) → Keeps k (complete host service u request started_at)
  unfolding complete start_time
  complete-Keeps none w = route_and_try-Keeps _ _ _ (record w { tick = suc (suc w.tick) })
  complete-Keeps (some t) w = route_and_try-Keeps _ _ _ (record w { tick = suc w.tick })
