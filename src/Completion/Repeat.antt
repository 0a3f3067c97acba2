-- ===== src/Completion/Repeat.antt =====
-- A request that repeats an earlier one (app/services/completion_service.py with
-- app/services/cache.py).
use model_route.Base.{
  String, ℕ, suc, ◌+◌, ◌<◌, ◌≡◌, ap, ◌∙◌, true, false, some, List, ◌∷◌, count_if, arith,
}
use model_route.Base.Dict.{lookup}
use model_route.Base.Float.{Float}
use model_route.Base.Unicode.{Unicode}
use model_route.Cache
use model_route.Cache.Laws.{JsonLaws, get-set}
use model_route.Completion.{
  CompletionService, complete, route_and_try, after_route, start_time, try_candidates,
  try_candidate, respond,
}
use model_route.Completion.Complete.{generation_of}
use model_route.Completion.Ends.{ClockRuns, Recorded, response_of}
use model_route.Completion.Serve.{respond_lem}
use model_route.Completion.Trace.{calls}
use model_route.Metrics.{success_metric}
use model_route.Providers.{Provider, ProviderResult}
use model_route.Redis.{IsRedis, seconds}
use model_route.Router.{candidates, route}
use model_route.Runtime.{Host, World, Outcome, ok, bind-ok}
use model_route.Schemas.{ChatCompletionRequest, ChatCompletionResponse, strategy_value}

module _ {F : Type 0} ⦃fl : Float F⦄ (host : Host F) (service : CompletionService F) (u : Unicode)
    (request : ChatCompletionRequest F) where
  -- Served from the cache: the response holds the result, says so, and is recorded; no provider is
  -- called and no average changes.
  abbrev pub ServedFromCache :
      F
      → Provider F
      → ProviderResult
      → World F
      → Outcome (ChatCompletionResponse F) × World F
      → Type 0
  ServedFromCache t p result v out =
      (n : ℕ) × (let r =
          response_of host service request (host.uuid4 v.tick) t result true false n in
        (out.0 ≡ ok r)
        × Recorded host service (success_metric host r (strategy_value request.strategy) p.metadata)
            v.rows out.1.rows)
      × ((id : String) → calls id out.1 ≡ calls id v)
      × (out.1.latency ≡ v.latency)

  complete-routed :
      (ps : List (Provider F)) (v : World F) (t : F)
      → route u service.router v.latency
          (strategy_value request.strategy)
          (generation_of host service u request)
        ≡ candidates ps
      → complete host service u request (some t) v
        ≡ try_candidates host service u request
            (generation_of host service u request)
            (host.uuid4 v.tick)
            t
            ps
            0
            "AllProvidersFailedError"
            (record v { tick = suc v.tick })
  unfolding complete route_and_try start_time after_route
  complete-routed ps v t routed =
      ap
        (λ x.
          after_route host service u request (generation_of host service u request)
            (host.uuid4 v.tick) t x (record v { tick = suc v.tick }))
        routed

  try_candidates-cached :
      (p : Provider F) (ps : List (Provider F)) (id : String) (t : F) (category : String)
      (result : ProviderResult) (v v' : World F)
      → let g = generation_of host service u request in
        Cache.get host (Cache.build_key host p g) v ≡ (ok (some result), v')
        → try_candidates host service u request g id t (p ∷ ps) 0 category v
          ≡ respond host service u request g id t p result true false v'
  unfolding try_candidates try_candidate
  try_candidates-cached p ps id t category result v v' found =
      let g = generation_of host service u request in
      bind-ok (Cache.get host (Cache.build_key host p g))
        (try_candidate host service u request g id t p 0 category
          (try_candidates host service u request g id t ps 1))
        (some result) v (ap (λ x. x.0) found)
      ∙ ap (λ x. respond host service u request g id t p result true false x.1) found

  -- If no later read of the clock is earlier than the start, Redis replies as documented, the
  -- response model reads a text and a count as themselves, and `json` reads back what was written
  -- of a result: once a result was cached for the provider that the router puts first, a request
  -- with that key is served from the cache, where both the write and the lookup reach Redis, the
  -- time to live has not passed and nothing else was written under the key since. Whatever was
  -- written under other keys, the buckets of the limiter say, makes no difference.
  pub complete-set :
      (p : Provider F) (ps : List (Provider F)) (result : ProviderResult) (w v : World F) (t : F)
      → ClockRuns host service t v.tick
      → IsRedis host
      → JsonLaws host result
      → host.redis_fails w.tick ≡ false
      → (let key = Cache.build_key host p (generation_of host service u request) in
          lookup key v.redis ≡ lookup key (Cache.set host service.cache key result w).1.redis)
      → host.redis_fails (suc v.tick) ≡ false
      → host.redis_time (suc v.tick) < host.redis_time w.tick + seconds service.cache.ttl_seconds
      → route u service.router v.latency
          (strategy_value request.strategy)
          (generation_of host service u request)
        ≡ candidates (p ∷ ps)
      → ServedFromCache t p result v (complete host service u request (some t) v)
  unfolding calls count_if
  complete-set p ps result w v t clock redis laws up same up' fresh routed =
      let g = generation_of host service u request in
      let key = Cache.build_key host p g in
      let v1 : World F = record v { tick = suc v.tick } in
      let found = get-set host service.cache key result w v1 redis laws up same up' fresh in
      let v2 : World F = record v { tick = suc v1.tick } in
      let step =
        complete-routed (p ∷ ps) v t routed
        ∙ try_candidates-cached p ps (host.uuid4 v.tick) t _ result v1 v2 found in
      let (answer, row, kept) =
        respond_lem host service u request g (host.uuid4 v.tick) t v.tick clock p result true false
          v2 (omega arith) in
      rw step (v2.tick, (answer, row), kept.0, kept.1)
