-- ===== src/App/Serving.antt =====
-- The application at work: the services that `create_app` of app/main.py builds from the settings,
-- as the dependencies of app/api/routes.py hand them to the requests.
use model_route.Adapters.{Client}
use model_route.App.{
  Settings, App, Given, SharedDatabase, is_valid, create_app, app_of, router_of, routing_providers,
}
use model_route.App.Laws.{wired-app_of}
use model_route.Base.{
  String, ℕ, suc, ◌+◌, ◌*◌, ◌≤◌, ◌≡◌, true, Option, none, List, arith, length, All, subst,
}
use model_route.Base.Dict.{lookup}
use model_route.Base.Float.{Float}
use model_route.Base.Unicode.{Unicode}
use model_route.Completion.{CompletionService}
use model_route.Completion.Candidates.{tries}
use model_route.Completion.Trace.{calls}
use model_route.Database.{Url}
use model_route.Gateway.{Choice, Gateway, run, opened, let_in}
use model_route.Gateway.Budget.{all_let_in, calls-le-let_in}
use model_route.Gateway.Credit.{IsApart, let_in-le}
use model_route.Gateway.Threads.{Comes}
use model_route.Providers.{Provider}
use model_route.RateLimiter.{TokenBucketRateLimiter, bucket_key, new_limiter}
use model_route.RateLimiter.Credit.{forward_run}
use model_route.RateLimiter.Expiry.{mul_le_of_le, new_limiter-Lasts}
use model_route.Redis.{IsRedis}
use model_route.Runtime.{Host, World, ok}

module _ {F : Type 0} where
  unfoldable pub get_completion_service : App F → CompletionService F
  get_completion_service app = app.completion_service

  unfoldable pub get_rate_limiter : App F → TokenBucketRateLimiter
  get_rate_limiter app = app.rate_limiter

-- The requests of a history, from the start of the application on, with its averages.
unfoldable pub serve :
    {F : Type 0} ⦃fl : Float F⦄ → Host F → App F → Unicode → List (Choice F) → World F → Gateway F
unfolding get_completion_service get_rate_limiter
serve host app u cs w =
    run host (get_completion_service app) (get_rate_limiter app) u cs
      (opened (record w { latency = app.latency_tracker }))

-- At most six tries where `r + 1` is at most six.
six_tries : (x y n t r : ℕ) → r ≤ 5 → x ≤ y + n * (t * suc r) → x ≤ y + n * (t * 6)
six_tries x y n t r few h =
    let tries_le : suc r * t ≤ 6 * t = mul_le_of_le (suc r) 6 t (omega arith) in
    let all_le : t * suc r * n ≤ t * 6 * n =
      mul_le_of_le (t * suc r) (t * 6) n (grind (arith, tries_le)) in
    grind (arith, h, all_le)

module _ {F : Type 0} ⦃fl : Float F⦄ (u : Unicode) (host : Host F) (s : Settings F) where
  -- In the terms of the settings: what a client may use, and what all requests may cost.
  abbrev pub Serves : List (Provider F) → String → World F → Gateway F → Type 0
  Serves ps client w g =
      (let_in u client g.threads * (1_000_000 * s.rate_limit_refill_den)
        ≤ s.rate_limit_capacity * (1_000_000 * s.rate_limit_refill_den)
          + forward_run host w.tick g.world.tick * s.rate_limit_refill_num)
      × ((i : String)
          → calls i g.world
            ≤ calls i w + all_let_in g.threads * (tries i (routing_providers s ps) * 6))
      × (length g.world.rows ≤ length w.rows + all_let_in g.threads)

  app_of-Serves :
      (ps : List (Provider F)) (shared : Option SharedDatabase)
      → is_valid s ≡ true
      → IsRedis host
      → (client : String) (cs : List (Choice F)) (w : World F)
      → All (Comes (IsApart host u client)) cs
      → lookup (bucket_key host client) w.redis ≡ none
      → Serves ps client w (serve host (app_of s ps shared) u cs w)
  unfolding serve get_completion_service get_rate_limiter app_of router_of is_valid new_limiter
      calls
  app_of-Serves ps shared valid redis client cs w apart new =
      let app = app_of s ps shared in
      let start = record w { latency = app.latency_tracker } in
      let cost =
        λ (i : String). calls-le-let_in host app.completion_service app.rate_limiter u i cs start in
      (
        let_in-le host app.completion_service app.rate_limiter u redis
            (new_limiter-Lasts s.rate_limit_capacity s.rate_limit_refill_num s.rate_limit_refill_den
              (ground (arith, valid)))
            client cs start apart new,
        (λ i. six_tries _ _ _ _ s.provider_max_retries (ground (arith, valid)) (cost i).0),
        (cost "").1,
      )

  -- For an application that is built from valid settings: if Redis replies as documented, and no
  -- other client's key is the client's, which was not written yet, then however the requests of
  -- all clients overlap and whatever fails, no more requests of the client are let in than the
  -- configured capacity and refill allow in the time that Redis' clock ran forward. The providers
  -- of one identity are called at most six times for each of them that is routed and each request
  -- that was let in, and at most one row of metrics is written for each of these.
  pub create_app-Serves :
      (new_openai new_gemini : String → Client F) (make_url : String → Option Url)
      (render : Url → String) (given : Given) (providers : Option (List (Provider F))) (app : App F)
      → is_valid s ≡ true
      → create_app new_openai new_gemini make_url render u s given providers ≡ ok app
      → IsRedis host
      → (client : String) (cs : List (Choice F)) (w : World F)
      → All (Comes (IsApart host u client)) cs
      → lookup (bucket_key host client) w.redis ≡ none
      → Serves app.providers client w (serve host app u cs w)
  unfolding create_app app_of
  create_app-Serves new_openai new_gemini make_url render given providers app valid made redis
        client cs w apart new =
      let (ps, shared, same) = wired-app_of s _ _ made in
      subst (λ (a : App F). Serves a.providers client w (serve host a u cs w)) same
        (app_of-Serves ps shared valid redis client cs w apart new)
