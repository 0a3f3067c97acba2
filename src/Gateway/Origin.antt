-- ===== src/Gateway/Origin.antt =====
-- Which request a reply answers, and where it comes from, when requests overlap (app/main.py,
-- app/api/routes.py, app/services/completion_service.py).
use model_route.Base.{
  ◌≡◌, ◌⊎◌, inl, inr, refl, sym, subst, Bool, true, false, Option, none, some, List, [], ◌∷◌, ◌++◌,
  append-nil, append_assoc, arith,
}
use model_route.Base.Float.{Float}
use model_route.Base.Unicode.{Unicode}
use model_route.Completion.{CompletionService}
use model_route.Completion.Tasks.Sources.{Answered, complete_task-Answered}
use model_route.Errors.{
  Exception, gateway, rate_limiter_unavailable, no_eligible_provider, all_providers_failed,
  metrics_unavailable, provider_error, value_error, validation_error, other,
}
use model_route.Gateway.{
  Phase, arrived, timed, running, answered, turned_away, Thread, Gateway, Choice, arrive, turn,
  decided, advance, run, happen, opened,
}
use model_route.Gateway.Threads.{Turned, here, there, turn-keeps}
use model_route.RateLimiter.{TokenBucketRateLimiter, allow}
use model_route.RateLimiter.Admissions.{allow_raises}
use model_route.Routes.{
  Request, HttpReply, completion, http_exception, client_identity, after_complete,
}
use model_route.Routes.Admissions.{Call}
use model_route.Runtime.{Host, World, Outcome, ok, raise}
use model_route.Schemas.{ChatCompletionRequest, ChatCompletionResponse}
use model_route.Tasks.{finished, piece}
use model_route.Tasks.Yielding.{IfOk, Yields}

-- The requests that come in, in their order.
unfoldable pub arrivals : {F : Type 0} → List (Choice F) → List (Call F)
arrivals [] = []
arrivals (arrive request body ∷ cs) = (request, body) ∷ arrivals cs
arrivals (turn i ∷ cs) = arrivals cs

module _ {F : Type 0} ⦃fl : Float F⦄ (host : Host F) (service : CompletionService F)
    (l : TokenBucketRateLimiter) (u : Unicode) where
  -- The reply to a request that was let in.
  abbrev pub Served : ChatCompletionRequest F → Outcome (HttpReply F) → Type 0
  Served body (ok (completion r)) = Answered host service u body r
  Served body (ok (http_exception code detail)) =
      (code ≡ 503) × (detail ≡ "No provider could fulfill the request")
  Served body (raise e) = Unit

  -- The reply to one that was not.
  abbrev pub Refused : Outcome (HttpReply F) → Type 0
  Refused (ok (completion r)) = ⊥
  Refused (ok (http_exception code detail)) =
      ((code ≡ 429) × (detail ≡ "Rate limit exceeded"))
      ⊎ ((code ≡ 503) × (detail ≡ "Rate limiter unavailable"))
  Refused (raise e) = ⊥

  -- How far the route is with this body.
  abbrev Owns : ChatCompletionRequest F → Phase F → Type 0
  Owns body (arrived b) = b ≡ body
  Owns body (timed b t) = b ≡ body
  Owns body (running t) = Yields (Answered host service u body) t
  Owns body (answered reply) = Served body reply
  Owns body (turned_away reply) = Refused reply

  decided-Owns :
      (body : ChatCompletionRequest F) (t : F) (x : Outcome Bool)
      → ((e : Exception)
          → x ≡ raise e
          → e ≡ gateway (rate_limiter_unavailable "Shared rate-limit enforcement is unavailable"))
      → Owns body (decided host service l u body t x)
  unfolding decided
  decided-Owns body t (ok true) h = complete_task-Answered host service u body (some t)
  decided-Owns body t (ok false) h = inl (refl, refl)
  decided-Owns body t (raise (gateway (rate_limiter_unavailable m))) h = inr (refl, refl)
  decided-Owns body t (raise (gateway (no_eligible_provider m))) h =
      absurd (ground (arith, h _ refl))
  decided-Owns body t (raise (gateway (all_providers_failed m))) h =
      absurd (ground (arith, h _ refl))
  decided-Owns body t (raise (gateway (metrics_unavailable m))) h =
      absurd (ground (arith, h _ refl))
  decided-Owns body t (raise (gateway (provider_error e))) h = absurd (ground (arith, h _ refl))
  decided-Owns body t (raise (value_error m)) h = absurd (ground (arith, h _ refl))
  decided-Owns body t (raise validation_error) h = absurd (ground (arith, h _ refl))
  decided-Owns body t (raise (other m)) h = absurd (ground (arith, h _ refl))

  after_complete-Served :
      (body : ChatCompletionRequest F) (out : Outcome (ChatCompletionResponse F)) (w : World F)
      → IfOk (Answered host service u body) out
      → Served body (after_complete out w).0
  unfolding after_complete
  after_complete-Served body (ok r) w from = from
  after_complete-Served body (raise (gateway (no_eligible_provider m))) w from = (refl, refl)
  after_complete-Served body (raise (gateway (all_providers_failed m))) w from = (refl, refl)
  after_complete-Served body (raise (gateway (rate_limiter_unavailable m))) w from = tt
  after_complete-Served body (raise (gateway (metrics_unavailable m))) w from = tt
  after_complete-Served body (raise (gateway (provider_error e))) w from = tt
  after_complete-Served body (raise (value_error m)) w from = tt
  after_complete-Served body (raise validation_error) w from = tt
  after_complete-Served body (raise (other m)) w from = tt

  abbrev Next : ChatCompletionRequest F → Option (Phase F × World F) → Type 0
  Next body none = Unit
  Next body (some (phase, w)) = Owns body phase

  advance-Next :
      (body : ChatCompletionRequest F) (request : Request) (phase : Phase F) (w : World F)
      → Owns body phase
      → Next body (advance host service l u request phase w)
  unfolding advance
  advance-Next body request (arrived b) w same = same
  advance-Next body request (timed b t) w same =
      let client = client_identity u request in
      subst (λ c. Owns body (decided host service l u c t (allow host l client w).0)) (sym same)
        (decided-Owns body t (allow host l client w).0
          (λ e h. ((allow_raises host l client w e).0 h).1))
  advance-Next body request (running (finished out)) w yields =
      after_complete-Served body out w yields
  advance-Next body request (running (piece change rest)) w yields = yields w
  advance-Next body request (answered reply) w served = tt
  advance-Next body request (turned_away reply) w refused = tt

  -- Each request that came in has its thread, of which this holds.
  abbrev pub Pairs :
      (ChatCompletionRequest F → Phase F → Type 0) → List (Call F) → List (Thread F) → Type 0
  Pairs P [] [] = Unit
  Pairs P ((request, body) ∷ calls) (t ∷ ts) =
      (t.request ≡ request) × P body t.phase × Pairs P calls ts
  Pairs P _ _ = ⊥

  Pairs-arrived :
      (request : Request) (body : ChatCompletionRequest F) (calls : List (Call F))
      (ts : List (Thread F))
      → Pairs Owns calls ts
      → Pairs Owns
          (calls ++ (request, body) ∷ [])
          (ts ++ record { request = request; phase = arrived body } ∷ [])
  Pairs-arrived request body [] [] pairs = (refl, refl, tt)
  Pairs-arrived request body [] (t ∷ ts) pairs = absurd pairs
  Pairs-arrived request body (c ∷ calls) [] pairs = absurd pairs
  Pairs-arrived request body (c ∷ calls) (t ∷ ts) (same, owns, pairs) =
      (same, owns, Pairs-arrived request body calls ts pairs)

  Turned-Pairs :
      (calls : List (Call F)) (ts ts' : List (Thread F)) (w w' : World F)
      → Turned host service l u ts w ts' w'
      → Pairs Owns calls ts
      → Pairs Owns calls ts'
  Turned-Pairs [] _ _ _ _ (here request phase phase' ts w w' e) pairs = absurd pairs
  Turned-Pairs [] _ _ _ _ (there t ts ts' w w' later) pairs = absurd pairs
  Turned-Pairs (c ∷ calls) _ _ _ _ (here request phase phase' ts w w' e) (same, owns, pairs) =
      (same, subst (Next c.1) e (advance-Next c.1 request phase w owns), pairs)
  Turned-Pairs (c ∷ calls) _ _ _ _ (there t ts ts' w w' later) (same, owns, pairs) =
      (same, owns, Turned-Pairs calls ts ts' w w' later pairs)

  run-Pairs :
      (cs : List (Choice F)) (before : List (Call F)) (g : Gateway F)
      → Pairs Owns before g.threads
      → Pairs Owns (before ++ arrivals cs) (run host service l u cs g).threads
  unfolding run arrivals happen
  run-Pairs [] before g pairs = rw (append-nil before) pairs
  run-Pairs (arrive request body ∷ cs) before g pairs =
      rw (← append_assoc before ((request, body) ∷ []) (arrivals cs)) (
        run-Pairs cs (before ++ (request, body) ∷ []) _
          (Pairs-arrived request body before g.threads pairs))
  run-Pairs (turn i ∷ cs) before g pairs = run-Pairs cs before _ (
      turn-keeps host service l u (λ w ts. Pairs Owns before ts)
        (λ ts ts' w w' turned. Turned-Pairs before ts ts' w w' turned) i g pairs)

  -- What is said of a reply.
  abbrev pub Belongs : ChatCompletionRequest F → Phase F → Type 0
  Belongs body (answered reply) = Served body reply
  Belongs body (turned_away reply) = Refused reply
  Belongs body _ = Unit

  Owns-Belongs :
      (body : ChatCompletionRequest F) (phase : Phase F) → Owns body phase → Belongs body phase
  Owns-Belongs body (arrived b) owns = tt
  Owns-Belongs body (timed b t) owns = tt
  Owns-Belongs body (running t) owns = tt
  Owns-Belongs body (answered reply) owns = owns
  Owns-Belongs body (turned_away reply) owns = owns

  Pairs-Belongs :
      (calls : List (Call F)) (ts : List (Thread F)) → Pairs Owns calls ts → Pairs Belongs calls ts
  Pairs-Belongs [] [] pairs = tt
  Pairs-Belongs [] (t ∷ ts) pairs = absurd pairs
  Pairs-Belongs (c ∷ calls) [] pairs = absurd pairs
  Pairs-Belongs (c ∷ calls) (t ∷ ts) (same, owns, pairs) =
      (same, Owns-Belongs c.1 t.phase owns, Pairs-Belongs calls ts pairs)

  -- However requests overlap and whatever fails, there is one thread for each request that came in,
  -- in that order, and no request gets the reply to another: a response has an id from `uuid4`, and
  -- it is what some eligible provider replied to this request, with `cache_hit` unset, or what the
  -- cache replied under the key of such a provider and this request, with `cache_hit` set. A
  -- request that was let in and has another reply has status 503, because no provider could serve,
  -- or an exception that the route does not handle. One that was not let in has 429, or 503 because
  -- the limiter is unavailable.
  pub run-Belongs :
      (cs : List (Choice F)) (w : World F)
      → Pairs Belongs (arrivals cs) (run host service l u cs (opened w)).threads
  run-Belongs cs w = Pairs-Belongs (arrivals cs) _ (run-Pairs cs [] (opened w) tt)
