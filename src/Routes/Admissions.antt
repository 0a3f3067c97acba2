-- ===== src/Routes/Admissions.antt =====
-- A sequence of requests to app/api/routes.py: the limiter and the cache in one Redis, completions
-- in between.
use Prim.Native.String.{◌++◌ as ◌<>◌}
use text.Mathlib.TextEquality.{eq_iff}
use text.Mathlib.TextLemmas.{append_cancel_left, append_assoc, cons-append, head-eq_of_cons-eq}
use Prim.Native.Char.{code}
use model_route.Base.{
  String, ℕ, suc, ◌+◌, ◌*◌, ◌≤◌, ◌≡◌, ◌≢◌, inl, inr, refl, sym, ap, subst, ◌∙◌, Bool, true, false,
  ◌&&◌, not, none, some, Option, List, [], ◌∷◌, All, arith, str_eq, Bool-cases, if◌then◌else◌,
}
use model_route.Base.Dict.{lookup}
use model_route.Base.Float.{Float}
use model_route.Base.Unicode.{Unicode}
use model_route.Completion
use model_route.Completion.{CompletionService}
use model_route.Completion.Store.{NoCacheKey, complete-Keeps}
use model_route.Errors.{
  gateway, rate_limiter_unavailable, no_eligible_provider, all_providers_failed,
  metrics_unavailable, provider_error, value_error, validation_error, other,
}
use model_route.RateLimiter.{TokenBucketRateLimiter, token, full, bucket_key, allow}
use model_route.RateLimiter.Admissions.{
  Tracks, allow_lem, allow-Tracks_ne, allow_fails_closed, is_admitted,
}
use model_route.RateLimiter.Bounds.{after, admitted}
use model_route.RateLimiter.Burst.{forward_steps, admitted_new-le}
use model_route.RateLimiter.Expiry.{Lasts}
use model_route.Redis.{IsRedis}
use model_route.Routes.{
  Request, client_identity, after_allow, after_complete, create_completion, limited,
  complete_request,
}
use model_route.Runtime.{Host, World, Outcome, ok, raise}
use model_route.Schemas.{ChatCompletionRequest, ChatCompletionResponse}

-- A bucket is not kept under a key of the cache.
pub bucket_key-NoCacheKey :
    {F : Type 0} (host : Host F) (client : String) → NoCacheKey (bucket_key host client)
unfolding bucket_key
bucket_key-NoCacheKey host client s e =
    let rest : "ratelimit:" <> host.sha256_hex client ≡ "cache:" <> s =
      append_cancel_left "modelroute:" ("ratelimit:" <> host.sha256_hex client) ("cache:" <> s) (
        sym (append_assoc "modelroute:" "ratelimit:" (host.sha256_hex client))
        ∙ e
        ∙ append_assoc "modelroute:" "cache:" s) in
    let heads = head-eq_of_cons-eq (
      sym (cons-append "r" "atelimit:" (host.sha256_hex client))
      ∙ rest
      ∙ cons-append "c" "ache:" s) in
    ground (arith, ap code heads)

-- What the route gets: the HTTP request and its validated body.
abbrev pub Call : Type 0 → Type 0
Call F = Request × ChatCompletionRequest F

module _ {F : Type 0} ⦃fl : Float F⦄ (host : Host F) (service : CompletionService F)
    (l : TokenBucketRateLimiter) (u : Unicode) where
  -- The state after the route has answered.
  abbrev pub answered : Call F → World F → World F
  answered (r, body) w = (create_completion host service l u body r w).1

  -- The state in which the limiter is asked, after the clock.
  abbrev pub timed : World F → World F
  timed w = record w { tick = suc w.tick }

  after_complete-state :
      (out : Outcome (ChatCompletionResponse F)) (v : World F) → (after_complete out v).1 ≡ v
  unfolding after_complete
  after_complete-state out v = ground arith

  after_allow-lookup :
      (k : String)
      → NoCacheKey k
      → (body : ChatCompletionRequest F) (t : F) (x : Outcome Bool) (v : World F)
      → lookup k (after_allow host service l u body t x v).1.redis ≡ lookup k v.redis
  unfolding after_allow complete_request
  after_allow-lookup k apart body t (ok true) v =
      let (r, v') = Completion.complete host service u body (some t) v in
      ap (λ x. lookup k x.redis) (after_complete-state r v')
      ∙ complete-Keeps host service u body k apart (some t) v
  after_allow-lookup k apart body t (ok false) v = refl
  after_allow-lookup k apart body t (raise (gateway (rate_limiter_unavailable m))) v = refl
  after_allow-lookup k apart body t (raise (gateway (no_eligible_provider m))) v = refl
  after_allow-lookup k apart body t (raise (gateway (all_providers_failed m))) v = refl
  after_allow-lookup k apart body t (raise (gateway (metrics_unavailable m))) v = refl
  after_allow-lookup k apart body t (raise (gateway (provider_error x))) v = refl
  after_allow-lookup k apart body t (raise (value_error m)) v = refl
  after_allow-lookup k apart body t (raise validation_error) v = refl
  after_allow-lookup k apart body t (raise (other m)) v = refl

  -- Whatever the answer, the bucket of a client is what the limiter left.
  answered-lookup :
      (client : String) (r : Request) (body : ChatCompletionRequest F) (w : World F)
      → lookup (bucket_key host client) (answered (r, body) w).redis
        ≡ lookup (bucket_key host client) (allow host l (client_identity u r) (timed w)).1.redis
  unfolding create_completion limited
  answered-lookup client r body w =
      let (x, v) = allow host l (client_identity u r) (timed w) in
      after_allow-lookup (bucket_key host client) (bucket_key-NoCacheKey host client) body
        (host.perf_counter w.tick) x v

  -- How many of the client's requests are completed, and when those that Redis answers are made.
  unfoldable pub completions : String → List (Call F) → World F → ℕ
  completions client [] w = 0
  completions client (c ∷ cs) w =
      let rest = completions client cs (answered c w) in
      let asker = client_identity u c.0 in
      (if str_eq asker client && is_admitted (allow host l asker (timed w)).0 then 1 else 0) + rest

  unfoldable pub moments : String → List (Call F) → World F → List ℕ
  moments client [] w = []
  moments client (c ∷ cs) w =
      let rest = moments client cs (answered c w) in
      if str_eq (client_identity u c.0) client && not (host.redis_fails (suc w.tick))
      then host.redis_time (suc w.tick) ∷ rest
      else rest

  Tracks-same :
      (c d : String)
      → c ≡ d
      → (b : Option (ℕ × ℕ)) (w : World F) → Tracks host l c b w
      → Tracks host l d b w
  Tracks-same c d e b w t = subst (λ x. Tracks host l x b w) e t

  completions-eq_admitted :
      IsRedis host
      → Lasts l
      → (client : String) (cs : List (Call F)) (b : Option (ℕ × ℕ)) (w : World F)
      → All
          (λ c.
            bucket_key host client ≡ bucket_key host (client_identity u c.0)
            → client ≡ client_identity u c.0)
          cs
      → Tracks host l client b w
      → completions client cs w ≡ admitted l b (moments client cs w)
  unfolding completions moments admitted
  completions-eq_admitted redis lasts client [] b w apart t = refl
  completions-eq_admitted redis lasts client ((r, body) ∷ cs) b w apart t =
      let asker = client_identity u r in
      let left = answered-lookup client r body w in
      let go : (b' : Option (ℕ × ℕ))
          → Tracks host l client b' (allow host l asker (timed w)).1
          → completions client cs (answered (r, body) w)
            ≡ admitted l b' (moments client cs (answered (r, body) w)) =
        λ b' kept.
          completions-eq_admitted redis lasts client cs b' (answered (r, body) w) apart.1
            (left ∙ kept) in
      elim (Bool-cases (str_eq asker client)) [
        | inr foreign ↦
            let ne : bucket_key host client ≢ bucket_key host asker =
              λ e. cc ((eq_iff asker client).1 (sym (apart.0 e)), foreign) in
            let (kept, _) = allow-Tracks_ne host l client asker b (timed w) ne t in
            ground (arith, go b kept, foreign)
        | inl mine ↦
            let same = (eq_iff asker client).0 mine in
            elim (Bool-cases (host.redis_fails (suc w.tick))) [
              | inl down ↦
                  let failed = allow_fails_closed host l asker (timed w) down in
                  let kept : Tracks host l asker b (allow host l asker (timed w)).1 =
                    rw failed (Tracks-same client asker (sym same) b (timed w) t) in
                  let refused : is_admitted (allow host l asker (timed w)).0 ≡ false =
                    rw failed refl in
                  ground (arith, go b (Tracks-same asker client same b _ kept), mine, refused, down)
              | inr up ↦
                  let now = host.redis_time (suc w.tick) in
                  let (decided, kept, _) =
                    allow_lem host l redis lasts asker b (timed w) up
                      (Tracks-same client asker (sym same) b (timed w) t) in
                  let next = after l now b in
                  ground (
                    arith,
                    go next (Tracks-same asker client same next _ kept),
                    mine,
                    up,
                    ap is_admitted decided,
                  )
            ]
      ]

-- If Redis replies as documented, the time to live lasts until a bucket is full, and the keys of
-- other clients do not collide with the client's, which was not written yet: of any sequence of requests to the route, by any clients, with completions and cache
-- writes to the same Redis in between, no more requests of the client are completed than the
-- capacity and what the clock's forward steps between them refill.
pub completions-le :
    {F : Type 0} ⦃fl : Float F⦄ (host : Host F) (service : CompletionService F)
    (l : TokenBucketRateLimiter) (u : Unicode)
    → IsRedis host
    → Lasts l
    → (client : String) (cs : List (Call F)) (w : World F)
    → All
        (λ c.
          bucket_key host client ≡ bucket_key host (client_identity u c.0)
          → client ≡ client_identity u c.0)
        cs
    → lookup (bucket_key host client) w.redis ≡ none
    → completions host service l u client cs w * token l
      ≤ full l + forward_steps (moments host service l u client cs w) * l.rate_num
completions-le host service l u redis lasts client cs w apart new =
    rw (completions-eq_admitted host service l u redis lasts client cs none w apart new)
      (admitted_new-le l (moments host service l u client cs w))
