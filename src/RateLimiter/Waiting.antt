-- ===== src/RateLimiter/Waiting.antt =====
-- A client that waits is admitted (app/services/rate_limiter.py).
use model_route.Base.{
  String, ℕ, ◌-◌, ◌*◌, ◌≤◌, ◌<◌, ◌≡◌, ap, ◌∙◌, true, false, Option, none, some, arith,
}
use model_route.RateLimiter.{TokenBucketRateLimiter, token, full, refilled, allow}
use model_route.RateLimiter.Admissions.{Tracks, allow_lem}
use model_route.RateLimiter.Bounds.{script_lem, refilled_lem}
use model_route.RateLimiter.Expiry.{Lasts, refilled_new}
use model_route.Redis.{IsRedis}
use model_route.Runtime.{Host, World, ok}

-- A client without a bucket need not wait; else a whole token has come back since the last call.
abbrev pub Waited : TokenBucketRateLimiter → ℕ → Option (ℕ × ℕ) → Type 0
Waited l now none = Unit
Waited l now (some (_, since)) = token l ≤ (now - since) * l.rate_num

token-le-full : (l : TokenBucketRateLimiter) → 0 < l.capacity → token l ≤ full l
token-le-full l h = grind (arith, h)

token-le-refilled :
    (l : TokenBucketRateLimiter) (now : ℕ) (b : Option (ℕ × ℕ))
    → 0 < l.capacity
    → Waited l now b
    → token l ≤ refilled l now b
token-le-refilled l now none h waited = omega (arith, refilled_new l now, token-le-full l h)
token-le-refilled l now (some (tokens, since)) h waited =
    omega (arith, refilled_lem l now tokens since, token-le-full l h, waited)

-- If Redis replies as documented, the time to live lasts until a bucket is full and the capacity is
-- not 0: a client whose bucket is new, or that has waited for one token since its last call, is admitted
-- while Redis answers, whatever it did before.
pub Waited-allow :
    {F : Type 0} (host : Host F) (l : TokenBucketRateLimiter)
    → IsRedis host
    → Lasts l
    → 0 < l.capacity
    → (client : String) (b : Option (ℕ × ℕ)) (w : World F) → host.redis_fails w.tick ≡ false
    → Tracks host l client b w
    → Waited l (host.redis_time w.tick) b
    → (allow host l client w).0 ≡ ok true
Waited-allow host l redis lasts positive client b w up t waited =
    let now = host.redis_time w.tick in
    let (decided, _, _) = allow_lem host l redis lasts client b w up t in
    let (admits, _, _) = script_lem l now b in
    decided ∙ ap ok (admits.1 (token-le-refilled l now b positive waited))
