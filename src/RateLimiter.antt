-- ===== src/RateLimiter.antt =====
-- app/services/rate_limiter.py: a token bucket for each client, kept in Redis by a Lua script.
-- The script's numbers are taken exactly: times in microseconds, the refill rate as a fraction of
-- tokens a second, and tokens in units of one `1_000_000 * rate_den`-th of a token.
pub mod Bounds
pub mod Expiry
pub mod Admissions
pub mod Burst
pub mod Waiting
pub mod Credit
pub mod Bank
use Prim.Native.String.{◌++◌ as ◌<>◌}
use model_route.Base.{
  String, ℕ, ◌+◌, ◌-◌, ◌*◌, ◌/◌, min, max, Bool, true, false, not, Option, none, some, List, [],
  ◌∷◌, ltb, leb, ◌==◌, if◌then◌else◌,
}
use model_route.Errors.{Exception, gateway, rate_limiter_unavailable}
use model_route.Redis
use model_route.Runtime.{
  Host, World, Event, logged, LogLine, Response, response, redis_error, rate_limit_failed, Outcome,
  ok, raise, Action, ◌>>=◌, ◌>>◌, pure, throw, note, ask,
}

-- `TokenBucketRateLimiter`; `refill_rate` is `rate_num / rate_den`.
pub record TokenBucketRateLimiter : Type 0 where
  pub capacity : ℕ
  pub rate_num : ℕ
  pub rate_den : ℕ
  pub bucket_ttl_seconds : ℕ

-- `math.ceil(a / b)`
unfoldable pub ceil_div : ℕ → ℕ → ℕ
ceil_div a b = (a + b - 1) / b

-- `TokenBucketRateLimiter(capacity=capacity, refill_rate=num / den)`
unfoldable pub new_limiter : ℕ → ℕ → ℕ → TokenBucketRateLimiter
unfolding ceil_div
new_limiter capacity num den = record {
  capacity = capacity;
  rate_num = num;
  rate_den = den;
  bucket_ttl_seconds = max 60 (ceil_div (2 * capacity * den) num);
}

-- One token.
abbrev pub token : TokenBucketRateLimiter → ℕ
token l = 1_000_000 * l.rate_den

abbrev pub full : TokenBucketRateLimiter → ℕ
full l = l.capacity * token l

-- The script's decision, and the fields that it writes.
pub record Decision : Type 0 where
  pub allowed : Bool
  pub tokens : ℕ
  pub timestamp : ℕ

-- `if now < previous then previous = now end` and the refill.
unfoldable pub refill : TokenBucketRateLimiter → ℕ → ℕ → ℕ → ℕ
refill l now tokens previous =
    let since = if ltb now previous then now else previous in
    min (full l) (tokens + (now - since) * l.rate_num)

-- `tokens` after the refill, from the fields read: a new bucket is full, and begins now.
unfoldable pub refilled : TokenBucketRateLimiter → ℕ → Option (ℕ × ℕ) → ℕ
unfolding refill
refilled l now none = refill l now (full l) now
refilled l now (some (tokens, previous)) = refill l now tokens previous

unfoldable pub token_bucket_script : TokenBucketRateLimiter → ℕ → Option (ℕ × ℕ) → Decision
token_bucket_script l now state =
    let tokens = refilled l now state in
    if leb (token l) tokens
    then record { allowed = true; tokens = tokens - token l; timestamp = now }
    else record { allowed = false; tokens = tokens; timestamp = now }

-- A reply of Redis: an integer, a text, or nil.
pub data RedisReply : Type 0 where
  integer : ℕ → RedisReply
  bulk : String → RedisReply
  nothing : RedisReply

unavailable : Exception
unavailable = gateway (rate_limiter_unavailable "Shared rate-limit enforcement is unavailable")

module _ {F : Type 0} (host : Host F) where
  unfoldable pub bucket_key : String → String
  bucket_key client_identity = "modelroute:ratelimit:" <> host.sha256_hex client_identity

  -- `int(result[0])`; `none` is an `IndexError`, `TypeError` or `ValueError`.
  first_as_int : List RedisReply → Option ℕ
  first_as_int [] = none
  first_as_int (integer n ∷ rest) = some n
  first_as_int (bulk s ∷ rest) = host.parse_int s
  first_as_int (nothing ∷ rest) = none

  -- The script's `return {allowed, tostring(tokens)}`; the text plays no part.
  reply_of : Decision → List RedisReply
  reply_of d = integer (if d.allowed then 1 else 0) ∷ bulk "tokens" ∷ []

  -- The `except` clause.
  rate_limit_error : Action F Bool
  unfolding unavailable
  rate_limit_error = note (logged rate_limit_failed) >> throw unavailable

  admit : Option ℕ → Action F Bool
  unfolding rate_limit_error
  admit none = rate_limit_error
  admit (some n) = pure (not (n == 0))

  run_script : TokenBucketRateLimiter → String → ℕ → Response (Option (ℕ × ℕ)) → Action F Bool
  unfolding admit rate_limit_error first_as_int reply_of
  run_script l key now redis_error w = rate_limit_error w
  run_script l key now (response state) w =
      let d = token_bucket_script l now state in
      admit (first_as_int (reply_of d)) (record w {
        redis = Redis.hset_expire now key d.tokens d.timestamp l.bucket_ttl_seconds w.redis;
      })

  -- `redis.eval(…)` at the `n`-th request, unless the connection fails.
  eval_script : TokenBucketRateLimiter → String → ℕ → Action F Bool
  unfolding run_script rate_limit_error
  eval_script l key n w =
      if host.redis_fails n
      then rate_limit_error w
      else run_script l key (host.redis_time n) (host.redis_hmget n key w.redis) w

  unfoldable pub allow : TokenBucketRateLimiter → String → Action F Bool
  unfolding eval_script bucket_key
  allow l client_identity = do n ← ask (λ n. n); eval_script l (bucket_key client_identity) n
