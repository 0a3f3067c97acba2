-- ===== src/RateLimiter/Admissions.antt =====
-- `allow` of app/services/rate_limiter.py over Redis, with expiry and other clients in between,
-- against a bucket of the client's own that never expires.

use text.Mathlib.TextEquality.{eq_iff}
use model_route.Base.{
  ◌∙◌, ◌↔◌, ◌⊎◌, String, ℕ, suc, ◌+◌, ◌*◌, ◌≤◌, ◌≡◌, refl, sym, ap, Bool, true, false, Option, none,
  some, List, [], ◌∷◌, ◌≢◌, ◌&&◌, not, All, arith, str_eq, str_eq_self, ltb, if◌then◌else◌,
  Bool-cases, inl, inr,
}
use model_route.Base.Dict.{lookup}
use model_route.Errors.{Exception, gateway, rate_limiter_unavailable}
use model_route.RateLimiter.{
  TokenBucketRateLimiter, token, full, token_bucket_script, bucket_key, allow,
}
use model_route.RateLimiter.Bounds.{after, admitted, script_lem}
use model_route.RateLimiter.Burst.{forward_steps, admitted_new-le}
use model_route.RateLimiter.Expiry.{Lasts, script_expired}
use model_route.Redis.{IsRedis, seconds, live, hmget, hset_expire}
use model_route.Runtime.{
  Host, World, Writes, response, redis_error, Entry, bucket, Outcome, ok, raise, logged,
  rate_limit_failed,
}

-- How Redis holds a bucket: it goes a time to live after its timestamp.
abbrev pub entry_of : TokenBucketRateLimiter → Option (ℕ × ℕ) → Option Entry
entry_of l none = none
entry_of l (some (tokens, since)) =
    some (record { value = bucket tokens since; expires_at = since + seconds l.bucket_ttl_seconds })

-- An admission, and not a refusal or an exception.
abbrev pub is_admitted : Outcome Bool → Bool
is_admitted (ok b) = b
is_admitted (raise _) = false

module _ {F : Type 0} (host : Host F) where
  -- The times of the client's requests that Redis answers, from the `n`-th request on.
  unfoldable pub times : String → List String → ℕ → List ℕ
  times client [] n = []
  times client (c ∷ cs) n =
      let rest = times client cs (suc n) in
      if str_eq c client && not (host.redis_fails n) then host.redis_time n ∷ rest else rest

module _ {F : Type 0} (host : Host F) (l : TokenBucketRateLimiter) where
  -- The newest write for the client is its bucket.
  abbrev pub Tracks : String → Option (ℕ × ℕ) → World F → Type 0
  Tracks client b w = lookup (bucket_key host client) w.redis ≡ entry_of l b

  -- What the script reads is decided on as the bucket without expiry is.
  reads_bucket :
      Lasts l
      → (key : String) (b : Option (ℕ × ℕ)) (d : Writes) (now : ℕ) → lookup key d ≡ entry_of l b
      → (state : Option (ℕ × ℕ)) × (hmget now key d ≡ response state)
        × (token_bucket_script l now state ≡ token_bucket_script l now b)
  unfolding hmget live
  reads_bucket lasts key none d now t = (none, ground arith, refl)
  reads_bucket lasts key (some (tokens, since)) d now t =
      elim (Bool-cases (ltb now (since + seconds l.bucket_ttl_seconds))) [
        | inl fresh ↦ (some (tokens, since), ground arith, refl)
        | inr gone ↦
            (none, ground arith, sym (script_expired l lasts now tokens since (ground arith)))
      ]

  -- A call on a bucket that the script can read.
  allow_reading :
      (client : String) (w : World F) (state : Option (ℕ × ℕ))
      → host.redis_fails w.tick ≡ false
      → host.redis_hmget w.tick (bucket_key host client) w.redis ≡ response state
      → let now = host.redis_time w.tick in
        let d = token_bucket_script l now state in
        allow host l client w ≡ (
          ok d.allowed,
          record w {
            tick = suc w.tick;
            redis =
                hset_expire now
                  (bucket_key host client)
                  d.tokens
                  d.timestamp
                  l.bucket_ttl_seconds
                  w.redis;
          },
        )
  unfolding allow
  allow_reading client w state up read = ground arith

  -- If Redis replies as documented and the time to live lasts until a bucket is full: while Redis
  -- answers, a call decides as the script does on the bucket without expiry, and the newest write
  -- is that bucket afterwards.
  pub allow_lem :
      IsRedis host
      → Lasts l
      → (client : String) (b : Option (ℕ × ℕ)) (w : World F) → host.redis_fails w.tick ≡ false
      → Tracks client b w
      → let now = host.redis_time w.tick in
        let (r, w') = allow host l client w in
        (r ≡ ok (token_bucket_script l now b).allowed)
        × Tracks client (after l now b) w'
        × (w'.tick ≡ suc w.tick)
  unfolding hset_expire lookup
  allow_lem redis lasts client b w up t =
      let now = host.redis_time w.tick in
      let key = bucket_key host client in
      let (state, read, same) = reads_bucket lasts key b w.redis now t in
      let (_, _, stamped) = script_lem l now b in
      let answered = redis.hmget_lem w.tick key w.redis ∙ read in
      rw (allow_reading client w state up answered, same)
        (refl, rw (str_eq_self, stamped) refl, refl)

  -- When Redis fails, the call raises, changes no bucket and writes one line to the log.
  pub allow_fails_closed :
      (client : String) (w : World F)
      → host.redis_fails w.tick ≡ true
      → allow host l client w ≡ (
        raise (gateway (rate_limiter_unavailable "Shared rate-limit enforcement is unavailable")),
        record w { tick = suc w.tick; events = logged rate_limit_failed ∷ w.events },
      )
  unfolding allow
  allow_fails_closed client w down = ground arith

  -- A call raises exactly if Redis fails, or the client's key holds something else than a bucket,
  -- and then it raises that the limiter is unavailable.
  pub allow_raises :
      (client : String) (w : World F) (e : Exception)
      → ((allow host l client w).0 ≡ raise e) ↔ (
          ((host.redis_fails w.tick ≡ true)
            ⊎ ((host.redis_fails w.tick ≡ false)
                × (host.redis_hmget w.tick (bucket_key host client) w.redis ≡ redis_error)))
          × (e ≡ gateway (rate_limiter_unavailable "Shared rate-limit enforcement is unavailable")))
  unfolding allow
  allow_raises client w e = ground arith

  -- A call for a client of another key leaves the bucket alone.
  pub allow-Tracks_ne :
      (client client' : String) (b : Option (ℕ × ℕ)) (w : World F)
      → bucket_key host client ≢ bucket_key host client'
      → Tracks client b w
      → Tracks client b (allow host l client' w).1 × ((allow host l client' w).1.tick ≡ suc w.tick)
  unfolding allow hset_expire lookup
  allow-Tracks_ne client client' b w ne t =
      let key = bucket_key host client in
      let key' = bucket_key host client' in grind (arith, eq_iff key key')

  -- The requests of any clients one after another: how many of the client's are admitted.
  unfoldable pub served : String → List String → World F → ℕ
  served client [] w = 0
  served client (c ∷ cs) w =
      let (r, w') = allow host l c w in
      (if str_eq c client && is_admitted r then 1 else 0) + served client cs w'

  -- If Redis replies as documented and the time to live lasts until a bucket is full:
  -- whatever other clients do, unless their keys collide with the client's, and whatever Redis
  -- drops when a time to live is over or fails to answer, as many requests of the client are
  -- admitted as by a bucket of its own that never expires, at the times of the requests answered.
  pub served-eq_admitted :
      IsRedis host
      → Lasts l
      → (client : String) (cs : List String) (b : Option (ℕ × ℕ)) (w : World F)
      → All (λ c. bucket_key host client ≡ bucket_key host c → client ≡ c) cs
      → Tracks client b w
      → served client cs w ≡ admitted l b (times host client cs w.tick)
  unfolding served times admitted
  served-eq_admitted redis lasts client [] b w apart t = refl
  served-eq_admitted redis lasts client (c ∷ cs) b w apart t = elim (Bool-cases (str_eq c client)) [
    | inr other ↦
        let ne : bucket_key host client ≢ bucket_key host c =
          λ e. cc ((eq_iff c client).1 (sym (apart.0 e)), other) in
        let (kept, next) = allow-Tracks_ne client c b w ne t in
        let rest = served-eq_admitted redis lasts client cs b (allow host l c w).1 apart.1 kept in
        ground (arith, rest)
    | inl mine ↦ rw ((eq_iff c client).0 mine) (elim (Bool-cases (host.redis_fails w.tick)) [
      | inl down ↦
          let failed = allow_fails_closed client w down in
          let kept : Tracks client b (allow host l client w).1 = rw failed t in
          let next : (allow host l client w).1.tick ≡ suc w.tick = rw failed refl in
          let rest : served client cs (allow host l client w).1
              ≡ admitted l b (times host client cs (suc w.tick)) =
            rw (← next)
              (served-eq_admitted redis lasts client cs b (allow host l client w).1 apart.1 kept) in
          let refused : is_admitted (allow host l client w).0 ≡ false = rw failed refl in
          ground (arith, rest, refused, str_eq_self client)
      | inr up ↦
          let now = host.redis_time w.tick in
          let (decided, kept, next) = allow_lem redis lasts client b w up t in
          let rest : served client cs (allow host l client w).1
              ≡ admitted l (after l now b) (times host client cs (suc w.tick)) =
            rw (← next) (
              served-eq_admitted redis lasts client cs (after l now b) (allow host l client w).1
                apart.1 kept) in
          ground (arith, rest, ap is_admitted decided, str_eq_self client)
    ])
  ]

-- If Redis replies as documented and the time to live lasts until a bucket is full:
-- requests of one client whose key was not written yet, among those of others: no more are
-- admitted than the capacity and what the clock's forward steps between them refill, unless the
-- client's key collides with another's.
pub served-le :
    {F : Type 0} (host : Host F) (l : TokenBucketRateLimiter)
    → IsRedis host
    → Lasts l
    → (client : String) (cs : List String) (w : World F)
    → All (λ c. bucket_key host client ≡ bucket_key host c → client ≡ c) cs
    → lookup (bucket_key host client) w.redis ≡ none
    → served host l client cs w * token l
      ≤ full l + forward_steps (times host client cs w.tick) * l.rate_num
served-le host l redis lasts client cs w apart t =
    rw (served-eq_admitted host l redis lasts client cs none w apart t)
      (admitted_new-le l (times host client cs w.tick))
