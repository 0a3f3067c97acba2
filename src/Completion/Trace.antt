-- ===== src/Completion/Trace.antt =====
-- What the events of app/services/completion_service.py count.
use model_route.Base.{
  if◌then◌else◌, ◌+◌, ◌*◌, ◌∷◌, String, ℕ, suc, ◌⊎◌, inl, inr, refl, Option, none, some, ◌≡◌, Bool,
  true, false, arith, str_eq, count_if,
}
use model_route.Cache
use model_route.Cache.{ResponseCache, Cached, hit, unreadable, mistyped, decode, payload_of}
use model_route.Redis
use model_route.Errors.{validation_error}
use model_route.Providers.{ProviderResult}
use model_route.Runtime.{
  Response, response, redis_error, Host, World, Outcome, ok, raise, bind-ok, Action, ◌>>◌, Event,
  generate_called, slept, Writes, plain,
}

abbrev pub is_call : {F : Type 0} → String → Event F → Bool
is_call id (generate_called j) = str_eq id j
is_call id _ = false

abbrev pub is_sleep : {F : Type 0} → Event F → Bool
is_sleep (slept _) = true
is_sleep _ = false

-- The calls of `generate` at a provider, by identity, and the waits before a retry.
unfoldable pub calls : {F : Type 0} → String → World F → ℕ
unfolding count_if
calls id w = count_if (is_call id) w.events

unfoldable pub sleeps : {F : Type 0} → World F → ℕ
unfolding count_if
sleeps w = count_if is_sleep w.events

module _ {F : Type 0} (host : Host F) where
  -- A cache lookup calls no provider, waits for nothing, and leaves all state but the log alone.
  pub get-quiet :
      (key : String) (w : World F)
      → let w' = (Cache.get host key w).1 in
        ((id : String) → calls id w' ≡ calls id w)
        × (sleeps w' ≡ sleeps w)
        × (w'.rows ≡ w.rows)
        × (w'.latency ≡ w.latency)
        × (w'.redis ≡ w.redis)
        × (w'.tick ≡ suc w.tick)
  unfolding Cache.get calls sleeps
  get-quiet key w =
      ((λ id. ground arith), ground arith, ground arith, ground arith, ground arith, ground arith)

  pub set-quiet :
      (cache : ResponseCache) (key : String) (r : ProviderResult) (w : World F)
      → let w' = (Cache.set host cache key r w).1 in
        ((id : String) → calls id w' ≡ calls id w)
        × (sleeps w' ≡ sleeps w)
        × (w'.rows ≡ w.rows)
        × (w'.latency ≡ w.latency)
        × (w'.tick ≡ suc w.tick)
  unfolding Cache.set calls sleeps
  set-quiet cache key r w =
      ((λ id. ground arith), ground arith, ground arith, ground arith, ground arith)

  set-ok :
      (cache : ResponseCache) (key : String) (r : ProviderResult) (w : World F)
      → (Cache.set host cache key r w).0 ≡ ok tt
  unfolding Cache.set
  set-ok cache key r w = ground arith

  -- A cache write never raises, so what follows it runs.
  pub set_then :
      {A : Type 0} (cache : ResponseCache) (key : String) (r : ProviderResult) (next : Action F A)
      (w : World F)
      → (Cache.set host cache key r >> next) w ≡ next (Cache.set host cache key r w).1
  set_then cache key r next w =
      bind-ok (Cache.set host cache key r) (λ _. next) tt w (set-ok cache key r w)

  -- What is made of a text that the cache holds.
  abbrev Read : String → Outcome (Option ProviderResult) → Type 0
  Read s out =
      ((r : ProviderResult) × (decode host s ≡ hit r) × (out ≡ ok (some r)))
      ⊎ (((decode host s ≡ unreadable) × (out ≡ ok none))
          ⊎ ((decode host s ≡ mistyped) × (out ≡ raise validation_error)))

  -- What a lookup comes to, by the reply of Redis.
  abbrev pub Found : Response (Option String) → Outcome (Option ProviderResult) → Type 0
  Found redis_error out = out ≡ ok none
  Found (response none) out = out ≡ ok none
  Found (response (some s)) out = Read s out

  finish_get-Read :
      (s : String) (c : Cached) (v : World F)
      → decode host s ≡ c
      → Read s (Cache.finish_get host c v).0
  unfolding Cache.finish_get Cache.read_failed
  finish_get-Read s (hit r) v e = inl (r, e, refl)
  finish_get-Read s unreadable v e = inr (inl (e, refl))
  finish_get-Read s mistyped v e = inr (inr (e, refl))

  read_response-Found :
      (x : Response (Option String)) (v : World F) → Found x (Cache.read_response host x v).0
  unfolding Cache.read_response Cache.read_failed
  read_response-Found redis_error v = refl
  read_response-Found (response none) v = refl
  read_response-Found (response (some s)) v = finish_get-Read s (decode host s) v refl

  -- The reply to the lookup of a key: an error where the connection fails.
  abbrev pub redis_reply : String → World F → Response (Option String)
  redis_reply key w =
      if host.redis_fails w.tick then redis_error else host.redis_get w.tick key w.redis

  -- The writes after that of a result: the newest is of this key, with the text of the result, until
  -- the time to live has passed; none is added where the connection fails.
  abbrev pub written : ResponseCache → String → ProviderResult → World F → Writes
  written cache key r w =
      if host.redis_fails w.tick
      then w.redis
      else (
        key,
        record {
          value = plain (host.dumps (payload_of r));
          expires_at = host.redis_time w.tick + cache.ttl_seconds * 1_000_000;
        },
      )
        ∷ w.redis

  get-Found : (key : String) (w : World F) → Found (redis_reply key w) (Cache.get host key w).0
  unfolding Cache.get
  get-Found key w = read_response-Found _ (record w { tick = suc w.tick })

  -- What a lookup can come to, whatever the reply.
  abbrev pub Gets : Outcome (Option ProviderResult) → Type 0
  Gets out =
      (out ≡ ok none)
      ⊎ ((r : ProviderResult) × (s : String) × (decode host s ≡ hit r) × (out ≡ ok (some r)))
      ⊎ ((s : String) × (decode host s ≡ mistyped) × (out ≡ raise validation_error))

  Found-Gets :
      (x : Response (Option String)) (out : Outcome (Option ProviderResult))
      → Found x out
      → Gets out
  Found-Gets redis_error out e = inl e
  Found-Gets (response none) out e = inl e
  Found-Gets (response (some s)) out (inl (r, d, e)) = inr (inl (r, s, d, e))
  Found-Gets (response (some s)) out (inr (inl (d, e))) = inl e
  Found-Gets (response (some s)) out (inr (inr (d, e))) = inr (inr (s, d, e))

  pub get-Gets : (key : String) (w : World F) → Gets (Cache.get host key w).0
  get-Gets key w = Found-Gets (redis_reply key w) _ (get-Found key w)
