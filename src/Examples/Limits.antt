-- ===== src/Examples/Limits.antt =====
-- The rate limiter, the cache and the exceptions on small inputs.
use model_route.Base.Dict.{lookup}
use model_route.Base.{
  All, String, ℕ, ◌≡◌, ◌⊎◌, ◌↔◌, refl, true, false, none, some, List, [], ◌∷◌, arith,
}
use model_route.Base.Float.{millionths}
use model_route.Cache
use model_route.Cache.{ResponseCache, build_key, identity_fields}
use model_route.Cache.Laws.{JsonLaws, CanonicalLaws, get-set, build_key_iff}
use model_route.RateLimiter.Waiting.{Waited-allow}
use model_route.Runtime.{bucket, redis_error}
use model_route.Errors.{
  Exception, gateway, rate_limiter_unavailable, provider_timeout_error, provider_rate_limit_error,
}
use model_route.Errors.Laws.{source_of, source_of_iff}
use model_route.Examples.{
  test_host-IsRedis, canonical, test_host, empty_world, answer, good_provider, test_generation,
}
use model_route.Providers.{GenerationRequest}
use model_route.RateLimiter.{
  TokenBucketRateLimiter, allow, token_bucket_script, refilled, bucket_key,
}
use model_route.RateLimiter.Admissions.{Tracks, allow_raises, served, times, served-eq_admitted}
use model_route.RateLimiter.Bounds.{admitted}
use model_route.RateLimiter.Expiry.{Lasts, script_expired}
use model_route.Runtime.{Host, World, ok, raise}

-- Two requests at once, one more every two seconds.
abbrev limiter : TokenBucketRateLimiter
limiter = record { capacity = 2; rate_num = 1; rate_den = 2; bucket_ttl_seconds = 60 }

limiter-Lasts : Lasts limiter
limiter-Lasts = omega arith

abbrev broken_host : Host ℕ
broken_host = record test_host { redis_fails = λ n. true }

abbrev clients : List String
clients = "ann" ∷ "bob" ∷ "ann" ∷ "ann" ∷ []

abbrev Apart : String → Type 0
Apart c = bucket_key test_host "ann" ≡ bucket_key test_host c → "ann" ≡ c

Apart-bob : Apart "bob"
unfolding bucket_key
Apart-bob e = cc

All-Apart : All Apart clients
All-Apart = ((λ e. refl), (Apart-bob, ((λ e. refl), ((λ e. refl), tt))))

ann_is_new : Tracks test_host limiter "ann" none empty_world
unfolding lookup
ann_is_new = refl

-- `ann` finds two tokens at 0 s, and half a token has come back at 3 s.
three_calls : (token_bucket_script limiter 3_000_000 (some (0, 2_000_000))).allowed ≡ false
unfolding token_bucket_script refilled
three_calls = refl

served-eq_admitted_example :
    served test_host limiter "ann" clients empty_world
    ≡ admitted limiter none (times test_host "ann" clients 0)
served-eq_admitted_example =
    served-eq_admitted test_host limiter test_host-IsRedis limiter-Lasts "ann" clients none
      empty_world All-Apart ann_is_new

abbrev unavailable : Exception
unavailable = gateway (rate_limiter_unavailable "Shared rate-limit enforcement is unavailable")

allow_raises_example : ((allow broken_host limiter "ann" empty_world).0 ≡ raise unavailable) ↔ (
    ((broken_host.redis_fails 0 ≡ true)
      ⊎ ((broken_host.redis_fails 0 ≡ false)
          × (broken_host.redis_hmget 0 (bucket_key broken_host "ann") [] ≡ redis_error)))
    × (unavailable ≡ unavailable))
allow_raises_example = allow_raises broken_host limiter "ann" empty_world unavailable

script_expired_example :
    token_bucket_script limiter 70_000_000 (some (5, 1_000_000))
    ≡ token_bucket_script limiter 70_000_000 none
script_expired_example = script_expired limiter limiter-Lasts 70_000_000 5 1_000_000 (omega arith)

json_laws : JsonLaws test_host answer
json_laws = record { loads-dumps = refl; text-str = λ s. refl; count-num = λ n. refl }

abbrev store : ResponseCache
store = record { ttl_seconds = 300 }

abbrev stored : World ℕ
stored = (Cache.set test_host store "key" answer empty_world).1

get-set_example :
    Cache.get test_host "key" (record stored { tick = 9 })
    ≡ (ok (some answer), record stored { tick = 10 })
get-set_example =
    get-set test_host store "key" answer empty_world (record stored { tick = 9 }) test_host-IsRedis
      json_laws refl refl refl (omega arith)

-- A request that differs in `max_tokens` only, of which this provider makes nothing.
abbrev longer_generation : GenerationRequest ℕ
longer_generation = record test_generation { max_tokens = 32 }

canonical_laws :
    CanonicalLaws test_host
      (identity_fields good_provider test_generation)
      (identity_fields good_provider longer_generation)
canonical_laws = record { str_inj = λ s t e. e; obj_iff = ((λ e key. refl), (λ e. refl)) }

build_key_iff_example :
    (build_key test_host good_provider test_generation
      ≡ build_key test_host good_provider longer_generation)
    ↔ ((good_provider.metadata.name ≡ good_provider.metadata.name)
        × (good_provider.metadata.model ≡ good_provider.metadata.model)
        × (test_generation.prompt ≡ longer_generation.prompt)
        × (canonical (good_provider.effective_parameters test_generation)
            ≡ canonical (good_provider.effective_parameters longer_generation)))
build_key_iff_example =
    build_key_iff test_host good_provider good_provider test_generation longer_generation
      canonical_laws (λ e. e)

abbrev word : String
word = "sdk_http"

source_of_iff_example :
    ((source_of (provider_timeout_error "a" "late" (some word)) ≡ some word)
      ↔ ((some word ≡ some word) × ((word ≡ "outer_asyncio") ⊎ (word ≡ "sdk_http"))))
    × ((source_of (provider_rate_limit_error "a" "late" (some word)) ≡ some word) ↔ (
        (some word ≡ some word)
        × ((word ≡ "daily_quota") ⊎ ((word ≡ "short_term") ⊎ (word ≡ "unknown_429")))))
source_of_iff_example = source_of_iff "a" "late" (some word) word

-- `ann` has spent her tokens at 2 s, and asks again at 9 s.
abbrev spent : World ℕ
spent = record empty_world {
  tick = 9;
  redis =
      ("modelroute:ratelimit:ann", record { value = bucket 0 2_000_000; expires_at = 62_000_000 })
      ∷ [];
}

ann_has_spent : Tracks test_host limiter "ann" (some (0, 2_000_000)) spent
unfolding lookup bucket_key
ann_has_spent = refl

Waited-allow_example : (allow test_host limiter "ann" spent).0 ≡ ok true
Waited-allow_example =
    Waited-allow test_host limiter test_host-IsRedis limiter-Lasts (omega arith) "ann"
      (some (0, 2_000_000)) spent refl ann_has_spent (omega arith)
