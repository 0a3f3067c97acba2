-- ===== src/Examples/Completions.antt =====
-- Completions, routes and metrics on the small deployment.
use model_route.Base.{List, String, refl, ℕ, ◌≡◌, ◌↔◌, none, some, [], ◌∷◌, arith}
use model_route.Base.Float.{millionths}
use model_route.Base.Unicode.{ascii}
use model_route.Completion.{complete, attempts}
use model_route.Completion.Attempts.{Run, attempts_lem}
use model_route.Completion.Complete.{Completed, complete_lem, begun}
use model_route.Completion.Ends.{ClockRuns}
use model_route.Examples.{
  test_host, test_service, test_request, test_generation, empty_world, slow_provider, good_provider,
}
use model_route.Base.Sorting.{sorted}
use model_route.Cache
use model_route.Cache.Laws.{JsonLaws}
use model_route.Completion.{CompletionService}
use model_route.Completion.Repeat.{ServedFromCache, complete-set}
use model_route.Redis.{hset_expire}
use model_route.Router.{route, eligible_of, default_lt, candidates}
use model_route.Runtime.{World}
use model_route.Schemas.{strategy_value, fixed}
use model_route.Examples.{test_router, answer, test_host-IsRedis}
use text.Mathlib.TextLemmas.{append_cancel_left}
use model_route.Base.Dict.{lookup}
use model_route.RateLimiter.Expiry.{Lasts}
use model_route.Routes.Admissions.{Call}
use model_route.RateLimiter.{bucket_key, TokenBucketRateLimiter}
use model_route.Routes.{Request, client_identity, create_completion}
use model_route.Routes.Laws.{Answers, create_completion_lem, caller_of, client_identity_iff}

pub clock : (t since : ℕ) → ClockRuns test_host test_service t since
clock t since n later = ground arith

complete_lem_example :
    Completed test_host test_service ascii test_request "request" 0
      (begun test_host none empty_world)
      (complete test_host test_service ascii test_request none empty_world)
complete_lem_example =
    complete_lem test_host test_service ascii test_request none empty_world (clock 0 0)

attempts_lem_example :
    Run test_host test_service slow_provider test_generation 0 empty_world
      (attempts test_host test_service slow_provider test_generation 2 0 "none" empty_world)
attempts_lem_example =
    attempts_lem test_host test_service slow_provider test_generation "none" empty_world

abbrev pub visitor : Request
visitor = record { client_id = some " Ann "; client_host = some "10.0.0.1" }

abbrev pub stranger : Request
stranger = record { client_id = none; client_host = some "10.0.0.1" }

abbrev pub one_a_second : TokenBucketRateLimiter
one_a_second = record { capacity = 2; rate_num = 1; rate_den = 1; bucket_ttl_seconds = 60 }

create_completion_lem_example :
    Answers test_host test_service one_a_second ascii test_request visitor empty_world
      (create_completion test_host test_service one_a_second ascii test_request visitor empty_world)
create_completion_lem_example =
    create_completion_lem test_host test_service one_a_second ascii test_request visitor empty_world
      (clock 0 0)

client_identity_iff_example :
    (client_identity ascii visitor ≡ client_identity ascii stranger)
    ↔ (caller_of ascii (some " Ann ") (some "10.0.0.1") ≡ caller_of ascii none (some "10.0.0.1"))
client_identity_iff_example = client_identity_iff ascii visitor stranger

abbrev b_first : CompletionService ℕ
b_first = record test_service { router = record test_router { default_provider = "b" } }

abbrev cached_world : World ℕ
cached_world =
    (Cache.set test_host b_first.cache (Cache.build_key test_host good_provider test_generation)
      answer empty_world).1

-- The limiter has written the bucket of the client that asks again.
abbrev later_world : World ℕ
later_world = record cached_world {
  tick = 5;
  redis = hset_expire 4 "modelroute:ratelimit:client:ann" 1 4 60 cached_world.redis;
}

abbrev cached_key : String
cached_key = Cache.build_key test_host good_provider test_generation

kept_under_key : lookup cached_key later_world.redis ≡ lookup cached_key cached_world.redis
unfolding lookup hset_expire Cache.build_key
kept_under_key = refl

json_reads : JsonLaws test_host answer
json_reads = record { loads-dumps = refl; text-str = λ s. refl; count-num = λ n. refl }

b_is_first :
    route ascii b_first.router later_world.latency (strategy_value fixed) test_generation
    ≡ candidates (good_provider ∷ slow_provider ∷ [])
unfolding route eligible_of sorted default_lt strategy_value
b_is_first = refl

complete-set_example :
    ServedFromCache test_host b_first ascii test_request 0 good_provider answer later_world
      (complete test_host b_first ascii test_request (some 0) later_world)
complete-set_example =
    complete-set test_host b_first ascii test_request good_provider (slow_provider ∷ []) answer
      empty_world later_world 0 (clock 0 later_world.tick) test_host-IsRedis json_reads refl
      kept_under_key refl (omega arith) b_is_first

abbrev pub ann : String
ann = client_identity ascii visitor

abbrev calls_made : List (Call ℕ)
calls_made = (visitor, test_request) ∷ (stranger, test_request) ∷ []

abbrev IsApart : Call ℕ → Type 0
IsApart c =
    bucket_key test_host ann ≡ bucket_key test_host (client_identity ascii c.0)
    → ann ≡ client_identity ascii c.0

any_IsApart : (c : Call ℕ) → IsApart c
unfolding bucket_key
any_IsApart c e = append_cancel_left "modelroute:ratelimit:" ann (client_identity ascii c.0) e

pub ann_is_new : lookup (bucket_key test_host ann) empty_world.redis ≡ none
unfolding lookup
ann_is_new = refl

pub one_a_second-Lasts : Lasts one_a_second
one_a_second-Lasts = omega arith
