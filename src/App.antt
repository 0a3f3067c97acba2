-- ===== src/App.antt =====
-- app/config.py and the wiring in app/main.py: what the settings may be, and the services that
-- `create_app` builds from them.
pub mod Laws
pub mod Lifespan
pub mod Serving
use model_route.Adapters.{Client}
use model_route.Adapters.Gemini.{gemini_provider}
use model_route.Adapters.Mock.{mock_provider}
use model_route.Adapters.Openai.{openai_provider}
use model_route.Base.{
  String, ℕ, Bool, true, false, not, ◌&&◌, ◌||◌, Option, none, some, List, [], ◌∷◌, ◌++◌, ltb, leb,
  str_eq, keep, if◌then◌else◌,
}
use model_route.Base.Float.{Float}
use model_route.Base.Unicode.{Unicode}
use model_route.Cache.{ResponseCache}
use model_route.Completion.{CompletionService}
use model_route.Database.{Database, Url, new_database}
use model_route.Latency.{LatencyTracker, new_tracker}
use model_route.Providers.{Provider}
use model_route.RateLimiter.{TokenBucketRateLimiter, new_limiter}
use model_route.Router.{ProviderRouter}
use model_route.Runtime.{Outcome, ok, raise}

pub data DefaultProvider : Type 0 where
  openai gemini mock : DefaultProvider

unfoldable pub default_name : DefaultProvider → String
default_name openai = "openai"
default_name gemini = "gemini"
default_name mock = "mock"

-- `Settings`, without the names and the URL of Redis. The refill rate is `rate_num / rate_den`; a secret is its
-- value.
pub record Settings (F : Type 0) : Type 0 where
  pub mock_model : String
  pub mock_provider_latency_ms : F
  pub openai_api_key : Option String
  pub openai_model : String
  pub gemini_api_key : Option String
  pub gemini_model : String
  pub default_provider : DefaultProvider
  pub provider_timeout_seconds : F
  pub provider_max_retries : ℕ
  pub provider_retry_delay_seconds : F
  pub database_url : String
  pub cache_ttl_seconds : ℕ
  pub rate_limit_capacity : ℕ
  pub rate_limit_refill_num : ℕ
  pub rate_limit_refill_den : ℕ
  pub openai_input_cost_per_million : F
  pub openai_output_cost_per_million : F
  pub gemini_input_cost_per_million : F
  pub gemini_output_cost_per_million : F
  pub initial_provider_latency_ms : F
  pub latency_ewma_alpha : F

module _ {F : Type 0} ⦃fl : Float F⦄ where
  -- `ge=0` and `gt=0`
  unfoldable pub is_nonnegative : F → Bool
  is_nonnegative x = not (fl.lt x (fl.of_nat 0))

  unfoldable pub is_positive : F → Bool
  is_positive x = fl.lt (fl.of_nat 0) x

  -- The bounds of the fields; other settings are refused when they are read.
  unfoldable pub is_valid : Settings F → Bool
  unfolding is_nonnegative is_positive
  is_valid s =
      is_nonnegative s.mock_provider_latency_ms
      && (is_positive s.provider_timeout_seconds
          && (leb s.provider_max_retries 5
              && (is_nonnegative s.provider_retry_delay_seconds
                  && (ltb 0 s.cache_ttl_seconds
                      && (ltb 0 s.rate_limit_capacity
                          && ((ltb 0 s.rate_limit_refill_num && ltb 0 s.rate_limit_refill_den)
                              && (is_nonnegative s.openai_input_cost_per_million
                                  && (is_nonnegative s.openai_output_cost_per_million
                                      && (is_nonnegative s.gemini_input_cost_per_million
                                          && (is_nonnegative s.gemini_output_cost_per_million
                                              && (is_positive s.initial_provider_latency_ms
                                                  && (is_positive s.latency_ewma_alpha
                                                      && not (
                                                          fl.lt (fl.of_nat 1)
                                                            s.latency_ewma_alpha)))))))))))))

  unfoldable pub sdk_providers :
      (String → Client F) → (String → Client F) → Settings F → List (Provider F)
  sdk_providers new_openai new_gemini s =
      openai_provider new_openai s.openai_api_key s.openai_model s.openai_input_cost_per_million
        s.openai_output_cost_per_million none none
      ∷ gemini_provider new_gemini s.gemini_api_key s.gemini_model s.gemini_input_cost_per_million
          s.gemini_output_cost_per_million none none
      ∷ []

  unfoldable pub with_mock : List (Provider F) → Outcome (Provider F) → Outcome (List (Provider F))
  with_mock others (ok p) = ok (others ++ p ∷ [])
  with_mock others (raise e) = raise e

  -- `_build_providers`; the two functions are the constructors of the SDKs' clients.
  unfoldable pub build_providers :
      Unicode → (String → Client F) → (String → Client F) → Settings F → Outcome (List (Provider F))
  unfolding with_mock sdk_providers
  build_providers u new_openai new_gemini s =
      with_mock (sdk_providers new_openai new_gemini s)
        (mock_provider u s.mock_model true (fl.of_nat 0) (fl.of_nat 0) s.mock_provider_latency_ms)

-- Which arguments of `create_app` are given.
pub record Given : Type 0 where
  pub redis_client : Bool
  pub database : Bool
  pub metrics_service : Bool

unfoldable pub owns_redis_client : Given → Bool
owns_redis_client given = not given.redis_client

unfoldable pub owns_database : Given → Bool
owns_database given = not given.database && not given.metrics_service

-- `shared_database is not None`
unfoldable pub has_database : Given → Bool
has_database given = given.database || not given.metrics_service

-- The database that the services share: the one that is given, or one of its own.
pub data SharedDatabase : Type 0 where
  given_database : SharedDatabase
  own_database : Database → SharedDatabase

-- `new_database` is what the constructor of `Database` replies; it is called only where no database
-- and no metrics service is given.
unfoldable pub shared_database : Given → Outcome Database → Outcome (Option SharedDatabase)
shared_database given new_database =
    if given.database
    then ok (some given_database)
    else if given.metrics_service
    then ok none
    else elim new_database [ ok d ↦ ok (some (own_database d)) | raise e ↦ raise e ]

-- The state of the application.
pub record App (F : Type 0) : Type 0 where
  pub providers : List (Provider F)
  pub latency_tracker : LatencyTracker F
  pub rate_limiter : TokenBucketRateLimiter
  pub completion_service : CompletionService F
  pub database : Option SharedDatabase

module _ {F : Type 0} where
  -- `providers or _build_providers(…)`
  unfoldable pub configured :
      Option (List (Provider F)) → Outcome (List (Provider F)) → Outcome (List (Provider F))
  configured none built = built
  configured (some []) built = built
  configured (some (p ∷ ps)) built = ok (p ∷ ps)

  unfoldable pub is_mock : Provider F → Bool
  is_mock p = str_eq p.metadata.name "mock"

  unfoldable pub routing_providers : Settings F → List (Provider F) → List (Provider F)
  unfolding keep is_mock
  routing_providers s ps =
      if str_eq (default_name s.default_provider) "mock" then keep is_mock ps else ps

  unfoldable pub router_of : Settings F → List (Provider F) → ProviderRouter F
  router_of s ps = record {
    providers = routing_providers s ps;
    default_provider = default_name s.default_provider;
    allow_mock = str_eq (default_name s.default_provider) "mock";
  }

  unfoldable pub app_of : Settings F → List (Provider F) → Option SharedDatabase → App F
  app_of s ps shared = record {
    providers = ps;
    latency_tracker = new_tracker s.latency_ewma_alpha s.initial_provider_latency_ms;
    rate_limiter =
        new_limiter s.rate_limit_capacity s.rate_limit_refill_num s.rate_limit_refill_den;
    completion_service = record {
      router = router_of s ps;
      cache = record { ttl_seconds = s.cache_ttl_seconds };
      max_retries = s.provider_max_retries;
      retry_delay_seconds = s.provider_retry_delay_seconds;
      has_metrics = true;
    };
    database = shared;
  }

  -- The providers are built first, then the database.
  unfoldable pub wired :
      Settings F → Outcome (List (Provider F)) → Outcome (Option SharedDatabase) → Outcome (App F)
  wired s (raise e) shared = raise e
  wired s (ok ps) (raise e) = raise e
  wired s (ok ps) (ok shared) = ok (app_of s ps shared)

-- `create_app`; the first four arguments are the libraries'.
unfoldable pub create_app :
    {F : Type 0} ⦃fl : Float F⦄
    → (String → Client F)
    → (String → Client F)
    → (String → Option Url)
    → (Url → String)
    → Unicode
    → Settings F
    → Given
    → Option (List (Provider F))
    → Outcome (App F)
unfolding wired
create_app new_openai new_gemini make_url render u s given providers =
    wired s (configured providers (build_providers u new_openai new_gemini s))
      (shared_database given (new_database u make_url render s.database_url))
