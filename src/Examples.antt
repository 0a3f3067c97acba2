-- ===== src/Examples.antt =====
-- A small deployment, on which the child modules run the program and apply the theorems.
mod Completions
mod Overlaps
mod Limits
mod Routing
mod Setup
mod Served
mod Reports
mod Runs
mod Metrics
use model_route.Base.{
  refl, str_lt, String, ℕ, ◌*◌, Bool, true, false, Option, none, some, List, [], ◌∷◌,
}
use model_route.Base.Float.{Float, millionths}
use model_route.Cache.{ResponseCache, payload_of}
use model_route.Completion.{CompletionService}
use model_route.Errors.{ProviderError, timeout, rate_limit}
use model_route.Json.{Json, num, str, null, obj, end}
use model_route.Latency.{LatencyTracker, new_tracker}
use model_route.Providers.{
  GenerationRequest, Provider, ProviderMetadata, ProviderResult, Reply, generated, failed,
}
use model_route.RateLimiter.{TokenBucketRateLimiter, new_limiter}
use model_route.Router.{ProviderRouter}
use model_route.Redis
use model_route.Redis.{IsRedis}
use model_route.Runtime.{Host, World, Decimal}
use model_route.Schemas.{ChatCompletionRequest, Strategy, fixed, fastest}

abbrev pub answer : ProviderResult
answer = record {
  content = "pong";
  provider = "b";
  model = "m";
  input_tokens = 2;
  output_tokens = 1;
}

abbrev pub texts : Json → Option String
texts (str s) = some s
texts _ = none

abbrev pub counts : Json → Option ℕ
counts (num n) = some n
counts _ = none

abbrev pub canonical : Json → String
canonical (str s) = s
canonical _ = "{}"

-- A host whose clocks run and whose services answer.
abbrev pub test_host : Host ℕ
test_host = record {
  perf_counter = λ n. n * 1_000;
  uuid4 = λ n. "request";
  redis_time = λ n. n * 1_000_000;
  redis_fails = λ n. false;
  redis_get = λ n key d. Redis.get (n * 1_000_000) key d;
  redis_hmget = λ n key d. Redis.hmget (n * 1_000_000) key d;
  database_time = λ n. n;
  database_fails = λ n. false;
  scan = λ n rows. rows;
  collates_before = λ a b. str_lt a b;
  sql_avg = λ xs. 0;
  percentile_cont = λ q xs. 0;
  sha256_hex = λ s. s;
  dumps_canonical = canonical;
  dumps = λ j. "{}";
  loads = λ s. some (payload_of answer);
  validate_text = texts;
  validate_count = counts;
  decimal_of = λ x. record { coefficient = x; scale = 6 };
  float_of = λ d. d.coefficient;
  parse_int = λ s. none;
}

-- A provider of the given name; its price is a tenth of a dollar for a million tokens.
abbrev pub provider_of : String → (ℕ → GenerationRequest ℕ → Reply) → Provider ℕ
provider_of name generate = record {
  metadata = record {
    name = name;
    model = "m";
    available = true;
    input_cost_per_million = 100_000;
    output_cost_per_million = 100_000;
  };
  effective_parameters = λ r. obj end;
  generate = generate;
}

-- One provider that always times out, and one that answers.
abbrev pub slow_provider : Provider ℕ
slow_provider = provider_of "a" (λ n r. failed (timeout "a" "Provider request failed" none))

abbrev pub good_provider : Provider ℕ
good_provider = provider_of "b" (λ n r. generated answer)

abbrev pub test_router : ProviderRouter ℕ
test_router = record {
  providers = good_provider ∷ slow_provider ∷ [];
  default_provider = "a";
  allow_mock = false;
}

abbrev pub test_service : CompletionService ℕ
test_service = record {
  router = test_router;
  cache = record { ttl_seconds = 300 };
  max_retries = 1;
  retry_delay_seconds = 50_000;
  has_metrics = true;
}

abbrev pub empty_world : World ℕ
empty_world = record {
  tick = 0;
  redis = [];
  rows = [];
  latency = record { alpha = 300_000; initial_latency_ms = 500_000_000; ewma_ms = [] };
  events = [];
}

abbrev pub test_request : ChatCompletionRequest ℕ
test_request = record { prompt = "ping"; strategy = fixed; temperature = 0; max_tokens = 16 }

abbrev pub test_generation : GenerationRequest ℕ
test_generation = record { prompt = "ping"; temperature = 0; max_tokens = 16 }

pub test_host-IsRedis : IsRedis test_host
test_host-IsRedis = record { get_lem = λ n key d. refl; hmget_lem = λ n key d. refl }
