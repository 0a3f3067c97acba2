-- ===== src/Examples/Setup.antt =====
-- The adapters, the settings, the database URL and the request model on small inputs.
use mathlib.Core.List.{Mem, mem-cons_self}
use model_route.Adapters.{SdkClass, rate_limited, api_status, SdkException, Client, responded}
use model_route.Adapters.Gemini.{gemini_failure}
use model_route.Adapters.Kinds.{kind_of, first_kind, openai_kinds, gemini_kinds}
use model_route.Adapters.Laws.{
  names_of, crash_of, is_retried, reported_source, gemini_source, openai_failure_lem,
  gemini_failure_lem,
}
use model_route.Adapters.Openai.{openai_failure}
use model_route.App.{
  Settings, App, Given, openai, mock, is_valid, create_app, router_of, routing_providers,
  default_name,
}
use model_route.App.Lifespan.{Handle, Resource, failed, startup, shutdown}
use model_route.App.Lifespan.Laws.{Starts, same, made, lifespan_lem}
use model_route.App.Laws.{eligible-router_of, create_app_lem}
use model_route.Base.{
  ◌⊎◌, List, count_if, if◌then◌else◌, String, ℕ, suc, ◌≤◌, ◌≡◌, ◌↔◌, refl, Bool, true, false,
  Option, none, some, [], ◌∷◌, keep,
}
use model_route.Base.Dict.{Dict, lookup, remove}
use model_route.Base.Float.{millionths}
use model_route.Base.Unicode.{ascii, strip, strip_left, strip_right, is_empty}
use model_route.Database.{
  Url, prepare_database_connection, text_value, adapt, adapted, single_query_value, is_postgresql,
  with_values, checked, is_given, is_outside, is_value, is_ssl_mode, is_channel_binding_mode,
}
use model_route.Database.Laws.{OneOf, schemes, Single, Allowed, Adapted, adapt_lem}
use model_route.Errors.{Exception, other}
use model_route.Examples.{good_provider}
use model_route.Json.{obj, str, end, field}
use model_route.RateLimiter.Expiry.{Lasts}
use model_route.Router.{eligible_of, is_eligible}
use model_route.Runtime.{Outcome, raise, ok}
use model_route.Schemas.{
  ChatCompletionRequest, RequestBody, fixed, validate_request, prompt_of, strategy_of,
  temperature_of, max_tokens_of, in_range, assembled,
}
use model_route.Schemas.Laws.{IsRequest, validate_request-IsRequest}

-- A rate limit error, which is a status error too.
abbrev limit_classes : SdkClass → Bool
limit_classes rate_limited = true
limit_classes api_status = true
limit_classes _ = false

abbrev limit : SdkException
limit = record {
  is_instance = limit_classes;
  status_code = 429;
  body = some (obj (field "error" (obj (field "code" (str "quota_exceeded") end)) end));
  exception = other "RateLimitError";
}

openai_failure_lem_example :
    (kind_of (openai_failure limit) ≡ first_kind limit_classes (openai_kinds 429))
    × (names_of (openai_failure limit) ≡ some "openai")
    × (crash_of (openai_failure limit) ≡ none)
    × (is_retried (openai_failure limit) ≡ true)
    × (reported_source (openai_failure limit) ≡ none)
openai_failure_lem_example = openai_failure_lem limit

gemini_failure_lem_example :
    (kind_of (gemini_failure limit) ≡ first_kind limit_classes (gemini_kinds 429))
    × (names_of (gemini_failure limit) ≡ some "gemini")
    × (crash_of (gemini_failure limit) ≡ none)
    × (is_retried (gemini_failure limit) ≡ true)
    × (reported_source (gemini_failure limit) ≡ gemini_source limit)
gemini_failure_lem_example = gemini_failure_lem limit

abbrev pub silent : String → Client ℕ
silent key n r = responded (record { output_text = none; usage = none })

abbrev pub settings : Settings ℕ
settings = record {
  mock_model = "mock-model";
  mock_provider_latency_ms = 0;
  openai_api_key = some "key";
  openai_model = "m";
  gemini_api_key = none;
  gemini_model = "m";
  default_provider = openai;
  provider_timeout_seconds = 20_000_000;
  provider_max_retries = 1;
  provider_retry_delay_seconds = 250_000;
  database_url = "postgres://localhost/db";
  cache_ttl_seconds = 300;
  rate_limit_capacity = 20;
  rate_limit_refill_num = 1;
  rate_limit_refill_den = 1;
  openai_input_cost_per_million = 200_000;
  openai_output_cost_per_million = 1_200_000;
  gemini_input_cost_per_million = 750_000;
  gemini_output_cost_per_million = 3_750_000;
  initial_provider_latency_ms = 1_000_000_000;
  latency_ewma_alpha = 300_000;
}

pub settings_are_valid : is_valid settings ≡ true
unfolding is_valid
settings_are_valid = refl

abbrev url : Url
url = record {
  drivername = "postgres";
  query = ("sslmode", text_value "require") ∷ ("channel_binding", text_value "require") ∷ [];
  rest = "//localhost/db";
}

abbrev prepared : Url × Dict String
prepared = (
  record { drivername = "postgresql+asyncpg"; query = []; rest = "//localhost/db" },
  ("ssl", "require") ∷ [],
)

adapted_url : adapt ascii url ≡ ok prepared
unfolding adapt with_values checked adapted is_postgresql is_given is_outside is_value is_ssl_mode
    is_channel_binding_mode single_query_value lookup remove
adapted_url = refl

adapt_lem_example :
    OneOf schemes "postgres"
    × ((sslmode : Option String) × (ssl : Option String) × (channel_binding : Option String)
        × Single ascii (lookup "sslmode" url.query) sslmode
        × Single ascii (lookup "ssl" url.query) ssl
        × Single ascii (lookup "channel_binding" url.query) channel_binding
        × Allowed sslmode ssl channel_binding
        × Adapted url sslmode prepared.0 prepared.1)
adapt_lem_example = adapt_lem ascii url prepared adapted_url

-- No argument of `create_app` is given.
abbrev nothing_given : Given
nothing_given = record { redis_client = false; database = false; metrics_service = false }

-- What the parser and the printer reply here.
abbrev pub parse : String → Option Url
parse text = some url

abbrev pub print : Url → String
print parsed = parsed.drivername

create_app_lem_example :
    let out = create_app silent silent parse print ascii settings nothing_given none in
    ((app : App ℕ) × (out ≡ ok app)
      × Lasts app.rate_limiter
      × (suc app.completion_service.max_retries ≤ 6)
      × ((app.database ≡ none) ↔ ((false ≡ false) × (false ≡ true))))
    ⊎ ((e : Exception) × (false ≡ false)
        × (false ≡ false)
        × (prepare_database_connection ascii parse print settings.database_url ≡ raise e)
        × (out ≡ raise e))
create_app_lem_example =
    create_app_lem ascii silent silent parse print settings nothing_given none settings_are_valid

abbrev body : RequestBody ℕ
body = record {
  prompt = some " ping ";
  strategy = none;
  temperature = none;
  max_tokens = some 16;
  extra = false;
}

abbrev read_request : ChatCompletionRequest ℕ
read_request = record { prompt = "ping"; strategy = fixed; temperature = 200_000; max_tokens = 16 }

body_is_read : validate_request ascii body ≡ some read_request
unfolding validate_request prompt_of strategy_of temperature_of max_tokens_of in_range assembled
    strip strip_left strip_right is_empty
body_is_read = refl

validate_request-IsRequest_example : IsRequest ascii read_request
validate_request-IsRequest_example = validate_request-IsRequest ascii body read_request body_is_read

good_among : Mem good_provider (eligible_of (router_of settings (good_provider ∷ [])))
unfolding router_of routing_providers eligible_of is_eligible keep default_name
good_among = mem-cons_self

eligible-router_of_example :
    (good_provider.metadata.name ≡ "mock") ↔ (settings.default_provider ≡ mock)
eligible-router_of_example =
    eligible-router_of settings (good_provider ∷ []) good_provider good_among

-- One adapter has a key, one a client of its own, and one neither.
abbrev handles : List Handle
handles =
    record { client_given = false; has_api_key = true }
    ∷ record { client_given = true; has_api_key = true }
    ∷ record { client_given = false; has_api_key = false }
    ∷ []

abbrev closes : Resource → Outcome (Unit {0})
closes r = ok tt

lifespan_lem_example :
    let (closed, out) = shutdown closes nothing_given handles in
    Starts nothing_given
      (failed "OperationalError")
      (startup nothing_given (failed "OperationalError"))
    × (((out ≡ ok tt)
          × ((r : Resource)
              → count_if (same r) closed ≡ (if made nothing_given handles r then 1 else 0)))
        ⊎ ((x : Resource) × (e : Exception) × (closes x ≡ raise e)
            × (out ≡ raise e)
            × ((r : Resource)
                → count_if (same r) closed ≤ (if made nothing_given handles r then 1 else 0))))
lifespan_lem_example = lifespan_lem closes nothing_given handles (failed "OperationalError")
