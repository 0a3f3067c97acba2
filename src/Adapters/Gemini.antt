-- ===== src/Adapters/Gemini.antt =====
-- app/providers/gemini_provider.py
use model_route.Adapters.{
  api_timeout, builtin_timeout, rate_limited, authentication_failed, permission_denied, bad_request,
  unprocessable, internal_server, api_connection, api_status, SdkException, SdkReply, responded,
  sdk_raised, Client, text_or_empty, input_tokens_of, output_tokens_of, is_available, client_or_new,
}
use model_route.Base.{str_eq, String, ℕ, Bool, ◌||◌, Option, none, some, leb, if◌then◌else◌}
use model_route.Errors.{
  unavailable, authentication, request, default_message, provider_timeout_error,
  provider_rate_limit_error,
}
use model_route.Json.{Json, num, str, obj, end, field, get_field}
use model_route.Providers.{
  GenerationRequest, Provider, ProviderMetadata, Reply, generated, failed, crashed,
}

module _ {F : Type 0} where
  unfoldable pub gemini_parameters : GenerationRequest F → Json
  gemini_parameters generation = obj (
      field "max_output_tokens" (num generation.max_tokens)
        (field "thinking_level" (str "low") end))

-- `_RATE_LIMIT_SOURCES.get(code, "unknown_429")`
unfoldable pub source_of_code : Json → String
source_of_code (str code) =
    if str_eq code "quota_exceeded"
    then "daily_quota"
    else if str_eq code "rate_limit_exceeded"
    then "short_term"
    else "unknown_429"
source_of_code _ = "unknown_429"

unfoldable pub source_of_error : Json → String
unfolding source_of_code
source_of_error (obj error_body) = elim (get_field "code" error_body) [
  | none ↦ "unknown_429"
  | some code ↦ source_of_code code
]
source_of_error _ = "unknown_429"

unfoldable pub source_of_body : Json → String
unfolding source_of_error
source_of_body (obj body) = elim (get_field "error" body) [
  | none ↦ "unknown_429"
  | some error_body ↦ source_of_error error_body
]
source_of_body _ = "unknown_429"

-- `_rate_limit_source`
unfoldable pub rate_limit_source : Option Json → String
unfolding source_of_body
rate_limit_source none = "unknown_429"
rate_limit_source (some body) = source_of_body body

-- The `except` clauses, in their order.
unfoldable pub gemini_failure : SdkException → Reply
gemini_failure exc =
    if exc.is_instance api_timeout
    then failed (provider_timeout_error "gemini" default_message (some "sdk_http"))
    else if exc.is_instance builtin_timeout
    then failed (provider_timeout_error "gemini" default_message (some "outer_asyncio"))
    else if exc.is_instance rate_limited
    then failed
        (provider_rate_limit_error "gemini" default_message (some (rate_limit_source exc.body)))
    else if exc.is_instance authentication_failed || exc.is_instance permission_denied
    then failed (authentication "gemini" default_message)
    else if exc.is_instance bad_request || exc.is_instance unprocessable
    then failed (request "gemini" default_message)
    else if exc.is_instance internal_server || exc.is_instance api_connection
    then failed (unavailable "gemini" default_message)
    else if exc.is_instance api_status
    then (if leb 500 exc.status_code
        then failed (unavailable "gemini" default_message)
        else failed (request "gemini" default_message))
    else crashed exc.exception

module _ {F : Type 0} where
  unfoldable pub gemini_reply : ProviderMetadata F → SdkReply → Reply
  unfolding text_or_empty input_tokens_of output_tokens_of gemini_failure
  gemini_reply metadata (responded response) = generated (record {
    content = text_or_empty response.output_text;
    provider = metadata.name;
    model = metadata.model;
    input_tokens = input_tokens_of response.usage;
    output_tokens = output_tokens_of response.usage;
  })
  gemini_reply metadata (sdk_raised exc) = gemini_failure exc

  unfoldable pub gemini_generate :
      ProviderMetadata F → Option (Client F) → ℕ → GenerationRequest F → Reply
  unfolding gemini_reply
  gemini_generate metadata none n generation =
      failed (unavailable "gemini" "Gemini is not configured")
  gemini_generate metadata (some client) n generation = gemini_reply metadata (client n generation)

  unfoldable pub gemini_metadata : Option String → String → F → F → Option Bool → ProviderMetadata F
  unfolding is_available
  gemini_metadata api_key model input_cost_per_million output_cost_per_million available = record {
    name = "gemini";
    model = model;
    available = is_available api_key available;
    input_cost_per_million = input_cost_per_million;
    output_cost_per_million = output_cost_per_million;
  }

  -- `GeminiProvider(…)`; `new_client` stands for the SDK's constructor.
  unfoldable pub gemini_provider :
      (String → Client F)
      → Option String
      → String
      → F
      → F
      → Option (Client F)
      → Option Bool
      → Provider F
  gemini_provider new_client api_key model input_cost output_cost client available =
      let metadata = gemini_metadata api_key model input_cost output_cost available in
      record {
        metadata = metadata;
        effective_parameters = gemini_parameters;
        generate = gemini_generate metadata (client_or_new new_client api_key client);
      }
