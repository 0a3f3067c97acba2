-- ===== src/Adapters/Openai.antt =====
-- app/providers/openai_provider.py
use model_route.Adapters.{
  api_timeout, builtin_timeout, rate_limited, authentication_failed, permission_denied, bad_request,
  internal_server, api_connection, api_status, SdkException, SdkReply, responded, sdk_raised,
  Client, text_or_empty, input_tokens_of, output_tokens_of, is_available, client_or_new,
}
use model_route.Base.{String, ℕ, Bool, ◌||◌, Option, none, some, leb, if◌then◌else◌}
use model_route.Errors.{
  unavailable, authentication, request, default_message, provider_timeout_error,
  provider_rate_limit_error,
}
use model_route.Json.{Json, num, str, obj, end, field}
use model_route.Providers.{
  GenerationRequest, Provider, ProviderMetadata, Reply, generated, failed, crashed,
}

module _ {F : Type 0} where
  unfoldable pub openai_parameters : GenerationRequest F → Json
  openai_parameters generation = obj (
      field "max_output_tokens" (num generation.max_tokens)
        (field "reasoning" (obj (field "effort" (str "low") end)) end))

-- The `except` clauses, in their order.
unfoldable pub openai_failure : SdkException → Reply
openai_failure exc =
    if exc.is_instance builtin_timeout || exc.is_instance api_timeout
    then failed (provider_timeout_error "openai" default_message none)
    else if exc.is_instance rate_limited
    then failed (provider_rate_limit_error "openai" default_message none)
    else if exc.is_instance authentication_failed || exc.is_instance permission_denied
    then failed (authentication "openai" default_message)
    else if exc.is_instance bad_request
    then failed (request "openai" default_message)
    else if exc.is_instance internal_server || exc.is_instance api_connection
    then failed (unavailable "openai" default_message)
    else if exc.is_instance api_status
    then (if leb 500 exc.status_code
        then failed (unavailable "openai" default_message)
        else failed (request "openai" default_message))
    else crashed exc.exception

module _ {F : Type 0} where
  unfoldable pub openai_reply : ProviderMetadata F → SdkReply → Reply
  unfolding text_or_empty input_tokens_of output_tokens_of openai_failure
  openai_reply metadata (responded response) = generated (record {
    content = text_or_empty response.output_text;
    provider = metadata.name;
    model = metadata.model;
    input_tokens = input_tokens_of response.usage;
    output_tokens = output_tokens_of response.usage;
  })
  openai_reply metadata (sdk_raised exc) = openai_failure exc

  unfoldable pub openai_generate :
      ProviderMetadata F → Option (Client F) → ℕ → GenerationRequest F → Reply
  unfolding openai_reply
  openai_generate metadata none n generation =
      failed (unavailable "openai" "OpenAI is not configured")
  openai_generate metadata (some client) n generation = openai_reply metadata (client n generation)

  unfoldable pub openai_metadata : Option String → String → F → F → Option Bool → ProviderMetadata F
  unfolding is_available
  openai_metadata api_key model input_cost_per_million output_cost_per_million available = record {
    name = "openai";
    model = model;
    available = is_available api_key available;
    input_cost_per_million = input_cost_per_million;
    output_cost_per_million = output_cost_per_million;
  }

  -- `OpenAIProvider(…)`; `new_client` stands for the SDK's constructor.
  unfoldable pub openai_provider :
      (String → Client F)
      → Option String
      → String
      → F
      → F
      → Option (Client F)
      → Option Bool
      → Provider F
  openai_provider new_client api_key model input_cost output_cost client available =
      let metadata = openai_metadata api_key model input_cost output_cost available in
      record {
        metadata = metadata;
        effective_parameters = openai_parameters;
        generate = openai_generate metadata (client_or_new new_client api_key client);
      }
