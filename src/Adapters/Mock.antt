-- ===== src/Adapters/Mock.antt =====
-- app/providers/mock_provider.py
use Prim.Native.String.{◌++◌ as ◌<>◌}
use model_route.Base.{String, Bool, if◌then◌else◌}
use model_route.Base.Float.{Float}
use model_route.Base.Unicode.{Unicode, strip}
use model_route.Errors.{value_error}
use model_route.Json.{Json, obj, end}
use model_route.Providers.{GenerationRequest, Provider, ProviderMetadata, ProviderResult, generated}
use model_route.Router.{approximate_token_count}
use model_route.Runtime.{Outcome, ok, raise}

module _ {F : Type 0} where
  -- The result of `generate`; the wait before it changes nothing.
  unfoldable pub mock_result : Unicode → ProviderMetadata F → GenerationRequest F → ProviderResult
  mock_result u metadata request =
      let normalized_prompt = strip u request.prompt in
      let content = "Mock response: " <> normalized_prompt in
      record {
        content = content;
        provider = metadata.name;
        model = metadata.model;
        input_tokens = approximate_token_count u normalized_prompt;
        output_tokens = approximate_token_count u content;
      }

  unfoldable pub mock_metadata : String → Bool → F → F → ProviderMetadata F
  mock_metadata model available input_cost_per_million output_cost_per_million = record {
    name = "mock";
    model = model;
    available = available;
    input_cost_per_million = input_cost_per_million;
    output_cost_per_million = output_cost_per_million;
  }

  mock_parameters : GenerationRequest F → Json
  mock_parameters request = obj end

  unfoldable pub mock_of : Unicode → ProviderMetadata F → Provider F
  unfolding mock_parameters
  mock_of u metadata = record {
    metadata = metadata;
    effective_parameters = mock_parameters;
    generate = λ n request. generated (mock_result u metadata request);
  }

-- `MockProvider(…)`
unfoldable pub mock_provider :
    {F : Type 0} ⦃fl : Float F⦄ → Unicode → String → Bool → F → F → F → Outcome (Provider F)
mock_provider ⦃fl⦄ u model available input_cost output_cost latency_ms =
    if fl.lt latency_ms (fl.of_nat 0)
    then raise (value_error "latency_ms must be non-negative")
    else ok (mock_of u (mock_metadata model available input_cost output_cost))
