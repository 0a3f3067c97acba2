-- ===== src/Providers.antt =====
-- app/providers/base.py: what every provider adapter has.
use model_route.Base.{String, ℕ, Bool}
use model_route.Errors.{ProviderError, Exception}
use model_route.Json.{Json}
use Prim.Native.String.{◌++◌ as ◌<>◌}

pub record GenerationRequest (F : Type 0) : Type 0 where
  pub prompt : String
  pub temperature : F
  pub max_tokens : ℕ

pub record ProviderMetadata (F : Type 0) : Type 0 where
  pub name : String
  pub model : String
  pub available : Bool
  pub input_cost_per_million : F
  pub output_cost_per_million : F

-- `f"{self.name}:{self.model}"`
unfoldable pub identity : {F : Type 0} → ProviderMetadata F → String
identity m = m.name <> (":" <> m.model)

pub record ProviderResult : Type 0 where
  pub content : String
  pub provider : String
  pub model : String
  pub input_tokens : ℕ
  pub output_tokens : ℕ

-- How a call of `generate` ends: with a result, a `ProviderError`, or another exception.
pub data Reply : Type 0 where
  generated : ProviderResult → Reply
  failed : ProviderError → Reply
  crashed : Exception → Reply

-- A subclass of `BaseProvider`. `generate` is given the number of the call among all that the
-- process makes to the outside, so that its reply may change from call to call.
pub record Provider (F : Type 0) : Type 0 where
  pub metadata : ProviderMetadata F
  pub effective_parameters : GenerationRequest F → Json
  pub generate : ℕ → GenerationRequest F → Reply
