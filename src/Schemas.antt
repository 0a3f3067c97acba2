-- ===== src/Schemas.antt =====
-- app/api/schemas.py: the request and the response of a completion.
pub mod Laws
use model_route.Base.{Option, none, some, not, ◌&&◌, true, false, leb, str_eq, if◌then◌else◌}
use model_route.Base.Float.{Float}
use model_route.Base.Unicode.{Unicode, strip}
use model_route.Base.{String, ℕ, Bool}

pub data Strategy : Type 0 where
  fixed cheapest fastest : Strategy

-- The value of the `StrEnum`.
unfoldable pub strategy_value : Strategy → String
strategy_value fixed = "fixed"
strategy_value cheapest = "cheapest"
strategy_value fastest = "fastest"

pub record ChatCompletionRequest (F : Type 0) : Type 0 where
  pub prompt : String
  pub strategy : Strategy
  pub temperature : F
  pub max_tokens : ℕ

pub record ChatCompletionResponse (F : Type 0) : Type 0 where
  pub request_id : String
  pub provider : String
  pub model : String
  pub content : String
  pub input_tokens : ℕ
  pub output_tokens : ℕ
  pub latency_ms : F
  pub cache_hit : Bool
  pub fallback_used : Bool

-- A body whose fields have the right types; `extra` says that it has any field besides. A negative
-- `max_tokens`, which is below the bound, is left out.
pub record RequestBody (F : Type 0) : Type 0 where
  pub prompt : Option String
  pub strategy : Option String
  pub temperature : Option F
  pub max_tokens : Option ℕ
  pub extra : Bool

unfoldable pub strategy_of : Option String → Option Strategy
strategy_of none = some fixed
strategy_of (some s) =
    if str_eq s "fixed"
    then some fixed
    else if str_eq s "cheapest"
    then some cheapest
    else if str_eq s "fastest"
    then some fastest
    else none

-- `reject_blank_prompt`; the length of at least one is tested before.
unfoldable pub prompt_of : Unicode → Option String → Option String
prompt_of u none = none
prompt_of u (some value) =
    if str_eq value ""
    then none
    else if str_eq (strip u value) ""
    then none
    else some (strip u value)

-- The default is 512.
unfoldable pub max_tokens_of : Option ℕ → ℕ
max_tokens_of none = 512
max_tokens_of (some n) = n

module _ {F : Type 0} ⦃fl : Float F⦄ where
  -- The default is 0.2.
  unfoldable pub temperature_of : Option F → F
  temperature_of none = fl.div (fl.of_nat 1) (fl.of_nat 5)
  temperature_of (some t) = t

  unfoldable pub in_range : F → ℕ → Bool
  in_range temperature max_tokens =
      (not (fl.lt temperature (fl.of_nat 0)) && not (fl.lt (fl.of_nat 2) temperature))
      && (leb 1 max_tokens && leb max_tokens 8192)

  unfoldable pub assembled :
      Option String → Option Strategy → F → ℕ → Option (ChatCompletionRequest F)
  unfolding in_range
  assembled (some prompt) (some strategy) temperature max_tokens =
      if in_range temperature max_tokens
      then some (record {
        prompt = prompt;
        strategy = strategy;
        temperature = temperature;
        max_tokens = max_tokens;
      })
      else none
  assembled _ _ temperature max_tokens = none

  -- The request model on a body; `none` is status 422.
  unfoldable pub validate_request : Unicode → RequestBody F → Option (ChatCompletionRequest F)
  unfolding assembled
  validate_request u body =
      if body.extra
      then none
      else assembled (prompt_of u body.prompt) (strategy_of body.strategy)
          (temperature_of body.temperature) (max_tokens_of body.max_tokens)
