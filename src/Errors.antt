-- ===== src/Errors.antt =====
-- The exceptions of app/exceptions.py, and those of the libraries that pass through the services.
pub mod Laws
use model_route.Base.{String, Bool, true, false, ◌||◌, Option, none, some, str_eq, if◌then◌else◌}

-- The subclasses of `ProviderError`; the first field is `provider`, the second the message.
pub data ProviderError : Type 0 where
  timeout : String → String → Option String → ProviderError
  rate_limit : String → String → Option String → ProviderError
  unavailable : String → String → ProviderError
  authentication : String → String → ProviderError
  request : String → String → ProviderError

-- `GatewayError` and its direct subclasses.
pub data GatewayError : Type 0 where
  no_eligible_provider : String → GatewayError
  all_providers_failed : String → GatewayError
  rate_limiter_unavailable : String → GatewayError
  metrics_unavailable : String → GatewayError
  provider_error : ProviderError → GatewayError

-- What a call can raise: an expected failure, an exception of the language or of a library.
pub data Exception : Type 0 where
  gateway : GatewayError → Exception
  value_error : String → Exception
  validation_error : Exception
  other : String → Exception

abbrev pub default_message : String
default_message = "Provider request failed"

unfoldable pub is_safe_timeout_source : String → Bool
is_safe_timeout_source s = str_eq s "outer_asyncio" || str_eq s "sdk_http"

unfoldable pub is_safe_rate_limit_source : String → Bool
is_safe_rate_limit_source s =
    str_eq s "daily_quota" || (str_eq s "short_term" || str_eq s "unknown_429")

-- `source if source in SAFE else None`
unfoldable pub only_safe : (String → Bool) → Option String → Option String
only_safe safe none = none
only_safe safe (some s) = if safe s then some s else none

-- `ProviderTimeoutError(provider, message, timeout_source=source)`
unfoldable pub provider_timeout_error : String → String → Option String → ProviderError
unfolding only_safe is_safe_timeout_source
provider_timeout_error provider message source =
    timeout provider message (only_safe is_safe_timeout_source source)

-- `ProviderRateLimitError(provider, message, rate_limit_source=source)`
unfoldable pub provider_rate_limit_error : String → String → Option String → ProviderError
unfolding only_safe is_safe_rate_limit_source
provider_rate_limit_error provider message source =
    rate_limit provider message (only_safe is_safe_rate_limit_source source)

-- The class attribute `retryable`.
unfoldable pub retryable : ProviderError → Bool
retryable (timeout _ _ _) = true
retryable (rate_limit _ _ _) = true
retryable (unavailable _ _) = true
retryable (authentication _ _) = false
retryable (request _ _) = false

-- `type(exc).__name__`
unfoldable pub type_name : ProviderError → String
type_name (timeout _ _ _) = "ProviderTimeoutError"
type_name (rate_limit _ _ _) = "ProviderRateLimitError"
type_name (unavailable _ _) = "ProviderUnavailableError"
type_name (authentication _ _) = "ProviderAuthenticationError"
type_name (request _ _) = "ProviderRequestError"
