-- ===== src/Adapters/Laws.antt =====
-- What the adapters of app/providers/ promise the completion service.
use model_route.Adapters.{
  api_timeout, builtin_timeout, rate_limited, authentication_failed, permission_denied, bad_request,
  unprocessable, internal_server, api_connection, api_status, SdkException, Client, is_available,
  has_key, client_of_key, client_or_new,
}
use model_route.Adapters.Gemini.{
  rate_limit_source, source_of_body, source_of_error, source_of_code, gemini_failure,
  gemini_parameters,
}
use model_route.Adapters.Openai.{openai_failure, openai_parameters}
use model_route.Adapters.Kinds.{
  kind_of, openai_kinds, gemini_kinds, first_kind, code_at, meaning_of, rate_limit_source_lem,
}
use model_route.Base.{
  String, ◌≡◌, ◌↔◌, inl, inr, refl, Bool, true, false, not, ◌||◌, ◌&&◌, Option, none, some, arith,
  leb, str_eq, if◌then◌else◌, Bool-cases, Option-cases,
}
use model_route.Errors.{
  Exception, is_safe_rate_limit_source, is_safe_timeout_source, only_safe, ProviderError, timeout,
  rate_limit, unavailable, authentication, request, retryable, provider_timeout_error,
  provider_rate_limit_error,
}
use model_route.Errors.Laws.{source_of}
use model_route.Json.{Json, obj, str, get_field}
use model_route.Providers.{GenerationRequest, Reply, failed, crashed}

-- The provider that an error names.
abbrev pub provider_of_error : ProviderError → String
provider_of_error (timeout p _ _) = p
provider_of_error (rate_limit p _ _) = p
provider_of_error (unavailable p _) = p
provider_of_error (authentication p _) = p
provider_of_error (request p _) = p

-- What a reply is: whose error, which other exception, whether it is retried, its source.
abbrev pub names_of : Reply → Option String
names_of (failed exc) = some (provider_of_error exc)
names_of _ = none

abbrev pub crash_of : Reply → Option Exception
crash_of (crashed e) = some e
crash_of _ = none

abbrev pub is_retried : Reply → Bool
is_retried (failed exc) = retryable exc
is_retried _ = false

abbrev pub reported_source : Reply → Option String
reported_source (failed exc) = source_of exc
reported_source _ = none

-- An instance of a class that both adapters name.
abbrev pub is_known : SdkException → Bool
is_known exc =
    exc.is_instance builtin_timeout
    || (exc.is_instance api_timeout
        || (exc.is_instance rate_limited
            || (exc.is_instance authentication_failed
                || (exc.is_instance permission_denied
                    || (exc.is_instance bad_request
                        || (exc.is_instance internal_server
                            || (exc.is_instance api_connection || exc.is_instance api_status)))))))

abbrev pub is_limit : SdkException → Bool
is_limit exc =
    exc.is_instance builtin_timeout || (exc.is_instance api_timeout || exc.is_instance rate_limited)

abbrev pub is_refusal : SdkException → Bool
is_refusal exc =
    exc.is_instance authentication_failed
    || (exc.is_instance permission_denied || exc.is_instance bad_request)

abbrev pub is_outage : SdkException → Bool
is_outage exc =
    exc.is_instance internal_server
    || (exc.is_instance api_connection || (exc.is_instance api_status && leb 500 exc.status_code))

-- An exception of the SDK becomes a timeout, a rate limit, a refusal of the key, a refusal of the
-- request or an outage, as the first of the classes says of which it is an instance, and names this
-- provider; any other passes. It is retried exactly if it is a timeout or a rate limit, or else no
-- refusal of the key or the request, and an outage of the server or the connection. No source is
-- reported.
pub openai_failure_lem :
    (exc : SdkException)
    → (kind_of (openai_failure exc) ≡ first_kind exc.is_instance (openai_kinds exc.status_code))
      × (names_of (openai_failure exc) ≡ (if is_known exc then some "openai" else none))
      × (crash_of (openai_failure exc) ≡ (if is_known exc then none else some exc.exception))
      × (is_retried (openai_failure exc)
          ≡ (is_limit exc || (not (is_refusal exc) && is_outage exc)))
      × (reported_source (openai_failure exc) ≡ none)
unfolding openai_failure provider_timeout_error provider_rate_limit_error retryable
openai_failure_lem exc = (ground arith, ground arith, ground arith, ground arith, ground arith)

-- The three words.
abbrev IsSafe : String → Type 0
IsSafe s = is_safe_rate_limit_source s ≡ true

source_of_code-IsSafe : (code : Json) → IsSafe (source_of_code code)
unfolding source_of_code is_safe_rate_limit_source
source_of_code-IsSafe (str code) = elim (Bool-cases (str_eq code "quota_exceeded")) [
  | inl quota ↦ rw quota refl
  | inr other ↦ elim (Bool-cases (str_eq code "rate_limit_exceeded")) [
    | inl rate ↦ rw (other, rate) refl
    | inr neither ↦ rw (other, neither) refl
  ]
]
source_of_code-IsSafe _ = refl

source_of_error-IsSafe : (error : Json) → IsSafe (source_of_error error)
unfolding source_of_error is_safe_rate_limit_source
source_of_error-IsSafe (obj fields) = elim (Option-cases (get_field "code" fields)) [
  | inl missing ↦ rw (missing, source_of_error) refl
  | inr (code, found) ↦ rw (found, source_of_error) (source_of_code-IsSafe code)
]
source_of_error-IsSafe _ = refl

source_of_body-IsSafe : (body : Json) → IsSafe (source_of_body body)
unfolding source_of_body is_safe_rate_limit_source
source_of_body-IsSafe (obj fields) = elim (Option-cases (get_field "error" fields)) [
  | inl missing ↦ rw (missing, source_of_body) refl
  | inr (error, found) ↦ rw (found, source_of_body) (source_of_error-IsSafe error)
]
source_of_body-IsSafe _ = refl

rate_limit_source-IsSafe : (body : Option Json) → IsSafe (rate_limit_source body)
unfolding rate_limit_source is_safe_rate_limit_source
rate_limit_source-IsSafe none = refl
rate_limit_source-IsSafe (some body) = source_of_body-IsSafe body

-- The source that a failure of Gemini reports.
abbrev pub gemini_source : SdkException → Option String
gemini_source exc =
    if exc.is_instance api_timeout
    then some "sdk_http"
    else if exc.is_instance builtin_timeout
    then some "outer_asyncio"
    else if exc.is_instance rate_limited
    then some (meaning_of (code_at exc.body))
    else none

-- An exception of the SDK becomes a timeout, a rate limit, a refusal of the key, a refusal of the
-- request or an outage, as the first of the classes says of which it is an instance, and names this
-- provider; any other passes. It is retried exactly if it is a timeout or a rate limit, or else no
-- refusal of the key or the request, and an outage of the server or the connection. Timeouts report
-- which limit was met, and rate limits what the code in the body says: the daily quota, a
-- short-term limit, or nothing known.
pub gemini_failure_lem :
    (exc : SdkException)
    → let known = is_known exc || exc.is_instance unprocessable in
      let refused = is_refusal exc || exc.is_instance unprocessable in
      (kind_of (gemini_failure exc) ≡ first_kind exc.is_instance (gemini_kinds exc.status_code))
      × (names_of (gemini_failure exc) ≡ (if known then some "gemini" else none))
      × (crash_of (gemini_failure exc) ≡ (if known then none else some exc.exception))
      × (is_retried (gemini_failure exc) ≡ (is_limit exc || (not refused && is_outage exc)))
      × (reported_source (gemini_failure exc) ≡ gemini_source exc)
unfolding gemini_failure provider_timeout_error provider_rate_limit_error retryable only_safe
    is_safe_timeout_source
gemini_failure_lem exc =
    let safe = rate_limit_source-IsSafe exc.body in
    let meant = rate_limit_source_lem exc.body in
    (ground arith, ground arith, ground arith, ground arith, ground (arith, safe, meant))

-- An adapter that says that it is available has a client, if that is left to its key.
pub client_or_new-available :
    {F : Type 0}
    → (new_client : String → Client F) (api_key : Option String) (client : Option (Client F))
    → is_available api_key none ≡ true
    → (c : Client F) × (client_or_new new_client api_key client ≡ some c)
unfolding is_available client_or_new client_of_key has_key
client_or_new-available new_client api_key (some client) h = (client, refl)
client_or_new-available new_client none none h = absurd (ground arith)
client_or_new-available new_client (some key) none h = (new_client key, ground arith)

-- The parameters that enter a cache key stand for the bound on the output alone: the temperature
-- plays no part.
pub parameters_iff :
    {F : Type 0}
    → (r s : GenerationRequest F)
    → ((openai_parameters r ≡ openai_parameters s) ↔ (r.max_tokens ≡ s.max_tokens))
      × ((gemini_parameters r ≡ gemini_parameters s) ↔ (r.max_tokens ≡ s.max_tokens))
unfolding openai_parameters gemini_parameters
parameters_iff r s = ((λ e. cc, λ e. cc), (λ e. cc, λ e. cc))
