-- ===== src/Errors/Laws.antt =====
-- The failure sources that an exception of app/exceptions.py carries.
use model_route.Base.{String, ◌≡◌, ◌⊎◌, ◌↔◌, Option, none, some, arith, eq_iff}
use model_route.Errors.{
  ProviderError, timeout, rate_limit, provider_timeout_error, provider_rate_limit_error,
}

-- The source that a failure reports, if it reports one.
abbrev pub source_of : ProviderError → Option String
source_of (timeout _ _ s) = s
source_of (rate_limit _ _ s) = s
source_of _ = none

-- The exceptions report a source exactly if it was passed in and is one of the five fixed words,
-- two for a timeout and three for a rate limit.
pub source_of_iff :
    (provider message : String) (source : Option String) (s : String)
    → ((source_of (provider_timeout_error provider message source) ≡ some s)
        ↔ ((source ≡ some s) × ((s ≡ "outer_asyncio") ⊎ (s ≡ "sdk_http"))))
      × ((source_of (provider_rate_limit_error provider message source) ≡ some s) ↔ (
          (source ≡ some s) × ((s ≡ "daily_quota") ⊎ ((s ≡ "short_term") ⊎ (s ≡ "unknown_429")))))
unfolding provider_timeout_error provider_rate_limit_error
source_of_iff provider message none s = ((λ h. cc, λ h. cc), (λ h. cc, λ h. cc))
source_of_iff provider message (some t) s = (
  (
    λ h. ground (arith, eq_iff t "outer_asyncio", eq_iff t "sdk_http"),
    λ (h, k). ground (arith, eq_iff t "outer_asyncio", eq_iff t "sdk_http"),
  ),
  (
    λ h. ground (arith, eq_iff t "daily_quota", eq_iff t "short_term", eq_iff t "unknown_429"),
    λ (h, k). ground (arith, eq_iff t "daily_quota", eq_iff t "short_term", eq_iff t "unknown_429"),
  ),
)
