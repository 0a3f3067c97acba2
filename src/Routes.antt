-- ===== src/Routes.antt =====
-- app/api/routes.py: who a client is, and the route `POST /v1/chat/completions`.
pub mod Laws
pub mod Admissions
use Prim.Native.String.{◌++◌ as ◌<>◌}
use model_route.Base.{String, ℕ, Bool, true, false, Option, none, some, str_eq, if◌then◌else◌}
use model_route.Base.Float.{Float}
use model_route.Base.Unicode.{Unicode, strip}
use model_route.Completion
use model_route.Completion.{CompletionService}
use model_route.Errors.{
  Exception, gateway, rate_limiter_unavailable, no_eligible_provider, all_providers_failed,
}
use model_route.RateLimiter.{TokenBucketRateLimiter, allow}
use model_route.Runtime.{Host, World, Outcome, ok, raise, Action, ◌>>=◌, pure, throw, ask}
use model_route.Schemas.{ChatCompletionRequest, ChatCompletionResponse}

-- What the route reads of the request: the header `X-Client-ID`, and the client's address.
pub record Request : Type 0 where
  pub client_id : Option String
  pub client_host : Option String

-- The answer: the response model with status 200, or an `HTTPException`.
pub data HttpReply (F : Type 0) : Type 0 where
  completion : ChatCompletionResponse F → HttpReply F
  http_exception : ℕ → String → HttpReply F

module _ (u : Unicode) where
  host_or_unknown : Option String → String
  host_or_unknown none = "unknown"
  host_or_unknown (some h) = h

  unfoldable pub ip_identity : Option String → String
  unfolding host_or_unknown
  ip_identity client_host = "ip:" <> u.casefold (host_or_unknown client_host)

  unfoldable pub identity_of : Option String → Option String → String
  unfolding ip_identity
  identity_of none client_host = ip_identity client_host
  identity_of (some supplied_id) client_host =
      if str_eq (strip u supplied_id) ""
      then ip_identity client_host
      else "client:" <> u.casefold (strip u supplied_id)

  unfoldable pub client_identity : Request → String
  unfolding identity_of
  client_identity request = identity_of request.client_id request.client_host

module _ {F : Type 0} where
  -- The second `try` statement.
  unfoldable pub after_complete : Outcome (ChatCompletionResponse F) → Action F (HttpReply F)
  after_complete (ok r) = pure (completion r)
  after_complete (raise (gateway (no_eligible_provider _))) =
      pure (http_exception 503 "No provider could fulfill the request")
  after_complete (raise (gateway (all_providers_failed _))) =
      pure (http_exception 503 "No provider could fulfill the request")
  after_complete (raise e) = throw e

module _ {F : Type 0} ⦃fl : Float F⦄ (host : Host F) (service : CompletionService F)
    (rate_limiter : TokenBucketRateLimiter) (u : Unicode)
    (completion_request : ChatCompletionRequest F) where
  unfoldable pub complete_request : F → Action F (HttpReply F)
  complete_request started_at w =
      let (r, w') = Completion.complete host service u completion_request (some started_at) w in
      after_complete r w'

  -- The first `try` statement, and `if not allowed`.
  unfoldable pub after_allow : F → Outcome Bool → Action F (HttpReply F)
  unfolding complete_request
  after_allow started_at (ok true) = complete_request started_at
  after_allow started_at (ok false) = pure (http_exception 429 "Rate limit exceeded")
  after_allow started_at (raise (gateway (rate_limiter_unavailable _))) =
      pure (http_exception 503 "Rate limiter unavailable")
  after_allow started_at (raise e) = throw e

  unfoldable pub limited : Request → F → Action F (HttpReply F)
  unfolding after_allow
  limited request started_at w =
      let (r, w') = allow host rate_limiter (client_identity u request) w in
      after_allow started_at r w'

  unfoldable pub create_completion : Request → Action F (HttpReply F)
  unfolding limited
  create_completion request = do started_at ← ask host.perf_counter; limited request started_at
