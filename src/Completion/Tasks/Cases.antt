-- ===== src/Completion/Tasks/Cases.antt =====
-- The `except` clause of `complete` by its two cases (app/services/completion_service.py).
use model_route.Base.{String}
use model_route.Base.Float.{Float}
use model_route.Base.Unicode.{Unicode}
use model_route.Completion.{CompletionService}
use model_route.Completion.Tasks.{after_error_task, record_failure_task}
use model_route.Errors.{
  Exception, gateway, no_eligible_provider, all_providers_failed, rate_limiter_unavailable,
  metrics_unavailable, provider_error, value_error, validation_error, other,
}
use model_route.Providers.{GenerationRequest}
use model_route.Runtime.{Host}
use model_route.Schemas.{ChatCompletionRequest, ChatCompletionResponse}
use model_route.Tasks.{Task, ◌>>◌, throw}

module _ {F : Type 0} ⦃fl : Float F⦄ (host : Host F) (service : CompletionService F) (u : Unicode)
    (request : ChatCompletionRequest F) (g : GenerationRequest F) (id : String) (t : F) where
  -- What holds of the task that records that no provider is eligible, and of each that raises at
  -- once, holds after any error.
  pub after_error_elim :
      (P : Task F (ChatCompletionResponse F) → Type 0)
      → ((e : Exception)
          → P (record_failure_task host service id request t "NoEligibleProviderError" >> throw e))
      → ((e : Exception) → P (throw e))
      → (e : Exception) → P (after_error_task host service u request g id t e)
  unfolding after_error_task
  after_error_elim P recorded raised (gateway (no_eligible_provider m)) = recorded _
  after_error_elim P recorded raised (gateway (all_providers_failed m)) = raised _
  after_error_elim P recorded raised (gateway (rate_limiter_unavailable m)) = raised _
  after_error_elim P recorded raised (gateway (metrics_unavailable m)) = raised _
  after_error_elim P recorded raised (gateway (provider_error x)) = raised _
  after_error_elim P recorded raised (value_error m) = raised _
  after_error_elim P recorded raised validation_error = raised _
  after_error_elim P recorded raised (other m) = raised _
