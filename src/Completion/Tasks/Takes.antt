-- ===== src/Completion/Tasks/Takes.antt =====
-- What one piece of a completion spends (app/services/completion_service.py): provider calls and
-- rows of metrics.
use model_route.Base.{
  str_eq, count_if, length, length-append, ℕ, ap, ◌∷◌, if◌then◌else◌, String, ℕ, ◌≡◌, inl, inr,
  refl, Bool, Option, none, some, List, [], ◌∷◌, arith, Bool-cases, if◌then◌else◌,
}
use model_route.Base.Float.{Float}
use model_route.Cache
use model_route.Cache.{ResponseCache, build_key}
use model_route.Completion.{
  CompletionService, start_time, response, elapsed_ms, record_success, sleep_before_retry,
}
use model_route.Completion.Trace.{get-quiet, set-quiet, calls}
use model_route.Metrics
use model_route.Metrics.{record_metric, success_metric}
use model_route.Metrics.Laws.{record_metric_lem}
use model_route.Providers.{Provider, ProviderResult}
use model_route.Runtime.{
  Host, World, Row, RequestMetric, Action, ask, note, logged, generate_called, LogLine,
}
use model_route.Schemas.{ChatCompletionRequest, ChatCompletionResponse, strategy_value}
use model_route.Completion.Tasks.Pieces.{then_pure-state}
use model_route.Tasks.Spending.{Takes}

module _ {F : Type 0} (i : String) where
  Takes-quiet :
      {A : Type 0} (m : Action F A)
      → ((w : World F) → calls i (m w).1 ≡ calls i w)
      → ((w : World F) → (m w).1.rows ≡ w.rows)
      → Takes i 0 0 m
  Takes-quiet m called rows w =
      (omega (arith, called w), omega (arith, ap (λ (x : List (Row F)). length x) (rows w)))

  pub ask-Takes : {A : Type 0} (answer : ℕ → A) → Takes {F = F} i 0 0 (ask answer)
  unfolding calls
  ask-Takes answer = Takes-quiet (ask answer) (λ w. refl) (λ w. refl)

  pub warning-Takes : (line : LogLine) → Takes i 0 0 (note {F = F} (logged line))
  unfolding calls count_if
  warning-Takes line = Takes-quiet (note (logged line)) (λ w. omega arith) (λ w. refl)

  -- One call, if it is of this provider.
  pub call-Takes :
      (id : String) → Takes i (if str_eq i id then 1 else 0) 0 (note {F = F} (generate_called id))
  unfolding calls count_if
  call-Takes id w = (ground arith, omega arith)

module _ {F : Type 0} (host : Host F) (i : String) where
  pub record_metric-Takes : (m : RequestMetric F) → Takes i 0 1 (record_metric host m)
  unfolding calls count_if
  record_metric-Takes m w = rw (record_metric_lem host m w) (
    ground arith,
    ground (
      arith,
      length-append w.rows
          (record { id = w.tick; timestamp = host.database_time w.tick; metric = m } ∷ []),
    ),
  )

  pub get-Takes : (key : String) → Takes i 0 0 (Cache.get host key)
  get-Takes key =
      Takes-quiet i (Cache.get host key) (λ w. (get-quiet host key w).0 i)
        (λ w. (get-quiet host key w).2)

  pub set-Takes :
      (cache : ResponseCache) (key : String) (r : ProviderResult)
      → Takes i 0 0 (Cache.set host cache key r)
  set-Takes cache key r =
      Takes-quiet i (Cache.set host cache key r) (λ w. (set-quiet host cache key r w).0 i)
        (λ w. (set-quiet host cache key r w).2)

module _ {F : Type 0} ⦃fl : Float F⦄ (host : Host F) (service : CompletionService F)
    (i : String) where
  pub start-Takes : (t : Option F) → Takes i 0 0 (start_time host service t)
  unfolding start_time
  start-Takes none w = ask-Takes i host.perf_counter w
  start-Takes (some t) w = (omega arith, omega arith)

  pub elapsed-Takes : (t : F) → Takes i 0 0 (elapsed_ms host service t)
  unfolding elapsed_ms calls
  elapsed-Takes t = Takes-quiet i (elapsed_ms host service t) (λ w. refl) (λ w. refl)

  pub sleep-Takes : Takes i 0 0 (sleep_before_retry host service)
  unfolding sleep_before_retry calls count_if
  sleep-Takes =
      Takes-quiet i (sleep_before_retry host service) (λ w. ground arith) (λ w. ground arith)

  pub response-Takes :
      (r : ProviderResult) (id : String) (t : F) (hit fallback : Bool)
      → Takes i 0 0 (response host service r id t hit fallback)
  unfolding response calls count_if
  response-Takes r id t hit fallback =
      Takes-quiet i (response host service r id t hit fallback) (λ w. ground arith)
        (λ w. ground arith)

  pub record_success-Takes :
      (x : ChatCompletionResponse F) (request : ChatCompletionRequest F) (p : Provider F)
      → Takes i 0 1 (record_success host service x request p.metadata)
  unfolding record_success Metrics.record_success
  record_success-Takes x request p w = elim (Bool-cases service.has_metrics) [
    | inl on ↦
        let m = success_metric host x (strategy_value request.strategy) p.metadata in
        rw (on, then_pure-state (record_metric host m) tt w) (record_metric-Takes host i m w)
    | inr off ↦ rw off (omega arith, omega arith)
  ]
