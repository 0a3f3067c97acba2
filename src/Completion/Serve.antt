-- ===== src/Completion/Serve.antt =====
-- One candidate's response (app/services/completion_service.py): from the cache, or after a result.
use model_route.Base.{String, ℕ, suc, ◌≡◌, ◌≤◌, ap, ◌∙◌, Bool, false, arith, ltb, count_if}
use model_route.Base.Float.{Float}
use model_route.Base.Unicode.{Unicode}
use model_route.Cache
use model_route.Completion.{CompletionService, respond, response, finish}
use model_route.Completion.Ends.{ClockRuns, Recorded, Kept, response_of, record_success_lem}
use model_route.Completion.Trace.{calls, set-quiet, set_then}
use model_route.Latency.{record_latency}
use model_route.Metrics.{success_metric}
use model_route.Providers.{GenerationRequest, Provider, ProviderResult, identity}
use model_route.Runtime.{Host, World, ok}
use model_route.Schemas.{ChatCompletionRequest, ChatCompletionResponse, strategy_value}

module _ {F : Type 0} ⦃fl : Float F⦄ (host : Host F) (service : CompletionService F) (u : Unicode)
    (request : ChatCompletionRequest F) (generation_request : GenerationRequest F)
    (request_id : String) (started_at : F) (since : ℕ)
    (clock : ClockRuns host service started_at since) where
  -- The row of a response.
  abbrev pub Answered : Provider F → ChatCompletionResponse F → World F → World F → Type 0
  Answered provider r w w' =
      Recorded host service
        (success_metric host r (strategy_value request.strategy) provider.metadata) w.rows w'.rows

  pub respond_lem :
      (provider : Provider F) (result : ProviderResult) (hit fallback : Bool) (w : World F)
      → since ≤ w.tick
      → let out =
          respond host service u request generation_request request_id started_at provider result
            hit fallback w in
        let r = response_of host service request request_id started_at result hit fallback w.tick in
        (out.0 ≡ ok r) × Answered provider r w out.1 × Kept host service w out.1
  unfolding respond response calls count_if
  respond_lem provider result hit fallback w later =
      let r = response_of host service request request_id started_at result hit fallback w.tick in
      let (done, row, kept) =
        record_success_lem host service request request_id started_at r provider
          (record w { tick = suc w.tick }) in
      let (n, rows) = row in
      let (calls_kept, latency_kept, redis_kept) = kept in
      (
        ground (arith, done, clock w.tick later),
        (n, ground (arith, done, rows, clock w.tick later)),
        (
          (λ id. ground (arith, done, calls_kept id, clock w.tick later)),
          ground (arith, done, latency_kept, clock w.tick later),
          ground (arith, done, redis_kept, clock w.tick later),
        ),
      )

  pub finish_lem :
      (provider : Provider F) (key : String) (result : ProviderResult) (t : F) (index : ℕ)
      (w : World F)
      → since ≤ w.tick
      → let out =
          finish host service u request generation_request request_id started_at provider key result
            t index w in
        (n : ℕ) × (let r =
            response_of host service request request_id started_at result false (ltb 0 index) n in
          (out.0 ≡ ok r) × Answered provider r w out.1)
        × ((id : String) → calls id out.1 ≡ calls id w)
        × (out.1.latency
            ≡ record_latency w.latency
                (identity provider.metadata)
                (fl.mul (fl.sub (host.perf_counter w.tick) t) (fl.of_nat 1_000)))
  unfolding finish calls count_if
  finish_lem provider key result t index w later =
      let timed : World F = record w {
        tick = suc w.tick;
        latency =
            record_latency w.latency (identity provider.metadata)
              (fl.mul (fl.sub (host.perf_counter w.tick) t) (fl.of_nat 1_000));
      } in
      let stored = (Cache.set host service.cache key result timed).1 in
      let (calls_kept, waits_kept, rows_kept, latency_kept, ticks) =
        set-quiet host service.cache key result timed in
      let next =
        respond host service u request generation_request request_id started_at provider result
          false (ltb 0 index) in
      let step = set_then host service.cache key result next timed in
      let (done, row, kept) =
        respond_lem provider result false (ltb 0 index) stored (omega (arith, ticks, later)) in
      (
        stored.tick,
        (rw step done, ground (arith, ap (λ out. out.1.rows) step, row, rows_kept)),
        (λ id. ap (λ out. calls id out.1) step ∙ kept.0 id ∙ calls_kept id),
        ground (arith, ap (λ out. out.1.latency) step, kept.1, latency_kept),
      )
