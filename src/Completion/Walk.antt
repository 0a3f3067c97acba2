-- ===== src/Completion/Walk.antt =====
-- The walk over the candidates, candidate by candidate (app/services/completion_service.py).
use model_route.Base.{
  String, ℕ, suc, ◌+◌, ◌*◌, ◌≡◌, ◌≤◌, inl, inr, refl, ◌∙◌, true, false, Option, none, some, List,
  [], ◌∷◌, arith, ltb, count_if,
}
use model_route.Base.Float.{Float}
use model_route.Base.Unicode.{Unicode}
use model_route.Cache
use model_route.Cache.{Cached, decode, mistyped}
use model_route.Completion.{
  CompletionService, try_candidates, try_candidate, after_attempts, attempts, record_failure,
  Attempted,
}
use model_route.Completion.Attempts.{attempts_lem, Run}
use model_route.Completion.Candidates.{
  tries, Ending, Ending-step, served, exhausted, crashed_at, misread,
}
use model_route.Completion.Ends.{ClockRuns, Recorded-from, record_failure_lem}
use model_route.Completion.Serve.{respond_lem, finish_lem}
use model_route.Completion.Trace.{calls, get-quiet, get-Gets, Gets}
use model_route.Errors.{gateway, all_providers_failed, validation_error, type_name}
use model_route.Providers.{
  GenerationRequest, Provider, ProviderResult, Reply, generated, failed, crashed,
}
use model_route.Runtime.{Host, World, Action, throw, ◌>>=◌, bind-ok, bind-raise}
use model_route.Schemas.{ChatCompletionRequest, ChatCompletionResponse}

module _ {F : Type 0} ⦃fl : Float F⦄ (host : Host F) (service : CompletionService F) (u : Unicode)
    (request : ChatCompletionRequest F) (generation_request : GenerationRequest F)
    (request_id : String) (started_at : F) (since : ℕ)
    (clock : ClockRuns host service started_at since) where
  module _ (provider : Provider F) (ps : List (Provider F)) (index : ℕ) (category : String)
      (next : String → Action F (ChatCompletionResponse F))
      (rest : (c : String) (v : World F)
        → since ≤ v.tick
        → Ending host service request generation_request request_id started_at ps
            (suc index)
            c
            v
            (next c v)) where
    abbrev tried : Action F (Attempted F × String)
    tried = attempts host service provider generation_request (suc service.max_retries) 0 category

    abbrev ended_by : Attempted F × String → Action F (ChatCompletionResponse F)
    ended_by ended =
        after_attempts host service u request generation_request request_id started_at provider
          (Cache.build_key host provider generation_request) index ended next

    -- The attempts at one candidate made from `v`, in which the cache has been asked.
    attempted_lem :
        (w v : World F)
        → since ≤ v.tick
        → v.rows ≡ w.rows
        → ((id : String) → calls id v ≡ calls id w)
        → (r : Run host service provider generation_request 0 v (tried v)) → (reply : Reply)
        → provider.generate (v.tick + 2 * r.retries + 1) generation_request ≡ reply
        → Ending host service request generation_request request_id started_at
            (provider ∷ ps)
            index
            category
            w
            ((tried >>= ended_by) v)
    unfolding after_attempts calls tries count_if
    attempted_lem w v later rows same r (generated result) e =
        let (c, done) = rw e at r.ends in
        let out = tried v in
        let (n, (answer, row), calls_kept, latency) =
          finish_lem host service u request generation_request request_id started_at since clock
            provider (Cache.build_key host provider generation_request) result
            (host.perf_counter (v.tick + 2 * r.retries)) index out.1
            (omega (arith, r.ticks, later)) in
        rw (bind-ok (tried) (ended_by) _ v done) (
          served [] ps provider result false n index refl (omega arith) (category, refl) (_, e)
            (answer, Recorded-from host service _ w.rows _ _ (r.rows_kept ∙ rows) row)
            (λ id. ground (arith, same id, r.calls_made id, r.bounded, calls_kept id)))
    attempted_lem w v later rows same r (failed exc) e =
        let (why, done) = rw e at r.ends in
        let out = tried v in
        rw (bind-ok (tried) (ended_by) _ v done) (
          Ending-step host service request generation_request request_id started_at provider ps
            index _ category exc w out.1 _ e (r.rows_kept ∙ rows)
            (λ id. ground (arith, same id, r.calls_made id, r.bounded))
            (rest (type_name exc) out.1 (omega (arith, r.ticks, later))))
    attempted_lem w v later rows same r (crashed x) e =
        let done = rw e at r.ends in
        rw (bind-raise (tried) (ended_by) x v done) (
          crashed_at [] ps provider _ x refl (category, refl) e refl (r.rows_kept ∙ rows)
            (λ id. ground (arith, same id, r.calls_made id, r.bounded)))

    abbrev key : String
    key = Cache.build_key host provider generation_request

    abbrev asked : Option ProviderResult → Action F (ChatCompletionResponse F)
    asked =
        try_candidate host service u request generation_request request_id started_at provider index
          category next

    candidate_lem :
        (w : World F)
        → since ≤ w.tick
        → Gets host (Cache.get host (Cache.build_key host provider generation_request) w).0
        → Ending host service request generation_request request_id started_at
            (provider ∷ ps)
            index
            category
            w
            ((Cache.get host (key) >>= asked) w)
    unfolding try_candidate calls tries count_if
    candidate_lem w later (inl missing) =
        let (calls_kept, waits_kept, rows_kept, latency_kept, redis_kept, ticks) =
          get-quiet host (key) w in
        let v = (Cache.get host (key) w).1 in
        rw (bind-ok (Cache.get host (key)) (asked) none w missing) (
          attempted_lem w v (omega (arith, ticks, later)) rows_kept calls_kept
            (attempts_lem host service provider generation_request category v) _ refl)
    candidate_lem w later (inr (inl (result, s, decoded, found))) =
        let (calls_kept, waits_kept, rows_kept, latency_kept, redis_kept, ticks) =
          get-quiet host (key) w in
        let v = (Cache.get host (key) w).1 in
        let (answer, row, kept) =
          respond_lem host service u request generation_request request_id started_at since clock
            provider result true (ltb 0 index) v (omega (arith, ticks, later)) in
        rw (bind-ok (Cache.get host (key)) (asked) (some result) w found) (
          served [] ps provider result true v.tick index refl (omega arith) (category, refl)
            (s, decoded) (answer, Recorded-from host service _ w.rows _ _ rows_kept row)
            (λ id. ground (arith, calls_kept id, kept.0 id)))
    candidate_lem w later (inr (inr (s, bad, raised))) =
        let (calls_kept, waits_kept, rows_kept, latency_kept, redis_kept, ticks) =
          get-quiet host (key) w in
        rw (bind-raise (Cache.get host (key)) (asked) validation_error w raised) (
          misread [] (provider ∷ ps) s refl (category, refl) bad refl rows_kept
            (λ id. ground (arith, calls_kept id)))

  pub try_candidates_lem :
      (ps : List (Provider F)) (index : ℕ) (category : String) (w : World F)
      → since ≤ w.tick
      → Ending host service request generation_request request_id started_at ps index category w (
          try_candidates host service u request generation_request request_id started_at ps index
            category w)
  unfolding try_candidates calls tries count_if
  try_candidates_lem [] index category w later =
      let failed_with = record_failure host service request_id request started_at category in
      let (done, row, kept) =
        record_failure_lem host service request request_id started_at category w in
      rw
        (bind-ok failed_with
          (λ _. throw (gateway (all_providers_failed "All eligible providers failed"))) tt w done)
        (exhausted category w.tick refl refl row (λ id. ground (arith, kept.0 id)))
  try_candidates_lem (p ∷ ps) index category w later =
      candidate_lem p ps index category _ (λ c v h. try_candidates_lem ps (suc index) c v h) w later
        (get-Gets host _ w)
