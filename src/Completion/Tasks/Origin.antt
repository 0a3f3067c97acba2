-- ===== src/Completion/Tasks/Origin.antt =====
-- Where the response of a completion comes from, whatever other requests do meanwhile
-- (app/services/completion_service.py).
use mathlib.Core.List.{Mem}
use model_route.Base.{
  String, ℕ, zero, suc, ◌≡◌, ◌⊎◌, inl, inr, refl, Bool, true, false, ◌&&◌, Option, none, some, List,
  ltb,
}
use model_route.Base.Float.{Float}
use model_route.Base.Unicode.{Unicode}
use model_route.Cache
use model_route.Cache.{build_key}
use model_route.Completion.{
  CompletionService, response, update_latency, elapsed_ms, record_success, sleep_before_retry,
  warning, Attempted, succeeded, gave_up,
}
use model_route.Completion.Tasks.{
  try_candidate_task, after_attempts_task, attempts_task, after_reply_task, retry_or_stop_task,
  finish_task, respond_task,
}
use model_route.Errors.{ProviderError, retryable, type_name}
use model_route.Providers.{
  GenerationRequest, Provider, ProviderResult, Reply, generated, failed, crashed, identity,
}
use model_route.Runtime.{Host, World, ok, ask, note, logged, generate_called}
use model_route.Schemas.{ChatCompletionRequest, ChatCompletionResponse}
use model_route.Tasks.{Task, ◌>>=◌, ◌>>◌, lift, pure}
use model_route.Tasks.Yielding.{
  IfOk, if-IfOk, Yields, map-Yields, bind-Yields, lift-Yields, any-Yields, if-Yields,
}

module _ {F : Type 0} ⦃fl : Float F⦄ (host : Host F) (service : CompletionService F)
    (g : GenerationRequest F) where
  -- The provider replied with the result to this request.
  abbrev pub Gave : Provider F → ProviderResult → Type 0
  Gave p result = (n : ℕ) × (p.generate n g ≡ generated result)

  -- The cache had the result under the key of the provider and this request.
  abbrev pub Kept : Provider F → ProviderResult → Type 0
  Kept p result = (w : World F) × ((Cache.get host (build_key host p g) w).0 ≡ ok (some result))

  abbrev pub IfFound : Provider F → Option ProviderResult → Type 0
  IfFound p none = Unit
  IfFound p (some result) = Kept p result

  -- The response says what the result says.
  abbrev pub Shows : String → ProviderResult → Bool → ChatCompletionResponse F → Type 0
  Shows id result hit r =
      (r.request_id ≡ id)
      × (r.provider ≡ result.provider)
      × (r.model ≡ result.model)
      × (r.content ≡ result.content)
      × (r.input_tokens ≡ result.input_tokens)
      × (r.output_tokens ≡ result.output_tokens)
      × (r.cache_hit ≡ hit)

  -- The response is the reply of one of the providers to this request, or was cached for it.
  abbrev pub IsFrom : List (Provider F) → String → ChatCompletionResponse F → Type 0
  IsFrom ps id r =
      (p : Provider F) × (result : ProviderResult) × Mem p ps
      × Shows id result r.cache_hit r
      × (((r.cache_hit ≡ false) × Gave p result) ⊎ ((r.cache_hit ≡ true) × Kept p result))

  abbrev Tried : Provider F → Attempted F × String → Type 0
  Tried p (succeeded result began, category) = Gave p result
  Tried p (gave_up, category) = Unit

  retry_or_stop-Yields :
      (p : Provider F) (exc : ProviderError) (attempt : ℕ) (again : Task F (Attempted F × String))
      → Yields (Tried p) again
      → Yields (Tried p) (retry_or_stop_task host service exc attempt again)
  unfolding retry_or_stop_task
  retry_or_stop-Yields p exc attempt again yields =
      if-Yields (Tried p) (retryable exc && ltb attempt service.max_retries) _
        (pure (gave_up, type_name exc))
        (any-Yields (Tried p) (sleep_before_retry host service) (λ _. again) (λ _. yields)) tt

  after_reply-Yields :
      (p : Provider F) (reply : Reply) (t : F) (attempt : ℕ) (category : String)
      (again : String → Task F (Attempted F × String))
      → (n : ℕ) × (p.generate n g ≡ reply)
      → ((c : String) → Yields (Tried p) (again c))
      → Yields (Tried p) (after_reply_task host service p reply t attempt category again)
  unfolding after_reply_task
  after_reply-Yields p (generated r) t attempt category again gave yields = gave
  after_reply-Yields p (failed exc) t attempt category again gave yields =
      any-Yields (Tried p) (note (logged (warning p.metadata.name exc attempt))) _
        (λ _. retry_or_stop-Yields p exc attempt _ (yields (type_name exc)))
  after_reply-Yields p (crashed e) t attempt category again gave yields = tt

  attempts-Yields :
      (p : Provider F) (left attempt : ℕ) (category : String)
      → Yields (Tried p) (attempts_task host service p g left attempt category)
  unfolding attempts_task
  attempts-Yields p zero attempt category = tt
  attempts-Yields p (suc left) attempt category =
      let react : F → Reply → Task F (Attempted F × String) = λ t reply.
        after_reply_task host service p reply t attempt category
          (attempts_task host service p g left (suc attempt)) in
      let called : F → Reply → Task F (Attempted F × String) =
        λ t reply. lift (note (generate_called (identity p.metadata))) >> react t reply in
      any-Yields (Tried p) (ask host.perf_counter)
        (λ t. lift (ask (λ n. p.generate n g)) >>= called t)
        (λ t.
          lift-Yields (λ reply. (n : ℕ) × (p.generate n g ≡ reply)) (Tried p)
            (ask (λ n. p.generate n g)) (called t) (λ w. (w.tick, refl))
            (λ reply gave.
              any-Yields (Tried p) (note (generate_called (identity p.metadata)))
                (λ _. react t reply)
                (λ _.
                  after_reply-Yields p reply t attempt category _ gave
                    (attempts-Yields p left (suc attempt)))))

  module _ (u : Unicode) (request : ChatCompletionRequest F) (id : String) (t : F) where
    response-Shows :
        (result : ProviderResult) (hit fallback : Bool) (w : World F)
        → IfOk (Shows id result hit) (response host service result id t hit fallback w).0
    unfolding response
    response-Shows result hit fallback w =
        if-IfOk (Shows id result hit) _ _ _ _ (refl, refl, refl, refl, refl, refl, refl)

    respond-Yields :
        (p : Provider F) (result : ProviderResult) (hit fallback : Bool)
        → Yields
            (Shows id result hit)
            (respond_task host service u request g id t p result hit fallback)
    unfolding respond_task
    respond-Yields p result hit fallback =
        lift-Yields (Shows id result hit) (Shows id result hit)
          (response host service result id t hit fallback) _ (response-Shows result hit fallback)
          (λ x shows.
            any-Yields (Shows id result hit) (record_success host service x request p.metadata)
              (λ _. pure x) (λ _. shows))

    module _ (all : List (Provider F)) where
      given-From :
          (p : Provider F) (result : ProviderResult) (fallback : Bool)
          → Mem p all
          → Gave p result
          → Yields
              (IsFrom all id)
              (respond_task host service u request g id t p result false fallback)
      given-From p result fallback m gave =
          map-Yields (Shows id result false) (IsFrom all id) _
            (λ r (i, a, b, c, d, e, hit). (p, result, m, (i, a, b, c, d, e, refl), inl (hit, gave)))
            (respond-Yields p result false fallback)

      cached-From :
          (p : Provider F) (result : ProviderResult) (fallback : Bool)
          → Mem p all
          → Kept p result
          → Yields
              (IsFrom all id)
              (respond_task host service u request g id t p result true fallback)
      cached-From p result fallback m kept =
          map-Yields (Shows id result true) (IsFrom all id) _
            (λ r (i, a, b, c, d, e, hit). (p, result, m, (i, a, b, c, d, e, refl), inr (hit, kept)))
            (respond-Yields p result true fallback)

      finish-From :
          (p : Provider F) (key : String) (result : ProviderResult) (began : F) (index : ℕ)
          → Mem p all
          → Gave p result
          → Yields
              (IsFrom all id)
              (finish_task host service u request g id t p key result began index)
      unfolding finish_task
      finish-From p key result began index m gave =
          any-Yields (IsFrom all id) (elapsed_ms host service began) _ (λ x.
            any-Yields (IsFrom all id) (update_latency host service u request g id t p x) _ (λ _.
              any-Yields (IsFrom all id) (Cache.set host service.cache key result)
                (λ _. respond_task host service u request g id t p result false (ltb 0 index))
                (λ _. given-From p result (ltb 0 index) m gave)))

      after_attempts-From :
          (p : Provider F) (key : String) (index : ℕ) (ended : Attempted F × String)
          (next : String → Task F (ChatCompletionResponse F))
          → Mem p all
          → Tried p ended
          → ((c : String) → Yields (IsFrom all id) (next c))
          → Yields
              (IsFrom all id)
              (after_attempts_task host service u request g id t p key index ended next)
      unfolding after_attempts_task
      after_attempts-From p key index (succeeded result began, c) next m tried yields =
          finish-From p key result began index m tried
      after_attempts-From p key index (gave_up, c) next m tried yields = yields c

      pub try_candidate-From :
          (p : Provider F) (index : ℕ) (category : String)
          (next : String → Task F (ChatCompletionResponse F)) (found : Option ProviderResult)
          → Mem p all
          → IfFound p found
          → ((c : String) → Yields (IsFrom all id) (next c))
          → Yields
              (IsFrom all id)
              (try_candidate_task host service u request g id t p index category next found)
      unfolding try_candidate_task
      try_candidate-From p index category next (some result) m kept yields =
          cached-From p result (ltb 0 index) m kept
      try_candidate-From p index category next none m kept yields =
          bind-Yields (Tried p) (IsFrom all id)
            (attempts_task host service p g (suc service.max_retries) 0 category) _
            (attempts-Yields p (suc service.max_retries) 0 category)
            (λ ended tried.
              after_attempts-From p (build_key host p g) index ended next m tried yields)
