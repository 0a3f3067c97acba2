-- ===== src/Completion/Candidates.antt =====
-- The walk over the candidates (app/services/completion_service.py, the outer loop of `complete`).
use model_route.Base.{
  String, ℕ, suc, ◌+◌, ◌*◌, ◌≤◌, ◌≡◌, ap, ◌∙◌, Bool, true, false, List, [], ◌∷◌, ◌++◌, arith,
  str_eq, ltb, length, if◌then◌else◌, count_if,
}
use model_route.Base.Float.{Float}
use model_route.Cache
use model_route.Cache.{Cached, decode, mistyped}
use model_route.Completion.{CompletionService}
use model_route.Completion.Ends.{Recorded, response_of, failure_metric}
use model_route.Completion.Trace.{calls}
use model_route.Errors.{
  ProviderError, Exception, gateway, all_providers_failed, validation_error, type_name,
}
use model_route.Metrics.{success_metric}
use model_route.Providers.{
  GenerationRequest, Provider, ProviderResult, generated, failed, crashed, identity,
}
use model_route.Runtime.{Host, World, Outcome, ok, raise}
use model_route.Schemas.{ChatCompletionRequest, ChatCompletionResponse, strategy_value}

-- How many of the providers have this identity.
unfoldable pub tries : {F : Type 0} → String → List (Provider F) → ℕ
unfolding count_if
tries id ps = count_if (λ p. str_eq id (identity p.metadata)) ps

module _ {F : Type 0} (generation_request : GenerationRequest F) where
  -- Each provider replies at some time with an error, and `c` is the category of the last.
  abbrev pub AllFail : List (Provider F) → String → String → Type 0
  AllFail [] category c = c ≡ category
  AllFail (p ∷ ps) category c =
      (exc : ProviderError) × (n : ℕ) × (p.generate n generation_request ≡ failed exc)
      × AllFail ps (type_name exc) c

  -- The same, whatever the category of the last is.
  abbrev pub Failed : List (Provider F) → String → Type 0
  Failed ps category = (c : String) × AllFail ps category c

module _ {F : Type 0} ⦃fl : Float F⦄ (host : Host F) (service : CompletionService F)
    (request : ChatCompletionRequest F) (generation_request : GenerationRequest F)
    (request_id : String) (started_at : F) where
  -- A result comes from a cached text, or from the provider.
  abbrev pub Source : Provider F → ProviderResult → Bool → Type 0
  Source provider result true = (s : String) × (decode host s ≡ Cache.hit result)
  Source provider result false =
      (n : ℕ) × (provider.generate n generation_request ≡ generated result)

  -- The calls from `w` to `w'`, by identity: at least one at each of the first providers, at most
  -- `max_retries + 1` at each of the second.
  abbrev pub Called : List (Provider F) → List (Provider F) → World F → World F → Type 0
  Called least most w w' =
      (id : String)
      → (calls id w + tries id least ≤ calls id w')
        × (calls id w' ≤ calls id w + tries id most * suc service.max_retries)

  -- How the walk over `ps` from `w` ends.
  pub data Ending (ps : List (Provider F)) (index : ℕ) (category : String) (w : World F)
      (out : Outcome (ChatCompletionResponse F) × World F) : Type 0 where
    served :
        (before after : List (Provider F)) (provider : Provider F) (result : ProviderResult)
        (hit : Bool) (n position : ℕ)
        → ps ≡ before ++ provider ∷ after
        → position ≡ index + length before
        → Failed generation_request before category
        → Source provider result hit
        → (let r =
              response_of host service request request_id started_at result hit
                (ltb 0 position)
                n in
            (out.0 ≡ ok r)
            × Recorded host service
                (success_metric host r (strategy_value request.strategy) provider.metadata)
                w.rows
                out.1.rows)
        → Called before (before ++ (if hit then [] else provider ∷ [])) w out.1
        → Ending ps index category w out
    exhausted :
        (c : String) (n : ℕ)
        → AllFail generation_request ps category c
        → out.0 ≡ raise (gateway (all_providers_failed "All eligible providers failed"))
        → Recorded host service
            (failure_metric host service request request_id started_at c n)
            w.rows
            out.1.rows
        → Called ps ps w out.1
        → Ending ps index category w out
    crashed_at :
        (before after : List (Provider F)) (provider : Provider F) (n : ℕ) (e : Exception)
        → ps ≡ before ++ provider ∷ after
        → Failed generation_request before category
        → provider.generate n generation_request ≡ crashed e
        → out.0 ≡ raise e
        → out.1.rows ≡ w.rows
        → Called before (before ++ provider ∷ []) w out.1
        → Ending ps index category w out
    misread :
        (before after : List (Provider F)) (s : String)
        → ps ≡ before ++ after
        → Failed generation_request before category
        → decode host s ≡ mistyped
        → out.0 ≡ raise validation_error
        → out.1.rows ≡ w.rows
        → Called before before w out.1
        → Ending ps index category w out

  Called-step :
      (p : Provider F) (least most : List (Provider F)) (w v x : World F)
      → Called (p ∷ []) (p ∷ []) w v
      → Called least most v x
      → Called (p ∷ least) (p ∷ most) w x
  unfolding tries count_if
  Called-step p least most w v x one more id = ground (arith, one id, more id)

  -- One more provider before the walk, which failed between `w` and `v`.
  pub Ending-step :
      (p : Provider F) (ps : List (Provider F)) (index n : ℕ) (category : String)
      (exc : ProviderError) (w v : World F) (out : Outcome (ChatCompletionResponse F) × World F)
      → p.generate n generation_request ≡ failed exc
      → v.rows ≡ w.rows
      → Called (p ∷ []) (p ∷ []) w v
      → Ending ps (suc index) (type_name exc) v out
      → Ending (p ∷ ps) index category w out
  Ending-step p ps index n category exc w v out e rows c
        (served before after provider result hit k position split place
          (last, fails)
          source
          (done, row)
          more) =
      served (p ∷ before) after provider result hit k position (ap (λ qs. p ∷ qs) split)
        (omega (arith, place)) (last, (exc, n, e, fails)) source (done, rw (← rows) row)
        (Called-step p _ _ w v out.1 c more)
  Ending-step p ps index n category exc w v out e rows c (exhausted last k fails done row more) =
      exhausted last k (exc, n, e, fails) done (rw (← rows) row)
        (Called-step p _ _ w v out.1 c more)
  Ending-step p ps index n category exc w v out e rows c
        (crashed_at before after provider k x split (last, fails) crash done kept more) =
      crashed_at (p ∷ before) after provider k x (ap (λ qs. p ∷ qs) split)
        (last, (exc, n, e, fails)) crash done (kept ∙ rows) (Called-step p _ _ w v out.1 c more)
  Ending-step p ps index n category exc w v out e rows c
        (misread before after s split (last, fails) bad done kept more) =
      misread (p ∷ before) after s (ap (λ qs. p ∷ qs) split) (last, (exc, n, e, fails)) bad done
        (kept ∙ rows) (Called-step p _ _ w v out.1 c more)
