-- ===== src/Schemas/Laws.antt =====
-- What the request model of app/api/schemas.py lets through.
use model_route.Base.{String, ℕ, ◌≤◌, ◌≡◌, ◌≢◌, Option, none, some, arith, eq_iff, ◌∙◌, sym, ap}
use model_route.Base.Float.{Float, ◌≼◌}
use model_route.Base.Unicode.{Unicode, strip}
use model_route.Base.Unicode.Laws.{strip_idem}
use model_route.Schemas.{
  Strategy, ChatCompletionRequest, RequestBody, strategy_of, prompt_of, temperature_of,
  max_tokens_of, validate_request, assembled, in_range,
}

prompt_of_lem :
    (u : Unicode) (value : Option String) (prompt : String)
    → prompt_of u value ≡ some prompt
    → (prompt ≢ "") × (strip u prompt ≡ prompt)
unfolding prompt_of
prompt_of_lem u none prompt h = absurd (ground (arith, h))
prompt_of_lem u (some value) prompt h =
    let same : prompt ≡ strip u value = ground (arith, h) in
    (
      ground (arith, h, eq_iff (strip u value) ""),
      ap (strip u) same ∙ strip_idem u value ∙ sym same,
    )

module _ {F : Type 0} ⦃fl : Float F⦄ (u : Unicode) where
  -- What is promised of a request.
  abbrev pub IsRequest : ChatCompletionRequest F → Type 0
  IsRequest r =
      (r.prompt ≢ "")
      × (strip u r.prompt ≡ r.prompt)
      × (fl.of_nat 0 ≼ r.temperature)
      × (r.temperature ≼ fl.of_nat 2)
      × (1 ≤ r.max_tokens)
      × (r.max_tokens ≤ 8192)

  assembled_lem :
      (p : Option String) (s : Option Strategy) (t : F) (n : ℕ) (r : ChatCompletionRequest F)
      → assembled p s t n ≡ some r
      → (p ≡ some r.prompt)
        × (fl.of_nat 0 ≼ r.temperature)
        × (r.temperature ≼ fl.of_nat 2)
        × (1 ≤ r.max_tokens)
        × (r.max_tokens ≤ 8192)
  unfolding assembled in_range
  assembled_lem none s t n r h = absurd (ground (arith, h))
  assembled_lem (some p) none t n r h = absurd (ground (arith, h))
  assembled_lem (some p) (some s) t n r h = (
    ground (arith, h),
    ground (arith, h),
    ground (arith, h),
    ground (arith, h),
    ground (arith, h),
  )

  -- A request that passes has a prompt that is not blank and has no white space at either end, and
  -- a temperature and a bound on the output within their ranges, also where they are defaults.
  pub validate_request-IsRequest :
      (body : RequestBody F) (r : ChatCompletionRequest F)
      → validate_request u body ≡ some r
      → IsRequest r
  unfolding validate_request
  validate_request-IsRequest body r h =
      let (prompt, cold, hot, small, big) =
        assembled_lem (prompt_of u body.prompt) (strategy_of body.strategy)
          (temperature_of body.temperature) (max_tokens_of body.max_tokens) r (ground (arith, h)) in
      let (present, stripped) = prompt_of_lem u body.prompt r.prompt prompt in
      (present, stripped, cold, hot, small, big)
