-- ===== src/Routes/Laws.antt =====
-- How app/api/routes.py answers.
use Prim.Native.String.{◌++◌ as ◌<>◌}
use Prim.Native.Char.{Char, code}
use text.Mathlib.TextLemmas.{append_cancel_left, cons-append}
use model_route.Base.{
  ◌↔◌, ◌∙◌, sym, ap, Bool-cases, if◌then◌else◌, String, ℕ, suc, ◌≡◌, ◌≤◌, ◌≢◌, ◌⊎◌, inl, inr, refl,
  true, false, Option, none, some, arith, count_if, str_eq,
}
use model_route.Base.Float.{Float}
use model_route.Base.Unicode.{Unicode, strip}
use model_route.Completion
use model_route.Completion.{CompletionService}
use model_route.Completion.Complete.{Completed, complete_lem, begun}
use model_route.Completion.Ends.{ClockRuns}
use model_route.Completion.Trace.{calls}
use model_route.Errors.{
  Exception, gateway, rate_limiter_unavailable, no_eligible_provider, all_providers_failed,
  metrics_unavailable, provider_error, value_error, validation_error, other,
}
use model_route.RateLimiter.{TokenBucketRateLimiter, allow}
use model_route.Routes.{
  Request, HttpReply, completion, http_exception, client_identity, ip_identity, identity_of,
  after_allow, after_complete, create_completion, limited, complete_request,
}
use model_route.Runtime.{Host, World, Outcome, ok, raise}
use model_route.Schemas.{ChatCompletionRequest, ChatCompletionResponse}

module _ {F : Type 0} where
  -- How the route answers after the completion: with its response; with 503 if no provider is
  -- eligible or none succeeded; any other exception passes.
  abbrev pub Completes :
      Outcome (ChatCompletionResponse F) × World F → Outcome (HttpReply F) × World F → Type 0
  Completes done out =
      ((r : ChatCompletionResponse F) × (done.0 ≡ ok r) × (out ≡ (ok (completion r), done.1)))
      ⊎ (((m : String) × ((done.0 ≡ raise (gateway (no_eligible_provider m)))
              ⊎ (done.0 ≡ raise (gateway (all_providers_failed m))))
            × (out ≡ (ok (http_exception 503 "No provider could fulfill the request"), done.1)))
          ⊎ ((e : Exception) × (done.0 ≡ raise e)
              × ((m : String) → e ≢ gateway (no_eligible_provider m))
              × ((m : String) → e ≢ gateway (all_providers_failed m))
              × (out ≡ (raise e, done.1))))

  after_complete-Completes :
      (x : Outcome (ChatCompletionResponse F)) (w : World F) → Completes (x, w) (after_complete x w)
  unfolding after_complete
  after_complete-Completes (ok r) w = inl (r, refl, refl)
  after_complete-Completes (raise (gateway (no_eligible_provider m))) w =
      inr (inl (m, inl refl, refl))
  after_complete-Completes (raise (gateway (all_providers_failed m))) w =
      inr (inl (m, inr refl, refl))
  after_complete-Completes (raise (gateway (rate_limiter_unavailable m))) w =
      inr (inr (_, refl, (λ n h. cc), (λ n h. cc), refl))
  after_complete-Completes (raise (gateway (metrics_unavailable m))) w =
      inr (inr (_, refl, (λ n h. cc), (λ n h. cc), refl))
  after_complete-Completes (raise (gateway (provider_error e))) w =
      inr (inr (_, refl, (λ n h. cc), (λ n h. cc), refl))
  after_complete-Completes (raise (value_error m)) w =
      inr (inr (_, refl, (λ n h. cc), (λ n h. cc), refl))
  after_complete-Completes (raise validation_error) w =
      inr (inr (_, refl, (λ n h. cc), (λ n h. cc), refl))
  after_complete-Completes (raise (other m)) w = inr (inr (_, refl, (λ n h. cc), (λ n h. cc), refl))

module _ {F : Type 0} ⦃fl : Float F⦄ (host : Host F) (service : CompletionService F)
    (rate_limiter : TokenBucketRateLimiter) (u : Unicode)
    (completion_request : ChatCompletionRequest F) where
  -- No provider called, no row written, no average changed.
  abbrev pub Untouched : World F → World F → Type 0
  Untouched w v =
      (v.rows ≡ w.rows) × (v.latency ≡ w.latency) × ((id : String) → calls id v ≡ calls id w)

  -- The limiter decides, or raises that it is unavailable, and touches nothing but its bucket.
  allow_cases :
      (client : String) (w : World F)
      → let (r, v) = allow host rate_limiter client w in
        ((r ≡ ok true)
          ⊎ ((r ≡ ok false)
              ⊎ (r
                  ≡ raise (
                      gateway (
                        rate_limiter_unavailable "Shared rate-limit enforcement is unavailable")))))
        × Untouched w v
  unfolding allow calls count_if
  allow_cases client w = (ground arith, (ground arith, ground arith, λ id. ground arith))

  allow-tick : (client : String) (w : World F) → w.tick ≤ (allow host rate_limiter client w).1.tick
  unfolding allow
  allow-tick client w = ground arith

  -- How a request is answered.
  abbrev pub Answers : Request → World F → Outcome (HttpReply F) × World F → Type 0
  Answers request w out =
      let w1 : World F = record w { tick = suc w.tick } in
      let (r, v) = allow host rate_limiter (client_identity u request) w1 in
      let t = host.perf_counter w.tick in
      let done = Completion.complete host service u completion_request (some t) v in
      Untouched w v
      × (((r ≡ ok false) × (out ≡ (ok (http_exception 429 "Rate limit exceeded"), v)))
          ⊎ (((r
                  ≡ raise (
                      gateway
                        (rate_limiter_unavailable "Shared rate-limit enforcement is unavailable")))
                × (out ≡ (ok (http_exception 503 "Rate limiter unavailable"), v)))
              ⊎ ((r ≡ ok true)
                  × Completes done out
                  × Completed host service u completion_request (host.uuid4 v.tick) t
                      (begun host (some t) v) done)))

  -- If no later read of the clock is earlier than the start, the route answers in one of three
  -- ways, and up to the limiter's decision no provider is called, no row written and no average
  -- changed. The limiter refuses: status 429. It is unavailable: status 503. It admits: the
  -- completion runs, its response is the answer; status 503 is the answer exactly if no provider was
  -- eligible or none succeeded; and any other exception of the completion passes.
  pub create_completion_lem :
      (request : Request) (w : World F)
      → ClockRuns host service (host.perf_counter w.tick) w.tick
      → Answers request w
          (create_completion host service rate_limiter u completion_request request w)
  unfolding create_completion limited complete_request calls count_if
  create_completion_lem request w clock =
      let w1 : World F = record w { tick = suc w.tick } in
      let client = client_identity u request in
      let v = (allow host rate_limiter client w1).1 in
      let t = host.perf_counter w.tick in
      let ticks = allow-tick client w1 in
      let (cases, (rows, latency, called)) = allow_cases client w1 in
      (
        (rows, latency, called),
        elim cases [
          | inl admitted ↦ inr (
              inr (
                admitted,
                rw (admitted, after_allow) (after_complete-Completes _ _),
                complete_lem host service u completion_request (some t) v
                    (λ n h. clock n (omega (arith, ticks, h))),
              ))
          | inr (inl refused) ↦ inl (refused, rw (refused, after_allow) refl)
          | inr (inr down) ↦ inr (inl (down, rw (down, after_allow) refl))
        ],
      )

-- Who makes a request: the name in its header, or its address, without case and outer space.
pub data Caller : Type 0 where
  by_header : String → Caller
  by_address : String → Caller

render : Caller → String
render (by_header name) = "client:" <> name
render (by_address address) = "ip:" <> address

first_code : String → ℕ
first_code String.[] = 0
first_code (String.◌∷◌ c s) = code c

first_code-append : (c : Char) (s t : String) → first_code (String.◌∷◌ c s <> t) ≡ code c
unfolding first_code
first_code-append c s t = ap first_code (cons-append c s t)

header_ne_address : (s t : String) → ("client:" <> s) ≢ ("ip:" <> t)
header_ne_address s t same =
    let apart : 99 ≡ 105 =
      sym (first_code-append "c" "lient:" s) ∙ ap first_code same ∙ first_code-append "i" "p:" t in
    absurd (omega (arith, apart))

render_injective : (c d : Caller) → render c ≡ render d → c ≡ d
unfolding render
render_injective (by_header s) (by_header t) h = ap by_header (append_cancel_left "client:" _ _ h)
render_injective (by_header s) (by_address t) h = absurd (header_ne_address s t h)
render_injective (by_address s) (by_header t) h = absurd (header_ne_address t s (sym h))
render_injective (by_address s) (by_address t) h = ap by_address (append_cancel_left "ip:" _ _ h)

module _ (u : Unicode) where
  abbrev pub address_of : Option String → Caller
  address_of none = by_address (u.casefold "unknown")
  address_of (some h) = by_address (u.casefold h)

  abbrev pub caller_of : Option String → Option String → Caller
  caller_of none client_host = address_of client_host
  caller_of (some supplied) client_host =
      if str_eq (strip u supplied) ""
      then address_of client_host
      else by_header (u.casefold (strip u supplied))

  ip_identity_lem : (h : Option String) → ip_identity u h ≡ render (address_of h)
  unfolding ip_identity render
  ip_identity_lem none = refl
  ip_identity_lem (some h) = refl

  identity_of_lem :
      (supplied h : Option String) → identity_of u supplied h ≡ render (caller_of supplied h)
  unfolding identity_of render
  identity_of_lem none h = ip_identity_lem h
  identity_of_lem (some s) h = elim (Bool-cases (str_eq (strip u s) "")) [
    | inl blank ↦ rw blank (ip_identity_lem h)
    | inr given ↦ rw given refl
  ]

  -- Two requests have one identity exactly if both carry a header with the same name, or neither
  -- does and the addresses are the same: a name in the header is never taken for an address.
  pub client_identity_iff :
      (r s : Request)
      → (client_identity u r ≡ client_identity u s)
        ↔ (caller_of r.client_id r.client_host ≡ caller_of s.client_id s.client_host)
  unfolding client_identity
  client_identity_iff r s =
      rw (identity_of_lem r.client_id r.client_host, identity_of_lem s.client_id s.client_host)
        (render_injective _ _, λ e. ap render e)
