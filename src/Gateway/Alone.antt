-- ===== src/Gateway/Alone.antt =====
-- A request that the event loop runs from end to end (app/main.py, app/api/routes.py): it gets the
-- answer of `create_completion`.
use model_route.Base.{
  ℕ, zero, suc, ◌≡◌, ◌⊎◌, inl, inr, refl, ap, subst, ◌∙◌, Bool, true, false, some, List, [], ◌∷◌,
  ◌++◌, length,
}
use model_route.Base.Float.{Float}
use model_route.Base.Unicode.{Unicode}
use model_route.Completion.{CompletionService}
use model_route.Completion.Tasks.{complete_task}
use model_route.Completion.Tasks.Alone.{complete_task-Runs}
use model_route.Errors.{
  gateway, rate_limiter_unavailable, no_eligible_provider, all_providers_failed,
  metrics_unavailable, provider_error, value_error, validation_error, other,
}
use model_route.Gateway.{
  Phase, arrived, timed, running, answered, turned_away, Thread, Gateway, Choice, turn, decided,
  advance, turn_of, after_turn, happen, run,
}
use model_route.RateLimiter.{TokenBucketRateLimiter, allow}
use model_route.Routes.{
  Request, HttpReply, client_identity, after_complete, after_allow, complete_request, limited,
  create_completion,
}
use model_route.Completion.Ends.{ClockRuns}
use model_route.Routes.Laws.{Answers, create_completion_lem}
use model_route.Runtime.{Host, World, Outcome, ok, raise}
use model_route.Schemas.{ChatCompletionRequest, ChatCompletionResponse}
use model_route.Tasks.{Task, finished, piece, alone}

-- `n` turns of the `i`-th request.
abbrev pub turns : {F : Type 0} → ℕ → ℕ → List (Choice F)
turns i zero = []
turns i (suc n) = turn i ∷ turns i n

module _ {F : Type 0} ⦃fl : Float F⦄ (host : Host F) (service : CompletionService F)
    (l : TokenBucketRateLimiter) (u : Unicode) where
  module _ (before after : List (Thread F)) (request : Request) where
    abbrev with_phase : Phase F → World F → Gateway F
    with_phase phase w = record {
      world = w;
      threads = before ++ record { request = request; phase = phase } ∷ after;
    }

    turn_of-at :
        (xs : List (Thread F)) (phase phase' : Phase F) (w w' : World F)
        → advance host service l u request phase w ≡ some (phase', w')
        → turn_of host service l u
            (length xs)
            (xs ++ record { request = request; phase = phase } ∷ after)
            w
          ≡ some (xs ++ record { request = request; phase = phase' } ∷ after, w')
    unfolding turn_of
    turn_of-at [] phase phase' w w' e = rw (e, turn_of) refl
    turn_of-at (x ∷ xs) phase phase' w w' e = rw (turn_of-at xs phase phase' w w' e, turn_of) refl

    -- Turns of this request only lead from one state to the other.
    abbrev Leads : Phase F → World F → Phase F → World F → Type 0
    Leads phase w phase' w' =
        (n : ℕ) × (run host service l u (turns (length before) n) (with_phase phase w)
          ≡ with_phase phase' w')

    Leads-stop : (phase : Phase F) (w : World F) → Leads phase w phase w
    unfolding run
    Leads-stop phase w = (0, refl)

    Leads-step :
        (phase next last : Phase F) (w v w' : World F)
        → advance host service l u request phase w ≡ some (next, v)
        → Leads next v last w'
        → Leads phase w last w'
    unfolding run happen after_turn
    Leads-step phase next last w v w' e (n, more) = (
      suc n,
      ap
            (λ g.
              run host service l u (turns (length before) n)
                (after_turn host service l u (with_phase phase w) g))
            (turn_of-at before phase next w v e)
          ∙ more,
    )

    running-Leads :
        (t : Task F (ChatCompletionResponse F)) (w : World F)
        → let out = alone t w in
          let replied = after_complete out.0 out.1 in
          Leads (running t) w (answered replied.0) replied.1
    unfolding advance
    running-Leads (finished out) w =
        Leads-step (running (finished out)) _ _ w _ _ refl (Leads-stop _ _)
    running-Leads (piece change rest) w =
        Leads-step (running (piece change rest)) (running (rest w)) _ w (change w) _ refl
          (running-Leads (rest w) (change w))

    -- The request has this answer.
    abbrev pub HasReply : Phase F → Outcome (HttpReply F) → Type 0
    HasReply phase reply = (phase ≡ answered reply) ⊎ (phase ≡ turned_away reply)

    abbrev pub Replied : Phase F → World F → Outcome (HttpReply F) × World F → Type 0
    Replied phase w out = (last : Phase F) × HasReply last out.0 × Leads phase w last out.1

    decided-Replied :
        (body : ChatCompletionRequest F) (t : F) (x : Outcome Bool) (w : World F)
        → Replied (decided host service l u body t x) w (after_allow host service l u body t x w)
    unfolding decided after_allow complete_request
    decided-Replied body t (ok true) w =
        subst
          (λ out.
            Replied (running (complete_task host service u body (some t))) w
              (after_complete out.0 out.1))
          (complete_task-Runs host service u body (some t) w)
          (_, inl refl, running-Leads (complete_task host service u body (some t)) w)
    decided-Replied body t (ok false) w = (_, inr refl, (Leads-stop _ _))
    decided-Replied body t (raise (gateway (rate_limiter_unavailable m))) w =
        (_, inr refl, (Leads-stop _ _))
    decided-Replied body t (raise (gateway (no_eligible_provider m))) w =
        (_, inr refl, (Leads-stop _ _))
    decided-Replied body t (raise (gateway (all_providers_failed m))) w =
        (_, inr refl, (Leads-stop _ _))
    decided-Replied body t (raise (gateway (metrics_unavailable m))) w =
        (_, inr refl, (Leads-stop _ _))
    decided-Replied body t (raise (gateway (provider_error e))) w = (_, inr refl, (Leads-stop _ _))
    decided-Replied body t (raise (value_error m)) w = (_, inr refl, (Leads-stop _ _))
    decided-Replied body t (raise validation_error) w = (_, inr refl, (Leads-stop _ _))
    decided-Replied body t (raise (other m)) w = (_, inr refl, (Leads-stop _ _))

    Replied-step :
        (phase next : Phase F) (w v : World F) (out : Outcome (HttpReply F) × World F)
        → advance host service l u request phase w ≡ some (next, v)
        → Replied next v out
        → Replied phase w out
    Replied-step phase next w v out e (last, has, leads) =
        (last, has, Leads-step phase next last w v out.1 e leads)

    -- A request that the event loop runs alone gets the reply of `create_completion`.
    arrived-Replied :
        (body : ChatCompletionRequest F) (w : World F)
        → Replied (arrived body) w (create_completion host service l u body request w)
    unfolding create_completion limited advance
    arrived-Replied body w =
        let t = host.perf_counter w.tick in
        let v : World F = record w { tick = suc w.tick } in
        let x = allow host l (client_identity u request) v in
        Replied-step (arrived body) (timed body t) w v _ refl (
          Replied-step (timed body t) (decided host service l u body t x.0) v x.1 _ refl
            (decided-Replied body t x.0 x.1))

    -- If no later read of the clock is earlier than the start, and whatever other requests stand
    -- before and after it: a request that the event loop runs alone, from when it comes in, has its
    -- reply after finitely many turns, and that is one of three, with the state that goes with it.
    -- The limiter refuses: status 429. It is unavailable: status 503. It admits: the completion
    -- runs, with the rows and calls of one completion, and its response is the answer; 503 if no
    -- provider was eligible or none succeeded; and any other exception passes.
    pub arrived-Answers :
        (body : ChatCompletionRequest F) (w : World F)
        → ClockRuns host service (host.perf_counter w.tick) w.tick
        → (out : Outcome (HttpReply F) × World F) × Replied (arrived body) w out
          × Answers host service l u body request w out
    arrived-Answers body w clock = (
      create_completion host service l u body request w,
      arrived-Replied body w,
      create_completion_lem host service l u body request w clock,
    )
