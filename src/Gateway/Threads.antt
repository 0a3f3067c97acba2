-- ===== src/Gateway/Threads.antt =====
-- One request advances at a time: what a turn of the event loop does, and how an invariant of the
-- process is proved (app/main.py, app/api/routes.py).
use model_route.Base.{
  true, false, Bool, ℕ, zero, suc, ◌≡◌, refl, Option, none, some, List, [], ◌∷◌, ◌++◌, All,
}
use model_route.Base.Float.{Float}
use model_route.Base.Unicode.{Unicode}
use model_route.Completion.{CompletionService}
use model_route.Completion.Tasks.{complete_task}
use model_route.Errors.{
  gateway, rate_limiter_unavailable, no_eligible_provider, all_providers_failed,
  metrics_unavailable, provider_error, value_error, validation_error, other,
}
use model_route.Gateway.{
  running, turned_away, decided, Phase, arrived, Thread, Gateway, Choice, arrive, turn, advance,
  turn_of, after_turn, happen, run,
}
use model_route.RateLimiter.{TokenBucketRateLimiter}
use model_route.RateLimiter.Admissions.{is_admitted}
use model_route.Routes.{Request, HttpReply}
use model_route.Runtime.{Host, World, Outcome, ok, raise}
use model_route.Schemas.{ChatCompletionRequest}

-- What holds of a request that comes in.
abbrev pub Comes : {F : Type 0} → (Request → Type 0) → Choice F → Type 0
Comes Q (arrive request body) = Q request
Comes Q (turn i) = Unit

pub All-Comes :
    {F : Type 0} (Q : Request → Type 0)
    → ((request : Request) → Q request)
    → (cs : List (Choice F)) → All (Comes Q) cs
All-Comes Q each [] = tt
All-Comes Q each (arrive request body ∷ cs) = (each request, All-Comes Q each cs)
All-Comes Q each (turn i ∷ cs) = (tt, All-Comes Q each cs)

module _ {F : Type 0} ⦃fl : Float F⦄ (host : Host F) (service : CompletionService F)
    (l : TokenBucketRateLimiter) (u : Unicode) where
  -- One of the requests advances, and the others stay where they are.
  pub data Turned : List (Thread F) → World F → List (Thread F) → World F → Type 0 where
    here :
        (request : Request) (phase phase' : Phase F) (ts : List (Thread F)) (w w' : World F)
        → advance host service l u request phase w ≡ some (phase', w')
        → Turned
            (record { request = request; phase = phase } ∷ ts)
            w
            (record { request = request; phase = phase' } ∷ ts)
            w'
    there :
        (t : Thread F) (ts ts' : List (Thread F)) (w w' : World F)
        → Turned ts w ts' w'
        → Turned (t ∷ ts) w (t ∷ ts') w'

  -- What a turn comes to.
  abbrev pub After : List (Thread F) → World F → Option (List (Thread F) × World F) → Type 0
  After ts w none = Unit
  After ts w (some (ts', w')) = Turned ts w ts' w'

  first-After :
      (t : Thread F) (ts : List (Thread F)) (w : World F) (x : Option (Phase F × World F))
      → advance host service l u t.request t.phase w ≡ x
      → After (t ∷ ts) w (elim x as (λ _. Option (List (Thread F) × World F)) [
        | none ↦ none
        | some (phase, w') ↦ some (record t { phase = phase } ∷ ts, w')
      ])
  first-After t ts w none e = tt
  first-After t ts w (some (phase, w')) e = here t.request t.phase phase ts w w' e

  later-After :
      (t : Thread F) (ts : List (Thread F)) (w : World F) (x : Option (List (Thread F) × World F))
      → After ts w x
      → After (t ∷ ts) w (elim x as (λ _. Option (List (Thread F) × World F)) [
        | none ↦ none
        | some (ts', w') ↦ some (t ∷ ts', w')
      ])
  later-After t ts w none a = tt
  later-After t ts w (some (ts', w')) a = there t ts ts' w w' a

  turn_of-After :
      (i : ℕ) (ts : List (Thread F)) (w : World F) → After ts w (turn_of host service l u i ts w)
  unfolding turn_of
  turn_of-After i [] w = tt
  turn_of-After zero (t ∷ ts) w = first-After t ts w _ refl
  turn_of-After (suc i) (t ∷ ts) w = later-After t ts w _ (turn_of-After i ts w)

  module _ (P : World F → List (Thread F) → Type 0) where
    after_turn-keeps :
        (g : Gateway F) (x : Option (List (Thread F) × World F))
        → ((ts : List (Thread F)) (w : World F) → Turned g.threads g.world ts w → P w ts)
        → P g.world g.threads
        → After g.threads g.world x
        → P (after_turn host service l u g x).world (after_turn host service l u g x).threads
    unfolding after_turn
    after_turn-keeps g none keep p a = p
    after_turn-keeps g (some (ts, w)) keep p a = keep ts w a

    -- What each advance keeps, a turn keeps.
    pub turn-keeps :
        ((ts ts' : List (Thread F)) (w w' : World F) → Turned ts w ts' w' → P w ts → P w' ts')
        → (i : ℕ) (g : Gateway F) → P g.world g.threads
        → let g' = happen host service l u (turn i) g in P g'.world g'.threads
    unfolding happen
    turn-keeps go i g p =
        after_turn-keeps g _ (λ ts w turned. go g.threads ts g.world w turned p) p
          (turn_of-After i g.threads g.world)

    -- What each arrival and each advance keeps, every history keeps.
    pub run-keeps :
        (Q : Request → Type 0)
        → ((request : Request) (body : ChatCompletionRequest F) (w : World F) (ts : List (Thread F))
            → Q request
            → P w ts
            → P w (ts ++ record { request = request; phase = arrived body } ∷ []))
        → ((ts ts' : List (Thread F)) (w w' : World F) → Turned ts w ts' w' → P w ts → P w' ts')
        → (cs : List (Choice F)) → All (Comes Q) cs
        → (g : Gateway F) → P g.world g.threads
        → P (run host service l u cs g).world (run host service l u cs g).threads
    unfolding run happen
    run-keeps Q come go [] all g p = p
    run-keeps Q come go (arrive request body ∷ cs) all g p =
        run-keeps Q come go cs all.1 _ (come request body g.world g.threads all.0 p)
    run-keeps Q come go (turn i ∷ cs) all g p = run-keeps Q come go cs all.1 _ (turn-keeps go i g p)

  -- What holds of the completion of a request that the limiter admits, and of each reply without
  -- one, holds after any decision.
  pub decided_elim :
      (body : ChatCompletionRequest F) (t : F) (P : Outcome Bool → Phase F → Type 0)
      → P (ok true) (running (complete_task host service u body (some t)))
      → ((x : Outcome Bool) (reply : Outcome (HttpReply F))
          → is_admitted x ≡ false
          → P x (turned_away reply))
      → (x : Outcome Bool) → P x (decided host service l u body t x)
  unfolding decided
  decided_elim body t P admitted away (ok true) = admitted
  decided_elim body t P admitted away (ok false) = away _ _ refl
  decided_elim body t P admitted away (raise (gateway (rate_limiter_unavailable m))) = away _ _ refl
  decided_elim body t P admitted away (raise (gateway (no_eligible_provider m))) = away _ _ refl
  decided_elim body t P admitted away (raise (gateway (all_providers_failed m))) = away _ _ refl
  decided_elim body t P admitted away (raise (gateway (metrics_unavailable m))) = away _ _ refl
  decided_elim body t P admitted away (raise (gateway (provider_error e))) = away _ _ refl
  decided_elim body t P admitted away (raise (value_error m)) = away _ _ refl
  decided_elim body t P admitted away (raise validation_error) = away _ _ refl
  decided_elim body t P admitted away (raise (other m)) = away _ _ refl
