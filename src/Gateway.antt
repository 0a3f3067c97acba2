-- ===== src/Gateway.antt =====
-- The process of app/main.py while it serves: the requests to `create_completion` of
-- app/api/routes.py overlap, each a coroutine of its own over the shared state.
pub mod Alone
pub mod Threads
pub mod Tables
pub mod Credit
pub mod Budget
pub mod Origin
use model_route.Base.{
  String, ℕ, zero, suc, Bool, true, false, ◌&&◌, Option, none, some, List, [], ◌∷◌, ◌++◌, str_eq,
  count_if,
}
use model_route.Base.Float.{Float}
use model_route.Base.Unicode.{Unicode}
use model_route.Completion.{CompletionService}
use model_route.Completion.Tasks.{complete_task}
use model_route.Errors.{gateway, rate_limiter_unavailable}
use model_route.RateLimiter.{TokenBucketRateLimiter, allow}
use model_route.Routes.{Request, HttpReply, http_exception, client_identity, after_complete}
use model_route.Runtime.{Host, World, Outcome, ok, raise}
use model_route.Schemas.{ChatCompletionRequest, ChatCompletionResponse}
use model_route.Tasks.{Task, finished, piece}

-- How far the route is with a request: it came in; the clock was read; the limiter admitted it, and
-- the completion runs; it is answered after that; or it was turned away.
pub data Phase (F : Type 0) : Type 0 where
  arrived : ChatCompletionRequest F → Phase F
  timed : ChatCompletionRequest F → F → Phase F
  running : Task F (ChatCompletionResponse F) → Phase F
  answered : Outcome (HttpReply F) → Phase F
  turned_away : Outcome (HttpReply F) → Phase F

pub record Thread (F : Type 0) : Type 0 where
  pub request : Request
  pub phase : Phase F

pub record Gateway (F : Type 0) : Type 0 where
  pub world : World F
  pub threads : List (Thread F)

-- What happens next: a request comes in, or the event loop runs the next piece of a request.
pub data Choice (F : Type 0) : Type 0 where
  arrive : Request → ChatCompletionRequest F → Choice F
  turn : ℕ → Choice F

module _ {F : Type 0} ⦃fl : Float F⦄ (host : Host F) (service : CompletionService F)
    (rate_limiter : TokenBucketRateLimiter) (u : Unicode) where
  -- After the limiter's decision, `except` clause and `if not allowed` included.
  unfoldable pub decided : ChatCompletionRequest F → F → Outcome Bool → Phase F
  decided body started_at (ok true) = running (complete_task host service u body (some started_at))
  decided body started_at (ok false) = turned_away (ok (http_exception 429 "Rate limit exceeded"))
  decided body started_at (raise (gateway (rate_limiter_unavailable _))) =
      turned_away (ok (http_exception 503 "Rate limiter unavailable"))
  decided body started_at (raise e) = turned_away (raise e)

  -- The next piece of a request that is not over.
  unfoldable pub advance : Request → Phase F → World F → Option (Phase F × World F)
  unfolding decided
  advance request (arrived body) w =
      some (timed body (host.perf_counter w.tick), record w { tick = suc w.tick })
  advance request (timed body started_at) w =
      let (r, w') = allow host rate_limiter (client_identity u request) w in
      some (decided body started_at r, w')
  advance request (running (finished out)) w =
      let (reply, w') = after_complete out w in some (answered reply, w')
  advance request (running (piece change rest)) w = some (running (rest w), change w)
  advance request (answered reply) w = none
  advance request (turned_away reply) w = none

  -- The `i`-th request advances, if there is one that is not over.
  unfoldable pub turn_of : ℕ → List (Thread F) → World F → Option (List (Thread F) × World F)
  unfolding advance
  turn_of i [] w = none
  turn_of zero (t ∷ ts) w = elim (advance t.request t.phase w) [
    | none ↦ none
    | some (phase, w') ↦ some (record t { phase = phase } ∷ ts, w')
  ]
  turn_of (suc i) (t ∷ ts) w = elim (turn_of i ts w) [
    | none ↦ none
    | some (ts', w') ↦ some (t ∷ ts', w')
  ]

  after_turn : Gateway F → Option (List (Thread F) × World F) → Gateway F
  after_turn g none = g
  after_turn g (some (ts, w)) = record { world = w; threads = ts }

  unfoldable pub happen : Choice F → Gateway F → Gateway F
  unfolding turn_of after_turn
  happen (arrive request body) g = record g {
    threads = g.threads ++ record { request = request; phase = arrived body } ∷ [];
  }
  happen (turn i) g = after_turn g (turn_of i g.threads g.world)

  -- A history of the process: any requests, in any order of their pieces.
  unfoldable pub run : List (Choice F) → Gateway F → Gateway F
  unfolding happen
  run [] g = g
  run (c ∷ cs) g = run cs (happen c g)

-- The process before the first request.
abbrev pub opened : {F : Type 0} → World F → Gateway F
opened w = record { world = w; threads = [] }

-- The limiter let the request through.
unfoldable pub is_let_in : {F : Type 0} → Phase F → Bool
is_let_in (arrived _) = false
is_let_in (timed _ _) = false
is_let_in (running _) = true
is_let_in (answered _) = true
is_let_in (turned_away _) = false

-- The requests of a client that were let in.
unfoldable pub let_in : {F : Type 0} → Unicode → String → List (Thread F) → ℕ
unfolding is_let_in
let_in u client threads =
    count_if (λ t. str_eq (client_identity u t.request) client && is_let_in t.phase) threads
