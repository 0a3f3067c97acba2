-- ===== src/Gateway/Budget.antt =====
-- What overlapping requests cost (app/main.py, app/api/routes.py,
-- app/services/completion_service.py): calls of the providers, and rows of metrics.
use model_route.Base.{
  String, ℕ, suc, ◌+◌, ◌*◌, ◌≤◌, ◌≡◌, ap, subst, Bool, Option, none, some, List, [], ◌∷◌, ◌++◌,
  arith, length, count_if, if◌then◌else◌,
}
use model_route.Base.Float.{Float}
use model_route.Base.Unicode.{Unicode}
use model_route.Completion.{CompletionService}
use model_route.Completion.Candidates.{tries}
use model_route.Completion.Tasks.Budget.{complete_task-Spends}
use model_route.Completion.Trace.{calls}
use model_route.Gateway.{
  Phase, arrived, timed, running, answered, turned_away, Thread, Choice, decided, advance, run,
  opened, is_let_in,
}
use model_route.Gateway.Tables.{after_complete-world}
use model_route.Gateway.Threads.{decided_elim, Turned, here, there, All-Comes, run-keeps}
use model_route.RateLimiter.{TokenBucketRateLimiter, allow}
use model_route.Routes.{Request, client_identity}
use model_route.Runtime.{Host, World, Row, Outcome}
use model_route.Schemas.{ChatCompletionRequest}
use model_route.Tasks.{finished, piece}
use model_route.Tasks.Spending.{Spends}

-- The requests of all clients that were let in.
unfoldable pub all_let_in : {F : Type 0} → List (Thread F) → ℕ
unfolding is_let_in count_if
all_let_in threads = count_if (λ t. is_let_in t.phase) threads

module _ {F : Type 0} ⦃fl : Float F⦄ (host : Host F) (service : CompletionService F)
    (l : TokenBucketRateLimiter) (u : Unicode) (i : String) where
  -- The calls that one request may make.
  abbrev pub most_calls : ℕ
  most_calls = tries i service.router.providers * suc service.max_retries

  -- What the request may still spend.
  abbrev Holds : ℕ → ℕ → Phase F → Type 0
  Holds n r (running t) = Spends i n r t
  Holds n r _ = Unit

  abbrev one : Phase F → ℕ
  one phase = if is_let_in phase then 1 else 0

  allow-quiet :
      (client : String) (w : World F)
      → let v = (allow host l client w).1 in (calls i v ≡ calls i w) × (v.rows ≡ w.rows)
  unfolding allow calls count_if
  allow-quiet client w = (ground arith, ground arith)

  -- What the limiter's decision grants.
  abbrev Granted : Phase F → Type 0
  Granted phase =
      (n : ℕ) × (r : ℕ) × Holds n r phase × (n ≤ one phase * most_calls) × (r ≤ one phase)

  decided-Granted :
      (body : ChatCompletionRequest F) (t : F) (x : Outcome Bool)
      → Granted (decided host service l u body t x)
  unfolding is_let_in
  decided-Granted body t =
      decided_elim host service l u body t (λ _ phase. Granted phase)
        (
          most_calls,
          1,
          complete_task-Spends host service i u body (some t),
          omega arith,
          omega arith,
        )
        (λ x reply no. (0, 0, tt, omega arith, omega arith))

  -- After an advance: what was spent and is left comes from what was left, and from what a request
  -- that is let in is granted.
  abbrev Covered : ℕ → ℕ → ℕ → World F → ℕ → ℕ → ℕ → World F → Type 0
  Covered n r ones w n' r' ones' w' =
      (more : ℕ) × (ones' ≡ ones + more)
      × (calls i w' + n' ≤ calls i w + n + more * most_calls)
      × (length w'.rows + r' ≤ length w.rows + r + more)

  abbrev Spent : ℕ → ℕ → Phase F → World F → Option (Phase F × World F) → Type 0
  Spent n r phase w none = Unit
  Spent n r phase w (some (phase', w')) =
      (n' : ℕ) × (r' : ℕ) × Holds n' r' phase' × Covered n r (one phase) w n' r' (one phase') w'

  advance-Spent :
      (request : Request) (phase : Phase F) (n r : ℕ) (w : World F)
      → Holds n r phase
      → Spent n r phase w (advance host service l u request phase w)
  unfolding advance is_let_in calls
  advance-Spent request (arrived body) n r w holds =
      (0, 0, tt, (0, omega arith, omega arith, omega arith))
  advance-Spent request (timed body t) n r w holds =
      let (x, v) = allow host l (client_identity u request) w in
      let (called, rows) = allow-quiet (client_identity u request) w in
      let (n', r', holds', few_calls, few_rows) = decided-Granted body t x in
      (
        n',
        r',
        holds',
        (
          one (decided host service l u body t x),
          omega arith,
          omega (arith, called, few_calls),
          omega (arith, ap (λ (y : List (Row F)). length y) rows, few_rows),
        ),
      )
  advance-Spent request (running (finished out)) n r w holds =
      let same = after_complete-world out w in
      (0, 0, tt, (0, omega arith, rw same (omega arith), rw same (omega arith)))
  advance-Spent request (running (piece change rest)) n r w holds =
      let (m, s, less_calls, less_rows, later) = holds w in
      (m, s, later, (0, omega arith, omega (arith, less_calls), omega (arith, less_rows)))
  advance-Spent request (answered reply) n r w holds = tt
  advance-Spent request (turned_away reply) n r w holds = tt

  -- What all requests together may still spend.
  abbrev Owed : ℕ → ℕ → List (Thread F) → Type 0
  Owed n r [] = Unit
  Owed n r (t ∷ ts) =
      (a : ℕ) × (b : ℕ) × (c : ℕ) × (d : ℕ) × (a + c ≤ n)
      × (b + d ≤ r)
      × Holds a b t.phase
      × Owed c d ts

  Turned-Owed :
      (ts ts' : List (Thread F)) (w w' : World F)
      → Turned host service l u ts w ts' w'
      → (n r : ℕ) → Owed n r ts
      → (n' : ℕ) × (r' : ℕ) × Owed n' r' ts'
        × Covered n r (all_let_in ts) w n' r' (all_let_in ts') w'
  unfolding all_let_in count_if
  Turned-Owed _ _ _ _ (here request phase phase' ts w w' e) n r (a, b, c, d, h, k, holds, owed) =
      let (a', b', holds', (more, ones, less_calls, less_rows)) =
        subst (Spent a b phase w) e (advance-Spent request phase a b w holds) in
      (
        a' + c,
        b' + d,
        (a', b', c, d, omega arith, omega arith, holds', owed),
        (more, omega (arith, ones), omega arith, omega arith),
      )
  Turned-Owed _ _ _ _ (there t ts ts' w w' later) n r (a, b, c, d, h, k, holds, owed) =
      let (c', d', owed', (more, ones, less_calls, less_rows)) =
        Turned-Owed ts ts' w w' later c d owed in
      (
        a + c',
        b + d',
        (a, b, c', d', omega arith, omega arith, holds, owed'),
        (more, omega (arith, ones), omega arith, omega arith),
      )

  Owed-arrived :
      (ts : List (Thread F)) (request : Request) (body : ChatCompletionRequest F) (n r : ℕ)
      → Owed n r ts
      → Owed n r (ts ++ record { request = request; phase = arrived body } ∷ [])
  Owed-arrived [] request body n r owed = (0, 0, 0, 0, omega arith, omega arith, tt, tt)
  Owed-arrived (t ∷ ts) request body n r (a, b, c, d, h, k, holds, owed) =
      (a, b, c, d, h, k, holds, Owed-arrived ts request body c d owed)

  all_let_in-arrived :
      (ts : List (Thread F)) (request : Request) (body : ChatCompletionRequest F)
      → all_let_in (ts ++ record { request = request; phase = arrived body } ∷ []) ≡ all_let_in ts
  unfolding all_let_in count_if
  all_let_in-arrived [] request body = omega arith
  all_let_in-arrived (t ∷ ts) request body = omega (arith, all_let_in-arrived ts request body)

  -- What every state keeps.
  abbrev WithinBudget : World F → World F → List (Thread F) → Type 0
  WithinBudget start w ts =
      (n : ℕ) × (r : ℕ) × Owed n r ts
      × (calls i w + n ≤ calls i start + all_let_in ts * most_calls)
      × (length w.rows + r ≤ length start.rows + all_let_in ts)

  Turned-WithinBudget :
      (start : World F) (ts ts' : List (Thread F)) (w w' : World F)
      → Turned host service l u ts w ts' w'
      → WithinBudget start w ts
      → WithinBudget start w' ts'
  Turned-WithinBudget start ts ts' w w' turned (n, r, owed, few_calls, few_rows) =
      let (n', r', owed', (more, ones, less_calls, less_rows)) =
        Turned-Owed ts ts' w w' turned n r owed in
      (n', r', owed', omega (arith, ap (λ (x : ℕ). x * most_calls) ones), omega arith)

  -- However the requests of all clients overlap and whatever fails, from the start of the process
  -- on: the providers of one identity are called at most `max_retries + 1` times for each that is
  -- configured and each request that the limiter let in, and at most one row of metrics is written
  -- for each of these requests.
  pub calls-le-let_in :
      (cs : List (Choice F)) (w : World F)
      → let g = run host service l u cs (opened w) in
        (calls i g.world
          ≤ calls i w
            + all_let_in g.threads * (tries i service.router.providers * suc service.max_retries))
        × (length g.world.rows ≤ length w.rows + all_let_in g.threads)
  unfolding all_let_in count_if
  calls-le-let_in cs w =
      let kept : WithinBudget w (run host service l u cs (opened w)).world
          (run host service l u cs (opened w)).threads =
        run-keeps host service l u (WithinBudget w) (λ _. Unit)
          (λ request body v ts _ (n, r, owed, few_calls, few_rows). (
            n,
            r,
            Owed-arrived ts request body n r owed,
            rw (all_let_in-arrived ts request body) few_calls,
            rw (all_let_in-arrived ts request body) few_rows,
          ))
          (Turned-WithinBudget w) cs (All-Comes (λ _. Unit) (λ _. tt) cs) (opened w)
          (0, 0, tt, omega arith, omega arith) in
      let (n, r, _, few_calls, few_rows) = kept in
      (omega (arith, few_calls), omega (arith, few_rows))
