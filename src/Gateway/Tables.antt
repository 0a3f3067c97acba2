-- ===== src/Gateway/Tables.antt =====
-- The table of requests while completions overlap (app/main.py, app/api/routes.py,
-- app/services/completion_service.py, app/services/metrics.py).
use model_route.Base.{
  String, ◌≡◌, refl, sym, ap, subst, ◌∙◌, Bool, Option, none, some, List, [], ◌∷◌, ◌++◌, append-nil,
  append_assoc, All, arith,
}
use model_route.Base.Float.{Float}
use model_route.Base.Unicode.{Unicode}
use model_route.Completion.{CompletionService}
use model_route.Completion.Tasks.Pieces.{EachGentle}
use model_route.Completion.Tasks.Steps.{complete_task-Gentle}
use model_route.Gateway.{
  Phase, arrived, timed, running, answered, turned_away, Thread, Choice, decided, advance, run,
  opened,
}
use model_route.Gateway.Threads.{decided_elim, Turned, here, there, All-Comes, run-keeps}
use model_route.Metrics.Table.{IsTable}
use model_route.RateLimiter.{TokenBucketRateLimiter, allow}
use model_route.Routes.{Request, client_identity, after_complete}
use model_route.Runtime.{Host, World, Row, Outcome}
use model_route.Schemas.{ChatCompletionRequest, ChatCompletionResponse}
use model_route.Tasks.{finished, piece}

module _ {F : Type 0} where
  -- The pieces to come of a completion do no harm.
  abbrev pub IsSound : Phase F → Type 0
  IsSound (running t) = EachGentle t
  IsSound _ = Unit

  -- No row is lost or changed, and a table stays one.
  abbrev pub RowsKept : List (Row F) → List (Row F) → Type 0
  RowsKept before after =
      ((extra : List (Row F)) × (after ≡ before ++ extra)) × (IsTable before → IsTable after)

  RowsKept-same : (before after : List (Row F)) → after ≡ before → RowsKept before after
  RowsKept-same before after e = rw e (([], sym (append-nil before)), λ t. t)

  RowsKept-trans : (a b c : List (Row F)) → RowsKept a b → RowsKept b c → RowsKept a c
  RowsKept-trans a b c ((x, e), f) ((y, h), k) =
      ((x ++ y, h ∙ ap (λ r. r ++ y) e ∙ append_assoc a x y), λ t. k (f t))

  pub after_complete-world :
      (out : Outcome (ChatCompletionResponse F)) (w : World F) → (after_complete out w).1 ≡ w
  unfolding after_complete
  after_complete-world out w = ground arith

module _ {F : Type 0} ⦃fl : Float F⦄ (host : Host F) (service : CompletionService F)
    (l : TokenBucketRateLimiter) (u : Unicode) where
  pub decided-IsSound :
      (body : ChatCompletionRequest F) (t : F) (x : Outcome Bool)
      → IsSound (decided host service l u body t x)
  decided-IsSound body t =
      decided_elim host service l u body t (λ _ phase. IsSound phase)
        (complete_task-Gentle host service u body (some t)) (λ x reply no. tt)

  allow-rows : (client : String) (w : World F) → (allow host l client w).1.rows ≡ w.rows
  unfolding allow
  allow-rows client w = ground arith

  abbrev Advanced : World F → Option (Phase F × World F) → Type 0
  Advanced w none = Unit
  Advanced w (some (phase, w')) = IsSound phase × RowsKept w.rows w'.rows

  advance-Advanced :
      (request : Request) (phase : Phase F) (w : World F)
      → IsSound phase
      → Advanced w (advance host service l u request phase w)
  unfolding advance
  advance-Advanced request (arrived body) w sound = (tt, RowsKept-same w.rows w.rows refl)
  advance-Advanced request (timed body t) w sound =
      let (x, v) = allow host l (client_identity u request) w in
      (
        decided-IsSound body t x,
        RowsKept-same w.rows v.rows (allow-rows (client_identity u request) w),
      )
  advance-Advanced request (running (finished out)) w sound =
      (tt, RowsKept-same w.rows _ (ap (λ v. v.rows) (after_complete-world out w)))
  advance-Advanced request (running (piece change rest)) w sound =
      let ((ticks, extends, table, keys), each) = sound w in (each, (extends, table))
  advance-Advanced request (answered reply) w sound = tt
  advance-Advanced request (turned_away reply) w sound = tt

  -- What every state keeps, from the rows at the start.
  abbrev Kept : List (Row F) → World F → List (Thread F) → Type 0
  Kept before w ts = All (λ t. IsSound t.phase) ts × RowsKept before w.rows

  Turned-Kept :
      (before : List (Row F)) (ts ts' : List (Thread F)) (w w' : World F)
      → Turned host service l u ts w ts' w'
      → Kept before w ts
      → Kept before w' ts'
  Turned-Kept before _ _ _ _ (here request phase phase' ts w w' e) ((sound, sounds), rows) =
      let (sound', next) = subst (Advanced w) e (advance-Advanced request phase w sound) in
      ((sound', sounds), RowsKept-trans before w.rows w'.rows rows next)
  Turned-Kept before _ _ _ _ (there t ts ts' w w' later) ((sound, sounds), rows) =
      let (sounds', rows') = Turned-Kept before ts ts' w w' later (sounds, rows) in
      ((sound, sounds'), rows')

  pub append-All :
      (P : Thread F → Type 0) (ts : List (Thread F)) (t : Thread F)
      → All P ts
      → P t
      → All P (ts ++ t ∷ [])
  append-All P [] t all p = (p, tt)
  append-All P (x ∷ ts) t (first, all) p = (first, append-All P ts t all p)

  -- However requests overlap, from the start of the process on: no row of the table is lost or
  -- changed, new ones come at the end, and the table stays well formed.
  pub run-RowsKept :
      (cs : List (Choice F)) (w : World F)
      → RowsKept w.rows (run host service l u cs (opened w)).world.rows
  run-RowsKept cs w =
      (run-keeps host service l u (Kept w.rows) (λ _. Unit)
        (λ request body v ts _ (sounds, rows). (append-All _ ts _ sounds tt, rows))
        (Turned-Kept w.rows) cs (All-Comes (λ _. Unit) (λ _. tt) cs) (opened w)
        (tt, RowsKept-same w.rows w.rows refl)).1
