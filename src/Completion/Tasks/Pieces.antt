-- ===== src/Completion/Tasks/Pieces.antt =====
-- What one piece of a completion does, in whatever state it runs
-- (app/services/completion_service.py).
use model_route.Base.{
  String, ℕ, suc, ◌≤◌, ◌≡◌, ◌⊎◌, inl, inr, refl, Bool, true, false, Option, none, some, List, [],
  ◌∷◌, ◌++◌, append-nil, arith, Bool-cases, if◌then◌else◌,
}
use model_route.Base.Dict.{lookup}
use model_route.Base.Float.{Float}
use model_route.Cache
use model_route.Cache.{ResponseCache, build_key}
use model_route.Completion.{
  CompletionService, start_time, response, elapsed_ms, record_success, sleep_before_retry,
}
use model_route.Completion.Store.{NoCacheKey, set-Keeps}
use model_route.Completion.Trace.{get-quiet, set-quiet}
use model_route.Metrics
use model_route.Metrics.{record_metric, success_metric}
use model_route.Metrics.Laws.{record_metric_lem, rows_after}
use model_route.Metrics.Table.{IsServed, IsFailed, IsTable, accepts-IsTable}
use model_route.Providers.{GenerationRequest, Provider, ProviderResult}
use model_route.Runtime.{
  Host, World, Row, RequestMetric, Action, Event, ask, note, logged, generate_called, Outcome, ok,
  raise,
}
use model_route.Runtime
use model_route.Schemas.{ChatCompletionRequest, ChatCompletionResponse, strategy_value}
use model_route.Tasks.{Task, ◌>>=◌, lift}
use model_route.Tasks.Laws.{Each, bind-Each}

module _ {F : Type 0} where
  -- Time goes on, no row is changed, the rows stay a table, and no key is written but the cache's.
  abbrev pub Gentle : World F → World F → Type 0
  Gentle w w' =
      (w.tick ≤ w'.tick)
      × ((extra : List (Row F)) × (w'.rows ≡ w.rows ++ extra))
      × (IsTable w.rows → IsTable w'.rows)
      × ((k : String) → NoCacheKey k → lookup k w'.redis ≡ lookup k w.redis)

  -- A piece that leaves the rows and Redis alone.
  pub Gentle-quiet :
      (w w' : World F) → w.tick ≤ w'.tick → w'.rows ≡ w.rows → w'.redis ≡ w.redis → Gentle w w'
  Gentle-quiet w w' ticks rows redis =
      (ticks, ([], rw (rows, append-nil) refl), (λ t. rw rows t), λ k apart. rw redis refl)

  abbrev pub IsGentle : {A : Type 0} → Action F A → Type 0
  IsGentle m = (w : World F) → Gentle w (m w).1

  abbrev pub EachGentle : {A : Type 0} → Task F A → Type 0
  EachGentle t = Each Gentle t

  pub lift-Gentle :
      {A B : Type 0} (m : Action F A) (f : A → Task F B)
      → IsGentle m
      → ((a : A) → EachGentle (f a))
      → EachGentle (lift m >>= f)
  lift-Gentle m f gentle next = bind-Each Gentle (lift m) f (λ w. (gentle w, tt)) next

  pub if-Gentle :
      {A : Type 0} (b : Bool) (s t : Task F A)
      → EachGentle s
      → EachGentle t
      → EachGentle (if b then s else t)
  if-Gentle true s t each skipped = each
  if-Gentle false s t skipped each = each

  after-state :
      {A B : Type 0} (o : Outcome A) (b : B) (v w : World F)
      → (Runtime.◌>>◌ (λ _. (o, v)) (Runtime.pure b) w).1 ≡ v
  after-state (ok a) b v w = refl
  after-state (raise e) b v w = refl

  pub then_pure-state :
      {A B : Type 0} (m : Action F A) (b : B) (w : World F)
      → (Runtime.◌>>◌ m (Runtime.pure b) w).1 ≡ (m w).1
  then_pure-state m b w = after-state (m w).0 b (m w).1 w

  then_pure-Gentle :
      {A B : Type 0} (m : Action F A) (b : B)
      → IsGentle m
      → IsGentle (Runtime.◌>>◌ m (Runtime.pure b))
  then_pure-Gentle m b gentle w = rw (then_pure-state m b w) (gentle w)

  pub note-Gentle : (e : Event F) → IsGentle (note e)
  note-Gentle e w = Gentle-quiet w (note e w).1 (omega arith) refl refl

  pub ask-Gentle : {A : Type 0} (answer : ℕ → A) → IsGentle (ask answer)
  ask-Gentle answer w = Gentle-quiet w (ask answer w).1 (omega arith) refl refl

module _ {F : Type 0} (host : Host F) where
  rows_after-extends :
      (n : ℕ) (m : RequestMetric F) (rows : List (Row F))
      → (extra : List (Row F)) × (rows_after host n m rows ≡ rows ++ extra)
  rows_after-extends n m rows = elim (Bool-cases (Metrics.accepts host n m rows)) [
    | inl taken ↦
        (record { id = n; timestamp = host.database_time n; metric = m } ∷ [], rw taken refl)
    | inr refused ↦ ([], rw (refused, append-nil) refl)
  ]

  pub record_metric-Gentle :
      (m : RequestMetric F) → IsServed m ⊎ IsFailed m → IsGentle (record_metric host m)
  record_metric-Gentle m kind w = rw (record_metric_lem host m w) (
    omega arith,
    rows_after-extends w.tick m w.rows,
    accepts-IsTable host w.tick m w.rows true kind,
    λ k apart. refl,
  )

  pub get-Gentle : (key : String) → IsGentle (Cache.get host key)
  get-Gentle key w =
      let (_, _, rows, _, redis, ticks) = get-quiet host key w in
      Gentle-quiet w (Cache.get host key w).1 (omega (arith, ticks)) rows redis

  pub set-Gentle :
      (cache : ResponseCache) (p : Provider F) (g : GenerationRequest F) (r : ProviderResult)
      → IsGentle (Cache.set host cache (build_key host p g) r)
  unfolding build_key
  set-Gentle cache p g r w =
      let (_, _, rows, _, ticks) = set-quiet host cache (build_key host p g) r w in
      (
        omega (arith, ticks),
        ([], rw (rows, append-nil) refl),
        (λ t. rw rows t),
        λ k apart. set-Keeps host k apart cache _ r w,
      )

module _ {F : Type 0} ⦃fl : Float F⦄ (host : Host F) (service : CompletionService F) where
  pub start-Gentle : (t : Option F) → IsGentle (start_time host service t)
  unfolding start_time
  start-Gentle none w = ask-Gentle host.perf_counter w
  start-Gentle (some t) w = Gentle-quiet w w (omega arith) refl refl

  pub elapsed-Gentle : (t : F) → IsGentle (elapsed_ms host service t)
  unfolding elapsed_ms
  elapsed-Gentle t w = Gentle-quiet w (record w { tick = suc w.tick }) (omega arith) refl refl

  pub sleep-Gentle : IsGentle (sleep_before_retry host service)
  unfolding sleep_before_retry
  sleep-Gentle w =
      Gentle-quiet w (sleep_before_retry host service w).1 (ground arith) (ground arith)
        (ground arith)

  pub response-Gentle :
      (r : ProviderResult) (id : String) (t : F) (hit fallback : Bool)
      → IsGentle (response host service r id t hit fallback)
  unfolding response
  response-Gentle r id t hit fallback w =
      Gentle-quiet w (response host service r id t hit fallback w).1 (ground arith) (ground arith)
        (ground arith)

  pub record_success-Gentle :
      (x : ChatCompletionResponse F) (request : ChatCompletionRequest F) (p : Provider F)
      → IsGentle (record_success host service x request p.metadata)
  unfolding record_success Metrics.record_success success_metric
  record_success-Gentle x request p w = elim (Bool-cases service.has_metrics) [
    | inl on ↦ rw on (
        then_pure-Gentle
          (record_metric host (success_metric host x (strategy_value request.strategy) p.metadata))
          tt (record_metric-Gentle host _ (inl (_, refl, refl))) w)
    | inr off ↦ rw off (Gentle-quiet w w (omega arith) refl refl)
  ]
