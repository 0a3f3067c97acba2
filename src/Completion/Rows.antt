-- ===== src/Completion/Rows.antt =====
-- What a completion does to the table of requests, and how often it calls a provider
-- (app/services/completion_service.py).
use model_route.Base.Sorting.Laws.{count_if-sorted}
use model_route.Base.{
  refl, ◌⊎◌, sym, ap, ◌∙◌, str_eq, append-nil, append_assoc, count_if-append, count_if-keep-le,
  String, ℕ, suc, ◌+◌, ◌*◌, ◌≤◌, ◌≡◌, inl, inr, Bool, true, false, ◌&&◌, Option, none, some, List,
  [], ◌∷◌, ◌++◌, arith, Bool-cases, count_if, length,
}
use model_route.Base.Float.{Float}
use model_route.Base.Unicode.{Unicode}
use model_route.Completion.{CompletionService, complete}
use model_route.Completion.Candidates.{Ending, served, exhausted, crashed_at, misread, tries}
use model_route.Completion.Complete.{Completed, complete_lem, start_of, generation_of}
use model_route.Completion.Ends.{ClockRuns, Recorded}
use model_route.Completion.Trace.{calls}
use model_route.Metrics.{success_metric, accepts}
use model_route.Metrics.Table.{IsServed, IsFailed, IsTable, accepts-IsTable}
use model_route.Providers.{GenerationRequest, Provider, identity}
use model_route.Router.{is_eligible, eligible_of, route, candidates}
use model_route.Router.Laws.{route-sorted}
use model_route.Runtime.{Host, World, Row, RequestMetric, Outcome}
use model_route.Schemas.{ChatCompletionRequest, ChatCompletionResponse, strategy_value}

module _ {F : Type 0} ⦃fl : Float F⦄ (host : Host F) (service : CompletionService F) where
  -- One row more at most, at the end, and the rows stay a table.
  abbrev pub Grows : List (Row F) → List (Row F) → Type 0
  Grows before after =
      ((extra : List (Row F)) × (after ≡ before ++ extra) × (length extra ≤ 1))
      × (IsTable before → IsTable after)

  Grows-same : (before after : List (Row F)) → after ≡ before → Grows before after
  Grows-same before after e = rw e (([], sym (append-nil before), omega arith), λ t. t)

  Recorded-Grows :
      (m : RequestMetric F) (before after : List (Row F))
      → IsServed m ⊎ IsFailed m
      → Recorded host service m before after
      → Grows before after
  Recorded-Grows m before after kind (n, e) = (
    elim (Bool-cases (service.has_metrics && accepts host n m before)) [
      | inl taken ↦ (_, rw (taken) at e, omega arith)
      | inr refused ↦ ([], rw (append-nil before) (rw (refused) at e), omega arith)
    ],
    λ t. rw e (accepts-IsTable host n m before service.has_metrics kind t),
  )

  module _ (request : ChatCompletionRequest F) (u : Unicode) where
    Ending-Grows :
        (g : GenerationRequest F) (id : String) (t : F) (ps : List (Provider F)) (index : ℕ)
        (category : String) (w : World F) (out : Outcome (ChatCompletionResponse F) × World F)
        → Ending host service request g id t ps index category w out
        → Grows w.rows out.1.rows
    unfolding success_metric
    Ending-Grows g id t ps index category w out
          (served before after p r hit n position split place failures source (done, row) more) =
        Recorded-Grows _ _ _ (inl (_, refl, refl)) row
    Ending-Grows g id t ps index category w out (exhausted c n fails done row more) =
        Recorded-Grows _ _ _ (inr (refl, refl, refl, refl, refl, refl)) row
    Ending-Grows g id t ps index category w out
          (crashed_at before after p n e split failures crash done rows more) =
        Grows-same _ _ rows
    Ending-Grows g id t ps index category w out
          (misread before after s split failures bad done rows more) =
        Grows-same _ _ rows

    Completed-Grows :
        (id : String) (t : F) (w : World F) (out : Outcome (ChatCompletionResponse F) × World F)
        → Completed host service u request id t w out
        → Grows w.rows out.1.rows
    Completed-Grows id t w out (inl (nobody, done, row, quiet)) =
        Recorded-Grows _ _ _ (inr (refl, refl, refl, refl, refl, refl)) row
    Completed-Grows id t w out (inr (ps, routed, end)) = Ending-Grows _ _ _ _ _ _ _ _ end

    complete-Grows :
        (started_at : Option F) (w : World F)
        → ClockRuns host service (start_of host started_at w) w.tick
        → Grows w.rows (complete host service u request started_at w).1.rows
    complete-Grows none w clock =
        Completed-Grows _ _ _ _ (complete_lem host service u request none w clock)
    complete-Grows (some t) w clock =
        Completed-Grows _ _ _ _ (complete_lem host service u request (some t) w clock)

    -- If no later read of the clock is earlier than the start:
    -- a completion keeps all rows and adds one at most, at the end.
    pub complete-rows :
        (started_at : Option F) (w : World F)
        → ClockRuns host service (start_of host started_at w) w.tick
        → (extra : List (Row F)) × ((complete host service u request started_at w).1.rows
            ≡ w.rows ++ extra)
          × (length extra ≤ 1)
    complete-rows started_at w clock = (complete-Grows started_at w clock).0

    -- If no later read of the clock is earlier than the start:
    -- a completion keeps the table well formed: each row is of a success, which names its provider,
    -- or of a failure, which names none and counts nothing; texts and counts are within their
    -- columns; request ids are distinct.
    pub complete-IsTable :
        (started_at : Option F) (w : World F)
        → ClockRuns host service (start_of host started_at w) w.tick
        → IsTable w.rows
        → IsTable (complete host service u request started_at w).1.rows
    complete-IsTable started_at w clock t = (complete-Grows started_at w clock).1 t

    Called-le :
        (i : String) (most rest ps : List (Provider F)) (a c : ℕ)
        → ps ≡ most ++ rest
        → a ≤ c + tries i most * suc service.max_retries
        → a ≤ c + tries i ps * suc service.max_retries
    unfolding tries
    Called-le i most rest ps a c split h =
        rw (split, count_if-append (λ p. str_eq i (identity p.metadata)) most rest)
          (grind (arith, h))

    Ending-called :
        (g : GenerationRequest F) (id : String) (t : F) (ps : List (Provider F)) (index : ℕ)
        (category : String) (w : World F) (out : Outcome (ChatCompletionResponse F) × World F)
        → Ending host service request g id t ps index category w out
        → (i : String) → calls i out.1 ≤ calls i w + tries i ps * suc service.max_retries
    Ending-called g id t ps index category w out
          (served before after p r true n position split place failures source (done, row) more) i =
        Called-le i (before ++ []) (p ∷ after) ps _ _
          (split ∙ ap (λ qs. qs ++ p ∷ after) (sym (append-nil before))) (more i).1
    Ending-called g id t ps index category w out
          (served before after p r false n position split place failures source (done, row) more)
          i =
        Called-le i (before ++ p ∷ []) after ps _ _
          (split ∙ sym (append_assoc before (p ∷ []) after)) (more i).1
    Ending-called g id t ps index category w out (exhausted c n fails done row more) i = (more i).1
    Ending-called g id t ps index category w out
          (crashed_at before after p n e split failures crash done rows more) i =
        Called-le i (before ++ p ∷ []) after ps _ _
          (split ∙ sym (append_assoc before (p ∷ []) after)) (more i).1
    Ending-called g id t ps index category w out
          (misread before after s split failures bad done rows more) i =
        Called-le i before after ps _ _ split (more i).1

    -- No route names a provider more often than it is configured.
    pub tries-route-le :
        (w : World F) (g : GenerationRequest F) (ps : List (Provider F))
        → route u service.router w.latency (strategy_value request.strategy) g ≡ candidates ps
        → (i : String) → tries i ps ≤ tries i service.router.providers
    unfolding tries eligible_of
    tries-route-le w g ps routed i =
        let named : Provider F → Bool = λ p. str_eq i (identity p.metadata) in
        let (lt, same) = route-sorted u service.router w.latency _ g ps routed in
        let fewer =
          count_if-keep-le named (is_eligible service.router.allow_mock) service.router.providers in
        let counts : tries i ps ≡ tries i (eligible_of service.router) =
          rw same (count_if-sorted named lt _) in
        omega (arith, counts, fewer)

    Completed-called :
        (id : String) (t : F) (w : World F) (out : Outcome (ChatCompletionResponse F) × World F)
        → Completed host service u request id t w out
        → (i : String)
        → calls i out.1 ≤ calls i w + tries i service.router.providers * suc service.max_retries
    Completed-called id t w out (inl (nobody, done, row, quiet)) i = omega (arith, quiet i)
    Completed-called id t w out (inr (ps, routed, end)) i = grind (
      arith,
      Ending-called _ _ _ _ _ _ _ _ end i,
      tries-route-le w (generation_of host service u request) ps routed i,
    )

    -- If no later read of the clock is earlier than the start:
    -- a completion calls the providers of one identity at most `max_retries + 1` times for each
    -- that is configured.
    pub calls-complete :
        (started_at : Option F) (w : World F)
        → ClockRuns host service (start_of host started_at w) w.tick
        → (i : String)
        → calls i (complete host service u request started_at w).1
          ≤ calls i w + tries i service.router.providers * suc service.max_retries
    unfolding calls count_if
    calls-complete none w clock =
        Completed-called _ _ _ _ (complete_lem host service u request none w clock)
    calls-complete (some t) w clock =
        Completed-called _ _ _ _ (complete_lem host service u request (some t) w clock)
