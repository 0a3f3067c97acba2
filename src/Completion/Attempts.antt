-- ===== src/Completion/Attempts.antt =====
-- The attempts at one provider (app/services/completion_service.py, the inner loop).
use model_route.Base.{
  String, ℕ, zero, suc, ◌+◌, ◌*◌, ◌≤◌, ◌<◌, ◌≡◌, ◌⊎◌, inl, inr, refl, true, false, ◌&&◌, arith, ◌∷◌,
  str_eq, if◌then◌else◌, ltb, Bool-cases, count_if,
}
use model_route.Base.Float.{Float}
use model_route.Completion.{
  CompletionService, Attempted, succeeded, gave_up, attempts, after_reply, retry_or_stop,
  sleep_before_retry, warning,
}
use model_route.Completion.Trace.{calls, sleeps}
use model_route.Errors.{ProviderError, retryable, type_name}
use model_route.Providers.{GenerationRequest, Provider, Reply, generated, failed, crashed, identity}
use model_route.Runtime.{
  Host, World, Outcome, ok, raise, Action, generate_called, slept, logged, Event, ◌>>◌,
}

-- The reply is a failure that may be retried.
abbrev pub IsRetryable : Reply → Type 0
IsRetryable (failed exc) = retryable exc ≡ true
IsRetryable _ = ⊥

module _ {F : Type 0} ⦃fl : Float F⦄ (host : Host F) (service : CompletionService F) where
  -- How the loop ends on the reply to its last attempt, number `i`, which began at `t`.
  abbrev pub Ends : ℕ → Reply → F → Outcome (Attempted F × String) → Type 0
  Ends i (generated result) t out = (c : String) × (out ≡ ok (succeeded result t, c))
  Ends i (failed exc) t out =
      ((retryable exc ≡ false) ⊎ (i ≡ service.max_retries)) × (out ≡ ok (gave_up, type_name exc))
  Ends i (crashed e) t out = out ≡ raise e

  -- A run of the loop from attempt `i` on: after `retries` failures that may be retried one more
  -- attempt ends it.
  pub record Run (provider : Provider F) (request : GenerationRequest F) (i : ℕ) (w : World F)
      (out : Outcome (Attempted F × String) × World F) : Type 0 where
    pub retries : ℕ
    pub bounded : i + retries ≤ service.max_retries
    pub failures :
        (j : ℕ) → j < retries → IsRetryable (provider.generate (w.tick + 2 * j + 1) request)
    pub ends :
        Ends
          (i + retries)
          (provider.generate (w.tick + 2 * retries + 1) request)
          (host.perf_counter (w.tick + 2 * retries))
          out.0
    pub ticks : out.1.tick ≡ w.tick + 2 * retries + 2
    pub calls_made :
        (id : String)
        → calls id out.1
          ≡ calls id w + (if str_eq id (identity provider.metadata) then suc retries else 0)
    pub waits :
        sleeps out.1
        ≡ sleeps w + (if fl.eq service.retry_delay_seconds (fl.of_nat 0) then 0 else retries)
    pub rows_kept : out.1.rows ≡ w.rows
    pub latency_kept : out.1.latency ≡ w.latency
    pub redis_kept : out.1.redis ≡ w.redis

  module _ (provider : Provider F) (request : GenerationRequest F) where
    -- The state in which an attempt that began at `w` has its reply.
    abbrev replied : World F → World F
    replied w = record w {
      tick = suc (suc w.tick);
      events = generate_called (identity provider.metadata) ∷ w.events;
    }

    -- The state after a failure that is retried.
    abbrev retried : ProviderError → ℕ → World F → World F
    retried exc i w =
        let warned : Event F = logged (warning provider.metadata.name exc i) in
        record w {
          tick = suc (suc w.tick);
          events =
              if fl.eq service.retry_delay_seconds (fl.of_nat 0)
              then warned ∷ generate_called (identity provider.metadata) ∷ w.events
              else slept service.retry_delay_seconds
                ∷ warned
                ∷ generate_called (identity provider.metadata)
                ∷ w.events;
        }

    Run-last :
        (i : ℕ) (w w' : World F) (out : Outcome (Attempted F × String))
        → i ≤ service.max_retries
        → Ends i (provider.generate (suc w.tick) request) (host.perf_counter w.tick) out
        → w'.tick ≡ suc (suc w.tick)
        → ((id : String)
            → calls id w' ≡ calls id w + (if str_eq id (identity provider.metadata) then 1 else 0))
        → sleeps w' ≡ sleeps w
        → (w'.rows ≡ w.rows) × (w'.latency ≡ w.latency) × (w'.redis ≡ w.redis)
        → Run provider request i w (out, w')
    Run-last i w w' out h ends ticks made waits (rows, latency, redis) =
        let e0 : w.tick + 2 * 0 ≡ w.tick = omega arith in
        let e1 : w.tick + 2 * 0 + 1 ≡ suc w.tick = omega arith in
        let e2 : i + 0 ≡ i = omega arith in
        record {
          retries = 0;
          bounded = omega arith;
          failures = λ j k. absurd (omega arith);
          ends = rw (e1, e0, e2) ends;
          ticks = omega arith;
          calls_made = λ id. made id;
          waits = ground arith;
          rows_kept = rows;
          latency_kept = latency;
          redis_kept = redis;
        }

    failures_suc :
        (n tick : ℕ)
        → IsRetryable (provider.generate (suc tick) request)
        → ((j : ℕ) → j < n → IsRetryable (provider.generate (suc (suc tick) + 2 * j + 1) request))
        → (j : ℕ) → j < suc n
        → IsRetryable (provider.generate (tick + 2 * j + 1) request)
    failures_suc n tick first later zero h =
        let e : tick + 2 * 0 + 1 ≡ suc tick = omega arith in rw e first
    failures_suc n tick first later (suc j) h =
        let e : tick + 2 * suc j + 1 ≡ suc (suc tick) + 2 * j + 1 = omega arith in
        rw e (later j (omega arith))

    Run-retry :
        (i : ℕ) (w : World F) (exc : ProviderError) (out : Outcome (Attempted F × String) × World F)
        → provider.generate (suc w.tick) request ≡ failed exc
        → retryable exc ≡ true
        → Run provider request (suc i) (retried exc i w) out
        → Run provider request i w out
    unfolding calls sleeps count_if
    Run-retry i w exc out e again r =
        let e1 : w.tick + 2 * 0 + 1 ≡ suc w.tick = omega arith in
        let n = r.retries in
        let shift0 : w.tick + 2 * suc n ≡ suc (suc w.tick) + 2 * n = omega arith in
        let shift1 : w.tick + 2 * suc n + 1 ≡ suc (suc w.tick) + 2 * n + 1 = omega arith in
        let shift2 : i + suc n ≡ suc i + n = omega arith in
        record {
          retries = suc n;
          bounded = omega (arith, r.bounded);
          failures = failures_suc n w.tick (rw e again) r.failures;
          ends = rw (shift1, shift0, shift2) r.ends;
          ticks = omega (arith, r.ticks);
          calls_made = λ id. ground (arith, r.calls_made id);
          waits = ground (arith, r.waits);
          rows_kept = r.rows_kept;
          latency_kept = r.latency_kept;
          redis_kept = r.redis_kept;
        }

    sleep_lem :
        (exc : ProviderError) (i : ℕ) (w : World F) (again : Action F (Attempted F × String))
        → (sleep_before_retry host service >> again) (record w {
          tick = suc (suc w.tick);
          events =
              logged (warning provider.metadata.name exc i)
              ∷ generate_called (identity provider.metadata)
              ∷ w.events;
        })
          ≡ again (retried exc i w)
    unfolding sleep_before_retry
    sleep_lem exc i w again = elim (Bool-cases (fl.eq service.retry_delay_seconds (fl.of_nat 0))) [
      | inl same ↦ rw (same, sleep_before_retry) refl
      | inr wait ↦ rw (wait, sleep_before_retry) refl
    ]

    -- One round of the loop, given a run of what follows a retry.
    after_reply-Run :
        (i : ℕ) (category : String) (w : World F) (again : String → Action F (Attempted F × String))
        → i ≤ service.max_retries
        → ((exc : ProviderError)
            → i < service.max_retries
            → Run provider request
                (suc i)
                (retried exc i w)
                (again (type_name exc) (retried exc i w)))
        → (reply : Reply) → provider.generate (suc w.tick) request ≡ reply
        → Run provider request i w (
            after_reply host service provider reply
              (host.perf_counter w.tick)
              i
              category
              again
              (replied w))
    unfolding after_reply calls sleeps count_if
    after_reply-Run i category w again h next (generated result) e =
        Run-last i w (replied w) _ h (rw e (category, refl)) refl (λ id. ground arith)
          (ground arith) (refl, refl, refl)
    after_reply-Run i category w again h next (crashed x) e =
        Run-last i w (replied w) _ h (rw e refl) refl (λ id. ground arith) (ground arith)
          (refl, refl, refl)
    after_reply-Run i category w again h next (failed exc) e =
        elim (Bool-cases (retryable exc && ltb i service.max_retries)) [
          | inl go ↦
              rw (go, retry_or_stop, sleep_lem exc i w (again (type_name exc)))
                (Run-retry i w exc _ e (ground arith) (next exc (ground arith)))
          | inr stop ↦
              rw (stop, retry_or_stop)
                (Run-last i w _ _ h (rw e (ground arith, refl)) refl (λ id. ground arith)
                  (ground arith) (refl, refl, refl))
        ]

    attempts-Run :
        (left i : ℕ) (category : String) (w : World F)
        → i + left ≡ service.max_retries
        → Run provider request i w (attempts host service provider request (suc left) i category w)
    unfolding attempts
    attempts-Run zero i category w h =
        after_reply-Run i category w _ (omega arith) (λ exc more. absurd (omega arith)) _ refl
    attempts-Run (suc left) i category w h =
        after_reply-Run i category w _ (omega arith)
          (λ exc more. attempts-Run left (suc i) (type_name exc) (retried exc i w) (omega arith)) _
          refl

    -- The loop over attempts makes at least one attempt and at most `max_retries` more, each after
    -- a failure that may be retried; it ends with the result of the last attempt, or gives up
    -- after a failure that may not be retried or at the bound, with the category of that failure,
    -- or passes on any other exception. It calls this provider once for each attempt and no other,
    -- waits once before each retry if there is a delay, and changes no row, average or key.
    pub attempts_lem :
        (category : String) (w : World F)
        → Run provider request 0 w
            (attempts host service provider request (suc service.max_retries) 0 category w)
    attempts_lem category w = attempts-Run service.max_retries 0 category w (omega arith)
