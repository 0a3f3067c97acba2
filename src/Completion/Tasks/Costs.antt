-- ===== src/Completion/Tasks/Costs.antt =====
-- What the attempts at a provider spend at most, however they are interrupted
-- (app/services/completion_service.py).
use model_route.Base.{◌+◌, str_eq, arith, if◌then◌else◌, String, ℕ, zero, suc, ◌&&◌, arith, ltb}
use model_route.Base.Float.{Float}
use model_route.Completion.{
  CompletionService, elapsed_ms, sleep_before_retry, warning, Attempted, gave_up,
}
use model_route.Completion.Tasks.{
  attempts_task, after_reply_task, retry_or_stop_task, record_failure_task,
}
use model_route.Errors.{ProviderError, retryable, type_name}
use model_route.Metrics
use model_route.Metrics.{record_metric, success_metric}
use model_route.Providers.{GenerationRequest, Provider, Reply, generated, failed, crashed, identity}
use model_route.Runtime.{Host, ask, note, logged, generate_called}
use model_route.Schemas.{ChatCompletionRequest, strategy_value}
use model_route.Tasks.{Task, ◌>>=◌, ◌>>◌, lift, pure}
use model_route.Completion.Tasks.Takes.{
  ask-Takes, warning-Takes, call-Takes, record_metric-Takes, elapsed-Takes, sleep-Takes,
}
use model_route.Tasks.Spending.{Spends, Spends-le, lift-Spends, quiet-Spends, if-Spends}

module _ {F : Type 0} ⦃fl : Float F⦄ (host : Host F) (service : CompletionService F)
    (i : String) where
  pub record_failure-Spends :
      (id : String) (request : ChatCompletionRequest F) (t : F) (category : String)
      → Spends i 0 1 (record_failure_task host service id request t category)
  unfolding record_failure_task Metrics.record_failure
  record_failure-Spends id request t category =
      if-Spends i 0 1 service.has_metrics _ (pure tt)
        (quiet-Spends i 0 1 (elapsed_ms host service t) _ (elapsed-Takes host service i t) (λ ms.
          lift-Spends i 0 1 0 0
            (Metrics.record_failure host id (strategy_value request.strategy) ms category)
            (λ _. pure tt) (record_metric-Takes host i _) (λ _. tt)))
        tt

  -- Calls of the provider, if it is the one that is counted.
  abbrev pub tried : Provider F → ℕ → ℕ
  tried p left = if str_eq i (identity p.metadata) then left else 0

  retry_or_stop-Spends :
      (n : ℕ) (exc : ProviderError) (attempt : ℕ) (again : Task F (Attempted F × String))
      → Spends i n 0 again
      → Spends i n 0 (retry_or_stop_task host service exc attempt again)
  unfolding retry_or_stop_task
  retry_or_stop-Spends n exc attempt again each =
      if-Spends i n 0 (retryable exc && ltb attempt service.max_retries) _
        (pure (gave_up, type_name exc))
        (quiet-Spends i n 0 (sleep_before_retry host service) (λ _. again)
          (sleep-Takes host service i) (λ _. each))
        tt

  after_reply-Spends :
      (n : ℕ) (p : Provider F) (reply : Reply) (t : F) (attempt : ℕ) (category : String)
      (again : String → Task F (Attempted F × String))
      → ((c : String) → Spends i n 0 (again c))
      → Spends i n 0 (after_reply_task host service p reply t attempt category again)
  unfolding after_reply_task
  after_reply-Spends n p (generated r) t attempt category again each = tt
  after_reply-Spends n p (failed exc) t attempt category again each =
      quiet-Spends i n 0 (note (logged (warning p.metadata.name exc attempt))) _
        (warning-Takes i (warning p.metadata.name exc attempt))
        (λ _. retry_or_stop-Spends n exc attempt _ (each (type_name exc)))
  after_reply-Spends n p (crashed e) t attempt category again each = tt

  pub attempts-Spends :
      (p : Provider F) (g : GenerationRequest F) (left attempt : ℕ) (category : String)
      → Spends i (tried p left) 0 (attempts_task host service p g left attempt category)
  unfolding attempts_task
  attempts-Spends p g zero attempt category = tt
  attempts-Spends p g (suc left) attempt category =
      let react : F → Reply → Task F (Attempted F × String) = λ t reply.
        after_reply_task host service p reply t attempt category
          (attempts_task host service p g left (suc attempt)) in
      let called : F → Reply → Task F (Attempted F × String) =
        λ t reply. lift (note (generate_called (identity p.metadata))) >> react t reply in
      let n = tried p 1 + tried p left in
      Spends-le i n (tried p (suc left)) 0 0
        (attempts_task host service p g (suc left) attempt category) (ground arith) (omega arith)
        (quiet-Spends i n 0 (ask host.perf_counter)
          (λ t. lift (ask (λ n. p.generate n g)) >>= called t) (ask-Takes i host.perf_counter)
          (λ t.
            quiet-Spends i n 0 (ask (λ n. p.generate n g)) (called t)
              (ask-Takes i (λ n. p.generate n g))
              (λ reply.
                lift-Spends i (tried p 1) 0 (tried p left) 0
                  (note (generate_called (identity p.metadata))) (λ _. react t reply)
                  (call-Takes i (identity p.metadata))
                  (λ _.
                    after_reply-Spends (tried p left) p reply t attempt category _
                      (attempts-Spends p g left (suc attempt))))))
