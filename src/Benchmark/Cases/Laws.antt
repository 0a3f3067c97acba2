-- ===== src/Benchmark/Cases/Laws.antt =====
-- What the summary of a case counts (scripts/benchmark.py, `run_case`).
use model_route.Base.{
  String, ℕ, ◌+◌, ◌<◌, ◌≡◌, refl, sym, ◌∙◌, true, List, map, length, length-map, count_if-le-length,
  count_if-true, arith, str_eq, Bool-cases, inl, inr,
}
use model_route.Base.Float.{Float}
use model_route.Benchmark.{RequestOutcome}
use model_route.Benchmark.Cases.{Case, Run}
use model_route.Benchmark.Payloads.{Payload, range_from, measured_payloads}
use model_route.Benchmark.Payloads.Laws.{length-repeated, length-range_from}
use model_route.Benchmark.Percentile.{Builtins}
use model_route.Benchmark.Summary.{Summary, summary_of, with_percentiles, summarize}
use model_route.Benchmark.Workers.Laws.{all_returned}
use model_route.Runtime.{Outcome, ok, raise}

ok_inj : {A : Type 0} (x y : A) → ok x ≡ ok y → x ≡ y
ok_inj x y e = cc

module _ {F : Type 0} ⦃fl : Float F⦄ where
  -- All outcomes are counted, as successes or as failures.
  abbrev pub Counts : ℕ → Summary F → Type 0
  Counts n s = (s.total_requests ≡ n) × (s.successful_requests + s.failed_requests ≡ n)

  with_percentiles-Counts :
      (builtins : Builtins F) (scenario : String) (concurrency : ℕ)
      (outcomes : List (RequestOutcome F)) (elapsed : F) (p50 p95 : Outcome F) (s : Summary F)
      → with_percentiles builtins scenario concurrency outcomes elapsed p50 p95 ≡ ok s
      → Counts (length outcomes) s
  unfolding with_percentiles summary_of
  with_percentiles-Counts builtins scenario concurrency outcomes elapsed (raise e) p95 s h = cc
  with_percentiles-Counts builtins scenario concurrency outcomes elapsed (ok x) (raise e) s h = cc
  with_percentiles-Counts builtins scenario concurrency outcomes elapsed (ok x) (ok y) s h =
      let same = ok_inj (summary_of builtins scenario concurrency outcomes elapsed x y) s h in
      rw (← same) (refl, omega (arith, count_if-le-length (λ o. o.success) outcomes))

length-measured :
    (F : Type 0) ⦃fl : Float F⦄ (formatted : ℕ → String) (scenario run_id : String) (n : ℕ)
    → length (measured_payloads {F = F} formatted scenario run_id n) ≡ n
unfolding measured_payloads
length-measured F formatted scenario run_id n = elim (Bool-cases (str_eq scenario "cached")) [
  | inl cached ↦ rw cached (length-repeated _ n)
  | inr other ↦ rw other (length-map _ (range_from 0 n) ∙ length-range_from 0 n)
]

module _ {F : Type 0} ⦃fl : Float F⦄ where
  -- Whatever the order in which the workers run and the answers come: the summary that a case
  -- returns counts as many requests as were asked for, each as a success or as a failure.
  pub run_case_lem :
      (builtins : Builtins F) (formatted : ℕ → String) (case : Case) (s : Summary F)
      → 0 < case.concurrency
      → Run builtins formatted case s
      → Counts case.request_count s
  unfolding summarize
  run_case_lem builtins formatted case s positive run =
      let measured : List (Payload F) =
        measured_payloads formatted case.scenario case.run_id case.request_count in
      let (_, once) =
        all_returned case.concurrency measured run.last positive run.steps run.none_idle
          run.none_in_flight run.none_died in
      let outcomes = map (λ x. x.1) run.last.done in
      let many : length outcomes ≡ case.request_count =
        length-map (λ x. x.1) run.last.done
        ∙ sym (count_if-true run.last.done)
        ∙ once (λ p. true)
        ∙ count_if-true measured
        ∙ length-measured F formatted case.scenario case.run_id case.request_count in
      rw (← many) (
        with_percentiles-Counts builtins case.scenario case.concurrency outcomes
          (fl.sub run.ended_at run.started_at) _ _ s run.summarized)
