-- ===== src/Benchmark/Cases.antt =====
-- scripts/benchmark.py, `run_case`: the warm-up, then the workers, then the summary.
pub mod Laws
use model_route.Base.{String, ℕ, ◌≡◌, List, [], map, length}
use model_route.Base.Float.{Float}
use model_route.Benchmark.{RequestOutcome}
use model_route.Benchmark.Payloads.{Payload, measured_payloads, warmup_payloads, warm_up}
use model_route.Benchmark.Percentile.{Builtins}
use model_route.Benchmark.Summary.{Summary, summarize}
use model_route.Benchmark.Workers.{Workers, start_workers, Steps}
use model_route.Runtime.{ok}

-- The arguments of `run_case` that decide what is sent, and the id of the run.
pub record Case : Type 0 where
  pub request_count : ℕ
  pub concurrency : ℕ
  pub scenario : String
  pub warmup_requests : ℕ
  pub run_id : String

-- A call of `run_case` that returns a summary: the warm-up requests succeed one after another, the
-- workers run, in any order, until all have returned and none has died, and the clock is read before and after.
pub record Run {F : Type 0} ⦃fl : Float F⦄ (builtins : Builtins F) (formatted : ℕ → String)
    (case : Case) (summary : Summary F) : Type 0 where
  pub warmups : List (Payload F)
  pub warmups_built :
      warmup_payloads formatted case.scenario case.run_id case.request_count case.warmup_requests
      ≡ ok warmups
  pub warmup_outcomes : List (RequestOutcome F)
  pub each_sent : length warmup_outcomes ≡ length warmups
  pub warmed_up : warm_up warmup_outcomes ≡ ok tt
  pub last : Workers F (Payload F)
  pub steps :
      Steps
        (start_workers case.concurrency
          (measured_payloads formatted case.scenario case.run_id case.request_count))
        last
  pub none_idle : last.idle ≡ 0
  pub none_in_flight : last.in_flight ≡ []
  pub none_died : last.broken ≡ []
  pub started_at : F
  pub ended_at : F
  pub summarized :
      summarize builtins case.scenario case.concurrency
        (map (λ x. x.1) last.done)
        (fl.sub ended_at started_at)
      ≡ ok summary
