-- ===== src/Examples/Runs.antt =====
-- A benchmark of two requests by one worker, and a case of one request.
use model_route.Examples.Reports.{rounded, strokes}
use model_route.Base.{
  String, ℕ, ◌+◌, ◌*◌, ◌≤◌, ◌≡◌, ◌⊎◌, refl, true, false, some, none, List, [], ◌∷◌, arith, length,
}
use model_route.Base.Float.{millionths}
use model_route.Benchmark.{HttpAnswer, answered, object, RequestOutcome, http_error, outcome_of}
use model_route.Benchmark.Cases.{Case, Run}
use model_route.Benchmark.Cases.Laws.{Counts, run_case_lem}
use model_route.Benchmark.Payloads.{
  payload, uncached_prompt, range_from, warm_up, Payload, measured_payloads, warmup_payloads,
}
use model_route.Benchmark.Percentile.{at_position, item, percentile}
use model_route.Benchmark.Summary.{summary_of, with_percentiles, latencies_of, Summary, summarize}
use model_route.Benchmark.Workers.{
  Workers, start_workers, Step, takes, returns, answers, Steps, stop, step,
}
use model_route.Benchmark.Workers.Laws.{Ended, size, workers_lem}
use model_route.Runtime.{ok}
use model_route.Base.Sorting.{sorted}

abbrev payloads : List String
payloads = "one" ∷ "two" ∷ []

abbrev good : HttpAnswer
good = answered true "200" (object (some true))

abbrev bad : HttpAnswer
bad = http_error "ReadTimeout"

-- The outcomes of the two.
abbrev good_outcome : RequestOutcome ℕ
good_outcome = record {
  success = true;
  latency_ms = 1_000;
  cache_hit = some true;
  error_category = none;
}

abbrev bad_outcome : RequestOutcome ℕ
bad_outcome = record {
  success = false;
  latency_ms = 2_000;
  cache_hit = none;
  error_category = some "ReadTimeout";
}

good_is : outcome_of 1 2 good ≡ ok good_outcome
unfolding outcome_of
good_is = refl

bad_is : outcome_of 2 4 bad ≡ ok bad_outcome
unfolding outcome_of
bad_is = refl

abbrev finished : Workers ℕ String
finished = record {
  queue = [];
  idle = 0;
  in_flight = [];
  returned = 1;
  broken = [];
  done = ("one", good_outcome) ∷ ("two", bad_outcome) ∷ [];
}

one_worker : Steps (start_workers 1 payloads) finished
one_worker =
    step _ _ _
      (step _ _ _
        (step _ _ _
          (step _ _ _ (step _ _ _ (stop _) (takes "one" ("two" ∷ []) [] [] 0 0 []))
            (answers "one" 1 2 good good_outcome ("two" ∷ []) [] [] [] 0 0 [] good_is))
          (takes "two" [] [] [] 0 0 (("one", good_outcome) ∷ [])))
        (answers "two" 2 4 bad bad_outcome [] [] [] [] 0 0 (("one", good_outcome) ∷ []) bad_is))
      (returns [] [] 0 0 (("one", good_outcome) ∷ ("two", bad_outcome) ∷ []))

workers_lem_example :
    (size one_worker ≤ 3 * 2 + 1)
    × (length finished.in_flight ≤ 1)
    × (((x : Workers ℕ String) × Step finished x) ⊎ Ended payloads finished)
workers_lem_example = workers_lem 1 payloads finished (omega arith) one_worker

abbrev one_request : Case
one_request = record {
  request_count = 1;
  concurrency = 1;
  scenario = "uncached";
  warmup_requests = 0;
  run_id = "run";
}

abbrev sent : Payload ℕ
sent = payload (uncached_prompt strokes "run" 0)

abbrev after_one : Workers ℕ (Payload ℕ)
after_one = record {
  queue = [];
  idle = 0;
  in_flight = [];
  returned = 1;
  broken = [];
  done = (sent, good_outcome) ∷ [];
}

one_run_steps : Steps (start_workers 1 (sent ∷ [])) after_one
one_run_steps =
    step _ _ _
      (step _ _ _ (step _ _ _ (stop _) (takes sent [] [] [] 0 0 []))
        (answers sent 1 2 good good_outcome [] [] [] [] 0 0 [] good_is))
      (returns [] [] 0 0 ((sent, good_outcome) ∷ []))

abbrev one_summary : Summary ℕ
one_summary = summary_of rounded "uncached" 1 (good_outcome ∷ []) 1 1_000 1_000

one_request-Run : Run rounded strokes one_request one_summary
unfolding warmup_payloads measured_payloads range_from warm_up summarize with_percentiles percentile
    at_position item latencies_of sorted
one_request-Run = record {
  warmups = [];
  warmups_built = refl;
  warmup_outcomes = [];
  each_sent = refl;
  warmed_up = refl;
  last = after_one;
  steps = one_run_steps;
  none_idle = refl;
  none_in_flight = refl;
  none_died = refl;
  started_at = 1;
  ended_at = 2;
  summarized = refl;
}

run_case_lem_example : Counts 1 one_summary
run_case_lem_example =
    run_case_lem rounded strokes one_request one_summary (omega arith) one_request-Run
