-- ===== src/Benchmark/Workers.antt =====
-- scripts/benchmark.py, `run_case`: the workers that share a queue of requests.
pub mod Laws
use model_route.Base.Float.{Float}
use model_route.Benchmark.{RequestOutcome, HttpAnswer, outcome_of}
use model_route.Base.{
  String, ℕ, zero, suc, ◌+◌, ◌-◌, ◌<◌, ◌≡◌, Bool, true, false, Option, none, some, List, [], ◌∷◌,
  ◌++◌, min, length, count_if, str_eq, str_lt, if◌then◌else◌,
}
use mathlib.Core.Option
use Prim.Native.String.{◌++◌ as ◌<>◌}
use model_route.Errors.{Exception}
use model_route.Runtime.{Outcome, ok, raise}
use model_route.Base.Sorting.{sorted}
use model_route.Base.Dict.{Dict, lookup, insert}

-- The workers: those that are about to look at the queue, the payloads that others have in flight,
-- those that have returned, and the payloads at which a worker died of an exception. `done` pairs
-- each other payload that was taken with its outcome.
pub record Workers (F P : Type 0) : Type 0 where
  pub queue : List P
  pub idle : ℕ
  pub in_flight : List P
  pub returned : ℕ
  pub broken : List P
  pub done : List (P × RequestOutcome F)

-- `asyncio.gather` over `min(concurrency, request_count)` workers.
abbrev pub start_workers : {F P : Type 0} → ℕ → List P → Workers F P
start_workers concurrency payloads = record {
  queue = payloads;
  idle = min concurrency (length payloads);
  in_flight = [];
  returned = 0;
  broken = [];
  done = [];
}

-- One step of one worker: it takes a payload, returns from an empty queue, gets an answer, or dies
-- of an exception that its request raises. The answers come in any order. `asyncio.gather` raises
-- the first exception and lets the other workers run.
pub data Step {F P : Type 0} ⦃fl : Float F⦄ : Workers F P → Workers F P → Type 0 where
  takes :
      (p : P) (queue in_flight broken : List P) (idle returned : ℕ)
      (done : List (P × RequestOutcome F))
      → Step
          (record {
            queue = p ∷ queue;
            idle = suc idle;
            in_flight = in_flight;
            returned = returned;
            broken = broken;
            done = done;
          })
          (record {
            queue = queue;
            idle = idle;
            in_flight = p ∷ in_flight;
            returned = returned;
            broken = broken;
            done = done;
          })
  returns :
      (in_flight broken : List P) (idle returned : ℕ) (done : List (P × RequestOutcome F))
      → Step
          (record {
            queue = [];
            idle = suc idle;
            in_flight = in_flight;
            returned = returned;
            broken = broken;
            done = done;
          })
          (record {
            queue = [];
            idle = idle;
            in_flight = in_flight;
            returned = suc returned;
            broken = broken;
            done = done;
          })
  answers :
      (p : P) (started_at ended_at : F) (answer : HttpAnswer) (outcome : RequestOutcome F)
      (queue before after broken : List P) (idle returned : ℕ) (done : List (P × RequestOutcome F))
      → outcome_of started_at ended_at answer ≡ ok outcome
      → Step
          (record {
            queue = queue;
            idle = idle;
            in_flight = before ++ p ∷ after;
            returned = returned;
            broken = broken;
            done = done;
          })
          (record {
            queue = queue;
            idle = suc idle;
            in_flight = before ++ after;
            returned = returned;
            broken = broken;
            done = done ++ (p, outcome) ∷ [];
          })
  dies :
      (p : P) (started_at ended_at : F) (answer : HttpAnswer) (e : Exception)
      (queue before after broken : List P) (idle returned : ℕ) (done : List (P × RequestOutcome F))
      → outcome_of started_at ended_at answer ≡ raise e
      → Step
          (record {
            queue = queue;
            idle = idle;
            in_flight = before ++ p ∷ after;
            returned = returned;
            broken = broken;
            done = done;
          })
          (record {
            queue = queue;
            idle = idle;
            in_flight = before ++ after;
            returned = returned;
            broken = p ∷ broken;
            done = done;
          })

pub data Steps {F P : Type 0} ⦃fl : Float F⦄ : Workers F P → Workers F P → Type 0 where
  stop : (w : Workers F P) → Steps w w
  step : (v w x : Workers F P) → Steps v w → Step w x → Steps v x
