-- ===== src/Benchmark.antt =====
-- scripts/benchmark.py: one request of the benchmark.
pub mod Percentile
pub mod Summary
pub mod Workers
pub mod Payloads
pub mod Cases
pub mod Document
pub mod Command
use model_route.Base.Float.{Float}
use model_route.Base.{
  String, ℕ, zero, suc, ◌+◌, ◌-◌, ◌<◌, ◌≡◌, Bool, true, false, Option, none, some, List, [], ◌∷◌,
  ◌++◌, min, length, count_if, str_eq, str_lt, if◌then◌else◌,
}
use mathlib.Core.Option
use model_route.Errors.{Exception, other}
use model_route.Runtime.{Outcome, ok, raise}
use Prim.Native.String.{◌++◌ as ◌<>◌}
use model_route.Base.Sorting.{sorted}
use model_route.Base.Dict.{Dict, lookup, insert}

-- What `_request` returns.
pub record RequestOutcome (F : Type 0) : Type 0 where
  pub success : Bool
  pub latency_ms : F
  pub cache_hit : Option Bool
  pub error_category : Option String

-- The body of an answer: no JSON, JSON that is no object, or an object with its field `cache_hit` if
-- that is there and a truth value.
pub data Body : Type 0 where
  not_json : Body
  not_object : Body
  object : Option Bool → Body

-- What comes of sending a request: a status and a body, an `HTTPError` of a class, or any other
-- exception.
pub data HttpAnswer : Type 0 where
  answered : (is_success : Bool) → (status : String) → Body → HttpAnswer
  http_error : String → HttpAnswer
  crashed : Exception → HttpAnswer

module _ {F : Type 0} ⦃fl : Float F⦄ where
  -- `_request`, from the clock before the request and after its answer. `response.json().get` raises
  -- on a value that is no object, and no `except` clause catches that.
  unfoldable pub outcome_of : F → F → HttpAnswer → Outcome (RequestOutcome F)
  outcome_of started_at ended_at (answered true status not_json) = ok (record {
    success = false;
    latency_ms = fl.mul (fl.sub ended_at started_at) (fl.of_nat 1_000);
    cache_hit = none;
    error_category = some "InvalidJSONResponse";
  })
  outcome_of started_at ended_at (answered true status not_object) = raise (other "AttributeError")
  outcome_of started_at ended_at (answered true status (object cache_hit)) = ok (record {
    success = true;
    latency_ms = fl.mul (fl.sub ended_at started_at) (fl.of_nat 1_000);
    cache_hit = cache_hit;
    error_category = none;
  })
  outcome_of started_at ended_at (answered false status body) = ok (record {
    success = false;
    latency_ms = fl.mul (fl.sub ended_at started_at) (fl.of_nat 1_000);
    cache_hit = none;
    error_category = some ("HTTP" <> status);
  })
  outcome_of started_at ended_at (http_error name) = ok (record {
    success = false;
    latency_ms = fl.mul (fl.sub ended_at started_at) (fl.of_nat 1_000);
    cache_hit = none;
    error_category = some name;
  })
  outcome_of started_at ended_at (crashed e) = raise e
