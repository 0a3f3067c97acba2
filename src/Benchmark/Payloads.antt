-- ===== src/Benchmark/Payloads.antt =====
-- scripts/benchmark.py, `_payload` and the first part of `run_case`: what is sent.
pub mod Laws
use Prim.Native.String.{◌++◌ as ◌<>◌}
use model_route.Base.{
  String, ℕ, zero, suc, max, Bool, true, false, Option, none, some, List, [], ◌∷◌, map, str_eq,
  if◌then◌else◌,
}
use model_route.Base.Float.{Float}
use model_route.Benchmark.{RequestOutcome}
use model_route.Errors.{Exception, other}
use model_route.Runtime.{Outcome, ok, raise}

-- The dict of `_payload`.
pub record Payload (F : Type 0) : Type 0 where
  pub prompt : String
  pub strategy : String
  pub temperature : F
  pub max_tokens : ℕ

-- `_payload`
unfoldable pub payload : {F : Type 0} ⦃fl : Float F⦄ → String → Payload F
payload ⦃fl⦄ prompt = record {
  prompt = prompt;
  strategy = "fixed";
  temperature = fl.div (fl.of_nat 2) (fl.of_nat 10);
  max_tokens = 64;
}

unfoldable pub cached_prompt : String → String
cached_prompt run_id = "ModelRoute benchmark cached " <> run_id

-- `[x] * n`
unfoldable pub repeated : {A : Type 0} → A → ℕ → List A
repeated x zero = []
repeated x (suc n) = x ∷ repeated x n

-- `range(start, start + count)`
unfoldable pub range_from : ℕ → ℕ → List ℕ
range_from start zero = []
range_from start (suc count) = start ∷ range_from (suc start) count

-- `formatted` is how an f-string shows a number.
module _ (formatted : ℕ → String) where
  unfoldable pub uncached_prompt : String → ℕ → String
  uncached_prompt run_id index =
      "ModelRoute benchmark uncached " <> (run_id <> (" request " <> formatted index))

  unfoldable pub warmup_prompt : String → ℕ → String
  warmup_prompt run_id index =
      "ModelRoute benchmark warmup " <> (run_id <> (" request " <> formatted index))

module _ {F : Type 0} ⦃fl : Float F⦄ where
  -- `[measured_payloads[0]] * max(warmup_requests, 1)`
  unfoldable pub first_repeated : List (Payload F) → ℕ → Outcome (List (Payload F))
  unfolding repeated
  first_repeated [] n = raise (other "IndexError")
  first_repeated (p ∷ ps) n = ok (repeated p (max n 1))

module _ {F : Type 0} ⦃fl : Float F⦄ (formatted : ℕ → String) where
  unfoldable pub measured_payloads : String → String → ℕ → List (Payload F)
  unfolding payload cached_prompt repeated range_from uncached_prompt
  measured_payloads scenario run_id request_count =
      if str_eq scenario "cached"
      then repeated (payload (cached_prompt run_id)) request_count
      else map (λ i. payload (uncached_prompt formatted run_id i)) (range_from 0 request_count)

  unfoldable pub warmup_payloads : String → String → ℕ → ℕ → Outcome (List (Payload F))
  unfolding measured_payloads first_repeated warmup_prompt
  warmup_payloads scenario run_id request_count warmup_requests =
      if str_eq scenario "cached"
      then first_repeated (measured_payloads scenario run_id request_count) warmup_requests
      else ok (map (λ i. payload (warmup_prompt formatted run_id i)) (range_from 0 warmup_requests))

warmup_message : Option String → String
warmup_message none = "benchmark warm-up failed: None"
warmup_message (some category) = "benchmark warm-up failed: " <> category

-- The warm-up loop, on what its requests return in order.
unfoldable pub warm_up : {F : Type 0} → List (RequestOutcome F) → Outcome (Unit {0})
unfolding warmup_message
warm_up [] = ok tt
warm_up (o ∷ os) =
    let rest = warm_up os in
    if o.success then rest else raise (other (warmup_message o.error_category))
