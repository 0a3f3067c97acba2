-- ===== src/Examples/Reports.antt =====
-- The percentiles, summaries, prompts and exit code of a benchmark on small inputs.
use text.Mathlib.TextLemmas.{tail-eq_of_cons-eq}
use native.Mathlib.Nat.{div-le_of_le-mul}
use model_route.Base.{
  count_if, String, ℕ, zero, suc, ap, ◌==◌, str_eq, if◌then◌else◌, ◌+◌, ◌*◌, ◌/◌, ◌≤◌, ◌<◌, ◌≡◌,
  ◌↔◌, ◌⊎◌, ◌≢◌, refl, true, false, Option, none, some, List, [], ◌∷◌, arith, length, All,
}
use model_route.Base.Float.{millionths, millionths-IsOrdered, millionths-IsMonotone}
use model_route.Base.Int.{ℤ, pos, negsuc}
use model_route.Base.Unicode.{ascii, strip, strip_left, strip_right, is_empty}
use model_route.Benchmark.{answered, object, http_error, RequestOutcome, outcome_of}
use model_route.Benchmark.Command.{Args, parse_concurrency, async_main, document_of}
use model_route.Benchmark.Document.{Machine, Document, not_run, is_inside}
use model_route.Benchmark.Command.Laws.{asked, Returns, Reports, async_main_lem}
use model_route.Benchmark.Command.Levels.{
  IsShown, IsPositive, has_comma, comma_joined, parse_concurrency_iff,
}
use model_route.Benchmark.Payloads.{Payload, measured_payloads, warmup_payloads}
use model_route.Benchmark.Payloads.Laws.{IsDistinct, IsInjective, payloads_lem}
use model_route.Benchmark.Percentile.{Builtins, percentile}
use model_route.Benchmark.Percentile.Laws.{IsRounding, Interpolates, percentile_lem}
use model_route.Benchmark.Summary.{Summary, summarize}
use model_route.Benchmark.Summary.Laws.{IsOutcome, InOrder, total, summarize_lem}
use model_route.Runtime.{Outcome, ok}

-- Millionths are rounded down, and up.
abbrev pub rounded : Builtins ℕ
rounded = record {
  floor = λ x. x / 1_000_000;
  ceil = λ x. (x + 999_999) / 1_000_000;
  sum = λ xs. 0;
}

ratio-le : (m n : ℕ) → 0 < n → m ≤ n → m * 1_000_000 * 1_000_000 / (n * 1_000_000) ≤ 1_000_000
ratio-le m n h k = div-le_of_le-mul (n * 1_000_000) (omega (arith, k))

rounded-IsRounding : IsRounding rounded
rounded-IsRounding = record {
  floor_le = λ x. omega arith;
  ceil_le_suc = λ x. omega arith;
  ceil_le = λ x n h. ground arith;
  mul_one = λ n. omega arith;
  ratio_nonneg = λ m n h. ground arith;
  ratio_le_one = λ m n h k. ground (arith, ratio-le m n h k);
  of_nat_nonneg = λ n. ground arith;
}

-- The outcomes of a hit and of a request that timed out.
abbrev outcomes : List (RequestOutcome ℕ)
outcomes =
    record { success = true; latency_ms = 1_000; cache_hit = some true; error_category = none }
    ∷ record {
      success = false;
      latency_ms = 2_000;
      cache_hit = none;
      error_category = some "ReadTimeout";
    }
    ∷ []

outcomes-IsOutcome : All IsOutcome outcomes
unfolding outcome_of
outcomes-IsOutcome = (
  (1, 2, answered true "200" (object (some true)), tt, refl),
  ((2, 4, http_error "ReadTimeout", refl, refl), tt),
)

summarize_lem_example :
    (s : Summary ℕ) × (summarize rounded "cached" 1 outcomes 3 ≡ ok s)
    × (s.total_requests ≡ 2)
    × (s.successful_requests + s.failed_requests ≡ s.total_requests)
    × (total s.error_counts ≡ s.failed_requests)
    × InOrder s.error_counts
    × (s.unexpected_cache_hits ≡ 0)
    × (s.unexpected_cache_misses ≡ 0)
    × (s.unexpected_cache_hits + s.unexpected_cache_misses ≤ s.successful_requests)
unfolding count_if
summarize_lem_example =
    summarize_lem rounded millionths-IsOrdered millionths-IsMonotone rounded-IsRounding "cached" 1
      outcomes 3 outcomes-IsOutcome

abbrev values : List ℕ
values = 3 ∷ 1 ∷ 2 ∷ []

-- The median of three latencies.
percentile_lem_example :
    ((values ≡ []) × (percentile rounded values 500_000 ≡ ok 0))
    ⊎ Interpolates rounded values 500_000 (percentile rounded values 500_000)
percentile_lem_example =
    percentile_lem rounded millionths-IsOrdered millionths-IsMonotone rounded-IsRounding values
      500_000 refl refl

-- A text of as many characters as the number.
abbrev pub strokes : ℕ → String
strokes zero = ""
strokes (suc n) = String.◌∷◌ "1" (strokes n)

strokes-IsInjective : IsInjective strokes
strokes-IsInjective zero zero e = refl
strokes-IsInjective zero (suc n) e = cc
strokes-IsInjective (suc m) zero e = cc
strokes-IsInjective (suc m) (suc n) e = ap suc (strokes-IsInjective m n (tail-eq_of_cons-eq e))

payloads_lem_example :
    let uncached = measured_payloads {F = ℕ} strokes "uncached" "run" 2 in
    let cached = measured_payloads {F = ℕ} strokes "cached" "run" 2 in
    (length uncached ≡ 2)
    × (length cached ≡ 2)
    × IsDistinct uncached
    × ((warmups : List (Payload ℕ)) × (warmup_payloads strokes "uncached" "run" 2 3 ≡ ok warmups)
        × (length warmups ≡ 3)
        × All (λ p. All (λ q. p.prompt ≢ q.prompt) warmups) uncached)
    × ((warmups : List (Payload ℕ)) × (warmup_payloads strokes "cached" "run" 2 3 ≡ ok warmups)
        × (0 < length warmups)
        × All (λ p. All (λ q. p ≡ q) warmups) cached)
payloads_lem_example = payloads_lem strokes strokes-IsInjective "run" ℕ 2 3 (omega arith)

abbrev shown : ℤ → String
shown (pos n) = if n == 10 then "10" else "1"
shown (negsuc n) = "-1"

abbrev read : String → Option ℤ
read s = if str_eq s "10" then some (pos 10) else if str_eq s "1" then some (pos 1) else none

one_and_ten-IsShown : All (IsShown ascii read shown) (pos 1 ∷ pos 10 ∷ [])
unfolding strip strip_left strip_right is_empty has_comma
one_and_ten-IsShown = (
  record { parsed = refl; stripped = refl; not_empty = refl; no_comma = refl },
  (record { parsed = refl; stripped = refl; not_empty = refl; no_comma = refl }, tt),
)

parse_concurrency_iff_example :
    (parse_concurrency ascii read (comma_joined shown (pos 1) (pos 10 ∷ []))
      ≡ ok (pos 1 ∷ pos 10 ∷ []))
    ↔ All IsPositive (pos 1 ∷ pos 10 ∷ [])
parse_concurrency_iff_example =
    parse_concurrency_iff ascii read shown (pos 1) (pos 10 ∷ []) one_and_ten-IsShown

abbrev arguments : Args ℕ
arguments = record {
  base_url = "http://localhost/";
  requests = pos 2;
  concurrency = pos 1 ∷ pos 10 ∷ [];
  scenario = "all";
  warmup = pos 0;
  simulated_provider_latency_ms = 50;
  output = "final.json";
}

-- Every case fails one request.
abbrev result : ℕ → ℤ → String → Summary ℕ
result n c s = record {
  scenario = s;
  concurrency = 1;
  total_requests = 2;
  successful_requests = 1;
  failed_requests = 1;
  error_rate = 500_000;
  total_elapsed_seconds = 3;
  requests_per_second = 1;
  average_latency_ms = 1;
  p50_latency_ms = 1;
  p95_latency_ms = 1;
  unexpected_cache_hits = 0;
  unexpected_cache_misses = 0;
  error_counts = [];
}

abbrev case_result : ℕ → ℤ → String → Outcome (Summary ℕ)
case_result n c s = ok (result n c s)

cases_return : Returns case_result result 0 arguments.concurrency (asked "all")
cases_return = ((refl, (refl, tt)), ((refl, (refl, tt)), tt))

-- A machine without Docker.
abbrev plain_machine : Machine
plain_machine = record {
  python_version = "3.12.0";
  system = "Linux";
  release = "6.1";
  machine = "x86_64";
  cpu_count = some 4;
  run = λ command. not_run;
  utc_now = "2026-01-01T00:00:00+00:00";
}

-- A text of a document: where the server was.
abbrev base_url_of : Document ℕ → String
base_url_of d = d.metadata.base_url

written : document_of ascii plain_machine arguments [] ≡ record {
  metadata = record {
    timestamp_utc = "2026-01-01T00:00:00+00:00";
    base_url = "http://localhost";
    requests_per_scenario = pos 2;
    concurrency_levels = pos 1 ∷ pos 10 ∷ [];
    scenarios = "uncached" ∷ "cached" ∷ [];
    warmup_requests = pos 0;
    simulated_provider_latency_ms = 50;
    uvicorn_workers = 1;
    rate_limiter = "enabled and configured as non-binding";
    postgresql_metrics = "enabled";
    environment = record {
      python_version = "3.12.0";
      os = "Linux";
      os_release = "6.1";
      machine = "x86_64";
      logical_cpu_count = some 4;
      docker_version = "unavailable";
      docker_compose_version = "unavailable";
      docker_engine = "unavailable";
      docker_kernel = "unavailable";
      container_runtime = "Docker engine";
    };
  };
  results = [];
}
unfolding document_of
written = refl

inside : is_inside "WSL2" "5.15-microsoft-WSL2" ≡ true
unfolding is_inside
inside = refl

async_main_lem_example :
    Reports case_result result ascii plain_machine base_url_of arguments none
      (async_main case_result ascii plain_machine base_url_of none arguments)
async_main_lem_example =
    async_main_lem case_result result ascii plain_machine base_url_of arguments none cases_return
