-- ===== src/Benchmark/Command.antt =====
-- scripts/benchmark.py: the command line, the cases that are run, the file and the exit code.
pub mod Laws
pub mod Levels
use Prim.Native.Char.{Char, code}
use model_route.Base.{
  String, ℕ, zero, suc, ◌+◌, Bool, true, false, ◌||◌, not, Option, none, some, List, [], ◌∷◌, ◌++◌,
  str_eq, ◌==◌, if◌then◌else◌,
}
use model_route.Base.Int.{ℤ, pos, negsuc}
use model_route.Base.Unicode.{Unicode, strip}
use model_route.Benchmark.Document.{
  Machine, Document, File, build_document, write_document, rstrip_slash,
}
use model_route.Benchmark.Summary.{Summary}
use model_route.Errors.{Exception, value_error, other}
use model_route.Runtime.{Outcome, ok, raise}

-- A character before the first of the parts.
unfoldable pub prepend : Char → List String → List String
prepend c [] = []
prepend c (part ∷ parts) = String.◌∷◌ c part ∷ parts

-- `value.split(",")`
unfoldable pub split : String → List String
unfolding prepend
split String.[] = "" ∷ []
split (String.◌∷◌ c s) = let rest = split s in if code c == 44 then "" ∷ rest else prepend c rest

unfoldable pub is_below_one : ℤ → Bool
is_below_one (pos n) = n == 0
is_below_one (negsuc n) = true

-- `any(level < 1 for level in levels)`
unfoldable pub any_below_one : List ℤ → Bool
unfolding is_below_one
any_below_one [] = false
any_below_one (n ∷ ns) = is_below_one n || any_below_one ns

argument_error : Outcome (List ℤ)
argument_error = raise (other "ArgumentTypeError: concurrency must contain positive integers")

unfoldable pub checked_levels : List ℤ → Outcome (List ℤ)
unfolding argument_error any_below_one
checked_levels [] = argument_error
checked_levels (n ∷ ns) = if any_below_one (n ∷ ns) then argument_error else ok (n ∷ ns)

-- `parse_int` is `int(text)`; `none` is its `ValueError`.
module _ (u : Unicode) (parse_int : String → Option ℤ) where
  unfoldable pub put : Option ℤ → Outcome (List ℤ) → Outcome (List ℤ)
  put none rest = raise (value_error "invalid literal for int()")
  put (some n) (raise e) = raise e
  put (some n) (ok ns) = ok (n ∷ ns)

  -- `[int(item.strip()) for item in items if item.strip()]`
  unfoldable pub levels_of : List String → Outcome (List ℤ)
  unfolding put
  levels_of [] = ok []
  levels_of (item ∷ items) =
      let rest = levels_of items in
      if str_eq (strip u item) "" then rest else put (parse_int (strip u item)) rest

  unfoldable pub then_checked : Outcome (List ℤ) → Outcome (List ℤ)
  unfolding checked_levels
  then_checked (raise e) = raise e
  then_checked (ok levels) = checked_levels levels

  unfoldable pub parse_concurrency : String → Outcome (List ℤ)
  unfolding then_checked levels_of split
  parse_concurrency value = then_checked (levels_of (split value))

-- What `parse_args` returns.
pub record Args (F : Type 0) : Type 0 where
  pub base_url : String
  pub requests : ℤ
  pub concurrency : List ℤ
  pub scenario : String
  pub warmup : ℤ
  pub simulated_provider_latency_ms : F
  pub output : String

is_negative : ℤ → Bool
is_negative (pos n) = false
is_negative (negsuc n) = true

-- The checks of `parse_args`; `parser.error` exits.
unfoldable pub checked_args : {F : Type 0} → Args F → Outcome (Args F)
unfolding is_below_one is_negative
checked_args args =
    if is_below_one args.requests
    then raise (other "SystemExit: --requests must be positive")
    else if is_negative args.warmup
    then raise (other "SystemExit: --warmup must be non-negative")
    else ok args

unfoldable pub scenarios_of : String → List String
scenarios_of scenario = if str_eq scenario "all" then "uncached" ∷ "cached" ∷ [] else scenario ∷ []

module _ {F : Type 0} where
  unfoldable pub is_invalid : Summary F → Bool
  is_invalid r =
      not (r.failed_requests == 0)
      || (not (r.unexpected_cache_hits == 0) || not (r.unexpected_cache_misses == 0))

  unfoldable pub any_invalid : List (Summary F) → Bool
  unfolding is_invalid
  any_invalid [] = false
  any_invalid (r ∷ rs) = is_invalid r || any_invalid rs

  unfoldable pub joined :
      Outcome (List (Summary F)) → Outcome (List (Summary F)) → Outcome (List (Summary F))
  joined (raise e) _ = raise e
  joined (ok rs) (raise e) = raise e
  joined (ok rs) (ok rs') = ok (rs ++ rs')

  unfoldable pub with_result :
      Outcome (Summary F) → Outcome (List (Summary F)) → Outcome (List (Summary F))
  with_result (raise e) _ = raise e
  with_result (ok r) (raise e) = raise e
  with_result (ok r) (ok rs) = ok (r ∷ rs)

  unfoldable pub exit_code : List (Summary F) → ℕ
  unfolding any_invalid
  exit_code results = if any_invalid results then 1 else 0

unfoldable pub after_write :
    {F : Type 0} → List (Summary F) → Outcome (Unit {0}) × Option File → Outcome ℕ × Option File
unfolding exit_code
after_write results (raise e, file) = (raise e, file)
after_write results (ok _, file) = (ok (exit_code results), file)

module _ {F : Type 0} (u : Unicode) (machine : Machine) where
  unfoldable pub document_of : Args F → List (Summary F) → Document F
  unfolding build_document rstrip_slash scenarios_of
  document_of args results =
      build_document u machine (rstrip_slash args.base_url) args.requests args.concurrency
        (scenarios_of args.scenario) args.warmup args.simulated_provider_latency_ms results

  -- What follows the loops.
  unfoldable pub report :
      (Document F → String)
      → Option Exception
      → Args F
      → Outcome (List (Summary F))
      → Outcome ℕ × Option File
  unfolding after_write write_document document_of
  report dumps refused args (raise e) = (raise e, none)
  report dumps refused args (ok results) =
      after_write results (write_document dumps refused (document_of args results) args.output)

-- `case` is what `run_case` returns, or raises, at the place of a level among the levels, at its
-- concurrency, in a scenario: a level that is given twice may have two results.
module _ {F : Type 0} (case : ℕ → ℤ → String → Outcome (Summary F)) where
  -- The inner loop.
  unfoldable pub run_scenarios : ℕ → ℤ → List String → Outcome (List (Summary F))
  unfolding with_result
  run_scenarios n c [] = ok []
  run_scenarios n c (s ∷ ss) = with_result (case n c s) (run_scenarios n c ss)

  -- The outer loop, from the `n`-th level on.
  unfoldable pub run_levels : ℕ → List ℤ → List String → Outcome (List (Summary F))
  unfolding joined run_scenarios
  run_levels n [] ss = ok []
  run_levels n (c ∷ cs) ss = joined (run_scenarios n c ss) (run_levels (suc n) cs ss)

  -- `async_main`, from the arguments: the exit code, and the file that was written.
  unfoldable pub async_main :
      Unicode
      → Machine
      → (Document F → String)
      → Option Exception
      → Args F
      → Outcome ℕ × Option File
  unfolding report run_levels scenarios_of
  async_main u machine dumps refused args =
      report u machine dumps refused args
        (run_levels 0 args.concurrency (scenarios_of args.scenario))
