-- ===== src/Benchmark/Command/Laws.antt =====
-- About the file and the exit code of scripts/benchmark.py.
use Prim.Native.String.{◌++◌ as ◌<>◌}
use model_route.Base.{
  String, ℕ, suc, str_eq, if◌then◌else◌, ◌≡◌, ◌↔◌, ◌⊎◌, inl, inr, refl, false, ◌||◌, Option, none,
  some, map, List, [], ◌∷◌, ◌++◌, All, arith, Bool-cases,
}
use model_route.Base.Int.{ℤ}
use model_route.Benchmark.Command.{
  Args, scenarios_of, is_invalid, any_invalid, exit_code, run_scenarios, run_levels, async_main,
  joined, with_result, document_of, after_write, report,
}
use model_route.Base.Unicode.{Unicode}
use model_route.Benchmark.Document.{Machine, Document, File, write_document, build_document}
use model_route.Errors.{Exception}
use model_route.Benchmark.Summary.{Summary}
use model_route.Runtime.{Outcome, ok, raise}

-- Nothing failed, and the cache was hit where it was expected.
abbrev pub IsClean : {F : Type 0} → Summary F → Type 0
IsClean r =
    (r.failed_requests ≡ 0) × (r.unexpected_cache_hits ≡ 0) × (r.unexpected_cache_misses ≡ 0)

module _ {F : Type 0} where
  is_invalid_iff : (r : Summary F) → (is_invalid r ≡ false) ↔ IsClean r
  unfolding is_invalid
  is_invalid_iff r = ground arith

  any_invalid-append :
      (rs rs' : List (Summary F)) → any_invalid (rs ++ rs') ≡ (any_invalid rs || any_invalid rs')
  unfolding any_invalid
  any_invalid-append [] rs' = refl
  any_invalid-append (r ∷ rs) rs' = ground (arith, any_invalid-append rs rs')

-- The scenarios that the argument asks for: both, the uncached one first, or the one named.
abbrev pub asked : String → List String
asked scenario = if str_eq scenario "all" then "uncached" ∷ "cached" ∷ [] else scenario ∷ []

module _ {F : Type 0} (case : ℕ → ℤ → String → Outcome (Summary F))
    (result : ℕ → ℤ → String → Summary F) where
  -- Every case returns its result; the levels are numbered from `n` on.
  abbrev pub Returns : ℕ → List ℤ → List String → Type 0
  Returns n [] ss = Unit
  Returns n (c ∷ cs) ss = All (λ s. case n c s ≡ ok (result n c s)) ss × Returns (suc n) cs ss

  abbrev pub AllClean : ℕ → List ℤ → List String → Type 0
  AllClean n [] ss = Unit
  AllClean n (c ∷ cs) ss = All (λ s. IsClean (result n c s)) ss × AllClean (suc n) cs ss

  -- The results, level by level, and at a level scenario by scenario.
  abbrev pub in_order : ℕ → List ℤ → List String → List (Summary F)
  in_order n [] ss = []
  in_order n (c ∷ cs) ss = map (result n c) ss ++ in_order (suc n) cs ss

  run_scenarios_lem :
      (n : ℕ) (c : ℤ) (ss : List String)
      → All (λ s. case n c s ≡ ok (result n c s)) ss
      → (run_scenarios case n c ss ≡ ok (map (result n c) ss))
        × ((any_invalid (map (result n c) ss) ≡ false) ↔ All (λ s. IsClean (result n c s)) ss)
  unfolding run_scenarios any_invalid with_result
  run_scenarios_lem n c [] returns = (refl, ((λ _. tt), (λ _. refl)))
  run_scenarios_lem n c (s ∷ ss) (here, later) =
      let (e, clean) = run_scenarios_lem n c ss later in
      let first = is_invalid_iff (result n c s) in
      (
        rw (here, e) refl,
        (
          λ h. (first.0 (ground (arith, h)), clean.0 (ground (arith, h))),
          λ (a, b). ground (arith, first.1 a, clean.1 b),
        ),
      )

  run_levels_lem :
      (n : ℕ) (cs : List ℤ) (ss : List String)
      → Returns n cs ss
      → (run_levels case n cs ss ≡ ok (in_order n cs ss))
        × ((any_invalid (in_order n cs ss) ≡ false) ↔ AllClean n cs ss)
  unfolding run_levels any_invalid joined
  run_levels_lem n [] ss returns = (refl, ((λ _. tt), (λ _. refl)))
  run_levels_lem n (c ∷ cs) ss (here, later) =
      let (e, clean) = run_scenarios_lem n c ss here in
      let (e', clean') = run_levels_lem (suc n) cs ss later in
      let both = any_invalid-append (map (result n c) ss) (in_order (suc n) cs ss) in
      (
        rw (e, e') refl,
        (
          λ h. (clean.0 (ground (arith, h, both)), clean'.0 (ground (arith, h, both))),
          λ (a, b). ground (arith, both, clean.1 a, clean'.1 b),
        ),
      )

  module _ (u : Unicode) (machine : Machine) (dumps : Document F → String) (args : Args F) where
    -- The results that the arguments ask for.
    abbrev pub results_of : List (Summary F)
    results_of = in_order 0 args.concurrency (asked args.scenario)

    -- How the script ends: with what the file system raises, or with a code and a file.
    abbrev pub Reports : Option Exception → Outcome ℕ × Option File → Type 0
    Reports (some e) out = out ≡ (raise e, none)
    Reports none out =
        (exit : ℕ) × (d : Document F) × (out
          ≡ (ok exit, some (record { path = args.output; text = dumps d <> "\n" })))
        × (d.results ≡ results_of)
        × (d.metadata.scenarios ≡ asked args.scenario)
        × (d.metadata.concurrency_levels ≡ args.concurrency)
        × (d.metadata.requests_per_scenario ≡ args.requests)
        × (d.metadata.warmup_requests ≡ args.warmup)
        × ((exit ≡ 0) ↔ AllClean 0 args.concurrency (asked args.scenario))
        × ((exit ≡ 0) ⊎ (exit ≡ 1))

    -- If every case returns: the script writes one document, which holds the results of all cases,
    -- level by level and at a level scenario by scenario, whatever they are, both scenarios where
    -- "all" is asked for, and the levels, the scenarios and the numbers of requests that were asked
    -- for. Its exit code is 0 exactly if in no case a request failed or the cache was hit or missed
    -- unexpectedly, and else 1. If the file cannot be written, that is raised.
    pub async_main_lem :
        (refused : Option Exception)
        → Returns 0 args.concurrency (asked args.scenario)
        → Reports refused (async_main case u machine dumps refused args)
    unfolding async_main report after_write write_document exit_code scenarios_of document_of
        build_document
    async_main_lem (some e) returns =
        rw ((run_levels_lem 0 args.concurrency (asked args.scenario) returns).0) refl
    async_main_lem none returns =
        let (e, clean) = run_levels_lem 0 args.concurrency (asked args.scenario) returns in
        let d = document_of u machine args results_of in
        elim (Bool-cases (any_invalid results_of)) [
          | inl bad ↦ (
            1,
            d,
            rw (e, bad) refl,
            refl,
            refl,
            refl,
            refl,
            refl,
            ((λ h. ground (arith, h)), λ a. ground (arith, bad, clean.1 a)),
            inr refl,
          )
          | inr fine ↦ (
            0,
            d,
            rw (e, fine) refl,
            refl,
            refl,
            refl,
            refl,
            refl,
            ((λ _. clean.0 fine), (λ _. refl)),
            inl refl,
          )
        ]
