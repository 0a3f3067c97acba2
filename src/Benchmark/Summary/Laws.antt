-- ===== src/Benchmark/Summary/Laws.antt =====
-- About the summary of scripts/benchmark.py.
use model_route.Base.{
  ◌⊎◌, Option, not, subst, map_All, Option-cases, str_lt_irrefl, str_lt_trans, str_lt_cotrans,
  String, ℕ, ◌≤◌, ◌+◌, ◌≡◌, inl, inr, refl, Bool, true, false, List, [], ◌∷◌, arith, length,
  count_if, eq_iff, ap, none, some, All, str_eq, str_lt, if◌then◌else◌, Bool-cases,
}
use mathlib.Core.Option
use Prim.Native.String.{◌++◌ as ◌<>◌}
use text.Mathlib.TextLemmas.{cons-append}
use model_route.Base.Unicode.{is_empty}
use model_route.Base.Dict.{Dict, lookup, insert}
use model_route.Base.Sorting.{sorted, insert_stable}
use model_route.Base.Float.{Float, IsOrdered, IsMonotone}
use model_route.Base.Sorting.Laws.{IsStrictWeak, IsSorted, sorted-IsSorted}
use model_route.Benchmark.{
  answered, http_error, crashed, not_json, not_object, object, RequestOutcome, HttpAnswer,
  outcome_of,
}
use model_route.Benchmark.Percentile.{Builtins}
use model_route.Benchmark.Percentile.Laws.{IsRounding, percentile-ok}
use model_route.Benchmark.Summary.{
  Summary, is_bool, categories, counter, error_categories, summarize, with_percentiles, summary_of,
  latencies_of,
}
use model_route.Runtime.{ok}

-- The sum of the counts.
abbrev pub total : Dict ℕ → ℕ
total [] = 0
total ((k, n) ∷ d) = n + total d

total-insert :
    (c : String) (v : ℕ) (d : Dict ℕ)
    → total (insert c v d) + Option.get_or (lookup c d) 0 ≡ total d + v
unfolding insert lookup
total-insert c v [] = omega arith
total-insert c v ((k, n) ∷ d) = ground (arith, total-insert c v d)

total-counter : (cs : List String) (d : Dict ℕ) → total (counter cs d) ≡ total d + length cs
unfolding counter
total-counter [] d = omega arith
total-counter (c ∷ cs) d = omega (
  arith,
  total-counter cs (insert c (Option.get_or (lookup c d) 0 + 1) d),
  total-insert c (Option.get_or (lookup c d) 0 + 1) d,
)

total-insert_stable :
    (lt : String × ℕ → String × ℕ → Bool) (x : String × ℕ) (d : Dict ℕ)
    → total (insert_stable lt x d) ≡ x.1 + total d
unfolding insert_stable
total-insert_stable lt x [] = refl
total-insert_stable lt x (y ∷ d) = ground (arith, total-insert_stable lt x d)

total-sorted : (lt : String × ℕ → String × ℕ → Bool) (d : Dict ℕ) → total (sorted lt d) ≡ total d
unfolding sorted
total-sorted lt [] = refl
total-sorted lt (x ∷ d) = omega (arith, total-insert_stable lt x (sorted lt d), total-sorted lt d)

-- The name of the class of an exception is not empty.
abbrev pub IsNamed : HttpAnswer → Type 0
IsNamed (http_error name) = str_eq name "" ≡ false
IsNamed _ = Unit

ok_inj : {A : Type 0} (x y : A) → ok x ≡ ok y → x ≡ y
ok_inj x y e = cc

status_named : (status : String) → str_eq ("HTTP" <> status) "" ≡ false
unfolding is_empty
status_named status = elim (Bool-cases (str_eq ("HTTP" <> status) "")) [
  | inl blank ↦ cc (
    ap is_empty ((eq_iff ("HTTP" <> status) "").0 blank),
    ap is_empty (cons-append "H" "TTP" status),
  )
  | inr named ↦ named
]

some_of-le : (x y : Bool) (a b c : ℕ) → a + b ≤ c → (if x then a else 0) + (if y then b else 0) ≤ c
some_of-le x y a b c h = ground arith

-- Whether an outcome says this of the cache.
abbrev pub says : Bool → Option Bool → Bool
says b none = false
says true (some h) = h
says false (some h) = not h

is_bool_lem : (b : Bool) (x : Option Bool) → is_bool b x ≡ says b x
unfolding is_bool
is_bool_lem true none = refl
is_bool_lem false none = refl
is_bool_lem true (some true) = refl
is_bool_lem true (some false) = refl
is_bool_lem false (some true) = refl
is_bool_lem false (some false) = refl

by_name : String × ℕ → String × ℕ → Bool
by_name a b = str_lt a.0 b.0

by_name-IsStrictWeak : IsStrictWeak by_name
unfolding by_name
by_name-IsStrictWeak = record {
  irrefl = λ a. str_lt_irrefl a.0;
  trans = λ a b c. str_lt_trans a.0 b.0 c.0;
  cotrans = λ a b c. str_lt_cotrans a.0 b.0 c.0;
}

-- In the order of the names.
abbrev pub InOrder : Dict ℕ → Type 0
InOrder [] = Unit
InOrder (a ∷ d) = All (λ b. str_lt b.0 a.0 ≡ false) d × InOrder d

sorted-InOrder : (d : Dict ℕ) → IsSorted by_name d → InOrder d
unfolding by_name
sorted-InOrder [] ordered = tt
sorted-InOrder (a ∷ d) (first, rest) = (first, sorted-InOrder d rest)

module _ {F : Type 0} ⦃fl : Float F⦄ where
  -- The outcome of a request, of which no exception is nameless.
  abbrev pub IsOutcome : RequestOutcome F → Type 0
  IsOutcome o =
      (started_at : F) × (ended_at : F) × (answer : HttpAnswer) × IsNamed answer
      × (outcome_of started_at ended_at answer ≡ ok o)

  -- What an outcome is: a success, which may tell of the cache, or a failure with a category.
  abbrev IsProper : RequestOutcome F → Type 0
  IsProper o =
      ((o.success ≡ true) × (o.error_category ≡ none))
      ⊎ ((c : String) × (o.success ≡ false)
          × (o.error_category ≡ some c)
          × (str_eq c "" ≡ false)
          × (o.cache_hit ≡ none))

  outcome_of-IsProper :
      (started_at ended_at : F) (answer : HttpAnswer) (o : RequestOutcome F)
      → IsNamed answer
      → outcome_of started_at ended_at answer ≡ ok o
      → IsProper o
  unfolding outcome_of
  outcome_of-IsProper s e (answered true status not_json) o named is =
      subst IsProper (ok_inj _ o is) (inr ("InvalidJSONResponse", refl, refl, refl, refl))
  outcome_of-IsProper s e (answered true status not_object) o named is = cc
  outcome_of-IsProper s e (answered true status (object hit)) o named is =
      subst IsProper (ok_inj _ o is) (inl (refl, refl))
  outcome_of-IsProper s e (answered false status body) o named is =
      subst IsProper (ok_inj _ o is) (inr ("HTTP" <> status, refl, refl, status_named status, refl))
  outcome_of-IsProper s e (http_error name) o named is =
      subst IsProper (ok_inj _ o is) (inr (name, refl, refl, named, refl))
  outcome_of-IsProper s e (crashed x) o named is = cc

  each-IsProper : (os : List (RequestOutcome F)) → All IsOutcome os → All IsProper os
  each-IsProper os all =
      map_All os (λ o (s, e, answer, named, is). outcome_of-IsProper s e answer o named is) all

  categories_lem :
      (os : List (RequestOutcome F))
      → All IsProper os
      → count_if (λ o. o.success) os + length (categories os) ≡ length os
  unfolding categories count_if
  categories_lem [] proper = refl
  categories_lem (o ∷ os) (inl (good, none_here), rest) =
      rw (good, none_here) (omega (arith, categories_lem os rest))
  categories_lem (o ∷ os) (inr (c, bad, here, named, untold), rest) =
      rw (bad, here, named) (omega (arith, categories_lem os rest))

  -- Only a success tells whether the cache was hit.
  hits-le :
      (os : List (RequestOutcome F))
      → All IsProper os
      → count_if (λ o. says true o.cache_hit) os + count_if (λ o. says false o.cache_hit) os
        ≤ count_if (λ o. o.success) os
  unfolding count_if
  hits-le [] proper = omega arith
  hits-le (o ∷ os) (inl (good, none_here), rest) = elim (Option-cases o.cache_hit) [
    | inl untold ↦ rw (good, untold) (omega (arith, hits-le os rest))
    | inr (h, told) ↦ rw (good, told) (ground (arith, hits-le os rest))
  ]
  hits-le (o ∷ os) (inr (c, bad, here, named, untold), rest) =
      rw (bad, untold) (omega (arith, hits-le os rest))

  count-says :
      (b : Bool) (os : List (RequestOutcome F))
      → count_if (λ o. is_bool b o.cache_hit) os ≡ count_if (λ o. says b o.cache_hit) os
  count-says b os =
      ap (λ (test : RequestOutcome F → Bool). count_if test os) (λ i o. is_bool_lem b o.cache_hit i)

  -- If floats are ordered, multiplication is monotone and `floor` and `ceil` round to whole
  -- numbers: `summarize` returns a summary of any outcomes of requests whose errors have names.
  -- Successes and failures add up to the requests, and the counts by category, in the order of the
  -- names, to the failures. In the uncached scenario each outcome that tells of a hit is
  -- unexpected, in the cached scenario each that tells of a miss, and in all no more than there are
  -- successes.
  pub summarize_lem :
      (builtins : Builtins F)
      → IsOrdered F
      → IsMonotone F
      → IsRounding builtins
      → (scenario : String) (concurrency : ℕ) (os : List (RequestOutcome F)) (elapsed : F)
      → All IsOutcome os
      → (s : Summary F) × (summarize builtins scenario concurrency os elapsed ≡ ok s)
        × (s.total_requests ≡ length os)
        × (s.successful_requests + s.failed_requests ≡ s.total_requests)
        × (total s.error_counts ≡ s.failed_requests)
        × InOrder s.error_counts
        × (s.unexpected_cache_hits
            ≡ (if str_eq scenario "uncached" then count_if (λ o. says true o.cache_hit) os else 0))
        × (s.unexpected_cache_misses
            ≡ (if str_eq scenario "cached" then count_if (λ o. says false o.cache_hit) os else 0))
        × (s.unexpected_cache_hits + s.unexpected_cache_misses ≤ s.successful_requests)
  unfolding summarize with_percentiles summary_of error_categories by_name
  summarize_lem builtins ordered monotone rounding scenario concurrency os elapsed outcomes =
      let proper = each-IsProper os outcomes in
      let counted = categories_lem os proper in
      let hits = count-says true os in
      let misses = count-says false os in
      let (p50, e50) =
        percentile-ok builtins ordered monotone rounding (latencies_of builtins os) 50 100
          (omega arith) (omega arith) in
      let (p95, e95) =
        percentile-ok builtins ordered monotone rounding (latencies_of builtins os) 95 100
          (omega arith) (omega arith) in
      (
        summary_of builtins scenario concurrency os elapsed p50 p95,
        rw (e50, e95) refl,
        refl,
        omega (arith, counted),
        omega (
          arith,
          counted,
          total-sorted by_name (counter (categories os) []),
          total-counter (categories os) [],
        ),
        sorted-InOrder _ (sorted-IsSorted by_name-IsStrictWeak (counter (categories os) [])),
        rw hits refl,
        rw misses refl,
        rw (hits, misses)
            (some_of-le (str_eq scenario "uncached") (str_eq scenario "cached") _ _ _
              (hits-le os proper)),
      )
