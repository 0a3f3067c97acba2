-- ===== src/Benchmark/Payloads/Laws.antt =====
-- About the prompts of scripts/benchmark.py.
use Prim.Native.Char.{code}
use Prim.Native.String.{◌++◌ as ◌<>◌}
use text.Mathlib.TextLemmas.{append_cancel_left, append_assoc, cons-append, head-eq_of_cons-eq}
use model_route.Base.{
  String, ℕ, zero, suc, ◌≤◌, ◌<◌, max, ◌≡◌, ◌≢◌, refl, sym, ap, ◌∙◌, List, [], ◌∷◌, map, map_All,
  All-map, All-any, All, arith, length, length-map,
}
use model_route.Base.Float.{Float}
use model_route.Benchmark.Payloads.{
  Payload, payload, cached_prompt, uncached_prompt, warmup_prompt, repeated, range_from,
  first_repeated, measured_payloads, warmup_payloads,
}
use model_route.Runtime.{ok}

All-repeated : {A : Type 0} (P : A → Type 0) (x : A) (n : ℕ) → P x → All P (repeated x n)
unfolding repeated
All-repeated P x zero p = tt
All-repeated P x (suc n) p = (p, All-repeated P x n p)

pub length-repeated : {A : Type 0} (x : A) (n : ℕ) → length (repeated x n) ≡ n
unfolding repeated
length-repeated x zero = refl
length-repeated x (suc n) = ap suc (length-repeated x n)

range_from-le : (start count : ℕ) → All (λ i. start ≤ i) (range_from start count)
unfolding range_from
range_from-le start zero = tt
range_from-le start (suc count) = (
  omega arith,
  map_All (range_from (suc start) count) (λ i h. omega (arith, h))
      (range_from-le (suc start) count),
)

pub length-range_from : (start count : ℕ) → length (range_from start count) ≡ count
unfolding range_from
length-range_from start zero = refl
length-range_from start (suc count) = ap suc (length-range_from (suc start) count)

module _ {F : Type 0} where
  -- No two payloads have one prompt.
  abbrev pub IsDistinct : List (Payload F) → Type 0
  IsDistinct [] = Unit
  IsDistinct (p ∷ ps) = All (λ q. p.prompt ≢ q.prompt) ps × IsDistinct ps

-- Two numbers are not shown as one text.
abbrev pub IsInjective : (ℕ → String) → Type 0
IsInjective formatted = (m n : ℕ) → formatted m ≡ formatted n → m ≡ n

-- The prompts of the two kinds begin differently.
uncached≢warmup :
    (x y : String) → "ModelRoute benchmark uncached " <> x ≢ "ModelRoute benchmark warmup " <> y
uncached≢warmup x y e =
    let rest : "uncached " <> x ≡ "warmup " <> y =
      append_cancel_left "ModelRoute benchmark " ("uncached " <> x) ("warmup " <> y) (
        sym (append_assoc "ModelRoute benchmark " "uncached " x)
        ∙ e
        ∙ append_assoc "ModelRoute benchmark " "warmup " y) in
    let heads =
      head-eq_of_cons-eq (sym (cons-append "u" "ncached " x) ∙ rest ∙ cons-append "w" "armup " y) in
    ground (arith, ap code heads)

module _ (formatted : ℕ → String) (injective : IsInjective formatted) (run_id : String) where
  uncached_prompt-inj :
      (i j : ℕ) → uncached_prompt formatted run_id i ≡ uncached_prompt formatted run_id j → i ≡ j
  unfolding uncached_prompt
  uncached_prompt-inj i j e = injective i j (
      append_cancel_left " request " _ _
        (append_cancel_left run_id _ _ (append_cancel_left "ModelRoute benchmark uncached " _ _ e)))

  module _ (F : Type 0) ⦃fl : Float F⦄ where
    uncached : ℕ → Payload F
    uncached i = payload (uncached_prompt formatted run_id i)

    warmed : ℕ → Payload F
    warmed i = payload (warmup_prompt formatted run_id i)

    uncached-IsDistinct : (start count : ℕ) → IsDistinct (map uncached (range_from start count))
    unfolding range_from payload uncached
    uncached-IsDistinct start zero = tt
    uncached-IsDistinct start (suc count) = (
      All-map (λ q. uncached_prompt formatted run_id start ≢ q.prompt) uncached
          (range_from (suc start) count)
          (map_All (range_from (suc start) count)
            (λ i h e. omega (arith, h, uncached_prompt-inj start i e))
            (range_from-le (suc start) count)),
      uncached-IsDistinct (suc start) count,
    )

    uncached-Apart :
        (is js : List ℕ)
        → All (λ p. All (λ q. p.prompt ≢ q.prompt) (map warmed js)) (map uncached is)
    unfolding payload uncached warmed uncached_prompt warmup_prompt
    uncached-Apart is js =
        All-map (λ p. All (λ q. p.prompt ≢ q.prompt) (map warmed js)) uncached is
          (All-any _ is (λ i.
            All-map (λ q. uncached_prompt formatted run_id i ≢ q.prompt) warmed js
              (All-any _ js (λ j. uncached≢warmup _ _))))

    -- If numbers are shown as different texts: in the scenario `uncached` no two payloads that are measured have one
    -- prompt, and none has that of a warm-up request; in the scenario `cached`, all have the prompt of the
    -- warm-up requests, of which there is one at least. As many payloads are measured as are asked for.
    pub payloads_lem :
        (request_count warmup_requests : ℕ)
        → 0 < request_count
        → let uncached' = measured_payloads {F = F} formatted "uncached" run_id request_count in
          let cached = measured_payloads {F = F} formatted "cached" run_id request_count in
          (length uncached' ≡ request_count)
          × (length cached ≡ request_count)
          × IsDistinct uncached'
          × ((warmups : List (Payload F)) × (warmup_payloads formatted "uncached" run_id
                  request_count warmup_requests
                ≡ ok warmups)
              × (length warmups ≡ warmup_requests)
              × All (λ p. All (λ q. p.prompt ≢ q.prompt) warmups) uncached')
          × ((warmups : List (Payload F)) × (warmup_payloads formatted "cached" run_id request_count
                  warmup_requests
                ≡ ok warmups)
              × (0 < length warmups)
              × All (λ p. All (λ q. p ≡ q) warmups) cached)
    unfolding measured_payloads warmup_payloads first_repeated repeated uncached warmed
    payloads_lem zero warmup_requests h = absurd (omega (arith, h))
    payloads_lem (suc n) warmup_requests h =
        let p : Payload F = payload (cached_prompt run_id) in
        (
          length-map uncached (range_from 0 (suc n)) ∙ length-range_from 0 (suc n),
          length-repeated p (suc n),
          uncached-IsDistinct 0 (suc n),
          (
            map warmed (range_from 0 warmup_requests),
            refl,
            length-map warmed (range_from 0 warmup_requests) ∙ length-range_from 0 warmup_requests,
            uncached-Apart (range_from 0 (suc n)) (range_from 0 warmup_requests),
          ),
          (
            repeated p (max warmup_requests 1),
            refl,
            omega (arith, length-repeated p (max warmup_requests 1)),
            All-repeated _ p (suc n) (All-repeated _ p (max warmup_requests 1) refl),
          ),
        )
