-- ===== src/RateLimiter/Credit.antt =====
-- What a bucket has given out, against the clock of Redis (app/services/rate_limiter.py).
use native.Mathlib.Decide.{dec_le}
use model_route.Base.{
  ℕ, zero, suc, ◌+◌, ◌-◌, ◌*◌, ◌≤◌, ◌≡◌, ap, ◌∙◌, Option, none, some, arith, if◌then◌else◌,
}
use model_route.RateLimiter.{TokenBucketRateLimiter, token, full, token_bucket_script}
use model_route.RateLimiter.Bounds.{after, cost_lem, call-spends, script_lem}
use model_route.RateLimiter.Expiry.{refilled_new, mul_le_of_le}
use model_route.Runtime.{Host}

module _ {F : Type 0} (host : Host F) where
  -- How far the clock of Redis has run forward up to the `n`-th request to the outside.
  unfoldable pub clock_run : ℕ → ℕ
  clock_run zero = 0
  clock_run (suc n) = clock_run n + (host.redis_time (suc n) - host.redis_time n)

  pub clock_run_lem :
      (k n : ℕ) → k ≤ n → (host.redis_time n - host.redis_time k) + clock_run k ≤ clock_run n
  unfolding clock_run
  clock_run_lem zero zero h = omega arith
  clock_run_lem (suc k) zero h = absurd (omega (arith, h))
  clock_run_lem k (suc n) h = elim (dec_le k n) [
    | yes below ↦ omega (arith, clock_run_lem k n below)
    | no above ↦
        let last : k ≡ suc n = omega (arith, h, above) in rw (last, clock_run) (omega arith)
  ]

  -- How far it runs forward between two requests, however often it is set back.
  abbrev pub forward_run : ℕ → ℕ → ℕ
  forward_run m n = clock_run n - clock_run m

spend_more : (spent x t : ℕ) → (spent + x) * t ≡ spent * t + x * t
spend_more spent x t = omega arith

module _ (rate : ℕ) where
  mul_run : (x k n : ℕ) → x + k ≤ n → x * rate + k * rate ≤ n * rate
  mul_run x k n h = omega (arith, mul_le_of_le (x + k) n rate h)

  add_back : (n m : ℕ) → m ≤ n → n * rate ≡ (n - m) * rate + m * rate
  add_back n m h =
      let e : n ≡ (n - m) + m = omega arith in
      ap (λ (x : ℕ). x * rate) e ∙ spend_more (n - m) m rate

module _ {F : Type 0} (host : Host F) (l : TokenBucketRateLimiter) (start : ℕ) where
  -- The bucket after `spent` admissions since the `start`-th request: what was given out and what is
  -- left come from the capacity and the refill.
  abbrev pub Credit : Option (ℕ × ℕ) → ℕ → ℕ → Type 0
  Credit none spent now = spent ≡ 0
  Credit (some (tokens, since)) spent now =
      (k : ℕ) × (start ≤ k)
      × (k ≤ now)
      × (since ≡ host.redis_time k)
      × (spent * token l + tokens + clock_run host start * l.rate_num
          ≤ full l + clock_run host k * l.rate_num)

  pub Credit-later :
      (b : Option (ℕ × ℕ)) (spent m n : ℕ) → m ≤ n → Credit b spent m → Credit b spent n
  Credit-later none spent m n h c = c
  Credit-later (some _) spent m n h (k, after_start, before, stamped, paid) =
      (k, after_start, omega arith, stamped, paid)

  pub Credit-call :
      (b : Option (ℕ × ℕ)) (spent n : ℕ)
      → start ≤ n
      → Credit b spent n
      → let now = host.redis_time n in
        Credit
          (after l now b)
          (spent + (if (token_bucket_script l now b).allowed then 1 else 0))
          (suc n)
  Credit-call none spent n h c =
      let now = host.redis_time n in
      let d = token_bucket_script l now none in
      let (_, kept, stamped) = script_lem l now none in
      (
        n,
        h,
        omega arith,
        stamped,
        omega (
          arith,
          ap (λ (x : ℕ). x * token l) c,
          spend_more spent (if d.allowed then 1 else 0) (token l),
          kept,
          refilled_new l now,
          cost_lem l d.allowed,
          mul_run l.rate_num 0 (clock_run host start) (clock_run host n)
              (omega (arith, clock_run_lem host start n h)),
        ),
      )
  Credit-call (some (tokens, since)) spent n h (k, after_start, before, stamped, paid) =
      let now = host.redis_time n in
      let d = token_bucket_script l now (some (tokens, since)) in
      let (_, _, stamped') = script_lem l now (some (tokens, since)) in
      (
        n,
        h,
        omega arith,
        stamped',
        omega (
          arith,
          paid,
          spend_more spent (if d.allowed then 1 else 0) (token l),
          call-spends l now tokens since,
          mul_run l.rate_num (now - since) (clock_run host k) (clock_run host n)
              (rw stamped (clock_run_lem host k n before)),
        ),
      )

  -- The bound that the credit gives.
  pub Credit-le :
      (b : Option (ℕ × ℕ)) (spent n : ℕ)
      → start ≤ n
      → Credit b spent n
      → spent * token l ≤ full l + forward_run host start n * l.rate_num
  Credit-le none spent n h c = rw c (omega arith)
  Credit-le (some (tokens, since)) spent n h (k, after_start, before, stamped, paid) = omega (
    arith,
    paid,
    mul_run l.rate_num 0 (clock_run host k) (clock_run host n)
        (omega (arith, clock_run_lem host k n before)),
    mul_run l.rate_num (clock_run host n - clock_run host start) (clock_run host start)
        (clock_run host n) (omega (arith, clock_run_lem host start n h)),
    add_back l.rate_num (clock_run host n) (clock_run host start)
        (omega (arith, clock_run_lem host start n h)),
  )
