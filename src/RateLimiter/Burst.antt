-- ===== src/RateLimiter/Burst.antt =====
-- The most that a bucket that begins full admits (app/services/rate_limiter.py).
use model_route.Base.{ℕ, ◌+◌, ◌*◌, ◌≤◌, none, List, [], ◌∷◌, arith}
use model_route.RateLimiter.{TokenBucketRateLimiter, token, full, token_bucket_script}
use model_route.RateLimiter.Bounds.{forward, admitted, after, script_lem, cost_lem, admitted-spends}
use model_route.RateLimiter.Expiry.{refilled_new}

-- How far the clock runs forward between the first time and the last.
unfoldable pub forward_steps : List ℕ → ℕ
unfolding forward
forward_steps [] = 0
forward_steps (now ∷ nows) = forward now nows

module _ (l : TokenBucketRateLimiter) where
  -- No more calls are admitted than the capacity, and what the clock's forward steps refill.
  pub admitted_new-le :
      (nows : List ℕ) → admitted l none nows * token l ≤ full l + forward_steps nows * l.rate_num
  unfolding admitted forward_steps
  admitted_new-le [] = omega arith
  admitted_new-le (now ∷ nows) =
      let d = token_bucket_script l now none in
      let (_, kept, stamped) = script_lem l now none in
      let rest : admitted l (after l now none) nows * token l
          ≤ d.tokens + forward now nows * l.rate_num =
        rw stamped (admitted-spends l d.tokens now nows) in
      omega (arith, kept, refilled_new l now, cost_lem l d.allowed, rest)
