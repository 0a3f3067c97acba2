-- ===== src/RateLimiter/Expiry.antt =====
-- The time to live of a bucket (app/services/rate_limiter.py): a key that Redis has dropped would
-- have been full again, so expiry is never noticed.
use model_route.Base.{ℕ, ◌+◌, ◌-◌, ◌*◌, ◌≤◌, ◌<◌, ◌≡◌, refl, max, none, some, arith}
use model_route.RateLimiter.{
  TokenBucketRateLimiter, ceil_div, new_limiter, full, refilled, token_bucket_script,
}
use model_route.RateLimiter.Bounds.{refilled_lem}
use model_route.Redis.{seconds}

-- `bucket_ttl_seconds` lasts for an empty bucket to fill up.
abbrev pub Lasts : TokenBucketRateLimiter → Type 0
Lasts l = full l ≤ seconds l.bucket_ttl_seconds * l.rate_num

ceil_div_lem : (a b : ℕ) → 0 < b → a ≤ ceil_div a b * b
unfolding ceil_div
ceil_div_lem a b h = omega arith

pub mul_le_of_le : (a b c : ℕ) → a ≤ b → a * c ≤ b * c
mul_le_of_le a b c h = grind arith

-- The time to live that the constructor computes lasts, for every capacity and every positive
-- refill rate.
pub new_limiter-Lasts : (capacity num den : ℕ) → 0 < num → Lasts (new_limiter capacity num den)
unfolding new_limiter
new_limiter-Lasts capacity num den h =
    let c = ceil_div (2 * capacity * den) num in
    omega
      (arith, ceil_div_lem (2 * capacity * den) num h, mul_le_of_le c (max 60 c) num (omega arith))

module _ (l : TokenBucketRateLimiter) where
  -- A new bucket is full.
  pub refilled_new : (now : ℕ) → refilled l now none ≡ full l
  unfolding refilled
  refilled_new now = ground arith

  refilled_expired :
      Lasts l
      → (now tokens since : ℕ) → since + seconds l.bucket_ttl_seconds ≤ now
      → refilled l now (some (tokens, since)) ≡ full l
  refilled_expired lasts now tokens since h = rw (refilled_lem l now tokens since) (
      omega (
        arith,
        lasts,
        mul_le_of_le (seconds l.bucket_ttl_seconds) (now - since) l.rate_num (omega arith),
      ))

  -- If the time to live lasts until a bucket is full, a bucket whose time to live is over is decided on as one that was never there.
  pub script_expired :
      Lasts l
      → (now tokens since : ℕ) → since + seconds l.bucket_ttl_seconds ≤ now
      → token_bucket_script l now (some (tokens, since)) ≡ token_bucket_script l now none
  unfolding token_bucket_script
  script_expired lasts now tokens since h =
      rw (refilled_expired lasts now tokens since h, refilled_new now) refl
