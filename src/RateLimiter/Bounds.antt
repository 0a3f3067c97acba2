-- ===== src/RateLimiter/Bounds.antt =====
-- The token bucket of app/services/rate_limiter.py as the script computes it.
use model_route.Base.{
  ℕ, ◌+◌, ◌-◌, min, refl, ◌*◌, ◌≤◌, ◌≡◌, ◌↔◌, Bool, true, false, ltb, Option, none, some, List, [],
  ◌∷◌, arith, if◌then◌else◌,
}
use model_route.RateLimiter.{TokenBucketRateLimiter, token, full, refilled, token_bucket_script}

-- A bucket never holds more than the capacity.
abbrev pub IsBounded : TokenBucketRateLimiter → Option (ℕ × ℕ) → Type 0
IsBounded l none = Unit
IsBounded l (some (tokens, _)) = tokens ≤ full l

elapsed : (now since : ℕ) → now - (if ltb now since then now else since) ≡ now - since
elapsed now since = ground arith

-- How far the clock runs forward from `since` over the times of the calls.
unfoldable pub forward : ℕ → List ℕ → ℕ
forward since [] = 0
forward since (now ∷ nows) = (now - since) + forward now nows

module _ (l : TokenBucketRateLimiter) where
  -- The fields that a call leaves in the bucket.
  abbrev pub after : ℕ → Option (ℕ × ℕ) → Option (ℕ × ℕ)
  after now b = let d = token_bucket_script l now b in some (d.tokens, d.timestamp)

  -- A call keeps the bucket within the capacity.
  pub after-IsBounded : (now : ℕ) (b : Option (ℕ × ℕ)) → IsBounded l (after now b)
  unfolding token_bucket_script refilled
  after-IsBounded now none = ground arith
  after-IsBounded now (some b) = ground arith

  -- A call is admitted exactly if a whole token is there after the refill, and takes it then.
  pub script_lem :
      (now : ℕ) (b : Option (ℕ × ℕ))
      → let d = token_bucket_script l now b in
        ((d.allowed ≡ true) ↔ (token l ≤ refilled l now b))
        × (d.tokens + (if d.allowed then token l else 0) ≡ refilled l now b)
        × (d.timestamp ≡ now)
  unfolding token_bucket_script
  script_lem now none = ground arith
  script_lem now (some b) = ground arith

  -- The calls of one bucket at the given times: how many are admitted.
  unfoldable pub admitted : Option (ℕ × ℕ) → List ℕ → ℕ
  admitted b [] = 0
  admitted b (now ∷ nows) =
      (if (token_bucket_script l now b).allowed then 1 else 0) + admitted (after now b) nows

  -- A clock that has run back refills nothing.
  pub refilled_lem :
      (now tokens since : ℕ)
      → refilled l now (some (tokens, since)) ≡ min (full l) (tokens + (now - since) * l.rate_num)
  unfolding refilled
  refilled_lem now tokens since = rw (elapsed now since) refl

  -- What a call takes.
  abbrev pub cost : Bool → ℕ
  cost allowed = (if allowed then 1 else 0) * token l

  pub cost_lem : (b : Bool) → cost b ≡ (if b then token l else 0)
  cost_lem true = omega arith
  cost_lem false = omega arith

  pub call-spends :
      (now tokens since : ℕ)
      → let d = token_bucket_script l now (some (tokens, since)) in
        cost d.allowed + d.tokens ≤ tokens + (now - since) * l.rate_num
  call-spends now tokens since =
      let (_, kept, _) = script_lem now (some (tokens, since)) in
      omega (
        arith,
        kept,
        refilled_lem now tokens since,
        cost_lem (token_bucket_script l now (some (tokens, since))).allowed,
      )

  pub admitted-spends :
      (tokens since : ℕ) (nows : List ℕ)
      → admitted (some (tokens, since)) nows * token l ≤ tokens + forward since nows * l.rate_num
  unfolding admitted forward
  admitted-spends tokens since [] = omega arith
  admitted-spends tokens since (now ∷ nows) =
      let d = token_bucket_script l now (some (tokens, since)) in
      let (_, _, stamped) = script_lem now (some (tokens, since)) in
      let rest : admitted (after now (some (tokens, since))) nows * token l
          ≤ d.tokens + forward now nows * l.rate_num =
        rw stamped (admitted-spends d.tokens now nows) in
      omega (arith, rest, call-spends now tokens since)

  -- However the calls are spaced, and if the clock runs back too, no more are admitted than the
  -- capacity and what the clock's forward steps refill.
  pub admitted-le :
      (tokens since : ℕ) (nows : List ℕ)
      → IsBounded l (some (tokens, since))
      → admitted (some (tokens, since)) nows * token l ≤ full l + forward since nows * l.rate_num
  admitted-le tokens since nows h = omega (arith, admitted-spends tokens since nows)
