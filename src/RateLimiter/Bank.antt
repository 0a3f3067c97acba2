-- ===== src/RateLimiter/Bank.antt =====
-- A client's bucket in Redis over the calls of all clients (app/services/rate_limiter.py).
use text.Mathlib.TextEquality.{eq_iff}
use model_route.Base.{
  String, ℕ, suc, ◌+◌, ◌≤◌, ◌≡◌, ◌≢◌, refl, sym, ap, ◌∙◌, Bool, ◌&&◌, Option, arith, str_eq,
  str_eq_self, if◌then◌else◌, Bool-cases, inl, inr,
}
use model_route.RateLimiter.{TokenBucketRateLimiter, token_bucket_script, bucket_key, allow}
use model_route.RateLimiter.Admissions.{
  Tracks, allow_lem, allow-Tracks_ne, allow_fails_closed, is_admitted,
}
use model_route.RateLimiter.Bounds.{after}
use model_route.RateLimiter.Expiry.{Lasts}
use model_route.Redis.{IsRedis}
use model_route.Runtime.{Host, World, Outcome, ok}
use model_route.RateLimiter.Credit.{Credit, Credit-later, Credit-call}

module _ {F : Type 0} (host : Host F) (l : TokenBucketRateLimiter) (start : ℕ)
    (client : String) where
  -- The client's bucket in Redis, with its credit.
  abbrev pub Bank : Option (ℕ × ℕ) → ℕ → World F → Type 0
  Bank b spent w = Tracks host l client b w × (start ≤ w.tick) × Credit host l start b spent w.tick

  -- What a call for `asker` gives the client.
  abbrev pub gain : String → Outcome Bool → ℕ
  gain asker x = if str_eq asker client && is_admitted x then 1 else 0

  allow-tick : (asker : String) (w : World F) → (allow host l asker w).1.tick ≡ suc w.tick
  unfolding allow
  allow-tick asker w = ground arith

  moved-Bank :
      (b : Option (ℕ × ℕ)) (spent spent' n : ℕ) (v : World F)
      → Tracks host l client b v
      → v.tick ≡ suc n
      → start ≤ n
      → spent' ≡ spent
      → Credit host l start b spent (suc n)
      → Bank b spent' v
  moved-Bank b spent spent' n v tracks ticks begun same credit =
      (tracks, omega (arith, ticks), rw (ticks, same) credit)

  gain_self : (b : Bool) → gain client (ok b) ≡ (if b then 1 else 0)
  gain_self b = rw (str_eq_self client) refl

  -- The client's own call.
  own-Bank :
      IsRedis host
      → Lasts l
      → (b : Option (ℕ × ℕ)) (spent : ℕ) (w : World F) → Bank b spent w
      → let (x, v) = allow host l client w in
        (b' : Option (ℕ × ℕ)) × Bank b' (spent + gain client x) v
  own-Bank redis lasts b spent w (tracks, begun, credit) =
      let v = (allow host l client w).1 in
      elim (Bool-cases (host.redis_fails w.tick)) [
        | inl down ↦
            let failed = allow_fails_closed host l client w down in
            let none_gained : gain client (allow host l client w).0 ≡ 0 =
              rw (failed, str_eq_self client) refl in
            (
              b,
              moved-Bank b spent _ w.tick v (rw failed tracks) (allow-tick client w) begun
                  (omega (arith, none_gained))
                  (Credit-later host l start b spent w.tick (suc w.tick) (omega arith) credit),
            )
        | inr up ↦
            let now = host.redis_time w.tick in
            let allowed = (token_bucket_script l now b).allowed in
            let (decided, kept, next) = allow_lem host l redis lasts client b w up tracks in
            let gained : gain client (allow host l client w).0 ≡ (if allowed then 1 else 0) =
              ap (gain client) decided ∙ gain_self allowed in
            (
              after l now b,
              moved-Bank (after l now b) (spent + (if allowed then 1 else 0)) _ w.tick v kept next
                  begun (ap (λ x. spent + x) gained)
                  (Credit-call host l start b spent w.tick begun credit),
            )
      ]

  -- If Redis replies as documented, the time to live lasts until a bucket is full, and the asker's
  -- key is not another's: after a call for anyone the client's credit is kept.
  pub allow-Bank :
      IsRedis host
      → Lasts l
      → (asker : String) → (bucket_key host client ≡ bucket_key host asker → client ≡ asker)
      → (b : Option (ℕ × ℕ)) (spent : ℕ) (w : World F) → Bank b spent w
      → let (x, v) = allow host l asker w in
        (b' : Option (ℕ × ℕ)) × Bank b' (spent + gain asker x) v
  allow-Bank redis lasts asker apart b spent w bank = elim (Bool-cases (str_eq asker client)) [
    | inl mine ↦ rw ((eq_iff asker client).0 mine) (own-Bank redis lasts b spent w bank)
    | inr foreign ↦
        let (tracks, begun, credit) = bank in
        let ne : bucket_key host client ≢ bucket_key host asker =
          λ e. cc ((eq_iff asker client).1 (sym (apart e)), foreign) in
        let (kept, next) = allow-Tracks_ne host l client asker b w ne tracks in
        let none_gained : gain asker (allow host l asker w).0 ≡ 0 = rw foreign refl in
        (
          b,
          moved-Bank b spent _ w.tick (allow host l asker w).1 kept next begun
              (omega (arith, none_gained))
              (Credit-later host l start b spent w.tick (suc w.tick) (omega arith) credit),
        )
  ]
