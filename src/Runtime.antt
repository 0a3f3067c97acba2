-- ===== src/Runtime.antt =====
-- What the services share in one process: the state that they change, and what they ask of the
-- outside (clocks, Redis, the database, the JSON and hash functions), as a monad of state and
-- exceptions.
use model_route.Base.{◌≡◌, ap, String, ℕ, suc, Bool, Option, List, ◌∷◌}
use model_route.Errors.{Exception}
use model_route.Json.{Json}
use model_route.Latency.{LatencyTracker}

-- A key of Redis holds a text, or a token bucket (the hash fields `tokens` and `timestamp`).
pub data Value : Type 0 where
  plain : String → Value
  bucket : ℕ → ℕ → Value

-- A value with the time at which it expires, in microseconds.
pub record Entry : Type 0 where
  pub value : Value
  pub expires_at : ℕ

-- What was written to Redis, the newest first: the key of each write, and its value.
abbrev pub Writes : Type 0
Writes = List (String × Entry)

-- What Redis replies to a read, or a `RedisError`.
pub data Response (A : Type 0) : Type 0 where
  response : A → Response A
  redis_error : Response A

-- `decimal.Decimal` without a sign: `coefficient / 10 ^ scale`.
pub record Decimal : Type 0 where
  pub coefficient : ℕ
  pub scale : ℕ

-- app/db/models.py: a row of `request_metrics`. `id` and `timestamp` are given by the database.
pub record RequestMetric (F : Type 0) : Type 0 where
  pub request_id : String
  pub provider : Option String
  pub model : Option String
  pub routing_strategy : String
  pub status : String
  pub latency_ms : F
  pub input_tokens : ℕ
  pub output_tokens : ℕ
  pub estimated_cost_usd : Decimal
  pub cache_hit : Bool
  pub fallback_used : Bool
  pub error_category : Option String

pub record Row (F : Type 0) : Type 0 where
  pub id : ℕ
  pub timestamp : ℕ
  pub metric : RequestMetric F

-- The log lines, by their formats.
pub data LogLine : Type 0 where
  provider_failed : String → String → Bool → ℕ → LogLine
  provider_failed_from : String → String → String → Bool → ℕ → LogLine
  cache_read_failed cache_write_failed rate_limit_failed metric_insert_failed : LogLine

-- What the process did to the outside.
pub data Event (F : Type 0) : Type 0 where
  generate_called : String → Event F
  slept : F → Event F
  logged : LogLine → Event F

-- The outside. Its answer to a request depends on the number of requests before. `redis_get` and
-- `redis_hmget` are the replies of Redis to `GET key` and to `HMGET key tokens timestamp`, after
-- the writes given. `scan` is the order in which the database reads rows, `collates_before` its
-- order of texts, and `sql_avg` and `percentile_cont` its functions of these names on values that
-- are not none.
pub record Host (F : Type 0) : Type 0 where
  pub perf_counter : ℕ → F
  pub uuid4 : ℕ → String
  pub redis_time : ℕ → ℕ
  pub redis_fails : ℕ → Bool
  pub redis_get : ℕ → String → Writes → Response (Option String)
  pub redis_hmget : ℕ → String → Writes → Response (Option (ℕ × ℕ))
  pub database_time : ℕ → ℕ
  pub database_fails : ℕ → Bool
  pub scan : ℕ → List (Row F) → List (Row F)
  pub collates_before : String → String → Bool
  pub sql_avg : List F → F
  pub percentile_cont : F → List F → F
  pub sha256_hex : String → String
  pub dumps_canonical : Json → String
  pub dumps : Json → String
  pub loads : String → Option Json
  pub validate_text : Json → Option String
  pub validate_count : Json → Option ℕ
  pub decimal_of : F → Decimal
  pub float_of : Decimal → F
  pub parse_int : String → Option ℕ

-- The state. `tick` counts the requests to the outside; the newest event stands first.
pub record World (F : Type 0) : Type 0 where
  pub tick : ℕ
  pub redis : Writes
  pub rows : List (Row F)
  pub latency : LatencyTracker F
  pub events : List (Event F)

pub data Outcome (A : Type 0) : Type 0 where
  ok : A → Outcome A
  raise : Exception → Outcome A

-- An action on the state; what was changed before an exception stays changed.
abbrev pub Action : Type 0 → Type 0 → Type 0
Action F A = World F → Outcome A × World F

module _ {F : Type 0} where
  infixl 5 ◌>>=◌ ◌>>◌
  abbrev pub ◌>>=◌ : {A B : Type 0} → Action F A → (A → Action F B) → Action F B
  ◌>>=◌ m f w = let (r, w') = m w in elim r [ ok a ↦ f a w' | raise e ↦ (raise e, w') ]

  abbrev pub ◌>>◌ : {A B : Type 0} → Action F A → Action F B → Action F B
  m >> k = m >>= λ _. k

  abbrev pub pure : {A : Type 0} → A → Action F A
  pure a w = (ok a, w)

  abbrev pub throw : {A : Type 0} → Exception → Action F A
  throw e w = (raise e, w)

  abbrev pub note : Event F → Action F (Unit {0})
  note e w = (ok tt, record w { events = e ∷ w.events })

  -- A request to the outside, answered by its number.
  abbrev pub ask : {A : Type 0} → (ℕ → A) → Action F A
  ask answer w = (ok (answer w.tick), record w { tick = suc w.tick })

  -- After an action that returns, the next one runs.
  pub bind-ok :
      {A B : Type 0}
      → (m : Action F A) (f : A → Action F B) (a : A) (w : World F) → (m w).0 ≡ ok a
      → (m >>= f) w ≡ f a (m w).1
  bind-ok {B = B} m f a w h =
      ap
        (λ r. elim r as (λ _. Outcome B × World F) [
          | ok b ↦ f b (m w).1
          | raise e ↦ (raise e, (m w).1)
        ])
        h

  pub bind-raise :
      {A B : Type 0}
      → (m : Action F A) (f : A → Action F B) (e : Exception) (w : World F) → (m w).0 ≡ raise e
      → (m >>= f) w ≡ (raise e, (m w).1)
  bind-raise {B = B} m f e w h =
      ap
        (λ r. elim r as (λ _. Outcome B × World F) [
          | ok b ↦ f b (m w).1
          | raise x ↦ (raise x, (m w).1)
        ])
        h

  -- The same from the state that the action ends in.
  pub bind-return :
      {A B : Type 0}
      → (m : Action F A) (f : A → Action F B) (a : A) (w v : World F) → m w ≡ (ok a, v)
      → (m >>= f) w ≡ f a v
  bind-return {B = B} m f a w v h =
      ap (λ x. elim x.0 as (λ _. Outcome B × World F) [ ok b ↦ f b x.1 | raise e ↦ (raise e, x.1) ])
        h

  pub bind-throw :
      {A B : Type 0}
      → (m : Action F A) (f : A → Action F B) (e : Exception) (w v : World F) → m w ≡ (raise e, v)
      → (m >>= f) w ≡ (raise e, v)
  bind-throw {B = B} m f e w v h =
      ap
        (λ x. elim x.0 as (λ _. Outcome B × World F) [
          | ok b ↦ f b x.1
          | raise x' ↦ (raise x', x.1)
        ])
        h
