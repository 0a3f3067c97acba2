-- ===== src/Redis.antt =====
-- The Redis commands that the program sends, and how they are documented to be answered: a key holds
-- its newest write; past its expiry it is as good as absent; a command for one kind of value on a
-- key that holds the other is an error.
use model_route.Base.{String, ℕ, ◌+◌, ◌*◌, ltb, Option, none, some, ◌∷◌, ◌≡◌, if◌then◌else◌}
use model_route.Base.Dict.{lookup}
use model_route.Runtime.{Value, plain, bucket, Entry, Writes, Response, response, redis_error, Host}

abbrev pub seconds : ℕ → ℕ
seconds n = n * 1_000_000

abbrev live_entry : ℕ → Option Entry → Option Value
live_entry now none = none
live_entry now (some e) = if ltb now e.expires_at then some e.value else none

-- The value of a key at a time.
unfoldable pub live : ℕ → String → Writes → Option Value
live now key d = live_entry now (lookup key d)

abbrev text_of : Option Value → Response (Option String)
text_of none = response none
text_of (some (plain s)) = response (some s)
text_of (some (bucket _ _)) = redis_error

-- The reply to `GET key`.
unfoldable pub get : ℕ → String → Writes → Response (Option String)
get now key d = text_of (live now key d)

-- `SET key payload EX ttl`
unfoldable pub set : ℕ → String → String → ℕ → Writes → Writes
set now key payload ttl d =
    (key, record { value = plain payload; expires_at = now + seconds ttl }) ∷ d

abbrev fields_of : Option Value → Response (Option (ℕ × ℕ))
fields_of none = response none
fields_of (some (plain _)) = redis_error
fields_of (some (bucket tokens timestamp)) = response (some (tokens, timestamp))

-- The reply to `HMGET key tokens timestamp`.
unfoldable pub hmget : ℕ → String → Writes → Response (Option (ℕ × ℕ))
hmget now key d = fields_of (live now key d)

-- `HSET key tokens t timestamp s` and `EXPIRE key ttl`
unfoldable pub hset_expire : ℕ → String → ℕ → ℕ → ℕ → Writes → Writes
hset_expire now key tokens timestamp ttl d =
    (key, record { value = bucket tokens timestamp; expires_at = now + seconds ttl }) ∷ d

-- The Redis that the program talks to replies as documented. It evicts no key before its expiry.
pub record IsRedis {F : Type 0} (host : Host F) : Type 0 where
  pub get_lem :
      (n : ℕ) (key : String) (d : Writes) → host.redis_get n key d ≡ get (host.redis_time n) key d
  pub hmget_lem :
      (n : ℕ) (key : String) (d : Writes)
      → host.redis_hmget n key d ≡ hmget (host.redis_time n) key d
