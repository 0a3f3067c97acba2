-- ===== src/Cache.antt =====
-- app/services/cache.py: exact responses in Redis.
pub mod Laws
use Prim.Native.String.{◌++◌ as ◌<>◌}
use model_route.Base.{String, ℕ, Bool, true, false, Option, none, some, if◌then◌else◌, []}
use model_route.Errors.{Exception, validation_error}
use model_route.Json.{Json, null, bool, num, real, str, arr, obj, Fields, end, field, get_field}
use model_route.Providers.{GenerationRequest, Provider, ProviderResult}
use model_route.Redis
use model_route.Runtime.{
  Host, World, Event, logged, LogLine, Response, response, redis_error, cache_read_failed,
  cache_write_failed, Outcome, ok, raise, Action, ◌>>=◌, ◌>>◌, pure, throw, note, ask,
}

-- `ResponseCache`, without its Redis client.
pub record ResponseCache : Type 0 where
  pub ttl_seconds : ℕ

-- The dict `identity` of `build_key`.
abbrev pub identity_fields : {F : Type 0} → Provider F → GenerationRequest F → Fields
identity_fields provider request = field "provider" (str provider.metadata.name) (
    field "model" (str provider.metadata.model) (
      field "prompt" (str request.prompt)
        (field "parameters" (provider.effective_parameters request) end)))

unfoldable pub key_identity : {F : Type 0} → Provider F → GenerationRequest F → Json
key_identity provider request = obj (identity_fields provider request)

-- The dict that `set` writes.
unfoldable pub payload_of : ProviderResult → Json
payload_of r = obj (
    field "content" (str r.content) (
      field "provider" (str r.provider) (
        field "model" (str r.model) (
          field "input_tokens" (num r.input_tokens)
            (field "output_tokens" (num r.output_tokens) end)))))

-- What is read from a cached text. The dataclass takes fields of any type; those that are not the
-- text and counts that the response model wants are refused by it as soon as the response is built.
pub data Cached : Type 0 where
  hit : ProviderResult → Cached
  unreadable : Cached
  mistyped : Cached

-- The five fields, with the types that the response model wants.
typed : Option String → Option String → Option String → Option ℕ → Option ℕ → Cached
typed (some content) (some provider) (some model) (some input) (some output) = hit (record {
  content = content;
  provider = provider;
  model = model;
  input_tokens = input;
  output_tokens = output;
})
typed _ _ _ _ _ = mistyped

module _ {F : Type 0} (host : Host F) where
  unfoldable pub build_key : Provider F → GenerationRequest F → String
  unfolding key_identity
  build_key provider request =
      "modelroute:cache:" <> host.sha256_hex (host.dumps_canonical (key_identity provider request))

  -- `ProviderResult(content=data["content"], …)`: a `KeyError` if a key is missing.
  result_of_fields : Option Json → Option Json → Option Json → Option Json → Option Json → Cached
  unfolding typed
  result_of_fields (some content) (some provider) (some model) (some input) (some output) =
      typed (host.validate_text content) (host.validate_text provider) (host.validate_text model)
        (host.validate_count input) (host.validate_count output)
  result_of_fields _ _ _ _ _ = unreadable

  -- Indexing by a text is a `TypeError` on anything but a dict.
  result_of_json : Json → Cached
  unfolding result_of_fields
  result_of_json (obj data') =
      result_of_fields (get_field "content" data') (get_field "provider" data')
        (get_field "model" data') (get_field "input_tokens" data') (get_field "output_tokens" data')
  result_of_json _ = unreadable

  -- `none` is the `JSONDecodeError`.
  result_of_loaded : Option Json → Cached
  result_of_loaded none = unreadable
  result_of_loaded (some j) = result_of_json j

  unfoldable pub decode : String → Cached
  unfolding result_of_loaded result_of_json
  decode cached = result_of_loaded (host.loads cached)

  unfoldable pub read_failed : Action F (Option ProviderResult)
  read_failed = note (logged cache_read_failed) >> pure none

  unfoldable pub finish_get : Cached → Action F (Option ProviderResult)
  unfolding read_failed
  finish_get (hit r) = pure (some r)
  finish_get unreadable = read_failed
  finish_get mistyped = throw validation_error

  unfoldable pub read_response : Response (Option String) → Action F (Option ProviderResult)
  unfolding read_failed finish_get
  read_response redis_error = read_failed
  read_response (response none) = pure none
  read_response (response (some cached)) = finish_get (decode cached)

  -- `redis.get(key)` at the `n`-th request, unless the connection fails.
  abbrev redis_get : World F → String → ℕ → Response (Option String)
  redis_get w key n = if host.redis_fails n then redis_error else host.redis_get n key w.redis

  unfoldable pub get : String → Action F (Option ProviderResult)
  unfolding read_response
  get key w = (ask (redis_get w key) >>= read_response) w

  write_response : String → String → ℕ → ℕ → Action F (Unit {0})
  write_response key payload ttl n w =
      if host.redis_fails n
      then note (logged cache_write_failed) w
      else (ok tt, record w { redis = Redis.set (host.redis_time n) key payload ttl w.redis })

  unfoldable pub set : ResponseCache → String → ProviderResult → Action F (Unit {0})
  unfolding write_response payload_of
  set cache key result = do
    n ← ask (λ n. n)
    write_response key (host.dumps (payload_of result)) cache.ttl_seconds n
