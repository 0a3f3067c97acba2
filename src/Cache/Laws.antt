-- ===== src/Cache/Laws.antt =====
-- About the keys, reads and writes of app/services/cache.py.
use mathlib.Core.Option
use mathlib.Core.Option.{some-injective}
use Prim.Native.String.{◌++◌ as ◌<>◌}
use text.Mathlib.TextLemmas.{append_cancel_left}
use model_route.Base.{String, ℕ, suc, ◌+◌, ◌<◌, ◌≡◌, ap, ◌↔◌, false, some, arith, str_eq_self}
use model_route.Base.Dict.{lookup}
use model_route.Cache.{
  ResponseCache, identity_fields, key_identity, payload_of, build_key, decode, hit, get, set,
}
use model_route.Json.{num, str, obj, Fields, get_field}
use model_route.Providers.{GenerationRequest, Provider, ProviderResult}
use model_route.Redis
use model_route.Redis.{IsRedis, live, seconds}
use model_route.Runtime.{Host, World, ok}

-- What `json` and the response model are documented to do with the value that `set` writes.
pub record JsonLaws {F : Type 0} (host : Host F) (r : ProviderResult) : Type 0 where
  pub loads-dumps : host.loads (host.dumps (payload_of r)) ≡ some (payload_of r)
  pub text-str : (s : String) → host.validate_text (str s) ≡ some s
  pub count-num : (n : ℕ) → host.validate_count (num n) ≡ some n

-- With sorted keys the canonical text determines a text value, and two dicts have one canonical
-- text exactly if they have the same keys with values of the same canonical text.
pub record CanonicalLaws {F : Type 0} (host : Host F) (a b : Fields) : Type 0 where
  pub str_inj : (s t : String) → host.dumps_canonical (str s) ≡ host.dumps_canonical (str t) → s ≡ t
  pub obj_iff : (host.dumps_canonical (obj a) ≡ host.dumps_canonical (obj b)) ↔ (
      (key : String)
      → Option.map host.dumps_canonical (get_field key a)
        ≡ Option.map host.dumps_canonical (get_field key b))

module _ {F : Type 0} (host : Host F) where
  decode-dumps :
      (r : ProviderResult) → JsonLaws host r → decode host (host.dumps (payload_of r)) ≡ hit r
  unfolding decode payload_of get_field
  decode-dumps r laws = simp (laws.loads-dumps, laws.text-str, laws.count-num)

  -- If Redis replies as documented, the response model reads a text and a count as themselves, and
  -- `json` reads back what was written of a result: a result that was set is got back under its
  -- key, by any later read before which nothing else was written under that key, where Redis answers
  -- and the time to live has not passed. The read changes nothing else.
  pub get-set :
      (cache : ResponseCache) (key : String) (r : ProviderResult) (w v : World F)
      → IsRedis host
      → JsonLaws host r
      → host.redis_fails w.tick ≡ false
      → lookup key v.redis ≡ lookup key (set host cache key r w).1.redis
      → host.redis_fails v.tick ≡ false
      → host.redis_time v.tick < host.redis_time w.tick + seconds cache.ttl_seconds
      → get host key v ≡ (ok (some r), record v { tick = suc v.tick })
  unfolding get set Redis.get Redis.set live lookup
  get-set cache key r w v redis laws up same up' fresh =
      ground (arith, same, decode-dumps r laws, str_eq_self key, redis.get_lem v.tick key v.redis)

  -- If canonical texts tell texts apart, and dicts up to the canonical texts of their values: two
  -- requests share a key exactly if the provider's name, the model and the prompt are the
  -- same and the effective parameters have one canonical text, unless the hashes of the two
  -- canonical texts collide.
  pub build_key_iff :
      (p q : Provider F) (r s : GenerationRequest F)
      → CanonicalLaws host (identity_fields p r) (identity_fields q s)
      → (host.sha256_hex (host.dumps_canonical (key_identity p r))
            ≡ host.sha256_hex (host.dumps_canonical (key_identity q s))
          → host.dumps_canonical (key_identity p r) ≡ host.dumps_canonical (key_identity q s))
      → (build_key host p r ≡ build_key host q s) ↔ (
          (p.metadata.name ≡ q.metadata.name)
          × (p.metadata.model ≡ q.metadata.model)
          × (r.prompt ≡ s.prompt)
          × (host.dumps_canonical (p.effective_parameters r)
              ≡ host.dumps_canonical (q.effective_parameters s)))
  unfolding build_key key_identity get_field
  build_key_iff p q r s laws no_collision = (
    λ same.
        let texts = no_collision (append_cancel_left "modelroute:cache:" _ _ same) in
        let fields = laws.obj_iff.0 texts in
        (
          laws.str_inj _ _ (some-injective _ _ (fields "provider")),
          laws.str_inj _ _ (some-injective _ _ (fields "model")),
          laws.str_inj _ _ (some-injective _ _ (fields "prompt")),
          some-injective _ _ (fields "parameters"),
        ),
    λ (name, model, prompt, parameters).
        let canon = host.dumps_canonical in
        ap (λ t. "modelroute:cache:" <> host.sha256_hex t)
          (laws.obj_iff.1 (λ key. ground (
            arith,
            ap (λ t. canon (str t)) name,
            ap (λ t. canon (str t)) model,
            ap (λ t. canon (str t)) prompt,
          ))),
  )
