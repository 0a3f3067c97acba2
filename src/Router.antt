-- ===== src/Router.antt =====
-- app/services/router.py: the order in which the providers are tried. `approximate_token_count`
-- is that of app/providers/mock_provider.py.
pub mod Keys
pub mod Laws
use model_route.Base.{
  String, ℕ, zero, suc, ◌+◌, Bool, true, false, ◌&&◌, ◌||◌, not, List, [], ◌∷◌, str_eq, str_lt,
  codes, keep, if◌then◌else◌,
}
use model_route.Base.Float.{Float}
use model_route.Base.Sorting.{sorted}
use model_route.Base.Unicode.{Unicode}
use model_route.Errors.{Exception, gateway, value_error, no_eligible_provider}
use model_route.Latency.{LatencyTracker, get}
use model_route.Providers.{GenerationRequest, Provider, identity}
use Prim.Native.String.{◌++◌ as ◌<>◌}

pub data Routed (A : Type 0) : Type 0 where
  candidates : A → Routed A
  raised : Exception → Routed A

-- The matches of `\w+|[^\w\s]`: a run of word characters counts once, where it begins; `inside`
-- says that the character before was of the run.
unfoldable pub count_tokens : Unicode → Bool → List ℕ → ℕ
count_tokens u inside [] = 0
count_tokens u inside (c ∷ cs) =
    (if u.is_word c then (if inside then 0 else 1) else if u.is_space c then 0 else 1)
    + count_tokens u (u.is_word c) cs

unfoldable pub approximate_token_count : Unicode → String → ℕ
unfolding count_tokens codes
approximate_token_count u text = count_tokens u false (codes text)

-- `ProviderRouter`. The latency tracker is shared, so `route` is given it.
pub record ProviderRouter (F : Type 0) : Type 0 where
  pub providers : List (Provider F)
  pub default_provider : String
  pub allow_mock : Bool

module _ {F : Type 0} where
  -- The key `name != default_provider`
  unfoldable pub is_other : String → Provider F → Bool
  is_other default_provider p = not (str_eq p.metadata.name default_provider)

  -- `<` on that key
  unfoldable pub default_lt : String → Provider F → Provider F → Bool
  unfolding is_other
  default_lt default_provider p q = not (is_other default_provider p) && is_other default_provider q

  unfoldable pub is_eligible : Bool → Provider F → Bool
  is_eligible allow_mock p =
      p.metadata.available && (not (str_eq p.metadata.name "mock") || allow_mock)

  unfoldable pub eligible_of : ProviderRouter F → List (Provider F)
  unfolding is_eligible keep
  eligible_of router = keep (is_eligible router.allow_mock) router.providers

module _ {F : Type 0} ⦃fl : Float F⦄ where
  unfoldable pub estimated_cost : Unicode → Provider F → GenerationRequest F → F
  unfolding approximate_token_count
  estimated_cost u provider request =
      let estimated_input_tokens = approximate_token_count u request.prompt in
      fl.div
        (fl.add (fl.mul (fl.of_nat estimated_input_tokens) provider.metadata.input_cost_per_million)
          (fl.mul (fl.of_nat request.max_tokens) provider.metadata.output_cost_per_million))
        (fl.of_nat 1_000_000)

  -- `<` on the tuples `(number, identity)`
  unfoldable pub key_lt : (Provider F → F) → Provider F → Provider F → Bool
  key_lt key p q =
      if fl.eq (key p) (key q)
      then str_lt (identity p.metadata) (identity q.metadata)
      else fl.lt (key p) (key q)

  -- The three strategies, on providers that are eligible.
  unfoldable pub order :
      Unicode
      → ProviderRouter F
      → LatencyTracker F
      → String
      → GenerationRequest F
      → List (Provider F)
      → Routed (List (Provider F))
  order u router tracker strategy request eligible =
      if str_eq strategy "fixed"
      then candidates (sorted (default_lt router.default_provider) eligible)
      else if str_eq strategy "cheapest"
      then candidates (sorted (key_lt (λ p. estimated_cost u p request)) eligible)
      else if str_eq strategy "fastest"
      then candidates (sorted (key_lt (λ p. get tracker (identity p.metadata))) eligible)
      else raised (value_error ("Unsupported routing strategy: " <> strategy))

  -- The test `if not eligible`, before the strategy is looked at.
  route_among :
      Unicode
      → ProviderRouter F
      → LatencyTracker F
      → String
      → GenerationRequest F
      → List (Provider F)
      → Routed (List (Provider F))
  unfolding order
  route_among u router tracker strategy request [] =
      raised (gateway (no_eligible_provider "No eligible provider is configured"))
  route_among u router tracker strategy request (p ∷ ps) =
      order u router tracker strategy request (p ∷ ps)

  unfoldable pub route :
      Unicode
      → ProviderRouter F
      → LatencyTracker F
      → String
      → GenerationRequest F
      → Routed (List (Provider F))
  unfolding route_among
  route u router tracker strategy request =
      route_among u router tracker strategy request (eligible_of router)
