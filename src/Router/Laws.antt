-- ===== src/Router/Laws.antt =====
-- What `route` of app/services/router.py returns under each strategy.
use mathlib.Core.List.{Mem}
use Prim.Native.String.{◌++◌ as ◌<>◌}
use model_route.Base.{
  String, ◌≡◌, ◌≢◌, ◌↔◌, ◌⊎◌, inl, inr, ap, subst, Bool, true, not, ◌&&◌, ◌||◌, str_lt, List, [],
  ◌++◌, arith, str_eq, eq_iff, mem-keep, keep, Bool-cases,
}
use model_route.Base.Float.{Float, IsOrdered}
use model_route.Base.Sorting.{sorted}
use model_route.Base.Unicode.{Unicode}
use model_route.Errors.{Exception, gateway, value_error, no_eligible_provider}
use model_route.Latency.{LatencyTracker, get}
use model_route.Providers.{GenerationRequest, Provider, identity}
use model_route.Router.Keys.{
  eq-not_lt, lt_asymm, Ranks, sorted-Ranks, key_lt-IsStrictWeak, is_default, sorted-default,
}
use model_route.Router.{
  approximate_token_count, candidates, raised, ProviderRouter, estimated_cost, key_lt, default_lt,
  is_other, is_eligible, order, eligible_of, route,
}

module _ {F : Type 0} ⦃fl : Float F⦄ (u : Unicode) (router : ProviderRouter F)
    (tracker : LatencyTracker F) (strategy : String) (request : GenerationRequest F) where
  abbrev pub latency_of : Provider F → F
  latency_of p = get tracker (identity p.metadata)

  -- What the prompt costs by its estimated tokens, and the output by its bound.
  abbrev pub cost_of : Provider F → F
  cost_of p =
      fl.div
        (fl.add
          (fl.mul (fl.of_nat (approximate_token_count u request.prompt))
            p.metadata.input_cost_per_million)
          (fl.mul (fl.of_nat request.max_tokens) p.metadata.output_cost_per_million))
        (fl.of_nat 1_000_000)

  -- Less by the number, or the same number and less by the identity.
  abbrev pub less_by : (Provider F → F) → Provider F → Provider F → Bool
  less_by key p q =
      fl.lt (key p) (key q)
      || (not (fl.lt (key q) (key p)) && str_lt (identity p.metadata) (identity q.metadata))

  -- Those that have the name, and the others.
  abbrev pub is_named : String → Provider F → Bool
  is_named name p = str_eq p.metadata.name name

  abbrev pub Preferred : List (Provider F) → List (Provider F) → Type 0
  Preferred qs ps =
      ps
      ≡ keep (is_named router.default_provider) qs
        ++ keep (λ p. not (is_named router.default_provider p)) qs

  key_lt-less_by :
      IsOrdered F → (key : Provider F → F) (p q : Provider F) → key_lt key p q ≡ less_by key p q
  unfolding key_lt
  key_lt-less_by o key p q = ground (arith, eq-not_lt o (key p) (key q), lt_asymm o (key p) (key q))

  Ranks-less_by :
      IsOrdered F
      → (key : Provider F → F) (qs : List (Provider F))
      → Ranks (less_by key) qs (sorted (key_lt key) qs)
  Ranks-less_by o key qs =
      subst (λ (lt : Provider F → Provider F → Bool). Ranks lt qs (sorted (key_lt key) qs))
        (λ i p q. key_lt-less_by o key p q i) (sorted-Ranks (key_lt-IsStrictWeak o key) qs)

  keep-same :
      (f g : Provider F → Bool)
      → ((p : Provider F) → f p ≡ g p)
      → (qs : List (Provider F)) → keep f qs ≡ keep g qs
  keep-same f g same qs = ap (λ (h : Provider F → Bool). keep h qs) (λ i p. same p i)

  sorted-Preferred :
      (qs : List (Provider F)) → Preferred qs (sorted (default_lt router.default_provider) qs)
  unfolding is_other
  sorted-Preferred qs =
      let d = router.default_provider in
      subst
        (λ (x : List (Provider F)).
          sorted (default_lt d) qs ≡ x ++ keep (λ p. not (is_named d p)) qs)
        (keep-same (is_default d) (is_named d) (λ p. ground arith) qs) (sorted-default d qs)

  order-Ranks :
      (o : IsOrdered F) (qs ps : List (Provider F))
      → order u router tracker strategy request qs ≡ candidates ps
      → ((strategy ≡ "fixed") × Preferred qs ps)
        ⊎ (((strategy ≡ "cheapest") × Ranks (less_by cost_of) qs ps)
            ⊎ ((strategy ≡ "fastest") × Ranks (less_by latency_of) qs ps))
  unfolding order estimated_cost
  order-Ranks o qs ps h = ground (
    arith,
    eq_iff strategy "fixed",
    eq_iff strategy "cheapest",
    eq_iff strategy "fastest",
    sorted-Preferred qs,
    Ranks-less_by o cost_of qs,
    Ranks-less_by o latency_of qs,
  )

  order_raises :
      (qs : List (Provider F)) (e : Exception)
      → (order u router tracker strategy request qs ≡ raised e) ↔ (
          (strategy ≢ "fixed")
          × (strategy ≢ "cheapest")
          × (strategy ≢ "fastest")
          × (e ≡ value_error ("Unsupported routing strategy: " <> strategy)))
  unfolding order
  order_raises qs e =
      ground (arith, eq_iff strategy "fixed", eq_iff strategy "cheapest", eq_iff strategy "fastest")

  -- If `<` on floats is a strict weak order and `==` its incomparability: whenever `route` returns
  -- candidates there is an eligible provider, and the candidates are the
  -- eligible providers in the order of the strategy: under `fixed` those that have the default
  -- name before all others, each group as configured; under `cheapest` ascending by estimated cost,
  -- which is what the estimated tokens of the prompt and the bound on the output cost, and identity;
  -- under `fastest` ascending by average latency and identity; the configured order between equals.
  pub route-Ranks :
      (o : IsOrdered F) (ps : List (Provider F))
      → route u router tracker strategy request ≡ candidates ps
      → let eligible = eligible_of router in
        (eligible ≢ [])
        × (((strategy ≡ "fixed") × Preferred eligible ps)
            ⊎ (((strategy ≡ "cheapest") × Ranks (less_by cost_of) eligible ps)
                ⊎ ((strategy ≡ "fastest") × Ranks (less_by latency_of) eligible ps)))
  unfolding route
  route-Ranks o ps h = ground (arith, order-Ranks o (eligible_of router) ps)

  -- Whatever the strategy, the candidates are the eligible providers sorted by some test.
  pub route-sorted :
      (ps : List (Provider F))
      → route u router tracker strategy request ≡ candidates ps
      → (lt : Provider F → Provider F → Bool) × (ps ≡ sorted lt (eligible_of router))
  unfolding route order
  route-sorted ps h = elim (Bool-cases (str_eq strategy "fixed")) [
    | inl fixed ↦ (default_lt router.default_provider, ground arith)
    | inr other ↦ elim (Bool-cases (str_eq strategy "cheapest")) [
      | inl cheap ↦ (key_lt (λ p. estimated_cost u p request), ground arith)
      | inr fast ↦ (key_lt latency_of, ground arith)
    ]
  ]

  -- `route` raises `NoEligibleProviderError` if no provider is eligible, whatever the strategy is,
  -- and `ValueError` if one is and the strategy is none of the three; it raises nothing else.
  pub route_raises :
      (e : Exception)
      → (route u router tracker strategy request ≡ raised e) ↔ (
          ((eligible_of router ≡ [])
            × (e ≡ gateway (no_eligible_provider "No eligible provider is configured")))
          ⊎ ((eligible_of router ≢ [])
              × (strategy ≢ "fixed")
              × (strategy ≢ "cheapest")
              × (strategy ≢ "fastest")
              × (e ≡ value_error ("Unsupported routing strategy: " <> strategy))))
  unfolding route
  route_raises e = ground (arith, order_raises (eligible_of router) e)

module _ {F : Type 0} where
  is_eligible_iff :
      (p : Provider F) (allow_mock : Bool)
      → (is_eligible allow_mock p ≡ true)
        ↔ ((p.metadata.available ≡ true) × ((p.metadata.name ≢ "mock") ⊎ (allow_mock ≡ true)))
  unfolding is_eligible
  is_eligible_iff p allow_mock = ground (arith, eq_iff p.metadata.name "mock")

  -- A provider is eligible exactly if it is configured, available, and not the mock, unless the
  -- mock is allowed.
  pub mem-eligible_of :
      (router : ProviderRouter F) (p : Provider F)
      → Mem p (eligible_of router) ↔ (
          Mem p router.providers
          × (p.metadata.available ≡ true)
          × ((p.metadata.name ≢ "mock") ⊎ (router.allow_mock ≡ true)))
  unfolding eligible_of
  mem-eligible_of router p = (
    λ m.
        let (inside, passes) = (mem-keep _ router.providers p).0 m in
        let facts = (is_eligible_iff p router.allow_mock).0 passes in (inside, facts.0, facts.1),
    λ (m, available, mock).
        (mem-keep _ router.providers p).1
          (m, (is_eligible_iff p router.allow_mock).1 (available, mock)),
  )
