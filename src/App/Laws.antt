-- ===== src/App/Laws.antt =====
-- What the wiring of app/main.py makes sure of, under the bounds of app/config.py.
use mathlib.Core.List.{Mem}
use model_route.Adapters.{Client}
use model_route.Adapters.Mock.{mock_provider, mock_of, mock_metadata}
use model_route.App.{
  Settings, App, DefaultProvider, openai, gemini, mock, default_name, is_valid, create_app,
  configured, sdk_providers, build_providers, with_mock, routing_providers, router_of, app_of,
  is_mock, is_nonnegative, wired, Given, SharedDatabase, given_database, own_database,
  shared_database,
}
use model_route.Base.{
  String, suc, ◌≤◌, ◌≡◌, ◌↔◌, inl, inr, refl, true, false, ◌⊎◌, Option, none, some, List, [], ◌∷◌,
  ◌++◌, arith, mem-keep, str_eq, eq_iff, Bool-cases,
}
use model_route.Base.Dict.{Dict}
use model_route.Database.{Url, given_args, engine_of, new_database, prepare_database_connection}
use model_route.Errors.{Exception}
use model_route.Base.Float.{Float}
use model_route.Base.Unicode.{Unicode}
use model_route.Providers.{Provider}
use model_route.RateLimiter.Expiry.{Lasts, new_limiter-Lasts}
use model_route.Router.{eligible_of}
use model_route.Router.Laws.{mem-eligible_of}
use model_route.Runtime.{Outcome, ok, raise}

default_name_mock : (d : DefaultProvider) → (str_eq (default_name d) "mock" ≡ true) ↔ (d ≡ mock)
unfolding default_name
default_name_mock openai = (λ h. cc, λ h. cc)
default_name_mock gemini = (λ h. cc, λ h. cc)
default_name_mock mock = (λ h. refl, λ h. refl)

-- An application that is built has the services of the settings.
pub wired-app_of :
    {F : Type 0}
    → (s : Settings F) (providers : Outcome (List (Provider F)))
      (shared : Outcome (Option SharedDatabase)) {app : App F}
    → wired s providers shared ≡ ok app
    → (ps : List (Provider F)) × (d : Option SharedDatabase) × (app_of s ps d ≡ app)
unfolding wired
wired-app_of s (raise e) shared h = absurd (ground (arith, h))
wired-app_of s (ok ps) (raise e) h = absurd (ground (arith, h))
wired-app_of s (ok ps) (ok d) h = (ps, d, ground (arith, h))

-- The application never mixes the mock and real providers: what the router may return is the mock
-- if the mock is the default, and is not the mock otherwise.
pub eligible-router_of :
    {F : Type 0}
    → (s : Settings F) (ps : List (Provider F)) (p : Provider F)
    → Mem p (eligible_of (router_of s ps))
    → (p.metadata.name ≡ "mock") ↔ (s.default_provider ≡ mock)
unfolding router_of routing_providers is_mock
eligible-router_of s ps p m =
    let (inside, available, allowed) = (mem-eligible_of (router_of s ps) p).0 m in
    elim (Bool-cases (str_eq (default_name s.default_provider) "mock")) [
      | inl is_default ↦
          let (among, named) = (mem-keep is_mock ps p).0 (rw is_default at inside) in
          (
            λ h. (default_name_mock s.default_provider).0 is_default,
            λ h. (eq_iff p.metadata.name "mock").0 named,
          )
      | inr other ↦ ground (arith, default_name_mock s.default_provider, allowed)
    ]

module _ {F : Type 0} ⦃fl : Float F⦄ (u : Unicode) (new_openai new_gemini : String → Client F)
    (make_url : String → Option Url) (render : Url → String) (s : Settings F) where
  configured_lem :
      (providers : Option (List (Provider F))) {b : Outcome (List (Provider F))}
      → (qs : List (Provider F)) × (b ≡ ok qs)
      → (ps : List (Provider F)) × (configured providers b ≡ ok ps)
  unfolding configured
  configured_lem none built = built
  configured_lem (some []) built = built
  configured_lem (some (p ∷ ps)) built = (p ∷ ps, refl)

  with_mock_lem :
      (others : List (Provider F)) (p : Provider F) {m : Outcome (Provider F)}
      → m ≡ ok p
      → (ps : List (Provider F)) × (with_mock others m ≡ ok ps)
  unfolding with_mock
  with_mock_lem others p e = (others ++ p ∷ [], rw (e, with_mock) refl)

  built :
      is_valid s ≡ true
      → (ps : List (Provider F)) × (build_providers u new_openai new_gemini s ≡ ok ps)
  unfolding build_providers mock_provider is_valid is_nonnegative
  built valid =
      with_mock_lem (sdk_providers new_openai new_gemini s)
        (mock_of u (mock_metadata s.mock_model true (fl.of_nat 0) (fl.of_nat 0)))
        (ground (arith, valid))

  -- Whether there is a database, and how the making of one fails.
  shared_database_lem :
      (given : Given) (prepared : Outcome (String × Dict String))
      → ((shared : Option SharedDatabase) × (shared_database given (engine_of prepared) ≡ ok shared)
          × ((shared ≡ none) ↔ ((given.database ≡ false) × (given.metrics_service ≡ true))))
        ⊎ ((e : Exception) × (given.database ≡ false)
            × (given.metrics_service ≡ false)
            × (prepared ≡ raise e)
            × (shared_database given (engine_of prepared) ≡ raise e))
  unfolding shared_database engine_of
  shared_database_lem given (ok p) = elim (Bool-cases given.database) [
    | inl d ↦ inl (some given_database, ground arith, ground (arith, d))
    | inr d ↦ elim (Bool-cases given.metrics_service) [
      | inl m ↦ inl (none, ground arith, ground (arith, d, m))
      | inr m ↦ inl (
        some (
            own_database
              (record { url = p.0; pool_pre_ping = true; connect_args = given_args p.1 })),
        rw (d, m, shared_database) refl,
        ground (arith, d, m),
      )
    ]
  ]
  shared_database_lem given (raise e) = elim (Bool-cases given.database) [
    | inl d ↦ inl (some given_database, ground arith, ground (arith, d))
    | inr d ↦ elim (Bool-cases given.metrics_service) [
      | inl m ↦ inl (none, ground arith, ground (arith, d, m))
      | inr m ↦ inr (e, d, m, refl, rw (d, m, shared_database) refl)
    ]
  ]

  -- Under valid settings the application is built, unless it needs a database of its own and the
  -- database's URL is refused: then that is its error. Its limiter's time to live lasts until a
  -- bucket is full, a provider is tried at most six times, and it has a database unless it was
  -- given only a metrics service.
  pub create_app_lem :
      (given : Given) (providers : Option (List (Provider F)))
      → is_valid s ≡ true
      → let out = create_app new_openai new_gemini make_url render u s given providers in
        ((app : App F) × (out ≡ ok app)
          × Lasts app.rate_limiter
          × (suc app.completion_service.max_retries ≤ 6)
          × ((app.database ≡ none) ↔ ((given.database ≡ false) × (given.metrics_service ≡ true))))
        ⊎ ((e : Exception) × (given.database ≡ false)
            × (given.metrics_service ≡ false)
            × (prepare_database_connection u make_url render s.database_url ≡ raise e)
            × (out ≡ raise e))
  unfolding create_app app_of is_valid new_database
  create_app_lem given providers valid =
      let (ps, ready) = configured_lem providers (built valid) in
      elim (shared_database_lem given
        (prepare_database_connection u make_url render s.database_url)) [
          | inl (shared, has, none_iff) ↦ inl (
            app_of s ps shared,
            rw (create_app, ready, new_database, has) refl,
            new_limiter-Lasts s.rate_limit_capacity s.rate_limit_refill_num s.rate_limit_refill_den
                (ground (arith, valid)),
            ground (arith, valid),
            none_iff,
          )
          | inr (e, no_database, no_service, refused, raised) ↦ inr (
            e,
            no_database,
            no_service,
            refused,
            rw (create_app, ready, new_database, raised) refl,
          )
        ]
