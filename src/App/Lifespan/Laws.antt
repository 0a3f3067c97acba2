-- ===== src/App/Lifespan/Laws.antt =====
-- About the start and the end of the application (app/main.py, `lifespan`).
use model_route.Base.{
  String, ℕ, zero, suc, subst, ◌≤◌, ◌<◌, ◌+◌, ◌≡◌, ◌⊎◌, inl, inr, refl, ap, Bool, true, false, not,
  ◌&&◌, List, [], ◌∷◌, ◌++◌, arith, count_if, count_if-append, ◌==◌, if◌then◌else◌,
}
use model_route.App.{Given, owns_redis_client, owns_database, has_database}
use model_route.App.Lifespan.{
  Handle, Resource, redis, client_of, engine, closes_client, owns_client, has_client,
  provider_clients, to_close, close_all, shutdown, Initialized, tables_exist, failed, crashed,
  startup,
}
use model_route.Errors.{Exception}
use model_route.Runtime.{Outcome, ok, raise}

-- The same resource.
abbrev pub same : Resource → Resource → Bool
same redis redis = true
same (client_of m) (client_of n) = m == n
same engine engine = true
same _ _ = false

-- The adapter at a place made its own client: it has a key, and was given none.
abbrev pub made_client : List Handle → ℕ → Bool
made_client [] n = false
made_client (h ∷ hs) n = elim n [
  | zero ↦ h.has_api_key && not h.client_given
  | suc m ↦ made_client hs m
]

-- What the application and its adapters made for themselves, and were not given.
abbrev pub made : Given → List Handle → Resource → Bool
made given hs redis = not given.redis_client
made given hs (client_of n) = made_client hs n
made given hs engine = not given.database && not given.metrics_service

count_earlier :
    (k n : ℕ) (hs : List Handle) → k < n → count_if (same (client_of k)) (provider_clients n hs) ≡ 0
unfolding provider_clients count_if
count_earlier k n [] h = refl
count_earlier k n (x ∷ hs) h = ground (arith, count_earlier k (suc n) hs)

count_provider :
    (n m : ℕ) (hs : List Handle)
    → count_if (same (client_of (n + m))) (provider_clients n hs)
      ≡ (if made_client hs m then 1 else 0)
unfolding provider_clients count_if closes_client owns_client has_client
count_provider n m [] = refl
count_provider n zero (h ∷ hs) = ground (arith, count_earlier n (suc n) hs)
count_provider n (suc m) (h ∷ hs) =
    let rest : count_if (same (client_of (n + suc m))) (provider_clients (suc n) hs)
        ≡ (if made_client hs m then 1 else 0) =
      subst
        (λ k.
          count_if (same (client_of k)) (provider_clients (suc n) hs)
          ≡ (if made_client hs m then 1 else 0))
        (omega arith) (count_provider (suc n) m hs) in
    ground (arith, rest)

no_provider :
    (r : Resource) (n : ℕ) (hs : List Handle)
    → (r ≡ redis) ⊎ (r ≡ engine)
    → count_if (same r) (provider_clients n hs) ≡ 0
unfolding provider_clients count_if
no_provider r n [] which = refl
no_provider r n (h ∷ hs) (inl e) = rw e (ground (arith, no_provider redis (suc n) hs (inl refl)))
no_provider r n (h ∷ hs) (inr e) = rw e (ground (arith, no_provider engine (suc n) hs (inr refl)))

-- Each resource is closed as often as the application made it.
to_close_lem :
    (given : Given) (hs : List Handle) (r : Resource)
    → count_if (same r) (to_close given hs) ≡ (if made given hs r then 1 else 0)
unfolding to_close owns_redis_client owns_database has_database count_if
to_close_lem given hs redis = ground (
  arith,
  count_if-append (same redis) (provider_clients 0 hs)
      (if owns_database given && has_database given then engine ∷ [] else []),
  no_provider redis 0 hs (inl refl),
)
to_close_lem given hs engine = ground (
  arith,
  count_if-append (same engine) (provider_clients 0 hs)
      (if owns_database given && has_database given then engine ∷ [] else []),
  no_provider engine 0 hs (inr refl),
)
to_close_lem given hs (client_of n) = ground (
  arith,
  count_if-append (same (client_of n)) (provider_clients 0 hs)
      (if owns_database given && has_database given then engine ∷ [] else []),
  count_provider 0 n hs,
)

-- How the application starts, with the class names of the errors that are logged: without a
-- database at once; with one whose tables are there, without a log; with one error logged if the
-- database fails; and not at all for any other exception.
abbrev pub Starts : Given → Initialized → Outcome (List String) → Type 0
Starts given result out =
    ((given.database ≡ false) × (given.metrics_service ≡ true) × (out ≡ ok []))
    ⊎ (((given.database ≡ true) ⊎ (given.metrics_service ≡ false))
        × (((result ≡ tables_exist) × (out ≡ ok []))
            ⊎ (((name : String) × (result ≡ failed name) × (out ≡ ok (name ∷ [])))
                ⊎ ((e : Exception) × (result ≡ crashed e) × (out ≡ raise e)))))

has_database-cases :
    (given : Given)
    → ((given.database ≡ false) × (given.metrics_service ≡ true) × (has_database given ≡ false))
      ⊎ (((given.database ≡ true) ⊎ (given.metrics_service ≡ false)) × (has_database given ≡ true))
unfolding has_database
has_database-cases given = ground arith

startup-Starts : (given : Given) (result : Initialized) → Starts given result (startup given result)
unfolding startup
startup-Starts given tables_exist = elim (has_database-cases given) [
  | inl (d, m, without) ↦ inl (d, m, rw without refl)
  | inr (which, there) ↦ inr (which, inl (refl, rw there refl))
]
startup-Starts given (failed name) = elim (has_database-cases given) [
  | inl (d, m, without) ↦ inl (d, m, rw without refl)
  | inr (which, there) ↦ inr (which, inr (inl (name, refl, rw there refl)))
]
startup-Starts given (crashed e) = elim (has_database-cases given) [
  | inl (d, m, without) ↦ inl (d, m, rw without refl)
  | inr (which, there) ↦ inr (which, inr (inr (e, refl, rw there refl)))
]

outcome_of_close : (o : Outcome (Unit {0})) → (o ≡ ok tt) ⊎ ((e : Exception) × (o ≡ raise e))
outcome_of_close (ok _) = inl refl
outcome_of_close (raise e) = inr (e, refl)

count_if-prefix-le :
    (p : Resource → Bool) (before : List Resource) (r : Resource) (rest : List Resource)
    → count_if p (before ++ r ∷ []) ≤ count_if p (before ++ r ∷ rest)
unfolding count_if
count_if-prefix-le p before r rest =
    ground (arith, count_if-append p before (r ∷ []), count_if-append p before (r ∷ rest))

module _ (close : Resource → Outcome (Unit {0})) where
  -- Everything is closed, or all up to the first that raises.
  abbrev Closes : List Resource → List Resource × Outcome (Unit {0}) → Type 0
  Closes rs out =
      (out ≡ (rs, ok tt))
      ⊎ ((before : List Resource) × (r : Resource) × (rest : List Resource) × (e : Exception) × (rs
            ≡ before ++ r ∷ rest)
          × (close r ≡ raise e)
          × (out ≡ (before ++ r ∷ [], raise e)))

  close_all-Closes : (rs : List Resource) → Closes rs (close_all close rs)
  unfolding close_all
  close_all-Closes [] = inl refl
  close_all-Closes (r ∷ rs) = elim (outcome_of_close (close r)) [
    | inr (e, raised) ↦ inr ([], r, rs, e, refl, raised, rw (raised, close_all) refl)
    | inl closed ↦ elim (close_all-Closes rs) [
      | inl all ↦ inl (rw (closed, close_all, all) refl)
      | inr (before, x, rest, e, split, raised, out) ↦
          inr (
            r ∷ before,
            x,
            rest,
            e,
            ap (λ l. r ∷ l) split,
            raised,
            rw (closed, close_all, out) refl,
          )
    ]
  ]

  -- The application starts, and if an error of the database kept the tables from being made, its
  -- class is logged; it does not start on any other exception there. At the end either each resource
  -- that the application or an adapter made is closed once and none that was given, or a close
  -- raises, and until then nothing else was closed, nor anything twice.
  pub lifespan_lem :
      (given : Given) (hs : List Handle) (result : Initialized)
      → let (closed, out) = shutdown close given hs in
        Starts given result (startup given result)
        × (((out ≡ ok tt)
              × ((r : Resource) → count_if (same r) closed ≡ (if made given hs r then 1 else 0)))
            ⊎ ((x : Resource) × (e : Exception) × (close x ≡ raise e)
                × (out ≡ raise e)
                × ((r : Resource) → count_if (same r) closed ≤ (if made given hs r then 1 else 0))))
  unfolding shutdown
  lifespan_lem given hs result = (
    startup-Starts given result,
    elim (close_all-Closes (to_close given hs)) [
      | inl all ↦ rw all (inl (refl, to_close_lem given hs))
      | inr (before, x, rest, e, split, raised, stopped) ↦ rw stopped (
          inr (
            x,
            e,
            raised,
            refl,
            λ r.
                let counted : count_if (same r) (before ++ x ∷ rest)
                    ≡ (if made given hs r then 1 else 0) =
                  rw (← split) (to_close_lem given hs r) in
                omega (arith, count_if-prefix-le (same r) before x rest, counted),
          ))
    ],
  )
