-- ===== src/App/Lifespan.antt =====
-- app/main.py, `lifespan`: what is set up before the first request, and what is closed at the end.
pub mod Laws
use model_route.Base.{
  String, ℕ, suc, Bool, true, false, not, ◌&&◌, ◌||◌, Option, none, some, List, [], ◌∷◌, ◌++◌,
  if◌then◌else◌,
}
use model_route.App.{Given, owns_redis_client, owns_database, has_database}
use model_route.Errors.{Exception}
use model_route.Runtime.{Outcome, ok, raise}

-- Of an adapter: whether it was given a client, and whether it has a key for one of its own. The
-- mock, which has no client, is given neither.
pub record Handle : Type 0 where
  pub client_given : Bool
  pub has_api_key : Bool

-- `_owns_client`
unfoldable pub owns_client : Handle → Bool
owns_client h = not h.client_given && h.has_api_key

-- `_client is not None`
unfoldable pub has_client : Handle → Bool
has_client h = h.client_given || h.has_api_key

-- The `if` of the adapters' `close`.
unfoldable pub closes_client : Handle → Bool
unfolding owns_client has_client
closes_client h = owns_client h && has_client h

-- What can be closed; a provider is named by its place among those configured.
pub data Resource : Type 0 where
  redis : Resource
  client_of : ℕ → Resource
  engine : Resource

-- How `initialize` ends: `failed` is a `SQLAlchemyError` or an `OSError` of the class named.
pub data Initialized : Type 0 where
  tables_exist : Initialized
  failed : String → Initialized
  crashed : Exception → Initialized

after_initialize : Initialized → Outcome (List String)
after_initialize tables_exist = ok []
after_initialize (failed name) = ok (name ∷ [])
after_initialize (crashed e) = raise e

-- Before `yield`: the class names of the errors that are logged.
unfoldable pub startup : Given → Initialized → Outcome (List String)
unfolding after_initialize has_database
startup given result = if has_database given then after_initialize result else ok []

-- `provider.close()` for each provider, from the `n`-th on.
unfoldable pub provider_clients : ℕ → List Handle → List Resource
unfolding closes_client
provider_clients n [] = []
provider_clients n (h ∷ hs) =
    let rest = provider_clients (suc n) hs in if closes_client h then client_of n ∷ rest else rest

-- After `yield`: what is closed, in this order.
unfoldable pub to_close : Given → List Handle → List Resource
unfolding owns_redis_client owns_database has_database provider_clients
to_close given hs =
    (if owns_redis_client given then redis ∷ [] else [])
    ++ (provider_clients 0 hs
        ++ (if owns_database given && has_database given then engine ∷ [] else []))

-- Closing stops at the first exception; `close` tells how each ends.
unfoldable pub close_all :
    (Resource → Outcome (Unit {0})) → List Resource → List Resource × Outcome (Unit {0})
close_all close [] = ([], ok tt)
close_all close (r ∷ rs) =
    let (closed, out) = close_all close rs in
    elim (close r) [ ok _ ↦ (r ∷ closed, out) | raise e ↦ (r ∷ [], raise e) ]

unfoldable pub shutdown :
    (Resource → Outcome (Unit {0})) → Given → List Handle → List Resource × Outcome (Unit {0})
unfolding close_all to_close
shutdown close given hs = close_all close (to_close given hs)
