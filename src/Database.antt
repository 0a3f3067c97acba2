-- ===== src/Database.antt =====
-- app/db/database.py, `prepare_database_connection` and the constructor of `Database`: a standard PostgreSQL URL for asyncpg. Parsing
-- and printing a URL are SQLAlchemy's.
pub mod Laws
use model_route.Base.{
  String, ℕ, Bool, true, false, not, ◌&&◌, ◌||◌, Option, none, some, List, [], ◌∷◌, str_eq,
  if◌then◌else◌,
}
use model_route.Base.Dict.{Dict, lookup, remove}
use model_route.Base.Unicode.{Unicode}
use model_route.Errors.{Exception, value_error}
use model_route.Runtime.{Outcome, ok, raise}
use Prim.Native.String.{◌++◌ as ◌<>◌}

-- A query parameter that is given once is a text, one that is given again a tuple.
pub data QueryValue : Type 0 where
  text_value : String → QueryValue
  tuple_value : List String → QueryValue

-- `sqlalchemy.engine.URL`; `rest` is all but the driver's name and the query.
pub record Url : Type 0 where
  pub drivername : String
  pub query : Dict QueryValue
  pub rest : String

-- `POSTGRESQL_SCHEMES`
unfoldable pub is_postgresql : String → Bool
is_postgresql s = str_eq s "postgres" || (str_eq s "postgresql" || str_eq s "postgresql+asyncpg")

-- `ASYNC_PG_SSL_MODES`
unfoldable pub is_ssl_mode : String → Bool
is_ssl_mode s =
    str_eq s "allow"
    || (str_eq s "disable"
        || (str_eq s "prefer"
            || (str_eq s "require" || (str_eq s "verify-ca" || str_eq s "verify-full"))))

-- `CHANNEL_BINDING_MODES`
unfoldable pub is_channel_binding_mode : String → Bool
is_channel_binding_mode s = str_eq s "disable" || (str_eq s "prefer" || str_eq s "require")

-- `value is not None`, and `value is not None and value not in modes`.
unfoldable pub is_given : Option String → Bool
is_given none = false
is_given (some _) = true

unfoldable pub is_outside : (String → Bool) → Option String → Bool
is_outside modes none = false
is_outside modes (some s) = not (modes s)

-- `value == s`
unfoldable pub is_value : String → Option String → Bool
is_value s none = false
is_value s (some v) = str_eq v s

-- `_single_query_value`
unfoldable pub single_query_value : Unicode → Option QueryValue → String → Outcome (Option String)
single_query_value u none parameter = ok none
single_query_value u (some (text_value v)) parameter = ok (some (u.casefold v))
single_query_value u (some (tuple_value (v ∷ []))) parameter = ok (some (u.casefold v))
single_query_value u (some (tuple_value _)) parameter =
    raise (value_error ("Database URL parameter " <> (parameter <> " must be singular")))

-- The adapted URL, before it is printed, and `connect_args`.
unfoldable pub adapted : Url → Option String → Url × Dict String
adapted parsed none = (
  record parsed {
    drivername = "postgresql+asyncpg";
    query = remove "channel_binding" parsed.query;
  },
  [],
)
adapted parsed (some sslmode) = (
  record parsed {
    drivername = "postgresql+asyncpg";
    query = remove "sslmode" (remove "channel_binding" parsed.query);
  },
  ("ssl", sslmode) ∷ [],
)

-- The five tests on the three values, in their order.
unfoldable pub checked :
    Url → Option String → Option String → Option String → Outcome (Url × Dict String)
unfolding adapted
checked parsed sslmode ssl channel_binding =
    if is_given sslmode && is_given ssl
    then raise (value_error "Database URL cannot define both sslmode and ssl")
    else if is_outside is_ssl_mode sslmode
    then raise (value_error "Database URL contains an unsupported SSL mode")
    else if is_outside is_ssl_mode ssl
    then raise (value_error "Database URL contains an unsupported SSL mode")
    else if is_outside is_channel_binding_mode channel_binding
    then raise (value_error "Database URL contains an unsupported channel-binding mode")
    else if is_value "require" channel_binding && (not (is_given sslmode) && not (is_given ssl))
    then raise (value_error "channel_binding=require needs an explicit SSL mode")
    else ok (adapted parsed sslmode)

-- The three values are read in order; the first that is not single raises.
unfoldable pub with_values :
    Url
    → Outcome (Option String)
    → Outcome (Option String)
    → Outcome (Option String)
    → Outcome (Url × Dict String)
unfolding checked
with_values parsed (raise e) ssl channel_binding = raise e
with_values parsed (ok sslmode) (raise e) channel_binding = raise e
with_values parsed (ok sslmode) (ok ssl) (raise e) = raise e
with_values parsed (ok sslmode) (ok ssl) (ok channel_binding) =
    checked parsed sslmode ssl channel_binding

unfoldable pub adapt : Unicode → Url → Outcome (Url × Dict String)
unfolding with_values
adapt u parsed =
    if is_postgresql parsed.drivername
    then with_values parsed (single_query_value u (lookup "sslmode" parsed.query) "sslmode")
        (single_query_value u (lookup "ssl" parsed.query) "ssl")
        (single_query_value u (lookup "channel_binding" parsed.query) "channel_binding")
    else raise (value_error "Database URL must use a PostgreSQL scheme")

printed : (Url → String) → Outcome (Url × Dict String) → Outcome (String × Dict String)
printed render (ok (url, connect_args)) = ok (render url, connect_args)
printed render (raise e) = raise e

-- `make_url` and `render` are SQLAlchemy's; `none` is the `ArgumentError`.
of_parsed : Unicode → (Url → String) → Option Url → Outcome (String × Dict String)
unfolding printed adapt
of_parsed u render none = raise (value_error "Invalid database URL")
of_parsed u render (some parsed) = printed render (adapt u parsed)

unfoldable pub prepare_database_connection :
    Unicode → (String → Option Url) → (Url → String) → String → Outcome (String × Dict String)
unfolding of_parsed
prepare_database_connection u make_url render url = of_parsed u render (make_url url)

-- What `create_async_engine` is called with; `none` where `connect_args` is not passed.
pub record Database : Type 0 where
  pub url : String
  pub pool_pre_ping : Bool
  pub connect_args : Option (Dict String)

unfoldable pub given_args : Dict String → Option (Dict String)
given_args [] = none
given_args (arg ∷ args) = some (arg ∷ args)

unfoldable pub engine_of : Outcome (String × Dict String) → Outcome Database
unfolding given_args
engine_of (ok (normalized_url, connect_args)) =
    ok (record {
      url = normalized_url;
      pool_pre_ping = true;
      connect_args = given_args connect_args;
    })
engine_of (raise e) = raise e

-- `Database(url)`
unfoldable pub new_database :
    Unicode → (String → Option Url) → (Url → String) → String → Outcome Database
unfolding engine_of
new_database u make_url render url = engine_of (prepare_database_connection u make_url render url)
