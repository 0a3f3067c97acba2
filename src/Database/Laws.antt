-- ===== src/Database/Laws.antt =====
-- What `prepare_database_connection` of app/db/database.py promises.
use model_route.Base.{
  String, Bool, List, [], ◌∷◌, ◌⊎◌, ◌≢◌, eq_iff, ◌≡◌, ◌↔◌, inl, inr, refl, true, false, not, ◌&&◌,
  ◌||◌, Option, none, some, arith, str_eq, if◌then◌else◌, Bool-cases,
}
use model_route.Base.Dict.{Dict, lookup, remove, lookup-remove}
use model_route.Base.Unicode.{Unicode}
use model_route.Database.{
  Url, QueryValue, text_value, tuple_value, single_query_value, adapt, adapted, checked,
  with_values, is_postgresql, is_ssl_mode, is_channel_binding_mode, is_given, is_outside, is_value,
}
use model_route.Runtime.{Outcome, ok, raise}

-- The adapted URL keeps all but the driver and the two parameters, and `connect_args` carries the
-- mode of `sslmode`.
abbrev pub Adapted : Url → Option String → Url → Dict String → Type 0
Adapted parsed sslmode url connect_args =
    (url.drivername ≡ "postgresql+asyncpg")
    × (url.rest ≡ parsed.rest)
    × ((key : String)
        → lookup key url.query ≡ (
            if str_eq key "channel_binding" || (str_eq key "sslmode" && is_given sslmode)
            then none
            else lookup key parsed.query))
    × (lookup "ssl" connect_args ≡ sslmode)

adapted-Adapted :
    (parsed : Url) (sslmode : Option String)
    → Adapted parsed sslmode (adapted parsed sslmode).0 (adapted parsed sslmode).1
unfolding adapted is_given lookup
adapted-Adapted parsed none =
    (refl, refl, (λ key. ground (arith, lookup-remove key "channel_binding" parsed.query)), refl)
adapted-Adapted parsed (some m) = (
  refl,
  refl,
  (λ key. ground (
    arith,
    lookup-remove key "channel_binding" parsed.query,
    lookup-remove key "sslmode" (remove "channel_binding" parsed.query),
  )),
  refl,
)

-- What the three values of an accepted URL are.
abbrev pub Accepts : Option String → Option String → Option String → Type 0
Accepts sslmode ssl channel_binding =
    (is_given sslmode && is_given ssl ≡ false)
    × (is_outside is_ssl_mode sslmode ≡ false)
    × (is_outside is_ssl_mode ssl ≡ false)
    × (is_outside is_channel_binding_mode channel_binding ≡ false)
    × ((is_value "require" channel_binding && (not (is_given sslmode) && not (is_given ssl)))
        ≡ false)

checked_iff :
    (parsed : Url) (out : Url × Dict String) (sslmode ssl channel_binding : Option String)
    → (checked parsed sslmode ssl channel_binding ≡ ok out)
      ↔ (Accepts sslmode ssl channel_binding × (out ≡ adapted parsed sslmode))
unfolding checked
checked_iff parsed out sslmode ssl channel_binding = ground arith

with_values_lem :
    (parsed : Url) (out : Url × Dict String) (x y z : Outcome (Option String))
    → with_values parsed x y z ≡ ok out
    → (sslmode : Option String) × (ssl : Option String) × (channel_binding : Option String) × (x
        ≡ ok sslmode)
      × (y ≡ ok ssl)
      × (z ≡ ok channel_binding)
      × Accepts sslmode ssl channel_binding
      × Adapted parsed sslmode out.0 out.1
unfolding with_values
with_values_lem parsed out (raise e) y z h = absurd (ground (arith, h))
with_values_lem parsed out (ok s) (raise e) z h = absurd (ground (arith, h))
with_values_lem parsed out (ok s) (ok t) (raise e) h = absurd (ground (arith, h))
with_values_lem parsed out (ok s) (ok t) (ok c) h =
    let (accepts, same) = (checked_iff parsed out s t c).0 h in
    (s, t, c, refl, refl, refl, accepts, rw same (adapted-Adapted parsed s))

-- The schemes and modes that the program knows.
abbrev pub schemes : List String
schemes = "postgres" ∷ "postgresql" ∷ "postgresql+asyncpg" ∷ []

abbrev pub ssl_modes : List String
ssl_modes = "allow" ∷ "disable" ∷ "prefer" ∷ "require" ∷ "verify-ca" ∷ "verify-full" ∷ []

abbrev pub binding_modes : List String
binding_modes = "disable" ∷ "prefer" ∷ "require" ∷ []

-- A text is one of these, and a value, if given, is one.
abbrev pub OneOf : List String → String → Type 0
OneOf [] s = ⊥
OneOf (x ∷ xs) s = (s ≡ x) ⊎ OneOf xs s

abbrev pub IfGiven : (String → Type 0) → Option String → Type 0
IfGiven P none = Unit
IfGiven P (some s) = P s

-- A parameter is missing, or given once, and its value is read without case.
abbrev pub Single : Unicode → Option QueryValue → Option String → Type 0
Single u found value =
    ((found ≡ none) × (value ≡ none))
    ⊎ ((v : String) × ((found ≡ some (text_value v)) ⊎ (found ≡ some (tuple_value (v ∷ []))))
        × (value ≡ some (u.casefold v)))

single_query_value-Single :
    (u : Unicode) (found : Option QueryValue) (parameter : String) (value : Option String)
    → single_query_value u found parameter ≡ ok value
    → Single u found value
unfolding single_query_value
single_query_value-Single u none parameter value h = inl (refl, ground (arith, h))
single_query_value-Single u (some (text_value v)) parameter value h =
    inr (v, inl refl, ground (arith, h))
single_query_value-Single u (some (tuple_value [])) parameter value h = absurd (ground (arith, h))
single_query_value-Single u (some (tuple_value (v ∷ []))) parameter value h =
    inr (v, inr refl, ground (arith, h))
single_query_value-Single u (some (tuple_value (v ∷ x ∷ vs))) parameter value h =
    absurd (ground (arith, h))

is_postgresql-OneOf : (s : String) → is_postgresql s ≡ true → OneOf schemes s
unfolding is_postgresql
is_postgresql-OneOf s h =
    ground (arith, h, eq_iff s "postgres", eq_iff s "postgresql", eq_iff s "postgresql+asyncpg")

is_ssl_mode-OneOf : (s : String) → is_ssl_mode s ≡ true → OneOf ssl_modes s
unfolding is_ssl_mode
is_ssl_mode-OneOf s h = ground (
  arith,
  h,
  eq_iff s "allow",
  eq_iff s "disable",
  eq_iff s "prefer",
  eq_iff s "require",
  eq_iff s "verify-ca",
  eq_iff s "verify-full",
)

is_channel_binding_mode-OneOf :
    (s : String) → is_channel_binding_mode s ≡ true → OneOf binding_modes s
unfolding is_channel_binding_mode
is_channel_binding_mode-OneOf s h =
    ground (arith, h, eq_iff s "disable", eq_iff s "prefer", eq_iff s "require")

inside_modes :
    (test : String → Bool) (P : String → Type 0)
    → ((s : String) → test s ≡ true → P s)
    → (v : Option String) → is_outside test v ≡ false
    → IfGiven P v
unfolding is_outside
inside_modes test P known none h = tt
inside_modes test P known (some s) h = known s (ground (arith, h))

-- What the three values of a URL are that is accepted, in words.
abbrev pub Allowed : Option String → Option String → Option String → Type 0
Allowed sslmode ssl channel_binding =
    ((sslmode ≡ none) ⊎ (ssl ≡ none))
    × IfGiven (OneOf ssl_modes) sslmode
    × IfGiven (OneOf ssl_modes) ssl
    × IfGiven (OneOf binding_modes) channel_binding
    × ((channel_binding ≢ some "require") ⊎ ((sslmode ≢ none) ⊎ (ssl ≢ none)))

one_missing : (x y : Option String) → is_given x && is_given y ≡ false → (x ≡ none) ⊎ (y ≡ none)
unfolding is_given
one_missing none y h = inl refl
one_missing (some s) none h = inr refl
one_missing (some s) (some t) h = absurd (ground (arith, h))

bound_if_required :
    (x y z : Option String)
    → (is_value "require" z && (not (is_given x) && not (is_given y))) ≡ false
    → (z ≢ some "require") ⊎ ((x ≢ none) ⊎ (y ≢ none))
unfolding is_given is_value
bound_if_required (some s) y z h = inr (inl (λ e. cc))
bound_if_required none (some t) z h = inr (inr (λ e. cc))
bound_if_required none none none h = inl (λ e. cc)
bound_if_required none none (some b) h =
    inl (λ e. absurd (ground (arith, h, eq_iff b "require", e)))

Accepts-Allowed :
    (sslmode ssl channel_binding : Option String)
    → Accepts sslmode ssl channel_binding
    → Allowed sslmode ssl channel_binding
Accepts-Allowed sslmode ssl channel_binding (apart, mode, mode', binding, bound) = (
  one_missing sslmode ssl apart,
  inside_modes is_ssl_mode (OneOf ssl_modes) is_ssl_mode-OneOf sslmode mode,
  inside_modes is_ssl_mode (OneOf ssl_modes) is_ssl_mode-OneOf ssl mode',
  inside_modes is_channel_binding_mode (OneOf binding_modes) is_channel_binding_mode-OneOf
      channel_binding binding,
  bound_if_required sslmode ssl channel_binding bound,
)

-- A URL that is accepted has a PostgreSQL scheme and at most one value for each of the three
-- parameters, read without case; not both of `sslmode` and `ssl`, only known modes, and one of the
-- two if channel binding is required. The adapted URL has the asyncpg driver, no channel binding
-- and no `sslmode`, which `connect_args` carries as `ssl`, and is the same in all else.
pub adapt_lem :
    (u : Unicode) (parsed : Url) (out : Url × Dict String)
    → adapt u parsed ≡ ok out
    → OneOf schemes parsed.drivername
      × ((sslmode : Option String) × (ssl : Option String) × (channel_binding : Option String)
          × Single u (lookup "sslmode" parsed.query) sslmode
          × Single u (lookup "ssl" parsed.query) ssl
          × Single u (lookup "channel_binding" parsed.query) channel_binding
          × Allowed sslmode ssl channel_binding
          × Adapted parsed sslmode out.0 out.1)
unfolding adapt
adapt_lem u parsed out h = elim (Bool-cases (is_postgresql parsed.drivername)) [
  | inl postgres ↦
      let (s, t, c, x, y, z, accepts, same) =
        with_values_lem parsed out _ _ _ (rw (postgres, adapt) at h) in
      (
        is_postgresql-OneOf parsed.drivername postgres,
        (
          s,
          t,
          c,
          single_query_value-Single u _ _ s x,
          single_query_value-Single u _ _ t y,
          single_query_value-Single u _ _ c z,
          Accepts-Allowed s t c accepts,
          same,
        ),
      )
  | inr other ↦ absurd (ground (arith, h, other))
]

-- Whatever meets these conditions is accepted.
pub adapt-Accepts :
    (u : Unicode) (parsed : Url) (sslmode ssl channel_binding : Option String)
    → is_postgresql parsed.drivername ≡ true
    → single_query_value u (lookup "sslmode" parsed.query) "sslmode" ≡ ok sslmode
    → single_query_value u (lookup "ssl" parsed.query) "ssl" ≡ ok ssl
    → single_query_value u (lookup "channel_binding" parsed.query) "channel_binding"
      ≡ ok channel_binding
    → Accepts sslmode ssl channel_binding
    → adapt u parsed ≡ ok (adapted parsed sslmode)
unfolding adapt with_values
adapt-Accepts u parsed sslmode ssl channel_binding postgres x y z accepts =
    rw (postgres, adapt, x, y, z)
      ((checked_iff parsed _ sslmode ssl channel_binding).1 (accepts, refl))
