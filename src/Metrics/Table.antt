-- ===== src/Metrics/Table.antt =====
-- The table `request_metrics` (app/db/models.py) under the writes of app/services/metrics.py.
use text.Mathlib.TextEquality.{eq_iff}
use model_route.Base.{
  String, ℕ, none, some, ◌⊎◌, ◌≡◌, refl, Bool, true, false, ◌&&◌, List, [], ◌∷◌, ◌++◌, arith,
  str_eq, if◌then◌else◌, Bool-cases, inl, inr,
}
use model_route.Metrics.{fits_columns, has_request_id, accepts}
use model_route.Runtime.{Host, Row, RequestMetric}

-- A row of a success names its provider; that of a failure names none and counts nothing.
abbrev pub IsServed : {F : Type 0} → RequestMetric F → Type 0
IsServed m = (p : String) × (m.provider ≡ some p) × (m.status ≡ "success")

abbrev pub IsFailed : {F : Type 0} → RequestMetric F → Type 0
IsFailed m =
    (m.provider ≡ none)
    × (m.status ≡ "error")
    × (m.input_tokens ≡ 0)
    × (m.output_tokens ≡ 0)
    × (m.cache_hit ≡ false)
    × (m.fallback_used ≡ false)

-- Each row is of a success or a failure and fits its columns, and no two have one `request_id`.
abbrev pub IsTable : {F : Type 0} → List (Row F) → Type 0
IsTable [] = Unit
IsTable (row ∷ rows) =
    (IsServed row.metric ⊎ IsFailed row.metric)
    × (fits_columns row.metric ≡ true)
    × (has_request_id row.metric.request_id rows ≡ false)
    × IsTable rows

module _ {F : Type 0} where
  has_request_id-append :
      (id : String) (rows : List (Row F)) (row : Row F)
      → has_request_id id rows ≡ false
      → str_eq row.metric.request_id id ≡ false
      → has_request_id id (rows ++ row ∷ []) ≡ false
  unfolding has_request_id
  has_request_id-append id [] row h differ =
      ground (arith, eq_iff id row.metric.request_id, eq_iff row.metric.request_id id)
  has_request_id-append id (r ∷ rows) row h differ =
      ground (arith, has_request_id-append id rows row)

  append-IsTable :
      (rows : List (Row F)) (row : Row F)
      → IsTable rows
      → IsServed row.metric ⊎ IsFailed row.metric
      → fits_columns row.metric ≡ true
      → has_request_id row.metric.request_id rows ≡ false
      → IsTable (rows ++ row ∷ [])
  unfolding has_request_id
  append-IsTable [] row t kind fits new = (kind, fits, refl, tt)
  append-IsTable (r ∷ rows) row (kind_r, fits_r, new_r, t) kind fits new = (
    kind_r,
    fits_r,
    has_request_id-append r.metric.request_id rows row new_r (ground arith),
    append-IsTable rows row t kind fits (ground arith),
  )

  -- Whether or not the database takes a row, the table stays one.
  pub accepts-IsTable :
      (host : Host F) (n : ℕ) (m : RequestMetric F) (rows : List (Row F)) (on : Bool)
      → IsServed m ⊎ IsFailed m
      → IsTable rows
      → IsTable (
          if on && accepts host n m rows
          then rows ++ record { id = n; timestamp = host.database_time n; metric = m } ∷ []
          else rows)
  unfolding accepts
  accepts-IsTable host n m rows on kind t = elim (Bool-cases (on && accepts host n m rows)) [
    | inl taken ↦ rw taken (append-IsTable rows _ t kind (ground arith) (ground arith))
    | inr refused ↦ rw refused t
  ]
