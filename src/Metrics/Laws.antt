-- ===== src/Metrics/Laws.antt =====
-- What app/services/metrics.py writes.
use model_route.Base.{ℕ, suc, ◌≡◌, List, [], ◌∷◌, ◌++◌, arith, if◌then◌else◌}
use model_route.Metrics.{accepts, record_metric}
use model_route.Runtime.{Host, World, Row, RequestMetric, ok, logged, metric_insert_failed}

module _ {F : Type 0} (host : Host F) where
  -- The rows after an insert.
  abbrev pub rows_after : ℕ → RequestMetric F → List (Row F) → List (Row F)
  rows_after n m rows =
      if accepts host n m rows
      then rows ++ record { id = n; timestamp = host.database_time n; metric = m } ∷ []
      else rows

  -- An insert that the database takes adds one row at the end; one that it refuses adds none, is
  -- logged, and is reported as `False`, never raised. Nothing else changes.
  pub record_metric_lem :
      (m : RequestMetric F) (w : World F)
      → let taken = accepts host w.tick m w.rows in
        record_metric host m w ≡ (
          ok taken,
          record w {
            tick = suc w.tick;
            rows = rows_after w.tick m w.rows;
            events = if taken then w.events else logged metric_insert_failed ∷ w.events;
          },
        )
  unfolding record_metric
  record_metric_lem m w = ground arith
