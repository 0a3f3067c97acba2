-- ===== src/Metrics/Statements/Laws.antt =====
-- How a statement on the metrics database ends (app/services/metrics.py).
use model_route.Base.{ℕ, suc, ◌≡◌, refl, true, false, List}
use model_route.Errors.{Exception, gateway, metrics_unavailable}
use model_route.Metrics.Statements.{execute}
use model_route.Runtime.{Host, World, Row, ok, raise}

-- `MetricsUnavailableError("Metrics database unavailable")`
abbrev pub database_unavailable : Exception
database_unavailable = gateway (metrics_unavailable "Metrics database unavailable")

-- A request was made of the outside, and nothing else has changed.
abbrev pub asked : {F : Type 0} → World F → World F
asked w = record w { tick = suc w.tick }

module _ {F : Type 0} (host : Host F) where
  pub execute-ok :
      {A : Type 0} (statement : ℕ → List (Row F) → A) (w : World F)
      → host.database_fails w.tick ≡ false
      → execute host statement w ≡ (ok (statement w.tick w.rows), asked w)
  unfolding execute
  execute-ok statement w up = rw up refl

  pub execute-raise :
      {A : Type 0} (statement : ℕ → List (Row F) → A) (w : World F)
      → host.database_fails w.tick ≡ true
      → execute host statement w ≡ (raise database_unavailable, asked w)
  unfolding execute
  execute-raise statement w down = rw down refl
