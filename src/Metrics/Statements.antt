-- ===== src/Metrics/Statements.antt =====
-- app/services/metrics.py: the SQL statements of `summary` as functions of the rows of the table.
pub mod Laws
use model_route.Base.{
  String, ℕ, suc, ◌+◌, Bool, true, false, ◌&&◌, ◌||◌, not, Option, none, some, List, [], ◌∷◌, map,
  length, count_if, keep, ◌==◌, str_eq, if◌then◌else◌,
}
use mathlib.Core.Option
use model_route.Base.Float.{Float}
use model_route.Base.Grouping.{group, group_keys}
use model_route.Base.Sorting.{sorted}
use model_route.Decimal
use model_route.Errors.{Exception, gateway, metrics_unavailable}
use model_route.Runtime.{
  Host, World, Row, Decimal, Outcome, ok, raise, Action, ◌>>=◌, pure, throw, ask,
}

-- `func.sum(column)`, which is NULL if there are no rows.
unfoldable pub sql_sum : List ℕ → Option ℕ
sql_sum [] = none
sql_sum (n ∷ ns) = some (n + Option.get_or (sql_sum ns) 0)

unfoldable pub sql_sum_cost : List Decimal → Option Decimal
sql_sum_cost [] = none
sql_sum_cost (d ∷ ds) = some (Decimal.add d (Option.get_or (sql_sum_cost ds) (Decimal.of_nat 0)))

-- A row of the result of `aggregate_statement`.
pub record Aggregate (F : Type 0) : Type 0 where
  pub count_total : ℕ
  pub count_success : ℕ
  pub count_cache_hit : ℕ
  pub count_fallback : ℕ
  pub sum_input : Option ℕ
  pub sum_output : Option ℕ
  pub sum_cost : Option Decimal
  pub avg_latency : Option F
  pub p50_latency : Option F
  pub p95_latency : Option F

-- A provider and a model.
abbrev pub ProviderKey : Type 0
ProviderKey = String × Option String

-- A row of the result of `provider_statement`.
pub record ProviderAggregate (F : Type 0) : Type 0 where
  pub key : ProviderKey
  pub count_requests : ℕ
  pub count_successes : ℕ
  pub group_latency : Option F
  pub group_input : Option ℕ
  pub group_output : Option ℕ
  pub group_cost : Option Decimal

abbrev pub is_success : {F : Type 0} → Row F → Bool
is_success row = str_eq row.metric.status "success"

same_model : Option String → Option String → Bool
same_model none none = true
same_model (some a) (some b) = str_eq a b
same_model _ _ = false

unfoldable pub same_key : ProviderKey → ProviderKey → Bool
unfolding same_model
same_key a b = str_eq a.0 b.0 && same_model a.1 b.1

-- `where(provider is not null)`, each row with its key.
unfoldable pub with_provider : {F : Type 0} → List (Row F) → List (ProviderKey × Row F)
with_provider [] = []
with_provider (row ∷ rows) =
    let rest = with_provider rows in
    elim row.metric.provider [ none ↦ rest | some p ↦ ((p, row.metric.model), row) ∷ rest ]

module _ {F : Type 0} (host : Host F) where
  -- An aggregate of floats, which is NULL if there are no rows.
  unfoldable pub sql_float : (List F → F) → List F → Option F
  sql_float f [] = none
  sql_float f (x ∷ xs) = some (f (x ∷ xs))

  -- NULL sorts last.
  model_before : Option String → Option String → Bool
  model_before (some a) (some b) = host.collates_before a b
  model_before (some a) none = true
  model_before none _ = false

  -- `order_by(provider, model)`
  unfoldable pub key_before : ProviderKey → ProviderKey → Bool
  unfolding model_before
  key_before a b = host.collates_before a.0 b.0 || (str_eq a.0 b.0 && model_before a.1 b.1)

  unfoldable pub provider_aggregate : ProviderKey → List (Row F) → ProviderAggregate F
  unfolding sql_float
  provider_aggregate key rows = record {
    key = key;
    count_requests = length rows;
    count_successes = count_if is_success rows;
    group_latency = sql_float host.sql_avg (map (λ row. row.metric.latency_ms) rows);
    group_input = sql_sum (map (λ row. row.metric.input_tokens) rows);
    group_output = sql_sum (map (λ row. row.metric.output_tokens) rows);
    group_cost = sql_sum_cost (map (λ row. row.metric.estimated_cost_usd) rows);
  }

  unfoldable pub provider_statement : List (Row F) → List (ProviderAggregate F)
  provider_statement rows =
      let items = with_provider rows in
      map (λ key. provider_aggregate key (group same_key key items))
        (sorted key_before (group_keys same_key items))

  -- A statement on the rows, at the `n`-th request.
  unfoldable pub execute : {A : Type 0} → (ℕ → List (Row F) → A) → Action F A
  execute statement w =
      let w' : World F = record w { tick = suc w.tick } in
      if host.database_fails w.tick
      then (raise (gateway (metrics_unavailable "Metrics database unavailable")), w')
      else (ok (statement w.tick w.rows), w')

module _ {F : Type 0} ⦃fl : Float F⦄ (host : Host F) where
  unfoldable pub aggregate_statement : List (Row F) → Aggregate F
  aggregate_statement rows =
      let latencies = map (λ row. row.metric.latency_ms) rows in
      record {
        count_total = length rows;
        count_success = count_if is_success rows;
        count_cache_hit = count_if (λ row. row.metric.cache_hit) rows;
        count_fallback = count_if (λ row. row.metric.fallback_used) rows;
        sum_input = sql_sum (map (λ row. row.metric.input_tokens) rows);
        sum_output = sql_sum (map (λ row. row.metric.output_tokens) rows);
        sum_cost = sql_sum_cost (map (λ row. row.metric.estimated_cost_usd) rows);
        avg_latency = sql_float host host.sql_avg latencies;
        p50_latency =
            sql_float host (host.percentile_cont (fl.div (fl.of_nat 5) (fl.of_nat 10))) latencies;
        p95_latency =
            sql_float host (host.percentile_cont (fl.div (fl.of_nat 95) (fl.of_nat 100))) latencies;
      }
