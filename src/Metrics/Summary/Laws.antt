-- ===== src/Metrics/Summary/Laws.antt =====
-- The summary of app/services/metrics.py over the table that the writes of the same service keep.
use model_route.Base.{
  ℕ, suc, ◌≤◌, ◌≡◌, refl, sym, ◌∙◌, eq_iff, Bool, true, false, List, [], ◌∷◌, map, arith, length,
  count_if, count_if-le-length, All, ◌⊎◌, sum_by, if◌then◌else◌, inl, inr,
}
use model_route.Base.Float.{Float}
use model_route.Metrics.Statements.Laws.{asked, execute-ok, database_unavailable, execute-raise}
use model_route.Metrics.Statements.{
  Aggregate, ProviderAggregate, ProviderKey, is_success, provider_aggregate, provider_statement,
  aggregate_statement, execute,
}
use model_route.Metrics.Summary.{ProviderRow, MetricsSummary, provider_row, summary_of, summary}
use model_route.Metrics.Summary.Sums.{
  sql_sum_lem, length-sum_by, count_if-sum_by, with_provider-sum, column-sum,
}
use model_route.Metrics.Table.{IsTable, IsServed, IsFailed}
use model_route.Runtime.{Host, World, Row, ok, raise, Action, ◌>>=◌, pure, bind-return, bind-throw}

module _ {F : Type 0} where
  -- What a table says of each of its rows.
  rows-All :
      (P : Row F → Type 0) (rows : List (Row F))
      → ((row : Row F) → IsServed row.metric ⊎ IsFailed row.metric → P row)
      → IsTable rows
      → All P rows
  rows-All P [] f t = tt
  rows-All P (row ∷ rows) f (kind, fits, new, t) = (f row kind, rows-All P rows f t)

  success_is : (row : Row F) → IsServed row.metric → is_success row ≡ true
  success_is row s = (eq_iff row.metric.status "success").1 s.2

  failure_is : (row : Row F) → IsFailed row.metric → is_success row ≡ false
  failure_is row f = rw f.1 refl

  -- A test that failures do not pass is passed by no more rows than there are successes.
  count_if-le-successes :
      (p : Row F → Bool) (rows : List (Row F))
      → All (λ row. (is_success row ≡ true) ⊎ (p row ≡ false)) rows
      → count_if p rows ≤ count_if is_success rows
  unfolding count_if
  count_if-le-successes p [] all = omega arith
  count_if-le-successes p (row ∷ rows) (inl success, later) =
      ground (arith, count_if-le-successes p rows later, success)
  count_if-le-successes p (row ∷ rows) (inr fails, later) =
      ground (arith, count_if-le-successes p rows later, fails)

  -- The column of the summary's table of providers, added up.
  abbrev pub total_of : (ProviderRow F → ℕ) → MetricsSummary F → ℕ
  total_of column s = sum_by column s.providers

  -- The parts of a summary add up.
  abbrev pub AddsUp : ℕ → MetricsSummary F → Type 0
  AddsUp count s =
      (s.total_requests ≡ count)
      × (s.successful_requests ≤ s.total_requests)
      × (s.cache_hits ≤ s.successful_requests)
      × (s.fallback_count ≤ s.successful_requests)
      × (total_of (λ p. p.request_count) s ≡ s.successful_requests)
      × (total_of (λ p. p.success_count) s ≡ s.successful_requests)
      × (total_of (λ p. p.input_tokens) s ≡ s.input_tokens)
      × (total_of (λ p. p.output_tokens) s ≡ s.output_tokens)

module _ {F : Type 0} ⦃fl : Float F⦄ (host : Host F) where
  -- A column of the table of providers that counts rows of successes adds up to the same count of
  -- all rows.
  column_lem :
      (column : ProviderRow F → ℕ) (f g : Row F → ℕ)
      → ((key : ProviderKey) (rows : List (Row F))
          → column (provider_row host (provider_aggregate host key rows)) ≡ sum_by f rows)
      → ((row : Row F) → IsServed row.metric → f row ≡ g row)
      → ((row : Row F) → IsFailed row.metric → g row ≡ 0)
      → (rows : List (Row F)) → IsTable rows
      → sum_by column (map (provider_row host) (provider_statement host rows)) ≡ sum_by g rows
  column_lem column f g adds on_success on_failure rows t =
      column-sum host column f adds rows
      ∙ with_provider-sum f g rows (
          rows-All _ rows
            (λ row kind. elim kind [
              | inl s ↦ inl (s.0, s.1, on_success row s)
              | inr failed ↦ inr (failed.0, on_failure row failed)
            ])
            t)

  summary_of-AddsUp :
      (rows : List (Row F))
      → IsTable rows
      → AddsUp
          (length rows)
          (summary_of host (aggregate_statement host rows) (provider_statement host rows))
  unfolding summary_of aggregate_statement provider_row provider_aggregate
  summary_of-AddsUp rows t =
      let success_of : Row F → ℕ = λ row. if is_success row then 1 else 0 in
      let successes = sym (count_if-sum_by is_success rows) in
      (
        refl,
        count_if-le-length is_success rows,
        count_if-le-successes (λ row. row.metric.cache_hit) rows
            (rows-All _ rows
              (λ row kind. elim kind [ inl s ↦ inl (success_is row s) | inr f ↦ inr f.4 ]) t),
        count_if-le-successes (λ row. row.metric.fallback_used) rows
            (rows-All _ rows
              (λ row kind. elim kind [ inl s ↦ inl (success_is row s) | inr f ↦ inr f.5 ]) t),
        column_lem (λ p. p.request_count) (λ row. 1) success_of (λ key rs. length-sum_by rs)
              (λ row s. ground (arith, success_is row s))
              (λ row f. ground (arith, failure_is row f)) rows t
            ∙ successes,
        column_lem (λ p. p.success_count) success_of success_of
              (λ key rs. count_if-sum_by is_success rs) (λ row s. refl)
              (λ row f. ground (arith, failure_is row f)) rows t
            ∙ successes,
        column_lem (λ p. p.input_tokens) (λ row. row.metric.input_tokens)
              (λ row. row.metric.input_tokens)
              (λ key rs. sql_sum_lem (λ row. row.metric.input_tokens) rs) (λ row s. refl)
              (λ row f. f.2) rows t
            ∙ sym (sql_sum_lem (λ row. row.metric.input_tokens) rows),
        column_lem (λ p. p.output_tokens) (λ row. row.metric.output_tokens)
              (λ row. row.metric.output_tokens)
              (λ key rs. sql_sum_lem (λ row. row.metric.output_tokens) rs) (λ row s. refl)
              (λ row f. f.3) rows t
            ∙ sym (sql_sum_lem (λ row. row.metric.output_tokens) rows),
      )

  -- What `summary` does after its first statement, and after its second.
  abbrev after_providers : Aggregate F → List (ProviderAggregate F) → Action F (MetricsSummary F)
  after_providers a providers = pure (summary_of host a providers)

  abbrev after_aggregate : Aggregate F → Action F (MetricsSummary F)
  after_aggregate a = execute host (λ n. provider_statement host) >>= after_providers a

  pub summary-ok :
      (w : World F)
      → host.database_fails w.tick ≡ false
      → host.database_fails (suc w.tick) ≡ false
      → summary host w ≡ (
        ok (summary_of host (aggregate_statement host w.rows) (provider_statement host w.rows)),
        asked (asked w),
      )
  unfolding summary
  summary-ok w up up' =
      let rows = w.rows in
      bind-return (execute host (λ n. aggregate_statement host)) after_aggregate
        (aggregate_statement host rows) w (asked w)
        (execute-ok host (λ n. aggregate_statement host) w up)
      ∙ bind-return (execute host (λ n. provider_statement host))
          (after_providers (aggregate_statement host rows)) (provider_statement host rows) (asked w)
          (asked (asked w)) (execute-ok host (λ n. provider_statement host) (asked w) up')

  pub summary-raise :
      (w : World F)
      → (host.database_fails w.tick ≡ true)
        ⊎ ((host.database_fails w.tick ≡ false) × (host.database_fails (suc w.tick) ≡ true))
      → (v : World F) × (summary host w ≡ (raise database_unavailable, v)) × (v.rows ≡ w.rows)
  unfolding summary
  summary-raise w (inl down) = (
    asked w,
    bind-throw (execute host (λ n. aggregate_statement host)) after_aggregate database_unavailable w
        (asked w) (execute-raise host (λ n. aggregate_statement host) w down),
    refl,
  )
  summary-raise w (inr (up, down)) = (
    asked (asked w),
    bind-return (execute host (λ n. aggregate_statement host)) after_aggregate
          (aggregate_statement host w.rows) w (asked w)
          (execute-ok host (λ n. aggregate_statement host) w up)
        ∙ bind-throw (execute host (λ n. provider_statement host))
            (after_providers (aggregate_statement host w.rows)) database_unavailable (asked w)
            (asked (asked w)) (execute-raise host (λ n. provider_statement host) (asked w) down),
    refl,
  )

  -- Over a well-formed table, while the database answers both statements: `summary` returns a
  -- summary of all rows and changes nothing. No more are cache hits or fallbacks than successes, no more successes
  -- than requests; the requests and the successes by provider and model add up to the successes,
  -- and the tokens by provider and model to all tokens.
  pub summary_lem :
      (w : World F)
      → IsTable w.rows
      → host.database_fails w.tick ≡ false
      → host.database_fails (suc w.tick) ≡ false
      → (s : MetricsSummary F) × (summary host w ≡ (ok s, asked (asked w)))
        × AddsUp (length w.rows) s
  unfolding summary
  summary_lem w t up up' = (
    summary_of host (aggregate_statement host w.rows) (provider_statement host w.rows),
    summary-ok w up up',
    summary_of-AddsUp w.rows t,
  )
