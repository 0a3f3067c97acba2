-- ===== src/Metrics/Recent/Laws.antt =====
-- About `recent` of app/services/metrics.py.
use mathlib.Core.List.{Perm}
use mathlib.Core.List.Perm
use model_route.Base.{
  refl, ◌≤◌, [], ◌∷◌, All, map_All, ltb, ◌==◌, if◌then◌else◌, take, ℕ, ◌≡◌, sym, ◌∙◌, ap, true,
  false, List, ◌++◌, map, length, drop, take-drop, length-take, min, arith, subst,
}
use model_route.Base.Int.{ℤ, pos, negsuc}
use model_route.Base.Sorting.{sorted}
use model_route.Base.Sorting.Laws.{
  IsStrictWeak, IsSorted, sorted-IsSorted, sorted-perm, length-Perm,
}
use model_route.Metrics.Recent.{
  row_limit, newer, recent_statement, RecentMetric, recent_metric, recent,
}
use model_route.Metrics.Statements.{execute}
use model_route.Metrics.Statements.Laws.{asked, execute-ok, execute-raise, database_unavailable}
use model_route.Runtime.{Host, World, Row, ok, raise, pure, bind-return, bind-throw}

newer-IsStrictWeak : {F : Type 0} → IsStrictWeak (newer {F = F})
unfolding newer
newer-IsStrictWeak = record {
  irrefl = λ a. ground arith;
  trans = λ a b c h k. ground arith;
  cotrans = λ a b c h. ground arith;
}

-- How many rows a limit asks for: it is taken as 1 if it is less, and as 100 if it is more.
abbrev pub asked_rows : ℤ → ℕ
asked_rows (negsuc n) = 1
asked_rows (pos n) = if n == 0 then 1 else if ltb 100 n then 100 else n

row_limit_lem : (limit : ℤ) → row_limit limit ≡ asked_rows limit
unfolding row_limit
row_limit_lem (negsuc n) = refl
row_limit_lem (pos n) = ground arith

-- The newest first: no row is later than one before it.
abbrev pub NewestFirst : {F : Type 0} → List (Row F) → Type 0
NewestFirst [] = Unit
NewestFirst (a ∷ rows) = All (λ b. b.timestamp ≤ a.timestamp) rows × NewestFirst rows

sorted-NewestFirst : {F : Type 0} → (rows : List (Row F)) → IsSorted newer rows → NewestFirst rows
unfolding newer
sorted-NewestFirst [] ordered = tt
sorted-NewestFirst (a ∷ rows) (first, rest) =
    (map_All rows (λ b later. ground (arith, later)) first, sorted-NewestFirst rows rest)

module _ {F : Type 0} (host : Host F) where
  -- The rows given, one of the limit or all, are the newest: the other rows stand behind them in
  -- the order by time.
  abbrev pub AreNewest : ℤ → List (Row F) → List (Row F) → Type 0
  AreNewest limit rows listed =
      (length listed ≡ min (asked_rows limit) (length rows))
      × ((rest : List (Row F)) × Perm (listed ++ rest) rows × NewestFirst (listed ++ rest))

  recent_statement-AreNewest :
      (limit : ℤ) (n : ℕ) (rows : List (Row F))
      → Perm (host.scan n rows) rows
      → AreNewest limit rows (recent_statement host limit n rows)
  unfolding recent_statement
  recent_statement-AreNewest limit n rows read =
      let ordered = sorted newer (host.scan n rows) in
      let whole = take-drop (row_limit limit) ordered in
      (
        subst (λ n. length (take (row_limit limit) ordered) ≡ min n (length rows))
            (row_limit_lem limit)
            (length-take (row_limit limit) ordered
              ∙ ap (min (row_limit limit)) (
                  length-Perm ordered (host.scan n rows) (sorted-perm newer (host.scan n rows))
                  ∙ length-Perm (host.scan n rows) rows read)),
        (
          drop (row_limit limit) ordered,
          subst (λ xs. Perm xs rows) (sym whole)
              (Perm.trans (sorted-perm newer (host.scan n rows)) read),
          sorted-NewestFirst _ (
              subst (IsSorted newer) (sym whole)
                (sorted-IsSorted newer-IsStrictWeak (host.scan n rows))),
        ),
      )

  -- What is listed of a row.
  abbrev pub shown : Row F → RecentMetric F
  shown row = record {
    request_id = row.metric.request_id;
    timestamp = row.timestamp;
    provider = row.metric.provider;
    model = row.metric.model;
    routing_strategy = row.metric.routing_strategy;
    status = row.metric.status;
    latency_ms = row.metric.latency_ms;
    input_tokens = row.metric.input_tokens;
    output_tokens = row.metric.output_tokens;
    estimated_cost_usd = host.float_of row.metric.estimated_cost_usd;
    cache_hit = row.metric.cache_hit;
    fallback_used = row.metric.fallback_used;
    error_category = row.metric.error_category;
  }

  pub recent-ok :
      (limit : ℤ) (w : World F)
      → host.database_fails w.tick ≡ false
      → recent host limit w
        ≡ (ok (map (recent_metric host) (recent_statement host limit w.tick w.rows)), asked w)
  unfolding recent
  recent-ok limit w up =
      bind-return (execute host (recent_statement host limit))
        (λ metrics. pure (map (recent_metric host) metrics))
        (recent_statement host limit w.tick w.rows) w (asked w)
        (execute-ok host (recent_statement host limit) w up)

  -- If a scan reads each row once and the database answers: `recent` returns the newest rows, as
  -- many as the limit, kept between 1 and 100, or all that there are, the newest first and none that
  -- is left out later than one of them, each with all its columns, and changes nothing.
  pub recent_lem :
      (limit : ℤ) (w : World F)
      → Perm (host.scan w.tick w.rows) w.rows
      → host.database_fails w.tick ≡ false
      → (listed : List (Row F)) × (recent host limit w ≡ (ok (map shown listed), asked w))
        × AreNewest limit w.rows listed
  unfolding recent_metric
  recent_lem limit w read up = (
    recent_statement host limit w.tick w.rows,
    recent-ok limit w up,
    recent_statement-AreNewest limit w.tick w.rows read,
  )

  pub recent-raise :
      (limit : ℤ) (w : World F)
      → host.database_fails w.tick ≡ true
      → recent host limit w ≡ (raise database_unavailable, asked w)
  unfolding recent
  recent-raise limit w down =
      bind-throw (execute host (recent_statement host limit))
        (λ metrics. pure (map (recent_metric host) metrics)) database_unavailable w (asked w)
        (execute-raise host (recent_statement host limit) w down)
