-- ===== src/MetricsRoutes/Laws.antt =====
-- About the replies of app/api/metrics_routes.py.
use model_route.Base.{
  ℕ, suc, ◌≤◌, ◌<◌, arith, leb, ◌&&◌, ◌≡◌, refl, ◌∙◌, Bool, true, false, ◌||◌, none, some, List,
  map, inl, inr, ◌⊎◌, Bool-cases, if◌then◌else◌,
}
use model_route.Base.Float.{Float}
use model_route.Base.Int.{ℤ, pos, negsuc}
use model_route.Metrics.Recent.{RecentMetric, recent_statement, recent_metric, recent}
use model_route.Metrics.Recent.Laws.{recent-ok, recent-raise}
use model_route.Metrics.Statements.{aggregate_statement, provider_statement}
use model_route.Metrics.Statements.Laws.{asked, database_unavailable}
use model_route.Metrics.Summary.{MetricsSummary, summary_of, summary}
use model_route.Metrics.Summary.Laws.{summary-ok, summary-raise}
use model_route.MetricsRoutes.{
  MetricsReply, content, http_exception, invalid_query, unavailable, in_query_range, try_metrics,
  metrics_summary, recent_metrics, dashboard_context, dashboard,
}
use model_route.Runtime.{
  Host, World, Outcome, ok, raise, Action, ◌>>=◌, pure, bind-return, bind-throw,
}

module _ {F : Type 0} where
  -- A reply: the content, or 503 if the database fails. No row changes.
  abbrev pub Replies :
      {A : Type 0} → Bool → A → World F → Outcome (MetricsReply A) × World F → Type 0
  Replies fails a w out =
      (out.0 ≡ ok (if fails then http_exception 503 "Metrics database unavailable" else content a))
      × (out.1.rows ≡ w.rows)

  -- The same of what is tried: the content, or the exception.
  abbrev Ends : {A : Type 0} → Bool → A → World F → Action F A → Type 0
  Ends fails a w m =
      (v : World F) × (m w ≡ ((if fails then raise database_unavailable else ok a), v))
      × (v.rows ≡ w.rows)

  try_metrics-Replies :
      {A : Type 0} (fails : Bool) (a : A) (w : World F) (m : Action F A)
      → Ends fails a w m
      → Replies fails a w (try_metrics m w)
  unfolding try_metrics unavailable
  try_metrics-Replies true a w m (v, ends, kept) = rw ends (refl, kept)
  try_metrics-Replies false a w m (v, ends, kept) = rw ends (refl, kept)

module _ {F : Type 0} ⦃fl : Float F⦄ (host : Host F) where
  -- The summary of the table, and the rows that are shown of it.
  abbrev pub summary_at : World F → MetricsSummary F
  summary_at w = summary_of host (aggregate_statement host w.rows) (provider_statement host w.rows)

  abbrev pub recent_at : ℤ → ℕ → World F → List (RecentMetric F)
  recent_at limit n w = map (recent_metric host) (recent_statement host limit n w.rows)

  -- Whether the database fails at one of the two statements of a summary.
  abbrev pub summary_fails : ℕ → Bool
  summary_fails n = host.database_fails n || host.database_fails (suc n)

  summary-Ends : (w : World F) → Ends (summary_fails w.tick) (summary_at w) w (summary host)
  summary-Ends w = elim (Bool-cases (host.database_fails w.tick)) [
    | inl down ↦ rw down (summary-raise host w (inl down))
    | inr up ↦ elim (Bool-cases (host.database_fails (suc w.tick))) [
      | inl down ↦ rw (up, down) (summary-raise host w (inr (up, down)))
      | inr up' ↦ rw (up, up') (asked (asked w), summary-ok host w up up', refl)
    ]
  ]

  recent-Ends :
      (limit : ℤ) (w : World F)
      → Ends (host.database_fails w.tick) (recent_at limit w.tick w) w (recent host limit)
  recent-Ends limit w = elim (Bool-cases (host.database_fails w.tick)) [
    | inl down ↦ rw down (asked w, recent-raise host limit w down, refl)
    | inr up ↦ rw up (asked w, recent-ok host limit w up, refl)
  ]

  abbrev with_recent : MetricsSummary F → Action F (MetricsSummary F × List (RecentMetric F))
  with_recent s = recent host (pos 20) >>= λ r. pure (s, r)

  dashboard_context-stops :
      (w : World F)
      → (host.database_fails w.tick ≡ true)
        ⊎ ((host.database_fails w.tick ≡ false) × (host.database_fails (suc w.tick) ≡ true))
      → (v : World F) × (dashboard_context host w ≡ (raise database_unavailable, v))
        × (v.rows ≡ w.rows)
  unfolding dashboard_context
  dashboard_context-stops w down =
      let (v, raised, kept) = summary-raise host w down in
      (v, bind-throw (summary host) with_recent database_unavailable w v raised, kept)

  dashboard_context-Ends :
      (w : World F)
      → Ends
          (summary_fails w.tick || host.database_fails (suc (suc w.tick)))
          (summary_at w, recent_at (pos 20) (suc (suc w.tick)) w)
          w
          (dashboard_context host)
  unfolding dashboard_context
  dashboard_context-Ends w =
      let w2 = asked (asked w) in
      elim (Bool-cases (host.database_fails w.tick)) [
        | inl down ↦ rw down (dashboard_context-stops w (inl down))
        | inr up ↦ elim (Bool-cases (host.database_fails (suc w.tick))) [
          | inl down ↦ rw (up, down) (dashboard_context-stops w (inr (up, down)))
          | inr up' ↦
              let first =
                bind-return (summary host) with_recent (summary_at w) w w2
                  (summary-ok host w up up') in
              elim (Bool-cases (host.database_fails (suc (suc w.tick)))) [
                | inl down ↦
                    rw (up, up', down)
                      (
                        asked w2,
                        first
                            ∙ bind-throw (recent host (pos 20)) (λ r. pure (summary_at w, r))
                                database_unavailable w2 (asked w2)
                                (recent-raise host (pos 20) w2 down),
                        refl,
                      )
                | inr up'' ↦
                    rw (up, up', up'')
                      (
                        asked w2,
                        first
                            ∙ bind-return (recent host (pos 20)) (λ r. pure (summary_at w, r))
                                (recent_at (pos 20) w2.tick w2) w2 (asked w2)
                                (recent-ok host (pos 20) w2 up''),
                        refl,
                      )
              ]
        ]
      ]

  -- A limit from 1 to 100, and any other.
  abbrev pub InRange : ℤ → Type 0
  InRange limit = (n : ℕ) × (limit ≡ pos n) × (1 ≤ n) × (n ≤ 100)

  abbrev pub OutOfRange : ℤ → Type 0
  OutOfRange limit =
      ((n : ℕ) × (limit ≡ pos n) × ((n ≡ 0) ⊎ (100 < n))) ⊎ ((n : ℕ) × (limit ≡ negsuc n))

  in_query_range-cases :
      (limit : ℤ)
      → (InRange limit × (in_query_range limit ≡ true))
        ⊎ (OutOfRange limit × (in_query_range limit ≡ false))
  unfolding in_query_range
  in_query_range-cases (pos n) = elim (Bool-cases (leb 1 n && leb n 100)) [
    | inl within ↦ inl ((n, refl, ground (arith, within), ground (arith, within)), within)
    | inr outside ↦ inr (inl (n, refl, ground (arith, outside)), outside)
  ]
  in_query_range-cases (negsuc n) = inr (inr (n, refl), refl)

  -- The three routes never raise and change no row. A limit outside 1 to 100 is refused before the
  -- database is asked. Else the reply is the summary, the newest rows, or both, of the table, or
  -- 503 exactly if the database fails at one of the statements; a missing limit is 20.
  pub metrics_routes_lem :
      (limit : ℤ) (w : World F)
      → Replies (summary_fails w.tick) (summary_at w) w (metrics_summary host w)
        × Replies
            (host.database_fails w.tick)
            (recent_at (pos 20) w.tick w)
            w
            (recent_metrics host none w)
        × ((InRange limit
              × Replies
                  (host.database_fails w.tick)
                  (recent_at limit w.tick w)
                  w
                  (recent_metrics host (some limit) w))
            ⊎ (OutOfRange limit × (recent_metrics host (some limit) w ≡ (ok invalid_query, w))))
        × Replies
            (summary_fails w.tick || host.database_fails (suc (suc w.tick)))
            (summary_at w, recent_at (pos 20) (suc (suc w.tick)) w)
            w
            (dashboard host w)
  unfolding metrics_summary recent_metrics dashboard
  metrics_routes_lem limit w = (
    try_metrics-Replies _ _ w (summary host) (summary-Ends w),
    try_metrics-Replies _ _ w (recent host (pos 20)) (recent-Ends (pos 20) w),
    elim (in_query_range-cases limit) [
      | inl (inside, within) ↦
          inl (
            inside,
            rw within (try_metrics-Replies _ _ w (recent host limit) (recent-Ends limit w)),
          )
      | inr (beyond, outside) ↦ inr (beyond, rw outside refl)
    ],
    try_metrics-Replies _ _ w (dashboard_context host) (dashboard_context-Ends w),
  )
