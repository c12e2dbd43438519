-- ===== src/Dashboard/Handlers/Totals.antt =====
-- The numbers of a page of internal/dashboard/dashboard.go, put beside each other.
use glimt.Base.{
  ℕ, ◌*◌, ◌/◌, ◌%◌, ◌<◌, ◌≢◌, ◌⊎◌, inl, inr, Bool, not, ◌&&◌, Option, none, some, List, [], ◌∷◌,
  ◌≡◌, refl, arith, Bytes, codes, same, sum_of,
}
use glimt.Model.{Site}
use glimt.Store.Tables.{Db}
use glimt.Store.Gives.{Gives, Gives-pure, Gives-query, Gives-or_before, Gives-if, Gives-bind}
use glimt.Rollup.{ms_per_hour}
use glimt.Query.{summary, vitals, realtime, count_pageviews_in}
use glimt.Query.Series.{Interval, hour, day, step_of, Point, time_series, series}
use glimt.Query.Series.Total.{series-pageviews}
use glimt.Query.Funnel.{Step, Funnel, list_funnels, evaluate_funnel}
use glimt.Query.Top.{top}
use glimt.Dashboard.Range.{resolve_range_params, end_of_day}
use glimt.Dashboard.Range.Bounds.{resolve_range_params-IsUsable}
use glimt.Dashboard.Page.{Handlers, Spec, specs, panels, funnel_data, first_funnel, build_dashboard}

-- A range that ends now or with a day ends within a bucket, unless now is a full hour.
ends_inside :
    (now to_ms : ℕ) (i : Interval)
    → now % ms_per_hour ≢ 0
    → (to_ms ≡ now) ⊎ ((d : ℕ) × (to_ms ≡ end_of_day d))
    → to_ms / step_of i * step_of i < to_ms
ends_inside now to_ms hour h (inl e) = omega (arith, h, e)
ends_inside now to_ms day h (inl e) = omega (arith, h, e)
ends_inside now to_ms hour h (inr (d, e)) = omega (arith, e)
ends_inside now to_ms day h (inr (d, e)) = omega (arith, e)

abbrev Any : {A : Type 0} → A → Type 0
Any a = Unit

panels_give :
    (geo : Bool) (site from_ms to_ms : ℕ) (sps : List Spec) (db : Db)
    → Gives db (panels geo site from_ms to_ms sps) Any
unfolding panels top
panels_give geo site from_ms to_ms [] db = Gives-pure db Any [] tt
panels_give geo site from_ms to_ms (sp ∷ rest) db =
    Gives-bind db Any Any _ _ (Gives-query db Any _ tt) (λ rows _.
      Gives-bind db Any Any _ _ (panels_give geo site from_ms to_ms rest db) (λ others _.
        Gives-if db Any (same sp.dim (codes "country") && not geo) _ _ (Gives-pure db Any _ tt)
          (Gives-pure db Any _ tt)))

evaluate_funnel_gives :
    (site : ℕ) (steps : List Step) (from_ms to_ms : ℕ) (db : Db)
    → Gives db (evaluate_funnel site steps from_ms to_ms) Any
unfolding evaluate_funnel
evaluate_funnel_gives site [] from_ms to_ms db = Gives-pure db Any [] tt
evaluate_funnel_gives site (s ∷ steps) from_ms to_ms db = Gives-query db Any _ tt

funnel_data_gives :
    (site : ℕ) (f : Option Funnel) (from_ms to_ms : ℕ) (db : Db)
    → Gives db (funnel_data site f from_ms to_ms) Any
unfolding funnel_data
funnel_data_gives site none from_ms to_ms db = Gives-pure db Any [] tt
funnel_data_gives site (some f) from_ms to_ms db =
    Gives-or_before db Any [] _ (evaluate_funnel_gives site f.steps from_ms to_ms db)

summary_gives :
    (site from_ms to_ms : ℕ) (db : Db)
    → Gives db
        (summary site from_ms to_ms)
        (λ s. s.pageviews ≡ count_pageviews_in site from_ms to_ms db)
unfolding summary
summary_gives site from_ms to_ms db =
    Gives-bind db (λ views. views ≡ count_pageviews_in site from_ms to_ms db) _ _ _
      (Gives-query db _ _ refl)
      (λ views e. Gives-bind db Any _ _ _ (Gives-query db Any _ tt) (λ figures _.
        Gives-bind db Any _ _ _ (Gives-or_before db Any _ _ (Gives-query db Any _ tt))
          (λ sum _. Gives-pure db _ _ e)))

-- On a database where nothing fails, the page of a website is shown, whatever its request, and the
-- points of its chart add up to the pageviews of its headline, unless the clock stands at a full hour.
pub build_dashboard-pageviews :
    (h : Handlers) (now later : ℕ) (s : Site) (key from_str to_str : Bytes) (db : Db)
    → now % ms_per_hour ≢ 0
    → Gives db
        (build_dashboard h now later s key from_str to_str)
        (λ v. sum_of (λ (p : Point). p.pageviews) v.chart ≡ v.summary.pageviews)
unfolding build_dashboard vitals time_series realtime list_funnels
build_dashboard-pageviews h now later s key from_str to_str db off =
    let range = resolve_range_params h.dates now key from_str to_str in
    let usable = resolve_range_params-IsUsable h.dates now key from_str to_str in
    let total =
      series-pageviews s.id range.from_ms range.to_ms range.interval db
        (ends_inside now range.to_ms range.interval off usable.ends) in
    Gives-bind db _ _ _ _ (summary_gives s.id range.from_ms range.to_ms db) (λ sum e.
      Gives-bind db Any _ _ _ (Gives-query db Any _ tt) (λ speed _.
        Gives-bind db (λ chart. chart ≡ series s.id range.from_ms range.to_ms range.interval db) _ _
          _ (Gives-query db _ _ refl)
          (λ chart q. Gives-bind db Any _ _ _ (Gives-query db Any _ tt) (λ active _.
            Gives-bind db Any _ _ _ (Gives-or_before db Any _ _ (Gives-query db Any _ tt))
              (λ funnels _.
                Gives-bind db Any _ _ _
                  (funnel_data_gives s.id (first_funnel funnels) range.from_ms range.to_ms db)
                  (λ results _.
                    Gives-bind db Any _ _ _
                      (panels_give h.geo_enabled s.id range.from_ms range.to_ms (specs h.unicode)
                        db)
                      (λ ps _. Gives-pure db _ _ (rw (q, e) total))))))))
