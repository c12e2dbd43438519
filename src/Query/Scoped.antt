-- ===== src/Query/Scoped.antt =====
-- What internal/query/query.go reads for one website.
use glimt.Base.{
  ◌==◌, ◌≢◌, ℕ, ◌-◌, ◌*◌, Bool, true, ◌&&◌, List, [], ◌∷◌, ◌≡◌, refl, sym, ap, ◌∙◌, arith, Bytes,
  ltb, keep, keep-keep, All-every, sum_of,
}
use glimt.Store.Tables.{Db, EventRow, Session, StatsRow, DimRow, FunnelRow}
use glimt.Store.Reads.{Reads, Reads-pure, Reads-query, Reads-bind, Reads-or_before}
use glimt.Query.{
  in_scope, in_range, in_hours, stats_in, events_in, sessions_in, count_pageviews_in, summary,
  vitals, realtime, session_figures, sum_val, vitals_of,
}
use glimt.Query.Series.{Interval, time_series, series, series_rows}
use glimt.Query.Top.{top, top_rows, in_days}
use glimt.Query.Funnel.{Json, Step, list_funnels, evaluate_funnel}

-- The rows of the website are the same.
pub record AgreeOn (site : ℕ) (db db' : Db) : Type 0 where
  pub events :
      keep (λ (r : EventRow). r.event.website_id == site) db.events
      ≡ keep (λ (r : EventRow). r.event.website_id == site) db'.events
  pub sessions :
      keep (λ (s : Session). s.website_id == site) db.sessions
      ≡ keep (λ (s : Session). s.website_id == site) db'.sessions
  pub rollup_stats :
      keep (λ (r : StatsRow). r.website_id == site) db.rollup_stats
      ≡ keep (λ (r : StatsRow). r.website_id == site) db'.rollup_stats
  pub rollup_dim :
      keep (λ (r : DimRow). r.website_id == site) db.rollup_dim
      ≡ keep (λ (r : DimRow). r.website_id == site) db'.rollup_dim
  pub funnels :
      keep (λ (f : FunnelRow). f.website_id == site) db.funnels
      ≡ keep (λ (f : FunnelRow). f.website_id == site) db'.funnels

-- The rows in the scope of `site` are the same.
pub record AgreeIn (site : ℕ) (db db' : Db) : Type 0 where
  pub events :
      keep (λ (r : EventRow). in_scope site r.event.website_id) db.events
      ≡ keep (λ (r : EventRow). in_scope site r.event.website_id) db'.events
  pub sessions :
      keep (λ (s : Session). in_scope site s.website_id) db.sessions
      ≡ keep (λ (s : Session). in_scope site s.website_id) db'.sessions
  pub rollup_stats :
      keep (λ (r : StatsRow). in_scope site r.website_id) db.rollup_stats
      ≡ keep (λ (r : StatsRow). in_scope site r.website_id) db'.rollup_stats
  pub rollup_dim :
      keep (λ (r : DimRow). in_scope site r.website_id) db.rollup_dim
      ≡ keep (λ (r : DimRow). in_scope site r.website_id) db'.rollup_dim
  pub funnels :
      keep (λ (f : FunnelRow). in_scope site f.website_id) db.funnels
      ≡ keep (λ (f : FunnelRow). in_scope site f.website_id) db'.funnels

-- A narrower test reads no more.
keep-narrower :
    {A : Type 0} (q p : A → Bool) (xs ys : List A)
    → ((x : A) → q x ≡ true → p x ≡ true)
    → keep p xs ≡ keep p ys
    → keep q xs ≡ keep q ys
keep-narrower q p xs ys h e =
    sym (keep-keep q p xs (All-every h xs)) ∙ ap (keep q) e ∙ keep-keep q p ys (All-every h ys)

in_scope-own : (site x : ℕ) → site ≢ 0 → in_scope site x ≡ true → (x == site) ≡ true
unfolding in_scope
in_scope-own site x own h = ground arith

-- The scope of a website's number is the website.
pub AgreeOn-AgreeIn :
    (site : ℕ) (db db' : Db) → site ≢ 0 → AgreeOn site db db' → AgreeIn site db db'
AgreeOn-AgreeIn site db db' own a = record {
  events =
      keep-narrower _ (λ r. r.event.website_id == site) db.events db'.events
        (λ r. in_scope-own site r.event.website_id own) a.events;
  sessions =
      keep-narrower _ (λ s. s.website_id == site) db.sessions db'.sessions
        (λ s. in_scope-own site s.website_id own) a.sessions;
  rollup_stats =
      keep-narrower _ (λ r. r.website_id == site) db.rollup_stats db'.rollup_stats
        (λ r. in_scope-own site r.website_id own) a.rollup_stats;
  rollup_dim =
      keep-narrower _ (λ r. r.website_id == site) db.rollup_dim db'.rollup_dim
        (λ r. in_scope-own site r.website_id own) a.rollup_dim;
  funnels =
      keep-narrower _ (λ f. f.website_id == site) db.funnels db'.funnels
        (λ f. in_scope-own site f.website_id own) a.funnels;
}

module _ (site : ℕ) (db db' : Db) (a : AgreeIn site db db') where
  events_in-AgreeIn :
      (from_ms to_ms : ℕ)
      → events_in site from_ms to_ms db.events ≡ events_in site from_ms to_ms db'.events
  events_in-AgreeIn from_ms to_ms =
      keep-narrower
        (λ (r : EventRow). in_scope site r.event.website_id && in_range from_ms to_ms r.event.ts)
        (λ r. in_scope site r.event.website_id) db.events db'.events (λ r h. ground arith) a.events

  sessions_in-AgreeIn :
      (from_ms to_ms : ℕ)
      → sessions_in site from_ms to_ms db.sessions ≡ sessions_in site from_ms to_ms db'.sessions
  sessions_in-AgreeIn from_ms to_ms =
      keep-narrower
        (λ (s : Session). in_scope site s.website_id && in_range from_ms to_ms s.started_at)
        (λ s. in_scope site s.website_id) db.sessions db'.sessions (λ r h. ground arith) a.sessions

  stats_in-AgreeIn :
      (from_ms to_ms : ℕ)
      → stats_in site from_ms to_ms db.rollup_stats ≡ stats_in site from_ms to_ms db'.rollup_stats
  stats_in-AgreeIn from_ms to_ms =
      keep-narrower
        (λ (r : StatsRow). in_scope site r.website_id && in_hours from_ms to_ms r.bucket_hour)
        (λ r. in_scope site r.website_id) db.rollup_stats db'.rollup_stats (λ r h. ground arith)
        a.rollup_stats

module _ (site from_ms to_ms : ℕ) where
  pub Reads-summary : Reads (AgreeIn site) (summary site from_ms to_ms)
  unfolding summary count_pageviews_in
  Reads-summary =
      Reads-bind _ _
        (Reads-query _ (λ db db' a.
          ap (sum_of (λ (r : StatsRow). r.pageviews))
            (stats_in-AgreeIn site db db' a from_ms to_ms)))
        (λ views.
          Reads-bind _ _
            (Reads-query _
              (λ db db' a. ap session_figures (sessions_in-AgreeIn site db db' a from_ms to_ms)))
            (λ figures.
              Reads-bind _ _
                (Reads-or_before _ _ (
                  Reads-query _
                    (λ db db' a. ap sum_val (events_in-AgreeIn site db db' a from_ms to_ms))))
                (λ sum. Reads-pure _)))

  pub Reads-vitals : Reads (AgreeIn site) (vitals site from_ms to_ms)
  unfolding vitals
  Reads-vitals =
      Reads-query _ (λ db db' a. ap vitals_of (events_in-AgreeIn site db db' a from_ms to_ms))

  pub Reads-time_series : (i : Interval) → Reads (AgreeIn site) (time_series site from_ms to_ms i)
  unfolding time_series series series_rows
  Reads-time_series i =
      Reads-query _ (λ db db' a. rw (stats_in-AgreeIn site db db' a from_ms to_ms) refl)

  pub Reads-top :
      (dimension : Bytes) (limit : ℕ)
      → Reads (AgreeIn site) (top site dimension from_ms to_ms limit)
  unfolding top top_rows
  Reads-top dimension limit = Reads-query _ (λ db db' a.
      rw
        (keep-narrower (in_days site dimension from_ms to_ms) (λ r. in_scope site r.website_id)
          db.rollup_dim db'.rollup_dim (λ r h. ground arith) a.rollup_dim)
        refl)

  pub Reads-evaluate_funnel :
      (steps : List Step) → Reads (AgreeIn site) (evaluate_funnel site steps from_ms to_ms)
  unfolding evaluate_funnel
  Reads-evaluate_funnel [] = Reads-pure _
  Reads-evaluate_funnel (s ∷ steps) =
      Reads-query _ (λ db db' a. rw (events_in-AgreeIn site db db' a from_ms to_ms) refl)

pub Reads-realtime : (site now : ℕ) → Reads (AgreeIn site) (realtime site now)
unfolding realtime
Reads-realtime site now = Reads-query _ (λ db db' a.
    rw
      (keep-narrower
        (λ (r : EventRow). in_scope site r.event.website_id && ltb (now - 5 * 60 * 1000) r.event.ts)
        (λ r. in_scope site r.event.website_id) db.events db'.events (λ r h. ground arith) a.events)
      refl)

pub Reads-list_funnels : (json : Json) (site : ℕ) → Reads (AgreeIn site) (list_funnels json site)
unfolding list_funnels
Reads-list_funnels json site = Reads-query _ (λ db db' a. rw a.funnels refl)
