-- ===== src/Query.antt =====
-- internal/query/query.go: what the dashboard reads.
--
-- The site 0 stands for all sites. An average is a fraction, with the denominator 0 where SQL's AVG
-- has no rows and COALESCE gives 0. The times of a range are not before 1970.
pub mod Series
pub mod Funnel
pub mod Fresh
pub mod Ingested
pub mod Top
pub mod Scoped
use glimt.Base.{
  ℕ, ◌+◌, ◌-◌, ◌*◌, ◌/◌, Bool, true, false, ◌&&◌, ◌||◌, not, List, [], ◌∷◌, map, Bytes, codes, same,
  ltb, leb, ◌==◌, length, take, if◌then◌else◌, keep, sum_of, group_by, count_distinct,
}
use glimt.Base.Int.{ℤ, pos, negsuc, sub_ℕ, sum_ℤ, ltb_ℤ}
use glimt.Model.{Event, Millionths, type_pageview}
use glimt.Store.Tables.{Db, EventRow, Session, StatsRow, DimRow}
use glimt.Store.Sql.{Sql, World, Result, ok, err, query, pure, ◌>>=◌, ◌>>◌}
use glimt.Rollup.{ms_per_hour, ms_per_day}

-- num / den
pub record Ratio : Type 0 where
  pub num : ℤ
  pub den : ℕ

pub record Summary : Type 0 where
  pub pageviews : ℕ
  pub visitors : ℕ
  pub visits : ℕ
  pub bounce_rate : Ratio
  pub avg_duration : Ratio  -- seconds
  pub revenue : Millionths

pub record Vitals : Type 0 where
  pub lcp : Ratio
  pub inp : Ratio
  pub cls : Ratio
  pub ttfb : Ratio
  pub count : ℕ

-- The WHERE clause of `scope`.
unfoldable pub in_scope : ℕ → ℕ → Bool
in_scope site website_id = site == 0 || website_id == site

-- bucket_hour >= ? AND bucket_hour <= ?
abbrev pub in_hours : ℕ → ℕ → ℕ → Bool
in_hours from_ms to_ms hour = leb (from_ms / ms_per_hour) hour && leb hour (to_ms / ms_per_hour)

-- ts >= ? AND ts < ?
abbrev pub in_range : ℕ → ℕ → ℕ → Bool
in_range from_ms to_ms ts = leb from_ms ts && ltb ts to_ms

abbrev pub stats_in : ℕ → ℕ → ℕ → List StatsRow → List StatsRow
stats_in site from_ms to_ms =
    keep (λ r. in_scope site r.website_id && in_hours from_ms to_ms r.bucket_hour)

abbrev pub events_in : ℕ → ℕ → ℕ → List EventRow → List EventRow
events_in site from_ms to_ms =
    keep (λ r. in_scope site r.event.website_id && in_range from_ms to_ms r.event.ts)

abbrev pub sessions_in : ℕ → ℕ → ℕ → List Session → List Session
sessions_in site from_ms to_ms =
    keep (λ s. in_scope site s.website_id && in_range from_ms to_ms s.started_at)

unfoldable pub count_pageviews_in : ℕ → ℕ → ℕ → Db → ℕ
unfolding in_scope
count_pageviews_in site from_ms to_ms db =
    sum_of (λ r. r.pageviews) (stats_in site from_ms to_ms db.rollup_stats)

-- The row of the query over the sessions: visitors, visits, bounces and the time they lasted.
unfoldable pub session_figures : List Session → ℕ × ℕ × Ratio × Ratio
session_figures rows = (
  count_distinct same (map (λ (s : Session). s.visitor_hash) rows),
  length rows,
  record { num = pos (sum_of (λ s. s.is_bounce) rows); den = length rows },
  record { num = sum_ℤ (λ s. sub_ℕ s.last_seen_at s.started_at) rows; den = 1000 * length rows },
)

-- SUM(val) of the positive values
unfoldable pub sum_val : List EventRow → Millionths
sum_val rows = sum_ℤ (λ r. r.event.val) (keep (λ r. ltb_ℤ (pos 0) r.event.val) rows)

-- `_ = ….Scan(&x)`: an error leaves the value that was there.
unfoldable pub or_before : {A : Type 0} → A → Sql A → Sql A
or_before a m w = let (r, w') = m w in elim r [ ok b ↦ (ok b, w') | err e ↦ (ok a, w') ]

unfoldable pub summary : ℕ → ℕ → ℕ → Sql Summary
summary site from_ms to_ms = do
  views ← query (count_pageviews_in site from_ms to_ms)
  figures ← query (λ db. session_figures (sessions_in site from_ms to_ms db.sessions))
  sum ← or_before (pos 0) (query (λ db. sum_val (events_in site from_ms to_ms db.events)))
  pure (record {
    pageviews = views;
    visitors = figures.0;
    visits = figures.1;
    bounce_rate = figures.2;
    avg_duration = figures.3;
    revenue = sum;
  })

abbrev pub is_zero : ℤ → Bool
is_zero z = not (ltb_ℤ z (pos 0)) && not (ltb_ℤ (pos 0) z)

-- AVG(NULLIF(column, 0))
unfoldable pub avg_nonzero : (Event → ℤ) → List EventRow → Ratio
avg_nonzero column rows =
    let counted = keep (λ (r : EventRow). not (is_zero (column r.event))) rows in
    record { num = sum_ℤ (λ (r : EventRow). column r.event) counted; den = length counted }

abbrev pub has_vital : EventRow → Bool
has_vital r =
    ltb_ℤ (pos 0) r.event.lcp
    || ltb_ℤ (pos 0) r.event.inp
    || ltb_ℤ (pos 0) r.event.cls
    || ltb_ℤ (pos 0) r.event.ttfb

unfoldable pub vitals_of : List EventRow → Vitals
unfolding avg_nonzero
vitals_of rows = record {
  lcp = avg_nonzero (λ e. e.lcp) rows;
  inp = avg_nonzero (λ e. e.inp) rows;
  cls = avg_nonzero (λ e. e.cls) rows;
  ttfb = avg_nonzero (λ e. e.ttfb) rows;
  count = length (keep has_vital rows);
}

unfoldable pub vitals : ℕ → ℕ → ℕ → Sql Vitals
vitals site from_ms to_ms = query (λ db. vitals_of (events_in site from_ms to_ms db.events))

-- Visitors of the last five minutes.
unfoldable pub realtime : ℕ → ℕ → Sql ℕ
realtime site now_ms = query (λ db. count_distinct same (
    map (λ (r : EventRow). r.event.visitor_hash)
      (keep
        (λ (r : EventRow).
          in_scope site r.event.website_id && ltb (now_ms - 5 * 60 * 1000) r.event.ts)
        db.events)))
