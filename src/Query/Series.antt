-- ===== src/Query/Series.antt =====
-- internal/query/query.go: TimeSeries, the points of the chart.
pub mod Total
use glimt.Base.{
  ℕ, zero, suc, ◌+◌, ◌-◌, ◌*◌, ◌/◌, Bool, true, false, ◌&&◌, Option, none, some, List, [], ◌∷◌, map,
  ltb, leb, ◌==◌, if◌then◌else◌, keep, sum_of, group_by,
}
use glimt.Store.Tables.{Db, StatsRow}
use glimt.Store.Sql.{Sql, query}
use glimt.Rollup.{ms_per_hour, ms_per_day}
use glimt.Query.{in_scope, in_hours, stats_in}

pub data Interval : Type 0 where
  hour day : Interval

pub record Point : Type 0 where
  pub bucket : ℕ
  pub pageviews : ℕ
  pub visitors : ℕ

abbrev pub step_of : Interval → ℕ
step_of hour = ms_per_hour
step_of day = ms_per_day

-- The column that the query groups by.
abbrev pub bucket_of : Interval → StatsRow → ℕ
bucket_of hour r = r.bucket_hour
bucket_of day r = r.bucket_hour / 24

unfoldable pub group_point : Interval → ℕ → List StatsRow → Point
group_point i k rows = record {
  bucket = k * step_of i;
  pageviews = sum_of (λ r. r.pageviews) rows;
  visitors = sum_of (λ r. r.visitors) rows;
}

unfoldable pub series_rows : ℕ → ℕ → ℕ → Interval → Db → List Point
series_rows site from_ms to_ms i db =
    group_by ◌==◌ (bucket_of i) (group_point i) (stats_in site from_ms to_ms db.rollup_stats)

-- The map from buckets to points that the loop over the rows makes: a later row takes the place.
unfoldable pub find_point : ℕ → List Point → Option Point
find_point t [] = none
find_point t (p ∷ rows) = elim (find_point t rows) [
  | some q ↦ some q
  | none ↦ if p.bucket == t then some p else none
]

-- A zero-filled point.
unfoldable pub point_at : ℕ → Option Point → Point
point_at t none = record { bucket = t; pageviews = 0; visitors = 0 }
point_at t (some p) = p

-- `for t := start; t < toMs; t += step`, with fuel
unfoldable pub fill : List Point → ℕ → ℕ → ℕ → ℕ → List Point
unfolding point_at
fill rows step to_ms zero t = []
fill rows step to_ms (suc fuel) t =
    let rest = point_at t (find_point t rows) ∷ fill rows step to_ms fuel (t + step) in
    if ltb t to_ms then rest else []

-- Aligned down to the bucket boundary.
abbrev pub start_of : ℕ → Interval → ℕ
start_of from_ms i = from_ms / step_of i * step_of i

-- The rounds of the loop and one more.
abbrev pub rounds : ℕ → ℕ → Interval → ℕ
rounds from_ms to_ms i = (to_ms - start_of from_ms i) / step_of i + 2

unfoldable pub series : ℕ → ℕ → ℕ → Interval → Db → List Point
unfolding fill
series site from_ms to_ms i db =
    fill (series_rows site from_ms to_ms i db) (step_of i) to_ms (rounds from_ms to_ms i)
      (start_of from_ms i)

unfoldable pub time_series : ℕ → ℕ → ℕ → Interval → Sql (List Point)
time_series site from_ms to_ms i = query (series site from_ms to_ms i)
