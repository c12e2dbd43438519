-- ===== src/Query/Fresh.antt =====
-- The headline of internal/query/query.go after a pass of internal/rollup/rollup.go.
use glimt.Base.{
  ℕ, ◌/◌, ◌≤◌, Bool, ◌&&◌, ◌≡◌, ◌∙◌, arith, ◌==◌, keep, length, sum_of-keep, sum_of-count,
  sum_of-same,
}
use glimt.Model.{type_pageview}
use glimt.Store.Tables.{Db, EventRow, StatsRow}
use glimt.Store.Sql.{sound}
use glimt.Rollup.{Worker, recompute, StatsKey, from_hour, from_day, ms_per_hour}
use glimt.Rollup.Outcome.{recompute-sound, recomputed, stats_after, dims_after}
use glimt.Rollup.Exact.{sum_pageviews-stats_after}
use glimt.Rollup.Idempotent.{retained-rollups}
use glimt.Query.{in_scope, in_hours, count_pageviews_in}

-- A pageview of the site in one of the hours of the range.
abbrev pub is_view_in : ℕ → ℕ → ℕ → EventRow → Bool
is_view_in site from_ms to_ms r =
    in_scope site r.event.website_id
    && in_hours from_ms to_ms (r.event.ts / ms_per_hour)
    && r.event.kind == type_pageview

in_key : ℕ → ℕ → ℕ → StatsKey → Bool
in_key site from_ms to_ms k = in_scope site k.0 && in_hours from_ms to_ms k.1

-- After a pass, the headline count of pageviews of a site, or of all, over a range whose first hour is
-- one of the last three, is the number of pageviews stored for the hours of the range.
pub count_pageviews_in-recomputed :
    (w : Worker) (now site from_ms to_ms : ℕ) (db : Db)
    → from_hour now ≤ from_ms / ms_per_hour
    → count_pageviews_in site from_ms to_ms (recomputed w now db)
      ≡ length (keep (is_view_in site from_ms to_ms) db.events)
unfolding count_pageviews_in recomputed in_key
count_pageviews_in-recomputed w now site from_ms to_ms db h =
    let hour = from_hour now in
    let counted : Db = record db {
      rollup_stats = stats_after hour db;
      rollup_dim = dims_after (from_day now) db;
    } in
    let p = in_key site from_ms to_ms in
    rw (retained-rollups now w.retention_days counted).0 (
      sum_of-keep (λ (r : StatsRow). r.pageviews)
        (λ (r : StatsRow). in_scope site r.website_id && in_hours from_ms to_ms r.bucket_hour)
        (stats_after hour db)
      ∙ sum_pageviews-stats_after p hour db (λ k e. ground arith)
      ∙ sum_of-same _ _ db.events (λ r. ground arith)
      ∙ sum_of-count (is_view_in site from_ms to_ms) db.events)

-- After a pass that meets no fault, the headline count of pageviews of a site, or of all, over a range
-- whose first hour is one of the last three, is the number of pageviews stored for the hours of the
-- range.
pub count_pageviews_in-recompute :
    (w : Worker) (now site from_ms to_ms : ℕ) (db : Db)
    → from_hour now ≤ from_ms / ms_per_hour
    → count_pageviews_in site from_ms to_ms (recompute w now (sound db)).1.db
      ≡ length (keep (is_view_in site from_ms to_ms) db.events)
count_pageviews_in-recompute w now site from_ms to_ms db h =
    rw (recompute-sound w now db) (count_pageviews_in-recomputed w now site from_ms to_ms db h)
