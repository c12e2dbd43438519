-- ===== src/Rollup.antt =====
-- internal/rollup/rollup.go: the tables that the worker recomputes from the events of the last hours
-- and days, and the retention of the raw events.
--
-- An INSERT … SELECT … GROUP BY adds a row for each group. It breaks no primary key: the rows of its
-- buckets are deleted before. Integer division by a unit of time is the bucket, as in SQLite.
pub mod Outcome
pub mod Exact
pub mod Retention
pub mod Idempotent
pub mod Recovery
use glimt.Base.{
  ℕ, zero, suc, ◌+◌, ◌-◌, ◌*◌, ◌/◌, Bool, true, false, ◌&&◌, not, List, [], ◌∷◌, ◌++◌, map, Bytes,
  codes, same, is_empty, ltb, leb, ◌==◌, length, if◌then◌else◌, keep, sum_of, group_by, has,
  distinct, count_distinct,
}
use glimt.Model.{Event, type_pageview, type_custom}
use glimt.Store.Tables.{Db, EventRow, EventProp, Session, StatsRow, DimRow}
use glimt.Store.Sql.{World, Sql, exec, transaction, for_each, pure, ◌>>=◌, ◌>>◌}

abbrev pub stats_hour_window : ℕ
stats_hour_window = 3

abbrev pub dim_day_window : ℕ
dim_day_window = 2

abbrev pub ms_per_hour : ℕ
ms_per_hour = 3600 * 1000

abbrev pub ms_per_day : ℕ
ms_per_day = 86400 * 1000

-- event-sourced dimensions
pub record Dim : Type 0 where
  pub name : Bytes
  pub column : Event → Bytes
  pub pageviews_only : Bool

abbrev pub event_dims : List Dim
event_dims =
    record { name = codes "path"; column = λ e. e.url_path; pageviews_only = true }
    ∷ record { name = codes "title"; column = λ e. e.page_title; pageviews_only = true }
    ∷ record { name = codes "hostname"; column = λ e. e.hostname; pageviews_only = false }
    ∷ record { name = codes "country"; column = λ e. e.country; pageviews_only = false }
    ∷ record { name = codes "region"; column = λ e. e.region; pageviews_only = false }
    ∷ record { name = codes "city"; column = λ e. e.city; pageviews_only = false }
    ∷ record { name = codes "browser"; column = λ e. e.browser; pageviews_only = false }
    ∷ record { name = codes "os"; column = λ e. e.os; pageviews_only = false }
    ∷ record { name = codes "device"; column = λ e. e.device; pageviews_only = false }
    ∷ record { name = codes "referrer"; column = λ e. e.ref_source; pageviews_only = false }
    ∷ record { name = codes "language"; column = λ e. e.language; pageviews_only = false }
    ∷ []

pub record Worker : Type 0 where
  pub retention_days : ℕ  -- zero where the source has zero or less

-- GROUP BY website_id, ts / msPerHour
abbrev pub StatsKey : Type 0
StatsKey = ℕ × ℕ

abbrev pub same_stats : StatsKey → StatsKey → Bool
same_stats a b = a.0 == b.0 && a.1 == b.1

abbrev pub stats_key : EventRow → StatsKey
stats_key r = (r.event.website_id, r.event.ts / ms_per_hour)

-- CASE WHEN type=0 THEN 1 ELSE 0 END
abbrev pub pageview : EventRow → ℕ
pageview r = if r.event.kind == type_pageview then 1 else 0

unfoldable pub stats_row : StatsKey → List EventRow → StatsRow
stats_row k rows = record {
  website_id = k.0;
  bucket_hour = k.1;
  pageviews = sum_of pageview rows;
  visitors = count_distinct same (map (λ (r : EventRow). r.event.visitor_hash) rows);
  sessions = 0;
}

-- WHERE ts >= ?
abbrev pub events_from : ℕ → List EventRow → List EventRow
events_from from_ms = keep (λ r. leb from_ms r.event.ts)

unfoldable pub select_stats : ℕ → List EventRow → List StatsRow
select_stats from_hour_ms events =
    group_by same_stats stats_key stats_row (events_from from_hour_ms events)

-- DELETE FROM rollup_stats WHERE bucket_hour >= ?
unfoldable pub delete_stats : ℕ → List StatsRow → List StatsRow
delete_stats from_hour = keep (λ r. ltb r.bucket_hour from_hour)

-- UPDATE rollup_stats SET sessions = … WHERE bucket_hour >= ?
unfoldable pub count_sessions : ℕ → List Session → StatsRow → StatsRow
count_sessions from_hour sessions r =
    if leb from_hour r.bucket_hour
    then record r {
      sessions = length (
          keep
            (λ (s : Session).
              s.website_id == r.website_id && s.started_at / ms_per_hour == r.bucket_hour)
            sessions);
    }
    else r

unfoldable pub recompute_stats : ℕ → ℕ → Sql (Unit {0})
recompute_stats from_hour from_hour_ms = do
  exec (λ db. record db { rollup_stats = delete_stats from_hour db.rollup_stats })
  exec (λ db. record db { rollup_stats = db.rollup_stats ++ select_stats from_hour_ms db.events })
  exec (λ db. record db {
    rollup_stats = map (count_sessions from_hour db.sessions) db.rollup_stats;
  })

-- GROUP BY website_id, ts / msPerDay, column
abbrev pub DimKey : Type 0
DimKey = ℕ × ℕ × Bytes

abbrev pub same_dim : DimKey → DimKey → Bool
same_dim a b = a.0 == b.0 && a.1 == b.1 && same a.2 b.2

abbrev pub event_key : (Event → Bytes) → EventRow → DimKey
event_key column r = (r.event.website_id, r.event.ts / ms_per_day, column r.event)

unfoldable pub event_dim_row : Bytes → DimKey → List EventRow → DimRow
event_dim_row dim k rows = record {
  website_id = k.0;
  bucket_day = k.1;
  dimension = dim;
  value = k.2;
  pageviews = length rows;
  sessions = count_distinct ◌==◌ (map (λ (r : EventRow). r.session_id) rows);
  visitors = count_distinct same (map (λ (r : EventRow). r.event.visitor_hash) rows);
}

-- WHERE ts >= ? AND column <> '' and the filter of the type
unfoldable pub in_dim : ℕ → (Event → Bytes) → (Event → Bool) → EventRow → Bool
in_dim from_day_ms column passes r =
    leb from_day_ms r.event.ts && not (is_empty (column r.event)) && passes r.event

unfoldable pub select_events :
    ℕ → Bytes → (Event → Bytes) → (Event → Bool) → List EventRow → List DimRow
unfolding in_dim
select_events from_day_ms dim column passes events =
    group_by same_dim (event_key column) (event_dim_row dim)
      (keep (in_dim from_day_ms column passes) events)

abbrev pub dim_filter : Bool → Event → Bool
dim_filter pageviews_only e = if pageviews_only then e.kind == type_pageview else true

abbrev pub session_key : (Session → Bytes) → Session → DimKey
session_key column s = (s.website_id, s.started_at / ms_per_day, column s)

unfoldable pub session_dim_row : Bytes → DimKey → List Session → DimRow
session_dim_row dim k rows = record {
  website_id = k.0;
  bucket_day = k.1;
  dimension = dim;
  value = k.2;
  pageviews = length rows;
  sessions = length rows;
  visitors = count_distinct same (map (λ (s : Session). s.visitor_hash) rows);
}

unfoldable pub select_sessions : ℕ → Bytes → (Session → Bytes) → List Session → List DimRow
select_sessions from_day_ms dim column sessions =
    group_by same_dim (session_key column) (session_dim_row dim)
      (keep (λ s. leb from_day_ms s.started_at && not (is_empty (column s))) sessions)

-- DELETE FROM rollup_dim WHERE bucket_day >= ?
unfoldable pub delete_dims : ℕ → List DimRow → List DimRow
delete_dims from_day = keep (λ r. ltb r.bucket_day from_day)

-- INSERT INTO rollup_dim … SELECT
unfoldable pub insert_dims : (Db → List DimRow) → Sql (Unit {0})
insert_dims select = exec (λ db. record db { rollup_dim = db.rollup_dim ++ select db })

-- What the INSERT of a dimension selects.
abbrev pub dim_rows : ℕ → Dim → Db → List DimRow
dim_rows from_day_ms d db =
    select_events from_day_ms d.name d.column (dim_filter d.pageviews_only) db.events

abbrev pub custom_rows : ℕ → Db → List DimRow
custom_rows from_day_ms db =
    select_events from_day_ms (codes "event") (λ e. e.name) (λ e. e.kind == type_custom) db.events

abbrev pub entry_rows : ℕ → Db → List DimRow
entry_rows from_day_ms db =
    select_sessions from_day_ms (codes "entry") (λ s. s.entry_path) db.sessions

abbrev pub exit_rows : ℕ → Db → List DimRow
exit_rows from_day_ms db = select_sessions from_day_ms (codes "exit") (λ s. s.exit_path) db.sessions

unfoldable pub recompute_dims : ℕ → ℕ → Sql (Unit {0})
recompute_dims from_day from_day_ms = do
  exec (λ db. record db { rollup_dim = delete_dims from_day db.rollup_dim })
  for_each (λ d. insert_dims (dim_rows from_day_ms d)) event_dims
  insert_dims (custom_rows from_day_ms)
  for_each insert_dims (entry_rows from_day_ms ∷ exit_rows from_day_ms ∷ [])

-- The statements of the retention, for events before the cutoff.
unfoldable pub prune_props : ℕ → Db → Db
prune_props cutoff_ms db = record db {
  event_props =
      keep
        (λ (p : EventProp). not (
          has ◌==◌ p.event_id
            (map (λ (r : EventRow). r.id) (keep (λ r. ltb r.event.ts cutoff_ms) db.events))))
        db.event_props;
}

unfoldable pub prune_events : ℕ → Db → Db
prune_events cutoff_ms db = record db {
  events = keep (λ (r : EventRow). not (ltb r.event.ts cutoff_ms)) db.events;
}

unfoldable pub prune_sessions : ℕ → Db → Db
prune_sessions cutoff_ms db = record db {
  sessions = keep (λ (s : Session). not (ltb s.last_seen_at cutoff_ms)) db.sessions;
}

-- now.AddDate(0, 0, -days), in UTC; a cutoff before 1970 deletes nothing, as zero does
abbrev pub cutoff : ℕ → ℕ → ℕ
cutoff now_ms days = now_ms - days * ms_per_day

unfoldable pub retain : ℕ → ℕ → Sql (Unit {0})
retain now_ms zero = pure tt
retain now_ms (suc days) = do
  exec (prune_props (cutoff now_ms (suc days)))
  exec (prune_events (cutoff now_ms (suc days)))
  exec (prune_sessions (cutoff now_ms (suc days)))

abbrev pub from_hour : ℕ → ℕ
from_hour now_ms = now_ms / ms_per_hour - (stats_hour_window - 1)

abbrev pub from_day : ℕ → ℕ
from_day now_ms = now_ms / ms_per_day - (dim_day_window - 1)

unfoldable pub recompute_body : Worker → ℕ → Sql (Unit {0})
recompute_body w now_ms = do
  recompute_stats (from_hour now_ms) (from_hour now_ms * ms_per_hour)
  recompute_dims (from_day now_ms) (from_day now_ms * ms_per_day)
  retain now_ms w.retention_days

unfoldable pub recompute : Worker → ℕ → Sql (Unit {0})
recompute w now_ms = transaction (recompute_body w now_ms)

-- Its error is only logged.
unfoldable pub tick : Worker → ℕ → World → World
tick w now_ms world = (recompute w now_ms world).1

-- Run: one pass at once, and one for each tick that comes before the context is cancelled.
unfoldable pub run : Worker → ℕ → List ℕ → World → World
unfolding tick
run w now_ms [] world = tick w now_ms world
run w now_ms (next ∷ ticks) world = run w next ticks (tick w now_ms world)
