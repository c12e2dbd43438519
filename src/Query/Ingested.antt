-- ===== src/Query/Ingested.antt =====
-- The events that internal/ingest/writer.go accepted, in the headline of internal/query/query.go after
-- a pass of internal/rollup/rollup.go.
use glimt.Base.{
  ℕ, ◌+◌, ◌/◌, ◌≤◌, Bool, false, ◌&&◌, List, [], ◌∷◌, ◌≡◌, refl, ap, ◌∙◌, arith, ◌==◌, keep,
  keep-append, length, length-append, if◌then◌else◌, Bool-cases, inl, inr,
}
use glimt.Model.{Event, type_pageview}
use glimt.Store.Tables.{Db}
use glimt.Store.Sql.{World, sound}
use glimt.Ingest.Writer.{add_event}
use glimt.Ingest.Writer.Effects.{store_event, store_with, store_all}
use glimt.Ingest.Loop.{Ingestor, start, Reach}
use glimt.Ingest.Loop.Drain.{drain}
use glimt.Rollup.{Worker, recompute, from_hour, ms_per_hour}
use glimt.Query.{in_scope, in_hours, count_pageviews_in}
use glimt.Query.Fresh.{is_view_in, count_pageviews_in-recompute}

module _ (site from_ms to_ms : ℕ) where
  -- A pageview of the site in one of the hours of the range, before it is a row.
  abbrev pub is_counted : Event → Bool
  is_counted ev =
      in_scope site ev.website_id
      && in_hours from_ms to_ms (ev.ts / ms_per_hour)
      && ev.kind == type_pageview

  views : Db → ℕ
  views db = length (keep (is_view_in site from_ms to_ms) db.events)

  store_event-views :
      (ev : Event) (db : Db)
      → views (store_event ev db) ≡ views db + (if is_counted ev then 1 else 0)
  unfolding views store_event store_with add_event
  store_event-views ev db = rw keep-append (
      rw length-append
        (elim (Bool-cases (is_counted ev)) [ inl e ↦ rw e refl | inr e ↦ rw e refl ]))

  store_all-views :
      (evs : List Event) (db : Db)
      → views (store_all evs db) ≡ views db + length (keep is_counted evs)
  unfolding store_all
  store_all-views [] db = omega arith
  store_all-views (ev ∷ evs) db =
      ground (arith, store_all-views evs (store_event ev db), store_event-views ev db)

  -- Where no statement fails: once the writer has returned, a pass makes the headline count of
  -- pageviews of a site, or of all, over a range whose first hour is one of the last three, the number
  -- of those that were stored before for the hours of the range and of those among the accepted events.
  pub accepted_are_counted :
      (w : Worker) (now : ℕ) (db : Db) {s : Ingestor}
      → Reach (start (sound db)) s
      → s.running ≡ false
      → from_hour now ≤ from_ms / ms_per_hour
      → count_pageviews_in site from_ms to_ms (recompute w now s.world).1.db
        ≡ length (keep (is_view_in site from_ms to_ms) db.events)
          + length (keep is_counted s.accepted)
  unfolding views
  accepted_are_counted w now db {s} run returned recent =
      ap (λ (world : World). count_pageviews_in site from_ms to_ms (recompute w now world).1.db)
        (drain db run returned)
      ∙ count_pageviews_in-recompute w now site from_ms to_ms (store_all s.accepted db) recent
      ∙ store_all-views s.accepted db
