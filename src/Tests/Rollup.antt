-- ===== src/Tests/Rollup.antt =====
-- internal/rollup/rollup.go: passes over a few rows.
use glimt.Base.{◌/◌, ◌≡◌, ◌≤◌, ◌++◌, refl, arith, true, false, [], ◌∷◌, length, keep, All}
use glimt.Store.Sql.{World, sound}
use glimt.Rollup.{Worker, run, recompute, from_hour, ms_per_hour}
use glimt.Rollup.Outcome.{Recomputed, recompute-Recomputed}
use glimt.Rollup.Retention.{IsForward}
use glimt.Rollup.Idempotent.{recompute_twice}
use glimt.Rollup.Recovery.{run_recovers}
use glimt.Query.{count_pageviews_in}
use glimt.Query.Fresh.{is_view_in, count_pageviews_in-recompute}
use glimt.Tests.Sample.{db, now}

-- A month of raw events.
abbrev worker : Worker
worker = record { retention_days = 30 }

-- The third statement fails.
abbrev failing : World
failing = record { db = db; faults = false ∷ false ∷ true ∷ [] }

recompute-Recomputed_example : Recomputed worker now db (recompute worker now failing)
recompute-Recomputed_example = recompute-Recomputed worker now failing

forward : All IsForward db.sessions
unfolding IsForward
forward = (omega arith, tt)

recompute_twice_example :
    (recompute worker now (recompute worker now (sound db)).1).1.db
    ≡ (recompute worker now (sound db)).1.db
recompute_twice_example = recompute_twice worker now db (omega arith) forward

recent : from_hour now ≤ 1728000000000 / ms_per_hour
recent = omega arith

count_pageviews_in-recompute_example :
    count_pageviews_in 0 1728000000000 now (recompute worker now (sound db)).1.db
    ≡ length (keep (is_view_in 0 1728000000000 now) db.events)
count_pageviews_in-recompute_example =
    count_pageviews_in-recompute worker now 0 1728000000000 now db recent

-- The first two passes fail at their first statement.
abbrev twice_failing : World
twice_failing = record { db = db; faults = true ∷ true ∷ [] }

abbrev forever : Worker
forever = record { retention_days = 0 }

run_recovers_example :
    count_pageviews_in 0 1728000000000 now
      (run forever 1728005280000 ((1728005340000 ∷ []) ++ (now ∷ [])) twice_failing).db
    ≡ length (keep (is_view_in 0 1728000000000 now) db.events)
run_recovers_example =
    run_recovers forever 1728005280000 now (1728005340000 ∷ []) twice_failing 0 1728000000000 now
      refl (omega arith) recent
