-- ===== src/Rollup/Recovery.antt =====
-- The ticks of internal/rollup/rollup.go after passes that failed.
use glimt.Base.{
  ℕ, zero, suc, ◌+◌, ◌≤◌, ◌/◌, Bool, List, [], ◌∷◌, ◌++◌, ◌≡◌, refl, ap, ◌∙◌, arith, length, keep,
}
use glimt.Store.Tables.{Db, DimRow}
use glimt.Store.Sql.{World, Result, exec, for_each}
use glimt.Store.Spends.{
  faults_left, Spends, Spends-exec, Spends-bind, Spends-for_each, transaction-Spends, spends_rules,
}
use glimt.Rollup.{
  Worker, recompute, recompute_body, recompute_stats, recompute_dims, insert_dims, dim_rows,
  entry_rows, exit_rows, custom_rows, event_dims, retain, tick, run, from_hour, ms_per_hour,
}
use glimt.Rollup.Outcome.{
  Recomputed, unchanged, done, recompute-Recomputed, recompute-sound, recomputed, retained,
}
use glimt.Query.{count_pageviews_in}
use glimt.Query.Fresh.{is_view_in, count_pageviews_in-recomputed}

recompute_stats-Spends : (hour hour_ms : ℕ) → Spends (recompute_stats hour hour_ms)
unfolding recompute_stats
recompute_stats-Spends hour hour_ms = search spends_rules

insert_dims-Spends : (select : Db → List DimRow) → Spends (insert_dims select)
unfolding insert_dims
insert_dims-Spends select =
    Spends-exec (λ db. record db { rollup_dim = db.rollup_dim ++ select db })

recompute_dims-Spends : (day from_ms : ℕ) → Spends (recompute_dims day from_ms)
unfolding recompute_dims
recompute_dims-Spends day from_ms = Spends-bind (exec _) _ (Spends-exec _) (λ _.
    Spends-bind (for_each (λ d. insert_dims (dim_rows from_ms d)) event_dims) _
      (Spends-for_each _ (λ d. insert_dims-Spends (dim_rows from_ms d)) event_dims)
      (λ _. Spends-bind (insert_dims (custom_rows from_ms)) _ (insert_dims-Spends _) (λ _.
        Spends-for_each insert_dims insert_dims-Spends
          (entry_rows from_ms ∷ exit_rows from_ms ∷ []))))

retain-Spends : (now days : ℕ) → Spends (retain now days)
unfolding retain
retain-Spends now zero = search spends_rules
retain-Spends now (suc days) = search spends_rules

body-Spends : (w : Worker) (now : ℕ) → Spends (recompute_body w now)
unfolding recompute_body
body-Spends w now =
    search (spends_rules, recompute_stats-Spends, recompute_dims-Spends, retain-Spends)

-- A pass takes a fault, if there is one.
tick_spends :
    (w : Worker) (now n : ℕ) (db : Db) (fs : List Bool)
    → length fs ≤ suc n
    → faults_left (tick w now (record { db = db; faults = fs })) ≤ n
unfolding tick
tick_spends w now n db [] h =
    omega
      (arith, ap (λ (r : Result (Unit {0}) × World). faults_left r.1) (recompute-sound w now db))
tick_spends w now n db (b ∷ fs) h =
    unfold recompute in
    omega (arith, h, transaction-Spends (recompute_body w now) db b fs (body-Spends w now))

retained_zero-events :
    (now days : ℕ) (db : Db) → days ≡ 0 → (retained now days db).events ≡ db.events
unfolding retained
retained_zero-events now zero db h = refl
retained_zero-events now (suc days) db h = absurd (omega (arith, h))

module _ (w : Worker) (zero_days : w.retention_days ≡ 0) where
  -- With no retention a pass keeps the events, whether it fails or not.
  tick-events : (now : ℕ) (world : World) → (tick w now world).db.events ≡ world.db.events
  unfolding tick recomputed
  tick-events now world = of_outcome (recompute-Recomputed w now world)
    where
      of_outcome :
          Recomputed w now world.db (recompute w now world)
          → (recompute w now world).1.db.events ≡ world.db.events
      of_outcome (unchanged e p q) = ap (λ (db : Db). db.events) q
      of_outcome (done p q) =
          ap (λ (db : Db). db.events) q ∙ retained_zero-events now w.retention_days _ zero_days

  run-events :
      (first : ℕ) (ticks : List ℕ) (world : World)
      → (run w first ticks world).db.events ≡ world.db.events
  unfolding run
  run-events first [] world = tick-events first world
  run-events first (next ∷ ticks) world =
      run-events next ticks (tick w first world) ∙ tick-events first world

run_spends :
    (w : Worker) (first : ℕ) (ticks : List ℕ) (n : ℕ) (world : World)
    → faults_left world ≤ suc (length ticks) + n
    → faults_left (run w first ticks world) ≤ n
unfolding run
run_spends w first [] n world h = tick_spends w first n world.db world.faults (omega (arith, h))
run_spends w first (next ∷ ticks) n world h =
    run_spends w next ticks n (tick w first world)
      (tick_spends w first (suc (length ticks) + n) world.db world.faults (omega (arith, h)))

run-append :
    (w : Worker) (first now : ℕ) (ticks : List ℕ) (world : World)
    → run w first (ticks ++ (now ∷ [])) world ≡ tick w now (run w first ticks world)
unfolding run
run-append w first now [] world = refl
run-append w first now (next ∷ ticks) world = run-append w next now ticks (tick w first world)

tick_without_faults :
    (w : Worker) (now : ℕ) (db : Db) (fs : List Bool)
    → length fs ≤ 0
    → (tick w now (record { db = db; faults = fs })).db ≡ recomputed w now db
unfolding tick
tick_without_faults w now db [] h =
    ap (λ (r : Result (Unit {0}) × World). r.1.db) (recompute-sound w now db)
tick_without_faults w now db (b ∷ fs) h = absurd (omega (arith, h))

-- With no retention, once a worker has made as many passes as there are statements that can still fail,
-- with whatever outcome, its next pass makes the headline count of pageviews of a site, or of all, the
-- number of the pageviews stored for the hours of the range, for a range whose first hour is one of the
-- last three.
pub run_recovers :
    (w : Worker) (first now : ℕ) (ticks : List ℕ) (world : World) (site from_ms to_ms : ℕ)
    → w.retention_days ≡ 0
    → length world.faults ≤ suc (length ticks)
    → from_hour now ≤ from_ms / ms_per_hour
    → count_pageviews_in site from_ms to_ms (run w first (ticks ++ (now ∷ [])) world).db
      ≡ length (keep (is_view_in site from_ms to_ms) world.db.events)
run_recovers w first now ticks world site from_ms to_ms zero_days few recent =
    let before = run w first ticks world in
    rw
      (
        run-append w first now ticks world,
        tick_without_faults w now before.db before.faults
            (run_spends w first ticks 0 world (omega (arith, few))),
        count_pageviews_in-recomputed w now site from_ms to_ms before.db recent,
        run-events w zero_days first ticks world,
      )
      refl
