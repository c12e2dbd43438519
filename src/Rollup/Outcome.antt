-- ===== src/Rollup/Outcome.antt =====
-- What a pass of the worker of internal/rollup/rollup.go leaves, as a function of the tables.
use glimt.Base.{ℕ, zero, suc, ◌*◌, List, [], ◌∷◌, ◌++◌, map, ◌≡◌, refl, sym, ap, ◌∙◌}
use glimt.Store.Tables.{Db, DimRow, StatsRow}
use glimt.Store.Sql.{World, Result, ok, err, Error, exec, transaction, for_each, sound}
use glimt.Store.Steady.{
  Steady, Steady-pure, Steady-exec, Steady-bind, Steady-for_each, Outcome, rolled_back, committed,
  transaction-Outcome, steady_rules,
}
use glimt.Rollup.{
  Worker, Dim, event_dims, delete_stats, select_stats, count_sessions, recompute_stats, delete_dims,
  insert_dims, dim_rows, custom_rows, entry_rows, exit_rows, recompute_dims, prune_props,
  prune_events, prune_sessions, cutoff, retain, from_hour, from_day, recompute_body, recompute,
  ms_per_hour, ms_per_day,
}

-- The hourly table from the tables before.
unfoldable pub stats_after : ℕ → Db → List StatsRow
stats_after hour db =
    map (count_sessions hour db.sessions)
      (delete_stats hour db.rollup_stats ++ select_stats (hour * ms_per_hour) db.events)

-- What the statements of the dimensions add, one after the other.
unfoldable pub add_dims : ℕ → List Dim → Db → List DimRow → List DimRow
add_dims from_ms [] db rows = rows
add_dims from_ms (d ∷ ds) db rows = add_dims from_ms ds db (rows ++ dim_rows from_ms d db)

unfoldable pub dims_after : ℕ → Db → List DimRow
unfolding add_dims
dims_after day db =
    let from_ms = day * ms_per_day in
    add_dims from_ms event_dims db (delete_dims day db.rollup_dim)
    ++ custom_rows from_ms db
    ++ entry_rows from_ms db
    ++ exit_rows from_ms db

unfoldable pub retained : ℕ → ℕ → Db → Db
retained now zero db = db
retained now (suc days) db =
    prune_sessions (cutoff now (suc days))
      (prune_events (cutoff now (suc days)) (prune_props (cutoff now (suc days)) db))

-- The tables after a pass that met no error.
unfoldable pub recomputed : Worker → ℕ → Db → Db
recomputed w now db = retained now w.retention_days (record db {
  rollup_stats = stats_after (from_hour now) db;
  rollup_dim = dims_after (from_day now) db;
})

retain_lem :
    (now days : ℕ) (db : Db) → retain now days (sound db) ≡ (ok tt, sound (retained now days db))
unfolding retain retained exec
retain_lem now zero db = refl
retain_lem now (suc days) db = refl

recompute_dims_lem :
    (day : ℕ) (db : Db)
    → recompute_dims day (day * ms_per_day) (sound db)
      ≡ (ok tt, sound (record db { rollup_dim = dims_after day db }))
unfolding recompute_dims exec dims_after insert_dims
recompute_dims_lem day db = refl

recompute_body_lem :
    (w : Worker) (now : ℕ) (db : Db)
    → recompute_body w now (sound db) ≡ (ok tt, sound (recomputed w now db))
unfolding recompute_body recompute_stats exec recomputed stats_after dims_after
recompute_body_lem w now db =
    let counted : Db = record db { rollup_stats = stats_after (from_hour now) db } in
    rw
      (
        recompute_dims_lem (from_day now) counted,
        retain_lem now w.retention_days
            (record counted { rollup_dim = dims_after (from_day now) counted }),
      )
      refl

insert_dims-Steady : (select : Db → List DimRow) → Steady (insert_dims select)
unfolding insert_dims
insert_dims-Steady select =
    Steady-exec (λ db. record db { rollup_dim = db.rollup_dim ++ select db })

recompute_stats-Steady : (hour from_ms : ℕ) → Steady (recompute_stats hour from_ms)
unfolding recompute_stats
recompute_stats-Steady hour from_ms = search steady_rules

recompute_dims-Steady : (day from_ms : ℕ) → Steady (recompute_dims day from_ms)
unfolding recompute_dims
recompute_dims-Steady day from_ms = Steady-bind (exec _) _ (Steady-exec _) (λ _.
    Steady-bind (for_each (λ d. insert_dims (dim_rows from_ms d)) event_dims) _
      (Steady-for_each _ (λ d. insert_dims-Steady (dim_rows from_ms d)) event_dims)
      (λ _. Steady-bind (insert_dims (custom_rows from_ms)) _ (insert_dims-Steady _) (λ _.
        Steady-for_each insert_dims insert_dims-Steady
          (entry_rows from_ms ∷ exit_rows from_ms ∷ []))))

retain-Steady : (now days : ℕ) → Steady (retain now days)
unfolding retain
retain-Steady now zero = Steady-pure tt
retain-Steady now (suc days) = search steady_rules

recompute_body-Steady : (w : Worker) (now : ℕ) → Steady (recompute_body w now)
unfolding recompute_body
recompute_body-Steady w now =
    search (steady_rules, recompute_stats-Steady, recompute_dims-Steady, retain-Steady)

-- The outcome of a pass.
pub data Recomputed (w : Worker) (now : ℕ) (before : Db) (r : Result (Unit {0}) × World)
    : Type 0 where
  unchanged : (e : Error) → r.0 ≡ err e → r.1.db ≡ before → Recomputed w now before r
  done : r.0 ≡ ok tt → r.1.db ≡ recomputed w now before → Recomputed w now before r

-- Whichever statements of it fail, a pass returns an error and leaves every table as it was, or
-- returns none and leaves the tables recomputed.
pub recompute-Recomputed :
    (w : Worker) (now : ℕ) (world : World) → Recomputed w now world.db (recompute w now world)
unfolding recompute
recompute-Recomputed w now world =
    of_outcome _ (transaction-Outcome (recompute_body w now) (recompute_body-Steady w now) world)
  where
    of_outcome :
        (r : Result (Unit {0}) × World)
        → Outcome (recompute_body w now) world.db r
        → Recomputed w now world.db r
    of_outcome r (rolled_back e p q) = unchanged e p q
    of_outcome r (committed a p q) =
        done p (
          ap (λ (o : Result (Unit {0}) × World). o.1.db)
            (sym q ∙ recompute_body_lem w now world.db))

-- A pass that meets no fault returns no error and leaves the tables recomputed.
pub recompute-sound :
    (w : Worker) (now : ℕ) (db : Db)
    → recompute w now (sound db) ≡ (ok tt, sound (recomputed w now db))
unfolding recompute transaction
recompute-sound w now db = rw (recompute_body_lem w now db) refl
