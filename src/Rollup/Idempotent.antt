-- ===== src/Rollup/Idempotent.antt =====
-- Passes of internal/rollup/rollup.go one after the other.
use glimt.Base.{
  ℕ, zero, suc, ◌*◌, ◌/◌, ◌≤◌, Bool, true, false, ◌&&◌, not, List, [], ◌∷◌, ◌++◌, ◌≡◌, ◌≢◌, refl,
  sym, ap, ◌∙◌, arith, Bytes, codes, is_empty, ltb, leb, ◌==◌, has, keep, keep-passes, keep-append,
  keep-all, keep-none, append-nil, All, All-map, All-every, All-group_by, group_by,
}
use glimt.Model.{Event, type_custom}
use glimt.Store.Tables.{Db, EventRow, EventProp, Session, StatsRow, DimRow}
use glimt.Store.Sql.{sound}
use glimt.Rollup.{
  Worker, recompute, Dim, event_dims, ms_per_hour, ms_per_day, delete_dims, dim_rows, custom_rows,
  entry_rows, exit_rows, select_events, select_sessions, in_dim, dim_filter, event_key,
  event_dim_row, session_key, session_dim_row, same_dim, prune_props, prune_events, prune_sessions,
  cutoff, from_hour, from_day,
}
use glimt.Rollup.Outcome.{recompute-sound, stats_after, add_dims, dims_after, retained, recomputed}
use glimt.Rollup.Retention.{
  IsForward, IsPruned, pruned_before, retained-IsPruned, events_agree, sessions_agree,
  stats_after-pruned,
}

abbrev IsNew : ℕ → DimRow → Type 0
IsNew day r = ltb r.bucket_day day ≡ false

select_events-IsNew :
    (day : ℕ) (dim : Bytes) (column : Event → Bytes) (passes : Event → Bool)
    (events : List EventRow)
    → All (IsNew day) (select_events (day * ms_per_day) dim column passes events)
unfolding select_events event_dim_row in_dim
select_events-IsNew day dim column passes events =
    let p : EventRow → Bool = in_dim (day * ms_per_day) column passes in
    All-group_by same_dim (event_key column) (event_dim_row dim) (IsNew day) (keep p events) (
      All-map (λ r. p r ≡ true)
        (λ r. (rs : List EventRow) → ltb (r.event.ts / ms_per_day) day ≡ false)
        (λ r e rs. ground arith) (keep p events) (keep-passes p events))

select_sessions-IsNew :
    (day : ℕ) (dim : Bytes) (column : Session → Bytes) (sessions : List Session)
    → All (IsNew day) (select_sessions (day * ms_per_day) dim column sessions)
unfolding select_sessions session_dim_row
select_sessions-IsNew day dim column sessions =
    let p : Session → Bool =
      λ s. leb (day * ms_per_day) s.started_at && not (is_empty (column s)) in
    All-group_by same_dim (session_key column) (session_dim_row dim) (IsNew day) (keep p sessions) (
      All-map (λ s. p s ≡ true)
        (λ s. (rs : List Session) → ltb (s.started_at / ms_per_day) day ≡ false)
        (λ s e rs. ground arith) (keep p sessions) (keep-passes p sessions))

module _ (day : ℕ) where
  -- Rows of the day or later do not outlive the next deletion.
  delete_dims-append :
      (rows new : List DimRow)
      → All (IsNew day) new
      → delete_dims day (rows ++ new) ≡ delete_dims day rows
  unfolding delete_dims
  delete_dims-append rows new h =
      keep-append (λ (r : DimRow). ltb r.bucket_day day) rows new
      ∙ ap (λ (rs : List DimRow). delete_dims day rows ++ rs)
          (keep-none (λ (r : DimRow). ltb r.bucket_day day) new h)
      ∙ append-nil (delete_dims day rows)

  delete_dims-add_dims :
      (ds : List Dim) (db : Db) (rows : List DimRow)
      → delete_dims day (add_dims (day * ms_per_day) ds db rows) ≡ delete_dims day rows
  unfolding add_dims
  delete_dims-add_dims [] db rows = refl
  delete_dims-add_dims (d ∷ ds) db rows =
      delete_dims-add_dims ds db (rows ++ dim_rows (day * ms_per_day) d db)
      ∙ delete_dims-append rows (dim_rows (day * ms_per_day) d db)
          (select_events-IsNew day d.name d.column (dim_filter d.pageviews_only) db.events)

  delete_dims-delete_dims :
      (rows : List DimRow) → delete_dims day (delete_dims day rows) ≡ delete_dims day rows
  unfolding delete_dims
  delete_dims-delete_dims rows =
      let p : DimRow → Bool = λ r. ltb r.bucket_day day in
      keep-all p (keep p rows) (keep-passes p rows)

  delete_dims-dims_after :
      (db : Db) → delete_dims day (dims_after day db) ≡ delete_dims day db.rollup_dim
  unfolding dims_after
  delete_dims-dims_after db =
      let from_ms = day * ms_per_day in
      let base = add_dims from_ms event_dims db (delete_dims day db.rollup_dim) in
      delete_dims-append (base ++ custom_rows from_ms db ++ entry_rows from_ms db)
        (exit_rows from_ms db)
        (select_sessions-IsNew day (codes "exit") (λ s. s.exit_path) db.sessions)
      ∙ delete_dims-append (base ++ custom_rows from_ms db) (entry_rows from_ms db)
          (select_sessions-IsNew day (codes "entry") (λ s. s.entry_path) db.sessions)
      ∙ delete_dims-append base (custom_rows from_ms db) (
          select_events-IsNew day (codes "event") (λ e. e.name) (λ e. e.kind == type_custom)
            db.events)
      ∙ delete_dims-add_dims event_dims db (delete_dims day db.rollup_dim)
      ∙ delete_dims-delete_dims db.rollup_dim

-- The rows that a pass selects are the same after the retention.
module _ (cut : ℕ) (before after : Db) (pruned : IsPruned cut before after) (from_ms : ℕ)
    (h : cut ≤ from_ms) where
  select_events-pruned :
      (dim : Bytes) (column : Event → Bytes) (passes : Event → Bool)
      → select_events from_ms dim column passes after.events
        ≡ select_events from_ms dim column passes before.events
  unfolding select_events in_dim
  select_events-pruned dim column passes =
      ap (group_by same_dim (event_key column) (event_dim_row dim))
        (events_agree cut before after pruned (in_dim from_ms column passes) (λ r e. ground arith))

  add_dims-pruned :
      (ds : List Dim) (rows : List DimRow)
      → add_dims from_ms ds after rows ≡ add_dims from_ms ds before rows
  unfolding add_dims
  add_dims-pruned [] rows = refl
  add_dims-pruned (d ∷ ds) rows =
      ap (λ (new : List DimRow). add_dims from_ms ds after (rows ++ new))
        (select_events-pruned d.name d.column (dim_filter d.pageviews_only))
      ∙ add_dims-pruned ds (rows ++ dim_rows from_ms d before)

  module _ (forward : All IsForward before.sessions) where
    select_sessions-pruned :
        (dim : Bytes) (column : Session → Bytes)
        → select_sessions from_ms dim column after.sessions
          ≡ select_sessions from_ms dim column before.sessions
    unfolding select_sessions
    select_sessions-pruned dim column =
        ap (group_by same_dim (session_key column) (session_dim_row dim)) (
          sessions_agree cut before after pruned
            (λ s. leb from_ms s.started_at && not (is_empty (column s))) (λ s e. ground arith)
            forward)

dims_after-pruned :
    (cut : ℕ) (before after : Db)
    → IsPruned cut before after
    → (day : ℕ) → cut ≤ day * ms_per_day
    → All IsForward before.sessions
    → after.rollup_dim ≡ dims_after day before
    → dims_after day after ≡ dims_after day before
unfolding dims_after
dims_after-pruned cut before after pruned day h forward e =
    let from_ms = day * ms_per_day in
    let kept : delete_dims day after.rollup_dim ≡ delete_dims day before.rollup_dim =
      ap (delete_dims day) e ∙ delete_dims-dims_after day before in
    let dims =
      add_dims-pruned cut before after pruned from_ms h event_dims
        (delete_dims day before.rollup_dim) in
    rw
      (
        kept,
        dims,
        select_events-pruned cut before after pruned from_ms h (codes "event") (λ e'. e'.name)
            (λ e'. e'.kind == type_custom),
        select_sessions-pruned cut before after pruned from_ms h forward (codes "entry")
            (λ s. s.entry_path),
        select_sessions-pruned cut before after pruned from_ms h forward (codes "exit")
            (λ s. s.exit_path),
      )
      refl

-- Pruning changes nothing where nothing lies before the cut.
module _ (cut : ℕ) (db : Db) where
  prune_props-settled :
      All (λ (r : EventRow). ltb r.event.ts cut ≡ false) db.events → prune_props cut db ≡ db
  unfolding prune_props has
  prune_props-settled h = rw (keep-none (λ (r : EventRow). ltb r.event.ts cut) db.events h) (
      ap (λ (ps : List EventProp). record db { event_props = ps })
        (keep-all (λ (p : EventProp). true) db.event_props (All-every (λ p. refl) db.event_props)))

  prune_events-settled :
      All (λ (r : EventRow). not (ltb r.event.ts cut) ≡ true) db.events → prune_events cut db ≡ db
  unfolding prune_events
  prune_events-settled h =
      ap (λ (rows : List EventRow). record db { events = rows })
        (keep-all (λ (r : EventRow). not (ltb r.event.ts cut)) db.events h)

  prune_sessions-settled :
      All (λ (s : Session). not (ltb s.last_seen_at cut) ≡ true) db.sessions
      → prune_sessions cut db ≡ db
  unfolding prune_sessions
  prune_sessions-settled h =
      ap (λ (rows : List Session). record db { sessions = rows })
        (keep-all (λ (s : Session). not (ltb s.last_seen_at cut)) db.sessions h)

prune_twice :
    (cut : ℕ) (db : Db)
    → let once = prune_sessions cut (prune_events cut (prune_props cut db)) in
      prune_sessions cut (prune_events cut (prune_props cut once)) ≡ once
prune_twice cut db =
    let once = prune_sessions cut (prune_events cut (prune_props cut db)) in
    let recent : All (λ (r : EventRow). not (ltb r.event.ts cut) ≡ true) once.events =
      unfold prune_sessions prune_events prune_props in
      keep-passes (λ (r : EventRow). not (ltb r.event.ts cut)) db.events in
    let seen : All (λ (s : Session). not (ltb s.last_seen_at cut) ≡ true) once.sessions =
      unfold prune_sessions prune_events prune_props in
      keep-passes (λ (s : Session). not (ltb s.last_seen_at cut)) db.sessions in
    ap (λ d. prune_sessions cut (prune_events cut d))
      (prune_props-settled cut once (
        All-map (λ (r : EventRow). not (ltb r.event.ts cut) ≡ true)
          (λ r. ltb r.event.ts cut ≡ false) (λ r e. ground arith) once.events recent))
    ∙ ap (prune_sessions cut) (prune_events-settled cut once recent)
    ∙ prune_sessions-settled cut once seen

retained_twice :
    (now days : ℕ) (db : Db) → retained now days (retained now days db) ≡ retained now days db
unfolding retained
retained_twice now zero db = refl
retained_twice now (suc days) db = prune_twice (cutoff now (suc days)) db

pub retained-rollups :
    (now days : ℕ) (db : Db)
    → ((retained now days db).rollup_stats ≡ db.rollup_stats)
      × ((retained now days db).rollup_dim ≡ db.rollup_dim)
unfolding retained prune_sessions prune_events prune_props
retained-rollups now zero db = (refl, refl)
retained-rollups now (suc days) db = (refl, refl)

rewritten :
    (db : Db) (stats : List StatsRow) (dims : List DimRow)
    → stats ≡ db.rollup_stats
    → dims ≡ db.rollup_dim
    → ◌≡◌ {A = Db} (record db { rollup_stats = stats; rollup_dim = dims }) db
rewritten db stats dims s d = ground (arith)

-- A retention of one day is the only one whose cut may lie in the window of a pass.
pruned_before_window :
    (now days : ℕ)
    → days ≢ 1
    → (pruned_before now days ≤ from_hour now * ms_per_hour)
      × (pruned_before now days ≤ from_day now * ms_per_day)
unfolding pruned_before
pruned_before_window now zero ne = omega arith
pruned_before_window now (suc zero) ne = absurd (ne refl)
pruned_before_window now (suc (suc days)) ne = omega arith

-- With no retention, or one of two days or more, and sessions that were not seen before they started,
-- a second pass at the same time changes nothing.
pub recomputed-recomputed :
    (w : Worker) (now : ℕ) (db : Db)
    → w.retention_days ≢ 1
    → All IsForward db.sessions
    → recomputed w now (recomputed w now db) ≡ recomputed w now db
unfolding recomputed
recomputed-recomputed w now db ne forward =
    let days = w.retention_days in
    let counted : Db = record db {
      rollup_stats = stats_after (from_hour now) db;
      rollup_dim = dims_after (from_day now) db;
    } in
    let after = retained now days counted in
    let p = retained-IsPruned now days counted in
    let pruned : IsPruned (pruned_before now days) db after = record {
      events = p.events;
      sessions = p.sessions;
    } in
    let (hour_le, day_le) = pruned_before_window now days ne in
    let (stats_kept, dims_kept) = retained-rollups now days counted in
    let stats = stats_after-pruned _ db after pruned forward (from_hour now) hour_le stats_kept in
    let dims = dims_after-pruned _ db after pruned (from_day now) day_le forward dims_kept in
    ap (retained now days) (rewritten after _ _ (stats ∙ sym stats_kept) (dims ∙ sym dims_kept))
    ∙ retained_twice now days counted

-- With no retention, or one of two days or more, and sessions that were not seen before they started,
-- a second pass at the same time changes nothing, where nothing fails.
pub recompute_twice :
    (w : Worker) (now : ℕ) (db : Db)
    → w.retention_days ≢ 1
    → All IsForward db.sessions
    → (recompute w now (recompute w now (sound db)).1).1.db ≡ (recompute w now (sound db)).1.db
recompute_twice w now db ne forward =
    rw (recompute-sound w now db, recompute-sound w now (recomputed w now db))
      (recomputed-recomputed w now db ne forward)
