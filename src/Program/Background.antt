-- ===== src/Program/Background.antt =====
-- The writer of internal/ingest/writer.go and the worker of internal/rollup/rollup.go leave the admins.
use glimt.Base.{ℕ, zero, suc, Option, none, some, List, [], ◌∷◌, ◌≡◌, refl, Bytes}
use glimt.Model.{Event}
use glimt.Store.Tables.{Db}
use glimt.Store.Sql.{exec, for_each}
use glimt.Store.Keeps.{
  Keeps, Keeps-pure, Keeps-query, Keeps-insert, Keeps-confirm, Keeps-exec, Keeps-bind,
  Keeps-for_each, Keeps-transaction,
}
use glimt.Auth.Admins.{IsStaffed}
use glimt.Ingest.Writer.{
  open_session, add_event, add_prop, stitch, insert_props, insert_event, flush,
}
use glimt.Rollup.{
  Worker, recompute, recompute_body, recompute_stats, recompute_dims, insert_dims, retain, dim_rows,
  event_dims, entry_rows, exit_rows, prune_props, prune_events, prune_sessions,
}
use glimt.Dashboard.Admin.Staffed.{same_admins}

IsStaffed-exec : (f : Db → Db) → ((db : Db) → (f db).admins ≡ db.admins) → Keeps IsStaffed (exec f)
IsStaffed-exec f e = Keeps-exec IsStaffed f (λ db. same_admins db (f db) (e db))

stitch-IsStaffed : (ev : Event) (found : Option _) → Keeps IsStaffed (stitch ev found)
unfolding stitch open_session
stitch-IsStaffed ev none =
    Keeps-bind IsStaffed _ _ (Keeps-insert IsStaffed _ (λ db. same_admins db _ refl))
      (λ sid. Keeps-confirm IsStaffed sid)
stitch-IsStaffed ev (some s) =
    Keeps-bind IsStaffed _ _ (IsStaffed-exec _ (λ db. refl)) (λ _. Keeps-pure IsStaffed s.id)

props-IsStaffed : (eid : ℕ) (ps : List (Bytes × Bytes)) → Keeps IsStaffed (insert_props eid ps)
unfolding insert_props add_prop
props-IsStaffed eid [] = Keeps-pure IsStaffed tt
props-IsStaffed eid (p ∷ ps) =
    Keeps-bind IsStaffed _ _ (Keeps-confirm IsStaffed eid)
      (λ e. Keeps-for_each IsStaffed _ (λ q. IsStaffed-exec (add_prop e q) (λ db. refl)) (p ∷ ps))

event-IsStaffed : (ev : Event) → Keeps IsStaffed (insert_event ev)
unfolding insert_event add_event
event-IsStaffed ev = Keeps-bind IsStaffed _ _ (Keeps-query IsStaffed _) (λ found.
    Keeps-bind IsStaffed _ _ (stitch-IsStaffed ev found) (λ sid.
      Keeps-bind IsStaffed _ _ (Keeps-insert IsStaffed _ (λ db. same_admins db _ refl))
        (λ eid. props-IsStaffed eid ev.props)))

pub flush-IsStaffed : (batch : List Event) → Keeps IsStaffed (flush batch)
unfolding flush
flush-IsStaffed batch =
    Keeps-transaction IsStaffed _ (Keeps-for_each IsStaffed insert_event event-IsStaffed batch)

retain-IsStaffed : (now days : ℕ) → Keeps IsStaffed (retain now days)
unfolding retain prune_props prune_events prune_sessions
retain-IsStaffed now zero = Keeps-pure IsStaffed tt
retain-IsStaffed now (suc days) = Keeps-bind IsStaffed _ _ (IsStaffed-exec _ (λ db. refl)) (λ _.
    Keeps-bind IsStaffed _ _ (IsStaffed-exec _ (λ db. refl)) (λ _. IsStaffed-exec _ (λ db. refl)))

stats-IsStaffed : (hour from_ms : ℕ) → Keeps IsStaffed (recompute_stats hour from_ms)
unfolding recompute_stats
stats-IsStaffed hour from_ms = Keeps-bind IsStaffed _ _ (IsStaffed-exec _ (λ db. refl)) (λ _.
    Keeps-bind IsStaffed _ _ (IsStaffed-exec _ (λ db. refl)) (λ _. IsStaffed-exec _ (λ db. refl)))

insert_dims-IsStaffed : (select : Db → List _) → Keeps IsStaffed (insert_dims select)
unfolding insert_dims
insert_dims-IsStaffed select = IsStaffed-exec _ (λ db. refl)

dims-IsStaffed : (day from_ms : ℕ) → Keeps IsStaffed (recompute_dims day from_ms)
unfolding recompute_dims
dims-IsStaffed day from_ms = Keeps-bind IsStaffed _ _ (IsStaffed-exec _ (λ db. refl)) (λ _.
    Keeps-bind IsStaffed (for_each (λ d. insert_dims (dim_rows from_ms d)) event_dims) _
      (Keeps-for_each IsStaffed _ (λ d. insert_dims-IsStaffed (dim_rows from_ms d)) event_dims)
      (λ _. Keeps-bind IsStaffed _ _ (insert_dims-IsStaffed _) (λ _.
        Keeps-for_each IsStaffed insert_dims insert_dims-IsStaffed
          (entry_rows from_ms ∷ exit_rows from_ms ∷ []))))

pub recompute-IsStaffed : (w : Worker) (now : ℕ) → Keeps IsStaffed (recompute w now)
unfolding recompute recompute_body
recompute-IsStaffed w now = Keeps-transaction IsStaffed _ (
    Keeps-bind IsStaffed _ _ (stats-IsStaffed _ _) (λ _.
      Keeps-bind IsStaffed _ _ (dims-IsStaffed _ _) (λ _. retain-IsStaffed now w.retention_days)))
