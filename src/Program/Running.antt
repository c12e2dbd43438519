-- ===== src/Program/Running.antt =====
-- The program while it serves: the requests of internal/web/web.go, the writer of
-- internal/ingest/writer.go and the worker of internal/rollup/rollup.go, one step at a time.
use glimt.Base.{
  false, ℕ, Bool, Option, none, some, List, [], ◌∷◌, ◌++◌, ◌⊎◌, ◌≡◌, refl, Bytes, length, leb,
  Bool-cases, Option-cases, inl, inr,
}
use glimt.Model.{Event}
use glimt.Auth.{Passage, redirect_to_login, proceed, require_session}
use glimt.Auth.Admins.{IsStaffed}
use glimt.Ingest.Writer.{batch_size}
use glimt.Ingest.Loop.{
  Ingestor, flush_batch, on_event, on_tick, on_closed, send, receive, tick, close, finish,
}
use glimt.Ingest.Loop
use glimt.Ingest.Collector.{Server}
use glimt.Rollup.{Worker, recompute}
use glimt.Dashboard.Settings.{settings}
use glimt.Dashboard.Handlers.Reading.{
  show_index-Keeps, show_realtime-Keeps, export-Keeps, share-Keeps, render_settings-Keeps,
}
use glimt.Dashboard.Admin.Staffed.{
  same_admins, site_create-Keeps, site_delete-Keeps, site_regen-Keeps, site_public-Keeps,
  user_create-Keeps, user_delete-Keeps, funnel_create-Keeps, funnel_delete-Keeps,
}
use glimt.Web.Open.{
  IsLoose, require_session-Keeps, handle-Keeps, handle_pixel-Keeps, log_in-Keeps, log_out-Keeps,
  enqueue-Keeps,
}
use glimt.Web.{
  App, Call, Endpoint, healthz, tracker_script, collect_event, answer_preflight, pixel, assets,
  public_share, login_form, login, logout, index, realtime_count, export_file, settings_page,
  create_site, delete_site, regen_site, publish_site, create_user, delete_user, create_funnel,
  delete_funnel, Route, routes, route_at, Pick, world_of, with_world, run_endpoint, run_gated,
  run_route, serve_call, on_world, on_state,
}
use glimt.Program.Background.{flush-IsStaffed, recompute-IsStaffed}

IsStaffed-IsLoose : IsLoose IsStaffed
IsStaffed-IsLoose = record {
  sessions = λ db rows. same_admins db _ refl;
  salts = λ db rows. same_admins db _ refl;
}

Passage-cases : (p : Passage) → (p ≡ redirect_to_login) ⊎ (p ≡ proceed)
Passage-cases redirect_to_login = inl refl
Passage-cases proceed = inr refl

-- Every handler, also behind the gate.
module _ (app : App) (c : Call) (tok : Bytes) where
  endpoint-IsStaffed :
      (e : Endpoint) (s : Server)
      → IsStaffed (world_of s).db
      → IsStaffed (world_of (run_endpoint app c tok e s).1).db
  unfolding run_endpoint on_world on_state settings
  endpoint-IsStaffed healthz s p = p
  endpoint-IsStaffed tracker_script s p = p
  endpoint-IsStaffed collect_event s p =
      handle-Keeps IsStaffed IsStaffed-IsLoose app.external app.settings c.moment
        (record c.request { token = tok }) s p
  endpoint-IsStaffed answer_preflight s p = p
  endpoint-IsStaffed pixel s p =
      handle_pixel-Keeps IsStaffed IsStaffed-IsLoose app.external app.settings c.moment
        (record c.request { token = tok }) s p
  endpoint-IsStaffed assets s p = p
  endpoint-IsStaffed public_share s p =
      share-Keeps IsStaffed app.handlers c.now_ms c.later_ms c.params (world_of s) p tok s.registry
  endpoint-IsStaffed login_form s p = p
  endpoint-IsStaffed login s p =
      log_in-Keeps IsStaffed IsStaffed-IsLoose app.crypto app.auth c.now_ns c.random c.form
        (world_of s) p
  endpoint-IsStaffed logout s p =
      log_out-Keeps IsStaffed IsStaffed-IsLoose app.auth c.cookie (world_of s) p
  endpoint-IsStaffed index s p =
      show_index-Keeps IsStaffed app.handlers c.now_ms c.later_ms c.params (world_of s) p s.registry
  endpoint-IsStaffed realtime_count s p =
      show_realtime-Keeps IsStaffed app.handlers c.now_ms c.later_ms c.params (world_of s) p
        s.registry
  endpoint-IsStaffed export_file s p =
      export-Keeps IsStaffed app.handlers c.now_ms c.later_ms c.params (world_of s) p s.registry
  endpoint-IsStaffed settings_page s p =
      render_settings-Keeps IsStaffed app.handlers c.host [] s.registry (world_of s) p
  endpoint-IsStaffed create_site s p =
      site_create-Keeps app.handlers c.form _ p app.hash_key c.now_ms c.drawn c.host
  endpoint-IsStaffed delete_site s p = site_delete-Keeps app.handlers c.form _ p
  endpoint-IsStaffed regen_site s p =
      site_regen-Keeps app.handlers c.form _ p c.script_token c.collect_token
  endpoint-IsStaffed publish_site s p = site_public-Keeps app.handlers c.form _ p c.share_token
  endpoint-IsStaffed create_user s p =
      user_create-Keeps app.handlers c.form (world_of s) p app.crypto c.password_salt
  endpoint-IsStaffed delete_user s p = user_delete-Keeps app.handlers c.form (world_of s) p
  endpoint-IsStaffed create_funnel s p =
      funnel_create-Keeps app.handlers c.form (world_of s) p app.itoa c.now_ms
  endpoint-IsStaffed delete_funnel s p = funnel_delete-Keeps app.handlers c.form (world_of s) p

  gated-IsStaffed :
      (e : Endpoint) (s : Server)
      → IsStaffed (world_of s).db
      → IsStaffed (world_of (run_gated app c tok e s).1).db
  unfolding run_gated
  gated-IsStaffed e s p =
      let kept =
        require_session-Keeps IsStaffed IsStaffed-IsLoose c.now_ns c.cookie (world_of s) p in
      elim (Passage-cases (require_session c.now_ns c.cookie (world_of s)).0) [
        | inl q ↦ rw (run_gated, q) kept
        | inr q ↦ rw (run_gated, q) (endpoint-IsStaffed e (with_world s _) kept)
      ]

  route-IsStaffed :
      (r : Option Route) (s : Server)
      → IsStaffed (world_of s).db
      → IsStaffed (world_of (run_route app c tok r s).1).db
  unfolding run_route
  route-IsStaffed none s p = p
  route-IsStaffed (some r) s p = elim (Bool-cases r.gated) [
    | inl e ↦ rw (run_route, e) (gated-IsStaffed r.endpoint s p)
    | inr e ↦ rw (run_route, e) (endpoint-IsStaffed r.endpoint s p)
  ]

call-IsStaffed :
    (app : App) (pick : Pick) (c : Call) (s : Server)
    → IsStaffed (world_of s).db
    → IsStaffed (world_of (serve_call app pick c s).1).db
unfolding serve_call
call-IsStaffed app pick c s p = elim (Option-cases (pick routes c.method c.path)) [
  | inl e ↦ rw (serve_call, e) p
  | inr ((n, tok), e) ↦ rw (serve_call, e) (route-IsStaffed app c tok (route_at n routes) s p)
]

flush_batch-IsStaffed :
    (batch : List Event) (s : Ingestor)
    → IsStaffed s.world.db
    → IsStaffed (flush_batch batch s).world.db
unfolding flush_batch
flush_batch-IsStaffed [] s p = p
flush_batch-IsStaffed (ev ∷ batch) s p = (flush-IsStaffed (ev ∷ batch)).at s.world p

on_event-IsStaffed :
    (ev : Event) (s : Ingestor) → IsStaffed s.world.db → IsStaffed (on_event ev s).world.db
unfolding on_event
on_event-IsStaffed ev s p =
    let batch = s.batch ++ ev ∷ [] in
    elim (Bool-cases (leb batch_size (length batch))) [
      | inl e ↦ rw e (flush_batch-IsStaffed batch (record s { batch = batch }) p)
      | inr e ↦ rw e p
    ]

writer-IsStaffed : {s t : Ingestor} → Loop.Step s t → IsStaffed s.world.db → IsStaffed t.world.db
writer-IsStaffed {s} (send ev c) p = enqueue-Keeps IsStaffed IsStaffed-IsLoose ev s p
writer-IsStaffed {s} (receive ev rest r e) p = on_event-IsStaffed ev (record s { ch = rest }) p
writer-IsStaffed {s} (tick r) p = unfold on_tick in flush_batch-IsStaffed s.batch s p
writer-IsStaffed (close c) p = p
writer-IsStaffed {s} (finish r c e) p = unfold on_closed in flush_batch-IsStaffed s.batch s p

-- A request, a step of the writer or a pass of the worker; which statements fail may change. Requests
-- come until in.Stop closes the channel.
pub data Step (app : App) (rollups : Worker) (pick : Pick) (s : Server) : Server → Type 0 where
  requests :
      (c : Call) → s.ingestor.closed ≡ false → Step app rollups pick s (serve_call app pick c s).1
  writes :
      {t : Ingestor} → Loop.Step s.ingestor t → Step app rollups pick s (record s { ingestor = t })
  recomputes :
      (now : ℕ)
      → Step app rollups pick s (with_world s (glimt.Rollup.tick rollups now (world_of s)))
  faulty :
      (faults : List Bool)
      → Step app rollups pick s (with_world s (record (world_of s) { faults = faults }))

pub data Reach (app : App) (rollups : Worker) (pick : Pick) (s : Server) : Server → Type 0 where
  here : Reach app rollups pick s s
  next :
      {t u : Server}
      → Reach app rollups pick s t
      → Step app rollups pick t u
      → Reach app rollups pick s u

Step-IsStaffed :
    {app : App} {rollups : Worker} {pick : Pick} {s t : Server}
    → Step app rollups pick s t
    → IsStaffed (world_of s).db
    → IsStaffed (world_of t).db
Step-IsStaffed {app} {rollups} {pick} {s} (requests c open_still) p = call-IsStaffed app pick c s p
Step-IsStaffed (writes st) p = writer-IsStaffed st p
Step-IsStaffed {app} {rollups} {pick} {s} (recomputes now) p =
    unfold glimt.Rollup.tick in (recompute-IsStaffed rollups now).at (world_of s) p
Step-IsStaffed (faulty faults) p = p

pub Reach-IsStaffed :
    {app : App} {rollups : Worker} {pick : Pick} {s t : Server}
    → Reach app rollups pick s t
    → IsStaffed (world_of s).db
    → IsStaffed (world_of t).db
Reach-IsStaffed here p = p
Reach-IsStaffed (next r st) p = Step-IsStaffed st (Reach-IsStaffed r p)
