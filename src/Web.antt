-- ===== src/Web.antt =====
-- internal/web/web.go: the routes, the gate before the dashboard, and the handlers behind them.
--
-- chi, which the repository only calls, is the argument `pick`: of the registered routes it picks one
-- by its place in the table, with the token of the path, or none (404 or 405). A request is handled
-- from start to end before the next. The pages' HTML and the embedded assets are left out.
pub mod Open
pub mod Gate
pub mod Shown
use Prim.Native.String.{String}
use glimt.Base.{
  ℕ, zero, suc, Bool, true, false, Option, none, some, List, [], ◌∷◌, ◌++◌, map, Bytes, codes,
}
use glimt.Base.Int.{ℤ}
use glimt.Store.Sql.{World}
use glimt.Sites.{Registry, Drawn}
use glimt.Auth.{Auth, Crypto, Cookie, Passage, redirect_to_login, proceed, require_session}
use glimt.Ingest.Enrich.{External}
use glimt.Ingest.Collector.{
  Request, Response, Settings, Server, Moment, preflight, handle, handle_pixel,
}
use glimt.Tracker.{Handler, serve}
use glimt.Dashboard.Page.{Handlers, Params}
use glimt.Dashboard.Handlers.{Page, show_index, show_realtime, share, export}
use glimt.Dashboard.Settings.{SettingsView, settings}
use glimt.Dashboard.Admin.{
  Form, Reply, State, site_create, site_delete, site_regen, site_public, user_create, user_delete,
  funnel_create, funnel_delete, log_in, log_out,
}

-- What is behind a route.
pub data Endpoint : Type 0 where
  healthz tracker_script collect_event answer_preflight pixel assets public_share : Endpoint
  login_form login logout : Endpoint
  index realtime_count export_file settings_page : Endpoint
  create_site delete_site regen_site publish_site : Endpoint
  create_user delete_user create_funnel delete_funnel : Endpoint

-- `any` is Handle.
pub data Method : Type 0 where
  get post options any : Method

pub record Route : Type 0 where
  pub method : Method
  pub pattern : Bytes
  pub gated : Bool
  pub endpoint : Endpoint

abbrev open_to : Method → String → Endpoint → Route
open_to m pattern e = record { method = m; pattern = codes pattern; gated = false; endpoint = e }

-- pr.Use(a.Require)
abbrev gate : Route → Route
gate r = record r { gated = true }

abbrev pub routes : List Route
routes =
    open_to get "/healthz" healthz
    ∷ open_to get "/s/{token}.js" tracker_script
    ∷ open_to post "/e/{token}" collect_event
    ∷ open_to options "/e/{token}" answer_preflight
    ∷ open_to get "/pixel/{token}.gif" pixel
    ∷ open_to get "/pixel/{token}" pixel
    ∷ open_to any "/assets/*" assets
    ∷ open_to get "/p/{token}" public_share
    ∷ open_to get "/login" login_form
    ∷ open_to post "/login" login
    ∷ open_to get "/logout" logout
    ∷ gate (open_to get "/" index)
    ∷ gate (open_to get "/app/realtime" realtime_count)
    ∷ gate (open_to get "/app/export" export_file)
    ∷ gate (open_to get "/settings" settings_page)
    ∷ gate (open_to post "/settings/sites/create" create_site)
    ∷ gate (open_to post "/settings/sites/delete" delete_site)
    ∷ gate (open_to post "/settings/sites/regen" regen_site)
    ∷ gate (open_to post "/settings/sites/public" publish_site)
    ∷ gate (open_to post "/settings/users/create" create_user)
    ∷ gate (open_to post "/settings/users/delete" delete_user)
    ∷ gate (open_to post "/app/funnels/create" create_funnel)
    ∷ gate (open_to post "/app/funnels/delete" delete_funnel)
    ∷ []

-- What Router is given, with what the handlers call.
pub record App : Type 0 where
  pub external : External
  pub settings : Settings
  pub tracker : Handler
  pub snippet : Bytes
  pub handlers : Handlers
  pub auth : Auth
  pub crypto : Crypto
  pub hash_key : Bytes → Bytes
  pub itoa : ℤ → Bytes

-- What one request brings, with the clocks and the random texts that its handler reads.
pub record Call : Type 0 where
  pub method : Bytes
  pub path : Bytes
  pub request : Request
  pub host : Bytes
  pub cookie : Option Bytes
  pub params : Params
  pub form : Form
  pub moment : Moment
  pub now_ns : ℕ
  pub now_ms : ℕ
  pub later_ms : ℕ
  pub random : Option Bytes  -- a session's token
  pub password_salt : Option Bytes
  pub drawn : Drawn
  pub script_token : Bytes
  pub collect_token : Bytes
  pub share_token : Bytes

pub data Answer : Type 0 where
  unmatched to_login asset login_page : Answer
  plain : Response → Answer
  script : Option Bytes → Answer  -- none is 404
  page : Page → Answer
  settings_shown : SettingsView → Answer
  reply : Reply → Answer
  signed_in : Reply → Option Cookie → Answer
  signed_out : Reply → Cookie → Answer

abbrev pub world_of : Server → World
world_of s = s.ingestor.world

abbrev pub with_world : Server → World → Server
with_world s w = record s { ingestor = record s.ingestor { world = w } }

-- A handler that uses the database, in the server.
module _ {A : Type 0} where
  unfoldable pub on_world : (A → Answer) → (World → A × World) → Server → Answer × Server
  on_world answer run s = let (a, w) = run (world_of s) in (answer a, with_world s w)

-- A handler that may put a new registry in use.
unfoldable pub on_state : (State → Reply × State) → Server → Answer × Server
on_state run s =
    let (r, t) = run (record { registry = s.registry; world = world_of s }) in
    (reply r, record (with_world s t.world) { registry = t.registry })

abbrev pub healthy : Response
healthy = record { status = 200; headers = []; body = codes "ok" }

-- The handler of a route; `tok` is the token in the path.
unfoldable pub run_endpoint : App → Call → Bytes → Endpoint → Server → Answer × Server
unfolding on_world on_state
run_endpoint app c tok healthz s = (plain healthy, s)
run_endpoint app c tok tracker_script s =
    (script (serve app.snippet app.tracker c.host s.registry tok), s)
run_endpoint app c tok collect_event s =
    let (r, s') = handle app.external app.settings c.moment (record c.request { token = tok }) s in
    (plain r, s')
run_endpoint app c tok answer_preflight s = (plain preflight, s)
run_endpoint app c tok pixel s =
    let (r, s') =
      handle_pixel app.external app.settings c.moment (record c.request { token = tok }) s in
    (plain r, s')
run_endpoint app c tok assets s = (asset, s)
run_endpoint app c tok public_share s =
    on_world page (share app.handlers c.now_ms c.later_ms c.params tok s.registry) s
run_endpoint app c tok login_form s = (login_page, s)
run_endpoint app c tok login s =
    let (r, cookie, w) = log_in app.crypto app.auth c.now_ns c.random c.form (world_of s) in
    (signed_in r cookie, with_world s w)
run_endpoint app c tok logout s =
    let (r, cookie, w) = log_out app.auth c.cookie (world_of s) in
    (signed_out r cookie, with_world s w)
run_endpoint app c tok index s =
    on_world page (show_index app.handlers c.now_ms c.later_ms c.params s.registry) s
run_endpoint app c tok realtime_count s =
    on_world page (show_realtime app.handlers c.now_ms c.params s.registry) s
run_endpoint app c tok export_file s =
    on_world page (export app.handlers c.now_ms c.params s.registry) s
run_endpoint app c tok settings_page s =
    on_world settings_shown (settings app.handlers c.host s.registry) s
run_endpoint app c tok create_site s =
    on_state (site_create app.handlers app.hash_key c.now_ms c.drawn c.host c.form) s
run_endpoint app c tok delete_site s = on_state (site_delete app.handlers c.form) s
run_endpoint app c tok regen_site s =
    on_state (site_regen app.handlers c.form c.script_token c.collect_token) s
run_endpoint app c tok publish_site s = on_state (site_public app.handlers c.form c.share_token) s
run_endpoint app c tok create_user s =
    on_world reply (user_create app.crypto c.password_salt c.form) s
run_endpoint app c tok delete_user s = on_world reply (user_delete app.handlers c.form) s
run_endpoint app c tok create_funnel s =
    on_world reply (funnel_create app.handlers app.itoa c.now_ms c.form) s
run_endpoint app c tok delete_funnel s = on_world reply (funnel_delete app.handlers c.form) s

-- Require: the handler behind the gate, for a request whose session is good.
unfoldable pub run_gated : App → Call → Bytes → Endpoint → Server → Answer × Server
run_gated app c tok e s =
    let (passage, w) = require_session c.now_ns c.cookie (world_of s) in
    let passed = run_endpoint app c tok e (with_world s w) in
    elim passage [ redirect_to_login ↦ (to_login, with_world s w) | proceed ↦ passed ]

unfoldable pub run_route : App → Call → Bytes → Option Route → Server → Answer × Server
unfolding run_endpoint run_gated
run_route app c tok none s = (unmatched, s)
run_route app c tok (some r) s = elim r.gated [
  | true ↦ run_gated app c tok r.endpoint s
  | false ↦ run_endpoint app c tok r.endpoint s
]

unfoldable pub route_at : ℕ → List Route → Option Route
route_at n [] = none
route_at zero (r ∷ rs) = some r
route_at (suc n) (r ∷ rs) = route_at n rs

abbrev pub Pick : Type 0
Pick = List Route → Bytes → Bytes → Option (ℕ × Bytes)

unfoldable pub serve_call : App → Pick → Call → Server → Answer × Server
unfolding run_route route_at
serve_call app pick c s = elim (pick routes c.method c.path) [
  | none ↦ (unmatched, s)
  | some (n, tok) ↦ run_route app c tok (route_at n routes) s
]
