-- ===== src/Program.antt =====
-- cmd/glimt/main.go: how the program starts, serves and stops.
--
-- A run is what it opens and closes, in order, with what it serves. The writer's loop is closed by
-- in.Stop, which waits for it, and the worker by the cancelled context. The server is open as long as
-- its handlers may be at work: only a Shutdown that comes to its end closes it. The log is left out.
-- A session_ttl below zero is taken as zero.
pub mod Background
pub mod Running
pub mod Shutdown
pub mod Serving
use glimt.Base.{
  ℕ, Bool, true, false, ◌||◌, Option, none, some, List, [], ◌∷◌, ◌++◌, Bytes, codes, has_prefix,
  trim_right, Unicode, if◌then◌else◌,
}
use glimt.Base.Int.{ℤ, pos, negsuc}
use glimt.Store.Sql.{Sql, World, Result, ok, err, pure, ◌>>=◌, ◌>>◌}
use glimt.Store.Open.{Action, opened, closed, Pool, open_store, close_store}
use glimt.Config.{Config, System, load_config}
use glimt.Geo.{Geo, Record, open_geo, enabled}
use glimt.Sites.{Registry, new_registry}
use glimt.Auth.{Auth, Crypto, ensure_admin}
use glimt.Ingest.Visitor.{SaltManager, new_manager, ensure}
use glimt.Ingest.Enrich.{Payload, External}
use glimt.Ingest.Loop.{start}
use glimt.Ingest.Collector.{Settings, Server}
use glimt.Tracker.{new_handler}
use glimt.Rollup.{Worker}
use glimt.Query.Funnel.{Json}
use glimt.Dashboard.Range.{Dates}
use glimt.Dashboard.Page.{Numbers, Handlers}
use glimt.Dashboard.Templates.{parse_templates}
use glimt.Web.{App}

pub data Resource : Type 0 where
  pool : Pool → Resource
  geo_reader writer_loop worker server : Resource

abbrev pub Trace : Type 0
Trace = List (Action Resource)

-- How a run ends once it serves: ListenAndServe fails, or a signal comes. Shutdown then either waits
-- until every handler is done, or is ended by its context after ten seconds; run ignores which.
pub data Ending : Type 0 where
  crashed : Ending
  signalled : Bool → Ending

-- Whether Shutdown is called and comes to its end.
unfoldable pub in_time : Ending → Bool
in_time crashed = false
in_time (signalled finished) = finished

-- What the program finds, and what it calls of other code.
pub record Env : Type 0 where
  pub system : System
  pub opens : Bytes → Bool
  pub migrated : Bool
  pub world : World  -- after migrate
  pub open_reader : Bytes → Option (Bytes → Option Record)
  pub now_ms : ℕ
  pub fresh : Option Bytes
  pub password_salt : Option Bytes
  pub crypto : Crypto
  pub external : External  -- its geo is the one that is opened
  pub split_host : Bytes → Option Bytes
  pub unmarshal : Bytes → Option Payload
  pub snippet : Bytes
  pub parses : Bytes → Bool  -- whether a page's template parses
  pub numbers : Numbers
  pub dates : Dates
  pub json : Json
  pub hash_key : Bytes → Bytes
  pub itoa : ℤ → Bytes
  pub ending : Ending

abbrev pub nonnegative : ℤ → ℕ
nonnegative (pos n) = n
nonnegative (negsuc n) = 0

-- What the Router is made of.
unfoldable pub app_of : Env → Config → Geo → App
app_of env cfg geo = record {
  external = record env.external { geo = geo };
  settings = record {
    real_ip_header = cfg.real_ip_header;
    trusted_nets = cfg.trusted_proxy_nets;
    cf_country = cfg.cf_country;
    split_host = env.split_host;
    unmarshal = env.unmarshal;
  };
  tracker = new_handler cfg.js_global cfg.base_url;
  snippet = env.snippet;
  handlers = record {
    geo_enabled = enabled geo || cfg.cf_country;
    base_url = trim_right b'/' cfg.base_url;
    numbers = env.numbers;
    dates = env.dates;
    json = env.json;
    unicode = env.external.unicode;
  };
  auth = record {
    ttl = nonnegative cfg.session_ttl;
    secure = has_prefix cfg.base_url (codes "https://");
  };
  crypto = env.crypto;
  hash_key = env.hash_key;
  itoa = env.itoa;
}

unfoldable pub worker_of : Config → Worker
worker_of cfg = record { retention_days = nonnegative cfg.retention_days }

-- The select at the end of run, and what follows it.
unfoldable pub serve_until : Ending → Trace
serve_until crashed = opened worker ∷ opened server ∷ closed worker ∷ closed writer_loop ∷ []
serve_until (signalled true) =
    opened worker ∷ opened server ∷ closed server ∷ closed writer_loop ∷ closed worker ∷ []
serve_until (signalled false) =
    opened worker ∷ opened server ∷ closed writer_loop ∷ closed worker ∷ []

-- What run leaves: the trace, and what it served with, if it came to serve.
pub record Served : Type 0 where
  pub app : App
  pub rollups : Worker
  pub state : Server

abbrev pub Run : Type 0
Run = Trace × Option Served

-- sites.New and EnsureAdmin
unfoldable pub start_sites : Env → Config → Sql Registry
start_sites env cfg = do
  reg ← new_registry
  ensure_admin env.crypto env.password_salt cfg.admin_user cfg.admin_pass
  pure reg

-- dashboard.New, and what follows it
unfoldable pub run_parsed : Env → Served → Option (List Bytes) → Run
unfolding serve_until
run_parsed env s none = ([], none)
run_parsed env s (some pages) = (serve_until env.ending, some s)

unfoldable pub run_started : Env → App → Worker → SaltManager → Result Registry → World → Run
unfolding run_parsed
run_started env app rollups salt (err e) w = ([], none)
run_started env app rollups salt (ok reg) w =
    run_parsed env
      (record {
        app = app;
        rollups = rollups;
        state = record { registry = reg; ingestor = start w; salt = salt };
      })
      (parse_templates env.parses)

-- After NewSaltManager; an error later on leaves the loop to the end of the process.
unfoldable pub run_salted : Env → Config → App → Result SaltManager → World → Run
unfolding run_started
run_salted env cfg app (err e) w = ([], none)
run_salted env cfg app (ok salt) w =
    let (r, w') = start_sites env cfg w in
    let (trace, served) = run_started env app (worker_of cfg) salt r w' in
    (opened writer_loop ∷ trace, served)

-- After geo.Open; g.Close is deferred.
unfoldable pub run_located : Env → Config → Option Geo → Run
unfolding run_salted
run_located env cfg none = ([], none)
run_located env cfg (some none) =
    let (r, w) = ensure env.now_ms env.fresh new_manager env.world in
    run_salted env cfg (app_of env cfg none) r w
run_located env cfg (some (some reader)) =
    let (r, w) = ensure env.now_ms env.fresh new_manager env.world in
    let (trace, served) = run_salted env cfg (app_of env cfg (some reader)) r w in
    (opened geo_reader ∷ trace ++ (closed geo_reader ∷ []), served)

-- After store.Open; db.Close is deferred.
unfoldable pub run_opened : Env → Config → Trace × Bool → Run
unfolding run_located
run_opened env cfg (opening, false) = (opening, none)
run_opened env cfg (opening, true) =
    let (trace, served) = run_located env cfg (open_geo env.open_reader cfg.geo_db_path) in
    (opening ++ trace ++ close_store pool, served)

unfoldable pub run_loaded : Env → Option Config → Run
unfolding run_opened
run_loaded env none = ([], none)
run_loaded env (some cfg) = run_opened env cfg (open_store pool env.opens env.migrated cfg.db_path)

unfoldable pub run : Env → Run
unfolding run_loaded
run env = run_loaded env (load_config env.system)
