-- ===== src/Tests/Program.antt =====
-- cmd/glimt/main.go: the first start on an empty database, a request and a signal.
use glimt.Base.{◌≡◌, ◌≤◌, refl, true, none, some, [], codes, same, is_empty, length, if◌then◌else◌}
use glimt.Store.Tables.{empty_db}
use glimt.Store.Sql.{World, sound, query, exec, ignore, insert_checked}
use glimt.Store.Open.{open_store}
use glimt.Geo.{open_geo}
use glimt.Dashboard.Templates.{parse_templates, parse_pages}
use glimt.Config.{
  System, Config, load_config, finish_load, file_config, defaults, derived, with_env,
}
use glimt.Sites.{new_registry, registry_of, reload, add_rows, order_by_name}
use glimt.Auth.{
  ensure_admin, ensure_counted, insert_hashed, insert_admin, find_admin, hash_password, format_hash,
}
use glimt.Ingest.Visitor.{
  new_manager, ensure, load, renew, is_current, lookup_salt, insert_or_ignore, delete_old,
}
use glimt.Ingest.Loop.{start}
use glimt.Ingest.Collector.{Server}
use glimt.Web.{Pick, world_of, serve_call}
use glimt.Program.{
  Env, Served, worker_of, signalled, app_of, run, run_loaded, run_opened, run_located, run_salted,
  run_started, run_parsed, start_sites,
}
use glimt.Program.Running.{here, next, requests}
use glimt.Program.Shutdown.{IsTidy, run-IsTidy}
use glimt.Program.Serving.{run-IsStaffed}
use glimt.Tests.Auth.{none_twice, key_of}
use glimt.Tests.Config.{system}
use glimt.Tests.Web.{app, call}

-- The name and the password of the first admin are set.
abbrev with_admin : System
with_admin = record system {
  getenv = λ k.
      if same k (codes "GLIMT_ADMIN_USER")
      then codes "root"
      else if same k (codes "GLIMT_ADMIN_PASS")
      then codes "pw"
      else [];
}

abbrev env : Env
env = record {
  system = with_admin;
  opens = λ dsn. true;
  migrated = true;
  world = sound empty_db;
  open_reader = λ path. none;
  now_ms = 172800005;
  fresh = some (codes "salt");
  password_salt = some (codes "zz");
  crypto = app.crypto;
  external = app.external;
  split_host = app.settings.split_host;
  unmarshal = app.settings.unmarshal;
  snippet = app.snippet;
  parses = λ page. true;
  numbers = app.handlers.numbers;
  dates = app.handlers.dates;
  json = app.handlers.json;
  hash_key = app.hash_key;
  itoa = app.itoa;
  ending = signalled true;
}

run-IsTidy_example : IsTidy env.ending (run env)
run-IsTidy_example = run-IsTidy env

abbrev config : Config
config = derived with_admin (with_env with_admin defaults)

abbrev salted : World
salted = (ensure env.now_ms env.fresh new_manager env.world).1

abbrev state : Server
state = record {
  registry = registry_of [];
  ingestor = start (ensure_admin env.crypto env.password_salt (codes "root") (codes "pw") salted).1;
  salt = record { day = some 2; salt = some (codes "salt") };
}

abbrev served : Served
served = record { app = app_of env config none; rollups = worker_of config; state = state }

serves : (run env).1 ≡ some served
unfolding run run_loaded run_opened run_located run_salted run_started run_parsed start_sites
    load_config finish_load file_config open_store open_geo parse_templates parse_pages ensure load
    renew is_current lookup_salt insert_or_ignore delete_old query exec ignore new_registry reload
    registry_of add_rows order_by_name ensure_admin ensure_counted insert_hashed insert_admin
    insert_checked find_admin hash_password format_hash key_of is_empty same
serves = refl

-- The route that deletes a user.
abbrev deletes_user : Pick
deletes_user routes method path = some (20, [])

run-IsStaffed_example :
    1 ≤ length (world_of (serve_call served.app deletes_user call state).1).db.admins
unfolding start
run-IsStaffed_example =
    run-IsStaffed env deletes_user served (serve_call served.app deletes_user call state).1
      none_twice serves (next here (requests call refl))
