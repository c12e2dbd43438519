-- ===== src/Program/Serving.antt =====
-- What a run of cmd/glimt/main.go serves with.
use glimt.Base.{◌≤◌, Bool, true, false, Option, none, some, List, ◌≡◌, refl, length, Bytes, subst}
use glimt.Store.Sql.{World, Result, ok, err}
use glimt.Store.Ensures.{Ensures, Ensures-bind, Ensures-query, Ensures-pure}
use glimt.Config.{Config, load_config}
use glimt.Geo.{Geo, open_geo}
use glimt.Sites.{Registry, new_registry, reload}
use glimt.Auth.Admins.{IsStaffed}
use glimt.Auth.Staffed.{IsDistinct, ensure_admin-first}
use glimt.Ingest.Visitor.{SaltManager, new_manager}
use glimt.Ingest.Collector.{Server}
use glimt.Ingest.Loop.{start}
use glimt.Dashboard.Templates.{parse_templates}
use glimt.Store.Open.{open_store}
use glimt.Web.{App, Pick, world_of}
use glimt.Web.Open.{IsLoose, ensure-Keeps}
use glimt.Program.Running.{Reach, Reach-IsStaffed}
use glimt.Rollup.{Worker}
use glimt.Program.{
  Served, worker_of, Trace, Env, pool, start_sites, run_parsed, run_started, run_salted,
  run_located, run_opened, run_loaded, run,
}

IsDistinct-IsLoose : IsLoose IsDistinct
unfolding IsDistinct
IsDistinct-IsLoose = record { sessions = λ db rows d. d; salts = λ db rows d. d }

start_sites-IsStaffed :
    (env : Env) (cfg : Config) → Ensures IsDistinct (start_sites env cfg) (λ reg. IsStaffed)
unfolding start_sites new_registry reload
start_sites-IsStaffed env cfg =
    Ensures-bind IsDistinct (λ reg. IsDistinct) (λ reg. IsStaffed) _ _
      (Ensures-query IsDistinct (λ reg. IsDistinct) _ (λ db d. d))
      (λ reg.
        Ensures-bind IsDistinct (λ _. IsStaffed) (λ reg. IsStaffed) _ _
          (ensure_admin-first env.crypto env.password_salt cfg.admin_user cfg.admin_pass)
          (λ _. Ensures-pure IsStaffed (λ reg. IsStaffed) reg (λ db s. s)))

-- What is served, if anything is, has an admin.
Serves : Option Served → Type 0
Serves o = (x : Served) → o ≡ some x → IsStaffed (world_of x.state).db

parsed-Serves :
    (env : Env) (s : Served) (pages : Option (List Bytes))
    → IsStaffed (world_of s.state).db
    → Serves (run_parsed env s pages).1
unfolding run_parsed Serves
parsed-Serves env s none p x h = cc
parsed-Serves env s (some pages) p x h =
    let e : s ≡ x = cc in subst (λ (y : Served). IsStaffed (world_of y.state).db) e p

started-Serves :
    (env : Env) (app : App) (rollups : Worker) (salt : SaltManager) (r : Result Registry)
    (w : World)
    → ((reg : Registry) → r ≡ ok reg → IsStaffed w.db)
    → Serves (run_started env app rollups salt r w).1
unfolding run_started start
started-Serves env app rollups salt (err e) w p = unfold Serves in λ x h. cc
started-Serves env app rollups salt (ok reg) w p =
    parsed-Serves env _ (parse_templates env.parses) (p reg refl)

salted-Serves :
    (env : Env) (cfg : Config) (app : App) (r : Result SaltManager) (w : World)
    → IsDistinct w.db
    → Serves (run_salted env cfg app r w).1
unfolding run_salted
salted-Serves env cfg app (err e) w d = unfold Serves in λ x h. cc
salted-Serves env cfg app (ok salt) w d =
    let (r, w') = start_sites env cfg w in
    started-Serves env app (worker_of cfg) salt r w'
      (λ reg e. (start_sites-IsStaffed env cfg).at w reg d e)

located-Serves :
    (env : Env) (cfg : Config) (geo : Option Geo)
    → IsDistinct env.world.db
    → Serves (run_located env cfg geo).1
unfolding run_located
located-Serves env cfg none d = unfold Serves in λ x h. cc
located-Serves env cfg (some none) d =
    let kept = (ensure-Keeps IsDistinct IsDistinct-IsLoose env.now_ms env.fresh new_manager).at in
    salted-Serves env cfg _ _ _ (kept env.world d)
located-Serves env cfg (some (some reader)) d =
    let kept = (ensure-Keeps IsDistinct IsDistinct-IsLoose env.now_ms env.fresh new_manager).at in
    salted-Serves env cfg _ _ _ (kept env.world d)

opened-Serves :
    (env : Env) (cfg : Config) (opening : Trace × Bool)
    → IsDistinct env.world.db
    → Serves (run_opened env cfg opening).1
unfolding run_opened
opened-Serves env cfg (opening, false) d = unfold Serves in λ x h. cc
opened-Serves env cfg (opening, true) d =
    located-Serves env cfg (open_geo env.open_reader cfg.geo_db_path) d

loaded-Serves :
    (env : Env) (c : Option Config) → IsDistinct env.world.db → Serves (run_loaded env c).1
unfolding run_loaded
loaded-Serves env none d = unfold Serves in λ x h. cc
loaded-Serves env (some cfg) d =
    opened-Serves env cfg (open_store pool env.opens env.migrated cfg.db_path) d

-- Where no two admins in the opened database have one id: whatever the program comes to serve with, it
-- has an admin then and after whatever requests, each from start to end, steps of the writer and passes
-- of the worker follow, in any order, whatever routes chi picks and whatever statements fail.
pub run-IsStaffed :
    (env : Env) (pick : Pick) (s : Served) (t : Server)
    → IsDistinct env.world.db
    → (run env).1 ≡ some s
    → Reach s.app s.rollups pick s.state t
    → 1 ≤ length (world_of t).db.admins
unfolding run Serves
run-IsStaffed env pick s t d served reached =
    (Reach-IsStaffed reached (loaded-Serves env (load_config env.system) d s served)).some_admin
