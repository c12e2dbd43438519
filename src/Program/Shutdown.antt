-- ===== src/Program/Shutdown.antt =====
-- What a run of cmd/glimt/main.go has closed when it returns, and in which order.
use glimt.Base.{
  ℕ, Bool, true, false, not, ◌&&◌, ◌||◌, Option, none, some, List, [], ◌∷◌, ◌++◌, ◌≡◌, Bytes, arith,
  ◌==◌, if◌then◌else◌,
}
use glimt.Store.Sql.{World, Result, ok, err}
use glimt.Store.Open.{
  opened, closed, writer_pool, reader_pool, open_store, close_store, write_dsn, read_dsn,
}
use glimt.Config.{Config, load_config}
use glimt.Geo.{Geo, open_geo}
use glimt.Sites.{Registry}
use glimt.Ingest.Visitor.{SaltManager, new_manager, ensure}
use glimt.Dashboard.Templates.{parse_templates}
use glimt.Web.{App}
use glimt.Rollup.{Worker}
use glimt.Program.{
  Resource, pool, geo_reader, writer_loop, worker, server, Trace, Ending, crashed, signalled,
  in_time, Env, Run, Served, worker_of, app_of, serve_until, start_sites, run_parsed, run_started,
  run_salted, run_located, run_opened, run_loaded, run,
}

number_of : Resource → ℕ
number_of (pool writer_pool) = 0
number_of (pool reader_pool) = 1
number_of geo_reader = 2
number_of writer_loop = 3
number_of worker = 4
number_of server = 5

abbrev is : Resource → Resource → Bool
is a b = number_of a == number_of b

-- Whether `r` is open after the trace, if `o` is whether it was before.
unfoldable pub open_after : Resource → Bool → Trace → Bool
unfolding number_of
open_after r o [] = o
open_after r o (opened x ∷ t) = open_after r (o || is r x) t
open_after r o (closed x ∷ t) = open_after r (o && not (is r x)) t

-- Whether `first` is never closed while `second` is open; `o` is whether that is open before.
unfoldable pub closed_before : Resource → Resource → Bool → Trace → Bool
unfolding number_of
closed_before second first o [] = true
closed_before second first o (opened x ∷ t) = closed_before second first (o || is second x) t
closed_before second first o (closed x ∷ t) =
    not (o && is first x) && closed_before second first (o && not (is second x)) t

-- The loop of the writer has ended, before the pool that it writes to was closed, and the worker has
-- been told to end. What is known of the server's handlers is how the run ended.
pub record IsStopped (e : Ending) (t : Trace) : Type 0 where
  pub loop_closed : open_after writer_loop false t ≡ false
  pub loop_first : closed_before writer_loop (pool writer_pool) false t ≡ true
  pub worker_closed : open_after worker false t ≡ false
  pub server_open : open_after server false t ≡ not (in_time e)
  pub server_first : closed_before server writer_loop false t ≡ in_time e

-- Of a run that ends in the given way, where it comes to serve.
pub record IsTidy (e : Ending) (r : Run) : Type 0 where
  pub writer_closed : open_after (pool writer_pool) false r.0 ≡ false
  pub reader_closed : open_after (pool reader_pool) false r.0 ≡ false
  pub geo_closed : open_after geo_reader false r.0 ≡ false
  pub stopped : (x : Served) → r.1 ≡ some x → IsStopped e r.0

-- What runs between the opening and the closing of the database of places.
data Course (e : Ending) : Run → Type 0 where
  nothing : Course e ([], none)
  started : Course e (opened writer_loop ∷ [], none)
  served : (x : Served) → Course e (opened writer_loop ∷ serve_until e, some x)

parsed-Course :
    (env : Env) (s : Served) (pages : Option (List Bytes))
    → let o = run_parsed env s pages in Course env.ending (opened writer_loop ∷ o.0, o.1)
unfolding run_parsed
parsed-Course env s none = started
parsed-Course env s (some pages) = served s

started-Course :
    (env : Env) (app : App) (rollups : Worker) (salt : SaltManager) (r : Result Registry)
    (w : World)
    → let o = run_started env app rollups salt r w in
      Course env.ending (opened writer_loop ∷ o.0, o.1)
unfolding run_started
started-Course env app rollups salt (err e) w = started
started-Course env app rollups salt (ok reg) w = parsed-Course env _ (parse_templates env.parses)

salted-Course :
    (env : Env) (cfg : Config) (app : App) (r : Result SaltManager) (w : World)
    → Course env.ending (run_salted env cfg app r w)
unfolding run_salted
salted-Course env cfg app (err e) w = nothing
salted-Course env cfg app (ok salt) w =
    let (r, w') = start_sites env cfg w in started-Course env app (worker_of cfg) salt r w'

-- With the pools around it, and with the database of places or without.
abbrev around : Run → Run
around r = (opened (pool writer_pool) ∷ opened (pool reader_pool) ∷ (r.0 ++ close_store pool), r.1)

abbrev placed : Run → Run
placed r = (opened geo_reader ∷ r.0 ++ (closed geo_reader ∷ []), r.1)

around-IsTidy : (e : Ending) (r : Run) → Course e r → IsTidy e (around r)
unfolding close_store serve_until in_time open_after closed_before
around-IsTidy e r nothing = ground arith
around-IsTidy e r started = ground arith
around-IsTidy crashed r (served x) = ground arith
around-IsTidy (signalled true) r (served x) = ground arith
around-IsTidy (signalled false) r (served x) = ground arith

placed-IsTidy : (e : Ending) (r : Run) → Course e r → IsTidy e (around (placed r))
unfolding close_store serve_until in_time open_after closed_before
placed-IsTidy e r nothing = ground arith
placed-IsTidy e r started = ground arith
placed-IsTidy crashed r (served x) = ground arith
placed-IsTidy (signalled true) r (served x) = ground arith
placed-IsTidy (signalled false) r (served x) = ground arith

located-IsTidy :
    (env : Env) (cfg : Config) (geo : Option Geo)
    → IsTidy env.ending (around (run_located env cfg geo))
unfolding run_located
located-IsTidy env cfg none = around-IsTidy env.ending ([], none) nothing
located-IsTidy env cfg (some none) =
    let (r, w) = ensure env.now_ms env.fresh new_manager env.world in
    around-IsTidy env.ending _ (salted-Course env cfg (app_of env cfg none) r w)
located-IsTidy env cfg (some (some reader)) =
    let (r, w) = ensure env.now_ms env.fresh new_manager env.world in
    placed-IsTidy env.ending _ (salted-Course env cfg (app_of env cfg (some reader)) r w)

-- Open, by what sql.Open says of the two names and what migrate leaves.
opened-IsTidy :
    (env : Env) (cfg : Config) (writes reads migrated : Bool)
    → IsTidy env.ending (
        run_opened env cfg (
          if not writes
          then ([], false)
          else if not reads
          then (opened (pool writer_pool) ∷ closed (pool writer_pool) ∷ [], false)
          else if migrated
          then (opened (pool writer_pool) ∷ opened (pool reader_pool) ∷ [], true)
          else (opened (pool writer_pool) ∷ opened (pool reader_pool) ∷ close_store pool, false)))
unfolding run_opened close_store open_after
opened-IsTidy env cfg false reads migrated = ground arith
opened-IsTidy env cfg true false migrated = ground arith
opened-IsTidy env cfg true true false = ground arith
opened-IsTidy env cfg true true true =
    located-IsTidy env cfg (open_geo env.open_reader cfg.geo_db_path)

loaded-IsTidy : (env : Env) (c : Option Config) → IsTidy env.ending (run_loaded env c)
unfolding run_loaded open_store open_after
loaded-IsTidy env none = ground arith
loaded-IsTidy env (some cfg) =
    opened-IsTidy env cfg (env.opens (write_dsn cfg.db_path)) (env.opens (read_dsn cfg.db_path))
      env.migrated

-- When a run returns, whatever ended it, the pools and the database of places that it opened are
-- closed. Where it came to serve, the loop of the writer was drained before its pool was closed, and
-- the worker has been told to end. All handlers are done before the loop is drained, and none is left
-- at the return, exactly when a signal ended the run and Shutdown came to its end in time: after a failure
-- of ListenAndServe, or when the ten seconds are over, the loop is drained and the run returns while
-- handlers may be at work.
pub run-IsTidy : (env : Env) → IsTidy env.ending (run env)
unfolding run
run-IsTidy env = loaded-IsTidy env (load_config env.system)
