-- ===== src/Web/Open.antt =====
-- The routes of internal/web/web.go that anyone may call, with what they leave as it was.
use glimt.Base.{
  ℕ, ◌/◌, Option, none, some, List, [], ◌∷◌, ◌++◌, subst, ◌≡◌, Bytes, is_empty, ltb, length,
  Bool-cases, Option-cases, inl, inr,
}
use glimt.Model.{Site, Event}
use glimt.Store.Tables.{Db, AdminSession, SaltRow}
use glimt.Store.Sql.{Result-cases, World, Result, ok, err, no_rows, random_error, require, exec}
use glimt.Store.Keeps.{
  Keeps, Keeps-pure, Keeps-raise, Keeps-require, Keeps-if, Keeps-query, Keeps-insert_checked,
  Keeps-ignore, Keeps-exec, Keeps-bind,
}
use glimt.Auth.{
  Auth, Crypto, ns_per_ms, find_session, insert_session, open_login, login, delete_session, logout,
  valid, judge, require_session,
}
use glimt.Ingest.Visitor.{SaltManager, renew, load, ensure, hash}
use glimt.Ingest.Enrich.{Payload, External, build}
use glimt.Ingest.Writer.{queue_size}
use glimt.Sites.{find_collect}
use glimt.Ingest.Loop.{Ingestor, enqueue}
use glimt.Ingest.Collector.{
  Request, Settings, Server, Moment, collect, handle_payload, handle_site, handle, pixel_site,
  handle_pixel, read_payload, pixel_payload,
}
use glimt.Dashboard.Admin.{Form, field, log_in, log_out}
use glimt.Web.{world_of}

-- What is kept says nothing of sessions and salts.
pub record IsLoose (P : Db → Type 0) : Type 0 where
  pub sessions :
      (db : Db) (rows : List AdminSession) → P db → P (record db { admin_sessions = rows })
  pub salts : (db : Db) (rows : List SaltRow) → P db → P (record db { salts = rows })

module _ (P : Db → Type 0) (loose : IsLoose P) where
  insert_session-Keeps :
      (token : Bytes) (expires uid : ℕ) (u : Unit {0}) (db db' : Db)
      → P db
      → insert_session token expires uid db ≡ some (u, db')
      → P db'
  unfolding insert_session
  insert_session-Keeps token expires uid u db db' p h =
      let after : Db = record db {
        admin_sessions =
            db.admin_sessions ++ record { token = token; expires_at = expires; user_id = uid } ∷ [];
      } in
      elim (Option-cases (find_session token db.admin_sessions)) [
        | inl e ↦
            let q : after ≡ db' = cc (rw (insert_session, e) at h) in
            subst P q (loose.sessions db _ p)
        | inr (x, e) ↦ cc (rw (insert_session, e) at h)
      ]

  login-Keeps :
      (c : Crypto) (a : Auth) (now : ℕ) (fresh : Option Bytes) (username password : Bytes)
      → Keeps P (login c a now fresh username password)
  unfolding login open_login
  login-Keeps c a now fresh username password =
      search
        (
          Keeps-query, Keeps-bind, Keeps-require, Keeps-if, Keeps-pure, Keeps-raise,
          Keeps-insert_checked, insert_session-Keeps,
        )
        depth 12

  delete_session-Keeps : (token : Bytes) → Keeps P (exec (delete_session token))
  delete_session-Keeps token = Keeps-exec P (delete_session token) (λ db. loose.sessions db _)

  logout-Keeps : (token : Bytes) → Keeps P (logout token)
  unfolding logout
  logout-Keeps token =
      Keeps-if P _ _ _ (Keeps-pure P tt) (Keeps-ignore P _ (delete_session-Keeps token))

  judge-Keeps :
      (now : ℕ) (token : Bytes) (r : Result (Option ℕ)) (w : World)
      → P w.db
      → P (judge now token r w).1.db
  unfolding judge
  judge-Keeps now token (err e) w p = p
  judge-Keeps now token (ok none) w p = p
  judge-Keeps now token (ok (some expires)) w p =
      elim (Bool-cases (ltb expires (now / ns_per_ms))) [
        | inl e ↦ rw e ((delete_session-Keeps token).at w p)
        | inr e ↦ rw e p
      ]

  valid-Keeps : (now : ℕ) (token : Bytes) (w : World) → P w.db → P (valid now token w).1.db
  unfolding valid
  valid-Keeps now token w p = elim (Bool-cases (is_empty token)) [
    | inl e ↦ rw e p
    | inr e ↦ rw e (judge-Keeps now token _ _ ((Keeps-query P _).at w p))
  ]

  pub require_session-Keeps :
      (now : ℕ) (cookie : Option Bytes) (w : World) → P w.db → P (require_session now cookie w).1.db
  unfolding require_session
  require_session-Keeps now none w p = p
  require_session-Keeps now (some token) w p = valid-Keeps now token w p

  renew-Keeps : (day now : ℕ) (fresh found : Option Bytes) → Keeps P (renew day now fresh found)
  unfolding renew
  renew-Keeps day now fresh none =
      Keeps-bind P (require random_error fresh) _ (Keeps-require P _ _) (λ salt.
        Keeps-bind P _ _ (Keeps-exec P _ (λ db. loose.salts db _)) (λ _.
          Keeps-bind P _ _ (Keeps-query P _) (λ again.
            Keeps-bind P (require no_rows again) _ (Keeps-require P _ _) (λ stored.
              Keeps-bind P _ _ (Keeps-ignore P _ (Keeps-exec P _ (λ db. loose.salts db _)))
                (λ _. Keeps-pure P stored)))))
  renew-Keeps day now fresh (some salt) = Keeps-pure P salt

  pub ensure-Keeps :
      (now : ℕ) (fresh : Option Bytes) (sm : SaltManager) → Keeps P (ensure now fresh sm)
  unfolding ensure load
  ensure-Keeps now fresh sm = Keeps-if P _ _ _ (Keeps-pure P sm) (
      Keeps-bind P _ _ (Keeps-query P _)
        (λ found. Keeps-bind P _ _ (renew-Keeps _ now fresh found) (λ salt. Keeps-pure P _)))

  build-Keeps :
      (e : External) (now hash_now : ℕ) (fresh : Option Bytes) (site : Site) (p : Payload)
      (ip user_agent lang geo : Bytes) (sm : SaltManager) (w : World)
      → P w.db
      → P (build e now hash_now fresh site p ip user_agent lang geo sm w).2.db
  unfolding build hash
  build-Keeps e now hash_now fresh site p ip user_agent lang geo sm w h =
      (ensure-Keeps hash_now fresh sm).at w h

  pub enqueue-Keeps : (ev : Event) (s : Ingestor) → P s.world.db → P (enqueue ev s).0.world.db
  unfolding enqueue
  enqueue-Keeps ev s p = elim (Bool-cases (ltb (length s.ch) queue_size)) [
    | inl e ↦ rw e p
    | inr e ↦ rw e p
  ]

  module _ (e : External) (c : Settings) (m : Moment) (r : Request) (s : Server)
      (p : P (world_of s).db) where
    collect-Keeps : (site : Site) (q : Payload) → P (world_of (collect e c m r site q s)).db
    unfolding collect
    collect-Keeps site q =
        enqueue-Keeps _ (record s.ingestor { world = _ }) (build-Keeps e _ _ _ site q _ _ _ _ _ _ p)

    payload-Keeps :
        (site : Site) (q : Option Payload) → P (world_of (handle_payload e c m r site q s).1).db
    unfolding handle_payload
    payload-Keeps site none = p
    payload-Keeps site (some q) = collect-Keeps site q

    site-Keeps : (site : Option Site) → P (world_of (handle_site e c m r site s).1).db
    unfolding handle_site
    site-Keeps none = p
    site-Keeps (some site) = payload-Keeps site (read_payload c r)

    pub handle-Keeps : P (world_of (handle e c m r s).1).db
    unfolding handle
    handle-Keeps = site-Keeps (find_collect s.registry r.token)

    pixel_site-Keeps : (site : Option Site) → P (world_of (pixel_site e c m r site s).1).db
    unfolding pixel_site
    pixel_site-Keeps none = p
    pixel_site-Keeps (some site) = collect-Keeps site (pixel_payload r site)

    pub handle_pixel-Keeps : P (world_of (handle_pixel e c m r s).1).db
    unfolding handle_pixel
    handle_pixel-Keeps = pixel_site-Keeps (find_collect s.registry r.token)

  pub log_in-Keeps :
      (c : Crypto) (a : Auth) (now : ℕ) (random : Option Bytes) (f : Form) (w : World)
      → P w.db
      → P (log_in c a now random f w).2.db
  unfolding log_in
  log_in-Keeps c a now random f w p =
      let tried = login c a now random (field f "username") (field f "password") in
      let kept = (login-Keeps c a now random (field f "username") (field f "password")).at w p in
      elim (Bool-cases f.parsed) [
        | inl e ↦ elim (Result-cases (tried w).0) [
          | inl (tok, q) ↦ simp (e, q) kept
          | inr (x, q) ↦ simp (e, q) kept
        ]
        | inr e ↦ simp e p
      ]

  pub log_out-Keeps :
      (a : Auth) (cookie : Option Bytes) (w : World) → P w.db → P (log_out a cookie w).2.db
  unfolding log_out
  log_out-Keeps a none w p = p
  log_out-Keeps a (some tok) w p = (logout-Keeps tok).at w p
