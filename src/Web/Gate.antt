-- ===== src/Web/Gate.antt =====
-- What the routes of internal/web/web.go let a request do that no admin signed.
use glimt.Base.{
  ℕ, zero, suc, Bool, true, false, Option, none, some, List, [], ◌∷◌, ◌≡◌, refl, Bytes, All, arith,
  subst, Bool-cases, Option-cases, inl, inr,
}
use glimt.Model.{Site}
use glimt.Store.Tables.{Db}
use glimt.Sites.{find_collect}
use glimt.Auth.{redirect_to_login, require_session}
use glimt.Ingest.Enrich.{Payload, External}
use glimt.Ingest.Collector.{
  Request, Settings, Server, Moment, handle_payload, handle_site, handle, pixel_site, handle_pixel,
  read_payload, collect,
}
use glimt.Dashboard.Handlers.Reading.{share-Keeps}
use glimt.Web.Open.{
  IsLoose, require_session-Keeps, handle-Keeps, handle_pixel-Keeps, log_in-Keeps, log_out-Keeps,
}
use glimt.Web.{
  App, Call, Endpoint, healthz, tracker_script, collect_event, answer_preflight, pixel, assets,
  public_share, login_form, login, logout, Route, routes, route_at, Pick, world_of, run_endpoint,
  run_gated, run_route, serve_call, on_world,
}

-- The handlers that need no session.
unfoldable pub is_open : Endpoint → Bool
is_open healthz = true
is_open tracker_script = true
is_open collect_event = true
is_open answer_preflight = true
is_open pixel = true
is_open assets = true
is_open public_share = true
is_open login_form = true
is_open login = true
is_open logout = true
is_open e = false

-- A handler without a gate is one of these.
abbrev pub IsFenced : Route → Type 0
IsFenced r = r.gated ≡ false → is_open r.endpoint ≡ true

pub fenced : All IsFenced routes
unfolding is_open
fenced = ground arith

pub route_at-All :
    (P : Route → Type 0) (n : ℕ) (rs : List Route) (r : Route)
    → All P rs
    → route_at n rs ≡ some r
    → P r
unfolding route_at
route_at-All P n [] r all h = cc
route_at-All P zero (x ∷ rs) r (p, all) h = let e : x ≡ r = cc in subst P e p
route_at-All P (suc n) (x ∷ rs) r (p, all) h = route_at-All P n rs r all h

-- The ingest handlers put no other registry in use.
module _ (e : External) (c : Settings) (m : Moment) (r : Request) (s : Server) where
  payload-registry :
      (site : Site) (p : Option Payload) → (handle_payload e c m r site p s).1.registry ≡ s.registry
  unfolding handle_payload collect
  payload-registry site none = refl
  payload-registry site (some p) = refl

  site-registry : (site : Option Site) → (handle_site e c m r site s).1.registry ≡ s.registry
  unfolding handle_site
  site-registry none = refl
  site-registry (some site) = payload-registry site (read_payload c r)

  pixel-registry : (site : Option Site) → (pixel_site e c m r site s).1.registry ≡ s.registry
  unfolding pixel_site collect
  pixel-registry none = refl
  pixel-registry (some site) = refl

-- `P` still holds, and the registry in use is the same.
abbrev Unharmed : (Db → Type 0) → Server → Server → Type 0
Unharmed P s t = P (world_of t).db × (t.registry ≡ s.registry)

module _ (P : Db → Type 0) (loose : IsLoose P) (app : App) (c : Call) (tok : Bytes) where
  open_endpoint :
      (e : Endpoint) (s : Server)
      → is_open e ≡ true
      → P (world_of s).db
      → Unharmed P s (run_endpoint app c tok e s).1
  unfolding run_endpoint is_open on_world handle handle_pixel
  open_endpoint healthz s h p = (p, refl)
  open_endpoint tracker_script s h p = (p, refl)
  open_endpoint collect_event s h p =
      let r = record c.request { token = tok } in
      (
        handle-Keeps P loose app.external app.settings c.moment r s p,
        site-registry app.external app.settings c.moment r s (find_collect s.registry tok),
      )
  open_endpoint answer_preflight s h p = (p, refl)
  open_endpoint pixel s h p =
      let r = record c.request { token = tok } in
      (
        handle_pixel-Keeps P loose app.external app.settings c.moment r s p,
        pixel-registry app.external app.settings c.moment r s (find_collect s.registry tok),
      )
  open_endpoint assets s h p = (p, refl)
  open_endpoint public_share s h p =
      (share-Keeps P app.handlers c.now_ms c.later_ms c.params (world_of s) p tok s.registry, refl)
  open_endpoint login_form s h p = (p, refl)
  open_endpoint login s h p =
      (log_in-Keeps P loose app.crypto app.auth c.now_ns c.random c.form (world_of s) p, refl)
  open_endpoint logout s h p = (log_out-Keeps P loose app.auth c.cookie (world_of s) p, refl)
  open_endpoint e s h p = cc

  gated_endpoint :
      (e : Endpoint) (s : Server)
      → (require_session c.now_ns c.cookie (world_of s)).0 ≡ redirect_to_login
      → P (world_of s).db
      → Unharmed P s (run_gated app c tok e s).1
  unfolding run_gated
  gated_endpoint e s h p =
      rw (run_gated, h) (require_session-Keeps P loose c.now_ns c.cookie (world_of s) p, refl)

  route_keeps :
      (r : Option Route) (s : Server)
      → ((x : Route) → r ≡ some x → IsFenced x)
      → (require_session c.now_ns c.cookie (world_of s)).0 ≡ redirect_to_login
      → P (world_of s).db
      → Unharmed P s (run_route app c tok r s).1
  unfolding run_route
  route_keeps none s f h p = (p, refl)
  route_keeps (some r) s f h p = elim (Bool-cases r.gated) [
    | inl e ↦ rw e (gated_endpoint r.endpoint s h p)
    | inr e ↦ rw e (open_endpoint r.endpoint s (f r refl e) p)
  ]

-- The websites, the funnels and the admins are those of `before`.
pub record IsKept (before db : Db) : Type 0 where
  pub websites : db.websites ≡ before.websites
  pub funnels : db.funnels ≡ before.funnels
  pub admins : db.admins ≡ before.admins

IsKept-IsLoose : (before : Db) → IsLoose (IsKept before)
IsKept-IsLoose before = record {
  sessions = λ db rows k. record { websites = k.websites; funnels = k.funnels; admins = k.admins };
  salts = λ db rows k. record { websites = k.websites; funnels = k.funnels; admins = k.admins };
}

-- Whatever route chi picks, a request without a good session changes no website, no funnel and no
-- admin, and the registry in use stays the same.
pub unsigned-IsKept :
    (app : App) (pick : Pick) (c : Call) (s : Server)
    → (require_session c.now_ns c.cookie (world_of s)).0 ≡ redirect_to_login
    → let t = (serve_call app pick c s).1 in
      IsKept (world_of s).db (world_of t).db × (t.registry ≡ s.registry)
unfolding serve_call
unsigned-IsKept app pick c s h =
    let before = (world_of s).db in
    let same : IsKept before before = record { websites = refl; funnels = refl; admins = refl } in
    elim (Option-cases (pick routes c.method c.path)) [
      | inl e ↦ rw (serve_call, e) (same, refl)
      | inr ((n, tok), e) ↦
          rw (serve_call, e)
            (route_keeps (IsKept before) (IsKept-IsLoose before) app c tok (route_at n routes) s
              (λ r found. route_at-All IsFenced n routes r fenced found) h same)
    ]
