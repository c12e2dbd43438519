-- ===== src/Dashboard/Handlers/Reading.antt =====
-- The handlers of internal/dashboard/dashboard.go write nothing: what held of the tables still holds.
use glimt.Base.{
  ℕ, Bool, true, false, not, Option, none, some, List, [], ◌∷◌, Bytes, if◌then◌else◌, inl, inr,
  Option-cases,
}
use glimt.Model.{Site}
use glimt.Store.Tables.{Db}
use glimt.Store.Sql.{Sql, World, Result, ok, err}
use glimt.Store.Keeps.{Keeps, Keeps-pure, Keeps-query, Keeps-bind, Keeps-if}
use glimt.Sites.{Registry, find_share}
use glimt.Auth.{list_users}
use glimt.Query.{or_before, summary, vitals, realtime}
use glimt.Query.Series.{Interval, time_series}
use glimt.Query.Funnel.{Json, Step, Funnel, list_funnels, evaluate_funnel}
use glimt.Query.Top.{top, export_events}
use glimt.Dashboard.Range.{Range, resolve_range_params}
use glimt.Dashboard.Page.{
  Handlers, Params, Spec, panels, funnel_data, build_dashboard, current_site,
}
use glimt.Dashboard.Settings.{render_settings}
use glimt.Dashboard.Handlers.{
  Page, number, answer, card, cards_of, all_cards, home_of, home, index_of, show_index,
  show_realtime, share_of, share, export,
}

ruleset keeps_rules = (Keeps-pure, Keeps-query, Keeps-bind, Keeps-if)

before_keeps :
    (P : Db → Type 0) {A : Type 0} (a : A) (r : Result A) (w : World)
    → P w.db
    → P (or_before a (λ _. (r, w)) w).1.db
unfolding or_before
before_keeps P a (ok b) w h = h
before_keeps P a (err e) w h = h

answered_keeps :
    (P : Db → Type 0) {A : Type 0} (page : A → Page) (r : Result A) (w : World)
    → P w.db
    → P (answer page (λ _. (r, w)) w).1.db
unfolding answer
answered_keeps P page (ok a) w h = h
answered_keeps P page (err e) w h = h

module _ {P : Db → Type 0} where
  Keeps-or_before : {A : Type 0} (a : A) (m : Sql A) → Keeps P m → Keeps P (or_before a m)
  unfolding or_before
  Keeps-or_before a m k = record { at = λ w h. before_keeps P a (m w).0 (m w).1 (k.at w h) }

  summary-Keeps : (site from_ms to_ms : ℕ) → Keeps P (summary site from_ms to_ms)
  unfolding summary
  summary-Keeps site from_ms to_ms = search (keeps_rules, Keeps-or_before)

  vitals-Keeps : (site from_ms to_ms : ℕ) → Keeps P (vitals site from_ms to_ms)
  unfolding vitals
  vitals-Keeps site from_ms to_ms = search keeps_rules

  series-Keeps :
      (site from_ms to_ms : ℕ) (i : Interval) → Keeps P (time_series site from_ms to_ms i)
  unfolding time_series
  series-Keeps site from_ms to_ms i = search keeps_rules

  realtime-Keeps : (site now : ℕ) → Keeps P (realtime site now)
  unfolding realtime
  realtime-Keeps site now = search keeps_rules

  funnels-Keeps : (json : Json) (site : ℕ) → Keeps P (list_funnels json site)
  unfolding list_funnels
  funnels-Keeps json site = search keeps_rules

  steps-Keeps :
      (site : ℕ) (steps : List Step) (from_ms to_ms : ℕ)
      → Keeps P (evaluate_funnel site steps from_ms to_ms)
  unfolding evaluate_funnel
  steps-Keeps site [] from_ms to_ms = search keeps_rules
  steps-Keeps site (s ∷ steps) from_ms to_ms = search keeps_rules

  funnel-Keeps :
      (site : ℕ) (f : Option Funnel) (from_ms to_ms : ℕ)
      → Keeps P (funnel_data site f from_ms to_ms)
  unfolding funnel_data
  funnel-Keeps site none from_ms to_ms = search keeps_rules
  funnel-Keeps site (some f) from_ms to_ms =
      Keeps-or_before [] _ (steps-Keeps site f.steps from_ms to_ms)

  top-Keeps :
      (site : ℕ) (dim : Bytes) (from_ms to_ms limit : ℕ)
      → Keeps P (top site dim from_ms to_ms limit)
  unfolding top
  top-Keeps site dim from_ms to_ms limit = search keeps_rules

  panels-Keeps :
      (geo : Bool) (site from_ms to_ms : ℕ) (sps : List Spec)
      → Keeps P (panels geo site from_ms to_ms sps)
  unfolding panels
  panels-Keeps geo site from_ms to_ms [] = search keeps_rules
  panels-Keeps geo site from_ms to_ms (sp ∷ rest) =
      Keeps-bind P _ _ (top-Keeps site sp.dim from_ms to_ms 8) (λ rows.
        Keeps-bind P _ _ (panels-Keeps geo site from_ms to_ms rest) (λ others. search keeps_rules))

  build-Keeps :
      (h : Handlers) (now later : ℕ) (s : Site) (key from_str to_str : Bytes)
      → Keeps P (build_dashboard h now later s key from_str to_str)
  unfolding build_dashboard
  build-Keeps h now later s key from_str to_str =
      search
        (
          keeps_rules, Keeps-or_before, summary-Keeps, vitals-Keeps, series-Keeps, realtime-Keeps,
          funnels-Keeps, funnel-Keeps, panels-Keeps,
        )
        depth 16

  card-Keeps :
      (h : Handlers) (later : ℕ) (range : Range) (id : ℕ) (name : Bytes) (combined : Bool)
      → Keeps P (card h later range id name combined)
  unfolding card
  card-Keeps h later range id name combined = search (keeps_rules, summary-Keeps, realtime-Keeps)

  cards_of-Keeps :
      (h : Handlers) (later : ℕ) (range : Range) (sites : List Site)
      → Keeps P (cards_of h later range sites)
  unfolding cards_of
  cards_of-Keeps h later range [] = search keeps_rules
  cards_of-Keeps h later range (s ∷ sites) =
      Keeps-bind P _ _ (card-Keeps h later range s.id s.name false)
        (λ c. Keeps-bind P _ _ (cards_of-Keeps h later range sites) (λ rest. search keeps_rules))

  all_cards-Keeps :
      (h : Handlers) (later : ℕ) (range : Range) (sites : List Site)
      → Keeps P (all_cards h later range sites)
  unfolding all_cards
  all_cards-Keeps h later range sites = search (keeps_rules, card-Keeps, cards_of-Keeps)

  export_events-Keeps : (site from_ms to_ms : ℕ) → Keeps P (export_events site from_ms to_ms)
  unfolding export_events
  export_events-Keeps site from_ms to_ms = search keeps_rules

  users-Keeps : Keeps P list_users
  unfolding list_users
  users-Keeps = search keeps_rules

-- The handlers, from tables with `P`.
module _ (P : Db → Type 0) (h : Handlers) (now later : ℕ) (q : Params) (w : World)
    (p : P w.db) where
  answer_keeps : {A : Type 0} (page : A → Page) (m : Sql A) → Keeps P m → P (answer page m w).1.db
  unfolding answer
  answer_keeps page m k = answered_keeps P page (m w).0 (m w).1 (k.at w p)

  home_keeps : (sites : List Site) → P (home_of h now later q sites w).1.db
  unfolding home_of
  home_keeps [] = p
  home_keeps (s ∷ sites) = answer_keeps _ _ (
      all_cards-Keeps h later (resolve_range_params h.dates now q.range q.from_str q.to_str)
        (s ∷ sites))

  index_keeps : (r : Registry) (s : Option Site) → P (index_of h now later q r s w).1.db
  unfolding index_of
  index_keeps r none = p
  index_keeps r (some s) = answer_keeps _ _ (build-Keeps h now later s _ _ _)

  pub show_index-Keeps : (r : Registry) → P (show_index h now later q r w).1.db
  unfolding show_index home
  show_index-Keeps r = elim (Option-cases q.site) [
    | inl e ↦ rw e (home_keeps r.ordered)
    | inr (v, e) ↦ rw e (index_keeps r (current_site h r (some v)))
  ]

  pub show_realtime-Keeps : (r : Registry) → P (show_realtime h now q r w).1.db
  unfolding show_realtime
  show_realtime-Keeps r = elim (Option-cases (current_site h r q.site)) [
    | inl e ↦ rw (show_realtime, e) p
    | inr (s, e) ↦
        rw (show_realtime, e)
          (answer_keeps number _ (Keeps-or_before 0 _ (realtime-Keeps s.id now)))
  ]

  pub export-Keeps : (r : Registry) → P (export h now q r w).1.db
  unfolding export
  export-Keeps r = elim (Option-cases (current_site h r q.site)) [
    | inl e ↦ rw (export, e) p
    | inr (s, e) ↦ rw (export, e) (answer_keeps _ _ (export_events-Keeps s.id _ _))
  ]

  if_keeps : (b : Bool) (x y : Page × World) → P x.1.db → P y.1.db → P (if b then x else y).1.db
  if_keeps true x y px py = px
  if_keeps false x y px py = py

  share_keeps : (tok : Bytes) (s : Option Site) → P (share_of h now later q tok s w).1.db
  unfolding share_of
  share_keeps tok none = p
  share_keeps tok (some s) =
      if_keeps (not s.public) _ _ p
        (answer_keeps _ _ (build-Keeps h now later s q.range q.from_str q.to_str))

  pub share-Keeps : (tok : Bytes) (r : Registry) → P (share h now later q tok r w).1.db
  unfolding share
  share-Keeps tok r = share_keeps tok (find_share r tok)

pub render_settings-Keeps :
    (P : Db → Type 0) (h : Handlers) (host key : Bytes) (r : Registry) (w : World)
    → P w.db
    → P (render_settings h host key r w).1.db
unfolding render_settings
render_settings-Keeps P h host key r w p = (users-Keeps {P = P}).at w p
