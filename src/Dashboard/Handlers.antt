-- ===== src/Dashboard/Handlers.antt =====
-- internal/dashboard/dashboard.go: the handlers that read: Index, home, Realtime, Share, Export.
--
-- The texts of a download and its headers are left out: an export is its file's name and events.
pub mod Shared
pub mod Reading
pub mod Totals
use glimt.Base.{
  ℕ, Bool, true, false, not, Option, none, some, List, [], ◌∷◌, ◌++◌, Bytes, codes, same, is_empty,
  ltb, ◌&&◌, ◌||◌, if◌then◌else◌, length,
}
use glimt.Model.{Site}
use glimt.Store.Sql.{Sql, World, Result, ok, err, pure, ◌>>=◌, ◌>>◌}
use glimt.Sites.{Registry, find_share}
use glimt.Query.{Summary, summary, realtime, or_before}
use glimt.Query.Top.{ExportEvent, export_events}
use glimt.Dashboard.Range.{Range, RangeOpt, resolve_range_params, range_options}
use glimt.Dashboard.Page.{Handlers, Params, View, all_sites_id, current_site, build_dashboard}

pub record Card : Type 0 where
  pub name : Bytes
  pub href : Bytes
  pub summary : Summary
  pub realtime : ℕ
  pub combined : Bool

-- viewData, as the overview fills it in.
pub record Overview : Type 0 where
  pub range : Range
  pub ranges : List RangeOpt
  pub cards : List Card
  pub geo_enabled : Bool

-- What a request is answered with.
pub data Page : Type 0 where
  not_found failed bad_form : Page
  redirect : Bytes → Page
  index : View → Page
  home_page : Overview → Page
  number : ℕ → Page
  download : Bytes → List ExportEvent → Page

-- http.Error on an error.
unfoldable pub answer : {A : Type 0} → (A → Page) → Sql A → World → Page × World
answer page m w = let (r, w') = m w in elim r [ ok a ↦ (page a, w') | err e ↦ (failed, w') ]

unfoldable pub href : Handlers → ℕ → Range → Bytes
href h id range =
    let dates = codes "&from=" ++ range.from_date ++ codes "&to=" ++ range.to_date in
    let base = codes "/?site=" ++ h.numbers.itoa id ++ codes "&range=" ++ range.norm in
    if same range.norm (codes "custom")
      && not (is_empty range.from_date)
      && not (is_empty range.to_date)
    then base ++ dates
    else base

unfoldable pub card : Handlers → ℕ → Range → ℕ → Bytes → Bool → Sql Card
unfolding href
card h later range id name combined = do
  sum ← summary id range.from_ms range.to_ms
  active ← realtime id later
  pure (record {
    name = name;
    href = href h id range;
    summary = sum;
    realtime = active;
    combined = combined;
  })

unfoldable pub cards_of : Handlers → ℕ → Range → List Site → Sql (List Card)
unfolding card
cards_of h later range [] = pure []
cards_of h later range (s ∷ sites) = do
  c ← card h later range s.id s.name false
  rest ← cards_of h later range sites
  pure (c ∷ rest)

-- The tile of all websites comes first, if there are two at least.
unfoldable pub all_cards : Handlers → ℕ → Range → List Site → Sql (List Card)
unfolding cards_of
all_cards h later range sites =
    if ltb 1 (length sites)
    then (do
      c ← card h later range all_sites_id (codes "All combined") true
      rest ← cards_of h later range sites
      pure (c ∷ rest))
    else cards_of h later range sites

unfoldable pub home_of : Handlers → ℕ → ℕ → Params → List Site → World → Page × World
unfolding all_cards answer
home_of h now later q [] w = (redirect (codes "/settings"), w)
home_of h now later q (s ∷ sites) w =
    let range = resolve_range_params h.dates now q.range q.from_str q.to_str in
    answer
      (λ cards. home_page (record {
        range = range;
        ranges = range_options range.norm;
        cards = cards;
        geo_enabled = h.geo_enabled;
      }))
      (all_cards h later range (s ∷ sites)) w

unfoldable pub home : Handlers → ℕ → ℕ → Params → Registry → World → Page × World
unfolding home_of
home h now later q r w = home_of h now later q r.ordered w

unfoldable pub index_of : Handlers → ℕ → ℕ → Params → Registry → Option Site → World → Page × World
unfolding answer
index_of h now later q r none w = (redirect (codes "/settings"), w)
index_of h now later q r (some s) w =
    answer (λ v. index (record v { title = s.name; sites = r.ordered }))
      (build_dashboard h now later s q.range q.from_str q.to_str) w

-- Index
unfoldable pub show_index : Handlers → ℕ → ℕ → Params → Registry → World → Page × World
unfolding home index_of
show_index h now later q r w = elim q.site [
  | none ↦ home h now later q r w
  | some v ↦ index_of h now later q r (current_site h r (some v)) w
]

unfoldable pub show_realtime : Handlers → ℕ → Params → Registry → World → Page × World
unfolding answer
show_realtime h now q r w = elim (current_site h r q.site) [
  | none ↦ (number 0, w)
  | some s ↦ answer number (or_before 0 (realtime s.id now)) w
]

unfoldable pub share_of : Handlers → ℕ → ℕ → Params → Bytes → Option Site → World → Page × World
unfolding answer
share_of h now later q tok none w = (not_found, w)
share_of h now later q tok (some s) w =
    let page =
      answer (λ v. index (record v { title = s.name; public = true; share_token = tok }))
        (build_dashboard h now later s q.range q.from_str q.to_str) w in
    if not s.public then (not_found, w) else page

-- Share, under the token of the path
unfoldable pub share : Handlers → ℕ → ℕ → Params → Bytes → Registry → World → Page × World
unfolding share_of
share h now later q tok r w = share_of h now later q tok (find_share r tok) w

-- glimt-<domain>-<range>, without the suffix of the format
unfoldable pub file_name : Site → Bytes → Bytes
file_name s norm =
    codes "glimt-"
    ++ (if is_empty s.domain then codes "site" else s.domain)
    ++ codes "-"
    ++ (if is_empty norm then codes "7d" else norm)

unfoldable pub export : Handlers → ℕ → Params → Registry → World → Page × World
unfolding answer file_name
export h now q r w = elim (current_site h r q.site) [
  | none ↦ (not_found, w)
  | some s ↦
      let range = resolve_range_params h.dates now q.range q.from_str q.to_str in
      answer (download (file_name s range.norm)) (export_events s.id range.from_ms range.to_ms) w
]
