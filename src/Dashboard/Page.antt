-- ===== src/Dashboard/Page.antt =====
-- internal/dashboard/dashboard.go: what the pages show, up to their HTML.
--
-- A chart is the points that areaChart draws. Percentages are fractions of 100. strconv's functions
-- are those of `Numbers`: ParseInt gives a number, 0 for what is none, and whether there was no error.
use Prim.Native.String.{String}
use glimt.Base.{
  ℕ, ◌*◌, Bool, true, false, ◌&&◌, not, Option, none, some, List, [], ◌∷◌, ◌++◌, map, Bytes, codes,
  same, is_empty, ltb, ◌==◌, if◌then◌else◌, Unicode,
}
use glimt.Base.Int.{ℤ, pos, negsuc}
use glimt.Model.{Site}
use glimt.Store.Sql.{Sql, pure, ◌>>=◌}
use glimt.Sites.{Registry, find_id}
use glimt.Query.{Summary, Vitals, summary, vitals, realtime, or_before}
use glimt.Query.Series.{Point, time_series}
use glimt.Query.Funnel.{Json, Funnel, StepResult, list_funnels, evaluate_funnel}
use glimt.Query.Top.{Row, top}
use glimt.Dashboard.Range.{Dates, Range, RangeOpt, resolve_range_params, range_options}
use glimt.Dashboard.Format.{flag, capitalize, country_name}

pub record Numbers : Type 0 where
  pub parse_int : Bytes → ℤ × Bool
  pub itoa : ℕ → Bytes

pub record Handlers : Type 0 where
  pub geo_enabled : Bool
  pub base_url : Bytes
  pub numbers : Numbers
  pub dates : Dates
  pub json : Json
  pub unicode : Unicode

-- The parameters of a request's URL; `site` is none where the URL has no such parameter.
pub record Params : Type 0 where
  pub site : Option Bytes
  pub range : Bytes
  pub from_str : Bytes
  pub to_str : Bytes

abbrev pub all_sites_id : ℕ
all_sites_id = 0

abbrev pub aggregate_site : Site
aggregate_site = record {
  id = all_sites_id;
  uuid = [];
  name = codes "All websites";
  domain = [];
  api_key_hash = [];
  script_token = [];
  collect_token = [];
  public = false;
  share_token = [];
  created_at = 0;
}

unfoldable pub or_first : Site → Option Site → Site
or_first first none = first
or_first first (some s) = s

-- The site of a number, `first` where there is none.
unfoldable pub pick_site : Registry → Site → ℤ × Bool → Site
unfolding or_first
pick_site r first (id, false) = first
pick_site r first (pos n, true) =
    if n == all_sites_id then aggregate_site else or_first first (find_id r n)
pick_site r first (negsuc n, true) = first

-- r.URL.Query().Get("site")
abbrev pub get_site : Option Bytes → Bytes
get_site none = []
get_site (some v) = v

unfoldable pub site_in : Handlers → Registry → List Site → Bytes → Option Site
unfolding pick_site
site_in h r [] v = none
site_in h r (first ∷ rest) v =
    if is_empty v then some first else some (pick_site r first (h.numbers.parse_int v))

unfoldable pub current_site : Handlers → Registry → Option Bytes → Option Site
unfolding site_in
current_site h r site = site_in h r r.ordered (get_site site)

pub record BarRow : Type 0 where
  pub display : Bytes
  pub count : ℕ
  pub visitors : ℕ
  pub percent : ℕ × ℕ

pub record Panel : Type 0 where
  pub title : Bytes
  pub metric : Bytes
  pub rows : List BarRow

-- The largest count, at least `m`.
unfoldable pub max_count : ℕ → List Row → ℕ
max_count m [] = m
max_count m (r ∷ rows) = max_count (if ltb m r.count then r.count else m) rows

unfoldable pub build_panel : Bytes → Bytes → List Row → (Bytes → Bytes) → Panel
unfolding max_count
build_panel title metric rows display = record {
  title = title;
  metric = metric;
  rows =
      map
        (λ (r : Row). record {
          display = display r.value;
          count = r.count;
          visitors = r.visitors;
          percent = (r.count * 100, max_count 1 rows);
        })
        rows;
}

pub record Spec : Type 0 where
  pub dim : Bytes
  pub title : Bytes
  pub metric : Bytes
  pub display : Bytes → Bytes

abbrev pub spec : String → String → String → (Bytes → Bytes) → Spec
spec dim title metric display = record {
  dim = codes dim;
  title = codes title;
  metric = codes metric;
  display = display;
}

-- "—" in UTF-8
abbrev pub display_title : Unicode → Bytes → Bytes
display_title u s = if is_empty s then 226 ∷ 128 ∷ 148 ∷ [] else capitalize u s

abbrev pub display_country : Unicode → Bytes → Bytes
display_country u s =
    let f = flag u s in if is_empty f then country_name u s else f ++ codes " " ++ country_name u s

abbrev pub specs : Unicode → List Spec
specs u =
    spec "path" "Top pages" "Views" (λ s. s)
    ∷ spec "title" "Page titles" "Views" (λ s. s)
    ∷ spec "hostname" "Hostnames" "Views" (λ s. s)
    ∷ spec "referrer" "Referrers" "Views" (λ s. s)
    ∷ spec "country" "Countries" "Views" (display_country u)
    ∷ spec "city" "Cities" "Views" (λ s. s)
    ∷ spec "browser" "Browsers" "Views" (λ s. s)
    ∷ spec "os" "Operating systems" "Views" (λ s. s)
    ∷ spec "device" "Devices" "Views" (display_title u)
    ∷ spec "entry" "Entry pages" "Visits" (λ s. s)
    ∷ spec "exit" "Exit pages" "Visits" (λ s. s)
    ∷ spec "language" "Languages" "Views" (λ s. s)
    ∷ spec "event" "Custom events" "Count" (λ s. s)
    ∷ []

unfoldable pub panels : Bool → ℕ → ℕ → ℕ → List Spec → Sql (List Panel)
unfolding build_panel
panels geo site from_ms to_ms [] = pure []
panels geo site from_ms to_ms (sp ∷ rest) = do
  rows ← top site sp.dim from_ms to_ms 8
  others ← panels geo site from_ms to_ms rest
  if same sp.dim (codes "country") && not geo
      then pure others
      else pure (build_panel sp.title sp.metric rows sp.display ∷ others)

-- viewData, as the pages of one site fill it in.
pub record View : Type 0 where
  pub title : Bytes
  pub sites : List Site
  pub site : Site
  pub range : Range  -- its Range, FromDate and ToDate are shown
  pub ranges : List RangeOpt
  pub summary : Summary
  pub vitals : Vitals
  pub funnels : List Funnel
  pub active_funnel : Option Funnel
  pub funnel_data : List StepResult
  pub chart : List Point
  pub panels : List Panel
  pub realtime : ℕ
  pub geo_enabled : Bool
  pub public : Bool
  pub share_token : Bytes

unfoldable pub first_funnel : List Funnel → Option Funnel
first_funnel [] = none
first_funnel (f ∷ rest) = some f

unfoldable pub funnel_data : ℕ → Option Funnel → ℕ → ℕ → Sql (List StepResult)
funnel_data site none from_ms to_ms = pure []
funnel_data site (some f) from_ms to_ms = or_before [] (evaluate_funnel site f.steps from_ms to_ms)

-- The two readings of the clock are `now` and `later`.
unfoldable pub build_dashboard : Handlers → ℕ → ℕ → Site → Bytes → Bytes → Bytes → Sql View
unfolding panels first_funnel funnel_data
build_dashboard h now later site key from_str to_str = do
  let range = resolve_range_params h.dates now key from_str to_str
  sum ← summary site.id range.from_ms range.to_ms
  speed ← vitals site.id range.from_ms range.to_ms
  chart ← time_series site.id range.from_ms range.to_ms range.interval
  active ← realtime site.id later
  funnels ← or_before [] (list_funnels h.json site.id)
  results ← funnel_data site.id (first_funnel funnels) range.from_ms range.to_ms
  panels ← panels h.geo_enabled site.id range.from_ms range.to_ms (specs h.unicode)
  pure (record {
    title = [];
    sites = [];
    site = site;
    range = range;
    ranges = range_options range.norm;
    summary = sum;
    vitals = speed;
    funnels = funnels;
    active_funnel = first_funnel funnels;
    funnel_data = results;
    chart = chart;
    panels = panels;
    realtime = active;
    geo_enabled = h.geo_enabled;
    public = false;
    share_token = [];
  })
