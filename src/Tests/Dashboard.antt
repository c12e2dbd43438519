-- ===== src/Tests/Dashboard.antt =====
-- internal/dashboard and internal/tracker: the pages of two public websites, one of which is hidden.
use glimt.Base.{
  List, All, ◌==◌, ℕ, ◌%◌, ◌≡◌, ◌≢◌, refl, arith, true, false, none, some, [], ◌∷◌, Bytes, codes,
  same, same_iff, is_empty, has_prefix, sum_of, Unicode, keep,
}
use glimt.Base.Int.{pos}
use glimt.Model.{Site}
use glimt.Store.Tables.{Db, Website, next_id}
use glimt.Store.Sql.{World, ok, sound, query, exec, insert_checked, confirm}
use glimt.Store.Gives.{Gives}
use glimt.Sites.{
  Registry, Drawn, site_of, registry_of, find_share, find_script, set_public, regen_tokens, create,
  delete, insert_site, reload, update_site, set_tokens, has_id, clashes, uuid_taken, add_rows,
  add_site, order_by_name, insert_by_name, bytes_less, get,
}
use glimt.Sites.Reuse.{reused_id}
use glimt.Rollup.{ms_per_hour}
use glimt.Query.{count_pageviews_in}
use glimt.Query.Series.{Point, day}
use glimt.Query.Funnel.{Json}
use glimt.Query.Scoped.{AgreeOn}
use glimt.Dashboard.Range.{Dates, resolve_range_params}
use glimt.Dashboard.Range.Bounds.{IsUsable, resolve_range_params-IsUsable}
use glimt.Dashboard.Page.{Numbers, Handlers, Params, View, build_dashboard}
use glimt.Dashboard.Chart.{Texts, AxisLabel, area_chart, svg, dots_of}
use glimt.Dashboard.Chart.Frame.{IsLabel, IsInFrame, area_chart-some}
use glimt.Dashboard.Handlers.{index, share}
use glimt.Dashboard.Handlers.Shared.{share-AgreeOn, share-set_public, share-shown}
use glimt.Dashboard.Handlers.Totals.{build_dashboard-pageviews}
use glimt.Tracker.{Handler, serve, render, endpoint_base, replace_from, key_here}
use glimt.Tracker.Rotation.{serve-regen_tokens}
use glimt.Tests.Sample.{shop, db, now}

abbrev pub numbers : Numbers
numbers = record { parse_int = λ v. (pos 1, true); itoa = λ n. codes "1" }

abbrev pub dates : Dates
dates = record { parse = λ v. some 20000; format = λ d. codes "2024-10-04" }

abbrev pub json : Json
json = record { marshal = λ steps. []; unmarshal = λ v. [] }

abbrev unicode : Unicode
unicode = record { lower_wide = λ s. s; upper_wide = λ s. s }

abbrev pub handlers : Handlers
handlers = record {
  geo_enabled = true;
  base_url = [];
  numbers = numbers;
  dates = dates;
  json = json;
  unicode = unicode;
}

abbrev pub today : Params
today = record { site = none; range = codes "today"; from_str = []; to_str = [] }

abbrev blog : Website
blog = record shop {
  id = 2;
  uuid = codes "u2";
  name = codes "blog";
  script_token = codes "s2";
  collect_token = codes "c2";
  share_token = codes "t2";
}

abbrev pub two_sites : Db
two_sites = record db { websites = shop ∷ blog ∷ [] }

-- One day, both dates given.
resolve_range_params-IsUsable_example :
    IsUsable now
      (resolve_range_params dates now (codes "custom") (codes "2024-10-04") (codes "2024-10-04"))
resolve_range_params-IsUsable_example =
    resolve_range_params-IsUsable dates now (codes "custom") (codes "2024-10-04")
      (codes "2024-10-04")

half_past : now % ms_per_hour ≢ 0
half_past = omega arith

build_dashboard-pageviews_example :
    Gives db
      (build_dashboard handlers now now (site_of shop) (codes "today") [] [])
      (λ v. sum_of (λ (p : Point). p.pageviews) v.chart ≡ v.summary.pageviews)
build_dashboard-pageviews_example =
    build_dashboard-pageviews handlers now now (site_of shop) (codes "today") [] [] db half_past

abbrev pub registry : Registry
registry = registry_of (shop ∷ blog ∷ [])

shop_found : find_share registry (codes "t1") ≡ some (site_of shop)
unfolding find_share registry_of add_rows add_site order_by_name insert_by_name get same is_empty
    bytes_less
shop_found = refl

-- The rows of website 2 are gone.
abbrev without_blog : Db
without_blog = record db { events = keep (λ r. r.event.website_id == 1) db.events }

shop_numbered : (site_of shop).id ≢ 0
unfolding site_of
shop_numbered = omega arith

agree : AgreeOn (site_of shop).id db without_blog
unfolding site_of
agree = record {
  events = refl;
  sessions = refl;
  rollup_stats = refl;
  rollup_dim = refl;
  funnels = refl;
}

share-AgreeOn_example :
    (share handlers now now today (codes "t1") registry (record { db = db; faults = [] })).0
    ≡ (share handlers now now today
        (codes "t1")
        registry
        (record { db = without_blog; faults = [] })).0
share-AgreeOn_example =
    share-AgreeOn handlers now now today (codes "t1") registry (site_of shop) db without_blog []
      shop_found shop_numbered agree

abbrev hidden_shop : Website
hidden_shop = record shop { public = false }

abbrev with_hidden : Registry
with_hidden = registry_of (hidden_shop ∷ blog ∷ [])

hidden : (set_public 1 false (codes "f") (sound two_sites)).0 ≡ ok with_hidden
unfolding set_public reload query exec update_site
hidden = refl

blog_found : find_share with_hidden (codes "t2") ≡ some (site_of blog)
unfolding find_share registry_of add_rows add_site order_by_name insert_by_name get same is_empty
    bytes_less
blog_found = refl

blog_is_public : (site_of blog).public ≡ true
unfolding site_of
blog_is_public = refl

abbrev blog_page :
    Gives two_sites
      (build_dashboard handlers now now (site_of blog) (codes "today") [] [])
      (λ v. sum_of (λ (p : Point). p.pageviews) v.chart ≡ v.summary.pageviews)
blog_page =
    build_dashboard-pageviews handlers now now (site_of blog) (codes "today") [] [] two_sites
      half_past

abbrev blog_view : View
blog_view = record blog_page.value {
  title = (site_of blog).name;
  public = true;
  share_token = codes "t2";
}

blog_shown :
    (share handlers now now today (codes "t2") with_hidden (sound two_sites)).0 ≡ index blog_view
blog_shown =
    share-shown handlers now now today (codes "t2") with_hidden (site_of blog) (sound two_sites)
      (sound two_sites) blog_page.value blog_found blog_is_public blog_page.returns

share-set_public_example : blog_view.site.id ≢ 1
share-set_public_example =
    share-set_public 1 (codes "f") (sound two_sites) with_hidden handlers now now today (codes "t2")
      (sound two_sites) blog_view hidden blog_shown

abbrev pub drawn : Drawn
drawn = record {
  api_key = codes "k3";
  uuid = codes "u3";
  script_token = codes "s3";
  collect_token = codes "c3";
}

abbrev left : World
left = (delete 2 (sound two_sites)).1

abbrev new_row : Website
new_row = record {
  id = 2;
  uuid = codes "u3";
  name = codes "new";
  domain = [];
  api_key_hash = codes "k3";
  script_token = codes "s3";
  collect_token = codes "c3";
  public = false;
  share_token = [];
  created_at = 5;
}

created :
    (create (λ k. k) 5 drawn (codes "new") [] left).0
    ≡ ok (site_of new_row, codes "k3", registry_of (shop ∷ new_row ∷ []))
unfolding create delete exec insert_site insert_checked confirm reload query uuid_taken clashes same
    next_id site_of
created = refl

newest : blog.id ≡ next_id (λ (r : Website). r.id) (shop ∷ [])
unfolding next_id
newest = refl

reused_id_example :
    ((site_of new_row).id ≡ 2)
    × ((from_ms to_ms : ℕ)
        → count_pageviews_in
            (site_of new_row).id
            from_ms
            to_ms
            (create (λ k. k) 5 drawn (codes "new") [] left).1.db
          ≡ count_pageviews_in 2 from_ms to_ms two_sites)
reused_id_example =
    reused_id (λ k. k) 5 drawn (codes "new") [] two_sites (shop ∷ []) blog (site_of new_row)
      (codes "k3") (registry_of (shop ∷ new_row ∷ [])) refl newest created

abbrev renewed : Registry
renewed =
    registry_of (record shop { script_token = codes "s9"; collect_token = codes "c9" } ∷ blog ∷ [])

regenerated : (regen_tokens 1 (codes "s9") (codes "c9") (sound two_sites)).0 ≡ ok renewed
unfolding regen_tokens insert_checked set_tokens clashes has_id reload query update_site same
regenerated = refl

abbrev pub handler : Handler
handler = record { js_global = codes "glimt"; base_url = [] }

abbrev pub snippet : Bytes
snippet = codes "x='__EP__'"

served : serve snippet handler (codes "h") renewed (codes "s2") ≡ some (codes "x='//h/e/c2'")
unfolding serve render replace_from key_here endpoint_base find_script registry_of add_rows add_site
    order_by_name insert_by_name get same is_empty bytes_less site_of has_prefix
served = refl

serve-regen_tokens_example :
    (s : Site) × (find_script renewed (codes "s2") ≡ some s)
    × (s.id ≢ 1)
    × (codes "x='//h/e/c2'"
        ≡ render snippet s.collect_token handler.js_global (endpoint_base handler (codes "h")))
serve-regen_tokens_example =
    serve-regen_tokens snippet handler (codes "h") 1 (codes "s9") (codes "c9") (sound two_sites)
      renewed (codes "s2") (codes "x='//h/e/c2'") regenerated served
      (λ e. let q : same (codes "s2") (codes "s9") ≡ true = (same_iff _ _).1 e in unfold same in cc)

abbrev texts : Texts
texts = record {
  fixed = λ q. codes "1.0";
  itoa = λ n. codes "1";
  format = λ layout ms. layout;
  escape = λ s. s;
}

abbrev point : Point
point = record { bucket = 0; pageviews = 3; visitors = 1 }

area_chart-some_example :
    (labels : List AxisLabel) × (area_chart texts day (point ∷ point ∷ [])
      ≡ some (svg texts day (point ∷ point ∷ []) labels))
    × All (IsLabel texts day (point ∷ point ∷ [])) labels
    × All IsInFrame (dots_of (point ∷ point ∷ []))
area_chart-some_example = area_chart-some texts day point (point ∷ [])
