-- ===== src/Tests/Sample.antt =====
-- Rows that the tests of the rollup, the queries and the dashboard share.
use glimt.Base.{ℕ, [], ◌∷◌, codes, true}
use glimt.Base.Int.{pos}
use glimt.Model.{Event, type_pageview}
use glimt.Store.Tables.{Db, Session, Website, empty_db}

-- A view of /a on website 1, an hour after the start of day 20000.
abbrev pub view : Event
view = record {
  website_id = 1;
  visitor_hash = codes "v";
  ts = 1728003600000;
  kind = type_pageview;
  name = [];
  url_path = codes "/a";
  page_title = [];
  hostname = [];
  referrer = [];
  ref_class = 0;
  ref_source = [];
  utm_source = [];
  utm_medium = [];
  utm_campaign = [];
  utm_term = [];
  utm_content = [];
  browser = [];
  browser_ver = [];
  os = [];
  device = [];
  screen_bucket = [];
  language = [];
  country = [];
  region = [];
  city = [];
  lcp = pos 0;
  inp = pos 0;
  cls = pos 0;
  ttfb = pos 0;
  val = pos 0;
  props = [];
}

-- A second later, a view of /b.
abbrev pub view_b : Event
view_b = record view { ts = 1728003601000; url_path = codes "/b" }

abbrev pub session : Session
session = record {
  id = 1;
  website_id = 1;
  visitor_hash = codes "v";
  day = 20000;
  started_at = 1728003600000;
  last_seen_at = 1728003601000;
  entry_path = codes "/a";
  exit_path = codes "/b";
  pageviews = 2;
  events = 2;
  is_bounce = 0;
  country = [];
  browser = [];
  os = [];
  device = [];
  ref_class = 0;
  ref_source = [];
  city = [];
}

abbrev pub shop : Website
shop = record {
  id = 1;
  uuid = codes "u1";
  name = codes "shop";
  domain = codes "shop.se";
  api_key_hash = [];
  script_token = codes "s1";
  collect_token = codes "c1";
  public = true;
  share_token = codes "t1";
  created_at = 0;
}

-- The two views and a view of website 2, with a rollup of website 1 only.
abbrev pub db : Db
db = record empty_db {
  websites = shop ∷ [];
  events =
      record { id = 1; session_id = 1; event = view }
      ∷ record { id = 2; session_id = 1; event = view_b }
      ∷ record { id = 3; session_id = 2; event = record view { website_id = 2 } }
      ∷ [];
  sessions = session ∷ [];
  rollup_stats =
      record { website_id = 1; bucket_hour = 480001; pageviews = 2; visitors = 1; sessions = 1 }
      ∷ [];
}

-- Half an hour after the views.
abbrev pub now : ℕ
now = 1728005400000
