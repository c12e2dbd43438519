-- ===== src/Ingest/Enrich.antt =====
-- internal/ingest/enrich.go: from a payload and a request to an event.
--
-- What the repository only calls is in the record `External`: the tables of Unicode, net/url.Parse,
-- net.ParseIP, the User-Agent parser, sha256, the geo database and the orders of Go's maps.
pub mod Bounds
pub mod Paths
use glimt.Base.{
  ℕ, Bool, ◌&&◌, ◌||◌, Option, none, some, List, [], ◌∷◌, ◌++◌, Bytes, codes, same, is_empty,
  has_suffix, before, Unicode, trim_right, trim_space, to_lower, ltb, leb, length, take,
  if◌then◌else◌,
}
use glimt.Base.Int.{ℤ, pos, negsuc}
use glimt.Model.{Site, Event, Millionths, type_pageview, type_custom}
use glimt.Store.Sql.{World}
use glimt.Ingest.Visitor.{SaltManager, hash}
use glimt.Ua
use glimt.Geo
use glimt.Referrer

-- JSON's object of strings is in the order in which Go goes through the map.
pub record Payload : Type 0 where
  pub n : Bytes
  pub u : Bytes
  pub r : Bytes
  pub w : ℤ
  pub h : ℤ
  pub l : Bytes
  pub t : Bytes
  pub hn : Bytes
  pub lcp : Millionths
  pub inp : Millionths
  pub cls : Millionths
  pub ttfb : Millionths
  pub val : Millionths
  pub p : List (Bytes × Bytes)

-- What the source reads of a parsed URL; `query` is `u.Query().Get`.
pub record Url : Type 0 where
  pub path : Bytes
  pub host : Bytes
  pub hostname : Bytes
  pub query : Bytes → Bytes

pub record External : Type 0 where
  pub unicode : Unicode
  pub parse_url : Bytes → Option Url
  pub parse_ip : Bytes → Option Bytes
  pub parse_agent : Bytes → Ua.UserAgent
  pub sha256 : Bytes → Bytes
  pub geo : Geo.Geo
  pub engines : Referrer.Table
  pub networks : Referrer.Table

unfoldable pub truncate : Bytes → ℕ → Bytes
truncate s n = if ltb n (length s) then take n s else s

-- `if len(p) > 1 && strings.HasSuffix(p, "/") { p = strings.TrimRight(p, "/") }`
unfoldable pub without_slashes : Bytes → Bytes
without_slashes p = if ltb 1 (length p) && has_suffix p (codes "/") then trim_right b'/' p else p

unfoldable pub clean_path : Bytes → Bytes
clean_path [] = codes "/"
clean_path (c ∷ p) = truncate (without_slashes (c ∷ p)) 512

unfoldable pub screen_bucket : ℤ → Bytes
screen_bucket (negsuc n) = []
screen_bucket (pos n) =
    if leb n 0
    then []
    else if ltb n 640
    then codes "small"
    else if ltb n 1024
    then codes "medium"
    else if ltb n 1440
    then codes "large"
    else codes "xlarge"

-- `before` is the identity on the empty text, as the first test of the source is
unfoldable pub first_lang : Bytes → Bytes
first_lang accept = if is_empty accept then [] else trim_space (before b';' (before b',' accept))

unfoldable pub norm_lang : Unicode → Bytes → Bytes
norm_lang u l =
    let primary = before b'-' (to_lower u (trim_space l)) in
    if ltb 8 (length primary) then [] else primary

-- `m[k] = v`
unfoldable pub assign : Bytes → Bytes → List (Bytes × Bytes) → List (Bytes × Bytes)
assign k v [] = (k, v) ∷ []
assign k v ((j, x) ∷ m) = if same j k then (k, v) ∷ m else (j, x) ∷ assign k v m

-- The loop over the payload's props, from the map made so far.
unfoldable pub build_props : List (Bytes × Bytes) → List (Bytes × Bytes) → List (Bytes × Bytes)
unfolding assign
build_props [] m = m
build_props ((k, v) ∷ p) m = build_props p (assign (truncate k 60) (truncate v 200) m)

-- `if u, err := url.Parse(p.U); err == nil { … }`
unfoldable pub with_url : Option Url → Event → Event
unfolding clean_path
with_url none ev = ev
with_url (some u) ev = record ev {
  url_path = clean_path u.path;
  hostname = if is_empty ev.hostname then truncate u.hostname 100 else ev.hostname;
  utm_source = u.query (codes "utm_source");
  utm_medium = u.query (codes "utm_medium");
  utm_campaign = u.query (codes "utm_campaign");
  utm_term = u.query (codes "utm_term");
  utm_content = u.query (codes "utm_content");
}

-- The event name in the payload means a pageview.
unfoldable pub is_pageview : Bytes → Bool
is_pageview n = is_empty n || same n (codes "pageview")

-- The host that referrer.Classify reads of a URL.
abbrev pub host_of : External → Bytes → Option Bytes
host_of e s = elim (e.parse_url s) [ none ↦ none | some u ↦ some u.host ]

-- Country, region and city, by the header or by the database.
unfoldable pub locate : External → Bytes → Bytes → Bytes × Bytes × Bytes
locate e ip geo_country =
    if is_empty geo_country then Geo.lookup e.parse_ip e.geo ip else (geo_country, [], [])

-- The event, given the visitor's hash and the place.
unfoldable pub assemble :
    External → ℕ → Bytes → Bytes × Bytes × Bytes → Site → Payload → Bytes → Bytes → Event
unfolding is_pageview with_url
assemble e now visitor_hash place site p user_agent accept_lang =
    let r = Ua.parse e.parse_agent user_agent in
    let class = Referrer.classify e.unicode (host_of e) e.engines e.networks p.r site.domain in
    with_url (e.parse_url p.u) (record {
      website_id = site.id;
      visitor_hash = visitor_hash;
      ts = now;
      kind = if is_pageview p.n then type_pageview else type_custom;
      name = if is_pageview p.n then [] else truncate p.n 80;
      url_path = [];
      page_title = truncate p.t 255;
      hostname = truncate p.hn 100;
      referrer = p.r;
      ref_class = class.0;
      ref_source = class.1;
      utm_source = [];
      utm_medium = [];
      utm_campaign = [];
      utm_term = [];
      utm_content = [];
      browser = r.browser;
      browser_ver = r.browser_ver;
      os = r.os;
      device = r.device;
      screen_bucket = screen_bucket p.w;
      language = norm_lang e.unicode (if is_empty p.l then first_lang accept_lang else p.l);
      country = place.0;
      region = place.1;
      city = place.2;
      lcp = p.lcp;
      inp = p.inp;
      cls = p.cls;
      ttfb = p.ttfb;
      val = p.val;
      props = build_props p.p [];
    })

-- `now` is the clock of build and `hash_now` that of Hash; `fresh` are the bytes for a new salt.
unfoldable pub build :
    External
    → ℕ
    → ℕ
    → Option Bytes
    → Site
    → Payload
    → Bytes
    → Bytes
    → Bytes
    → Bytes
    → SaltManager
    → World
    → Event × SaltManager × World
unfolding locate
build e now hash_now fresh site p ip user_agent accept_lang geo_country sm w =
    let (visitor_hash, sm', w') = hash e.sha256 hash_now fresh sm site.id ip user_agent w in
    (assemble e now visitor_hash (locate e ip geo_country) site p user_agent accept_lang, sm', w')
