-- ===== src/Tests/Enrich.antt =====
-- internal/ingest/enrich.go: one payload.
use glimt.Base.{false, none, some, [], ◌∷◌, ◌≡◌, refl, codes, is_empty}
use glimt.Base.Int.{pos}
use glimt.Model.{Site}
use glimt.Store.Tables.{empty_db}
use glimt.Store.Sql.{sound}
use glimt.Referrer.{search_engines, social_networks}
use glimt.Ingest.Visitor.{new_manager, hash}
use glimt.Ingest.Enrich.{Payload, External, build, clean_path}
use glimt.Ingest.Enrich.Bounds.{IsBounded, build-IsBounded}
use glimt.Ingest.Enrich.Paths.{slashes, clean_path-slashes}

abbrev pub external : External
external = record {
  unicode = record { lower_wide = λ s. s; upper_wide = λ s. s };
  parse_url = λ s.
      some (record { path = codes "/a/"; host = codes "h"; hostname = codes "h"; query = λ k. [] });
  parse_ip = λ s. some s;
  parse_agent = λ s. record {
    bot = false;
    tablet = false;
    mobile = false;
    name = codes "Firefox";
    version = codes "1.2";
    os = codes "Linux";
  };
  sha256 = λ s. codes "h";
  geo = none;
  engines = search_engines;
  networks = social_networks;
}

abbrev pub site : Site
site = record {
  id = 7;
  uuid = codes "u";
  name = codes "shop";
  domain = codes "shop.se";
  api_key_hash = [];
  script_token = codes "s";
  collect_token = codes "c";
  public = false;
  share_token = [];
  created_at = 0;
}

abbrev pub payload : Payload
payload = record {
  n = [];
  u = codes "https://h/a/";
  r = [];
  w = pos 800;
  h = pos 600;
  l = codes "sv-SE";
  t = codes "Title";
  hn = [];
  lcp = pos 0;
  inp = pos 0;
  cls = pos 0;
  ttfb = pos 0;
  val = pos 0;
  p = (codes "k", codes "v") ∷ [];
}

build-IsBounded_example :
    IsBounded
      (build external 5 6
        (some (codes "z"))
        site
        payload
        (codes "1.1.1.1")
        []
        []
        []
        new_manager
        (sound empty_db)).0
build-IsBounded_example =
    build-IsBounded external 5 6 (some (codes "z")) site payload (codes "1.1.1.1") [] [] []
      new_manager (sound empty_db)

named_country : is_empty (codes "SE") ≡ false
unfolding is_empty
named_country = refl

one_hash :
    (hash external.sha256 6 none new_manager 7 (codes "1.1.1.1") [] (sound empty_db)).0
    ≡ (hash external.sha256 6 none new_manager 7 (codes "2.2.2.2") [] (sound empty_db)).0
unfolding hash
one_hash = refl

clean_path-slashes_example : clean_path (codes "//") ≡ []
unfolding slashes
clean_path-slashes_example = clean_path-slashes 0
