-- ===== src/Ingest/Collector.antt =====
-- internal/ingest/collector.go: the ingest endpoint and the pixel.
--
-- A request is what the handlers read of it. net.SplitHostPort, json.Unmarshal and IPNet.Contains,
-- which the repository only calls, are fields of `Settings`.
pub mod Replies
pub mod Clients
use glimt.Base.{
  ℕ, ◌*◌, Bool, true, false, ◌&&◌, ◌||◌, not, Option, none, some, List, [], ◌∷◌, ◌++◌, Bytes, codes,
  same, is_empty, before, trim_space, ◌==◌, length, take, if◌then◌else◌,
}
use glimt.Base.Int.{pos}
use glimt.Model.{Site, Event}
use glimt.Store.Sql.{World}
use glimt.Sites.{Registry, find_collect}
use glimt.Ingest.Visitor.{SaltManager}
use glimt.Ingest.Enrich.{Payload, External, build}
use glimt.Ingest.Loop.{Ingestor, enqueue}

abbrev pub max_body : ℕ
max_body = 16 * 1024

pub record Request : Type 0 where
  pub token : Bytes
  pub body : Option Bytes  -- none: reading it fails
  pub header : Bytes → Bytes
  pub query : Bytes → Bytes
  pub remote_addr : Bytes
  pub user_agent : Bytes

pub record Response : Type 0 where
  pub status : ℕ
  pub headers : List (Bytes × Bytes)
  pub body : Bytes

-- The Collector's settings, and what it calls of the standard library.
pub record Settings : Type 0 where
  pub real_ip_header : Bytes
  pub trusted_nets : List (Bytes → Bool)
  pub cf_country : Bool
  pub split_host : Bytes → Option Bytes
  pub unmarshal : Bytes → Option Payload

-- What the handlers share and change.
pub record Server : Type 0 where
  pub registry : Registry
  pub ingestor : Ingestor
  pub salt : SaltManager

-- The clocks and random bytes of one request.
pub record Moment : Type 0 where
  pub now : ℕ
  pub hash_now : ℕ
  pub fresh : Option Bytes

abbrev pub cors_headers : List (Bytes × Bytes)
cors_headers =
    (codes "Access-Control-Allow-Origin", codes "*")
    ∷ (codes "Access-Control-Allow-Methods", codes "POST, OPTIONS")
    ∷ (codes "Access-Control-Allow-Headers", codes "Content-Type")
    ∷ (codes "Access-Control-Max-Age", codes "86400")
    ∷ []

unfoldable pub no_content : Response
no_content = record { status = 204; headers = cors_headers; body = [] }

abbrev pub transparent_gif : Bytes
transparent_gif =
    0x47 ∷ 0x49 ∷ 0x46 ∷ 0x38 ∷ 0x39 ∷ 0x61 ∷ 0x01 ∷ 0x00 ∷ 0x01 ∷ 0x00 ∷ 0x80 ∷ 0x00 ∷ 0x00 ∷ 0xff
    ∷ 0xff ∷ 0xff ∷ 0x00 ∷ 0x00 ∷ 0x00 ∷ 0x21 ∷ 0xf9 ∷ 0x04 ∷ 0x01 ∷ 0x00 ∷ 0x00 ∷ 0x00 ∷ 0x00
    ∷ 0x2c ∷ 0x00 ∷ 0x00 ∷ 0x00 ∷ 0x00 ∷ 0x01 ∷ 0x00 ∷ 0x01 ∷ 0x00 ∷ 0x00 ∷ 0x02 ∷ 0x02 ∷ 0x44
    ∷ 0x01 ∷ 0x00 ∷ 0x3b ∷ []

unfoldable pub serve_pixel : Response
serve_pixel = record {
  status = 200;
  headers =
      cors_headers
      ++ ((codes "Content-Type", codes "image/gif")
          ∷ (codes "Cache-Control", codes "no-cache, no-store, must-revalidate, private")
          ∷ (codes "Pragma", codes "no-cache")
          ∷ (codes "Expires", codes "0")
          ∷ []);
  body = transparent_gif;
}

unfoldable pub peer_ip : Settings → Bytes → Bytes
peer_ip c remote_addr = elim (c.split_host remote_addr) [ none ↦ remote_addr | some host ↦ host ]

unfoldable pub any_contains : List (Bytes → Bool) → Bytes → Bool
any_contains [] ip = false
any_contains (net ∷ nets) ip = net ip || any_contains nets ip

unfoldable pub trust_peer : External → Settings → Bytes → Bool
unfolding any_contains
trust_peer e c ip = elim c.trusted_nets [
  | [] ↦ true
  | net ∷ nets ↦ elim (e.parse_ip ip) [
    | none ↦ false
    | some parsed ↦ any_contains (net ∷ nets) parsed
  ]
]

unfoldable pub client_ip : External → Settings → Request → Bytes
unfolding peer_ip
client_ip e c r =
    let peer = peer_ip c r.remote_addr in
    let v = r.header c.real_ip_header in
    if not (is_empty c.real_ip_header) && trust_peer e c peer && not (is_empty v)
    then trim_space (before b',' v)
    else peer

unfoldable pub country : Settings → Request → Bytes
country c r =
    let cc_code = r.header (codes "CF-IPCountry") in
    if not c.cf_country
    then []
    else if not (length cc_code == 2) || same cc_code (codes "XX") || same cc_code (codes "T1")
    then []
    else cc_code

-- build and Enqueue, as both handlers call them
unfoldable pub collect : External → Settings → Moment → Request → Site → Payload → Server → Server
collect e c m r site p s =
    let ip = client_ip e c r in
    let (ev, salt, world) =
      build e m.now m.hash_now m.fresh site p ip r.user_agent (r.header (codes "Accept-Language"))
        (country c r) s.salt s.ingestor.world in
    record s { ingestor = (enqueue ev (record s.ingestor { world = world })).0; salt = salt }

unfoldable pub preflight : Response
unfolding no_content
preflight = no_content

-- json.Unmarshal of what the limited reader gives
unfoldable pub read_payload : Settings → Request → Option Payload
read_payload c r = elim r.body [ none ↦ none | some body ↦ c.unmarshal (take max_body body) ]

-- A known site's request, given its payload.
unfoldable pub handle_payload :
    External → Settings → Moment → Request → Site → Option Payload → Server → Response × Server
unfolding no_content
handle_payload e c m r site none s = (no_content, s)
handle_payload e c m r site (some p) s = (no_content, collect e c m r site p s)

unfoldable pub handle_site :
    External → Settings → Moment → Request → Option Site → Server → Response × Server
unfolding read_payload handle_payload
handle_site e c m r none s = (no_content, s)
handle_site e c m r (some site) s = handle_payload e c m r site (read_payload c r) s

unfoldable pub handle : External → Settings → Moment → Request → Server → Response × Server
unfolding handle_site
handle e c m r s = handle_site e c m r (find_collect s.registry r.token) s

abbrev pub or_else : Bytes → Bytes → Bytes
or_else [] d = d
or_else (x ∷ s) d = x ∷ s

unfoldable pub pixel_payload : Request → Site → Payload
pixel_payload r site =
    let referer = r.header (codes "Referer") in
    record {
      n = r.query (codes "n");
      u =
          or_else (or_else (r.query (codes "u")) referer)
            (codes "http://" ++ site.domain ++ codes "/pixel");
      r = referer;
      w = pos 0;
      h = pos 0;
      l = [];
      t = or_else (r.query (codes "t")) (codes "Pixel");
      hn = [];
      lcp = pos 0;
      inp = pos 0;
      cls = pos 0;
      ttfb = pos 0;
      val = pos 0;
      p = [];
    }

unfoldable pub pixel_site :
    External → Settings → Moment → Request → Option Site → Server → Response × Server
unfolding serve_pixel pixel_payload
pixel_site e c m r none s = (serve_pixel, s)
pixel_site e c m r (some site) s = (serve_pixel, collect e c m r site (pixel_payload r site) s)

unfoldable pub handle_pixel : External → Settings → Moment → Request → Server → Response × Server
unfolding pixel_site
handle_pixel e c m r s = pixel_site e c m r (find_collect s.registry r.token) s
