-- ===== src/Tests/Web.antt =====
-- internal/web/web.go: requests without a session.
use glimt.Base.{◌≡◌, refl, true, some, [], codes, same, is_empty}
use glimt.Store.Sql.{sound, query}
use glimt.Auth.{redirect_to_login, require_session, valid, judge, find_session}
use glimt.Ingest.Visitor.{new_manager}
use glimt.Ingest.Loop.{start}
use glimt.Ingest.Collector.{Server}
use glimt.Web.{App, Call, Pick, world_of, serve_call}
use glimt.Web.Gate.{IsKept, unsigned-IsKept}
use glimt.Tests.Enrich.{external}
use glimt.Tests.Collector.{settings, request, moment}
use glimt.Tests.Auth.{crypto}
use glimt.Tests.Dashboard.{handlers, today, registry, two_sites, drawn, handler, snippet}
use glimt.Tests.Sample.{now}

abbrev pub app : App
app = record {
  external = external;
  settings = settings;
  tracker = handler;
  snippet = snippet;
  handlers = handlers;
  auth = record { ttl = 3600000000000; secure = true };
  crypto = crypto;
  hash_key = λ k. k;
  itoa = λ n. codes "1";
}

-- A form that deletes website 1, with the cookie of no session.
abbrev pub call : Call
call = record {
  method = codes "POST";
  path = codes "/settings/sites/delete";
  request = request;
  host = codes "h";
  cookie = some (codes "stale");
  params = today;
  form = record { parsed = true; value = λ k. codes "1" };
  moment = moment;
  now_ns = 2000000;
  now_ms = now;
  later_ms = now;
  random = some (codes "tok");
  password_salt = some (codes "zz");
  drawn = drawn;
  script_token = codes "s9";
  collect_token = codes "c9";
  share_token = codes "t9";
}

abbrev serving : Server
serving = record { registry = registry; ingestor = start (sound two_sites); salt = new_manager }

-- The route that deletes a website is the 16th after the first; the page of a token is the 7th.
abbrev deletes : Pick
deletes routes method path = some (16, [])

abbrev shares : Pick
shares routes method path = some (7, codes "t1")

stale : (require_session 2000000 (some (codes "stale")) (world_of serving)).0 ≡ redirect_to_login
unfolding require_session valid judge query find_session is_empty same start
stale = refl

unsigned-IsKept_example :
    IsKept (world_of serving).db (world_of (serve_call app deletes call serving).1).db
    × ((serve_call app deletes call serving).1.registry ≡ registry)
unsigned-IsKept_example = unsigned-IsKept app deletes call serving stale
