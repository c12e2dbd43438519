-- ===== src/Tests/Collector.antt =====
-- internal/ingest/collector.go: requests with the token of a site.
use glimt.Base.{true, false, some, [], ◌∷◌, ◌≡◌, refl, codes, same}
use glimt.Store.Tables.{empty_db}
use glimt.Store.Sql.{sound}
use glimt.Sites.{Registry, empty_registry}
use glimt.Ingest.Visitor.{new_manager}
use glimt.Ingest.Loop.{start}
use glimt.Ingest.Collector.{
  Request, Settings, Server, Moment, handle, handle_pixel, peer_ip, trust_peer, any_contains,
}
use glimt.Ingest.Collector.Replies.{Accepted, handle-Accepted}
use glimt.Tests.Enrich.{external, site, payload}

-- A proxy at 10.0.0.1 is trusted.
abbrev pub settings : Settings
settings = record {
  real_ip_header = codes "X-Real-IP";
  trusted_nets = (λ ip. same ip (codes "10.0.0.1")) ∷ [];
  cf_country = true;
  split_host = λ s. some s;
  unmarshal = λ s. some payload;
}

-- Every header says SE.
abbrev pub request : Request
request = record {
  token = codes "c";
  body = some (codes "{}");
  header = λ k. codes "SE";
  query = λ k. [];
  remote_addr = codes "9.9.9.9";
  user_agent = [];
}

abbrev registry : Registry
registry = record empty_registry { by_collect = (codes "c", site) ∷ [] }

abbrev pub server : Server
server = record { registry = registry; ingestor = start (sound empty_db); salt = new_manager }

abbrev pub moment : Moment
moment = record { now = 5; hash_now = 6; fresh = some (codes "z") }

handle-Accepted_example :
    Accepted server (handle external settings moment request server).1 (codes "c")
    × Accepted server (handle_pixel external settings moment request server).1 (codes "c")
handle-Accepted_example = handle-Accepted external settings moment request server

untrusted : trust_peer external settings (peer_ip settings (codes "9.9.9.9")) ≡ false
unfolding trust_peer peer_ip any_contains same
untrusted = refl
