-- ===== src/Ingest/Collector/Clients.antt =====
-- Whose address and country a request counts for.
use glimt.Base.{true, false, [], ◌≡◌, ◌≢◌, ◌⊎◌, arith, codes, same_iff, length}
use glimt.Ingest.Enrich.{External}
use glimt.Ingest.Collector.{Request, Settings, peer_ip, trust_peer, client_ip, country}

-- A client that does not connect through a trusted proxy cannot choose its address: whatever headers
-- it sends, the address is the one of the connection.
pub client_ip_untrusted :
    (e : External) (c : Settings) (r : Request)
    → trust_peer e c (peer_ip c r.remote_addr) ≡ false
    → client_ip e c r ≡ peer_ip c r.remote_addr
unfolding client_ip
client_ip_untrusted e c r h = ground arith

-- The country is empty, or it is a code of two letters that Cloudflare's header gives, while that
-- header is enabled, and neither of the two codes for no country.
pub country_valid :
    (c : Settings) (r : Request)
    → (country c r ≡ [])
      ⊎ ((c.cf_country ≡ true)
          × (country c r ≡ r.header (codes "CF-IPCountry"))
          × (length (country c r) ≡ 2)
          × (country c r ≢ codes "XX")
          × (country c r ≢ codes "T1"))
unfolding country
country_valid c r = ground (
  arith,
  same_iff (r.header (codes "CF-IPCountry")) (codes "XX"),
  same_iff (r.header (codes "CF-IPCountry")) (codes "T1"),
)
