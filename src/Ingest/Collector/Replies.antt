-- ===== src/Ingest/Collector/Replies.antt =====
-- What the two endpoints answer, and what they count.
use glimt.Base.{
  ℕ, Option, none, some, [], ◌∷◌, ◌++◌, ◌≡◌, sym, ◌∙◌, ◌⊎◌, inl, inr, refl, arith, Bytes, codes,
}
use glimt.Model.{Site, Event}
use glimt.Sites.{find_collect}
use glimt.Store.Sql.{World}
use glimt.Ingest.Visitor.{SaltManager}
use glimt.Ingest.Enrich.{Payload, Url, External, build, assemble, with_url}
use glimt.Ingest.Enrich.Bounds.{IsBounded, build-IsBounded}
use glimt.Ingest.Loop.{Ingestor, enqueue}
use glimt.Ingest.Collector.{
  Request, Settings, Server, Moment, collect, client_ip, country, pixel_payload, handle,
  handle_payload, handle_site, handle_pixel, pixel_site, no_content, serve_pixel, read_payload,
}

handle_payload-reply :
    (e : External) (c : Settings) (m : Moment) (r : Request) (site : Site) (o : Option Payload)
    (s : Server)
    → (handle_payload e c m r site o s).0 ≡ no_content
unfolding handle_payload
handle_payload-reply e c m r site none s = refl
handle_payload-reply e c m r site (some p) s = refl

handle_site-reply :
    (e : External) (c : Settings) (m : Moment) (r : Request) (o : Option Site) (s : Server)
    → (handle_site e c m r o s).0 ≡ no_content
unfolding handle_site
handle_site-reply e c m r none s = refl
handle_site-reply e c m r (some site) s = handle_payload-reply e c m r site _ s

pixel_site-reply :
    (e : External) (c : Settings) (m : Moment) (r : Request) (o : Option Site) (s : Server)
    → (pixel_site e c m r o s).0 ≡ serve_pixel
unfolding pixel_site
pixel_site-reply e c m r none s = refl
pixel_site-reply e c m r (some site) s = refl

-- The answers tell nothing: whatever the token, the body, the headers and the state, a POST gets one
-- and the same response, and so does a request of the pixel.
replies_constant :
    (e : External) (c : Settings) (m m' : Moment) (r r' : Request) (s s' : Server)
    → ((handle e c m r s).0 ≡ (handle e c m' r' s').0)
      × ((handle_pixel e c m r s).0 ≡ (handle_pixel e c m' r' s').0)
unfolding handle handle_pixel
replies_constant e c m m' r r' s s' = (
  handle_site-reply e c m r (find_collect s.registry r.token) s
      ∙ sym (handle_site-reply e c m' r' (find_collect s'.registry r'.token) s'),
  pixel_site-reply e c m r (find_collect s.registry r.token) s
      ∙ sym (pixel_site-reply e c m' r' (find_collect s'.registry r'.token) s'),
)

-- What a request may add to the accepted events.
pub data Accepted (s s' : Server) (token : Bytes) : Type 0 where
  nothing : s'.ingestor.accepted ≡ s.ingestor.accepted → Accepted s s' token
  one :
      (site : Site) (ev : Event)
      → find_collect s.registry token ≡ some site
      → ev.website_id ≡ site.id
      → IsBounded ev
      → s'.ingestor.accepted ≡ s.ingestor.accepted ++ ev ∷ []
      → Accepted s s' token

with_url-website_id : (o : Option Url) (ev : Event) → (with_url o ev).website_id ≡ ev.website_id
unfolding with_url
with_url-website_id none ev = refl
with_url-website_id (some u) ev = refl

build-website_id :
    (e : External) (now hash_now : ℕ) (fresh : Option Bytes) (site : Site) (p : Payload)
    (ip user_agent accept_lang geo_country : Bytes) (sm : SaltManager) (w : World)
    → (build e now hash_now fresh site p ip user_agent accept_lang geo_country sm w).0.website_id
      ≡ site.id
unfolding build assemble
build-website_id e now hash_now fresh site p ip user_agent accept_lang geo_country sm w =
    with_url-website_id (e.parse_url p.u) _

enqueue-accepted :
    (ev : Event) (s : Ingestor)
    → ((enqueue ev s).0.accepted ≡ s.accepted) ⊎ ((enqueue ev s).0.accepted ≡ s.accepted ++ ev ∷ [])
unfolding enqueue
enqueue-accepted ev s = ground arith

collect-Accepted :
    (e : External) (c : Settings) (m : Moment) (r : Request) (site : Site) (p : Payload)
    (s : Server)
    → find_collect s.registry r.token ≡ some site
    → Accepted s (collect e c m r site p s) r.token
unfolding collect
collect-Accepted e c m r site p s h =
    elim (enqueue-accepted
      (build e m.now m.hash_now m.fresh site p (client_ip e c r) r.user_agent
        (r.header (codes "Accept-Language")) (country c r) s.salt s.ingestor.world).0
      (record s.ingestor {
        world =
            (build e m.now m.hash_now m.fresh site p (client_ip e c r) r.user_agent
              (r.header (codes "Accept-Language")) (country c r) s.salt s.ingestor.world).2;
      })) [
        | inl a ↦ nothing a
        | inr a ↦
            one site _ h (build-website_id e m.now m.hash_now m.fresh site p _ _ _ _ _ _)
              (build-IsBounded e m.now m.hash_now m.fresh site p _ _ _ _ _ _) a
      ]

handle_payload-Accepted :
    (e : External) (c : Settings) (m : Moment) (r : Request) (site : Site) (o : Option Payload)
    (s : Server)
    → find_collect s.registry r.token ≡ some site
    → Accepted s (handle_payload e c m r site o s).1 r.token
unfolding handle_payload
handle_payload-Accepted e c m r site none s h = nothing refl
handle_payload-Accepted e c m r site (some p) s h = collect-Accepted e c m r site p s h

handle_site-Accepted :
    (e : External) (c : Settings) (m : Moment) (r : Request) (o : Option Site) (s : Server)
    → find_collect s.registry r.token ≡ o
    → Accepted s (handle_site e c m r o s).1 r.token
unfolding handle_site
handle_site-Accepted e c m r none s h = nothing refl
handle_site-Accepted e c m r (some site) s h =
    handle_payload-Accepted e c m r site (read_payload c r) s h

pixel_site-Accepted :
    (e : External) (c : Settings) (m : Moment) (r : Request) (o : Option Site) (s : Server)
    → find_collect s.registry r.token ≡ o
    → Accepted s (pixel_site e c m r o s).1 r.token
unfolding pixel_site
pixel_site-Accepted e c m r none s h = nothing refl
pixel_site-Accepted e c m r (some site) s h =
    collect-Accepted e c m r site (pixel_payload r site) s h

-- A request counts for the site whose collect token is in its path and for no other: by either
-- endpoint the accepted events stay as they are, or the registry has a site with the token and one
-- event of that site, within its bounds, is added at the end.
pub handle-Accepted :
    (e : External) (c : Settings) (m : Moment) (r : Request) (s : Server)
    → Accepted s (handle e c m r s).1 r.token × Accepted s (handle_pixel e c m r s).1 r.token
unfolding handle handle_pixel
handle-Accepted e c m r s =
    (handle_site-Accepted e c m r _ s refl, pixel_site-Accepted e c m r _ s refl)
