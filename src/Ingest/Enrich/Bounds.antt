-- ===== src/Ingest/Enrich/Bounds.antt =====
-- The bounds on the texts of an event.
use glimt.Base.{
  ℕ, ◌≤◌, false, Option, none, some, List, [], ◌∷◌, ◌≡◌, inl, inr, arith, Bytes, Unicode,
  Bool-cases, same, is_empty, length, length-take, All,
}
use glimt.Base.Int.{ℤ, pos, negsuc}
use glimt.Model.{Site, Event}
use glimt.Store.Sql.{World}
use glimt.Ingest.Visitor.{SaltManager, hash}
use glimt.Ingest.Enrich.{
  Payload, Url, External, truncate, without_slashes, clean_path, screen_bucket, norm_lang, assign,
  build_props, with_url, assemble, build,
}

pub length-truncate : (s : Bytes) (n : ℕ) → length (truncate s n) ≤ n
unfolding truncate
length-truncate s n = ground (arith, length-take n s)

length-clean_path : (p : Bytes) → length (clean_path p) ≤ 512
unfolding clean_path
length-clean_path [] = omega arith
length-clean_path (c ∷ p) = length-truncate (without_slashes (c ∷ p)) 512

length-norm_lang : (u : Unicode) (l : Bytes) → length (norm_lang u l) ≤ 8
unfolding norm_lang
length-norm_lang u l = ground arith

abbrev IsShort : Bytes × Bytes → Type 0
IsShort p = (length p.0 ≤ 60) × (length p.1 ≤ 200)

assign-IsShort :
    (k v : Bytes) (m : List (Bytes × Bytes))
    → length k ≤ 60
    → length v ≤ 200
    → All IsShort m
    → All IsShort (assign k v m)
unfolding assign
assign-IsShort k v [] hk hv h = ((hk, hv), tt)
assign-IsShort k v (p ∷ m) hk hv h = elim (Bool-cases (same p.0 k)) [
  | inl e ↦ rw e ((hk, hv), h.1)
  | inr e ↦ rw e (h.0, assign-IsShort k v m hk hv h.1)
]

build_props-IsShort : (p m : List (Bytes × Bytes)) → All IsShort m → All IsShort (build_props p m)
unfolding build_props
build_props-IsShort [] m h = h
build_props-IsShort ((k, v) ∷ p) m h = build_props-IsShort p _ (
    assign-IsShort (truncate k 60) (truncate v 200) m (length-truncate k 60) (length-truncate v 200)
      h)

-- The sizes in bytes of the texts that build bounds.
pub record IsBounded (ev : Event) : Type 0 where
  pub page_title : length ev.page_title ≤ 255
  pub hostname : length ev.hostname ≤ 100
  pub url_path : length ev.url_path ≤ 512
  pub name : length ev.name ≤ 80
  pub language : length ev.language ≤ 8
  pub screen_bucket : length ev.screen_bucket ≤ 6
  pub kind : ev.kind ≤ 1
  pub props : All IsShort ev.props

with_url-IsBounded : (o : Option Url) (ev : Event) → IsBounded ev → IsBounded (with_url o ev)
unfolding with_url
with_url-IsBounded none ev h = h
with_url-IsBounded (some u) ev h = record {
  page_title = h.page_title;
  hostname = ground (arith, length-truncate u.hostname 100);
  url_path = length-clean_path u.path;
  name = h.name;
  language = h.language;
  screen_bucket = h.screen_bucket;
  kind = h.kind;
  props = h.props;
}

length-screen_bucket : (w : ℤ) → length (screen_bucket w) ≤ 6
unfolding screen_bucket
length-screen_bucket (negsuc n) = omega arith
length-screen_bucket (pos n) = ground arith

-- Whatever the payload, the headers and the parsers give, build keeps the title within 255 bytes, the
-- host name within 100, the path within 512, the event name within 80, the language within 8, the
-- screen bucket within 6, and each property within 60 for its key and 200 for its value. The type of
-- the event is 0 or 1. (It does not cut the referrer and the utm texts.)
pub build-IsBounded :
    (e : External) (now hash_now : ℕ) (fresh : Option Bytes) (site : Site) (p : Payload)
    (ip user_agent accept_lang geo_country : Bytes) (sm : SaltManager) (w : World)
    → IsBounded (build e now hash_now fresh site p ip user_agent accept_lang geo_country sm w).0
unfolding build assemble
build-IsBounded e now hash_now fresh site p ip user_agent accept_lang geo_country sm w =
    with_url-IsBounded (e.parse_url p.u) _ (record {
      page_title = length-truncate p.t 255;
      hostname = length-truncate p.hn 100;
      url_path = omega arith;
      name = ground (arith, length-truncate p.n 80);
      language = length-norm_lang e.unicode _;
      screen_bucket = length-screen_bucket p.w;
      kind = ground arith;
      props = build_props-IsShort p.p [] tt;
    })

-- The address of a visitor reaches the event only through the hash and the place: two addresses with
-- one hash, where the proxy names the country, give one event.
pub build_forgets_ip :
    (e : External) (now hash_now : ℕ) (fresh : Option Bytes) (site : Site) (p : Payload)
    (ip ip' user_agent accept_lang geo_country : Bytes) (sm : SaltManager) (w : World)
    → is_empty geo_country ≡ false
    → (hash e.sha256 hash_now fresh sm site.id ip user_agent w).0
      ≡ (hash e.sha256 hash_now fresh sm site.id ip' user_agent w).0
    → (build e now hash_now fresh site p ip user_agent accept_lang geo_country sm w).0
      ≡ (build e now hash_now fresh site p ip' user_agent accept_lang geo_country sm w).0
unfolding build
build_forgets_ip e now hash_now fresh site p ip ip' user_agent accept_lang geo_country sm w c h =
    rw (c, h)
