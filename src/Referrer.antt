-- ===== src/Referrer.antt =====
-- internal/referrer/referrer.go: the class and the source of a referrer.
--
-- `url_host` stands for the Host of net/url.Parse, `none` where the text does not parse. Go iterates
-- over a map in an order of its own, so the tables are arguments of `classify`, in any order.
pub mod Order
use glimt.Base.{
  ℕ, Bool, Option, none, some, List, [], ◌∷◌, ◌++◌, Bytes, codes, Unicode, to_lower, before,
  contains, same, has_suffix, trim_prefix, is_empty, ◌||◌, if◌then◌else◌,
}
use glimt.Model.{ref_direct, ref_search, ref_social, ref_referral, ref_internal}

abbrev pub Table : Type 0
Table = List (Bytes × Bytes)

abbrev pub search_engines : Table
search_engines =
    (codes "google.", codes "Google")
    ∷ (codes "bing.", codes "Bing")
    ∷ (codes "duckduckgo.", codes "DuckDuckGo")
    ∷ (codes "yahoo.", codes "Yahoo")
    ∷ (codes "yandex.", codes "Yandex")
    ∷ (codes "baidu.", codes "Baidu")
    ∷ (codes "ecosia.", codes "Ecosia")
    ∷ (codes "search.brave", codes "Brave")
    ∷ (codes "startpage.", codes "Startpage")
    ∷ (codes "qwant.", codes "Qwant")
    ∷ []

abbrev pub social_networks : Table
social_networks =
    (codes "t.co", codes "Twitter")
    ∷ (codes "twitter.", codes "Twitter")
    ∷ (codes "x.com", codes "X")
    ∷ (codes "facebook.", codes "Facebook")
    ∷ (codes "fb.", codes "Facebook")
    ∷ (codes "instagram.", codes "Instagram")
    ∷ (codes "linkedin.", codes "LinkedIn")
    ∷ (codes "lnkd.in", codes "LinkedIn")
    ∷ (codes "reddit.", codes "Reddit")
    ∷ (codes "youtube.", codes "YouTube")
    ∷ (codes "youtu.be", codes "YouTube")
    ∷ (codes "pinterest.", codes "Pinterest")
    ∷ (codes "mastodon", codes "Mastodon")
    ∷ (codes "t.me", codes "Telegram")
    ∷ (codes "news.ycombinator", codes "Hacker News")
    ∷ (codes "bsky.", codes "Bluesky")
    ∷ (codes "tiktok.", codes "TikTok")
    ∷ []

-- `for k, v := range table { if strings.Contains(host, k) { return …, v } }`
unfoldable pub first_match : Bytes → Table → Option Bytes
first_match host [] = none
first_match host ((k, v) ∷ rest) = if contains host k then some v else first_match host rest

-- ownDomain is set and the host is it or ends in a dot and it
unfoldable pub is_own : Unicode → Bytes → Bytes → Bool
is_own u host [] = Bool.false
is_own u host (c ∷ domain) =
    let own = to_lower u (c ∷ domain) in same host own || has_suffix host (b'.' ∷ own)

-- The host in lower case and without its port.
unfoldable pub host_name : Unicode → Bytes → Bytes
host_name u host = before b':' (to_lower u host)

unfoldable pub by_host : Unicode → Table → Table → Bytes → Bytes → ℕ × Bytes
by_host u engines networks host own_domain =
    if is_own u host own_domain then (ref_internal, []) else elim (first_match host engines) [
      | some v ↦ (ref_search, v)
      | none ↦ elim (first_match host networks) [
        | some v ↦ (ref_social, v)
        | none ↦ (ref_referral, trim_prefix host (codes "www."))
      ]
    ]

unfoldable pub by_url : Unicode → Table → Table → Bytes → Option Bytes → ℕ × Bytes
by_url u engines networks own_domain none = (ref_direct, [])
by_url u engines networks own_domain (some host) =
    if is_empty host
    then (ref_direct, [])
    else by_host u engines networks (host_name u host) own_domain

unfoldable pub classify :
    Unicode → (Bytes → Option Bytes) → Table → Table → Bytes → Bytes → ℕ × Bytes
unfolding by_url
classify u url_host engines networks [] own_domain = (ref_direct, [])
classify u url_host engines networks (c ∷ ref) own_domain =
    by_url u engines networks own_domain (url_host (c ∷ ref))
