-- ===== src/Model.antt =====
-- internal/model/model.go: the domain types that the ingest and the query paths share.
use glimt.Base.{ℕ, Bool, Bytes, List}
use glimt.Base.Int.{ℤ}

-- A float64 that the program only stores and adds up, as a whole number of millionths.
abbrev pub Millionths : Type 0
Millionths = ℤ

-- Referrer classes.
abbrev pub ref_direct : ℕ
ref_direct = 0

abbrev pub ref_search : ℕ
ref_search = 1

abbrev pub ref_social : ℕ
ref_social = 2

abbrev pub ref_referral : ℕ
ref_referral = 3

abbrev pub ref_internal : ℕ
ref_internal = 4

-- Event types.
abbrev pub type_pageview : ℕ
type_pageview = 0

abbrev pub type_custom : ℕ
type_custom = 1

pub record Site : Type 0 where
  pub id : ℕ
  pub uuid : Bytes
  pub name : Bytes
  pub domain : Bytes
  pub api_key_hash : Bytes
  pub script_token : Bytes
  pub collect_token : Bytes
  pub public : Bool
  pub share_token : Bytes
  pub created_at : ℕ

pub record Event : Type 0 where
  pub website_id : ℕ
  pub visitor_hash : Bytes
  pub ts : ℕ  -- unix milliseconds
  pub kind : ℕ  -- the field Type
  pub name : Bytes
  pub url_path : Bytes
  pub page_title : Bytes
  pub hostname : Bytes
  pub referrer : Bytes
  pub ref_class : ℕ
  pub ref_source : Bytes
  pub utm_source : Bytes
  pub utm_medium : Bytes
  pub utm_campaign : Bytes
  pub utm_term : Bytes
  pub utm_content : Bytes
  pub browser : Bytes
  pub browser_ver : Bytes
  pub os : Bytes
  pub device : Bytes
  pub screen_bucket : Bytes
  pub language : Bytes
  pub country : Bytes
  pub region : Bytes
  pub city : Bytes
  pub lcp : Millionths
  pub inp : Millionths
  pub cls : Millionths
  pub ttfb : Millionths
  pub val : Millionths
  pub props : List (Bytes × Bytes)
