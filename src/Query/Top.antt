-- ===== src/Query/Top.antt =====
-- internal/query/query.go: Top, the rows of a panel, and ExportEvents, the events of a download.
--
-- SQL leaves the order of rows with equal counts or times open; here the one found first is first.
use glimt.Base.{
  ℕ, ◌/◌, Bool, ◌&&◌, List, [], ◌∷◌, Bytes, codes, same, ltb, leb, ◌==◌, if◌then◌else◌, keep, take,
  sum_of, group_by,
}
use glimt.Model.{Millionths, type_pageview}
use glimt.Store.Tables.{Db, DimRow, EventRow}
use glimt.Store.Sql.{Sql, query}
use glimt.Rollup.{ms_per_day}
use glimt.Query.{in_scope, events_in}

pub record Row : Type 0 where
  pub value : Bytes
  pub count : ℕ
  pub visitors : ℕ

-- WHERE … AND dimension = ? AND bucket_day >= ? AND bucket_day <= ?
abbrev pub in_days : ℕ → Bytes → ℕ → ℕ → DimRow → Bool
in_days site dimension from_ms to_ms r =
    in_scope site r.website_id
    && same r.dimension dimension
    && leb (from_ms / ms_per_day) r.bucket_day
    && leb r.bucket_day (to_ms / ms_per_day)

abbrev pub row_of : Bytes → List DimRow → Row
row_of value rows = record {
  value = value;
  count = sum_of (λ (r : DimRow). r.pageviews) rows;
  visitors = sum_of (λ (r : DimRow). r.visitors) rows;
}

-- ORDER BY c DESC
unfoldable pub insert_by_count : Row → List Row → List Row
insert_by_count r [] = r ∷ []
insert_by_count r (x ∷ rows) =
    if ltb r.count x.count then x ∷ insert_by_count r rows else r ∷ x ∷ rows

unfoldable pub order_by_count : List Row → List Row
unfolding insert_by_count
order_by_count [] = []
order_by_count (r ∷ rows) = insert_by_count r (order_by_count rows)

unfoldable pub top_rows : ℕ → Bytes → ℕ → ℕ → ℕ → Db → List Row
unfolding order_by_count
top_rows site dimension from_ms to_ms limit db = take limit (
    order_by_count (
      group_by same (λ (r : DimRow). r.value) row_of
        (keep (in_days site dimension from_ms to_ms) db.rollup_dim)))

unfoldable pub top : ℕ → Bytes → ℕ → ℕ → ℕ → Sql (List Row)
top site dimension from_ms to_ms limit = query (top_rows site dimension from_ms to_ms limit)

pub record ExportEvent : Type 0 where
  pub ts : ℕ
  pub kind : Bytes  -- the field Type
  pub name : Bytes
  pub url_path : Bytes
  pub page_title : Bytes
  pub hostname : Bytes
  pub referrer : Bytes
  pub browser : Bytes
  pub os : Bytes
  pub device : Bytes
  pub country : Bytes
  pub language : Bytes
  pub lcp : Millionths
  pub inp : Millionths
  pub cls : Millionths
  pub ttfb : Millionths
  pub val : Millionths

abbrev pub export_event : EventRow → ExportEvent
export_event r = record {
  ts = r.event.ts;
  kind = if r.event.kind == type_pageview then codes "pageview" else codes "custom";
  name = r.event.name;
  url_path = r.event.url_path;
  page_title = r.event.page_title;
  hostname = r.event.hostname;
  referrer = r.event.referrer;
  browser = r.event.browser;
  os = r.event.os;
  device = r.event.device;
  country = r.event.country;
  language = r.event.language;
  lcp = r.event.lcp;
  inp = r.event.inp;
  cls = r.event.cls;
  ttfb = r.event.ttfb;
  val = r.event.val;
}

-- ORDER BY ts DESC
unfoldable pub insert_latest : ExportEvent → List ExportEvent → List ExportEvent
insert_latest e [] = e ∷ []
insert_latest e (x ∷ es) = if ltb e.ts x.ts then x ∷ insert_latest e es else e ∷ x ∷ es

unfoldable pub latest_first : List EventRow → List ExportEvent
unfolding insert_latest
latest_first [] = []
latest_first (r ∷ rows) = insert_latest (export_event r) (latest_first rows)

unfoldable pub export_events : ℕ → ℕ → ℕ → Sql (List ExportEvent)
unfolding latest_first
export_events site from_ms to_ms =
    query (λ db. take 10000 (latest_first (events_in site from_ms to_ms db.events)))
