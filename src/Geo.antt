-- ===== src/Geo.antt =====
-- internal/geo/geo.go: the country, region and city of an address.
--
-- The reader of the mmdb file and net.ParseIP are arguments: `lookup_record` is the record that the
-- database has for an address, `none` where the lookup fails.
use glimt.Base.{
  Bool, true, false, Option, none, some, List, [], ◌∷◌, Bytes, is_empty, if◌then◌else◌,
}

-- The fields that the source reads; `city_en` is the city's name under "en", if it has one.
pub record Record : Type 0 where
  pub iso_code : Bytes
  pub subdivisions : List Bytes
  pub city_en : Option Bytes

-- `none` where no database is configured.
abbrev pub Geo : Type 0
Geo = Option (Bytes → Option Record)

-- Open, with maxminddb.Open as an argument; the outer `none` is an error.
unfoldable pub open_geo : (Bytes → Option (Bytes → Option Record)) → Bytes → Option Geo
open_geo open_reader path =
    if is_empty path
    then some none
    else elim (open_reader path) [ none ↦ none | some reader ↦ some (some reader) ]

unfoldable pub enabled : Geo → Bool
enabled none = false
enabled (some reader) = true

first_or_empty : List Bytes → Bytes
first_or_empty [] = []
first_or_empty (s ∷ rest) = s

or_empty : Option Bytes → Bytes
or_empty none = []
or_empty (some s) = s

places : Option Record → Bytes × Bytes × Bytes
unfolding first_or_empty or_empty
places none = ([], [], [])
places (some r) = (r.iso_code, first_or_empty r.subdivisions, or_empty r.city_en)

unfoldable pub lookup : (Bytes → Option Bytes) → Geo → Bytes → Bytes × Bytes × Bytes
unfolding places
lookup parse_ip none ip_str = ([], [], [])
lookup parse_ip (some reader) ip_str =
    if is_empty ip_str
    then ([], [], [])
    else elim (parse_ip ip_str) [ none ↦ ([], [], []) | some ip ↦ places (reader ip) ]
