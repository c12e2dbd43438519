-- ===== src/Dashboard/Range.antt =====
-- internal/dashboard/dashboard.go: resolveRangeParams and rangeOptions, the time range of a page.
--
-- A date of a request is read as the days since 1970; dates before 1970 are left out, and so are
-- clocks in the first 90 days of 1970. time.Parse and Format are the functions of `Dates`.
pub mod Bounds
use Prim.Native.String.{String}
use glimt.Base.{
  ℕ, ◌+◌, ◌-◌, ◌*◌, ◌/◌, Bool, true, false, ◌||◌, Option, none, some, List, [], ◌∷◌, Bytes, codes,
  same, is_empty, leb, ltb, if◌then◌else◌, map,
}
use glimt.Rollup.{ms_per_hour, ms_per_day}
use glimt.Query.Series.{Interval, hour, day}

pub record Dates : Type 0 where
  pub parse : Bytes → Option ℕ
  pub format : ℕ → Bytes

-- The results of resolveRangeParams.
pub record Range : Type 0 where
  pub from_ms : ℕ
  pub to_ms : ℕ
  pub interval : Interval
  pub norm : Bytes
  pub from_date : Bytes
  pub to_date : Bytes

abbrev pub last_days : ℕ → ℕ → String → Range
last_days n now key = record {
  from_ms = now - n * ms_per_day;
  to_ms = now;
  interval = day;
  norm = codes key;
  from_date = [];
  to_date = [];
}

-- What a custom range without two dates in order falls back to.
abbrev pub default_custom : Dates → ℕ → Range
default_custom dates now = record {
  from_ms = now - 7 * ms_per_day;
  to_ms = now;
  interval = day;
  norm = codes "custom";
  from_date = dates.format (now / ms_per_day - 7);
  to_date = dates.format (now / ms_per_day);
}

-- The last millisecond of a day.
abbrev pub end_of_day : ℕ → ℕ
end_of_day d = d * ms_per_day + (ms_per_day - 1)

unfoldable pub custom_days : Dates → ℕ → Option ℕ → Option ℕ → Range
custom_days dates now none to_day = default_custom dates now
custom_days dates now (some f) none = default_custom dates now
custom_days dates now (some f) (some t) =
    let from_ms = f * ms_per_day in
    let to_ms = end_of_day t in
    if ltb to_ms from_ms then default_custom dates now else record {
      from_ms = from_ms;
      to_ms = to_ms;
      interval = if leb (to_ms - from_ms) (48 * ms_per_hour) then hour else day;
      norm = codes "custom";
      from_date = dates.format f;
      to_date = dates.format t;
    }

unfoldable pub custom_range : Dates → ℕ → Bytes → Bytes → Range
unfolding custom_days
custom_range dates now from_str to_str =
    if is_empty from_str || is_empty to_str
    then default_custom dates now
    else custom_days dates now (dates.parse from_str) (dates.parse to_str)

unfoldable pub resolve_range_params : Dates → ℕ → Bytes → Bytes → Bytes → Range
unfolding custom_range
resolve_range_params dates now key from_str to_str =
    if same key (codes "today")
    then record {
      from_ms = now / ms_per_day * ms_per_day;
      to_ms = now;
      interval = hour;
      norm = codes "today";
      from_date = [];
      to_date = [];
    }
    else if same key (codes "24h")
    then record {
      from_ms = now - 24 * ms_per_hour;
      to_ms = now;
      interval = hour;
      norm = codes "24h";
      from_date = [];
      to_date = [];
    }
    else if same key (codes "30d")
    then last_days 30 now "30d"
    else if same key (codes "90d")
    then last_days 90 now "90d"
    else if same key (codes "custom")
    then custom_range dates now from_str to_str
    else last_days 7 now "7d"

pub record RangeOpt : Type 0 where
  pub key : Bytes
  pub label : Bytes
  pub selected : Bool

abbrev pub option : Bytes → String → String → RangeOpt
option sel key label = record {
  key = codes key;
  label = codes label;
  selected = same (codes key) sel;
}

unfoldable pub range_options : Bytes → List RangeOpt
range_options sel =
    option sel "today" "Today"
    ∷ option sel "24h" "24 hours"
    ∷ option sel "7d" "7 days"
    ∷ option sel "30d" "30 days"
    ∷ option sel "90d" "90 days"
    ∷ option sel "custom" "Custom"
    ∷ []
