-- ===== src/Dashboard/Range/Bounds.antt =====
-- The ranges that resolveRangeParams of internal/dashboard/dashboard.go can give.
use Prim.Native.String.{String}
use glimt.Base.{
  ℕ, ◌+◌, ◌*◌, ◌≤◌, ◌||◌, Option, none, some, ◌≡◌, ◌⊎◌, refl, arith, Bytes, codes, same, is_empty,
  ltb, length, keep, Bool-cases, inl, inr,
}
use glimt.Rollup.{ms_per_hour, ms_per_day}
use glimt.Query.Series.{hour}
use glimt.Dashboard.Range.{
  Dates, Range, RangeOpt, last_days, default_custom, end_of_day, custom_days, custom_range,
  resolve_range_params, range_options,
}

-- What every page relies on: a range that does not end before it starts, ends now or with a day, has
-- hours only where they are few, and one button.
pub record IsUsable (now : ℕ) (r : Range) : Type 0 where
  pub ordered : r.from_ms ≤ r.to_ms
  pub ends : (r.to_ms ≡ now) ⊎ ((d : ℕ) × (r.to_ms ≡ end_of_day d))
  pub few_hours : r.interval ≡ hour → r.to_ms ≤ r.from_ms + 48 * ms_per_hour
  pub one_button : length (keep (λ (o : RangeOpt). o.selected) (range_options r.norm)) ≡ 1

last_days-IsUsable :
    (n now : ℕ) (key : String)
    → length (keep (λ (o : RangeOpt). o.selected) (range_options (codes key))) ≡ 1
    → IsUsable now (last_days n now key)
last_days-IsUsable n now key h = record {
  ordered = omega arith;
  ends = inl refl;
  few_hours = λ e. cc;
  one_button = h;
}

default_custom-IsUsable : (dates : Dates) (now : ℕ) → IsUsable now (default_custom dates now)
unfolding range_options same
default_custom-IsUsable dates now = record {
  ordered = omega arith;
  ends = inl refl;
  few_hours = λ e. cc;
  one_button = refl;
}

custom_days-IsUsable :
    (dates : Dates) (now : ℕ) (f t : Option ℕ) → IsUsable now (custom_days dates now f t)
unfolding custom_days range_options same
custom_days-IsUsable dates now none t = default_custom-IsUsable dates now
custom_days-IsUsable dates now (some f) none = default_custom-IsUsable dates now
custom_days-IsUsable dates now (some f) (some t) =
    elim (Bool-cases (ltb (end_of_day t) (f * ms_per_day))) [
      | inl e ↦ rw e (default_custom-IsUsable dates now)
      | inr e ↦ rw e (record {
        ordered = ground arith;
        ends = inr (t, refl);
        few_hours = λ q. ground arith;
        one_button = refl;
      })
    ]

custom_range-IsUsable :
    (dates : Dates) (now : ℕ) (f t : Bytes) → IsUsable now (custom_range dates now f t)
unfolding custom_range
custom_range-IsUsable dates now f t = elim (Bool-cases (is_empty f || is_empty t)) [
  | inl e ↦ rw e (default_custom-IsUsable dates now)
  | inr e ↦ rw e (custom_days-IsUsable dates now (dates.parse f) (dates.parse t))
]

-- Whatever a request asks for, the range does not end before it starts and ends now or with the last
-- millisecond of a day, its chart has points for
-- hours only if it spans at most 48 of them, and one of the buttons of the page is selected.
pub resolve_range_params-IsUsable :
    (dates : Dates) (now : ℕ) (key from_str to_str : Bytes)
    → IsUsable now (resolve_range_params dates now key from_str to_str)
unfolding resolve_range_params range_options same
resolve_range_params-IsUsable dates now key from_str to_str =
    elim (Bool-cases (same key (codes "today"))) [
      | inl e ↦ rw e (record {
        ordered = ground arith;
        ends = inl refl;
        few_hours = λ q. ground arith;
        one_button = refl;
      })
      | inr e ↦ elim (Bool-cases (same key (codes "24h"))) [
        | inl h ↦
            rw (e, h)
              (record {
                ordered = omega arith;
                ends = inl refl;
                few_hours = λ q. ground arith;
                one_button = refl;
              })
        | inr h ↦ elim (Bool-cases (same key (codes "30d"))) [
          | inl i ↦ rw (e, h, i) (last_days-IsUsable 30 now "30d" refl)
          | inr i ↦ elim (Bool-cases (same key (codes "90d"))) [
            | inl j ↦ rw (e, h, i, j) (last_days-IsUsable 90 now "90d" refl)
            | inr j ↦ elim (Bool-cases (same key (codes "custom"))) [
              | inl k ↦ rw (e, h, i, j, k) (custom_range-IsUsable dates now from_str to_str)
              | inr k ↦ rw (e, h, i, j, k) (last_days-IsUsable 7 now "7d" refl)
            ]
          ]
        ]
      ]
    ]
