-- ===== src/Dashboard/Chart.antt =====
-- internal/dashboard/chart.go: the chart of a series, as the text of an SVG.
--
-- A coordinate is a fraction: `fixed` is what Fprintf with %.1f makes of one. Time.Format with a layout,
-- strconv's decimals and template.HTMLEscapeString are further arguments. An index out of range, which
-- panics, is none.

pub mod Frame
use glimt.Base.{
  ℕ, zero, suc, ◌+◌, ◌-◌, ◌*◌, ◌/◌, Bool, true, false, Option, none, some, List, [], ◌∷◌, ◌++◌,
  Bytes, codes, same, ltb, ◌==◌, length, if◌then◌else◌,
}
use glimt.Query.Series.{Interval, hour, day, Point}

-- numerator and denominator
abbrev pub Fraction : Type 0
Fraction = ℕ × ℕ

abbrev pub whole : ℕ → Fraction
whole n = (n, 1)

pub record Texts : Type 0 where
  pub fixed : Fraction → Bytes
  pub itoa : ℕ → Bytes
  pub format : Bytes → ℕ → Bytes  -- the layout and the milliseconds
  pub escape : Bytes → Bytes

abbrev pub chart_width : ℕ
chart_width = 720

abbrev pub chart_height : ℕ
chart_height = 220

abbrev pub pad : ℕ
pad = 24

abbrev pub inner_width : ℕ
inner_width = chart_width - 2 * pad

abbrev pub inner_height : ℕ
inner_height = chart_height - 2 * pad

-- maxV, from `m`
unfoldable pub max_views : ℕ → List Point → ℕ
max_views m [] = m
max_views m (p ∷ series) = max_views (if ltb m p.pageviews then p.pageviews else m) series

-- The closure x, for `n` points.
unfoldable pub x_at : ℕ → ℕ → Fraction
x_at n i =
    if n == 1 then whole (pad + inner_width / 2) else (pad * (n - 1) + i * inner_width, n - 1)

-- The closure y.
unfoldable pub y_at : ℕ → ℕ → Fraction
y_at max_v v = ((pad + inner_height) * max_v - v * inner_height, max_v)

-- Where the chart has the points, from the i-th on.
pub record Dot : Type 0 where
  pub cx : Fraction
  pub cy : Fraction
  pub first : Bool
  pub point : Point

unfoldable pub dots_from : ℕ → ℕ → ℕ → List Point → List Dot
unfolding x_at y_at
dots_from n max_v i [] = []
dots_from n max_v i (p ∷ series) =
    record { cx = x_at n i; cy = y_at max_v p.pageviews; first = i == 0; point = p }
    ∷ dots_from n max_v (suc i) series

unfoldable pub dots_of : List Point → List Dot
unfolding dots_from max_views
dots_of series = dots_from (length series) (max_views 1 series) 0 series

abbrev pub layout_of : Interval → Bytes
layout_of hour = codes "15:04"
layout_of day = codes "Jan 2"

module _ (t : Texts) where
  -- "%.1f %.1f "
  abbrev pair : Fraction → Fraction → Bytes
  pair x y = t.fixed x ++ codes " " ++ t.fixed y ++ codes " "

  unfoldable pub line_path : List Dot → Bytes
  line_path [] = []
  line_path (d ∷ dots) =
      (if d.first then codes "M " else codes "L ") ++ pair d.cx d.cy ++ line_path dots

  unfoldable pub area_steps : List Dot → Bytes
  area_steps [] = []
  area_steps (d ∷ dots) = codes "L " ++ pair d.cx d.cy ++ area_steps dots

  abbrev plural : ℕ → Bytes → Bytes → Bytes
  plural n one many = if n == 1 then one else many

  unfoldable pub title_text : Interval → Point → Bytes
  title_text interval p =
      t.format (layout_of interval) p.bucket
      ++ codes ": "
      ++ t.itoa p.pageviews
      ++ codes " "
      ++ plural p.pageviews (codes "pageview") (codes "pageviews")
      ++ codes " ("
      ++ t.itoa p.visitors
      ++ codes " "
      ++ plural p.visitors (codes "visitor") (codes "visitors")
      ++ codes ")"

  unfoldable pub circles : Interval → List Dot → Bytes
  unfolding title_text
  circles interval [] = []
  circles interval (d ∷ dots) =
      codes "<circle class=\"dot\" cx=\""
      ++ t.fixed d.cx
      ++ codes "\" cy=\""
      ++ t.fixed d.cy
      ++ codes "\" r=\"3.5\"><title>"
      ++ t.escape (title_text interval d.point)
      ++ codes "</title></circle>"
      ++ circles interval dots

  unfoldable pub area_path : List Point → List Dot → Bytes
  unfolding area_steps x_at
  area_path series dots =
      let base = whole (chart_height - pad) in
      codes "M "
      ++ pair (x_at (length series) 0) base
      ++ area_steps dots
      ++ codes "L "
      ++ t.fixed (x_at (length series) (length series - 1))
      ++ codes " "
      ++ t.fixed base
      ++ codes " Z"

pub record AxisLabel : Type 0 where
  pub idx : ℕ
  pub text : Bytes

-- The first, the middle and the last of `n`, as far as they differ.
unfoldable pub label_indexes : ℕ → List ℕ
label_indexes n = 0 ∷ (if ltb 2 n then n / 2 ∷ [] else []) ++ (if ltb 1 n then (n - 1) ∷ [] else [])

unfoldable pub point_at : ℕ → List Point → Option Point
point_at i [] = none
point_at zero (p ∷ series) = some p
point_at (suc i) (p ∷ series) = point_at i series

abbrev pub label : Texts → Interval → ℕ → Point → AxisLabel
label t interval i p = record { idx = i; text = t.format (layout_of interval) p.bucket }

abbrev add_label :
    Texts → Interval → ℕ → Option Point → Option (List AxisLabel) → Option (List AxisLabel)
add_label t interval i none rest = none
add_label t interval i (some p) none = none
add_label t interval i (some p) (some rest) = some (label t interval i p ∷ rest)

unfoldable pub labels_at : Texts → Interval → List Point → List ℕ → Option (List AxisLabel)
unfolding point_at
labels_at t interval series [] = some []
labels_at t interval series (i ∷ idxs) =
    add_label t interval i (point_at i series) (labels_at t interval series idxs)

-- axisLabels
unfoldable pub axis_labels : Texts → Interval → List Point → Option (List AxisLabel)
unfolding labels_at label_indexes
axis_labels t interval [] = some []
axis_labels t interval (p ∷ series) =
    labels_at t interval (p ∷ series) (label_indexes (length (p ∷ series)))

-- Where the labels stand, in the bottom padding.
abbrev pub label_y : Fraction
label_y = whole (chart_height - 6)

unfoldable pub ticks : Texts → ℕ → List AxisLabel → Bytes
unfolding x_at
ticks t n [] = []
ticks t n (l ∷ labels) =
    codes "<text x=\""
    ++ t.fixed (x_at n l.idx)
    ++ codes "\" y=\""
    ++ t.fixed label_y
    ++ codes "\" class=\"ax\">"
    ++ t.escape l.text
    ++ codes "</text>"
    ++ ticks t n labels

unfoldable pub svg : Texts → Interval → List Point → List AxisLabel → Bytes
unfolding dots_of line_path area_path circles ticks
svg t interval series labels =
    let dots = dots_of series in
    let bottom = t.fixed (whole (chart_height - pad)) in
    codes
      "<svg viewBox=\"0 0 720 220\" class=\"chart\" preserveAspectRatio=\"none\" role=\"img\">\n"
    ++ codes "<line x1=\""
    ++ t.fixed (whole pad)
    ++ codes "\" y1=\""
    ++ bottom
    ++ codes "\" x2=\""
    ++ t.fixed (whole (chart_width - pad))
    ++ codes "\" y2=\""
    ++ bottom
    ++ codes "\" class=\"axis\"/>\n<path d=\""
    ++ area_path t series dots
    ++ codes "\" class=\"area\"/>\n<path d=\""
    ++ line_path t dots
    ++ codes "\" class=\"line\"/>\n"
    ++ circles t interval dots
    ++ codes "\n"
    ++ ticks t (length series) labels
    ++ codes "\n</svg>"

unfoldable pub area_chart : Texts → Interval → List Point → Option Bytes
unfolding axis_labels svg
area_chart t interval [] =
    some (codes "<div class=\"chart-empty\">No data in this range yet.</div>")
area_chart t interval (p ∷ series) = elim (axis_labels t interval (p ∷ series)) [
  | none ↦ none
  | some labels ↦ some (svg t interval (p ∷ series) labels)
]
