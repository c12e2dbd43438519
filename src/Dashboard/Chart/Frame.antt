-- ===== src/Dashboard/Chart/Frame.antt =====
-- The chart of internal/dashboard/chart.go: it is always drawn, and inside its frame.
use glimt.Base.{
  ℕ, zero, suc, ◌+◌, ◌-◌, ◌*◌, ◌/◌, ◌≤◌, ◌<◌, Bool, true, false, some, List, [], ◌∷◌, ◌++◌, ◌≡◌,
  refl, arith, ltb, ◌==◌, length, if◌then◌else◌, All, Bool-cases, inl, inr,
}
use glimt.Query.Series.{Interval, Point}
use glimt.Dashboard.Chart.{
  Fraction, Texts, chart_width, chart_height, pad, max_views, x_at, y_at, Dot, dots_from, dots_of,
  label_indexes, point_at, AxisLabel, label, labels_at, axis_labels, label_y, svg, area_chart,
}

-- Between two numbers, and with a denominator.
pub record IsBetween (low high : ℕ) (q : Fraction) : Type 0 where
  pub at_least : low * q.1 ≤ q.0
  pub at_most : q.0 ≤ high * q.1
  pub divides : 1 ≤ q.1

pub record IsInFrame (d : Dot) : Type 0 where
  pub across : IsBetween pad (chart_width - pad) d.cx
  pub down : IsBetween pad (chart_height - pad) d.cy

x_at-IsBetween : (n i : ℕ) → i < n → IsBetween pad (chart_width - pad) (x_at n i)
unfolding x_at
x_at-IsBetween n i h = elim (Bool-cases (n == 1)) [
  | inl e ↦
      rw (x_at, e) (record { at_least = omega arith; at_most = omega arith; divides = omega arith })
  | inr e ↦
      let many : 1 < n = ground arith in
      rw (x_at, e)
        (record {
          at_least = omega (arith, many);
          at_most = omega (arith, many, h);
          divides = omega (arith, many);
        })
]

y_at-IsBetween :
    (max_v v : ℕ) → v ≤ max_v → 1 ≤ max_v → IsBetween pad (chart_height - pad) (y_at max_v v)
unfolding y_at
y_at-IsBetween max_v v h k = record { at_least = omega arith; at_most = omega arith; divides = k }

max_views-least : (m : ℕ) (series : List Point) → m ≤ max_views m series
unfolding max_views
max_views-least m [] = omega arith
max_views-least m (p ∷ series) =
    ground (arith, max_views-least m series, max_views-least p.pageviews series)

max_views-All : (m : ℕ) (series : List Point) → All (λ p. p.pageviews ≤ max_views m series) series
unfolding max_views
max_views-All m [] = tt
max_views-All m (p ∷ series) =
    let m' = if ltb m p.pageviews then p.pageviews else m in
    (ground (arith, max_views-least m' series), max_views-All m' series)

dots_from-All :
    (n max_v i : ℕ) (series : List Point)
    → i + length series ≤ n
    → 1 ≤ max_v
    → All (λ p. p.pageviews ≤ max_v) series
    → All IsInFrame (dots_from n max_v i series)
unfolding dots_from
dots_from-All n max_v i [] h k all = tt
dots_from-All n max_v i (p ∷ series) h k (below, all) = (
  record {
    across = x_at-IsBetween n i (omega (arith, h));
    down = y_at-IsBetween max_v p.pageviews below k;
  },
  dots_from-All n max_v (suc i) series (omega (arith, h)) k all,
)

dots_of-All : (series : List Point) → All IsInFrame (dots_of series)
unfolding dots_of
dots_of-All series =
    dots_from-All (length series) (max_views 1 series) 0 series (omega arith)
      (max_views-least 1 series) (max_views-All 1 series)

point_at-some :
    (i : ℕ) (series : List Point) → i < length series → (p : Point) × (point_at i series ≡ some p)
unfolding point_at
point_at-some i [] h = absurd (omega (arith, h))
point_at-some zero (p ∷ series) h = (p, refl)
point_at-some (suc i) (p ∷ series) h = point_at-some i series (omega (arith, h))

-- A label stands at a point of the series, under its date, between the left and the right padding and
-- below the points, in the bottom padding.
pub record IsLabel (t : Texts) (interval : Interval) (series : List Point) (l : AxisLabel)
    : Type 0 where
  pub point : Point
  pub found : point_at l.idx series ≡ some point
  pub dated : l ≡ label t interval l.idx point
  pub placed : IsBetween pad (chart_width - pad) (x_at (length series) l.idx)
  pub under : IsBetween (chart_height - pad) chart_height label_y

module _ (t : Texts) (interval : Interval) (series : List Point) where
  labels_at-some :
      (idxs : List ℕ)
      → All (λ i. i < length series) idxs
      → (labels : List AxisLabel) × (labels_at t interval series idxs ≡ some labels)
        × All (IsLabel t interval series) labels
  unfolding labels_at
  labels_at-some [] h = ([], refl, tt)
  labels_at-some (i ∷ idxs) (h, hs) =
      let (p, e) = point_at-some i series h in
      let (rest, q, all) = labels_at-some idxs hs in
      (
        label t interval i p ∷ rest,
        rw (labels_at, e, q) refl,
        (
          record {
            point = p;
            found = e;
            dated = refl;
            placed = x_at-IsBetween (length series) i h;
            under = record { at_least = omega arith; at_most = omega arith; divides = omega arith };
          },
          all,
        ),
      )

later_indexes-All :
    (n : ℕ) (three two : Bool)
    → 1 ≤ n
    → All (λ i. i < n) ((if three then n / 2 ∷ [] else []) ++ (if two then (n - 1) ∷ [] else []))
later_indexes-All n true true h = (omega (arith, h), (omega (arith, h), tt))
later_indexes-All n true false h = (omega (arith, h), tt)
later_indexes-All n false true h = (omega (arith, h), tt)
later_indexes-All n false false h = tt

label_indexes-All : (n : ℕ) → 1 ≤ n → All (λ i. i < n) (label_indexes n)
unfolding label_indexes
label_indexes-All n h = (h, later_indexes-All n (ltb 2 n) (ltb 1 n) h)

-- The chart of any series but the empty one is drawn, with labels that each stand at a point of the
-- series, under the point's date: no index is out of range. Every point of the series is placed between
-- the paddings, and every label between the left and the right padding and in the bottom padding, with
-- no denominator of zero.
pub area_chart-some :
    (t : Texts) (interval : Interval) (p : Point) (series : List Point)
    → (labels : List AxisLabel) × (area_chart t interval (p ∷ series)
        ≡ some (svg t interval (p ∷ series) labels))
      × All (IsLabel t interval (p ∷ series)) labels
      × All IsInFrame (dots_of (p ∷ series))
unfolding area_chart axis_labels
area_chart-some t interval p series =
    let (labels, e, all) =
      labels_at-some t interval (p ∷ series) (label_indexes (length (p ∷ series)))
        (label_indexes-All (length (p ∷ series)) (omega arith)) in
    (labels, rw (area_chart, axis_labels, e) refl, all, dots_of-All (p ∷ series))
