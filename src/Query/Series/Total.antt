-- ===== src/Query/Series/Total.antt =====
-- The chart of internal/query/query.go against the headline count.
use glimt.Base.{
  ℕ, zero, suc, ◌+◌, ◌*◌, ◌/◌, ◌≤◌, ◌<◌, Bool, true, false, ◌&&◌, not, none, some, List, [], ◌∷◌,
  map, ◌≡◌, refl, sym, ◌∙◌, arith, ltb, leb, ltb→lt, ltb→le, ◌==◌, if◌then◌else◌, keep, keep-passes,
  All-map, sum_of, sum_of-add, sum_of-agree, sum_of-same, sum_of-keep, sum_of-zero, group_by, has,
  distinct, Bool-cases, inl, inr,
}
use glimt.Store.Tables.{Db, StatsRow}
use glimt.Query.{in_scope, in_hours, stats_in, count_pageviews_in}
use glimt.Query.Series.{
  Interval, hour, day, Point, step_of, bucket_of, group_point, series_rows, find_point, point_at,
  fill, rounds, series,
}

has-keep :
    (j k : ℕ) (ks : List ℕ)
    → has ◌==◌ j (keep (λ i. not (k == i)) ks) ≡ (not (k == j) && has ◌==◌ j ks)
unfolding has
has-keep j k [] = ground arith
has-keep j k (i ∷ ks) = ground (arith, has-keep j k ks)

has-distinct : (j : ℕ) (ks : List ℕ) → has ◌==◌ j (distinct ◌==◌ ks) ≡ has ◌==◌ j ks
unfolding has distinct
has-distinct j [] = refl
has-distinct j (k ∷ ks) = ground (arith, has-keep j k (distinct ◌==◌ ks), has-distinct j ks)

-- Two buckets start at one time only if they are the same.
same_start : (i : Interval) (j k : ℕ) → (k * step_of i == j * step_of i) ≡ (j == k)
same_start hour j k = ground arith
same_start day j k = ground arith

module _ (i : Interval) (rows : List StatsRow) where
  -- The rows of one bucket.
  abbrev part : ℕ → List StatsRow
  part k = keep (λ r. bucket_of i r == k) rows

  find_point-groups :
      (j : ℕ) (ks : List ℕ)
      → find_point (j * step_of i) (map (λ k. group_point i k (part k)) ks)
        ≡ (if has ◌==◌ j ks then some (group_point i j (part j)) else none)
  unfolding find_point has group_point
  find_point-groups j [] = refl
  find_point-groups j (k ∷ ks) = elim (Bool-cases (has ◌==◌ j ks)) [
    | inl e ↦ rw (find_point-groups j ks, e) (ground (arith, e))
    | inr e ↦ elim (Bool-cases (j == k)) [
      | inl q ↦
          let same : k ≡ j = ground arith in
          rw (find_point-groups j ks, e, same_start i j k, q, same) refl
      | inr q ↦ rw (find_point-groups j ks, e, same_start i j k, q) refl
    ]
  ]

  no_rows_of :
      (j : ℕ) (rs : List StatsRow)
      → has ◌==◌ j (map (bucket_of i) rs) ≡ false
      → sum_of (λ (r : StatsRow). if bucket_of i r == j then r.pageviews else 0) rs ≡ 0
  unfolding has sum_of
  no_rows_of j [] h = refl
  no_rows_of j (r ∷ rs) h = ground (arith, no_rows_of j rs)

  -- The point of a bucket has the pageviews of that bucket's rows.
  point-pageviews :
      (j : ℕ)
      → (point_at
          (j * step_of i)
          (find_point (j * step_of i) (group_by ◌==◌ (bucket_of i) (group_point i) rows))).pageviews
        ≡ sum_of (λ (r : StatsRow). if bucket_of i r == j then r.pageviews else 0) rows
  unfolding group_by
  point-pageviews j =
      let keys = map (bucket_of i) rows in
      elim (Bool-cases (has ◌==◌ j keys)) [
        | inl e ↦
            rw (find_point-groups j (distinct ◌==◌ keys), has-distinct j keys, e)
              (unfold point_at group_point in
                sum_of-keep (λ (r : StatsRow). r.pageviews) (λ r. bucket_of i r == j) rows)
        | inr e ↦
            rw (find_point-groups j (distinct ◌==◌ keys), has-distinct j keys, e)
              (unfold point_at in sym (no_rows_of j rows e))
      ]

-- What the loop has still to show at bucket `j`.
abbrev ahead : Interval → ℕ → ℕ → StatsRow → ℕ
ahead i to_ms j r =
    if leb j (bucket_of i r) && ltb (bucket_of i r * step_of i) to_ms then r.pageviews else 0

-- At a bucket before the end, that is what the bucket has and what comes after it.
ahead-step :
    (i : Interval) (to_ms j : ℕ) (r : StatsRow)
    → j * step_of i < to_ms
    → ahead i to_ms j r ≡ (if bucket_of i r == j then r.pageviews else 0) + ahead i to_ms (suc j) r
ahead-step hour to_ms j r h = ground arith
ahead-step day to_ms j r h = ground arith

ahead-end :
    (i : Interval) (to_ms j : ℕ) (r : StatsRow) → to_ms ≤ j * step_of i → ahead i to_ms j r ≡ 0
ahead-end hour to_ms j r h = ground arith
ahead-end day to_ms j r h = ground arith

next_start : (i : Interval) (j : ℕ) → j * step_of i + step_of i ≡ suc j * step_of i
next_start hour j = omega arith
next_start day j = omega arith

fuel_step :
    (i : Interval) (to_ms fuel j : ℕ)
    → to_ms ≤ (suc fuel + j) * step_of i
    → to_ms ≤ (fuel + suc j) * step_of i
fuel_step hour to_ms fuel j h = omega arith
fuel_step day to_ms fuel j h = omega arith

module _ (i : Interval) (to_ms : ℕ) (rows : List StatsRow) where
  abbrev points : List Point
  points = group_by ◌==◌ (bucket_of i) (group_point i) rows

  fill-pageviews :
      (fuel j : ℕ)
      → to_ms ≤ (fuel + j) * step_of i
      → sum_of (λ (p : Point). p.pageviews) (fill points (step_of i) to_ms fuel (j * step_of i))
        ≡ sum_of (ahead i to_ms j) rows
  unfolding fill sum_of
  fill-pageviews zero j h = sym (
      sum_of-same (ahead i to_ms j) (λ r. 0) rows (λ r. ahead-end i to_ms j r (omega (arith, h)))
      ∙ sum_of-zero rows)
  fill-pageviews (suc fuel) j h = elim (Bool-cases (ltb (j * step_of i) to_ms)) [
    | inl e ↦
        let split : sum_of (ahead i to_ms j) rows
            ≡ sum_of (λ (r : StatsRow). if bucket_of i r == j then r.pageviews else 0) rows
              + sum_of (ahead i to_ms (suc j)) rows =
          sum_of-same (ahead i to_ms j) _ rows (λ r. ahead-step i to_ms j r (ltb→lt _ _ e))
          ∙ sum_of-add _ (ahead i to_ms (suc j)) rows in
        rw (e, next_start i j)
          (omega (
            arith,
            point-pageviews i rows j,
            split,
            fill-pageviews fuel (suc j) (fuel_step i to_ms fuel j h),
          ))
    | inr e ↦ rw e (
        sym (
          sum_of-same (ahead i to_ms j) (λ r. 0) rows (λ r. ahead-end i to_ms j r (ltb→le _ _ e))
          ∙ sum_of-zero rows))
  ]

enough_rounds :
    (i : Interval) (from_ms to_ms : ℕ)
    → to_ms ≤ (rounds from_ms to_ms i + from_ms / step_of i) * step_of i
enough_rounds hour from_ms to_ms = omega arith
enough_rounds day from_ms to_ms = omega arith

-- A row of the hours of the range lies ahead of the first bucket.
in_hours-ahead :
    (i : Interval) (from_ms to_ms : ℕ) (r : StatsRow)
    → to_ms / step_of i * step_of i < to_ms
    → in_hours from_ms to_ms r.bucket_hour ≡ true
    → ahead i to_ms (from_ms / step_of i) r ≡ r.pageviews
in_hours-ahead hour from_ms to_ms r h e = ground arith
in_hours-ahead day from_ms to_ms r h e = ground arith

-- The points of the chart add up to the headline count of pageviews, for either interval and whatever
-- the start of the range, provided that its end is not the very start of a bucket: the zero-filled
-- buckets leave out no row of the range and show none twice.
pub series-pageviews :
    (site from_ms to_ms : ℕ) (i : Interval) (db : Db)
    → to_ms / step_of i * step_of i < to_ms
    → sum_of (λ (p : Point). p.pageviews) (series site from_ms to_ms i db)
      ≡ count_pageviews_in site from_ms to_ms db
unfolding series series_rows count_pageviews_in
series-pageviews site from_ms to_ms i db h =
    let p : StatsRow → Bool =
      λ r. in_scope site r.website_id && in_hours from_ms to_ms r.bucket_hour in
    let rows = stats_in site from_ms to_ms db.rollup_stats in
    fill-pageviews i to_ms rows (rounds from_ms to_ms i) (from_ms / step_of i)
      (enough_rounds i from_ms to_ms)
    ∙ sum_of-agree (ahead i to_ms (from_ms / step_of i)) (λ r. r.pageviews) rows
        (All-map (λ r. p r ≡ true) (λ r. ahead i to_ms (from_ms / step_of i) r ≡ r.pageviews)
          (λ r e. in_hours-ahead i from_ms to_ms r h (ground arith)) rows
          (keep-passes p db.rollup_stats))
