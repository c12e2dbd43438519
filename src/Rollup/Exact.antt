-- ===== src/Rollup/Exact.antt =====
-- The counts of internal/rollup/rollup.go against the events.
use glimt.Base.{
  ℕ, ◌*◌, ◌≤◌, Bool, true, List, ◌++◌, map, ◌≡◌, ◌↔◌, refl, ◌∙◌, arith, ltb, leb, if◌then◌else◌,
  keep-passes, All-map, sum_of, sum_of-append, sum_of-zero, sum_of-agree, sum_of-same, sum_of-keep,
  sum_of-map, sum_of-group_by, Bool-cases, inl, inr,
}
use glimt.Store.Tables.{Db, EventRow, Session, StatsRow}
use glimt.Rollup.{
  StatsKey, same_stats, stats_key, pageview, stats_row, events_from, select_stats, delete_stats,
  count_sessions, ms_per_hour,
}
use glimt.Rollup.Outcome.{stats_after}

pub same_stats_iff : (a b : StatsKey) → (same_stats a b ≡ true) ↔ (a ≡ b)
same_stats_iff (w, h) (w', h') = ground (arith)

-- SUM(pageviews) over the rows whose key passes a test.
abbrev pub sum_pageviews : (StatsKey → Bool) → List StatsRow → ℕ
sum_pageviews p =
    sum_of (λ (r : StatsRow). if p (r.website_id, r.bucket_hour) then r.pageviews else 0)

sum_pageviews-count_sessions :
    (p : StatsKey → Bool) (hour : ℕ) (sessions : List Session) (rows : List StatsRow)
    → sum_pageviews p (map (count_sessions hour sessions) rows) ≡ sum_pageviews p rows
unfolding count_sessions
sum_pageviews-count_sessions p hour sessions rows =
    sum_of-map (λ (r : StatsRow). if p (r.website_id, r.bucket_hour) then r.pageviews else 0)
      (count_sessions hour sessions) rows
    ∙ sum_of-same _ _ rows
        (λ r. elim (Bool-cases (leb hour r.bucket_hour)) [ inl e ↦ rw e refl | inr e ↦ rw e refl ])

sum_pageviews-delete_stats :
    (p : StatsKey → Bool) (hour : ℕ) (rows : List StatsRow)
    → ((k : StatsKey) → p k ≡ true → hour ≤ k.1)
    → sum_pageviews p (delete_stats hour rows) ≡ 0
unfolding delete_stats
sum_pageviews-delete_stats p hour rows h =
    sum_of-agree _ (λ r. 0) (delete_stats hour rows)
      (All-map (λ (r : StatsRow). ltb r.bucket_hour hour ≡ true)
        (λ (r : StatsRow). (if p (r.website_id, r.bucket_hour) then r.pageviews else 0) ≡ 0)
        (λ r e. ground (arith, h (r.website_id, r.bucket_hour))) (delete_stats hour rows)
        (keep-passes (λ (r : StatsRow). ltb r.bucket_hour hour) rows))
    ∙ sum_of-zero (delete_stats hour rows)

-- Over any rows from the hour on, the sum of the recomputed pageviews is the number of pageview events
-- that fall under those rows: none is missed and none counts twice.
pub sum_pageviews-stats_after :
    (p : StatsKey → Bool) (hour : ℕ) (db : Db)
    → ((k : StatsKey) → p k ≡ true → hour ≤ k.1)
    → sum_pageviews p (stats_after hour db)
      ≡ sum_of (λ r. if p (stats_key r) then pageview r else 0) db.events
unfolding stats_after select_stats stats_row
sum_pageviews-stats_after p hour db h =
    let kept = delete_stats hour db.rollup_stats in
    let fresh = select_stats (hour * ms_per_hour) db.events in
    let recent = events_from (hour * ms_per_hour) db.events in
    sum_pageviews-count_sessions p hour db.sessions (kept ++ fresh)
    ∙ sum_of-append _ kept fresh
    ∙ omega (arith, sum_pageviews-delete_stats p hour db.rollup_stats h)
    ∙ sum_of-group_by same_stats same_stats_iff stats_key pageview stats_row
        (λ (r : StatsRow). if p (r.website_id, r.bucket_hour) then r.pageviews else 0) p recent
        (λ k rs. refl)
    ∙ sum_of-keep (λ r. if p (stats_key r) then pageview r else 0)
        (λ (r : EventRow). leb (hour * ms_per_hour) r.event.ts) db.events
    ∙ sum_of-same _ _ db.events (λ r. from_hour_on r)
  where
    from_hour_on :
        (r : EventRow)
        → (if leb (hour * ms_per_hour) r.event.ts
            then (if p (stats_key r) then pageview r else 0)
            else 0)
          ≡ (if p (stats_key r) then pageview r else 0)
    from_hour_on r = elim (Bool-cases (p (stats_key r))) [
      | inl e ↦ rw e (ground (arith, h (stats_key r) e))
      | inr e ↦ rw e (ground arith)
    ]
