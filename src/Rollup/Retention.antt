-- ===== src/Rollup/Retention.antt =====
-- A second pass of internal/rollup/rollup.go, and what the retention does to it.
use glimt.Base.{
  ℕ, zero, suc, ◌*◌, ◌/◌, ◌≤◌, Bool, true, false, ◌&&◌, not, List, [], ◌∷◌, ◌++◌, map, ◌≡◌, refl,
  sym, ap, ◌∙◌, arith, ltb, leb, ◌==◌, keep, keep-passes, keep-append, keep-all, keep-none,
  keep-keep, append-nil, map-append, All, All-map, All-every, map-agree, All-group_by, group_by,
  Bool-cases, inl, inr,
}
use glimt.Store.Tables.{Db, EventRow, Session, StatsRow}
use glimt.Rollup.{
  stats_key, stats_row, same_stats, events_from, select_stats, delete_stats, count_sessions,
  ms_per_hour, prune_props, prune_events, prune_sessions, cutoff,
}
use glimt.Rollup.Outcome.{stats_after, retained}

-- The rows kept by the deletion are those before the hour, and a pass changes none of them.
module _ (hour : ℕ) (sessions : List Session) where
  old_stats :
      (rows : List StatsRow)
      → All (λ (r : StatsRow). ltb r.bucket_hour hour ≡ true) rows
      → map (count_sessions hour sessions) rows ≡ rows
  unfolding count_sessions
  old_stats [] h = refl
  old_stats (r ∷ rows) h = ground (arith, h.0, old_stats rows h.1)

  new_stats :
      (rows : List StatsRow)
      → All (λ (r : StatsRow). hour ≤ r.bucket_hour) rows
      → All
          (λ (r : StatsRow). ltb r.bucket_hour hour ≡ false)
          (map (count_sessions hour sessions) rows)
  unfolding count_sessions
  new_stats [] h = tt
  new_stats (r ∷ rows) h = (ground (arith, h.0), new_stats rows h.1)

select_stats-new :
    (hour : ℕ) (events : List EventRow)
    → All (λ (r : StatsRow). hour ≤ r.bucket_hour) (select_stats (hour * ms_per_hour) events)
unfolding select_stats stats_row
select_stats-new hour events =
    let recent = events_from (hour * ms_per_hour) events in
    All-group_by same_stats stats_key stats_row (λ r. hour ≤ r.bucket_hour) recent
      (All-map (λ (r : EventRow). leb (hour * ms_per_hour) r.event.ts ≡ true)
        (λ r. (rs : List EventRow) → hour ≤ r.event.ts / ms_per_hour) (λ r e rs. ground arith)
        recent (keep-passes (λ (r : EventRow). leb (hour * ms_per_hour) r.event.ts) events))

-- The hourly rows after a pass are what the deletion of the next pass leaves of them: those before.
delete_stats-stats_after :
    (hour : ℕ) (db : Db)
    → delete_stats hour (stats_after hour db) ≡ delete_stats hour db.rollup_stats
unfolding delete_stats stats_after
delete_stats-stats_after hour db =
    let before : StatsRow → Bool = λ r. ltb r.bucket_hour hour in
    let old = delete_stats hour db.rollup_stats in
    let fresh = select_stats (hour * ms_per_hour) db.events in
    let kept = keep-passes before db.rollup_stats in
    ap (keep before) (
      map-append (count_sessions hour db.sessions) old fresh
      ∙ ap (λ rows. rows ++ map (count_sessions hour db.sessions) fresh)
          (old_stats hour db.sessions old kept))
    ∙ keep-append before old (map (count_sessions hour db.sessions) fresh)
    ∙ ap (λ rows. rows ++ keep before (map (count_sessions hour db.sessions) fresh))
        (keep-all before old kept)
    ∙ ap (λ rows. old ++ rows)
        (keep-none before (map (count_sessions hour db.sessions) fresh)
          (new_stats hour db.sessions fresh (select_stats-new hour db.events)))
    ∙ append-nil old

-- The time before which the retention deletes; zero where it deletes nothing.
unfoldable pub pruned_before : ℕ → ℕ → ℕ
pruned_before now zero = 0
pruned_before now (suc days) = cutoff now (suc days)

unfoldable pub recent_event : ℕ → EventRow → Bool
recent_event cut r = not (ltb r.event.ts cut)

unfoldable pub recent_session : ℕ → Session → Bool
recent_session cut s = not (ltb s.last_seen_at cut)

-- A session was not seen before it started.
unfoldable pub IsForward : Session → Type 0
IsForward s = s.started_at ≤ s.last_seen_at

-- The tables `after` have lost what lies before the cut, and no more.
pub record IsPruned (cut : ℕ) (before after : Db) : Type 0 where
  pub events : after.events ≡ keep (recent_event cut) before.events
  pub sessions : after.sessions ≡ keep (recent_session cut) before.sessions

pub retained-IsPruned :
    (now days : ℕ) (db : Db) → IsPruned (pruned_before now days) db (retained now days db)
unfolding retained pruned_before recent_event recent_session prune_props prune_events prune_sessions
retained-IsPruned now zero db = record {
  events = sym (keep-all (recent_event 0) db.events (All-every (λ r. ground arith) db.events));
  sessions =
      sym (keep-all (recent_session 0) db.sessions (All-every (λ r. ground arith) db.sessions));
}
retained-IsPruned now (suc days) db = record { events = refl; sessions = refl }

-- What a pass reads of the tables does not lie before the cut.
module _ (cut : ℕ) (before after : Db) (pruned : IsPruned cut before after) where
  module _ (p : EventRow → Bool) (recent : (r : EventRow) → p r ≡ true → cut ≤ r.event.ts) where
    pub events_agree : keep p after.events ≡ keep p before.events
    unfolding recent_event
    events_agree = rw pruned.events (
        keep-keep p (recent_event cut) before.events
          (All-every (λ r e. ground (arith, recent r e)) before.events))

  module _ (p : Session → Bool) (recent : (s : Session) → p s ≡ true → cut ≤ s.started_at)
      (forward : All IsForward before.sessions) where
    pub sessions_agree : keep p after.sessions ≡ keep p before.sessions
    unfolding recent_session IsForward
    sessions_agree = rw pruned.sessions (
        keep-keep p (recent_session cut) before.sessions (
          All-map IsForward (λ s. p s ≡ true → recent_session cut s ≡ true)
            (λ s f e. ground (arith, recent s e)) before.sessions forward))

  select_stats-pruned :
      (from_ms : ℕ)
      → cut ≤ from_ms
      → select_stats from_ms after.events ≡ select_stats from_ms before.events
  unfolding select_stats group_by
  select_stats-pruned from_ms h =
      rw (events_agree (λ r. leb from_ms r.event.ts) (λ r e. ground arith)) refl

  module _ (forward : All IsForward before.sessions) where
    count_sessions-pruned :
        (hour : ℕ) (r : StatsRow)
        → cut ≤ hour * ms_per_hour
        → count_sessions hour after.sessions r ≡ count_sessions hour before.sessions r
    unfolding count_sessions
    count_sessions-pruned hour r h = elim (Bool-cases (leb hour r.bucket_hour)) [
      | inl e ↦
          rw
            (
              e,
              sessions_agree
                  (λ (s : Session).
                    s.website_id == r.website_id && s.started_at / ms_per_hour == r.bucket_hour)
                  (λ s q. ground arith) forward,
            )
            refl
      | inr e ↦ rw e refl
    ]

    pub stats_after-pruned :
        (hour : ℕ)
        → cut ≤ hour * ms_per_hour
        → after.rollup_stats ≡ stats_after hour before
        → stats_after hour after ≡ stats_after hour before
    unfolding stats_after
    stats_after-pruned hour h e =
        let rows =
          delete_stats hour before.rollup_stats
          ++ select_stats (hour * ms_per_hour) before.events in
        ap (map (count_sessions hour after.sessions)) (
          ap
            (λ (rs : List StatsRow).
              delete_stats hour rs ++ select_stats (hour * ms_per_hour) after.events)
            e
          ∙ ap (λ (rs : List StatsRow). rs ++ select_stats (hour * ms_per_hour) after.events)
              (delete_stats-stats_after hour before)
          ∙ ap (λ (rs : List StatsRow). delete_stats hour before.rollup_stats ++ rs)
              (select_stats-pruned (hour * ms_per_hour) h))
        ∙ map-agree (count_sessions hour after.sessions) (count_sessions hour before.sessions) rows
            (All-every (λ r. count_sessions-pruned hour r h) rows)
