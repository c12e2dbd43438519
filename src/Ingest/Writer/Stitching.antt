-- ===== src/Ingest/Writer/Stitching.antt =====
-- Which session an event is put into.
use glimt.Base.{
  ◌+◌, ◌≤◌, ◌<◌, true, Option, none, some, List, [], ◌∷◌, ◌≡◌, arith, same_iff, Option-cases, inl,
  inr, All, All-map, keep, keep-passes, All-of_keep,
}
use glimt.Model.{Event}
use glimt.Store.Tables.{Session, Db}
use glimt.Ingest.Writer.{find_open, is_open, latest, later, session_win_ms}
use glimt.Ingest.Writer.Counts.{All-latest}

-- The search for a session in words: the website's and visitor's, seen within 30 minutes.
pub record Continues (ev : Event) (s : Session) : Type 0 where
  pub website : s.website_id ≡ ev.website_id
  pub visitor : s.visitor_hash ≡ ev.visitor_hash
  pub recent : ev.ts < s.last_seen_at + session_win_ms

pub is_open_iff :
    (ev : Event) (s : Session)
    → (is_open ev s ≡ true → Continues ev s) × (Continues ev s → is_open ev s ≡ true)
unfolding is_open
is_open_iff ev s = (
  λ h. ground (arith, same_iff s.visitor_hash ev.visitor_hash),
  λ c. ground (arith, same_iff s.visitor_hash ev.visitor_hash),
)

later_max :
    (x : Session) (o : Option Session) (s : Session)
    → later x o ≡ some s
    → (x.last_seen_at ≤ s.last_seen_at)
      × ((t : Session) → o ≡ some t → t.last_seen_at ≤ s.last_seen_at)
unfolding later
later_max x none s e = (ground arith, λ t q. cc)
later_max x (some t) s e = (ground arith, λ u q. ground arith)

latest-none : (rows : List Session) → latest rows ≡ none → All (λ (s : Session). ⊥) rows
unfolding latest later
latest-none [] e = tt
latest-none (x ∷ rows) e = ground arith

latest_max :
    (rows : List Session) (s : Session)
    → latest rows ≡ some s
    → All (λ (t : Session). t.last_seen_at ≤ s.last_seen_at) rows
unfolding latest
latest_max [] s e = tt
latest_max (x ∷ rows) s e = elim (Option-cases (latest rows)) [
  | inl n ↦ (
    (later_max x (latest rows) s e).0,
    All-map (λ t. ⊥) (λ (t : Session). t.last_seen_at ≤ s.last_seen_at) (λ t b. absurd b) rows
        (latest-none rows n),
  )
  | inr (u, m) ↦
      let le = (later_max x (latest rows) s e).1 u m in
      (
        (later_max x (latest rows) s e).0,
        All-map (λ (t : Session). t.last_seen_at ≤ u.last_seen_at)
            (λ (t : Session). t.last_seen_at ≤ s.last_seen_at) (λ t h. omega arith) rows
            (latest_max rows u m),
      )
]

-- A session that is found continues the event's visit, and no other one that does was seen later.
pub find_open-some :
    (ev : Event) (db : Db) (s : Session)
    → find_open ev db ≡ some s
    → Continues ev s
      × All (λ (t : Session). Continues ev t → t.last_seen_at ≤ s.last_seen_at) db.sessions
unfolding find_open
find_open-some ev db s e =
    let open_rows = keep (is_open ev) db.sessions in
    (
      (is_open_iff ev s).0 (
          All-latest (λ t. is_open ev t ≡ true) open_rows s (keep-passes (is_open ev) db.sessions)
            e),
      All-map (λ (t : Session). is_open ev t ≡ true → t.last_seen_at ≤ s.last_seen_at)
          (λ (t : Session). Continues ev t → t.last_seen_at ≤ s.last_seen_at)
          (λ t h c. h ((is_open_iff ev t).1 c)) db.sessions
          (All-of_keep (λ (t : Session). t.last_seen_at ≤ s.last_seen_at) (is_open ev) db.sessions
            (latest_max open_rows s e)),
    )

-- No session is found only if none continues the event's visit.
pub find_open-none :
    (ev : Event) (db : Db)
    → find_open ev db ≡ none
    → All (λ (t : Session). ¬ Continues ev t) db.sessions
unfolding find_open
find_open-none ev db e =
    All-map (λ (t : Session). is_open ev t ≡ true → ⊥) (λ (t : Session). ¬ Continues ev t)
      (λ t h c. h ((is_open_iff ev t).1 c)) db.sessions
      (All-of_keep (λ (t : Session). ⊥) (is_open ev) db.sessions
        (latest-none (keep (is_open ev) db.sessions) e))
