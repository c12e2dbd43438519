-- ===== src/Ingest/Writer/Counts.antt =====
-- The counters of a session row against the event rows that belong to it.
use glimt.Base.{
  ℕ, suc, ◌+◌, ◌≤◌, ◌<◌, Option, none, some, List, [], ◌∷◌, ◌++◌, ◌≡◌, refl, arith, Bool-cases, inl,
  inr, subst, sym, ltb, All-keep, All-map, if◌then◌else◌, ◌==◌, leb, All, All-append, keep,
}
use glimt.Model.{Event, type_pageview}
use glimt.Store.Tables.{Session, EventRow, Db, max_id, next_id, next_id-append}
use glimt.Ingest.Writer.{
  find_open, is_open, latest, later, new_session, update_session, set_for, touch_pageview,
  touch_custom, add_event, flush,
}
use glimt.Ingest.Writer.Effects.{
  store_event, store_with, store_all, Flushed, lost, stored, flush-Flushed,
}
use glimt.Store.Sql.{World, Result}

-- How many events, and how many pageviews, a session has in the table of events.
abbrev pub count_events : ℕ → List EventRow → ℕ
count_events sid [] = 0
count_events sid (r ∷ rows) =
    let rest = count_events sid rows in if r.session_id == sid then suc rest else rest

abbrev pub count_pageviews : ℕ → List EventRow → ℕ
count_pageviews sid [] = 0
count_pageviews sid (r ∷ rows) =
    let rest = count_pageviews sid rows in
    if r.session_id == sid then (if r.event.kind == type_pageview then suc rest else rest) else rest

-- What a session row says of its events is so.
pub record IsCounted (rows : List EventRow) (s : Session) : Type 0 where
  pub events : s.events ≡ count_events s.id rows
  pub pageviews : s.pageviews ≡ count_pageviews s.id rows
  pub bounce : s.is_bounce ≡ (if leb s.pageviews 1 then 1 else 0)

abbrev pub session_id_of : Session → ℕ
session_id_of s = s.id

-- Every session row is right about its events, and every event belongs to a session given out.
pub record IsConsistent (db : Db) : Type 0 where
  pub counted : All (IsCounted db.events) db.sessions
  pub owned : All (λ (r : EventRow). r.session_id < next_id session_id_of db.sessions) db.events

module _ (sid : ℕ) (r : EventRow) where
  count_events-append :
      (rows : List EventRow)
      → count_events sid (rows ++ r ∷ [])
        ≡ count_events sid rows + (if r.session_id == sid then 1 else 0)
  count_events-append [] = ground arith
  count_events-append (x ∷ rows) = ground (arith, count_events-append rows)

  count_pageviews-append :
      (rows : List EventRow)
      → count_pageviews sid (rows ++ r ∷ [])
        ≡ count_pageviews sid rows
          + (if r.session_id == sid then (if r.event.kind == type_pageview then 1 else 0) else 0)
  count_pageviews-append [] = ground arith
  count_pageviews-append (x ∷ rows) = ground (arith, count_pageviews-append rows)

-- A session that no event refers to has no events.
count_events_unused :
    (sid : ℕ) (rows : List EventRow)
    → All (λ (r : EventRow). r.session_id < sid) rows
    → (count_events sid rows ≡ 0) × (count_pageviews sid rows ≡ 0)
count_events_unused sid [] h = (refl, refl)
count_events_unused sid (r ∷ rows) h = ground (arith, count_events_unused sid rows h.1)

All-later :
    (P : Session → Type 0) (x : Session) (o : Option Session) (s : Session)
    → P x
    → ((t : Session) → o ≡ some t → P t)
    → later x o ≡ some s
    → P s
unfolding later
All-later P x none s hx ho e = let q : x ≡ s = cc in subst P q hx
All-later P x (some t) s hx ho e = elim (Bool-cases (ltb x.last_seen_at t.last_seen_at)) [
  | inl b ↦ let q : t ≡ s = ground arith in subst P q (ho t refl)
  | inr b ↦ let q : x ≡ s = ground arith in subst P q hx
]

pub All-latest :
    (P : Session → Type 0) (rows : List Session) (s : Session)
    → All P rows
    → latest rows ≡ some s
    → P s
unfolding latest
All-latest P [] s h e = cc
All-latest P (x ∷ rows) s h e =
    All-later P x (latest rows) s h.0 (λ t m. All-latest P rows t h.1 m) e

-- What holds of every row holds of the session that is found.
pub All-find_open :
    (P : Session → Type 0) (ev : Event) (db : Db) (s : Session)
    → All P db.sessions
    → find_open ev db ≡ some s
    → P s
unfolding find_open
All-find_open P ev db s h e =
    All-latest P (keep (is_open ev) db.sessions) s (All-keep P (is_open ev) db.sessions h) e

-- The ids given out are below the next one.
pub ids-lt-next_id :
    (rows : List Session) → All (λ (s : Session). s.id < next_id session_id_of rows) rows
unfolding next_id
ids-lt-next_id [] = tt
ids-lt-next_id (x ∷ rows) = (
  omega arith,
  All-map (λ (s : Session). s.id < max_id session_id_of rows + 1)
      (λ (s : Session). s.id < max_id session_id_of (x ∷ rows) + 1) (λ s h. omega arith) rows
      (ids-lt-next_id rows),
)

set_for-id : (ev : Event) (pv : ℕ) (s : Session) → (set_for ev pv s).id ≡ s.id
unfolding touch_pageview touch_custom
set_for-id ev pv s = ground arith

pub next_id-update_session :
    (ev : Event) (pv sid : ℕ) (rows : List Session)
    → max_id session_id_of (update_session (set_for ev pv) sid rows) ≡ max_id session_id_of rows
unfolding max_id update_session
next_id-update_session ev pv sid [] = refl
next_id-update_session ev pv sid (x ∷ rows) =
    ground (arith, next_id-update_session ev pv sid rows, set_for-id ev pv x)

-- One row under the UPDATE, while its session gets one more event.
updated_row :
    (ev : Event) (rows : List EventRow) (s x : Session) (r : EventRow)
    → r.session_id ≡ s.id
    → r.event.kind ≡ ev.kind
    → IsCounted rows s
    → IsCounted rows x
    → IsCounted (rows ++ r ∷ []) (if x.id == s.id then set_for ev s.pageviews x else x)
unfolding touch_pageview touch_custom
updated_row ev rows s x r own kind hs hx =
    ground (arith, count_events-append x.id r rows, count_pageviews-append x.id r rows)

updated_rows :
    (ev : Event) (rows : List EventRow) (s : Session) (r : EventRow) (sessions : List Session)
    → r.session_id ≡ s.id
    → r.event.kind ≡ ev.kind
    → IsCounted rows s
    → All (IsCounted rows) sessions
    → All (IsCounted (rows ++ r ∷ [])) (update_session (set_for ev s.pageviews) s.id sessions)
unfolding update_session
updated_rows ev rows s r [] own kind hs h = tt
updated_rows ev rows s r (x ∷ sessions) own kind hs h =
    (updated_row ev rows s x r own kind hs h.0, updated_rows ev rows s r sessions own kind hs h.1)

-- The other rows, and the new one, when the event opens a session.
opened_rows :
    (ev : Event) (rows : List EventRow) (r : EventRow) (sessions : List Session)
    → All (λ (s : Session). s.id < r.session_id) sessions
    → All (IsCounted rows) sessions
    → All (IsCounted (rows ++ r ∷ [])) sessions
opened_rows ev rows r [] below h = tt
opened_rows ev rows r (x ∷ sessions) below h = (
  ground (arith, count_events-append x.id r rows, count_pageviews-append x.id r rows),
  opened_rows ev rows r sessions below.1 h.1,
)

opened_row :
    (ev : Event) (rows : List EventRow) (r : EventRow) (id : ℕ)
    → r.session_id ≡ id
    → r.event.kind ≡ ev.kind
    → All (λ (x : EventRow). x.session_id < id) rows
    → IsCounted (rows ++ r ∷ []) (new_session ev id)
unfolding new_session
opened_row ev rows r id own kind below = ground (
  arith,
  count_events-append id r rows,
  count_pageviews-append id r rows,
  count_events_unused id rows below,
)

pub owned-append :
    (rows : List EventRow) (r : EventRow) (n m : ℕ)
    → n ≤ m
    → r.session_id < m
    → All (λ (x : EventRow). x.session_id < n) rows
    → All (λ (x : EventRow). x.session_id < m) (rows ++ r ∷ [])
owned-append [] r n m le own h = (own, tt)
owned-append (x ∷ rows) r n m le own h = (omega (arith, h.0), owned-append rows r n m le own h.1)

module _ (ev : Event) (db : Db) (inv : IsConsistent db) where
  opened-IsConsistent : IsConsistent (store_with ev none db)
  unfolding store_with add_event new_session
  opened-IsConsistent =
      let id = next_id session_id_of db.sessions in
      let r : EventRow = record {
        id = next_id (λ (x : EventRow). x.id) db.events;
        session_id = id;
        event = record ev { props = [] };
      } in
      let after = next_id-append session_id_of db.sessions (new_session ev id) refl in
      record {
        counted =
            All-append (IsCounted (db.events ++ r ∷ [])) db.sessions (new_session ev id ∷ [])
              (opened_rows ev db.events r db.sessions (ids-lt-next_id db.sessions) inv.counted)
              (opened_row ev db.events r id refl refl inv.owned, tt);
        owned =
            owned-append db.events r id _ (omega (arith, after)) (omega (arith, after)) inv.owned;
      }

  joined-IsConsistent :
      (s : Session)
      → IsCounted db.events s
      → s.id < next_id session_id_of db.sessions
      → IsConsistent (store_with ev (some s) db)
  unfolding store_with add_event next_id
  joined-IsConsistent s hs below =
      let r : EventRow = record {
        id = next_id (λ (x : EventRow). x.id) db.events;
        session_id = s.id;
        event = record ev { props = [] };
      } in
      let same_ids = next_id-update_session ev s.pageviews s.id db.sessions in
      record {
        counted = updated_rows ev db.events s r db.sessions refl refl hs inv.counted;
        owned =
            owned-append db.events r (next_id session_id_of db.sessions) _ (omega (arith, same_ids))
              (omega (arith, same_ids)) inv.owned;
      }

  stored-IsConsistent :
      (found : Option Session)
      → ((s : Session) → found ≡ some s → IsCounted db.events s)
      → ((s : Session) → found ≡ some s → s.id < next_id session_id_of db.sessions)
      → IsConsistent (store_with ev found db)
  stored-IsConsistent none hs below = opened-IsConsistent
  stored-IsConsistent (some s) hs below = joined-IsConsistent s (hs s refl) (below s refl)

  -- Storing an event keeps the counters of all sessions right.
  pub store_event-IsConsistent : IsConsistent (store_event ev db)
  unfolding store_event
  store_event-IsConsistent =
      stored-IsConsistent (find_open ev db)
        (λ s e. All-find_open (IsCounted db.events) ev db s inv.counted e)
        (λ s e.
          All-find_open (λ (t : Session). t.id < next_id session_id_of db.sessions) ev db s
            (ids-lt-next_id db.sessions) e)

pub store_all-IsConsistent :
    (batch : List Event) (db : Db) → IsConsistent db → IsConsistent (store_all batch db)
unfolding store_all
store_all-IsConsistent [] db inv = inv
store_all-IsConsistent (ev ∷ batch) db inv =
    store_all-IsConsistent batch (store_event ev db) (store_event-IsConsistent ev db inv)

of_Flushed :
    (batch : List Event) (before : Db) (r : Result (Unit {0}) × World)
    → IsConsistent before
    → Flushed batch before r
    → IsConsistent r.1.db
of_Flushed batch before r inv (lost e p q) = subst IsConsistent (sym q) inv
of_Flushed batch before r inv (stored p q) =
    subst IsConsistent (sym q) (store_all-IsConsistent batch before inv)

-- A flush keeps every session row's counts of events and pageviews, and its bounce mark, in
-- agreement with the table of events, whichever statements fail.
pub flush-IsConsistent :
    (batch : List Event) (w : World) → IsConsistent w.db → IsConsistent (flush batch w).1.db
flush-IsConsistent batch w inv = of_Flushed batch w.db (flush batch w) inv (flush-Flushed batch w)
