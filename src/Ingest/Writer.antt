-- ===== src/Ingest/Writer.antt =====
-- internal/ingest/writer.go: the buffered write path and the session stitching.
--
-- `insertEvent`, `flush`, `Enqueue` and the body of `loop` in the order of the source. A time is a
-- number of milliseconds since 1970. `last_seen_at > ts - sessionWinMs` is written as
-- `ts < last_seen_at + session_win_ms`, which is the same over the integers.
pub mod Effects
pub mod Counts
pub mod Stitching
pub mod Owners
use glimt.Base.{
  ℕ, ◌+◌, ◌*◌, ◌/◌, Bool, ◌&&◌, Option, none, some, List, [], ◌∷◌, ◌++◌, Bytes, same, ltb, leb,
  ◌==◌, if◌then◌else◌, keep,
}
use glimt.Model.{Event, type_pageview}
use glimt.Store.Tables.{Session, EventRow, Db, next_id}
use glimt.Store.Sql.{Sql, insert, query, confirm, exec, transaction, for_each, ◌>>=◌, ◌>>◌, pure}

abbrev pub queue_size : ℕ
queue_size = 8192

abbrev pub batch_size : ℕ
batch_size = 500

-- 30 minutes
abbrev pub session_win_ms : ℕ
session_win_ms = 30 * 60 * 1000

abbrev pub ms_per_day : ℕ
ms_per_day = 86400 * 1000

-- The WHERE clause of the search for a session that the event continues.
unfoldable pub is_open : Event → Session → Bool
is_open ev s =
    s.website_id == ev.website_id
    && same s.visitor_hash ev.visitor_hash
    && ltb ev.ts (s.last_seen_at + session_win_ms)

-- ORDER BY last_seen_at DESC LIMIT 1; of equals the first row
unfoldable pub later : Session → Option Session → Option Session
later s none = some s
later s (some t) = if ltb s.last_seen_at t.last_seen_at then some t else some s

unfoldable pub latest : List Session → Option Session
unfolding later
latest [] = none
latest (s ∷ rows) = later s (latest rows)

unfoldable pub find_open : Event → Db → Option Session
unfolding is_open latest
find_open ev db = latest (keep (is_open ev) db.sessions)

-- The row that INSERT INTO session writes. The day, a text in the source, is its number.
unfoldable pub new_session : Event → ℕ → Session
new_session ev id = record {
  id = id;
  website_id = ev.website_id;
  visitor_hash = ev.visitor_hash;
  day = ev.ts / ms_per_day;
  started_at = ev.ts;
  last_seen_at = ev.ts;
  entry_path = ev.url_path;
  exit_path = ev.url_path;
  pageviews = if ev.kind == type_pageview then 1 else 0;
  events = 1;
  is_bounce = 1;
  country = ev.country;
  browser = ev.browser;
  os = ev.os;
  device = ev.device;
  ref_class = ev.ref_class;
  ref_source = ev.ref_source;
  city = ev.city;
}

unfoldable pub open_session : Event → Db → ℕ × Db
unfolding new_session
open_session ev db =
    let id = next_id (λ (s : Session). s.id) db.sessions in
    (id, record db { sessions = db.sessions ++ new_session ev id ∷ [] })

-- The SET clauses of the two UPDATE statements.
unfoldable pub touch_pageview : Event → ℕ → Session → Session
touch_pageview ev new_pv s = record s {
  last_seen_at = ev.ts;
  exit_path = ev.url_path;
  pageviews = new_pv;
  events = s.events + 1;
  is_bounce = if leb new_pv 1 then 1 else 0;
}

unfoldable pub touch_custom : Event → Session → Session
touch_custom ev s = record s { last_seen_at = ev.ts; events = s.events + 1 }

-- UPDATE session SET … WHERE id = sid
unfoldable pub update_session : (Session → Session) → ℕ → List Session → List Session
update_session set sid [] = []
update_session set sid (s ∷ rows) = (if s.id == sid then set s else s) ∷ update_session set sid rows

-- INSERT INTO event
unfoldable pub add_event : ℕ → Event → Db → ℕ × Db
add_event sid ev db =
    let id = next_id (λ (r : EventRow). r.id) db.events in
    let row : EventRow = record { id = id; session_id = sid; event = record ev { props = [] } } in
    (id, record db { events = db.events ++ row ∷ [] })

-- INSERT INTO event_prop
unfoldable pub add_prop : ℕ → Bytes × Bytes → Db → Db
add_prop eid (k, v) db = record db {
  event_props = db.event_props ++ record { event_id = eid; key = k; value = v } ∷ [];
}

abbrev pub set_for : Event → ℕ → Session → Session
set_for ev pageviews =
    if ev.kind == type_pageview then touch_pageview ev (pageviews + 1) else touch_custom ev

-- The `switch` on the outcome of the search: the id of the event's session.
unfoldable pub stitch : Event → Option Session → Sql ℕ
stitch ev none = do sid ← insert (open_session ev); confirm sid
stitch ev (some s) = do
  exec (λ db. record db { sessions = update_session (set_for ev s.pageviews) s.id db.sessions })
  pure s.id

-- `if len(ev.Props) > 0 { … }`
unfoldable pub insert_props : ℕ → List (Bytes × Bytes) → Sql (Unit {0})
insert_props eid [] = pure tt
insert_props eid (p ∷ ps) = do e ← confirm eid; for_each (λ q. exec (add_prop e q)) (p ∷ ps)

unfoldable pub insert_event : Event → Sql (Unit {0})
insert_event ev = do
  found ← query (find_open ev)
  sid ← stitch ev found
  eid ← insert (add_event sid ev)
  insert_props eid ev.props

unfoldable pub flush : List Event → Sql (Unit {0})
flush batch = transaction (for_each insert_event batch)
