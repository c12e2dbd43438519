-- ===== src/Tests/Ingest.antt =====
-- internal/ingest: the writer on a few events.
use glimt.Rollup.{recompute, from_hour, ms_per_hour}
use glimt.Query.{count_pageviews_in}
use glimt.Query.Fresh.{is_view_in}
use glimt.Query.Ingested.{is_counted, accepted_are_counted}
use glimt.Base.{
  keep, length, ◌/◌, ◌≤◌, ◌+◌, arith, ℕ, ◌≤◌, map, true, false, some, List, [], ◌∷◌, ◌≡◌, refl,
  codes, All, same,
}
use glimt.Base.Int.{pos}
use glimt.Model.{Event, type_pageview, type_custom}
use glimt.Store.Tables.{Db, Session, empty_db, next_id}
use glimt.Store.Sql.{World, sound}
use glimt.Ingest.Writer.{find_open, flush, new_session, add_event, update_session, touch_custom}
use glimt.Ingest.Writer.Effects.{Flushed, flush-Flushed, store_all, store_event}
use glimt.Ingest.Writer.Counts.{IsConsistent, flush-IsConsistent}
use glimt.Ingest.Writer.Stitching.{Continues, find_open-some}
use glimt.Ingest.Loop.{
  Ingestor, start, enqueue, on_event, on_closed, Reach, here, next, send, receive, close, finish,
}
use glimt.Ingest.Loop.Drain.{drain, stop_returns}

-- A view of / by visitor "v" of website 1.
abbrev view : Event
view = record {
  website_id = 1;
  visitor_hash = codes "v";
  ts = 1000000;
  kind = type_pageview;
  name = [];
  url_path = codes "/";
  page_title = [];
  hostname = [];
  referrer = [];
  ref_class = 0;
  ref_source = [];
  utm_source = [];
  utm_medium = [];
  utm_campaign = [];
  utm_term = [];
  utm_content = [];
  browser = [];
  browser_ver = [];
  os = [];
  device = [];
  screen_bucket = [];
  language = [];
  country = [];
  region = [];
  city = [];
  lcp = pos 0;
  inp = pos 0;
  cls = pos 0;
  ttfb = pos 0;
  val = pos 0;
  props = (codes "k", codes "x") ∷ [];
}

-- A custom event of the same visitor a minute later, and a view two hours later.
abbrev signup : Event
signup = record view { ts = 1060000; kind = type_custom; name = codes "signup"; props = [] }

abbrev later_view : Event
later_view = record view { ts = 8200000; props = [] }

abbrev batch : List Event
batch = view ∷ signup ∷ later_view ∷ []

-- The fourth statement fails.
abbrev failing : World
failing = record { db = empty_db; faults = false ∷ false ∷ false ∷ true ∷ [] }

-- The view after two hours opens a second session.
two_sessions :
    map {B = ℕ × ℕ × ℕ}
      (λ (s : Session). (s.id, s.events, s.pageviews))
      (store_all batch empty_db).sessions
    ≡ (1, 2, 1) ∷ (2, 1, 1) ∷ []
unfolding store_all store_event find_open new_session same next_id add_event update_session
    touch_custom
two_sessions = refl

empty-IsConsistent : IsConsistent empty_db
empty-IsConsistent = record { counted = tt; owned = tt }

flush-IsConsistent_example : IsConsistent (flush batch failing).1.db
flush-IsConsistent_example = flush-IsConsistent batch failing empty-IsConsistent

flush-Flushed_example : Flushed batch empty_db (flush batch failing)
flush-Flushed_example = flush-Flushed batch failing

abbrev one_session : Db
one_session = store_event view empty_db

abbrev first_session : Session
first_session = new_session view 1

find_first : find_open signup one_session ≡ some first_session
unfolding find_open store_event new_session same next_id add_event
find_first = refl

find_open-some_example :
    Continues signup first_session
    × All
        (λ (t : Session). Continues signup t → t.last_seen_at ≤ first_session.last_seen_at)
        one_session.sessions
find_open-some_example = find_open-some signup one_session first_session find_first

abbrev sent : Ingestor
sent = (enqueue view (start (sound empty_db))).0

abbrev shut : Ingestor
shut = record sent { closed = true }

abbrev received : Ingestor
received = on_event view (record shut { ch = [] })

-- One view, and then Stop.
one_view : Reach (start (sound empty_db)) (on_closed received)
unfolding start enqueue on_event on_closed
one_view =
    next (next (next (next here (send view refl)) (close refl)) (receive view [] refl refl))
      (finish refl refl refl)

drain_example :
    (on_closed received).world ≡ sound (store_all (on_closed received).accepted empty_db)
unfolding on_closed
drain_example = drain empty_db one_view refl

stop_returns_example :
    (t : Ingestor) × Reach shut t × (t.running ≡ false) × (t.accepted ≡ shut.accepted)
unfolding start enqueue
stop_returns_example = stop_returns shut refl refl

-- The hour 0 is one of the last three at the time 5.
recent : from_hour 5 ≤ 0 / ms_per_hour
recent = omega arith

accepted_are_counted_example :
    count_pageviews_in 0 0 5
      (recompute (record { retention_days = 0 }) 5 (on_closed received).world).1.db
    ≡ length (keep (is_view_in 0 0 5) empty_db.events)
      + length (keep (is_counted 0 0 5) (on_closed received).accepted)
unfolding on_closed
accepted_are_counted_example =
    accepted_are_counted 0 0 5 (record { retention_days = 0 }) 5 empty_db one_view refl recent
