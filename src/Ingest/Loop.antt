-- ===== src/Ingest/Loop.antt =====
-- internal/ingest/writer.go: the Ingestor, Enqueue, Stop and the loop of the writer goroutine.
--
-- Handlers, the ticker and the writer run at the same time: a step is one send, one receive, one
-- tick or the close of the channel, and a run is any sequence of steps. `accepted` and `handed` are
-- no state of the program: they record the events that Enqueue took and those given to flush.
pub mod Drain
use glimt.Base.{
  ℕ, ◌+◌, ◌%◌, ◌^◌, ◌≤◌, ◌<◌, Bool, true, false, List, [], ◌∷◌, ◌++◌, ◌≡◌, arith, ltb, leb,
  if◌then◌else◌, length, length-append,
}
use glimt.Model.{Event}
use glimt.Store.Tables.{Db}
use glimt.Store.Sql.{World, sound}
use glimt.Ingest.Writer.{queue_size, batch_size, flush}

pub record Ingestor : Type 0 where
  pub world : World
  pub ch : List Event
  pub closed : Bool
  pub dropped : ℕ  -- uint64
  pub batch : List Event
  pub running : Bool
  pub accepted : List Event
  pub handed : List Event

-- New and Start
unfoldable pub start : World → Ingestor
start w = record {
  world = w;
  ch = [];
  closed = false;
  dropped = 0;
  batch = [];
  running = true;
  accepted = [];
  handed = [];
}

-- The select with a default: the channel has room, or the event is dropped.
unfoldable pub enqueue : Event → Ingestor → Ingestor × Bool
enqueue ev s =
    if ltb (length s.ch) queue_size
    then (record s { ch = s.ch ++ ev ∷ []; accepted = s.accepted ++ ev ∷ [] }, true)
    else (record s { dropped = (s.dropped + 1) % 2 ^ 64 }, false)

-- The closure `flush` of the loop; an error of flush is only logged.
unfoldable pub flush_batch : List Event → Ingestor → Ingestor
flush_batch [] s = s
flush_batch (ev ∷ batch) s = record s {
  world = (flush (ev ∷ batch) s.world).1;
  batch = [];
  handed = s.handed ++ ev ∷ batch;
}

-- case ev, ok := <-in.ch, with ok
unfoldable pub on_event : Event → Ingestor → Ingestor
unfolding flush_batch
on_event ev s =
    let batch = s.batch ++ ev ∷ [] in
    let t = record s { batch = batch } in
    if leb batch_size (length batch) then flush_batch batch t else t

-- case <-ticker.C
unfoldable pub on_tick : Ingestor → Ingestor
unfolding flush_batch
on_tick s = flush_batch s.batch s

-- case ev, ok := <-in.ch, without ok: the channel is closed and empty
unfoldable pub on_closed : Ingestor → Ingestor
unfolding flush_batch
on_closed s = record (flush_batch s.batch s) { running = false }

-- A send on a closed channel panics: Stop is called when the server takes no more requests.
pub data Step (s : Ingestor) : Ingestor → Type 0 where
  send : (ev : Event) → s.closed ≡ false → Step s (enqueue ev s).0
  receive :
      (ev : Event) (rest : List Event)
      → s.running ≡ true
      → s.ch ≡ ev ∷ rest
      → Step s (on_event ev (record s { ch = rest }))
  tick : s.running ≡ true → Step s (on_tick s)
  close : s.closed ≡ false → Step s (record s { closed = true })
  finish : s.running ≡ true → s.closed ≡ true → s.ch ≡ [] → Step s (on_closed s)

pub data Reach (s : Ingestor) : Ingestor → Type 0 where
  here : Reach s s
  next : {t u : Ingestor} → Reach s t → Step t u → Reach s u
