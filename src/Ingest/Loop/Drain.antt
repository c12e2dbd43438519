-- ===== src/Ingest/Loop/Drain.antt =====
-- What holds in every run of the ingestor.
use glimt.Base.{
  ◌≤◌, ◌<◌, true, false, List, [], ◌∷◌, ◌++◌, ◌≡◌, refl, sym, ap, ◌∙◌, arith, ltb, leb, length,
  length-append, append_assoc, append-nil, Bool-cases, inl, inr,
}
use glimt.Model.{Event}
use glimt.Store.Tables.{Db}
use glimt.Store.Sql.{World, sound}
use glimt.Ingest.Writer.{queue_size, batch_size}
use glimt.Ingest.Writer.Effects.{store_all, flush-sound}
use glimt.Ingest.Loop.{
  Ingestor, start, enqueue, flush_batch, on_event, on_tick, on_closed, Step, send, receive, tick,
  close, finish, Reach, here, next,
}

-- The channel and the batch stay within their bounds, every accepted event is in exactly one place,
-- in the order of arrival, and a loop that has returned has left nothing behind.
pub record IsSound (s : Ingestor) : Type 0 where
  pub queued : length s.ch ≤ queue_size
  pub batched : length s.batch < batch_size
  pub placed : s.accepted ≡ s.handed ++ s.batch ++ s.ch
  pub stopped : s.running ≡ false → (s.batch ≡ []) × (s.ch ≡ []) × (s.closed ≡ true)

start-IsSound : (w : World) → IsSound (start w)
unfolding start
start-IsSound w = ground arith

flush_batch-parts :
    (batch : List Event) (s : Ingestor)
    → s.batch ≡ batch
    → ((flush_batch batch s).batch ≡ [])
      × ((flush_batch batch s).ch ≡ s.ch)
      × ((flush_batch batch s).accepted ≡ s.accepted)
      × ((flush_batch batch s).closed ≡ s.closed)
      × ((flush_batch batch s).running ≡ s.running)
      × ((flush_batch batch s).handed ≡ s.handed ++ batch)
unfolding flush_batch
flush_batch-parts [] s e = (e, refl, refl, refl, refl, sym (append-nil s.handed))
flush_batch-parts (ev ∷ batch) s e = (refl, refl, refl, refl, refl, refl)

enqueue-IsSound :
    (ev : Event) (s : Ingestor) → s.closed ≡ false → IsSound s → IsSound (enqueue ev s).0
unfolding enqueue
enqueue-IsSound ev s c h =
    ground (arith, length-append s.ch (ev ∷ []), append_assoc (s.handed ++ s.batch) s.ch (ev ∷ []))

-- Where the batch was emptied into a flush.
flushed-IsSound :
    (batch : List Event) (s : Ingestor)
    → s.batch ≡ batch
    → length s.ch ≤ queue_size
    → s.accepted ≡ s.handed ++ batch ++ s.ch
    → (s.running ≡ false → (s.ch ≡ []) × (s.closed ≡ true))
    → IsSound (flush_batch batch s)
flushed-IsSound batch s e queued placed stopped =
    ground (arith, flush_batch-parts batch s e, append-nil (s.handed ++ batch))

on_event-IsSound :
    (ev : Event) (rest : List Event) (s : Ingestor)
    → s.running ≡ true
    → s.ch ≡ ev ∷ rest
    → IsSound s
    → IsSound (on_event ev (record s { ch = rest }))
unfolding on_event
on_event-IsSound ev rest s r c h =
    let batch = s.batch ++ ev ∷ [] in
    let placed : s.accepted ≡ s.handed ++ batch ++ rest = rw h.placed (
      rw c (
        append_assoc s.handed s.batch (ev ∷ rest)
        ∙ sym (ap (λ (l : List Event). s.handed ++ l) (append_assoc s.batch (ev ∷ []) rest))
        ∙ sym (append_assoc s.handed batch rest))) in
    let queued = ap (λ (l : List Event). length l) c in
    elim (Bool-cases (leb batch_size (length batch))) [
      | inl full ↦ rw full (
          flushed-IsSound batch (record s { ch = rest; batch = batch }) refl
            (omega (arith, h.queued, queued)) placed (λ q. cc (q, r)))
      | inr room ↦ rw room (record {
        queued = omega (arith, h.queued, queued);
        batched = ground arith;
        placed = placed;
        stopped = λ q. cc (q, r);
      })
    ]

on_tick-IsSound : (s : Ingestor) → s.running ≡ true → IsSound s → IsSound (on_tick s)
unfolding on_tick
on_tick-IsSound s r h = flushed-IsSound s.batch s refl h.queued h.placed (λ q. cc (q, r))

on_closed-IsSound : (s : Ingestor) → s.closed ≡ true → s.ch ≡ [] → IsSound s → IsSound (on_closed s)
unfolding on_closed
on_closed-IsSound s c e h =
    ground (arith, flush_batch-parts s.batch s refl, append-nil (s.handed ++ s.batch))

Step-IsSound : {s t : Ingestor} → Step s t → IsSound s → IsSound t
Step-IsSound {s} (send ev c) h = enqueue-IsSound ev s c h
Step-IsSound {s} (receive ev rest r c) h = on_event-IsSound ev rest s r c h
Step-IsSound {s} (tick r) h = on_tick-IsSound s r h
Step-IsSound {s} (close c) h = record {
  queued = h.queued;
  batched = h.batched;
  placed = h.placed;
  stopped = λ q. ((h.stopped q).0, (h.stopped q).1, refl);
}
Step-IsSound {s} (finish r c e) h = on_closed-IsSound s c e h

-- In every run the channel holds at most 8192 events and the batch fewer than 500, and the events
-- that Enqueue accepted are, in order, those given to flush, those in the batch and those in the
-- channel. When the loop has returned, the channel was closed and nothing is left in either.
Reach-IsSound : (w : World) {s : Ingestor} → Reach (start w) s → IsSound s
Reach-IsSound w here = start-IsSound w
Reach-IsSound w (next r st) = Step-IsSound st (Reach-IsSound w r)

-- With no faults the tables hold the events that were given to flush.
store_all-append :
    (a b : List Event) (db : Db) → store_all (a ++ b) db ≡ store_all b (store_all a db)
unfolding store_all
store_all-append [] b db = refl
store_all-append (ev ∷ a) b db = store_all-append a b _

abbrev Stored : Db → Ingestor → Type 0
Stored db s = s.world ≡ sound (store_all s.handed db)

flush_batch-Stored :
    (batch : List Event) (s : Ingestor) (db : Db) → Stored db s → Stored db (flush_batch batch s)
unfolding flush_batch
flush_batch-Stored [] s db h = h
flush_batch-Stored (ev ∷ batch) s db h = rw (h, flush-sound, store_all-append)

on_event-Stored : (ev : Event) (s : Ingestor) (db : Db) → Stored db s → Stored db (on_event ev s)
unfolding on_event
on_event-Stored ev s db h =
    let t = record s { batch = s.batch ++ ev ∷ [] } in
    elim (Bool-cases (leb batch_size (length (s.batch ++ ev ∷ [])))) [
      | inl full ↦ rw full (flush_batch-Stored (s.batch ++ ev ∷ []) t db h)
      | inr room ↦ rw room h
    ]

enqueue-Stored : (ev : Event) (s : Ingestor) (db : Db) → Stored db s → Stored db (enqueue ev s).0
unfolding enqueue
enqueue-Stored ev s db h = elim (Bool-cases (ltb (length s.ch) queue_size)) [
  | inl e ↦ rw e h
  | inr e ↦ rw e h
]

Step-Stored : {s t : Ingestor} (db : Db) → Step s t → Stored db s → Stored db t
Step-Stored {s} db (send ev c) h = enqueue-Stored ev s db h
Step-Stored {s} db (receive ev rest r c) h = on_event-Stored ev (record s { ch = rest }) db h
Step-Stored {s} db (tick r) h = unfold on_tick in flush_batch-Stored s.batch s db h
Step-Stored db (close c) h = h
Step-Stored {s} db (finish r c e) h = unfold on_closed in flush_batch-Stored s.batch s db h

Reach-Stored : (db : Db) {s : Ingestor} → Reach (start (sound db)) s → Stored db s
Reach-Stored db here = unfold start store_all in refl
Reach-Stored db (next r st) = Step-Stored db st (Reach-Stored db r)

-- Batching is transparent: in a run with no database faults, when the loop has returned, the tables
-- are as if each event that Enqueue accepted had been inserted alone, in the order of acceptance.
pub drain :
    (db : Db) {s : Ingestor}
    → Reach (start (sound db)) s
    → s.running ≡ false
    → s.world ≡ sound (store_all s.accepted db)
drain db {s} r q =
    let inv = Reach-IsSound (sound db) r in
    let (b, c, _) = inv.stopped q in
    let all : s.accepted ≡ s.handed =
      inv.placed
      ∙ ap (λ (l : List Event). s.handed ++ l ++ s.ch) b
      ∙ ap (λ (l : List Event). s.handed ++ [] ++ l) c
      ∙ append-nil (s.handed ++ [])
      ∙ append-nil s.handed in
    rw all (Reach-Stored db r)

on_event-parts :
    (ev : Event) (s : Ingestor)
    → ((on_event ev s).ch ≡ s.ch)
      × ((on_event ev s).accepted ≡ s.accepted)
      × ((on_event ev s).closed ≡ s.closed)
      × ((on_event ev s).running ≡ s.running)
unfolding on_event
on_event-parts ev s =
    let batch = s.batch ++ ev ∷ [] in
    ground (arith, flush_batch-parts batch (record s { batch = batch }) refl)

Reach-after : {s t u : Ingestor} → Step s t → Reach t u → Reach s u
Reach-after st here = next here st
Reach-after st (next r st') = next (Reach-after st r) st'

-- Once the channel is closed the loop returns: it receives what is left, and then finishes.
returns_from :
    (ch : List Event) (s : Ingestor)
    → s.ch ≡ ch
    → s.running ≡ true
    → s.closed ≡ true
    → (t : Ingestor) × Reach s t × (t.running ≡ false) × (t.accepted ≡ s.accepted)
returns_from [] s e r c = (
  on_closed s,
  next here (finish r c e),
  unfold on_closed in refl,
  unfold on_closed in (flush_batch-parts s.batch s refl).2,
)
returns_from (ev ∷ rest) s e r c =
    let t = on_event ev (record s { ch = rest }) in
    let (same_ch, same_accepted, same_closed, same_running) =
      on_event-parts ev (record s { ch = rest }) in
    let (u, reach, stopped, accepted) =
      returns_from rest t same_ch (same_running ∙ r) (same_closed ∙ c) in
    (u, Reach-after (receive ev rest r e) reach, stopped, accepted ∙ same_accepted)

-- When the channel has been closed, the loop can always go on to its return, and takes nothing
-- more on the way.
pub stop_returns :
    (s : Ingestor)
    → s.running ≡ true
    → s.closed ≡ true
    → (t : Ingestor) × Reach s t × (t.running ≡ false) × (t.accepted ≡ s.accepted)
stop_returns s r c = returns_from s.ch s refl r c
