-- ===== src/Ingest/Writer/Effects.antt =====
-- What insertEvent and flush of internal/ingest/writer.go do to the tables.
use glimt.Base.{
  ℕ, Option, none, some, List, [], ◌∷◌, ◌++◌, map, append_assoc, append-nil, ◌≡◌, refl, sym, ap,
  ◌∙◌, Bytes,
}
use glimt.Model.{Event}
use glimt.Store.Tables.{Session, EventProp, Db, next_id}
use glimt.Store.Sql.{
  World, Result, Error, ok, err, query, insert, confirm, for_each, transaction, sound, exec,
}
use glimt.Store.Steady.{
  Steady, Outcome, rolled_back, committed, transaction-Outcome, Steady-for_each, Steady-bind,
  Steady-confirm, Steady-exec, steady_rules,
}
use glimt.Ingest.Writer.{
  find_open, new_session, open_session, update_session, set_for, add_event, add_prop, insert_props,
  stitch, insert_event, flush,
}

prop_rows : ℕ → List (Bytes × Bytes) → List EventProp
prop_rows eid = map (λ p. record { event_id = eid; key = p.0; value = p.1 })

add_props_lem :
    (eid : ℕ) (ps : List (Bytes × Bytes)) (db : Db)
    → for_each (λ q. exec (add_prop eid q)) ps (sound db)
      ≡ (ok tt, sound (record db { event_props = db.event_props ++ prop_rows eid ps }))
unfolding prop_rows exec
add_props_lem eid [] db = rw append-nil
add_props_lem eid (p ∷ ps) db =
    add_props_lem eid ps (add_prop eid p db)
    ∙ unfold add_prop in
      (ap (λ (r : List EventProp). (ok tt, sound (record db { event_props = r })))
        (append_assoc db.event_props (record { event_id = eid; key = p.0; value = p.1 } ∷ [])
          (prop_rows eid ps)))

insert_props_lem :
    (eid : ℕ) (ps : List (Bytes × Bytes)) (db : Db)
    → insert_props eid ps (sound db)
      ≡ (ok tt, sound (record db { event_props = db.event_props ++ prop_rows eid ps }))
unfolding insert_props
insert_props_lem eid [] db = add_props_lem eid [] db
insert_props_lem eid (p ∷ ps) db = unfold confirm in add_props_lem eid (p ∷ ps) db

-- The id of the event's session and the table `session`, after the event.
unfoldable pub stitched : Event → Option Session → Db → ℕ × List Session
stitched ev none db =
    let id = next_id (λ (s : Session). s.id) db.sessions in
    (id, db.sessions ++ new_session ev id ∷ [])
stitched ev (some s) db = (s.id, update_session (set_for ev s.pageviews) s.id db.sessions)

-- The tables after an event whose search found `found`.
unfoldable pub store_with : Event → Option Session → Db → Db
unfolding stitched prop_rows
store_with ev found db =
    let (sid, sessions) = stitched ev found db in
    let (eid, db') = add_event sid ev (record db { sessions = sessions }) in
    record db' { event_props = db'.event_props ++ prop_rows eid ev.props }

unfoldable pub store_event : Event → Db → Db
unfolding store_with
store_event ev db = store_with ev (find_open ev db) db

stitch_lem :
    (ev : Event) (found : Option Session) (db : Db)
    → stitch ev found (sound db)
      ≡ (ok (stitched ev found db).0, sound (record db { sessions = (stitched ev found db).1 }))
unfolding stitch stitched insert confirm exec open_session
stitch_lem ev none db = refl
stitch_lem ev (some s) db = refl

-- With no faults an event is stored, and no error is returned.
pub insert_event_lem :
    (ev : Event) (db : Db) → insert_event ev (sound db) ≡ (ok tt, sound (store_event ev db))
unfolding insert_event query insert store_event
insert_event_lem ev db = rw stitch_lem (insert_props_lem _ ev.props _)

stitch-Steady : (ev : Event) (found : Option Session) → Steady (stitch ev found)
unfolding stitch
stitch-Steady ev none = search steady_rules
stitch-Steady ev (some s) = search steady_rules

insert_props-Steady : (eid : ℕ) (ps : List (Bytes × Bytes)) → Steady (insert_props eid ps)
unfolding insert_props
insert_props-Steady eid [] = search steady_rules
insert_props-Steady eid (p ∷ ps) =
    Steady-bind (confirm eid) _ (Steady-confirm eid)
      λ e. Steady-for_each (λ q. exec (add_prop e q)) (λ q. Steady-exec (add_prop e q)) (p ∷ ps)

insert_event-Steady : (ev : Event) → Steady (insert_event ev)
unfolding insert_event
insert_event-Steady ev = search (steady_rules, stitch-Steady, insert_props-Steady)

-- The tables after a batch: the events one by one.
unfoldable pub store_all : List Event → Db → Db
store_all [] db = db
store_all (ev ∷ batch) db = store_all batch (store_event ev db)

insert_all :
    (batch : List Event) (db : Db)
    → for_each insert_event batch (sound db) ≡ (ok tt, sound (store_all batch db))
unfolding store_all
insert_all [] db = refl
insert_all (ev ∷ batch) db = rw insert_event_lem (insert_all batch (store_event ev db))

-- The outcome of a flush: an error, and the tables as they were, or no error and every event of
-- the batch stored in order.
pub data Flushed (batch : List Event) (before : Db) (r : Result (Unit {0}) × World) : Type 0 where
  lost : (e : Error) → r.0 ≡ err e → r.1.db ≡ before → Flushed batch before r
  stored : r.0 ≡ ok tt → r.1.db ≡ store_all batch before → Flushed batch before r

Flushed-Outcome :
    (batch : List Event) (before : Db) (r : Result (Unit {0}) × World)
    → Outcome (for_each insert_event batch) before r
    → Flushed batch before r
Flushed-Outcome batch before r (rolled_back e p q) = lost e p q
Flushed-Outcome batch before r (committed a p q) =
    stored p (ap (λ (o : Result (Unit {0}) × World). o.1.db) (sym q ∙ insert_all batch before))

-- Whatever statements of it fail, a flush stores its whole batch, in order, and returns no error,
-- or it returns an error and leaves every table as it was.
pub flush-Flushed : (batch : List Event) (w : World) → Flushed batch w.db (flush batch w)
unfolding flush
flush-Flushed batch w = Flushed-Outcome batch w.db _ (
    transaction-Outcome (for_each insert_event batch)
      (Steady-for_each insert_event insert_event-Steady batch) w)

-- A flush that meets no fault stores its batch.
pub flush-sound :
    (batch : List Event) (db : Db) → flush batch (sound db) ≡ (ok tt, sound (store_all batch db))
unfolding flush transaction
flush-sound batch db = rw insert_all
