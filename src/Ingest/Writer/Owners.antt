-- ===== src/Ingest/Writer/Owners.antt =====
-- To which website and visitor the events of a session belong.
use glimt.Base.{
  ℕ, ◌+◌, ◌<◌, Bool, true, false, Option, none, some, List, [], ◌∷◌, ◌++◌, ◌≡◌, refl, sym, arith,
  if◌then◌else◌, ◌==◌, All, All-append, All-map, All-zip, ◌∙◌,
}
use glimt.Model.{Event, type_pageview}
use glimt.Store.Tables.{Session, EventRow, Db, next_id, next_id-append}
use glimt.Ingest.Writer.{
  find_open, new_session, update_session, set_for, touch_pageview, touch_custom, add_event,
}
use glimt.Ingest.Writer.Effects.{store_event, store_with}
use glimt.Ingest.Writer.Counts.{
  All-find_open, ids-lt-next_id, session_id_of, next_id-update_session, owned-append,
}
use glimt.Ingest.Writer.Stitching.{Continues, find_open-some}

-- Sessions under one id are of one website and one visitor.
abbrev Agree : Session → Session → Type 0
Agree s t = s.id ≡ t.id → (s.website_id ≡ t.website_id) × (s.visitor_hash ≡ t.visitor_hash)

-- An event under a session's id is of the session's website and visitor.
abbrev Owns : EventRow → Session → Type 0
Owns r s =
    r.session_id ≡ s.id
    → (r.event.website_id ≡ s.website_id) × (r.event.visitor_hash ≡ s.visitor_hash)

-- Events are filed under sessions of their own website and visitor.
pub record IsIsolated (db : Db) : Type 0 where
  pub agree : All (λ s. All (Agree s) db.sessions) db.sessions
  pub owns : All (λ r. All (Owns r) db.sessions) db.events
  pub given : All (λ (r : EventRow). r.session_id < next_id session_id_of db.sessions) db.events

-- The UPDATE keeps what its two ways of changing a row keep.
module _ (P : Session → Type 0) where
  P-if :
      (b : Bool) (f g : Session → Session) (s : Session)
      → P (f s)
      → P (g s)
      → P ((if b then f else g) s)
  P-if true f g s hf hg = hf
  P-if false f g s hf hg = hg

  P-if_row : (b : Bool) (s t : Session) → P s → P t → P (if b then s else t)
  P-if_row true s t hs ht = hs
  P-if_row false s t hs ht = ht

  All-updated :
      (ev : Event) (pv sid : ℕ) (rows : List Session)
      → ((s : Session) → P s → P (touch_pageview ev (pv + 1) s) × P (touch_custom ev s))
      → All P rows
      → All P (update_session (set_for ev pv) sid rows)
  unfolding update_session
  All-updated ev pv sid [] keeps h = tt
  All-updated ev pv sid (x ∷ rows) keeps h =
      let (hp, hc) = keeps x h.0 in
      (
        P-if_row (x.id == sid) (set_for ev pv x) x
            (P-if (ev.kind == type_pageview) (touch_pageview ev (pv + 1)) (touch_custom ev) x hp hc)
            h.0,
        All-updated ev pv sid rows keeps h.1,
      )

module _ (ev : Event) (db : Db) (inv : IsIsolated db) where
  opened-IsIsolated : IsIsolated (store_with ev none db)
  unfolding store_with add_event new_session
  opened-IsIsolated =
      let id = next_id session_id_of db.sessions in
      let new = new_session ev id in
      let below = ids-lt-next_id db.sessions in
      let after = next_id-append session_id_of db.sessions new refl in
      let r : EventRow = record {
        id = next_id (λ (x : EventRow). x.id) db.events;
        session_id = id;
        event = record ev { props = [] };
      } in
      record {
        agree =
            All-append (λ s. All (Agree s) (db.sessions ++ new ∷ [])) db.sessions (new ∷ [])
              (All-zip (λ s. All (Agree s) db.sessions) (λ (s : Session). s.id < id)
                (λ s. All (Agree s) (db.sessions ++ new ∷ []))
                (λ s a lt.
                  All-append (Agree s) db.sessions (new ∷ []) a (λ e. absurd (omega arith), tt))
                db.sessions inv.agree below)
              (
                All-append (Agree new) db.sessions (new ∷ [])
                    (All-map (λ (s : Session). s.id < id) (Agree new)
                      (λ s lt e. absurd (omega arith)) db.sessions below)
                    (λ e. (refl, refl), tt),
                tt,
              );
        owns =
            All-append (λ x. All (Owns x) (db.sessions ++ new ∷ [])) db.events (r ∷ [])
              (All-zip (λ x. All (Owns x) db.sessions) (λ (x : EventRow). x.session_id < id)
                (λ x. All (Owns x) (db.sessions ++ new ∷ []))
                (λ x o lt.
                  All-append (Owns x) db.sessions (new ∷ []) o (λ e. absurd (omega arith), tt))
                db.events inv.owns inv.given)
              (
                All-append (Owns r) db.sessions (new ∷ [])
                    (All-map (λ (s : Session). s.id < id) (Owns r) (λ s lt e. absurd (omega arith))
                      db.sessions below)
                    (λ e. (refl, refl), tt),
                tt,
              );
        given =
            owned-append db.events r id _ (omega (arith, after)) (omega (arith, after)) inv.given;
      }

  joined-IsIsolated :
      (s : Session)
      → Continues ev s
      → All (Agree s) db.sessions
      → s.id < next_id session_id_of db.sessions
      → IsIsolated (store_with ev (some s) db)
  unfolding store_with add_event next_id touch_pageview touch_custom
  joined-IsIsolated s c agree below =
      let same_ids = next_id-update_session ev s.pageviews s.id db.sessions in
      let r : EventRow = record {
        id = next_id (λ (x : EventRow). x.id) db.events;
        session_id = s.id;
        event = record ev { props = [] };
      } in
      let updated = update_session (set_for ev s.pageviews) s.id db.sessions in
      let update : (P : Session → Type 0)
          → ((x : Session)
              → P x
              → P (touch_pageview ev (s.pageviews + 1) x) × P (touch_custom ev x))
          → All P db.sessions
          → All P updated =
        λ P keeps h. All-updated P ev s.pageviews s.id db.sessions keeps h in
      record {
        agree =
            update (λ x. All (Agree x) updated) (λ x h. (h, h))
              (All-map (λ x. All (Agree x) db.sessions) (λ x. All (Agree x) updated)
                (λ x h. update (Agree x) (λ y k. (k, k)) h) db.sessions inv.agree);
        owns =
            All-append (λ x. All (Owns x) updated) db.events (r ∷ [])
              (All-map (λ x. All (Owns x) db.sessions) (λ x. All (Owns x) updated)
                (λ x h. update (Owns x) (λ y k. (k, k)) h) db.events inv.owns)
              (
                update (Owns r) (λ y k. (k, k))
                    (All-map (Agree s) (Owns r)
                      (λ x h e. (sym c.website ∙ (h e).0, sym c.visitor ∙ (h e).1)) db.sessions
                      agree),
                tt,
              );
        given =
            owned-append db.events r (next_id session_id_of db.sessions) _ (omega (arith, same_ids))
              (omega (arith, same_ids)) inv.given;
      }

  stored-IsIsolated :
      (found : Option Session)
      → ((s : Session)
          → found ≡ some s
          → Continues ev s × All (Agree s) db.sessions × (s.id < next_id session_id_of db.sessions))
      → IsIsolated (store_with ev found db)
  stored-IsIsolated none h = opened-IsIsolated
  stored-IsIsolated (some s) h = let (c, a, b) = h s refl in joined-IsIsolated s c a b

  pub store_event-IsIsolated : IsIsolated (store_event ev db)
  unfolding store_event
  store_event-IsIsolated = stored-IsIsolated (find_open ev db) λ s e. (
    (find_open-some ev db s e).0,
    All-find_open (λ t. All (Agree t) db.sessions) ev db s inv.agree e,
    All-find_open (λ (t : Session). t.id < next_id session_id_of db.sessions) ev db s
        (ids-lt-next_id db.sessions) e,
  )
