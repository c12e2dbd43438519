-- ===== src/Query/Funnel.antt =====
-- internal/query/query.go: funnels, the sessions that went through a list of steps in order.
--
-- encoding/json's texts of the steps come and go through the two functions of `Json`. The map from
-- sessions to entries is gone through in the order of first appearance; the counts are sums over it.
pub mod Greedy
pub mod Counts
use glimt.Base.{
  ℕ, ◌+◌, ◌-◌, Bool, true, false, ◌&&◌, ◌||◌, not, Option, none, some, List, [], ◌∷◌, ◌++◌, map,
  Bytes, same, ltb, leb, ◌==◌, if◌then◌else◌, keep, distinct,
}
use glimt.Model.{type_pageview}
use glimt.Store.Tables.{Db, EventRow, FunnelRow, next_id}
use glimt.Store.Sql.{Sql, exec, query, insert, confirm, require, panicked, pure, ◌>>=◌, ◌>>◌}
use glimt.Query.{in_scope, in_range, events_in}

pub record Step : Type 0 where
  pub name : Bytes
  pub is_url : Bool

pub record Json : Type 0 where
  pub marshal : List Step → Bytes
  pub unmarshal : Bytes → List Step  -- what is left in Steps, also after an error

pub record Funnel : Type 0 where
  pub id : ℕ
  pub website_id : ℕ
  pub name : Bytes
  pub steps : List Step
  pub created_at : ℕ

-- json.Marshal of the steps, which are texts and Booleans, does not fail.
unfoldable pub create_funnel : Json → ℕ → ℕ → Bytes → List Step → Sql Funnel
create_funnel json now site name steps = do
  inserted ← insert (λ db.
      let id = next_id (λ (f : FunnelRow). f.id) db.funnels in
      let row : FunnelRow = record {
        id = id;
        website_id = site;
        name = name;
        steps_json = json.marshal steps;
        created_at = now;
      } in
      (id, record db { funnels = db.funnels ++ row ∷ [] }))
  id ← confirm inserted
  pure (record { id = id; website_id = site; name = name; steps = steps; created_at = now })

-- ORDER BY created_at DESC
unfoldable pub insert_newest : FunnelRow → List FunnelRow → List FunnelRow
insert_newest f [] = f ∷ []
insert_newest f (g ∷ rows) =
    if ltb f.created_at g.created_at then g ∷ insert_newest f rows else f ∷ g ∷ rows

unfoldable pub newest_first : List FunnelRow → List FunnelRow
unfolding insert_newest
newest_first [] = []
newest_first (f ∷ rows) = insert_newest f (newest_first rows)

abbrev pub funnel_of : Json → FunnelRow → Funnel
funnel_of json f = record {
  id = f.id;
  website_id = f.website_id;
  name = f.name;
  steps = json.unmarshal f.steps_json;
  created_at = f.created_at;
}

unfoldable pub list_funnels : Json → ℕ → Sql (List Funnel)
unfolding newest_first
list_funnels json site = query (λ db.
    map (funnel_of json)
      (newest_first (keep (λ (f : FunnelRow). in_scope site f.website_id) db.funnels)))

unfoldable pub delete_funnel : ℕ → Sql (Unit {0})
delete_funnel id =
    exec (λ db. record db { funnels = keep (λ (f : FunnelRow). not (f.id == id)) db.funnels })

-- ORDER BY session_id, ts ASC
unfoldable pub row_le : EventRow → EventRow → Bool
row_le a b =
    ltb a.session_id b.session_id || a.session_id == b.session_id && leb a.event.ts b.event.ts

unfoldable pub insert_row : EventRow → List EventRow → List EventRow
insert_row r [] = r ∷ []
insert_row r (x ∷ rows) = if row_le r x then r ∷ x ∷ rows else x ∷ insert_row r rows

unfoldable pub order_rows : List EventRow → List EventRow
unfolding insert_row row_le
order_rows [] = []
order_rows (r ∷ rows) = insert_row r (order_rows rows)

pub record Entry : Type 0 where
  pub ts : ℕ
  pub is_url : Bool
  pub val : Bytes

-- The two branches on the type of a row.
unfoldable pub entry_of : EventRow → Entry
entry_of r =
    if r.event.kind == type_pageview
    then record { ts = r.event.ts; is_url = true; val = r.event.url_path }
    else record { ts = r.event.ts; is_url = false; val = r.event.name }

-- sessionEvents[sid]
unfoldable pub entries_of : ℕ → List EventRow → List Entry
entries_of sid rows = map entry_of (keep (λ (r : EventRow). r.session_id == sid) rows)

unfoldable pub same_kind : Bool → Bool → Bool
same_kind true b = b
same_kind false b = not b

unfoldable pub matches_step : Step → Entry → Bool
unfolding same_kind
matches_step s e = same_kind e.is_url s.is_url && same e.val s.name

-- The loop over the entries of one session: `steps` and `counts` from stepIdx on.
unfoldable pub walk : List Step → List ℕ → ℕ → List Entry → List ℕ
unfolding matches_step
walk [] counts last_ts entries = counts
walk (s ∷ steps) [] last_ts entries = []
walk (s ∷ steps) (c ∷ counts) last_ts [] = c ∷ counts
walk (s ∷ steps) (c ∷ counts) last_ts (e ∷ entries) =
    let hit = (c + 1) ∷ walk steps counts e.ts entries in
    let miss = walk (s ∷ steps) (c ∷ counts) last_ts entries in
    if matches_step s e && leb last_ts e.ts then hit else miss

-- make([]int, len(steps))
abbrev pub zeros : List Step → List ℕ
zeros [] = []
zeros (s ∷ steps) = 0 ∷ zeros steps

unfoldable pub walk_all : List Step → List EventRow → List ℕ → List ℕ → List ℕ
unfolding walk entries_of
walk_all steps rows [] counts = counts
walk_all steps rows (sid ∷ sids) counts =
    walk_all steps rows sids (walk steps counts 0 (entries_of sid rows))

unfoldable pub step_counts : List Step → List EventRow → List ℕ
unfolding walk_all
step_counts steps rows =
    walk_all steps rows (distinct ◌==◌ (map (λ (r : EventRow). r.session_id) rows)) (zeros steps)

-- The percentages are fractions of 100, a zero denominator standing for 0.0.
pub record StepResult : Type 0 where
  pub step : Bytes
  pub count : ℕ
  pub percentage : ℕ × ℕ
  pub dropoff : ℕ × ℕ

-- stepCounts[i-1] - cnt never falls below zero: see Counts.
unfoldable pub results : ℕ → ℕ → List Step → List ℕ → List StepResult
results base previous [] counts = []
results base previous (s ∷ steps) [] = []
results base previous (s ∷ steps) (c ∷ counts) =
    record { step = s.name; count = c; percentage = (c, base); dropoff = (previous - c, previous) }
    ∷ results base c steps counts

-- The first step has no one before it.
unfoldable pub funnel_results : List Step → List ℕ → List StepResult
unfolding results
funnel_results steps [] = []
funnel_results steps (c ∷ counts) = results c 0 steps (c ∷ counts)

unfoldable pub evaluate_funnel : ℕ → List Step → ℕ → ℕ → Sql (List StepResult)
unfolding step_counts funnel_results order_rows
evaluate_funnel site [] from_ms to_ms = pure []
evaluate_funnel site (s ∷ steps) from_ms to_ms = query (λ db.
    funnel_results (s ∷ steps)
      (step_counts (s ∷ steps) (order_rows (events_in site from_ms to_ms db.events))))
