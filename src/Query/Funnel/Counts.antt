-- ===== src/Query/Funnel/Counts.antt =====
-- The counts of a funnel in internal/query/query.go.
use glimt.Base.{
  ℕ, ◌+◌, ◌≤◌, true, false, List, [], ◌∷◌, ◌++◌, map, ◌≡◌, refl, sym, ap, ◌∙◌, arith, ◌==◌, keep,
  All, All-map, sum_of, sum_of-count, All-every, length, Bool-cases, inl, inr, distinct,
}
use glimt.Store.Tables.{Db, EventRow}
use glimt.Store.Sql.{sound, ok, query}
use glimt.Query.{events_in}
use glimt.Query.Funnel.{
  Step, Entry, StepResult, row_le, insert_row, order_rows, entry_of, entries_of, zeros, walk_all,
  step_counts, results, funnel_results, evaluate_funnel,
}
use glimt.Query.Funnel.Greedy.{
  embeds, embeds-append, add_counts, add_counts-zero, Ascends, hit, walk-hit,
}

-- ORDER BY: each row comes before those after it.
abbrev IsOrdered : List EventRow → Type 0
IsOrdered [] = Unit
IsOrdered (r ∷ rows) = All (λ x. row_le r x ≡ true) rows × IsOrdered rows

row_le_trans : (a b c : EventRow) → row_le a b ≡ true → row_le b c ≡ true → row_le a c ≡ true
unfolding row_le
row_le_trans a b c h k = ground arith

row_le_total : (a b : EventRow) → row_le a b ≡ false → row_le b a ≡ true
unfolding row_le
row_le_total a b h = ground arith

All-insert_row :
    (P : EventRow → Type 0) (r : EventRow) (rows : List EventRow)
    → P r
    → All P rows
    → All P (insert_row r rows)
unfolding insert_row
All-insert_row P r [] p h = (p, tt)
All-insert_row P r (x ∷ rows) p h = elim (Bool-cases (row_le r x)) [
  | inl e ↦ rw e (p, h)
  | inr e ↦ rw e (h.0, All-insert_row P r rows p h.1)
]

insert_row-IsOrdered :
    (r : EventRow) (rows : List EventRow) → IsOrdered rows → IsOrdered (insert_row r rows)
unfolding insert_row
insert_row-IsOrdered r [] h = (tt, tt)
insert_row-IsOrdered r (x ∷ rows) h = elim (Bool-cases (row_le r x)) [
  | inl e ↦ rw e (
    (
      e,
      All-map (λ y. row_le x y ≡ true) (λ y. row_le r y ≡ true) (λ y k. row_le_trans r x y e k) rows
          h.0,
    ),
    h,
  )
  | inr e ↦ rw e (
    All-insert_row (λ y. row_le x y ≡ true) r rows (row_le_total r x e) h.0,
    insert_row-IsOrdered r rows h.1,
  )
]

order_rows-IsOrdered : (rows : List EventRow) → IsOrdered (order_rows rows)
unfolding order_rows
order_rows-IsOrdered [] = tt
order_rows-IsOrdered (r ∷ rows) =
    insert_row-IsOrdered r (order_rows rows) (order_rows-IsOrdered rows)

entry_of-ts : (r : EventRow) → (entry_of r).ts ≡ r.event.ts
unfolding entry_of
entry_of-ts r = ground arith

-- The entries of one session are in the order of time.
entries_of-Ascends :
    (sid last : ℕ) (rows : List EventRow)
    → IsOrdered rows
    → All (λ r. r.session_id ≡ sid → last ≤ r.event.ts) rows
    → Ascends last (entries_of sid rows)
unfolding entries_of
entries_of-Ascends sid last [] h a = tt
entries_of-Ascends sid last (r ∷ rows) h a = elim (Bool-cases (r.session_id == sid)) [
  | inl e ↦
      let own : r.session_id ≡ sid = ground arith in
      rw e (
        omega (arith, entry_of-ts r, a.0 own),
        entries_of-Ascends sid (entry_of r).ts rows h.1 (
            All-map (λ x. row_le r x ≡ true)
              (λ x. x.session_id ≡ sid → (entry_of r).ts ≤ x.event.ts)
              (λ x k q. unfold row_le in ground (arith, entry_of-ts r)) rows h.0),
      )
  | inr e ↦ rw e (entries_of-Ascends sid last rows h.1 a.1)
]

-- The value of `f` at each prefix of the steps, the first step's first.
unfoldable pub tally : (List Step → ℕ) → List Step → List ℕ
tally f [] = []
tally f (s ∷ steps) = f (s ∷ []) ∷ tally (λ pre. f (s ∷ pre)) steps

add_counts-zeros :
    (f : List Step → ℕ) (steps : List Step) → add_counts f steps (zeros steps) ≡ tally f steps
unfolding add_counts tally
add_counts-zeros f [] = refl
add_counts-zeros f (s ∷ steps) = ground (arith, add_counts-zeros (λ pre. f (s ∷ pre)) steps)

add_counts-add_counts :
    (f g : List Step → ℕ) (steps : List Step) (counts : List ℕ)
    → add_counts g steps (add_counts f steps counts)
      ≡ add_counts (λ pre. f pre + g pre) steps counts
unfolding add_counts
add_counts-add_counts f g [] counts = refl
add_counts-add_counts f g (s ∷ steps) [] = refl
add_counts-add_counts f g (s ∷ steps) (c ∷ counts) =
    ground (arith, add_counts-add_counts (λ pre. f (s ∷ pre)) (λ pre. g (s ∷ pre)) steps counts)

tally-same :
    (f g : List Step → ℕ) (steps : List Step)
    → ((pre : List Step) → f pre ≡ g pre)
    → tally f steps ≡ tally g steps
unfolding tally
tally-same f g [] h = refl
tally-same f g (s ∷ steps) h =
    rw (h (s ∷ []), tally-same (λ pre. f (s ∷ pre)) (λ pre. g (s ∷ pre)) steps (λ pre. h (s ∷ pre)))
      refl

module _ (rows : List EventRow) where
  reached : List ℕ → List Step → ℕ
  reached sids pre = sum_of (λ sid. hit (entries_of sid rows) pre) sids

  walk_all-reached :
      (steps : List Step) (sids counts : List ℕ)
      → IsOrdered rows
      → walk_all steps rows sids counts ≡ add_counts (reached sids) steps counts
  unfolding walk_all reached sum_of
  walk_all-reached steps [] counts h = sym (add_counts-zero steps counts)
  walk_all-reached steps (sid ∷ sids) counts h =
      let own = entries_of sid rows in
      let asc = entries_of-Ascends sid 0 rows h (All-every (λ r q. omega arith) rows) in
      ap (λ cs. walk_all steps rows sids cs) (walk-hit steps counts 0 own asc)
      ∙ walk_all-reached steps sids (add_counts (hit own) steps counts) h
      ∙ add_counts-add_counts (hit own) (reached sids) steps counts

  -- How many of the sessions went through the steps.
  pub sessions_with : List Step → ℕ
  sessions_with pre = length (
      keep (λ sid. embeds pre (entries_of sid rows))
        (distinct ◌==◌ (map (λ (r : EventRow). r.session_id) rows)))

  step_counts-tally :
      (steps : List Step) → IsOrdered rows → step_counts steps rows ≡ tally sessions_with steps
  unfolding step_counts sessions_with reached
  step_counts-tally steps h =
      let sids = distinct ◌==◌ (map (λ (r : EventRow). r.session_id) rows) in
      walk_all-reached steps sids (zeros steps) h
      ∙ add_counts-zeros (reached sids) steps
      ∙ tally-same (reached sids) sessions_with steps
          (λ pre. sum_of-count (λ sid. embeds pre (entries_of sid rows)) sids)

abbrev pub count_of : StepResult → ℕ
count_of r = r.count

results-counts :
    (base previous : ℕ) (f : List Step → ℕ) (steps : List Step)
    → map count_of (results base previous steps (tally f steps)) ≡ tally f steps
unfolding results tally
results-counts base previous f [] = refl
results-counts base previous f (s ∷ steps) =
    ap (λ cs. f (s ∷ []) ∷ cs) (results-counts base (f (s ∷ [])) (λ pre. f (s ∷ pre)) steps)

-- The rows that EvaluateFunnel reads.
abbrev pub funnel_rows : ℕ → ℕ → ℕ → Db → List EventRow
funnel_rows site from_ms to_ms db = order_rows (events_in site from_ms to_ms db.events)

-- Where its query does not fail, EvaluateFunnel returns a result for each step, whose count is the
-- number of sessions in which the steps up to that one can be found in order at all among the events
-- of the range: taking the first event that fits, as the loop does, loses no session.
pub evaluate_funnel-counts :
    (site from_ms to_ms : ℕ) (s : Step) (steps : List Step) (db : Db)
    → (rs : List StepResult) × (evaluate_funnel site (s ∷ steps) from_ms to_ms (sound db)
        ≡ (ok rs, sound db))
      × (map count_of rs ≡ tally (sessions_with (funnel_rows site from_ms to_ms db)) (s ∷ steps))
unfolding evaluate_funnel query funnel_results results tally
evaluate_funnel-counts site from_ms to_ms s steps db =
    let rows = funnel_rows site from_ms to_ms db in
    let counts =
      step_counts-tally rows (s ∷ steps)
        (order_rows-IsOrdered (events_in site from_ms to_ms db.events)) in
    (
      _,
      refl,
      ap (λ cs. map count_of (funnel_results (s ∷ steps) cs)) counts
          ∙ results-counts (sessions_with rows (s ∷ [])) 0 (sessions_with rows) (s ∷ steps),
    )

-- Each number is at most the one before it, the first at most `bound`.
abbrev pub Falls : ℕ → List ℕ → Type 0
Falls bound [] = Unit
Falls bound (c ∷ counts) = (c ≤ bound) × Falls c counts

tally-Falls :
    (f : List Step → ℕ) (steps : List Step)
    → ((pre : List Step) (s : Step) → f (pre ++ s ∷ []) ≤ f pre)
    → Falls (f []) (tally f steps)
unfolding tally
tally-Falls f [] h = tt
tally-Falls f (s ∷ steps) h = (h [] s, tally-Falls (λ pre. f (s ∷ pre)) steps (λ pre. h (s ∷ pre)))

sum_of-le : (f g : ℕ → ℕ) (xs : List ℕ) → ((x : ℕ) → f x ≤ g x) → sum_of f xs ≤ sum_of g xs
unfolding sum_of
sum_of-le f g [] h = omega arith
sum_of-le f g (x ∷ xs) h = omega (arith, h x, sum_of-le f g xs h)

hit-append :
    (pre : List Step) (s : Step) (entries : List Entry)
    → hit entries (pre ++ s ∷ []) ≤ hit entries pre
hit-append pre s entries = ground (arith, embeds-append pre s entries)

-- For each step, no more sessions go through the steps up to it than through those before it, and
-- none more than there are.
pub tally-sessions_with :
    (rows : List EventRow) (steps : List Step)
    → Falls (sessions_with rows []) (tally (sessions_with rows) steps)
unfolding sessions_with
tally-sessions_with rows steps =
    let sids = distinct ◌==◌ (map (λ (r : EventRow). r.session_id) rows) in
    let count = λ (pre : List Step). sum_of-count (λ sid. embeds pre (entries_of sid rows)) sids in
    tally-Falls (sessions_with rows) steps (λ pre s. omega (
      arith,
      count pre,
      count (pre ++ s ∷ []),
      sum_of-le (λ sid. hit (entries_of sid rows) (pre ++ s ∷ []))
          (λ sid. hit (entries_of sid rows) pre) sids
          (λ sid. hit-append pre s (entries_of sid rows)),
    ))

-- Where its query does not fail, EvaluateFunnel returns counts that fall from step to step, so that no
-- drop-off is negative, and the first is at most the number of sessions with events in the range.
pub evaluate_funnel-Falls :
    (site from_ms to_ms : ℕ) (s : Step) (steps : List Step) (db : Db)
    → (rs : List StepResult) × (evaluate_funnel site (s ∷ steps) from_ms to_ms (sound db)
        ≡ (ok rs, sound db))
      × Falls (sessions_with (funnel_rows site from_ms to_ms db) []) (map count_of rs)
evaluate_funnel-Falls site from_ms to_ms s steps db =
    let (rs, e, q) = evaluate_funnel-counts site from_ms to_ms s steps db in
    (rs, e, rw q (tally-sessions_with (funnel_rows site from_ms to_ms db) (s ∷ steps)))
