-- ===== src/Sites/Reuse.antt =====
-- Delete and Create of internal/sites/sites.go: the id that a new website gets.
use glimt.Base.{
  ℕ, ◌≤◌, Bool, true, ◌||◌, not, List, [], ◌∷◌, ◌++◌, ◌≡◌, refl, sym, ap, ◌∙◌, arith, Bytes, ◌==◌,
  keep, All, All-map, keep-all, keep-append, append-nil, max, Bool-cases, inl, inr,
}
use glimt.Model.{Site}
use glimt.Store.Tables.{Db, Website, max_id, next_id}
use glimt.Store.Sql.{ok, sound, exec, query, insert_checked, confirm}
use glimt.Query.{count_pageviews_in}
use glimt.Sites.{Registry, Drawn, create, delete, insert_site, uuid_taken, clashes, reload, site_of}

max_id-IsUpper : (rows : List Website) → All (λ r. r.id ≤ max_id (λ (r : Website). r.id) rows) rows
unfolding max_id
max_id-IsUpper [] = tt
max_id-IsUpper (r ∷ rows) =
    let top = max_id (λ (x : Website). x.id) rows in
    (
      omega arith,
      All-map (λ (x : Website). x.id ≤ top) (λ x. x.id ≤ max r.id top) (λ x h. omega arith) rows
          (max_id-IsUpper rows),
    )

-- Deleting the newest row leaves the rows before it.
keep-newest :
    (rows : List Website) (old : Website)
    → old.id ≡ next_id (λ (r : Website). r.id) rows
    → keep (λ (r : Website). not (r.id == old.id)) (rows ++ old ∷ []) ≡ rows
unfolding next_id
keep-newest rows old e =
    let p : Website → Bool = λ r. not (r.id == old.id) in
    let top = max_id (λ (r : Website). r.id) rows in
    let own : keep p (old ∷ []) ≡ [] = ground arith in
    keep-append p rows (old ∷ [])
    ∙ ap (λ xs. xs ++ keep p (old ∷ []))
        (keep-all p rows (
          All-map (λ r. r.id ≤ top) (λ r. p r ≡ true) (λ r h. ground arith) rows
            (max_id-IsUpper rows)))
    ∙ ap (λ xs. rows ++ xs) own
    ∙ append-nil rows

create_id :
    (hash_key : Bytes → Bytes) (now : ℕ) (d : Drawn) (name domain : Bytes) (db : Db) (s : Site)
    (key : Bytes) (r : Registry)
    → (create hash_key now d name domain (sound db)).0 ≡ ok (s, key, r)
    → (s.id ≡ next_id (λ (r : Website). r.id) db.websites)
      × ((create hash_key now d name domain (sound db)).1.db.rollup_stats ≡ db.rollup_stats)
unfolding create insert_site insert_checked confirm reload query site_of
create_id hash_key now d name domain db s key r e =
    elim (Bool-cases (
      uuid_taken d.uuid db.websites
      || clashes (next_id (λ (r : Website). r.id) db.websites) d.script_token d.collect_token
          db.websites)) [ inl q ↦ ground arith | inr q ↦ ground arith ]

-- The website created last is deleted and another one created, on a database where nothing fails. If
-- Create returns a site, it has the id of the deleted one, and the pageviews counted for it are, over
-- every range, those that had been counted for the deleted one: Delete has left them.
pub reused_id :
    (hash_key : Bytes → Bytes) (now : ℕ) (d : Drawn) (name domain : Bytes) (db : Db)
    (rows : List Website) (old : Website) (s : Site) (key : Bytes) (r : Registry)
    → db.websites ≡ rows ++ old ∷ []
    → old.id ≡ next_id (λ (r : Website). r.id) rows
    → let deleted = (delete old.id (sound db)).1 in
      let created = create hash_key now d name domain deleted in
      created.0 ≡ ok (s, key, r)
      → (s.id ≡ old.id)
        × ((from_ms to_ms : ℕ)
            → count_pageviews_in s.id from_ms to_ms created.1.db
              ≡ count_pageviews_in old.id from_ms to_ms db)
unfolding delete exec reload query count_pageviews_in
reused_id hash_key now d name domain db rows old s key r e newest made =
    let left : Db = record db {
      websites = keep (λ (r : Website). not (r.id == old.id)) db.websites;
    } in
    let (id, rollups) = create_id hash_key now d name domain left s key r made in
    let kept : left.websites ≡ rows = rw e (keep-newest rows old newest) in
    let same_id : s.id ≡ old.id = id ∙ ap (next_id (λ (r : Website). r.id)) kept ∙ sym newest in
    (same_id, λ from_ms to_ms. rw (same_id, rollups) refl)
