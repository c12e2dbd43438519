-- ===== src/Ingest/Visitor/Salts.antt =====
-- The salt of a day is one, however often it is asked for, and does not outlive the next day.
use glimt.Base.{
  ℕ, ◌-◌, ◌/◌, Bool, true, false, ◌||◌, Option, none, some, List, [], ◌∷◌, ◌++◌, ◌≡◌, ◌⊎◌, inl, inr,
  refl, sym, ap, ◌∙◌, arith, Bytes, ◌==◌, keep, All, All-map, keep-passes, Bool-cases,
}
use glimt.Store.Tables.{Db, SaltRow}
use glimt.Store.Sql.{World, ok, query, exec, ignore, sound}
use glimt.Store.Ensures.{Ensures, Ensures-bind, Ensures-query, Ensures-pure}
use glimt.Ingest.Visitor.{
  ms_per_day, SaltManager, lookup_salt, insert_or_ignore, delete_old, is_current, new_manager,
  renew, load, ensure,
}

-- Cleaning up keeps the salt of the day.
lookup_salt-delete_old :
    (day : ℕ) (rows : List SaltRow) → lookup_salt day (delete_old day rows) ≡ lookup_salt day rows
unfolding lookup_salt delete_old
lookup_salt-delete_old day [] = refl
lookup_salt-delete_old day (r ∷ rows) = ground (arith, lookup_salt-delete_old day rows)

-- What the manager holds for a day is what the table holds for it.
pub record IsSynced (sm : SaltManager) (db : Db) : Type 0 where
  pub at : (day : ℕ) → is_current day sm ≡ true → lookup_salt day db.salts ≡ sm.salt

-- The manager is at a day, with the salt that the table holds for that day.
pub record IsSalted (day : ℕ) (sm : SaltManager) (db : Db) : Type 0 where
  pub value : Bytes
  pub at_day : sm.day ≡ some day
  pub held : sm.salt ≡ some value
  pub kept : lookup_salt day db.salts ≡ some value

-- The table has the salt `s` for the day.
abbrev Kept : ℕ → Bytes → Db → Type 0
Kept day s db = lookup_salt day db.salts ≡ some s

renew-Kept :
    (day now : ℕ) (fresh found : Option Bytes)
    → Ensures (λ db. found ≡ lookup_salt day db.salts) (renew day now fresh found) (Kept day)
unfolding renew exec query ignore
renew-Kept day now (some f) none = record {
  at = λ w s e h.
      let row : SaltRow = record { day = day; value = f; created_at = now } in
      ground (arith, lookup_salt-delete_old day (insert_or_ignore row w.db.salts));
}
renew-Kept day now none none = record { at = λ w s e h. cc }
renew-Kept day now fresh (some v) = record { at = λ w s e h. cc }

load-IsSalted :
    (day now : ℕ) (fresh : Option Bytes) → Ensures (λ _. Unit) (load day now fresh) (IsSalted day)
unfolding load
load-IsSalted day now fresh =
    Ensures-bind (λ _. Unit) (λ found db. found ≡ lookup_salt day db.salts) (IsSalted day)
      (query (λ db. lookup_salt day db.salts)) _
      (Ensures-query (λ _. Unit) (λ found db. found ≡ lookup_salt day db.salts) _ (λ db p. refl))
      λ found.
        Ensures-bind (λ db. found ≡ lookup_salt day db.salts) (Kept day) (IsSalted day)
          (renew day now fresh found) _ (renew-Kept day now fresh found)
          λ s.
            Ensures-pure (Kept day s) (IsSalted day) (record { day = some day; salt = some s })
              (λ db k. record { value = s; at_day = refl; held = refl; kept = k })

current_parts :
    (day : ℕ) (d : Option ℕ) (s : Option Bytes) (db : Db)
    → let sm : SaltManager = record { day = d; salt = s } in
      IsSynced sm db → is_current day sm ≡ true → IsSalted day sm db
unfolding is_current
current_parts day none s db sync h = cc
current_parts day (some d) none db sync h = cc
current_parts day (some d) (some s) db sync h = record {
  value = s;
  at_day = ground arith;
  held = refl;
  kept = sync.at day h;
}

-- If `ensure` succeeds for a manager that agrees with the table, the manager is at the day of the
-- clock, and holds the salt that the table then has for that day.
ensure-IsSalted :
    (now : ℕ) (fresh : Option Bytes) (sm : SaltManager)
    → Ensures (IsSynced sm) (ensure now fresh sm) (IsSalted (now / ms_per_day))
unfolding ensure
ensure-IsSalted now fresh sm =
    let day = now / ms_per_day in
    elim (Bool-cases (is_current day sm)) [
      | inl e ↦ rw e (
          Ensures-pure (IsSynced sm) (IsSalted day) sm
            (λ db sync. current_parts day sm.day sm.salt db sync e))
      | inr e ↦ rw e (record { at = λ w sm' p h. (load-IsSalted day now fresh).at w sm' tt h })
    ]

salted_parts :
    (day : ℕ) (d : Option ℕ) (s : Option Bytes) (db : Db) (v : Bytes)
    → d ≡ some day
    → s ≡ some v
    → lookup_salt day db.salts ≡ some v
    → IsSynced (record { day = d; salt = s }) db
unfolding is_current
salted_parts day none s db v a h k = cc
salted_parts day (some d) none db v a h k = cc
salted_parts day (some d) (some s) db v a h k = record {
  at = λ day' e. let same_day : day' ≡ day = ground arith in rw same_day (k ∙ sym h);
}

-- The manager and the table then agree, as `ensure` needs it the next time.
pub IsSalted-IsSynced : (day : ℕ) (sm : SaltManager) (db : Db) → IsSalted day sm db → IsSynced sm db
IsSalted-IsSynced day sm db h = salted_parts day sm.day sm.salt db h.value h.at_day h.held h.kept

pub new_manager-IsSynced : (db : Db) → IsSynced new_manager db
unfolding is_current
new_manager-IsSynced db = record { at = λ day e. cc }

-- Where the table has a salt for the day, no other is drawn.
renew_found :
    (day now : ℕ) (s : Bytes) (fresh found : Option Bytes)
    → Ensures (λ db. found ≡ some s) (renew day now fresh found) (λ t db. t ≡ s)
unfolding renew
renew_found day now s fresh none = record { at = λ w a p h. cc }
renew_found day now s fresh (some v) = record { at = λ w a p h. cc }

load_found :
    (day now : ℕ) (s : Bytes) (fresh : Option Bytes)
    → Ensures (Kept day s) (load day now fresh) (λ (sm : SaltManager) db. sm.salt ≡ some s)
unfolding load
load_found day now s fresh =
    Ensures-bind (Kept day s) (λ found db. found ≡ some s)
      (λ (sm : SaltManager) db. sm.salt ≡ some s) (query (λ db. lookup_salt day db.salts)) _
      (Ensures-query (Kept day s) (λ found db. found ≡ some s) _ (λ db k. k))
      λ found.
        Ensures-bind (λ db. found ≡ some s) (λ t db. t ≡ s)
          (λ (sm : SaltManager) db. sm.salt ≡ some s) (renew day now fresh found) _
          (renew_found day now s fresh found)
          λ t.
            Ensures-pure (λ db. t ≡ s) (λ (sm : SaltManager) db. sm.salt ≡ some s)
              (record { day = some day; salt = some t }) (λ db e. ap some e)

ensure_new :
    (now : ℕ) (s : Bytes) (fresh : Option Bytes)
    → Ensures
        (Kept (now / ms_per_day) s)
        (ensure now fresh new_manager)
        (λ (sm : SaltManager) db. sm.salt ≡ some s)
unfolding ensure is_current
ensure_new now s fresh = load_found (now / ms_per_day) now s fresh

-- Where `ensure` has succeeded for a manager that agrees with the table, and the process starts again
-- on the same day with the tables as they were left, `ensure` of the new manager, if it succeeds,
-- gives the same salt, whatever bytes it would have drawn.
pub restart_keeps_salt :
    (now later : ℕ) (fresh fresh' : Option Bytes) (sm sm₁ sm₂ : SaltManager) (w w' : World)
    → later / ms_per_day ≡ now / ms_per_day
    → IsSynced sm w.db
    → (ensure now fresh sm w).0 ≡ ok sm₁
    → w'.db ≡ (ensure now fresh sm w).1.db
    → (ensure later fresh' new_manager w').0 ≡ ok sm₂
    → sm₂.salt ≡ sm₁.salt
restart_keeps_salt now later fresh fresh' sm sm₁ sm₂ w w' same_day sync h same_db h' =
    let day = now / ms_per_day in
    let first = (ensure-IsSalted now fresh sm).at w sm₁ sync h in
    let kept : Kept (later / ms_per_day) first.value w'.db = rw (same_day, same_db) first.kept in
    (ensure_new later first.value fresh').at w' sm₂ kept h' ∙ sym first.held

-- What a salt row may be after the clean-up on `day`: of that day or of the one before.
abbrev pub IsRecent : ℕ → SaltRow → Type 0
IsRecent day r = (r.day ≡ day) ⊎ (r.day ≡ day - 1)

delete_old-IsRecent : (day : ℕ) (rows : List SaltRow) → All (IsRecent day) (delete_old day rows)
unfolding delete_old
delete_old-IsRecent day rows =
    let p : SaltRow → Bool = λ r. r.day == day || r.day == day - 1 in
    All-map (λ r. p r ≡ true) (IsRecent day) (λ r e. ground arith) (keep p rows)
      (keep-passes p rows)

lookup_salt-append :
    (row : SaltRow) (rows : List SaltRow)
    → lookup_salt row.day rows ≡ none
    → lookup_salt row.day (rows ++ row ∷ []) ≡ some row.value
unfolding lookup_salt
lookup_salt-append row [] e = ground arith
lookup_salt-append row (r ∷ rows) e = ground (arith, lookup_salt-append row rows)

insert_or_ignore_new :
    (row : SaltRow) (rows : List SaltRow)
    → lookup_salt row.day rows ≡ none
    → insert_or_ignore row rows ≡ rows ++ row ∷ []
unfolding insert_or_ignore
insert_or_ignore_new row rows e = rw (e, insert_or_ignore)

renew_new :
    (day now : ℕ) (salt : Bytes) (db : Db)
    → lookup_salt day db.salts ≡ none
    → let row : SaltRow = record { day = day; value = salt; created_at = now } in
      renew day now (some salt) none (sound db)
      ≡ (ok salt, sound (record db { salts = delete_old day (db.salts ++ row ∷ []) }))
unfolding renew query exec ignore
renew_new day now salt db e =
    let row : SaltRow = record { day = day; value = salt; created_at = now } in
    rw (insert_or_ignore_new row db.salts e, lookup_salt-append row db.salts e)

load_new :
    (day now : ℕ) (salt : Bytes) (db : Db)
    → lookup_salt day db.salts ≡ none
    → let row : SaltRow = record { day = day; value = salt; created_at = now } in
      load day now (some salt) (sound db) ≡ (
        ok (record { day = some day; salt = some salt }),
        sound (record db { salts = delete_old day (db.salts ++ row ∷ []) }),
      )
unfolding load query
load_new day now salt db e = rw (e, renew_new day now salt db e)

-- The `ensure` of a manager that is not at the day, where the table has no salt for the day and no
-- statement fails, returns a manager with the salt drawn and leaves only salts of that day and of the
-- day before.
pub ensure_forgets :
    (now : ℕ) (salt : Bytes) (sm : SaltManager) (db : Db)
    → is_current (now / ms_per_day) sm ≡ false
    → lookup_salt (now / ms_per_day) db.salts ≡ none
    → let r = ensure now (some salt) sm (sound db) in
      (r.0 ≡ ok (record { day = some (now / ms_per_day); salt = some salt }))
      × All (IsRecent (now / ms_per_day)) r.1.db.salts
unfolding ensure
ensure_forgets now salt sm db old new =
    let day = now / ms_per_day in
    let row : SaltRow = record { day = day; value = salt; created_at = now } in
    rw (old, load_new day now salt db new) (refl, delete_old-IsRecent day (db.salts ++ row ∷ []))
