-- ===== src/Store/Sql.antt =====
-- database/sql over the tables: statements that can fail, and transactions.
--
-- A run of statements has a list of faults: one Boolean is used up by each statement, and `true`
-- makes it return an error and change nothing. A list that has run out makes no more faults.
use glimt.Base.{◌≡◌, ◌⊎◌, inl, inr, refl, Bool, true, false, Option, none, some, List, [], ◌∷◌}
use glimt.Store.Tables.{Db}

pub data Error : Type 0 where
  db_error no_rows random_error constraint invalid no_admin required last_admin panicked : Error

pub data Result {ℓ} (A : Type ℓ) : Type ℓ where
  ok : A → Result A
  err : Error → Result A

pub record World : Type 0 where
  pub db : Db
  pub faults : List Bool

abbrev pub Sql : Type 0 → Type 0
Sql A = World → Result A × World

abbrev pub continue : {A B : Type 0} → Result A → (A → Sql B) → Sql B
continue (ok a) f w = f a w
continue (err e) f w = (err e, w)

infixl 5 ◌>>=◌ ◌>>◌
abbrev pub ◌>>=◌ : {A B : Type 0} → Sql A → (A → Sql B) → Sql B
◌>>=◌ m f w = let (r, w') = m w in continue r f w'

abbrev pub ◌>>◌ : {B : Type 0} → Sql (Unit {0}) → Sql B → Sql B
m >> n = m >>= λ _. n

module _ {A : Type 0} where
  abbrev pub pure : A → Sql A
  pure a w = (ok a, w)

  abbrev pub raise : Error → Sql A
  raise e w = (err e, w)

  -- One statement: it fails if the next fault says so, and does its work if not.
  abbrev statement : List Bool → (Db → A × Db) → Db → Result A × World
  statement [] f db = (ok (f db).0, record { db = (f db).1; faults = [] })
  statement (true ∷ rest) f db = (err db_error, record { db = db; faults = rest })
  statement (false ∷ rest) f db = (ok (f db).0, record { db = (f db).1; faults = rest })

  -- A statement that writes and gives a value, such as the id of a new row.
  unfoldable pub insert : (Db → A × Db) → Sql A
  insert f w = statement w.faults f w.db

  -- A statement that only reads.
  unfoldable pub query : (Db → A) → Sql A
  query f w = statement w.faults (λ db. (f db, db)) w.db

  -- A call of the driver that can fail and whose value is known: `LastInsertId`.
  unfoldable pub confirm : A → Sql A
  confirm a w = statement w.faults (λ db. (a, db)) w.db

  -- What `defer tx.Rollback()` and `tx.Commit()` make of the body's outcome.
  unfoldable pub settle : Db → Result A × World → Result A × World
  settle before (err e, w) = (err e, record w { db = before })
  settle before (ok a, w) =
      let (r, w') = statement w.faults (λ db. (a, db)) w.db in
      elim r [ ok b ↦ (ok b, w') | err e ↦ (err e, record w' { db = before }) ]

module _ {A : Type 0} where
  -- `db.W.Begin()`, the body, and then `Commit`, or the rollback if anything failed
  unfoldable pub transaction : Sql A → Sql A
  unfolding settle
  transaction body w =
      let (begun, w') = statement w.faults (λ db. (tt {0}, db)) w.db in
      elim begun [ ok _ ↦ settle w'.db (body w') | err e ↦ (err e, w') ]

  -- `_, _ = …`: whatever the outcome, the program goes on.
  unfoldable pub ignore : Sql A → Sql (Unit {0})
  ignore m w = (ok tt, (m w).1)

  -- `sql.ErrNoRows` where there is no row
  abbrev pub require : Error → Option A → Sql A
  require e none w = (err e, w)
  require e (some a) w = (ok a, w)

module _ {A : Type 0} where
  checked : Option (A × Db) → Result (Unit {0}) × World → Result A × World
  checked none (r, w) = (err constraint, w)
  checked (some (a, db)) (ok u, w) = (ok a, record w { db = db })
  checked (some (a, db)) (err e, w) = (err e, w)

  -- A statement that a constraint of the schema can refuse: `none` is a refusal.
  unfoldable pub insert_checked : (Db → Option (A × Db)) → Sql A
  unfolding checked
  insert_checked f w = checked (f w.db) (statement w.faults (λ db. (tt, db)) w.db)

-- A statement that writes.
unfoldable pub exec : (Db → Db) → Sql (Unit {0})
exec f w = statement w.faults (λ db. (tt, f db)) w.db

-- `for _, x := range xs { if err := body(x); err != nil { return err } }`
module _ {A : Type 0} where
  abbrev pub for_each : (A → Sql (Unit {0})) → List A → Sql (Unit {0})
  for_each body [] = pure tt
  for_each body (x ∷ xs) = do body x; for_each body xs

-- The database and no more faults.
abbrev pub sound : Db → World
sound db = record { db = db; faults = [] }

pub Result-cases :
    {A : Type 0} (r : Result A) → ((a : A) × (r ≡ ok a)) ⊎ ((e : Error) × (r ≡ err e))
Result-cases (ok a) = inl (a, refl)
Result-cases (err e) = inr (e, refl)
