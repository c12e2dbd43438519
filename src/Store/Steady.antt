-- ===== src/Store/Steady.antt =====
-- What a run of statements that meets no error does is what it does with no faults at all.
use glimt.Base.{Bool, true, false, List, [], ◌∷◌, ◌≡◌, refl, ap, ◌∙◌, if◌then◌else◌, arith}
use glimt.Store.Tables.{Db}
use glimt.Store.Sql.{
  Sql, World, Result, ok, err, db_error, Error, insert, query, confirm, exec, transaction, for_each,
  ◌>>=◌, pure, raise, sound, continue, settle,
}

-- Whenever `m` succeeds, it succeeds with the same value and database where there are no faults.
pub record Steady {A : Type 0} (m : Sql A) : Type 0 where
  pub at : (w : World) (a : A) → (m w).0 ≡ ok a → m (sound w.db) ≡ (ok a, sound (m w).1.db)

module _ {A : Type 0} where
  pub Steady-pure : (a : A) → Steady (pure a)
  Steady-pure a = record { at = λ w b h. ground arith }

  pub Steady-raise : (e : Error) → Steady (raise {A = A} e)
  Steady-raise e = record { at = λ w b h. cc }

  pub Steady-insert : (f : Db → A × Db) → Steady (insert f)
  unfolding insert
  Steady-insert f = record { at = λ w b h. ground arith }

  pub Steady-query : (f : Db → A) → Steady (query f)
  unfolding query
  Steady-query f = record { at = λ w b h. ground arith }

  pub Steady-confirm : (a : A) → Steady (confirm a)
  unfolding confirm
  Steady-confirm a = record { at = λ w b h. ground arith }

pub Steady-exec : (f : Db → Db) → Steady (exec f)
unfolding exec
Steady-exec f = record { at = λ w b h. ground arith }

module _ {A B : Type 0} where
  bind_from :
      (m : Sql A) (f : A → Sql B)
      → Steady m
      → ((a : A) → Steady (f a))
      → (w : World) (b : B) (r : Result A) (w' : World) → m w ≡ (r, w')
      → (continue r f w').0 ≡ ok b
      → (m >>= f) (sound w.db) ≡ (ok b, sound (continue r f w').1.db)
  bind_from m f sm sf w b (ok a) w' e h =
      let first : m (sound w.db) ≡ (ok a, sound w'.db) =
        sm.at w a (ap (λ (p : Result A × World). p.0) e)
        ∙ ap (λ (p : Result A × World). (ok a, sound p.1.db)) e in
      rw first ((sf a).at w' b h)
  bind_from m f sm sf w b (err x) w' e h = cc

  pub Steady-bind :
      (m : Sql A) (f : A → Sql B) → Steady m → ((a : A) → Steady (f a)) → Steady (m >>= f)
  Steady-bind m f sm sf = record { at = λ w b h. bind_from m f sm sf w b (m w).0 (m w).1 refl h }

module _ {A : Type 0} where
  pub Steady-if : (b : Bool) (m n : Sql A) → Steady m → Steady n → Steady (if b then m else n)
  Steady-if true m n sm sn = sm
  Steady-if false m n sm sn = sn

pub ruleset steady_rules = (
  Steady-pure, Steady-raise, Steady-insert, Steady-query, Steady-confirm, Steady-exec, Steady-bind,
  Steady-if,
)

pub Steady-for_each :
    {A : Type 0} (body : A → Sql (Unit {0}))
    → ((x : A) → Steady (body x))
    → (xs : List A) → Steady (for_each body xs)
Steady-for_each body each [] = Steady-pure tt
Steady-for_each body each (x ∷ xs) =
    Steady-bind (body x) (λ _. for_each body xs) (each x) (λ _. Steady-for_each body each xs)

-- A transaction either leaves the database as it was and returns an error, or returns a value and
-- leaves what its body does in a run with no faults.
pub data Outcome {A : Type 0} (body : Sql A) (before : Db) (r : Result A × World) : Type 0 where
  rolled_back : (e : Error) → r.0 ≡ err e → r.1.db ≡ before → Outcome body before r
  committed :
      (a : A) → r.0 ≡ ok a → body (sound before) ≡ (ok a, sound r.1.db) → Outcome body before r

module _ {A : Type 0} where
  settle_ok :
      (body : Sql A) (before db : Db) (a : A) (fs : List Bool)
      → body (sound before) ≡ (ok a, sound db)
      → Outcome body before (settle before (ok a, record { db = db; faults = fs }))
  unfolding settle
  settle_ok body before db a [] h = committed a refl h
  settle_ok body before db a (true ∷ fs) h = rolled_back db_error refl refl
  settle_ok body before db a (false ∷ fs) h = committed a refl h

  settle_any :
      (body : Sql A) (before : Db) (r : Result A) (w : World)
      → ((a : A) → r ≡ ok a → body (sound before) ≡ (ok a, sound w.db))
      → Outcome body before (settle before (r, w))
  settle_any body before (err e) w h = unfold settle in rolled_back e refl refl
  settle_any body before (ok a) w h = settle_ok body before w.db a w.faults (h a refl)

  begin_any :
      (body : Sql A) (s : Steady body) (db : Db) (fs : List Bool)
      → Outcome body db (transaction body (record { db = db; faults = fs }))
  unfolding transaction
  begin_any body s db [] =
      settle_any body db (body (sound db)).0 (body (sound db)).1 (s.at (sound db))
  begin_any body s db (true ∷ fs) = rolled_back db_error refl refl
  begin_any body s db (false ∷ fs) =
      let w : World = record { db = db; faults = fs } in
      settle_any body db (body w).0 (body w).1 (s.at w)

  pub transaction-Outcome :
      (body : Sql A) → Steady body → (w : World) → Outcome body w.db (transaction body w)
  transaction-Outcome body s w = begin_any body s w.db w.faults
