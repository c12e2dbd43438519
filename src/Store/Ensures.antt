-- ===== src/Store/Ensures.antt =====
-- Pre- and postconditions of runs of statements: what holds of the tables if the run succeeds.
use glimt.Base.{
  Bool, true, false, Option, none, some, List, [], ◌∷◌, ◌≡◌, refl, subst, ap, if◌then◌else◌,
}
use glimt.Store.Tables.{Db}
use glimt.Store.Sql.{
  Sql, World, Result, ok, err, Error, query, exec, insert_checked, ignore, insert, require, pure,
  raise, ◌>>=◌, continue,
}

-- From tables with `P`, if `m` succeeds with a value, that value and the new tables have `Q`.
pub record Ensures {A : Type 0} (P : Db → Type 0) (m : Sql A) (Q : A → Db → Type 0) : Type 0 where
  pub at : (w : World) (a : A) → P w.db → (m w).0 ≡ ok a → Q a (m w).1.db

module _ {A B : Type 0} where
  after_continue :
      (Q : A → Db → Type 0) (R : B → Db → Type 0) (f : A → Sql B)
      → ((a : A) → Ensures (Q a) (f a) R)
      → (r : Result A) (w : World) → ((a : A) → r ≡ ok a → Q a w.db)
      → (b : B) → (continue r f w).0 ≡ ok b
      → R b (continue r f w).1.db
  after_continue Q R f ef (ok a) w q b h = (ef a).at w b (q a refl) h
  after_continue Q R f ef (err e) w q b h = cc

  pub Ensures-bind :
      (P : Db → Type 0) (Q : A → Db → Type 0) (R : B → Db → Type 0) (m : Sql A) (f : A → Sql B)
      → Ensures P m Q
      → ((a : A) → Ensures (Q a) (f a) R)
      → Ensures P (m >>= f) R
  Ensures-bind P Q R m f em ef = record {
    at = λ w b p h. after_continue Q R f ef (m w).0 (m w).1 (λ a e. em.at w a p e) b h;
  }

module _ {A : Type 0} where
  pub Ensures-pure :
      (P : Db → Type 0) (Q : A → Db → Type 0) (a : A)
      → ((db : Db) → P db → Q a db)
      → Ensures P (pure a) Q
  Ensures-pure P Q a k = record {
    at = λ w b p h. let e : a ≡ b = cc in subst (λ c. Q c w.db) e (k w.db p);
  }

  pub Ensures-raise : (P : Db → Type 0) (Q : A → Db → Type 0) (e : Error) → Ensures P (raise e) Q
  Ensures-raise P Q e = record { at = λ w a p h. cc }

  pub Ensures-if :
      (P : Db → Type 0) (Q : A → Db → Type 0) (b : Bool) (m n : Sql A)
      → Ensures P m Q
      → Ensures P n Q
      → Ensures P (if b then m else n) Q
  Ensures-if P Q true m n em en = em
  Ensures-if P Q false m n em en = en

  query_faults :
      (P : Db → Type 0) (Q : A → Db → Type 0) (f : Db → A)
      → ((db : Db) → P db → Q (f db) db)
      → (db : Db) (fs : List Bool) (a : A) → P db
      → (query f (record { db = db; faults = fs })).0 ≡ ok a
      → Q a (query f (record { db = db; faults = fs })).1.db
  unfolding query
  query_faults P Q f k db [] a p h = let e : f db ≡ a = cc in subst (λ c. Q c db) e (k db p)
  query_faults P Q f k db (true ∷ fs) a p h = cc
  query_faults P Q f k db (false ∷ fs) a p h =
      let e : f db ≡ a = cc in subst (λ c. Q c db) e (k db p)

  pub Ensures-query :
      (P : Db → Type 0) (Q : A → Db → Type 0) (f : Db → A)
      → ((db : Db) → P db → Q (f db) db)
      → Ensures P (query f) Q
  Ensures-query P Q f k = record { at = λ w a p h. query_faults P Q f k w.db w.faults a p h }

  insert_faults :
      (P : Db → Type 0) (Q : A → Db → Type 0) (f : Db → A × Db)
      → ((db : Db) → P db → Q (f db).0 (f db).1)
      → (db : Db) (fs : List Bool) (a : A) → P db
      → (insert f (record { db = db; faults = fs })).0 ≡ ok a
      → Q a (insert f (record { db = db; faults = fs })).1.db
  unfolding insert
  insert_faults P Q f k db [] a p h =
      let e : (f db).0 ≡ a = cc in subst (λ c. Q c (f db).1) e (k db p)
  insert_faults P Q f k db (true ∷ fs) a p h = cc
  insert_faults P Q f k db (false ∷ fs) a p h =
      let e : (f db).0 ≡ a = cc in subst (λ c. Q c (f db).1) e (k db p)

  pub Ensures-insert :
      (P : Db → Type 0) (Q : A → Db → Type 0) (f : Db → A × Db)
      → ((db : Db) → P db → Q (f db).0 (f db).1)
      → Ensures P (insert f) Q
  Ensures-insert P Q f k = record { at = λ w a p h. insert_faults P Q f k w.db w.faults a p h }

  pub Ensures-require :
      (P : Db → Type 0) (Q : A → Db → Type 0) (e : Error) (o : Option A)
      → ((a : A) (db : Db) → o ≡ some a → P db → Q a db)
      → Ensures P (require e o) Q
  Ensures-require P Q e none k = record { at = λ w a p h. cc }
  Ensures-require P Q e (some b) k = record {
    at = λ w a p h. k a w.db (let q : b ≡ a = cc in ap some q) p;
  }

exec_faults :
    (P Q : Db → Type 0) (f : Db → Db)
    → ((db : Db) → P db → Q (f db))
    → (db : Db) (fs : List Bool) → P db
    → (exec f (record { db = db; faults = fs })).0 ≡ ok tt
    → Q (exec f (record { db = db; faults = fs })).1.db
unfolding exec
exec_faults P Q f k db [] p h = k db p
exec_faults P Q f k db (true ∷ fs) p h = cc
exec_faults P Q f k db (false ∷ fs) p h = k db p

pub Ensures-exec :
    (P Q : Db → Type 0) (f : Db → Db) → ((db : Db) → P db → Q (f db)) → Ensures P (exec f) (λ _. Q)
Ensures-exec P Q f k = record { at = λ w a p h. exec_faults P Q f k w.db w.faults p h }

ignore_faults :
    (P Q : Db → Type 0) (f : Db → Db)
    → ((db : Db) → P db → Q db × Q (f db))
    → (db : Db) (fs : List Bool) → P db
    → Q (ignore (exec f) (record { db = db; faults = fs })).1.db
unfolding exec ignore
ignore_faults P Q f k db [] p = (k db p).1
ignore_faults P Q f k db (true ∷ fs) p = (k db p).0
ignore_faults P Q f k db (false ∷ fs) p = (k db p).1

-- A statement whose error is ignored may do its work or not.
pub Ensures-ignore :
    (P Q : Db → Type 0) (f : Db → Db)
    → ((db : Db) → P db → Q db × Q (f db))
    → Ensures P (ignore (exec f)) (λ _. Q)
Ensures-ignore P Q f k = record { at = λ w a p h. ignore_faults P Q f k w.db w.faults p }

module _ {A : Type 0} where
  checked_faults :
      (P : Db → Type 0) (Q : A → Db → Type 0) (f : Db → Option (A × Db))
      → ((a : A) (db db' : Db) → P db → f db ≡ some (a, db') → Q a db')
      → (db : Db) (fs : List Bool) (o : Option (A × Db)) (a : A) → f db ≡ o
      → P db
      → (insert_checked f (record { db = db; faults = fs })).0 ≡ ok a
      → Q a (insert_checked f (record { db = db; faults = fs })).1.db
  unfolding insert_checked
  checked_faults P Q f k db fs none a e p h = cc (rw e at h)
  checked_faults P Q f k db [] (some (b, db')) a e p h =
      let q : b ≡ a = cc (rw e at h) in rw (e, ← q) (k b db db' p e)
  checked_faults P Q f k db (true ∷ fs) (some (b, db')) a e p h = cc (rw e at h)
  checked_faults P Q f k db (false ∷ fs) (some (b, db')) a e p h =
      let q : b ≡ a = cc (rw e at h) in rw (e, ← q) (k b db db' p e)

  -- A statement that a constraint can refuse.
  pub Ensures-insert_checked :
      (P : Db → Type 0) (Q : A → Db → Type 0) (f : Db → Option (A × Db))
      → ((a : A) (db db' : Db) → P db → f db ≡ some (a, db') → Q a db')
      → Ensures P (insert_checked f) Q
  Ensures-insert_checked P Q f k = record {
    at = λ w a p h. checked_faults P Q f k w.db w.faults (f w.db) a refl p h;
  }
