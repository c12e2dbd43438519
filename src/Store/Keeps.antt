-- ===== src/Store/Keeps.antt =====
-- What every run of statements keeps of the tables, whether it succeeds or fails.
use glimt.Base.{Bool, true, false, Option, none, some, List, [], ◌∷◌, ◌≡◌, refl, if◌then◌else◌}
use glimt.Store.Tables.{Db}
use glimt.Store.Sql.{
  Sql, World, Result, ok, err, Error, query, exec, insert_checked, ignore, require, pure, raise,
  insert, confirm, transaction, settle, sound, for_each, ◌>>=◌, continue,
}

-- Tables with `P` have it after `m`, whatever its outcome.
pub record Keeps {A : Type 0} (P : Db → Type 0) (m : Sql A) : Type 0 where
  pub at : (w : World) → P w.db → P (m w).1.db

module _ (P : Db → Type 0) where
  module _ {A : Type 0} where
    pub Keeps-pure : (a : A) → Keeps P (pure a)
    Keeps-pure a = record { at = λ w h. h }

    pub Keeps-raise : (e : Error) → Keeps P (raise {A = A} e)
    Keeps-raise e = record { at = λ w h. h }

    pub Keeps-require : (e : Error) (o : Option A) → Keeps P (require e o)
    Keeps-require e none = record { at = λ w h. h }
    Keeps-require e (some a) = record { at = λ w h. h }

    pub Keeps-if : (b : Bool) (m n : Sql A) → Keeps P m → Keeps P n → Keeps P (if b then m else n)
    Keeps-if true m n km kn = km
    Keeps-if false m n km kn = kn

    query_keeps :
        (f : Db → A) (db : Db) (fs : List Bool)
        → P db
        → P (query f (record { db = db; faults = fs })).1.db
    unfolding query
    query_keeps f db [] h = h
    query_keeps f db (true ∷ fs) h = h
    query_keeps f db (false ∷ fs) h = h

    pub Keeps-query : (f : Db → A) → Keeps P (query f)
    Keeps-query f = record { at = λ w h. query_keeps f w.db w.faults h }

    insert_keeps :
        (f : Db → A × Db)
        → ((db : Db) → P db → P (f db).1)
        → (db : Db) (fs : List Bool) → P db
        → P (insert f (record { db = db; faults = fs })).1.db
    unfolding insert
    insert_keeps f k db [] h = k db h
    insert_keeps f k db (true ∷ fs) h = h
    insert_keeps f k db (false ∷ fs) h = k db h

    pub Keeps-insert : (f : Db → A × Db) → ((db : Db) → P db → P (f db).1) → Keeps P (insert f)
    Keeps-insert f k = record { at = λ w h. insert_keeps f k w.db w.faults h }

    confirm_keeps :
        (a : A) (db : Db) (fs : List Bool)
        → P db
        → P (confirm a (record { db = db; faults = fs })).1.db
    unfolding confirm
    confirm_keeps a db [] h = h
    confirm_keeps a db (true ∷ fs) h = h
    confirm_keeps a db (false ∷ fs) h = h

    pub Keeps-confirm : (a : A) → Keeps P (confirm a)
    Keeps-confirm a = record { at = λ w h. confirm_keeps a w.db w.faults h }

    committed_keeps :
        (before db : Db) (a : A) (fs : List Bool)
        → P before
        → P db
        → P (settle before (ok a, record { db = db; faults = fs })).1.db
    unfolding settle
    committed_keeps before db a [] b h = h
    committed_keeps before db a (true ∷ fs) b h = b
    committed_keeps before db a (false ∷ fs) b h = h

    settled_keeps :
        (before : Db) (r : Result A) (w : World) → P before → P w.db → P (settle before (r, w)).1.db
    settled_keeps before (ok a) w b h = committed_keeps before w.db a w.faults b h
    settled_keeps before (err e) w b h = unfold settle in b

    transaction_keeps :
        (body : Sql A)
        → Keeps P body
        → (db : Db) (fs : List Bool) → P db
        → P (transaction body (record { db = db; faults = fs })).1.db
    unfolding transaction
    transaction_keeps body k db [] h =
        settled_keeps db (body (sound db)).0 (body (sound db)).1 h (k.at (sound db) h)
    transaction_keeps body k db (true ∷ fs) h = h
    transaction_keeps body k db (false ∷ fs) h =
        let w : World = record { db = db; faults = fs } in
        settled_keeps db (body w).0 (body w).1 h (k.at w h)

    pub Keeps-transaction : (body : Sql A) → Keeps P body → Keeps P (transaction body)
    Keeps-transaction body k = record { at = λ w h. transaction_keeps body k w.db w.faults h }

    checked_keeps :
        (f : Db → Option (A × Db))
        → ((a : A) (db db' : Db) → P db → f db ≡ some (a, db') → P db')
        → (db : Db) (fs : List Bool) (o : Option (A × Db)) → f db ≡ o
        → P db
        → P (insert_checked f (record { db = db; faults = fs })).1.db
    unfolding insert_checked
    checked_keeps f k db [] none e h = rw e h
    checked_keeps f k db (true ∷ fs) none e h = rw e h
    checked_keeps f k db (false ∷ fs) none e h = rw e h
    checked_keeps f k db [] (some (a, db')) e h = rw e (k a db db' h e)
    checked_keeps f k db (true ∷ fs) (some (a, db')) e h = rw e h
    checked_keeps f k db (false ∷ fs) (some (a, db')) e h = rw e (k a db db' h e)

    pub Keeps-insert_checked :
        (f : Db → Option (A × Db))
        → ((a : A) (db db' : Db) → P db → f db ≡ some (a, db') → P db')
        → Keeps P (insert_checked f)
    Keeps-insert_checked f k = record {
      at = λ w h. checked_keeps f k w.db w.faults (f w.db) refl h;
    }

    pub Keeps-ignore : (m : Sql A) → Keeps P m → Keeps P (ignore m)
    unfolding ignore
    Keeps-ignore m k = record { at = λ w h. k.at w h }

  exec_keeps :
      (f : Db → Db)
      → ((db : Db) → P db → P (f db))
      → (db : Db) (fs : List Bool) → P db
      → P (exec f (record { db = db; faults = fs })).1.db
  unfolding exec
  exec_keeps f k db [] h = k db h
  exec_keeps f k db (true ∷ fs) h = h
  exec_keeps f k db (false ∷ fs) h = k db h

  pub Keeps-exec : (f : Db → Db) → ((db : Db) → P db → P (f db)) → Keeps P (exec f)
  Keeps-exec f k = record { at = λ w h. exec_keeps f k w.db w.faults h }

  module _ {A B : Type 0} where
    after_keeps :
        (f : A → Sql B)
        → ((a : A) → Keeps P (f a))
        → (r : Result A) (w : World) → P w.db
        → P (continue r f w).1.db
    after_keeps f k (ok a) w h = (k a).at w h
    after_keeps f k (err e) w h = h

    pub Keeps-bind :
        (m : Sql A) (f : A → Sql B) → Keeps P m → ((a : A) → Keeps P (f a)) → Keeps P (m >>= f)
    Keeps-bind m f km kf = record { at = λ w h. after_keeps f kf (m w).0 (m w).1 (km.at w h) }

  pub Keeps-for_each :
      {A : Type 0} (body : A → Sql (Unit {0}))
      → ((x : A) → Keeps P (body x))
      → (xs : List A) → Keeps P (for_each body xs)
  Keeps-for_each body each [] = Keeps-pure tt
  Keeps-for_each body each (x ∷ xs) =
      Keeps-bind (body x) (λ _. for_each body xs) (each x) (λ _. Keeps-for_each body each xs)
