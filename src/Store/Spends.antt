-- ===== src/Store/Spends.antt =====
-- A run of statements uses up faults and makes none.
use glimt.Base.{ℕ, ◌≤◌, Bool, true, false, List, [], ◌∷◌, arith, length}
use glimt.Store.Tables.{Db}
use glimt.Store.Sql.{
  Sql, World, Result, ok, err, exec, pure, transaction, settle, for_each, continue, ◌>>=◌,
}

abbrev pub faults_left : World → ℕ
faults_left w = length w.faults

pub record Spends {A : Type 0} (m : Sql A) : Type 0 where
  pub at : (w : World) → faults_left (m w).1 ≤ faults_left w

pub Spends-pure : {A : Type 0} (a : A) → Spends (pure a)
Spends-pure a = record { at = λ w. omega arith }

exec_spends :
    (f : Db → Db) (db : Db) (fs : List Bool)
    → faults_left (exec f (record { db = db; faults = fs })).1 ≤ length fs
unfolding exec
exec_spends f db [] = omega arith
exec_spends f db (true ∷ fs) = omega arith
exec_spends f db (false ∷ fs) = omega arith

pub Spends-exec : (f : Db → Db) → Spends (exec f)
Spends-exec f = record { at = λ w. exec_spends f w.db w.faults }

module _ {A B : Type 0} where
  after-Spends :
      (f : A → Sql B)
      → ((a : A) → Spends (f a))
      → (r : Result A) (w : World) → faults_left (continue r f w).1 ≤ faults_left w
  after-Spends f k (ok a) w = (k a).at w
  after-Spends f k (err e) w = omega arith

  pub Spends-bind :
      (m : Sql A) (f : A → Sql B) → Spends m → ((a : A) → Spends (f a)) → Spends (m >>= f)
  Spends-bind m f sm sf = record {
    at = λ w. omega (arith, sm.at w, after-Spends f sf (m w).0 (m w).1);
  }

pub ruleset spends_rules = (Spends-pure, Spends-exec, Spends-bind)

pub Spends-for_each :
    {A : Type 0} (body : A → Sql (Unit {0}))
    → ((x : A) → Spends (body x))
    → (xs : List A) → Spends (for_each body xs)
Spends-for_each body each [] = Spends-pure tt
Spends-for_each body each (x ∷ xs) =
    Spends-bind (body x) (λ _. for_each body xs) (each x) (λ _. Spends-for_each body each xs)

module _ {A : Type 0} where
  commit_spends :
      (before db : Db) (a : A) (fs : List Bool)
      → faults_left (settle before (ok a, record { db = db; faults = fs })).1 ≤ length fs
  unfolding settle
  commit_spends before db a [] = omega arith
  commit_spends before db a (true ∷ fs) = omega arith
  commit_spends before db a (false ∷ fs) = omega arith

  settle_spends :
      (before : Db) (r : Result A) (w : World)
      → faults_left (settle before (r, w)).1 ≤ faults_left w
  settle_spends before (ok a) w = commit_spends before w.db a w.faults
  settle_spends before (err e) w = unfold settle in omega arith

  -- Begin takes one, if there is one.
  pub transaction-Spends :
      (body : Sql A) (db : Db) (b : Bool) (fs : List Bool)
      → Spends body
      → faults_left (transaction body (record { db = db; faults = b ∷ fs })).1 ≤ length fs
  unfolding transaction
  transaction-Spends body db true fs s = omega arith
  transaction-Spends body db false fs s =
      let w : World = record { db = db; faults = fs } in
      omega (arith, s.at w, settle_spends db (body w).0 (body w).1)
