-- ===== src/Auth/Staffed.antt =====
-- Every run of the operations of internal/auth/auth.go keeps an admin.
use glimt.Base.{
  ℕ, zero, suc, ◌≤◌, Bool, ◌||◌, Option, none, some, List, [], ◌∷◌, ◌≡◌, refl, arith, Bytes, codes,
  is_empty, ltb, ◌/◌, ◌∙◌, length, ap, ==_iff, Bool-cases, inl, inr, Option-cases,
}
use glimt.Store.Tables.{Db, Admin}
use glimt.Store.Sql.{
  Sql, World, Result, ok, err, no_admin, panicked, invalid, query, exec, require, raise, sound,
  ◌>>=◌, ◌>>◌,
}
use glimt.Store.Keeps.{
  Keeps, Keeps-pure, Keeps-raise, Keeps-require, Keeps-if, Keeps-query, Keeps-insert_checked,
  Keeps-ignore, Keeps-exec, Keeps-bind,
}
use glimt.Store.Ensures.{
  Ensures, Ensures-bind, Ensures-query, Ensures-raise, Ensures-if, Ensures-require,
  Ensures-insert_checked,
}
use glimt.Auth.Admins.{
  IsStaffed, occurrences, ensure_admin-IsStaffed, ensure_counted-IsStaffed, create_user-IsStaffed,
  delete_user-IsStaffed, distinct-insert,
}
use glimt.Auth.{
  ns_per_ms, Auth, Crypto, insert_admin, insert_hashed, update_hash, ensure_counted, ensure_admin,
  create_user, delete_counted, count_admins, delete_user, find_session, insert_session, open_login,
  login, rand_token, hash_password, delete_session, logout, valid, judge,
}

insert_session-IsStaffed :
    (token : Bytes) (expires uid : ℕ) (u : Unit {0}) (db db' : Db)
    → IsStaffed db
    → insert_session token expires uid db ≡ some (u, db')
    → IsStaffed db'
unfolding insert_session
insert_session-IsStaffed token expires uid u db db' s h =
    elim (Option-cases (find_session token db.admin_sessions)) [
      | inl e ↦
          let q : db'.admins ≡ db.admins = cc (rw (insert_session, e) at h) in
          record { distinct = λ id. rw q (s.distinct id); some_admin = rw q s.some_admin }
      | inr (x, e) ↦ cc (rw (insert_session, e) at h)
    ]

login-IsStaffed :
    (c : Crypto) (a : Auth) (now : ℕ) (fresh : Option Bytes) (username password : Bytes)
    → Keeps IsStaffed (login c a now fresh username password)
unfolding login open_login
login-IsStaffed c a now fresh username password =
    Keeps-bind IsStaffed _ _ (Keeps-query IsStaffed _) (λ found.
      Keeps-bind IsStaffed (require invalid found) _ (Keeps-require IsStaffed _ _) (λ admin.
        Keeps-if IsStaffed _ _ _
          (Keeps-bind IsStaffed (require panicked (rand_token c fresh)) _
            (Keeps-require IsStaffed _ _)
            (λ token.
              Keeps-bind IsStaffed _ _
                (Keeps-insert_checked IsStaffed _ (insert_session-IsStaffed token _ _))
                (λ _. Keeps-pure IsStaffed token)))
          (Keeps-raise IsStaffed invalid)))

delete_session-IsStaffed :
    (token : Bytes) (db : Db) → IsStaffed db → IsStaffed (delete_session token db)
delete_session-IsStaffed token db s = record { distinct = s.distinct; some_admin = s.some_admin }

logout-IsStaffed : (token : Bytes) → Keeps IsStaffed (logout token)
unfolding logout
logout-IsStaffed token =
    Keeps-if IsStaffed _ _ _ (Keeps-pure IsStaffed tt)
      (Keeps-ignore IsStaffed _ (Keeps-exec IsStaffed _ (delete_session-IsStaffed token)))

judge-IsStaffed :
    (now : ℕ) (token : Bytes) (r : Result (Option ℕ)) (w : World)
    → IsStaffed w.db
    → IsStaffed (judge now token r w).1.db
unfolding judge
judge-IsStaffed now token (err e) w s = s
judge-IsStaffed now token (ok none) w s = s
judge-IsStaffed now token (ok (some expires)) w s =
    elim (Bool-cases (ltb expires (now / ns_per_ms))) [
      | inl e ↦
          rw e
            ((Keeps-exec IsStaffed (delete_session token) (delete_session-IsStaffed token)).at w s)
      | inr e ↦ rw e s
    ]

valid-IsStaffed :
    (now : ℕ) (token : Bytes) (w : World) → IsStaffed w.db → IsStaffed (valid now token w).1.db
unfolding valid
valid-IsStaffed now token w s = elim (Bool-cases (is_empty token)) [
  | inl e ↦ rw e s
  | inr e ↦ rw e (judge-IsStaffed now token _ _ ((Keeps-query IsStaffed _).at w s))
]

-- Whoever may be asked to do what, in any order, with any outcome of each statement.
pub data Step (w : World) : World → Type 0 where
  ensures :
      (c : Crypto) (salt : Option Bytes) (username password : Bytes)
      → Step w (ensure_admin c salt username password w).1
  creates :
      (c : Crypto) (salt : Option Bytes) (username password role : Bytes)
      → Step w (create_user c salt username password role w).1
  deletes : (id : ℕ) → Step w (delete_user id w).1
  logs_in :
      (c : Crypto) (a : Auth) (now : ℕ) (fresh : Option Bytes) (username password : Bytes)
      → Step w (login c a now fresh username password w).1
  logs_out : (token : Bytes) → Step w (logout token w).1
  visits : (now : ℕ) (token : Bytes) → Step w (valid now token w).1
  -- what fails from now on
  faulty : (faults : List Bool) → Step w (record { db = w.db; faults = faults })

pub data Reach (w : World) : World → Type 0 where
  here : Reach w w
  next : {v u : World} → Reach w v → Step v u → Reach w u

Step-IsStaffed : {w v : World} → Step w v → IsStaffed w.db → IsStaffed v.db
Step-IsStaffed (ensures c salt username password) s =
    (ensure_admin-IsStaffed c salt username password).at _ s
Step-IsStaffed (creates c salt username password role) s =
    (create_user-IsStaffed c salt username password role).at _ s
Step-IsStaffed (deletes id) s = (delete_user-IsStaffed id).at _ s
Step-IsStaffed (logs_in c a now fresh username password) s =
    (login-IsStaffed c a now fresh username password).at _ s
Step-IsStaffed (logs_out token) s = (logout-IsStaffed token).at _ s
Step-IsStaffed (visits now token) s = valid-IsStaffed now token _ s
Step-IsStaffed (faulty faults) s = s

Reach-keeps : {w v : World} → Reach w v → IsStaffed w.db → IsStaffed v.db
Reach-keeps here s = s
Reach-keeps (next r t) s = Step-IsStaffed t (Reach-keeps r s)

-- No two admins have one id.
unfoldable pub IsDistinct : Db → Type 0
IsDistinct db = (id : ℕ) → occurrences id db.admins ≤ 1

insert_hashed-first :
    (c : Crypto) (salt : Option Bytes) (username password role : Bytes)
    → Ensures IsDistinct (insert_hashed c salt username password role) (λ _. IsStaffed)
unfolding insert_hashed IsDistinct
insert_hashed-first c salt username password role =
    Ensures-bind IsDistinct (λ _. IsDistinct) (λ _. IsStaffed)
      (require panicked (hash_password c salt password)) _
      (Ensures-require IsDistinct (λ _. IsDistinct) panicked _ (λ _ db _ h. h))
      (λ hash.
        Ensures-insert_checked IsDistinct (λ _. IsStaffed) (insert_admin username hash role)
          (λ u db db' d h. distinct-insert username hash role db db' u d h))

Counted : ℕ → Db → Type 0
Counted n db = IsDistinct db × (length db.admins ≡ n)

Counted-IsStaffed : (n : ℕ) (db : Db) → Counted (suc n) db → IsStaffed db
unfolding Counted IsDistinct
Counted-IsStaffed n db h = record { distinct = h.0; some_admin = omega (arith, h.1) }

ensure_counted-first :
    (c : Crypto) (salt : Option Bytes) (username password : Bytes) (n : ℕ)
    → Ensures (Counted n) (ensure_counted c salt username password n) (λ _. IsStaffed)
unfolding ensure_counted update_hash Counted
ensure_counted-first c salt username password zero =
    Ensures-if (Counted 0) (λ _. IsStaffed) (is_empty username || is_empty password)
      (raise no_admin) _ (Ensures-raise (Counted 0) (λ _. IsStaffed) no_admin)
      (record {
        at = λ w a p h. (insert_hashed-first c salt username password (codes "admin")).at w a p.0 h;
      })
ensure_counted-first c salt username password (suc n) = record {
  at = λ w a p h.
      (ensure_counted-IsStaffed c salt username password (suc n)).at w (Counted-IsStaffed n w.db p);
}

pub ensure_admin-first :
    (c : Crypto) (salt : Option Bytes) (username password : Bytes)
    → Ensures IsDistinct (ensure_admin c salt username password) (λ _. IsStaffed)
unfolding ensure_admin Counted
ensure_admin-first c salt username password =
    Ensures-bind IsDistinct Counted (λ _. IsStaffed) _ (ensure_counted c salt username password)
      (Ensures-query IsDistinct Counted (λ db. length db.admins) (λ db d. (d, refl)))
      (ensure_counted-first c salt username password)

-- Once EnsureAdmin, on a table in which no two admins have one id, has returned no error, there is an
-- admin, and there is one after whatever sequence of calls of EnsureAdmin, CreateUser, DeleteUser,
-- Login, Logout and `valid`, each run from start to end, with any of their statements failing.
ensure_admin-Reach :
    (c : Crypto) (salt : Option Bytes) (username password : Bytes) (w v : World)
    → IsDistinct w.db
    → (ensure_admin c salt username password w).0 ≡ ok tt
    → Reach (ensure_admin c salt username password w).1 v
    → 1 ≤ length v.db.admins
ensure_admin-Reach c salt username password w v d h r =
    (Reach-keeps r ((ensure_admin-first c salt username password).at w tt d h)).some_admin

-- Two calls of DeleteUser at once: both count before either deletes.
pub delete_both : ℕ → ℕ → Sql (Unit {0})
delete_both first second = do
  one ← count_admins
  two ← count_admins
  delete_counted first one
  delete_counted second two

delete_both-two :
    (first second : Admin) (db : Db)
    → delete_both first.id second.id (sound (record db { admins = first ∷ second ∷ [] }))
      ≡ (ok tt, sound (record db { admins = [] }))
unfolding delete_both delete_counted query exec
delete_both-two first second db =
    ground (arith, ==_iff first.id first.id, ==_iff second.id second.id)

-- DeleteUser's count and its DELETE are two statements: where there are two admins, two calls that
-- both count before either deletes succeed, and leave none.
pub delete_counted-race :
    (first second : Admin) (db : Db)
    → db.admins ≡ first ∷ second ∷ []
    → delete_both first.id second.id (sound db) ≡ (ok tt, sound (record db { admins = [] }))
delete_counted-race first second db h =
    ap (λ admins. delete_both first.id second.id (sound (record db { admins = admins }))) h
    ∙ delete_both-two first second db
