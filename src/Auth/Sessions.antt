-- ===== src/Auth/Sessions.antt =====
-- The life of a session in internal/auth/auth.go: from login to logout or expiry.
use glimt.Base.{
  ℕ, ◌+◌, ◌/◌, ◌≤◌, Bool, true, false, ◌&&◌, not, Option, none, some, List, [], ◌∷◌, ◌++◌, ◌≡◌,
  refl, ◌∙◌, arith, Bytes, same, same_iff, is_empty, ltb, leb, if◌then◌else◌, keep, Bool-cases,
  Option-cases, inl, inr,
}
use glimt.Store.Tables.{Db, AdminSession}
use glimt.Store.Sql.{World, ok, invalid, panicked, query, exec, require, raise, pure, ignore, sound}
use glimt.Store.Ensures.{
  Ensures, Ensures-if, Ensures-raise, Ensures-bind, Ensures-pure, Ensures-query, Ensures-require,
  Ensures-insert_checked,
}
use glimt.Auth.{
  Auth, Crypto, ns_per_ms, find_admin, find_session, insert_session, open_login, login,
  verify_password, rand_token, delete_session, logout, valid, judge,
}

find_session-append :
    (s : AdminSession) (sessions : List AdminSession)
    → find_session s.token sessions ≡ none
    → find_session s.token (sessions ++ s ∷ []) ≡ some s.expires_at
unfolding find_session
find_session-append s [] h = ground (arith, same_iff s.token s.token)
find_session-append s (x ∷ sessions) h = elim (Bool-cases (same x.token s.token)) [
  | inl e ↦ cc (rw e at h)
  | inr e ↦ rw e (find_session-append s sessions (cc (rw e at h)))
]

find_session-insert :
    (token : Bytes) (expires uid : ℕ) (db db' : Db) (u : Unit {0})
    → insert_session token expires uid db ≡ some (u, db')
    → find_session token db'.admin_sessions ≡ some expires
unfolding insert_session
find_session-insert token expires uid db db' u h =
    elim (Option-cases (find_session token db.admin_sessions)) [
      | inl e ↦
          let q : db'.admin_sessions
              ≡ db.admin_sessions
                ++ record { token = token; expires_at = expires; user_id = uid } ∷ [] =
            cc (rw (insert_session, e) at h) in
          rw q (
            find_session-append (record { token = token; expires_at = expires; user_id = uid })
              db.admin_sessions e)
      | inr (x, e) ↦ cc (rw (insert_session, e) at h)
    ]

find_session-delete :
    (t token : Bytes) (sessions : List AdminSession)
    → find_session t (keep (λ (s : AdminSession). not (same s.token token)) sessions)
      ≡ (if same t token then none else find_session t sessions)
unfolding find_session
find_session-delete t token [] = ground arith
find_session-delete t token (s ∷ sessions) = ground (
  arith,
  find_session-delete t token sessions,
  same_iff s.token token,
  same_iff s.token t,
  same_iff t token,
)

-- The row that the query found is not too old.
abbrev current : ℕ → Option ℕ → Bool
current now none = false
current now (some expires) = leb (now / ns_per_ms) expires

judge-current :
    (now : ℕ) (token : Bytes) (o : Option ℕ) (db : Db)
    → (judge now token (ok o) (sound db)).0 ≡ current now o
unfolding judge
judge-current now token none db = refl
judge-current now token (some expires) db = ground arith

valid-current :
    (now : ℕ) (token : Bytes) (db : Db)
    → (valid now token (sound db)).0
      ≡ (not (is_empty token) && current now (find_session token db.admin_sessions))
unfolding valid query
valid-current now token db =
    ground (arith, judge-current now token (find_session token db.admin_sessions) db)

IsStored : Auth → ℕ → Bytes → Db → Type 0
IsStored a now token db = find_session token db.admin_sessions ≡ some ((now + a.ttl) / ns_per_ms)

open_login-IsStored :
    (c : Crypto) (a : Auth) (now : ℕ) (fresh : Option Bytes) (uid : ℕ)
    → Ensures (λ _. Unit {0}) (open_login c a now fresh uid) (IsStored a now)
unfolding open_login IsStored
open_login-IsStored c a now fresh uid =
    Ensures-bind (λ _. Unit {0}) (λ _ _. Unit {0}) (IsStored a now)
      (require panicked (rand_token c fresh)) _
      (Ensures-require (λ _. Unit {0}) (λ _ _. Unit {0}) panicked _ (λ _ _ _ _. tt))
      (λ token.
        Ensures-bind (λ _. Unit {0}) (λ _. IsStored a now token) (IsStored a now) _
          (λ _. pure token)
          (Ensures-insert_checked (λ _. Unit {0}) (λ _. IsStored a now token) _
            (λ u db db' _ h. find_session-insert token _ uid db db' u h))
          (λ _. Ensures-pure (IsStored a now token) (IsStored a now) token (λ db h. h)))

login-IsStored :
    (c : Crypto) (a : Auth) (now : ℕ) (fresh : Option Bytes) (username password : Bytes)
    → Ensures (λ _. Unit {0}) (login c a now fresh username password) (IsStored a now)
unfolding login
login-IsStored c a now fresh username password =
    Ensures-bind (λ _. Unit {0}) (λ _ _. Unit {0}) (IsStored a now) _ _
      (Ensures-query (λ _. Unit {0}) (λ _ _. Unit {0}) (λ db. find_admin username db.admins)
        (λ _ _. tt))
      (λ found.
        Ensures-bind (λ _. Unit {0}) (λ _ _. Unit {0}) (IsStored a now) (require invalid found) _
          (Ensures-require (λ _. Unit {0}) (λ _ _. Unit {0}) invalid found (λ _ _ _ _. tt))
          (λ admin.
            Ensures-if (λ _. Unit {0}) (IsStored a now) (verify_password c admin.pw_hash password)
              (open_login c a now fresh admin.id) (raise invalid)
              (open_login-IsStored c a now fresh admin.id)
              (Ensures-raise (λ _. Unit {0}) (IsStored a now) invalid)))

-- After a login that returned a token, which is not empty, `valid`, where its statements do not fail,
-- accepts the token up to the millisecond in which the login's time plus the ttl falls, and not later.
pub login-valid :
    (c : Crypto) (a : Auth) (now : ℕ) (fresh : Option Bytes) (username password : Bytes) (w : World)
    (token : Bytes) (later : ℕ)
    → (login c a now fresh username password w).0 ≡ ok token
    → is_empty token ≡ false
    → (valid later token (sound (login c a now fresh username password w).1.db)).0
      ≡ leb (later / ns_per_ms) ((now + a.ttl) / ns_per_ms)
unfolding IsStored
login-valid c a now fresh username password w token later h n =
    let s = (login-IsStored c a now fresh username password).at w token tt h in
    valid-current later token _ ∙ rw (s, n) refl

logout-db :
    (token : Bytes) (db : Db)
    → (logout token (sound db)).1.db ≡ (if is_empty token then db else delete_session token db)
unfolding logout ignore exec
logout-db token db = ground arith

-- Where no statement fails, logging out ends the session of its token at any time of asking, and no
-- other: `valid` answers for every other token as it did before.
pub logout-valid :
    (now : ℕ) (t token : Bytes) (db : Db)
    → (valid now t (sound (logout token (sound db)).1.db)).0
      ≡ (not (same t token) && (valid now t (sound db)).0)
logout-valid now t token db = ground (
  arith,
  logout-db token db,
  valid-current now t (sound db).db,
  valid-current now t (logout token (sound db)).1.db,
  find_session-delete t token db.admin_sessions,
  same_iff t token,
)

abbrev expired : ℕ → Option ℕ → Bool
expired now none = false
expired now (some expires) = ltb expires (now / ns_per_ms)

judge-db :
    (now : ℕ) (token : Bytes) (o : Option ℕ) (db : Db)
    → (judge now token (ok o) (sound db)).1.db
      ≡ (if expired now o then delete_session token db else db)
unfolding judge exec
judge-db now token none db = refl
judge-db now token (some expires) db = ground arith

valid-db :
    (now : ℕ) (token : Bytes) (db : Db)
    → (valid now token (sound db)).1.db ≡ (
        if not (is_empty token) && expired now (find_session token db.admin_sessions)
        then delete_session token db
        else db)
unfolding valid query
valid-db now token db = ground (arith, judge-db now token (find_session token db.admin_sessions) db)

expired-current :
    (now later : ℕ) (o : Option ℕ) → now ≤ later → expired now o ≡ true → current later o ≡ false
expired-current now later none h e = refl
expired-current now later (some expires) h e = ground arith

-- Where no statement fails, looking at a session, which drops it where it has expired, changes no
-- later answer: for every token and every time not before, `valid` answers as if not asked before.
pub valid-valid :
    (now later : ℕ) (t token : Bytes) (db : Db)
    → now ≤ later
    → (valid later t (sound (valid now token (sound db)).1.db)).0 ≡ (valid later t (sound db)).0
valid-valid now later t token db h = elim (Bool-cases (same t token)) [
  | inl e ↦
      let q : t ≡ token = (same_iff t token).0 e in
      ground (
        arith,
        valid-db now token db,
        valid-current later t db,
        valid-current later t (valid now token (sound db)).1.db,
        find_session-delete t token db.admin_sessions,
        expired-current now later (find_session token db.admin_sessions) h,
      )
  | inr e ↦ ground (
    arith,
    valid-db now token db,
    valid-current later t db,
    valid-current later t (valid now token (sound db)).1.db,
    find_session-delete t token db.admin_sessions,
  )
]
