-- ===== src/Auth.antt =====
-- internal/auth/auth.go: the admins, their passwords and their sessions.
--
-- Clocks and the ttl, which is taken not to be negative, are in nanoseconds. crypto/rand, crypto/pbkdf2, encoding/base64 and
-- strconv.Atoi, which the repository only calls, are arguments or fields of `Crypto`.
pub mod Sessions
pub mod Admins
pub mod Staffed
pub mod Passwords
use glimt.Base.{
  ℕ, zero, suc, ◌+◌, ◌/◌, Bool, true, false, ◌&&◌, ◌||◌, not, Option, none, some, List, [], ◌∷◌,
  ◌++◌, Bytes, codes, same, is_empty, ltb, leb, ◌==◌, length, split, if◌then◌else◌, keep,
}
use glimt.Base.Int.{ℤ, pos}
use glimt.Store.Tables.{Db, Admin, AdminSession, next_id}
use glimt.Store.Sql.{
  Sql, World, Result, ok, err, constraint, invalid, no_admin, required, last_admin, panicked, query,
  exec, insert_checked, ignore, require, raise, pure, ◌>>=◌, ◌>>◌,
}

abbrev pub ns_per_ms : ℕ
ns_per_ms = 1000000

abbrev pub pbkdf_iter : ℕ
pbkdf_iter = 120000

abbrev pub pbkdf_key_len : ℕ
pbkdf_key_len = 32

pub record Crypto : Type 0 where
  pub std_encode : Bytes → Bytes  -- base64.RawStdEncoding
  pub std_decode : Bytes → Option Bytes
  pub url_encode : Bytes → Bytes  -- base64.RawURLEncoding
  pub atoi : Bytes → Option ℤ
  pub key : Bytes → Bytes → ℤ → ℕ → Option Bytes  -- pbkdf2.Key with sha256: password, salt, iterations, length

pub record Auth : Type 0 where
  pub ttl : ℕ
  pub secure : Bool

pub record User : Type 0 where
  pub id : ℕ
  pub username : Bytes
  pub role : Bytes

-- `none` is a panic, as rand.Read or pbkdf2.Key that fails causes it.
unfoldable pub rand_token : Crypto → Option Bytes → Option Bytes
rand_token c none = none
rand_token c (some b) = some (c.url_encode b)

-- The text of a salt and a key.
unfoldable pub format_hash : Crypto → Bytes → Bytes → Bytes
format_hash c salt dk = codes "pbkdf2$120000$" ++ c.std_encode salt ++ codes "$" ++ c.std_encode dk

unfoldable pub hash_password : Crypto → Option Bytes → Bytes → Option Bytes
unfolding format_hash
hash_password c none pw = none
hash_password c (some salt) pw = elim (c.key pw salt (pos pbkdf_iter) pbkdf_key_len) [
  | none ↦ none
  | some dk ↦ some (format_hash c salt dk)
]

-- The last step of verifyPassword: pbkdf2.Key and subtle.ConstantTimeCompare.
unfoldable pub matches : Option Bytes → Bytes → Bool
matches none want = false
matches (some got) want = same got want

-- verifyPassword from the decoded parts
unfoldable pub verify_decoded : Crypto → Bytes → Option ℤ → Option Bytes → Option Bytes → Bool
unfolding matches
verify_decoded c pw (some iter) (some salt) (some want) =
    matches (c.key pw salt iter (length want)) want
verify_decoded c pw none salt want = false
verify_decoded c pw (some iter) none want = false
verify_decoded c pw (some iter) (some salt) none = false

-- verifyPassword from the parts between the dollar signs: there must be four.
unfoldable pub verify_parts : Crypto → Bytes → List Bytes → Bool
unfolding verify_decoded
verify_parts c pw (scheme ∷ iter ∷ salt ∷ want ∷ []) =
    same scheme (codes "pbkdf2")
    && verify_decoded c pw (c.atoi iter) (c.std_decode salt) (c.std_decode want)
verify_parts c pw [] = false
verify_parts c pw (a ∷ []) = false
verify_parts c pw (a ∷ b ∷ []) = false
verify_parts c pw (a ∷ b ∷ d ∷ []) = false
verify_parts c pw (a ∷ b ∷ d ∷ f ∷ g ∷ rest) = false

unfoldable pub verify_password : Crypto → Bytes → Bytes → Bool
unfolding verify_parts split
verify_password c stored pw = verify_parts c pw (split b'$' stored)

-- SELECT … FROM admin WHERE username = ?
unfoldable pub find_admin : Bytes → List Admin → Option Admin
find_admin name [] = none
find_admin name (a ∷ admins) = if same a.username name then some a else find_admin name admins

-- INSERT INTO admin: usernames are unique
unfoldable pub insert_admin : Bytes → Bytes → Bytes → Db → Option (Unit {0} × Db)
unfolding find_admin
insert_admin name hash role db = elim (find_admin name db.admins) [
  | some a ↦ none
  | none ↦ some (
    tt,
    record db {
      admins =
          db.admins
          ++ record {
            id = next_id (λ (a : Admin). a.id) db.admins;
            username = name;
            pw_hash = hash;
            role = role;
          }
            ∷ [];
    },
  )
]

-- UPDATE admin SET pw_hash = ? WHERE username = ?
unfoldable pub set_hash : Bytes → Bytes → List Admin → List Admin
set_hash name hash [] = []
set_hash name hash (a ∷ admins) =
    (if same a.username name then record a { pw_hash = hash } else a) ∷ set_hash name hash admins

-- hashPassword, and the INSERT that EnsureAdmin and CreateUser share
unfoldable pub insert_hashed : Crypto → Option Bytes → Bytes → Bytes → Bytes → Sql (Unit {0})
insert_hashed c salt username password role = do
  hash ← require panicked (hash_password c salt password)
  insert_checked (insert_admin username hash role)

unfoldable pub update_hash : Crypto → Option Bytes → Bytes → Bytes → Sql (Unit {0})
update_hash c salt username password = do
  hash ← require panicked (hash_password c salt password)
  exec (λ db. record db { admins = set_hash username hash db.admins })

-- What EnsureAdmin does, given the count of the admins; `salt` are the random bytes.
unfoldable pub ensure_counted : Crypto → Option Bytes → Bytes → Bytes → ℕ → Sql (Unit {0})
ensure_counted c salt username password zero =
    if is_empty username || is_empty password
    then raise no_admin
    else insert_hashed c salt username password (codes "admin")
ensure_counted c salt username password (suc n) =
    if not (is_empty username) && not (is_empty password)
    then update_hash c salt username password
    else pure tt

unfoldable pub ensure_admin : Crypto → Option Bytes → Bytes → Bytes → Sql (Unit {0})
unfolding ensure_counted
ensure_admin c salt username password = do
  n ← query (λ db. length db.admins)
  ensure_counted c salt username password n

-- SELECT expires_at FROM admin_session WHERE token = ?
unfoldable pub find_session : Bytes → List AdminSession → Option ℕ
find_session token [] = none
find_session token (s ∷ sessions) =
    if same s.token token then some s.expires_at else find_session token sessions

-- INSERT INTO admin_session: the token is the primary key
unfoldable pub insert_session : Bytes → ℕ → ℕ → Db → Option (Unit {0} × Db)
unfolding find_session
insert_session token expires uid db = elim (find_session token db.admin_sessions) [
  | some e ↦ none
  | none ↦ some (
    tt,
    record db {
      admin_sessions =
          db.admin_sessions ++ record { token = token; expires_at = expires; user_id = uid } ∷ [];
    },
  )
]

-- The session of a verified admin; `fresh` are the random bytes of the token.
unfoldable pub open_login : Crypto → Auth → ℕ → Option Bytes → ℕ → Sql Bytes
open_login c a now fresh uid = do
  token ← require panicked (rand_token c fresh)
  insert_checked (insert_session token ((now + a.ttl) / ns_per_ms) uid)
  pure token

unfoldable pub login : Crypto → Auth → ℕ → Option Bytes → Bytes → Bytes → Sql Bytes
unfolding open_login
login c a now fresh username password = do
  found ← query (λ db. find_admin username db.admins)
  admin ← require invalid found
  if verify_password c admin.pw_hash password
      then open_login c a now fresh admin.id
      else raise invalid

-- The rows are in the order of their ids: each new one has the largest.
unfoldable pub users : List Admin → List User
users [] = []
users (a ∷ admins) = record { id = a.id; username = a.username; role = a.role } ∷ users admins

unfoldable pub list_users : Sql (List User)
unfolding users
list_users = query (λ db. users db.admins)

unfoldable pub create_user : Crypto → Option Bytes → Bytes → Bytes → Bytes → Sql (Unit {0})
create_user c salt username password role =
    if is_empty username || is_empty password
    then raise required
    else insert_hashed c salt username password (if is_empty role then codes "admin" else role)

-- `_ = ….Scan(&count)` leaves the count at zero if the query fails.
unfoldable pub counted : Result ℕ → ℕ
counted (ok n) = n
counted (err e) = 0

abbrev pub delete_admin : ℕ → Db → Db
delete_admin id db = record db { admins = keep (λ (a : Admin). not (a.id == id)) db.admins }

-- What DeleteUser does after its count, which is no part of a transaction with it.
unfoldable pub delete_counted : ℕ → ℕ → Sql (Unit {0})
delete_counted id count = if leb count 1 then raise last_admin else exec (delete_admin id)

abbrev pub count_admins : Sql ℕ
count_admins = query (λ db. length db.admins)

unfoldable pub delete_user : ℕ → Sql (Unit {0})
unfolding counted delete_counted
delete_user id w = let (r, w') = count_admins w in delete_counted id (counted r) w'

abbrev pub delete_session : Bytes → Db → Db
delete_session token db = record db {
  admin_sessions = keep (λ (s : AdminSession). not (same s.token token)) db.admin_sessions;
}

unfoldable pub logout : Bytes → Sql (Unit {0})
logout token = if is_empty token then pure tt else ignore (exec (delete_session token))

-- What `valid` makes of the row that its query found, if any.
unfoldable pub judge : ℕ → Bytes → Result (Option ℕ) → World → Bool × World
judge now token (err e) w = (false, w)
judge now token (ok none) w = (false, w)
judge now token (ok (some expires)) w =
    if ltb expires (now / ns_per_ms) then (false, (exec (delete_session token) w).1) else (true, w)

unfoldable pub valid : ℕ → Bytes → World → Bool × World
unfolding judge
valid now token w =
    if is_empty token
    then (false, w)
    else let (r, w') = query (λ db. find_session token db.admin_sessions) w in judge now token r w'

-- What Require does with a request: it goes to the login page, or on to the handler.
pub data Passage : Type 0 where
  redirect_to_login proceed : Passage

-- `none` is a request without the cookie.
unfoldable pub require_session : ℕ → Option Bytes → World → Passage × World
require_session now none w = (redirect_to_login, w)
require_session now (some token) w =
    let (good, w') = valid now token w in (if good then proceed else redirect_to_login, w')

pub record Cookie : Type 0 where
  pub name : Bytes
  pub value : Bytes
  pub http_only : Bool
  pub secure : Bool
  pub expires : Option ℕ  -- none where MaxAge is -1

unfoldable pub set_cookie : Auth → ℕ → Bytes → Cookie
set_cookie a now token = record {
  name = codes "glimt_session";
  value = token;
  http_only = true;
  secure = a.secure;
  expires = some (now + a.ttl);
}

unfoldable pub clear_cookie : Auth → Cookie
clear_cookie a = record {
  name = codes "glimt_session";
  value = [];
  http_only = true;
  secure = a.secure;
  expires = none;
}
