-- ===== src/Tests/Auth.antt =====
-- internal/auth/auth.go: an admin, a login and a logout.
use glimt.Base.{
  split, prepend, ◌+◌, ◌/◌, true, false, ◌&&◌, not, Option, some, [], ◌∷◌, ◌≡◌, ◌↔◌, refl, arith,
  Bytes, codes, same, is_empty, leb,
}
use glimt.Base.Int.{pos}
use glimt.Store.Tables.{Db, Admin, empty_db}
use glimt.Store.Sql.{World, ok, sound, query, insert_checked}
use glimt.Auth.{
  Auth, Crypto, ns_per_ms, ensure_admin, ensure_counted, insert_hashed, insert_admin, find_admin,
  hash_password, format_hash, verify_password, verify_parts, verify_decoded, matches, login,
  open_login, rand_token, insert_session, find_session, logout, valid,
}
use glimt.Auth.Sessions.{login-valid, logout-valid}
use glimt.Auth.Passwords.{verify_password-hash_password}
use glimt.Auth.Admins.{occurrences}
use glimt.Auth.Staffed.{IsDistinct, delete_both, delete_counted-race}

-- 32 times the first byte of the password, as its key.
unfoldable pub key_of : Bytes → Bytes
key_of [] = []
key_of (c ∷ pw) =
    c ∷ c ∷ c ∷ c ∷ c ∷ c ∷ c ∷ c ∷ c ∷ c ∷ c ∷ c ∷ c ∷ c ∷ c ∷ c ∷ c ∷ c ∷ c ∷ c ∷ c ∷ c ∷ c ∷ c
    ∷ c ∷ c ∷ c ∷ c ∷ c ∷ c ∷ c ∷ c ∷ []

abbrev pub crypto : Crypto
crypto = record {
  std_encode = λ s. s;
  std_decode = λ s. some s;
  url_encode = λ s. s;
  atoi = λ s. some (pos 120000);
  key = λ pw salt iter len. some (key_of pw);
}

abbrev salt : Option Bytes
salt = some (codes "zz")

abbrev hour : Auth
hour = record { ttl = 3600000000000; secure = true }

abbrev stored : Bytes
stored = format_hash crypto (codes "zz") (key_of (codes "pw"))

abbrev staffed : World
staffed = (ensure_admin crypto salt (codes "root") (codes "pw") (sound empty_db)).1

created : (ensure_admin crypto salt (codes "root") (codes "pw") (sound empty_db)).0 ≡ ok tt
unfolding ensure_admin ensure_counted insert_hashed insert_admin insert_checked query hash_password
    is_empty find_admin
created = refl

hashed : hash_password crypto salt (codes "pw") ≡ some stored
unfolding hash_password
hashed = refl

verify_password-hash_password_example :
    (verify_password crypto stored (codes "pw") ≡ true)
    ↔ (crypto.key (codes "pw") (codes "zz") (pos 120000) 32 ≡ some (key_of (codes "pw")))
unfolding key_of
verify_password-hash_password_example =
    verify_password-hash_password crypto (codes "zz") (codes "pw") (key_of (codes "pw")) stored
      (codes "pw") refl refl refl refl refl (ground arith) (ground arith) hashed

logged_in :
    (login crypto hour 1000000 (some (codes "tok")) (codes "root") (codes "pw") staffed).0
    ≡ ok (codes "tok")
unfolding login open_login rand_token insert_session find_session verify_password verify_parts
    verify_decoded matches split prepend ensure_admin ensure_counted insert_hashed insert_admin
    insert_checked query hash_password format_hash is_empty find_admin key_of same
logged_in = refl

a_token : is_empty (codes "tok") ≡ false
unfolding is_empty
a_token = refl

login-valid_example :
    (valid 2000000 (codes "tok") (
      sound
        (login crypto hour 1000000
          (some (codes "tok"))
          (codes "root")
          (codes "pw")
          staffed).1.db)).0
    ≡ leb (2000000 / ns_per_ms) ((1000000 + hour.ttl) / ns_per_ms)
login-valid_example =
    login-valid crypto hour 1000000 (some (codes "tok")) (codes "root") (codes "pw") staffed
      (codes "tok") 2000000 logged_in a_token

abbrev db : Db
db = record empty_db {
  admin_sessions = record { token = codes "tok"; expires_at = 9; user_id = 1 } ∷ [];
}

logout-valid_example :
    (valid 5 (codes "tok") (sound (logout (codes "tok") (sound db)).1.db)).0
    ≡ (not (same (codes "tok") (codes "tok")) && (valid 5 (codes "tok") (sound db)).0)
logout-valid_example = logout-valid 5 (codes "tok") (codes "tok") db

pub none_twice : IsDistinct empty_db
unfolding IsDistinct occurrences
none_twice id = omega arith

abbrev root : Admin
root = record { id = 1; username = codes "root"; pw_hash = []; role = codes "admin" }

abbrev second : Admin
second = record root { id = 2; username = codes "second" }

delete_counted-race_example :
    delete_both 1 2 (sound (record empty_db { admins = root ∷ second ∷ [] }))
    ≡ (ok tt, sound empty_db)
delete_counted-race_example =
    delete_counted-race root second (record empty_db { admins = root ∷ second ∷ [] }) refl
