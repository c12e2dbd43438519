-- ===== src/Auth/Admins.antt =====
-- The accounts of internal/auth/auth.go: once there is an admin, there is one for ever.
use glimt.Base.{
  ℕ, zero, suc, ◌+◌, ◌≤◌, ◌<◌, Bool, true, false, not, Option, some, List, [], ◌∷◌, ◌++◌, ◌≡◌, refl,
  arith, Bytes, leb, ◌==◌, length, length-append, if◌then◌else◌, keep, Bool-cases, inl, inr,
  Option-cases,
}
use glimt.Store.Tables.{Db, Admin, max_id, next_id}
use glimt.Store.Sql.{no_admin, required, panicked, query, exec, require}
use glimt.Store.Keeps.{
  Keeps, Keeps-pure, Keeps-raise, Keeps-require, Keeps-if, Keeps-query, Keeps-insert_checked,
  Keeps-exec, Keeps-bind,
}
use glimt.Auth.{
  Crypto, find_admin, insert_admin, set_hash, insert_hashed, update_hash, ensure_counted,
  ensure_admin, create_user, counted, delete_counted, delete_user, hash_password,
}

unfoldable pub occurrences : ℕ → List Admin → ℕ
occurrences id [] = 0
occurrences id (a ∷ admins) = (if a.id == id then 1 else 0) + occurrences id admins

-- No id stands twice, and there are admins.
pub record IsStaffed (db : Db) : Type 0 where
  pub distinct : (id : ℕ) → occurrences id db.admins ≤ 1
  pub some_admin : 1 ≤ length db.admins

occurrences-append :
    (id : ℕ) (xs ys : List Admin)
    → occurrences id (xs ++ ys) ≡ occurrences id xs + occurrences id ys
unfolding occurrences
occurrences-append id [] ys = omega arith
occurrences-append id (a ∷ xs) ys = omega (arith, occurrences-append id xs ys)

occurrences-beyond :
    (id : ℕ) (xs : List Admin) → max_id (λ (a : Admin). a.id) xs < id → occurrences id xs ≡ 0
unfolding occurrences max_id
occurrences-beyond id [] h = refl
occurrences-beyond id (a ∷ xs) h = ground (arith, occurrences-beyond id xs (omega arith))

occurrences-set_hash :
    (id : ℕ) (name hash : Bytes) (xs : List Admin)
    → (occurrences id (set_hash name hash xs) ≡ occurrences id xs)
      × (length (set_hash name hash xs) ≡ length xs)
unfolding occurrences set_hash
occurrences-set_hash id name hash [] = (refl, refl)
occurrences-set_hash id name hash (a ∷ xs) = ground (arith, occurrences-set_hash id name hash xs)

length-delete :
    (id : ℕ) (xs : List Admin)
    → length (keep (λ (a : Admin). not (a.id == id)) xs) + occurrences id xs ≡ length xs
unfolding occurrences
length-delete id [] = refl
length-delete id (a ∷ xs) = ground (arith, length-delete id xs)

occurrences-delete :
    (i id : ℕ) (xs : List Admin)
    → occurrences i (keep (λ (a : Admin). not (a.id == id)) xs) ≤ occurrences i xs
unfolding occurrences
occurrences-delete i id [] = omega arith
occurrences-delete i id (a ∷ xs) = ground (arith, occurrences-delete i id xs)

-- What the database holds of the admins after an INSERT that was not refused.
insert_admin-lem :
    (name hash role : Bytes) (db db' : Db) (u : Unit {0})
    → insert_admin name hash role db ≡ some (u, db')
    → db'.admins
      ≡ db.admins
        ++ record {
          id = next_id (λ (a : Admin). a.id) db.admins;
          username = name;
          pw_hash = hash;
          role = role;
        }
          ∷ []
unfolding insert_admin
insert_admin-lem name hash role db db' u h = elim (Option-cases (find_admin name db.admins)) [
  | inl e ↦ cc (rw (insert_admin, e) at h)
  | inr (x, e) ↦ cc (rw (insert_admin, e) at h)
]

pub distinct-insert :
    (name hash role : Bytes) (db db' : Db) (u : Unit {0})
    → ((id : ℕ) → occurrences id db.admins ≤ 1)
    → insert_admin name hash role db ≡ some (u, db')
    → IsStaffed db'
unfolding next_id occurrences
distinct-insert name hash role db db' u d h =
    let q = insert_admin-lem name hash role db db' u h in
    record {
      distinct = λ id. rw q (
          ground (
            arith,
            d id,
            occurrences-append id db.admins (
                record {
                  id = next_id (λ (a : Admin). a.id) db.admins;
                  username = name;
                  pw_hash = hash;
                  role = role;
                }
                ∷ []),
            occurrences-beyond id db.admins,
          ));
      some_admin = rw q (
          omega (
            arith,
            length-append db.admins (
                record {
                  id = next_id (λ (a : Admin). a.id) db.admins;
                  username = name;
                  pw_hash = hash;
                  role = role;
                }
                ∷ []),
          ));
    }

pub insert_hashed-IsStaffed :
    (c : Crypto) (salt : Option Bytes) (username password role : Bytes)
    → Keeps IsStaffed (insert_hashed c salt username password role)
unfolding insert_hashed
insert_hashed-IsStaffed c salt username password role =
    Keeps-bind IsStaffed (require panicked (hash_password c salt password)) _
      (Keeps-require IsStaffed _ _)
      (λ hash.
        Keeps-insert_checked IsStaffed (insert_admin username hash role)
          (λ u db db' s h. distinct-insert username hash role db db' u s.distinct h))

pub set_hash-IsStaffed :
    (username hash : Bytes) (db : Db)
    → IsStaffed db
    → IsStaffed (record db { admins = set_hash username hash db.admins })
set_hash-IsStaffed username hash db s = record {
  distinct = λ id. ground (arith, occurrences-set_hash id username hash db.admins, s.distinct id);
  some_admin = ground (arith, occurrences-set_hash 0 username hash db.admins, s.some_admin);
}

pub ensure_counted-IsStaffed :
    (c : Crypto) (salt : Option Bytes) (username password : Bytes) (n : ℕ)
    → Keeps IsStaffed (ensure_counted c salt username password n)
unfolding ensure_counted update_hash
ensure_counted-IsStaffed c salt username password zero =
    Keeps-if IsStaffed _ _ _ (Keeps-raise IsStaffed no_admin)
      (insert_hashed-IsStaffed c salt username password _)
ensure_counted-IsStaffed c salt username password (suc n) =
    Keeps-if IsStaffed _ _ _
      (Keeps-bind IsStaffed (require panicked (hash_password c salt password)) _
        (Keeps-require IsStaffed _ _)
        (λ hash. Keeps-exec IsStaffed _ (set_hash-IsStaffed username hash)))
      (Keeps-pure IsStaffed tt)

pub ensure_admin-IsStaffed :
    (c : Crypto) (salt : Option Bytes) (username password : Bytes)
    → Keeps IsStaffed (ensure_admin c salt username password)
unfolding ensure_admin
ensure_admin-IsStaffed c salt username password =
    Keeps-bind IsStaffed _ _ (Keeps-query IsStaffed _)
      (ensure_counted-IsStaffed c salt username password)

pub create_user-IsStaffed :
    (c : Crypto) (salt : Option Bytes) (username password role : Bytes)
    → Keeps IsStaffed (create_user c salt username password role)
unfolding create_user
create_user-IsStaffed c salt username password role =
    Keeps-if IsStaffed _ _ _ (Keeps-raise IsStaffed required)
      (insert_hashed-IsStaffed c salt username password _)

-- The DELETE, where more than one admin was counted.
delete-IsStaffed :
    (id : ℕ) (db : Db)
    → 2 ≤ length db.admins
    → IsStaffed db
    → IsStaffed (record db { admins = keep (λ (a : Admin). not (a.id == id)) db.admins })
delete-IsStaffed id db h s = record {
  distinct = λ i. ground (arith, occurrences-delete i id db.admins, s.distinct i);
  some_admin = ground (arith, length-delete id db.admins, s.distinct id);
}

delete_faults :
    (id : ℕ) (db : Db) (fs : List Bool)
    → IsStaffed db
    → IsStaffed (delete_user id (record { db = db; faults = fs })).1.db
unfolding delete_user delete_counted counted query exec
delete_faults id db [] s = elim (Bool-cases (leb (length db.admins) 1)) [
  | inl e ↦ rw e s
  | inr e ↦ rw e (delete-IsStaffed id db (ground arith) s)
]
delete_faults id db (true ∷ fs) s = s
delete_faults id db (false ∷ []) s = elim (Bool-cases (leb (length db.admins) 1)) [
  | inl e ↦ rw e s
  | inr e ↦ rw e (delete-IsStaffed id db (ground arith) s)
]
delete_faults id db (false ∷ true ∷ fs) s = elim (Bool-cases (leb (length db.admins) 1)) [
  | inl e ↦ rw e s
  | inr e ↦ rw e s
]
delete_faults id db (false ∷ false ∷ fs) s = elim (Bool-cases (leb (length db.admins) 1)) [
  | inl e ↦ rw e s
  | inr e ↦ rw e (delete-IsStaffed id db (ground arith) s)
]

pub delete_user-IsStaffed : (id : ℕ) → Keeps IsStaffed (delete_user id)
delete_user-IsStaffed id = record { at = λ w s. delete_faults id w.db w.faults s }
