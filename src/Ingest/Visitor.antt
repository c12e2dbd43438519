-- ===== src/Ingest/Visitor.antt =====
-- internal/ingest/visitor.go: the salt of the day and the visitor hash.
--
-- A day, a text such as 2006-01-02 in the source, is the number of days since 1970 (UTC). The bytes
-- of crypto/rand are an argument, `none` where the read fails. The readers' and the writer's lock
-- leave no other behaviour than the one of `ensure` run from start to end.
pub mod Salts
use glimt.Base.{
  ℕ, ◌-◌, ◌/◌, ◌%◌, ◌^◌, Bool, true, false, ◌&&◌, ◌||◌, Option, none, some, List, [], ◌∷◌, ◌++◌,
  Bytes, ◌==◌, if◌then◌else◌, keep,
}
use glimt.Store.Tables.{Db, SaltRow}
use glimt.Store.Sql.{
  Sql, World, Result, ok, err, random_error, no_rows, query, exec, ignore, require, ◌>>=◌, ◌>>◌,
  pure,
}

abbrev pub ms_per_day : ℕ
ms_per_day = 86400000

-- `day` is the empty text and `salt` nil until the first `ensure`.
pub record SaltManager : Type 0 where
  pub day : Option ℕ
  pub salt : Option Bytes

abbrev pub new_manager : SaltManager
new_manager = record { day = none; salt = none }

-- SELECT value FROM salt WHERE day = ?
unfoldable pub lookup_salt : ℕ → List SaltRow → Option Bytes
lookup_salt day [] = none
lookup_salt day (r ∷ rows) = if r.day == day then some r.value else lookup_salt day rows

-- INSERT OR IGNORE INTO salt
unfoldable pub insert_or_ignore : SaltRow → List SaltRow → List SaltRow
unfolding lookup_salt
insert_or_ignore row rows = elim (lookup_salt row.day rows) [
  | none ↦ rows ++ row ∷ []
  | some v ↦ rows
]

-- DELETE FROM salt WHERE day <> ? AND day <> ?
unfoldable pub delete_old : ℕ → List SaltRow → List SaltRow
delete_old day = keep (λ (r : SaltRow). r.day == day || r.day == day - 1)

-- sm.day == day && sm.salt != nil
unfoldable pub is_current : ℕ → SaltManager → Bool
is_current day sm = elim sm.day [
  | none ↦ false
  | some d ↦ elim sm.salt [ none ↦ false | some s ↦ d == day ]
]

-- The branch on the outcome of the first SELECT.
unfoldable pub renew : ℕ → ℕ → Option Bytes → Option Bytes → Sql Bytes
renew day now fresh none = do
  salt ← require random_error fresh
  exec (λ db. record db {
    salts = insert_or_ignore (record { day = day; value = salt; created_at = now }) db.salts;
  })
  again ← query (λ db. lookup_salt day db.salts)
  stored ← require no_rows again
  ignore (exec (λ db. record db { salts = delete_old day db.salts }))
  pure stored
renew day now fresh (some salt) = pure salt

unfoldable pub load : ℕ → ℕ → Option Bytes → Sql SaltManager
load day now fresh = do
  found ← query (λ db. lookup_salt day db.salts)
  salt ← renew day now fresh found
  pure (record { day = some day; salt = some salt })

unfoldable pub ensure : ℕ → Option Bytes → SaltManager → Sql SaltManager
ensure now fresh sm =
    let day = now / ms_per_day in if is_current day sm then pure sm else load day now fresh

-- binary.BigEndian.PutUint64
unfoldable pub put_uint64 : ℕ → Bytes
put_uint64 n =
    (n / 2 ^ 56 % 256)
    ∷ (n / 2 ^ 48 % 256)
    ∷ (n / 2 ^ 40 % 256)
    ∷ (n / 2 ^ 32 % 256)
    ∷ (n / 2 ^ 24 % 256)
    ∷ (n / 2 ^ 16 % 256)
    ∷ (n / 2 ^ 8 % 256)
    ∷ (n % 256)
    ∷ []

-- What is hashed, after `ensure`: its error is ignored, and the manager is then as it was.
unfoldable pub message : Option Bytes → ℕ → Bytes → Bytes → Bytes
message none site ip user_agent = put_uint64 site ++ ip ++ user_agent
message (some salt) site ip user_agent = salt ++ put_uint64 site ++ ip ++ user_agent

-- The manager that Hash goes on with.
unfoldable pub refreshed : SaltManager → Result SaltManager → SaltManager
refreshed old (ok sm) = sm
refreshed old (err e) = old

-- sha256.New, Write and Sum, which the repository only calls, are the argument `sha256`.
unfoldable pub hash :
    (Bytes → Bytes)
    → ℕ
    → Option Bytes
    → SaltManager
    → ℕ
    → Bytes
    → Bytes
    → World
    → Bytes × SaltManager × World
unfolding refreshed message
hash sha256 now fresh sm site ip user_agent w =
    let (r, w') = ensure now fresh sm w in
    let sm' = refreshed sm r in (sha256 (message sm'.salt site ip user_agent), sm', w')
