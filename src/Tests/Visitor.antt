-- ===== src/Tests/Visitor.antt =====
-- internal/ingest/visitor.go: two starts of the process on one day.
use glimt.Base.{ℕ, ◌+◌, false, Option, none, some, ◌≡◌, refl, Bytes, codes, All}
use glimt.Store.Tables.{empty_db}
use glimt.Store.Sql.{World, ok, sound, query, exec, ignore}
use glimt.Ingest.Visitor.{
  SaltManager, new_manager, ensure, load, renew, is_current, lookup_salt, insert_or_ignore,
  delete_old,
}
use glimt.Ingest.Visitor.Salts.{IsRecent, restart_keeps_salt, ensure_forgets, new_manager-IsSynced}

abbrev now : ℕ
now = 172800005

abbrev drawn : Option Bytes
drawn = some (codes "salt")

abbrev managed : SaltManager
managed = record { day = some 2; salt = drawn }

abbrev first_run : World
first_run = (ensure now drawn new_manager (sound empty_db)).1

first_salt : (ensure now drawn new_manager (sound empty_db)).0 ≡ ok managed
unfolding ensure load renew is_current lookup_salt insert_or_ignore delete_old query exec ignore
first_salt = refl

second_salt : (ensure (now + 1000) (some (codes "other")) new_manager first_run).0 ≡ ok managed
unfolding ensure load renew is_current lookup_salt insert_or_ignore delete_old query exec ignore
second_salt = refl

restart_keeps_salt_example : managed.salt ≡ managed.salt
restart_keeps_salt_example =
    restart_keeps_salt now (now + 1000) drawn (some (codes "other")) new_manager managed managed
      (sound empty_db) first_run refl (new_manager-IsSynced empty_db) first_salt refl second_salt

no_manager : is_current 2 new_manager ≡ false
unfolding is_current
no_manager = refl

no_salt : lookup_salt 2 empty_db.salts ≡ none
unfolding lookup_salt
no_salt = refl

ensure_forgets_example :
    let r = ensure now drawn new_manager (sound empty_db) in
    (r.0 ≡ ok managed) × All (IsRecent 2) r.1.db.salts
ensure_forgets_example = ensure_forgets now (codes "salt") new_manager empty_db no_manager no_salt
