-- ===== src/Tests/Migrate.antt =====
-- internal/store/store.go: files that add a column, which cannot be added twice.
use glimt.Base.{
  ◌≡◌, refl, Bool, true, false, not, Option, some, List, [], ◌∷◌, Bytes, codes, same, has,
  has_prefix, if◌then◌else◌,
}
use glimt.Store.Migrate.{Versioned, migrate}
use glimt.Store.Migrate.Order.{after, migrate_stuck}

-- The columns of the schema; a statement adds the one that it names.
abbrev add_column : Bytes → List Bytes → List Bytes × Bool
add_column text columns = (text ∷ columns, not (has same text columns))

abbrev files : List (Option Bytes)
files = some (codes "a") ∷ some (codes "b") ∷ []

abbrev empty : Versioned (List Bytes)
empty = record { schema = []; version = 0 }

-- An upgrade of a database of version 1: the second file is applied, and its version is not stored.
abbrev upgrade : List (Option Bytes)
upgrade =
    some (codes "CREATE TABLE IF NOT EXISTS event (id INTEGER)")
    ∷ some (codes "ALTER TABLE event ADD COLUMN page_title TEXT")
    ∷ some (codes "ALTER TABLE event ADD COLUMN city TEXT")
    ∷ []

-- ALTER adds the column that it names unless it is there; the rest is safe to run again.
abbrev run_text : Bytes → List Bytes → List Bytes × Bool
run_text text columns =
    if has_prefix text (codes "ALTER")
    then (if has same text columns then (columns, false) else (text ∷ columns, true))
    else (columns, true)

abbrev adds_title : Bytes
adds_title = codes "ALTER TABLE event ADD COLUMN page_title TEXT"

abbrev first_version : Versioned (List Bytes)
first_version = record { schema = []; version = 1 }

once : (run_text adds_title []).1 ≡ true
unfolding has has_prefix same
once = refl

twice : run_text adds_title (run_text adds_title []).0 ≡ ((run_text adds_title []).0, false)
unfolding has has_prefix same
twice = refl

migrate_stuck_example :
    let broken : Versioned (List Bytes) = record {
      schema = (run_text adds_title []).0;
      version = 1;
    } in
    (migrate run_text upgrade (false ∷ true ∷ []) first_version ≡ (broken, false))
    × (migrate run_text upgrade [] (
          after run_text upgrade
            ([] ∷ (false ∷ []) ∷ [])
            (migrate run_text upgrade (false ∷ true ∷ []) first_version).0)
        ≡ (broken, false))
migrate_stuck_example =
    migrate_stuck run_text upgrade adds_title
      (some (codes "ALTER TABLE event ADD COLUMN city TEXT") ∷ []) [] first_version
      ([] ∷ (false ∷ []) ∷ []) [] refl once twice
