-- ===== src/Store/Open.antt =====
-- internal/store/store.go: Open and Close, as what they open and close.
--
-- database/sql and the driver, which the repository only calls, are the argument `opens`: whether
-- sql.Open takes a data source name. Whether migrate succeeds is `migrated`.
use glimt.Base.{Bool, true, false, not, List, [], ◌∷◌, ◌++◌, Bytes, codes, if◌then◌else◌}

pub data Action (R : Type 0) : Type 0 where
  opened closed : R → Action R

-- W and R of a DB
pub data Pool : Type 0 where
  writer_pool reader_pool : Pool

unfoldable pub write_dsn : Bytes → Bytes
write_dsn path =
    codes "file:"
    ++ path
    ++ codes "?_pragma=busy_timeout(5000)&_pragma=journal_mode(WAL)"
    ++ codes "&_pragma=synchronous(1)&_pragma=foreign_keys(1)"

unfoldable pub read_dsn : Bytes → Bytes
read_dsn path = codes "file:" ++ path ++ codes "?_pragma=busy_timeout(5000)&_pragma=foreign_keys(1)"

module _ {R : Type 0} (of : Pool → R) where
  -- Close
  unfoldable pub close_store : List (Action R)
  close_store = closed (of writer_pool) ∷ closed (of reader_pool) ∷ []

  -- Open: what was opened and closed, and whether there is a DB.
  unfoldable pub open_store : (Bytes → Bool) → Bool → Bytes → List (Action R) × Bool
  unfolding close_store
  open_store opens migrated path =
      if not (opens (write_dsn path))
      then ([], false)
      else if not (opens (read_dsn path))
      then (opened (of writer_pool) ∷ closed (of writer_pool) ∷ [], false)
      else if migrated
      then (opened (of writer_pool) ∷ opened (of reader_pool) ∷ [], true)
      else (opened (of writer_pool) ∷ opened (of reader_pool) ∷ close_store, false)
