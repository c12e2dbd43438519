-- ===== src/Store/Migrate.antt =====
-- internal/store/store.go: migrate, the versions of the database's schema.
--
-- What the statements of a file do to the schema, and whether they succeed, is `exec`, a parameter: it
-- takes the file's text and the database, and an error may leave the part done before it. Each PRAGMA
-- can fail as well, by a list of faults. The file names come sorted, as sort.Strings leaves them, each
-- with its text or none where the embedded file cannot be read.
pub mod Order
use glimt.Base.{
  ℕ, zero, suc, ◌+◌, ◌-◌, ◌≤◌, ◌<◌, Bool, true, false, Option, none, some, List, [], ◌∷◌, ◌++◌, ◌≡◌,
  refl, sym, ap, ◌∙◌, arith, Bytes, leb, length, drop, if◌then◌else◌, Bool-cases, inl, inr,
}

-- The database, as far as a migration goes: its schema and its PRAGMA user_version.
pub record Versioned (S : Type 0) : Type 0 where
  pub schema : S
  pub version : ℕ

module _ {S : Type 0} (exec : Bytes → S → S × Bool) where
  -- PRAGMA user_version = target
  unfoldable pub set_version : ℕ → List Bool → Versioned S → Versioned S × Bool × List Bool
  set_version target [] d = (record d { version = target }, true, [])
  set_version target (true ∷ fs) d = (d, false, fs)
  set_version target (false ∷ fs) d = (record d { version = target }, true, fs)

  -- The loop over the files, from the one that brings the schema to `target`; `ver` was read at the
  -- start. The Boolean says whether all went well.
  unfoldable pub run_files :
      ℕ → ℕ → List (Option Bytes) → List Bool → Versioned S → Versioned S × Bool
  unfolding set_version
  run_files ver target [] fs d = (d, true)
  run_files ver target (f ∷ files) fs d =
      let skipped = run_files ver (target + 1) files fs d in
      let applied : Versioned S × Bool = elim f [
        | none ↦ (d, false)
        | some text ↦
            let (schema, done) = exec text d.schema in
            let (d', set, fs') = set_version target fs (record d { schema = schema }) in
            let next = run_files ver (target + 1) files fs' d' in
            if done
            then (if set then next else (d', false))
            else (record d { schema = schema }, false)
      ] in
      if leb target ver then skipped else applied

  unfoldable pub migrate : List (Option Bytes) → List Bool → Versioned S → Versioned S × Bool
  unfolding run_files
  migrate files [] d = run_files d.version 1 files [] d
  migrate files (true ∷ fs) d = (d, false)
  migrate files (false ∷ fs) d = run_files d.version 1 files fs d
