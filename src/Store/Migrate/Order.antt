-- ===== src/Store/Migrate/Order.antt =====
-- migrate of internal/store/store.go: which files are applied, and what a failure leaves.
use glimt.Base.{
  ℕ, zero, suc, ◌+◌, ◌≤◌, ◌<◌, Bool, true, false, Option, none, some, List, [], ◌∷◌, ◌≡◌, refl, ap,
  ◌∙◌, arith, Bytes, leb, length, drop,
}
use glimt.Store.Migrate.{Versioned, set_version, run_files, migrate}

module _ {S : Type 0} (exec : Bytes → S → S × Bool) where
  -- The schema after all files.
  unfoldable pub apply_all : List (Option Bytes) → S → S
  apply_all [] s = s
  apply_all (none ∷ files) s = apply_all files s
  apply_all (some text ∷ files) s = apply_all files (exec text s).0

  run_files-skip :
      (ver target : ℕ) (files : List (Option Bytes)) (fs : List Bool) (d : Versioned S)
      → target + length files ≤ ver + 1
      → run_files exec ver target files fs d ≡ (d, true)
  unfolding run_files
  run_files-skip ver target [] fs d h = refl
  run_files-skip ver target (f ∷ files) fs d h =
      let e : leb target ver ≡ true = ground arith in
      rw e (run_files-skip ver (target + 1) files fs d (omega (arith, h)))

  run_files-drop :
      (k ver target : ℕ) (files : List (Option Bytes)) (fs : List Bool) (d : Versioned S)
      → target + k ≡ ver + 1
      → run_files exec ver target files fs d ≡ run_files exec ver (ver + 1) (drop k files) fs d
  unfolding run_files
  run_files-drop zero ver target files fs d h =
      ap (λ t. run_files exec ver t files fs d) (omega (arith, h))
  run_files-drop (suc k) ver target [] fs d h = refl
  run_files-drop (suc k) ver target (f ∷ files) fs d h =
      let e : leb target ver ≡ true = ground arith in
      rw e (run_files-drop k ver (target + 1) files fs d (omega (arith, h)))

  abbrev pub IsMigrated : List (Option Bytes) → Versioned S → Versioned S → Type 0
  IsMigrated files d d' =
      (d'.schema ≡ apply_all (drop d.version files) d.schema)
      × (d'.version ≡ d.version + length (drop d.version files))

  run_files-next :
      (files : List (Option Bytes)) (text : Bytes) (rest : List (Option Bytes)) (fs : List Bool)
      (d : Versioned S)
      → drop d.version files ≡ some text ∷ rest
      → run_files exec d.version 1 files fs d
        ≡ run_files exec d.version (d.version + 1) (some text ∷ rest) fs d
  run_files-next files text rest fs d h =
      run_files-drop d.version d.version 1 files fs d (omega arith)
      ∙ ap (λ later. run_files exec d.version (d.version + 1) later fs d) h

  -- The next file fails at once, and changes nothing.
  run_files-refused :
      (ver target : ℕ) (text : Bytes) (rest : List (Option Bytes)) (fs : List Bool)
      (d : Versioned S)
      → ver < target
      → exec text d.schema ≡ (d.schema, false)
      → run_files exec ver target (some text ∷ rest) fs d ≡ (d, false)
  unfolding run_files
  run_files-refused ver target text rest fs d h k =
      let e : leb target ver ≡ false = ground arith in rw (e, k) refl

  migrate-refused :
      (files : List (Option Bytes)) (text : Bytes) (rest : List (Option Bytes)) (fs : List Bool)
      (d : Versioned S)
      → drop d.version files ≡ some text ∷ rest
      → exec text d.schema ≡ (d.schema, false)
      → migrate exec files fs d ≡ (d, false)
  unfolding migrate
  migrate-refused files text rest [] d h k =
      run_files-next files text rest [] d h
      ∙ run_files-refused d.version (d.version + 1) text rest [] d (omega arith) k
  migrate-refused files text rest (true ∷ fs) d h k = refl
  migrate-refused files text rest (false ∷ fs) d h k =
      run_files-next files text rest fs d h
      ∙ run_files-refused d.version (d.version + 1) text rest fs d (omega arith) k

  -- The next file is applied, and the statement that stores the version fails.
  migrate-unversioned :
      (files : List (Option Bytes)) (text : Bytes) (rest : List (Option Bytes)) (fs : List Bool)
      (d : Versioned S)
      → drop d.version files ≡ some text ∷ rest
      → (exec text d.schema).1 ≡ true
      → migrate exec files (false ∷ true ∷ fs) d
        ≡ (record d { schema = (exec text d.schema).0 }, false)
  unfolding migrate run_files set_version
  migrate-unversioned files text rest fs d h k =
      let e : leb (d.version + 1) d.version ≡ false = ground arith in
      run_files-next files text rest (true ∷ fs) d h ∙ rw (e, k) refl

  -- The database after some starts of the program, each with the faults of its migrate.
  unfoldable pub after : List (Option Bytes) → List (List Bool) → Versioned S → Versioned S
  after files [] d = d
  after files (fs ∷ starts) d = after files starts (migrate exec files fs d).0

  after-refused :
      (files : List (Option Bytes)) (text : Bytes) (rest : List (Option Bytes))
      (starts : List (List Bool)) (d : Versioned S)
      → drop d.version files ≡ some text ∷ rest
      → exec text d.schema ≡ (d.schema, false)
      → after files starts d ≡ d
  unfolding after
  after-refused files text rest [] d h k = refl
  after-refused files text rest (fs ∷ starts) d h k =
      rw (migrate-refused files text rest fs d h k) (after-refused files text rest starts d h k)

  -- The file after the stored version, whichever that is, is applied, and then the statement that stores
  -- the version fails. If the file's first statement cannot run twice, so that on the new schema the file
  -- fails and changes nothing, then migrate reports an error and leaves the new schema under the old
  -- version, and every later migrate, at whichever start and whatever else fails in it, reports an error
  -- as well and leaves the database as it is.
  pub migrate_stuck :
      (files : List (Option Bytes)) (text : Bytes) (rest : List (Option Bytes)) (fs : List Bool)
      (d : Versioned S) (starts : List (List Bool)) (faults : List Bool)
      → drop d.version files ≡ some text ∷ rest
      → (exec text d.schema).1 ≡ true
      → exec text (exec text d.schema).0 ≡ ((exec text d.schema).0, false)
      → let broken = record d { schema = (exec text d.schema).0 } in
        (migrate exec files (false ∷ true ∷ fs) d ≡ (broken, false))
        × (migrate exec files faults
              (after files starts (migrate exec files (false ∷ true ∷ fs) d).0)
            ≡ (broken, false))
  migrate_stuck files text rest fs d starts faults h k twice =
      let broken : Versioned S = record d { schema = (exec text d.schema).0 } in
      let e = migrate-unversioned files text rest fs d h k in
      (
        e,
        rw (e, after-refused files text rest starts broken h twice)
            (migrate-refused files text rest faults broken h twice),
      )
