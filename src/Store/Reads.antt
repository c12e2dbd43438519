-- ===== src/Store/Reads.antt =====
-- Runs of statements that only read, on two databases which a relation makes alike for them.
use glimt.Base.{Bool, true, false, List, [], ◌∷◌, ◌≡◌, refl, ap, if◌then◌else◌}
use glimt.Store.Tables.{Db}
use glimt.Store.Sql.{Sql, World, Result, ok, err, db_error, query, ◌>>=◌, pure}
use glimt.Query.{or_before}

abbrev world : Db → List Bool → World
world db fs = record { db = db; faults = fs }

-- What a run leaves on both: one result, one list of faults, and the databases as they were.
pub record Alike {A : Type 0} (m : Sql A) (db db' : Db) (fs : List Bool) : Type 0 where
  pub result : Result A
  pub faults : List Bool
  pub left : m (world db fs) ≡ (result, world db faults)
  pub right : m (world db' fs) ≡ (result, world db' faults)

pub record Reads (R : Db → Db → Type 0) {A : Type 0} (m : Sql A) : Type 0 where
  pub at : (db db' : Db) (fs : List Bool) → R db db' → Alike m db db' fs

module _ {A : Type 0} where
  query_at : (f : Db → A) (db db' : Db) (fs : List Bool) → f db ≡ f db' → Alike (query f) db db' fs
  unfolding query
  query_at f db db' [] e = record {
    result = ok (f db);
    faults = [];
    left = refl;
    right = rw e refl;
  }
  query_at f db db' (true ∷ fs) e = record {
    result = err db_error;
    faults = fs;
    left = refl;
    right = refl;
  }
  query_at f db db' (false ∷ fs) e = record {
    result = ok (f db);
    faults = fs;
    left = refl;
    right = rw e refl;
  }

  abbrev pub recover : A → Result A × World → Result A × World
  recover a p = elim p.0 [ ok b ↦ (ok b, p.1) | err e ↦ (ok a, p.1) ]

  before_from :
      (a : A) (m : Sql A) (db db' : Db) (fs faults : List Bool) (r : Result A)
      → m (world db fs) ≡ (r, world db faults)
      → m (world db' fs) ≡ (r, world db' faults)
      → Alike (or_before a m) db db' fs
  unfolding or_before
  before_from a m db db' fs faults (ok b) l k = record {
    result = ok b;
    faults = faults;
    left = ap (recover a) l;
    right = ap (recover a) k;
  }
  before_from a m db db' fs faults (err e) l k = record {
    result = ok a;
    faults = faults;
    left = ap (recover a) l;
    right = ap (recover a) k;
  }

module _ {R : Db → Db → Type 0} {A : Type 0} where
  pub Reads-pure : (a : A) → Reads R (pure a)
  Reads-pure a = record {
    at = λ db db' fs r. record { result = ok a; faults = fs; left = refl; right = refl };
  }

  pub Reads-query : (f : Db → A) → ((db db' : Db) → R db db' → f db ≡ f db') → Reads R (query f)
  Reads-query f h = record { at = λ db db' fs r. query_at f db db' fs (h db db' r) }

  pub Reads-or_before : (a : A) (m : Sql A) → Reads R m → Reads R (or_before a m)
  Reads-or_before a m h = record {
    at = λ db db' fs r.
        let k = h.at db db' fs r in before_from a m db db' fs k.faults k.result k.left k.right;
  }

  pub Reads-if : (b : Bool) (m n : Sql A) → Reads R m → Reads R n → Reads R (if b then m else n)
  Reads-if true m n h k = h
  Reads-if false m n h k = k

module _ {R : Db → Db → Type 0} {A B : Type 0} where
  bind_from :
      (m : Sql A) (f : A → Sql B) (db db' : Db) (fs faults : List Bool) (r : Result A)
      → R db db'
      → ((a : A) → Reads R (f a))
      → m (world db fs) ≡ (r, world db faults)
      → m (world db' fs) ≡ (r, world db' faults)
      → Alike (m >>= f) db db' fs
  bind_from m f db db' fs faults (ok a) h k l q =
      let next = (k a).at db db' faults h in
      record {
        result = next.result;
        faults = next.faults;
        left = rw l next.left;
        right = rw q next.right;
      }
  bind_from m f db db' fs faults (err e) h k l q = record {
    result = err e;
    faults = faults;
    left = rw l refl;
    right = rw q refl;
  }

  pub Reads-bind :
      (m : Sql A) (f : A → Sql B) → Reads R m → ((a : A) → Reads R (f a)) → Reads R (m >>= f)
  Reads-bind m f h k = record {
    at = λ db db' fs r.
        let first = h.at db db' fs r in
        bind_from m f db db' fs first.faults first.result r k first.left first.right;
  }

pub ruleset reads_rules = (Reads-pure, Reads-bind, Reads-or_before, Reads-if)
