-- ===== src/Store/Gives.antt =====
-- Runs of statements that only read, where nothing fails: they return a value, of which something
-- holds, and leave the database.
use glimt.Base.{Bool, true, false, ◌≡◌, refl, ap, if◌then◌else◌}
use glimt.Store.Tables.{Db}
use glimt.Store.Sql.{Sql, ok, sound, query, pure, ◌>>=◌}
use glimt.Store.Reads.{recover}
use glimt.Query.{or_before}

pub record Gives {A : Type 0} (db : Db) (m : Sql A) (Q : A → Type 0) : Type 0 where
  pub value : A
  pub returns : m (sound db) ≡ (ok value, sound db)
  pub holds : Q value

module _ {A : Type 0} (db : Db) (Q : A → Type 0) where
  pub Gives-pure : (a : A) → Q a → Gives db (pure a) Q
  Gives-pure a h = record { value = a; returns = refl; holds = h }

  pub Gives-query : (f : Db → A) → Q (f db) → Gives db (query f) Q
  unfolding query
  Gives-query f h = record { value = f db; returns = refl; holds = h }

  pub Gives-or_before : (a : A) (m : Sql A) → Gives db m Q → Gives db (or_before a m) Q
  unfolding or_before
  Gives-or_before a m g = record {
    value = g.value;
    returns = ap (recover a) g.returns;
    holds = g.holds;
  }

  pub Gives-if :
      (b : Bool) (m n : Sql A) → Gives db m Q → Gives db n Q → Gives db (if b then m else n) Q
  Gives-if true m n g k = g
  Gives-if false m n g k = k

pub Gives-bind :
    {A B : Type 0} (db : Db) (P : A → Type 0) (Q : B → Type 0) (m : Sql A) (f : A → Sql B)
    → Gives db m P
    → ((a : A) → P a → Gives db (f a) Q)
    → Gives db (m >>= f) Q
Gives-bind db P Q m f g k =
    let next = k g.value g.holds in
    record { value = next.value; returns = rw (g.returns) next.returns; holds = next.holds }
