-- ===== src/Sites.antt =====
-- internal/sites/sites.go: the tracked websites and the registry of their tokens.
--
-- The registry's maps are lists of entries, the newest first: the program looks keys up and never
-- goes through a map. Random tokens are arguments, and sha256 in hexadecimal is `hash_key`.
pub mod Mirror
pub mod Writes
pub mod Reuse
use glimt.Base.{
  ℕ, ◌+◌, Bool, true, false, ◌&&◌, ◌||◌, not, Option, none, some, List, [], ◌∷◌, ◌++◌, Bytes, same,
  is_empty, ltb, ◌==◌, if◌then◌else◌, keep,
}
use glimt.Model.{Site}
use glimt.Store.Tables.{Db, Website, next_id}
use glimt.Store.Sql.{
  Sql, World, Result, ok, err, constraint, query, exec, insert_checked, confirm, require, pure,
  ◌>>=◌, ◌>>◌,
}

pub record Registry : Type 0 where
  pub by_collect : List (Bytes × Site)
  pub by_script : List (Bytes × Site)
  pub by_id : List (ℕ × Site)
  pub by_share : List (Bytes × Site)
  pub ordered : List Site

abbrev pub empty_registry : Registry
empty_registry = record { by_collect = []; by_script = []; by_id = []; by_share = []; ordered = [] }

-- ORDER BY name, by the bytes of the names
unfoldable pub bytes_less : Bytes → Bytes → Bool
bytes_less a [] = false
bytes_less [] (y ∷ b) = true
bytes_less (x ∷ a) (y ∷ b) = ltb x y || x == y && bytes_less a b

unfoldable pub insert_by_name : Website → List Website → List Website
insert_by_name r [] = r ∷ []
insert_by_name r (x ∷ rows) =
    if bytes_less x.name r.name then x ∷ insert_by_name r rows else r ∷ x ∷ rows

unfoldable pub order_by_name : List Website → List Website
unfolding insert_by_name bytes_less
order_by_name [] = []
order_by_name (r ∷ rows) = insert_by_name r (order_by_name rows)

-- rows.Scan
unfoldable pub site_of : Website → Site
site_of r = record {
  id = r.id;
  uuid = r.uuid;
  name = r.name;
  domain = r.domain;
  api_key_hash = r.api_key_hash;
  script_token = r.script_token;
  collect_token = r.collect_token;
  public = r.public;
  share_token = r.share_token;
  created_at = r.created_at;
}

-- The body of the loop over the rows.
unfoldable pub add_site : Site → Registry → Registry
add_site s r = record {
  by_collect = (s.collect_token, s) ∷ r.by_collect;
  by_script = (s.script_token, s) ∷ r.by_script;
  by_id = (s.id, s) ∷ r.by_id;
  by_share = if is_empty s.share_token then r.by_share else (s.share_token, s) ∷ r.by_share;
  ordered = r.ordered ++ s ∷ [];
}

unfoldable pub add_rows : List Website → Registry → Registry
unfolding add_site site_of
add_rows [] r = r
add_rows (row ∷ rows) r = add_rows rows (add_site (site_of row) r)

-- The registry of a table.
unfoldable pub registry_of : List Website → Registry
unfolding add_rows order_by_name
registry_of rows = add_rows (order_by_name rows) empty_registry

-- An error leaves the registry in use as it was: the callers go on with the old one.
unfoldable pub reload : Sql Registry
reload = query (λ db. registry_of db.websites)

-- New
unfoldable pub new_registry : Sql Registry
unfolding reload
new_registry = reload

-- All: the websites by their names
unfoldable pub all : Registry → List Site
all r = r.ordered

unfoldable pub get : Bytes → List (Bytes × Site) → Option Site
get tok [] = none
get tok ((k, s) ∷ m) = if same k tok then some s else get tok m

unfoldable pub get_id : ℕ → List (ℕ × Site) → Option Site
get_id id [] = none
get_id id ((k, s) ∷ m) = if k == id then some s else get_id id m

unfoldable pub find_collect : Registry → Bytes → Option Site
find_collect r tok = get tok r.by_collect

unfoldable pub find_script : Registry → Bytes → Option Site
find_script r tok = get tok r.by_script

unfoldable pub find_id : Registry → ℕ → Option Site
find_id r id = get_id id r.by_id

unfoldable pub find_share : Registry → Bytes → Option Site
find_share r tok = get tok r.by_share

-- The UNIQUE columns, against the rows but those under `id`.
unfoldable pub clashes : ℕ → Bytes → Bytes → List Website → Bool
clashes id script collect [] = false
clashes id script collect (r ∷ rows) =
    not (r.id == id) && (same r.script_token script || same r.collect_token collect)
    || clashes id script collect rows

unfoldable pub uuid_taken : Bytes → List Website → Bool
uuid_taken uuid [] = false
uuid_taken uuid (r ∷ rows) = same r.uuid uuid || uuid_taken uuid rows

-- INSERT INTO website: the row under the next id, and that id
unfoldable pub insert_site : Website → Db → Option (ℕ × Db)
unfolding clashes uuid_taken
insert_site row db =
    let id = next_id (λ (r : Website). r.id) db.websites in
    if uuid_taken row.uuid db.websites || clashes id row.script_token row.collect_token db.websites
    then none
    else some (id, record db { websites = db.websites ++ record row { id = id } ∷ [] })

-- UPDATE website SET … WHERE id = ?
unfoldable pub update_site : ℕ → (Website → Website) → List Website → List Website
update_site id set [] = []
update_site id set (r ∷ rows) = (if r.id == id then set r else r) ∷ update_site id set rows

-- The random texts that Create draws.
pub record Drawn : Type 0 where
  pub api_key : Bytes
  pub uuid : Bytes
  pub script_token : Bytes
  pub collect_token : Bytes

unfoldable pub create : (Bytes → Bytes) → ℕ → Drawn → Bytes → Bytes → Sql (Site × Bytes × Registry)
create hash_key now d name domain = do
  let row : Website = record {
    id = 0;
    uuid = d.uuid;
    name = name;
    domain = domain;
    api_key_hash = hash_key d.api_key;
    script_token = d.script_token;
    collect_token = d.collect_token;
    public = false;
    share_token = [];
    created_at = now;
  }
  inserted ← insert_checked (insert_site row)
  id ← confirm inserted
  r ← reload
  pure (site_of (record row { id = id }), d.api_key, r)

unfoldable pub update : ℕ → Bytes → Bytes → Sql Registry
update id name domain = do
  exec (λ db. record db {
    websites = update_site id (λ r. record r { name = name; domain = domain }) db.websites;
  })
  reload

unfoldable pub delete : ℕ → Sql Registry
delete id = do
  exec (λ db. record db { websites = keep (λ (r : Website). not (r.id == id)) db.websites })
  reload

abbrev pub with_tokens : Bytes → Bytes → Website → Website
with_tokens script collect r = record r { script_token = script; collect_token = collect }

unfoldable pub has_id : ℕ → List Website → Bool
has_id id [] = false
has_id id (r ∷ rows) = r.id == id || has_id id rows

-- UPDATE website SET script_token = ?, collect_token = ? WHERE id = ?
-- An update of no row breaks no constraint.
unfoldable pub set_tokens : ℕ → Bytes → Bytes → Db → Option (Unit {0} × Db)
unfolding clashes has_id
set_tokens id script collect db =
    if has_id id db.websites && clashes id script collect db.websites
    then none
    else some (tt, record db { websites = update_site id (with_tokens script collect) db.websites })

unfoldable pub regen_tokens : ℕ → Bytes → Bytes → Sql Registry
regen_tokens id script collect = do insert_checked (set_tokens id script collect); reload

-- COALESCE(NULLIF(share_token, ''), ?)
abbrev pub shared : Bytes → Website → Website
shared fresh r = record r {
  public = true;
  share_token = if is_empty r.share_token then fresh else r.share_token;
}

abbrev pub unshared : Website → Website
unshared r = record r { public = false }

unfoldable pub set_public : ℕ → Bool → Bytes → Sql Registry
set_public id public fresh = do
  exec (λ db. record db {
    websites = update_site id (if public then shared fresh else unshared) db.websites;
  })
  reload
