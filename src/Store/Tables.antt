-- ===== src/Store/Tables.antt =====
-- internal/store/migrations: the tables, each a list of rows in the order of insertion.
use glimt.Base.{ℕ, ◌+◌, max, Bool, Bytes, List, [], ◌∷◌, ◌++◌, ◌≡◌, arith}
use glimt.Model.{Event}

-- a row of `session`
pub record Session : Type 0 where
  pub id : ℕ
  pub website_id : ℕ
  pub visitor_hash : Bytes
  pub day : ℕ
  pub started_at : ℕ
  pub last_seen_at : ℕ
  pub entry_path : Bytes
  pub exit_path : Bytes
  pub pageviews : ℕ
  pub events : ℕ
  pub is_bounce : ℕ
  pub country : Bytes
  pub browser : Bytes
  pub os : Bytes
  pub device : Bytes
  pub ref_class : ℕ
  pub ref_source : Bytes
  pub city : Bytes

-- a row of `event`: its columns but the keys are the fields of an event, `props` left empty
pub record EventRow : Type 0 where
  pub id : ℕ
  pub session_id : ℕ
  pub event : Event

-- a row of `event_prop`
pub record EventProp : Type 0 where
  pub event_id : ℕ
  pub key : Bytes
  pub value : Bytes

-- a row of `salt`
pub record SaltRow : Type 0 where
  pub day : ℕ
  pub value : Bytes
  pub created_at : ℕ

-- a row of `website`; `share_token` is empty for NULL, which the program reads alike
pub record Website : Type 0 where
  pub id : ℕ
  pub uuid : Bytes
  pub name : Bytes
  pub domain : Bytes
  pub api_key_hash : Bytes
  pub script_token : Bytes
  pub collect_token : Bytes
  pub public : Bool
  pub share_token : Bytes
  pub created_at : ℕ

-- a row of `admin`
pub record Admin : Type 0 where
  pub id : ℕ
  pub username : Bytes
  pub pw_hash : Bytes
  pub role : Bytes

-- a row of `admin_session`
pub record AdminSession : Type 0 where
  pub token : Bytes
  pub expires_at : ℕ
  pub user_id : ℕ

-- a row of `rollup_stats`
pub record StatsRow : Type 0 where
  pub website_id : ℕ
  pub bucket_hour : ℕ
  pub pageviews : ℕ
  pub visitors : ℕ
  pub sessions : ℕ

-- a row of `rollup_dim`
pub record DimRow : Type 0 where
  pub website_id : ℕ
  pub bucket_day : ℕ
  pub dimension : Bytes
  pub value : Bytes
  pub pageviews : ℕ
  pub sessions : ℕ
  pub visitors : ℕ

-- a row of `funnel`
pub record FunnelRow : Type 0 where
  pub id : ℕ
  pub website_id : ℕ
  pub name : Bytes
  pub steps_json : Bytes
  pub created_at : ℕ

pub record Db : Type 0 where
  pub sessions : List Session
  pub events : List EventRow
  pub event_props : List EventProp
  pub salts : List SaltRow
  pub websites : List Website
  pub admins : List Admin
  pub admin_sessions : List AdminSession
  pub rollup_stats : List StatsRow
  pub rollup_dim : List DimRow
  pub funnels : List FunnelRow

abbrev pub empty_db : Db
empty_db = record {
  sessions = [];
  events = [];
  event_props = [];
  salts = [];
  websites = [];
  admins = [];
  admin_sessions = [];
  rollup_stats = [];
  rollup_dim = [];
  funnels = [];
}

-- The id that SQLite gives to a new row of an INTEGER PRIMARY KEY: one more than the largest.
module _ {ℓ} {A : Type ℓ} (id : A → ℕ) where
  unfoldable pub max_id : List A → ℕ
  max_id [] = 0
  max_id (r ∷ rows) = max (id r) (max_id rows)

  unfoldable pub next_id : List A → ℕ
  unfolding max_id
  next_id rows = max_id rows + 1

  pub max_id-append : (rows : List A) (r : A) → max_id (rows ++ r ∷ []) ≡ max (max_id rows) (id r)
  unfolding max_id
  max_id-append [] r = omega arith
  max_id-append (x ∷ rows) r = omega (arith, max_id-append rows r)

  -- After an insertion under the next id, the next id is larger.
  pub next_id-append :
      (rows : List A) (r : A) → id r ≡ next_id rows → next_id (rows ++ r ∷ []) ≡ next_id rows + 1
  unfolding next_id
  next_id-append rows r e = omega (arith, max_id-append rows r)
