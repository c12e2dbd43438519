-- ===== src/Config.antt =====
-- internal/config/config.go: the settings, by default, from the file and from the environment.
--
-- os.Getenv, os.ReadFile, json.Unmarshal, strconv.Atoi and the parsers of package net, which the
-- repository only calls, are the fields of `System`. A network is its test of membership.
pub mod Layers
pub mod Proxies
use glimt.Base.{
  ℕ, suc, ◌+◌, ◌-◌, ◌*◌, ◌%◌, ◌^◌, Bool, true, false, ◌||◌, Option, none, some, List, [], ◌∷◌, ◌++◌,
  Bytes, codes, same, is_empty, ltb, trim_space, to_lower, split, Unicode, if◌then◌else◌,
}
use glimt.Base.Int.{ℤ, pos, negsuc}

abbrev pub Net : Type 0
Net = Bytes → Bool

pub record Config : Type 0 where
  pub addr : Bytes
  pub db_path : Bytes
  pub geo_db_path : Bytes
  pub admin_user : Bytes
  pub admin_pass : Bytes
  pub base_url : Bytes
  pub real_ip_header : Bytes
  pub trusted_proxies : Bytes
  pub cf_country : Bool
  pub js_global : Bytes
  pub session_ttl_hours : ℤ
  pub retention_days : ℤ
  pub session_ttl : ℤ  -- nanoseconds, an int64
  pub trusted_proxy_nets : List Net

pub record System : Type 0 where
  pub getenv : Bytes → Bytes
  pub read_file : Bytes → Option Bytes
  pub unmarshal : Bytes → Config → Option Config
  pub atoi : Bytes → Option ℤ
  pub unicode : Unicode
  pub parse_cidr : Bytes → Option Net
  pub parse_ip : Bytes → Option Bytes
  pub is_v4 : Bytes → Bool  -- To4 is not nil
  pub ip_string : Bytes → Bytes

abbrev pub defaults : Config
defaults = record {
  addr = codes ":8080";
  db_path = codes "glimt.db";
  geo_db_path = [];
  admin_user = [];
  admin_pass = [];
  base_url = [];
  real_ip_header = codes "X-Forwarded-For";
  trusted_proxies = [];
  cf_country = false;
  js_global = codes "glimt";
  session_ttl_hours = pos 168;
  retention_days = pos 0;
  session_ttl = pos 0;
  trusted_proxy_nets = [];
}

-- envStr: the value of the variable, or else what was there
abbrev pub env_str : Bytes → Bytes → Bytes
env_str [] old = old
env_str (c ∷ v) old = c ∷ v

unfoldable pub bool_val : Unicode → Bytes → Bool
bool_val u s =
    let v = to_lower u (trim_space s) in
    same v (codes "1") || same v (codes "true") || same v (codes "yes") || same v (codes "on")

-- The variable's number if it is set to one.
unfoldable pub env_int : System → Bytes → ℤ → ℤ
env_int sys v old = if is_empty v then old else elim (sys.atoi v) [ none ↦ old | some n ↦ n ]

-- The number that 64 bits hold.
unfoldable pub int64 : ℕ → ℤ
int64 w = if ltb (w % 2 ^ 64) (2 ^ 63) then pos (w % 2 ^ 64) else negsuc (2 ^ 64 - 1 - w % 2 ^ 64)

-- time.Duration(hours) * time.Hour
unfoldable pub duration : ℤ → ℤ
unfolding int64
duration (pos n) = int64 (n * 3600000000000)
duration (negsuc n) = int64 (2 ^ 64 - suc n * 3600000000000 % 2 ^ 64)

abbrev pub cloudflare_cidrs : List Bytes
cloudflare_cidrs =
    codes "173.245.48.0/20"
    ∷ codes "103.21.244.0/22"
    ∷ codes "103.22.200.0/22"
    ∷ codes "103.31.4.0/22"
    ∷ codes "141.101.64.0/18"
    ∷ codes "108.162.192.0/18"
    ∷ codes "190.93.240.0/20"
    ∷ codes "188.114.96.0/20"
    ∷ codes "197.234.240.0/22"
    ∷ codes "198.41.128.0/17"
    ∷ codes "162.158.0.0/15"
    ∷ codes "104.16.0.0/13"
    ∷ codes "104.24.0.0/14"
    ∷ codes "172.64.0.0/13"
    ∷ codes "131.0.72.0/22"
    ∷ codes "2400:cb00::/32"
    ∷ codes "2606:4700::/32"
    ∷ codes "2803:f800::/32"
    ∷ codes "2405:b500::/32"
    ∷ codes "2405:8100::/32"
    ∷ codes "2a06:98c0::/29"
    ∷ codes "2c0f:f248::/32"
    ∷ []

abbrev pub private_cidrs : List Bytes
private_cidrs =
    codes "127.0.0.0/8"
    ∷ codes "10.0.0.0/8"
    ∷ codes "172.16.0.0/12"
    ∷ codes "192.168.0.0/16"
    ∷ codes "169.254.0.0/16"
    ∷ codes "::1/128"
    ∷ codes "fc00::/7"
    ∷ codes "fe80::/10"
    ∷ []

-- The network of a CIDR, if it parses, as a list.
unfoldable pub cidr : System → Bytes → List Net
cidr sys c = elim (sys.parse_cidr c) [ none ↦ [] | some n ↦ n ∷ [] ]

unfoldable pub must_cidrs : System → List Bytes → List Net
unfolding cidr
must_cidrs sys [] = []
must_cidrs sys (c ∷ cs) = cidr sys c ++ must_cidrs sys cs

-- The default case: a CIDR, or one address.
unfoldable pub address : System → Bytes → List Net
unfolding cidr
address sys part = elim (sys.parse_cidr part) [
  | some n ↦ n ∷ []
  | none ↦ elim (sys.parse_ip part) [
    | none ↦ []
    | some ip ↦
        cidr sys
          (sys.ip_string ip ++ codes "/" ++ (if sys.is_v4 ip then codes "32" else codes "128"))
  ]
]

-- The body of the loop.
unfoldable pub proxy_nets : System → Bytes → List Net
proxy_nets sys raw_part =
    let part = trim_space raw_part in
    let word = to_lower sys.unicode part in
    if is_empty part
    then []
    else if same word (codes "cloudflare")
    then must_cidrs sys cloudflare_cidrs
    else if same word (codes "private")
    then must_cidrs sys private_cidrs
    else address sys part

unfoldable pub all_proxy_nets : System → List Bytes → List Net
all_proxy_nets sys [] = []
all_proxy_nets sys (part ∷ parts) = proxy_nets sys part ++ all_proxy_nets sys parts

unfoldable pub parse_trusted_proxies : System → Bytes → List Net
unfolding all_proxy_nets
parse_trusted_proxies sys raw = all_proxy_nets sys (split b',' raw)

-- The settings of the file over the defaults; `none` where Load returns an error.
unfoldable pub file_config : System → Bytes → Option Config
file_config sys [] = some defaults
file_config sys (c ∷ path) = elim (sys.read_file (c ∷ path)) [
  | none ↦ none
  | some text ↦ sys.unmarshal text defaults
]

unfoldable pub with_env : System → Config → Config
with_env sys c =
    let env = λ (key : Bytes). sys.getenv key in
    record c {
      addr = env_str (env (codes "GLIMT_ADDR")) c.addr;
      db_path = env_str (env (codes "GLIMT_DB")) c.db_path;
      geo_db_path = env_str (env (codes "GLIMT_GEO_DB")) c.geo_db_path;
      admin_user = env_str (env (codes "GLIMT_ADMIN_USER")) c.admin_user;
      admin_pass = env_str (env (codes "GLIMT_ADMIN_PASS")) c.admin_pass;
      base_url = env_str (env (codes "GLIMT_BASE_URL")) c.base_url;
      real_ip_header = env_str (env (codes "GLIMT_REAL_IP_HEADER")) c.real_ip_header;
      trusted_proxies = env_str (env (codes "GLIMT_TRUSTED_PROXIES")) c.trusted_proxies;
      js_global = env_str (env (codes "GLIMT_JS_GLOBAL")) c.js_global;
      cf_country =
          if is_empty (env (codes "GLIMT_CF_COUNTRY"))
          then c.cf_country
          else bool_val sys.unicode (env (codes "GLIMT_CF_COUNTRY"));
      session_ttl_hours = env_int sys (env (codes "GLIMT_SESSION_TTL_HOURS")) c.session_ttl_hours;
      retention_days = env_int sys (env (codes "GLIMT_RETENTION_DAYS")) c.retention_days;
    }

-- The two settings that are computed from others.
unfoldable pub derived : System → Config → Config
derived sys c = record c {
  session_ttl = duration c.session_ttl_hours;
  trusted_proxy_nets = parse_trusted_proxies sys c.trusted_proxies;
}

-- What Load makes of the file's settings.
unfoldable pub finish_load : System → Option Config → Option Config
unfolding with_env derived
finish_load sys none = none
finish_load sys (some c) = some (derived sys (with_env sys c))

unfoldable pub load_config : System → Option Config
unfolding finish_load
load_config sys = finish_load sys (file_config sys (sys.getenv (codes "GLIMT_CONFIG")))
