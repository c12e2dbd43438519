-- ===== src/Config/Layers.antt =====
-- Which of the defaults, the file and the environment a setting comes from.
use glimt.Base.{Option, none, some, ◌≡◌, refl, sym, ap, ◌∙◌, arith, Bytes, codes}
use glimt.Config.{Config, System, env_str, file_config, with_env, derived, finish_load, load_config}

-- The settings that are texts.
pub data Setting : Type 0 where
  addr db geo_db admin_user admin_pass base_url real_ip_header trusted_proxies js_global : Setting

-- The variable of a setting.
abbrev pub variable : Setting → Bytes
variable addr = codes "GLIMT_ADDR"
variable db = codes "GLIMT_DB"
variable geo_db = codes "GLIMT_GEO_DB"
variable admin_user = codes "GLIMT_ADMIN_USER"
variable admin_pass = codes "GLIMT_ADMIN_PASS"
variable base_url = codes "GLIMT_BASE_URL"
variable real_ip_header = codes "GLIMT_REAL_IP_HEADER"
variable trusted_proxies = codes "GLIMT_TRUSTED_PROXIES"
variable js_global = codes "GLIMT_JS_GLOBAL"

abbrev pub value : Setting → Config → Bytes
value addr c = c.addr
value db c = c.db_path
value geo_db c = c.geo_db_path
value admin_user c = c.admin_user
value admin_pass c = c.admin_pass
value base_url c = c.base_url
value real_ip_header c = c.real_ip_header
value trusted_proxies c = c.trusted_proxies
value js_global c = c.js_global

value-with_env :
    (sys : System) (s : Setting) (c : Config)
    → value s (derived sys (with_env sys c)) ≡ env_str (sys.getenv (variable s)) (value s c)
unfolding with_env derived
value-with_env sys addr c = refl
value-with_env sys db c = refl
value-with_env sys geo_db c = refl
value-with_env sys admin_user c = refl
value-with_env sys admin_pass c = refl
value-with_env sys base_url c = refl
value-with_env sys real_ip_header c = refl
value-with_env sys trusted_proxies c = refl
value-with_env sys js_global c = refl

none-some : (c : Config) → none ≡ some c → ⊥
none-some c h = ground arith

finish_load-value :
    (sys : System) (s : Setting) (o : Option Config) (loaded : Config)
    → finish_load sys o ≡ some loaded
    → (base : Config) × (o ≡ some base)
      × (value s loaded ≡ env_str (sys.getenv (variable s)) (value s base))
unfolding finish_load
finish_load-value sys s none loaded h = absurd (none-some loaded h)
finish_load-value sys s (some c) loaded h =
    let q : derived sys (with_env sys c) ≡ loaded = cc in
    (c, refl, ap (value s) (sym q) ∙ value-with_env sys s c)

-- Where Load returns settings, each of the nine texts among them is the value of its own environment
-- variable, or, where that is empty, what the file over the defaults has.
pub load_config-value :
    (sys : System) (s : Setting) (loaded : Config)
    → load_config sys ≡ some loaded
    → (base : Config) × (file_config sys (sys.getenv (codes "GLIMT_CONFIG")) ≡ some base)
      × (value s loaded ≡ env_str (sys.getenv (variable s)) (value s base))
unfolding load_config
load_config-value sys s loaded h =
    finish_load-value sys s (file_config sys (sys.getenv (codes "GLIMT_CONFIG"))) loaded h
