-- ===== src/Tests/Config.antt =====
-- internal/config/config.go: an environment with one variable and unreadable proxies.
use glimt.Base.{
  true, false, none, some, [], ◌≡◌, refl, codes, All, same, split, prepend, trim_space, is_empty,
  to_lower, if◌then◌else◌,
}
use glimt.Config.{
  System, Config, defaults, file_config, with_env, derived, finish_load, load_config, proxy_nets,
  address, parse_trusted_proxies,
}
use glimt.Config.Proxies.{unreadable_proxies_trust_all}
use glimt.Ingest.Collector.{trust_peer, Settings}
use glimt.Tests.Enrich.{external}

-- GLIMT_ADDR is :80 and nothing else is set; no network can be read.
abbrev pub system : System
system = record {
  getenv = λ k. if same k (codes "GLIMT_ADDR") then codes ":80" else [];
  read_file = λ p. none;
  unmarshal = λ b c. none;
  atoi = λ s. none;
  unicode = record { lower_wide = λ s. s; upper_wide = λ s. s };
  parse_cidr = λ s. none;
  parse_ip = λ s. none;
  is_v4 = λ s. false;
  ip_string = λ s. s;
}

abbrev loaded : Config
loaded = derived system (with_env system defaults)

loads : load_config system ≡ some loaded
unfolding load_config finish_load file_config same
loads = refl

-- A misspelt keyword.
unreadable : All (λ part. proxy_nets system part ≡ []) (split b',' (codes "cloudfare"))
unfolding split prepend proxy_nets address trim_space is_empty to_lower same
unreadable = (refl, tt)

abbrev settings : Settings
settings = record {
  real_ip_header = codes "X-Forwarded-For";
  trusted_nets = parse_trusted_proxies system (codes "cloudfare");
  cf_country = false;
  split_host = λ s. some s;
  unmarshal = λ s. none;
}

unreadable_proxies_trust_all_example : trust_peer external settings (codes "9.9.9.9") ≡ true
unreadable_proxies_trust_all_example =
    unreadable_proxies_trust_all system (codes "cloudfare") external settings (codes "9.9.9.9")
      unreadable refl
