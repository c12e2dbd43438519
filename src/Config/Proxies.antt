-- ===== src/Config/Proxies.antt =====
-- The trusted proxies of internal/config/config.go.
use glimt.Base.{
  ℕ, true, List, [], ◌∷◌, ◌++◌, ◌≡◌, refl, sym, ap, ◌∙◌, arith, append_assoc, Bytes, split, prepend,
  ◌==◌, All, Bool-cases, inl, inr,
}
use glimt.Config.{System, proxy_nets, all_proxy_nets, parse_trusted_proxies}
use glimt.Ingest.Enrich.{External}
use glimt.Ingest.Collector.{Settings, trust_peer}

split-cons : (sep : ℕ) (s : Bytes) → (p : Bytes) × (parts : List Bytes) × (split sep s ≡ p ∷ parts)
unfolding split prepend
split-cons sep [] = ([], [], refl)
split-cons sep (c ∷ s) = elim (Bool-cases (c == sep)) [
  | inl e ↦ ([], split sep s, rw e refl)
  | inr e ↦ let (p, parts, q) = split-cons sep s in (c ∷ p, parts, rw (e, q) refl)
]

split-append : (sep : ℕ) (a b : Bytes) → split sep (a ++ sep ∷ b) ≡ split sep a ++ split sep b
unfolding split prepend
split-append sep [] b = ground arith
split-append sep (c ∷ a) b = elim (Bool-cases (c == sep)) [
  | inl e ↦ rw (e, split-append sep a b) refl
  | inr e ↦ let (p, parts, q) = split-cons sep a in rw (e, split-append sep a b, q) refl
]

all_proxy_nets-append :
    (sys : System) (a b : List Bytes)
    → all_proxy_nets sys (a ++ b) ≡ all_proxy_nets sys a ++ all_proxy_nets sys b
unfolding all_proxy_nets
all_proxy_nets-append sys [] b = refl
all_proxy_nets-append sys (p ∷ a) b =
    ap (λ r. proxy_nets sys p ++ r) (all_proxy_nets-append sys a b)
    ∙ sym (append_assoc (proxy_nets sys p) (all_proxy_nets sys a) (all_proxy_nets sys b))

-- The networks of a list with a comma are those before the comma and then those after it: each entry
-- counts by itself, wherever it stands.
pub parse_trusted_proxies-append :
    (sys : System) (a b : Bytes)
    → parse_trusted_proxies sys (a ++ b',' ∷ b)
      ≡ parse_trusted_proxies sys a ++ parse_trusted_proxies sys b
unfolding parse_trusted_proxies
parse_trusted_proxies-append sys a b =
    ap (all_proxy_nets sys) (split-append b',' a b)
    ∙ all_proxy_nets-append sys (split b',' a) (split b',' b)

all_proxy_nets-none :
    (sys : System) (parts : List Bytes)
    → All (λ part. proxy_nets sys part ≡ []) parts
    → all_proxy_nets sys parts ≡ []
unfolding all_proxy_nets
all_proxy_nets-none sys [] h = refl
all_proxy_nets-none sys (p ∷ parts) h = rw (h.0, all_proxy_nets-none sys parts h.1) refl

-- A list of trusted proxies of which no entry can be read is as good as none: the collector then
-- trusts the header of every peer.
pub unreadable_proxies_trust_all :
    (sys : System) (raw : Bytes) (e : External) (c : Settings) (ip : Bytes)
    → All (λ part. proxy_nets sys part ≡ []) (split b',' raw)
    → c.trusted_nets ≡ parse_trusted_proxies sys raw
    → trust_peer e c ip ≡ true
unfolding parse_trusted_proxies trust_peer
unreadable_proxies_trust_all sys raw e c ip h n =
    let q : c.trusted_nets ≡ [] = n ∙ all_proxy_nets-none sys (split b',' raw) h in
    rw (trust_peer, q) refl
