-- ===== src/Referrer/Order.antt =====
-- The class of a referrer, and on what it depends.
use mathlib.Core.List.{Permᴰ}
use glimt.Base.{
  Bool, true, false, ◌||◌, Option, none, some, [], ◌∷◌, ◌++◌, ◌≡◌, ◌≢◌, refl, sym, ap, ◌∙◌, arith,
  Bytes, codes, Unicode, contains, same,
}
use glimt.Model.{ref_referral}
use glimt.Referrer.{
  Table, search_engines, social_networks, first_match, by_host, by_url, classify, host_name,
}

abbrev is_some : Option Bytes → Bool
is_some none = false
is_some (some v) = true

first_match-cons :
    (host : Bytes) (e : Bytes × Bytes) (t : Table)
    → is_some (first_match host (e ∷ t)) ≡ (contains host e.0 || is_some (first_match host t))
unfolding first_match
first_match-cons host e t = ground arith

-- Whether any key matches does not depend on the order of the table.
first_match-perm :
    (host : Bytes) {t t' : Table}
    → Permᴰ t t'
    → is_some (first_match host t) ≡ is_some (first_match host t')
first_match-perm host Permᴰ.nil = refl
first_match-perm host (Permᴰ.cons {a = a} {b = b} {l₁ = l₁} {l₂ = l₂} e p) = ground (
  arith,
  first_match-cons host a l₁,
  first_match-cons host b l₂,
  first_match-perm host p,
  ap (λ (q : Bytes × Bytes). contains host q.0) e,
)
first_match-perm host (Permᴰ.swap {a = a} {b = b} {a' = a'} {b' = b'} {l = l} e d) = ground (
  arith,
  first_match-cons host a (b ∷ l),
  first_match-cons host b l,
  first_match-cons host a' (b' ∷ l),
  first_match-cons host b' l,
  ap (λ (q : Bytes × Bytes). contains host q.0) e,
  ap (λ (q : Bytes × Bytes). contains host q.0) d,
)
first_match-perm host (Permᴰ.trans p q) = first_match-perm host p ∙ first_match-perm host q

by_host_class :
    (u : Unicode) (engines networks engines' networks' : Table) (host own : Bytes)
    → is_some (first_match host engines) ≡ is_some (first_match host engines')
    → is_some (first_match host networks) ≡ is_some (first_match host networks')
    → (by_host u engines networks host own).0 ≡ (by_host u engines' networks' host own).0
unfolding by_host
by_host_class u engines networks engines' networks' host own e n = ground arith

by_url_class :
    (u : Unicode) {engines networks : Table} (own : Bytes) (o : Option Bytes)
    → Permᴰ search_engines engines
    → Permᴰ social_networks networks
    → (by_url u engines networks own o).0 ≡ (by_url u search_engines social_networks own o).0
unfolding by_url
by_url_class u own none pe pn = refl
by_url_class u {engines} {networks} own (some host) pe pn =
    let name = host_name u host in
    ground (
      arith,
      by_host_class u engines networks search_engines social_networks name own
          (sym (first_match-perm name pe)) (sym (first_match-perm name pn)),
    )

-- Whatever the orders in which Go goes through its two tables, a referrer has the same class. (Its
-- source may differ.)
class-perm :
    (u : Unicode) (url_host : Bytes → Option Bytes) {engines networks : Table} (ref own : Bytes)
    → Permᴰ search_engines engines
    → Permᴰ social_networks networks
    → (classify u url_host engines networks ref own).0
      ≡ (classify u url_host search_engines social_networks ref own).0
unfolding classify
class-perm u url_host [] own pe pn = refl
class-perm u url_host (c ∷ ref) own pe pn = by_url_class u own (url_host (c ∷ ref)) pe pn

contains-append : (p s sub : Bytes) → contains s sub ≡ true → contains (p ++ s) sub ≡ true
unfolding contains
contains-append [] s sub h = h
contains-append (c ∷ p) s sub h = ground (arith, contains-append p s sub h)

t_com_matches : (p : Bytes) → is_some (first_match (p ++ codes "t.com") social_networks) ≡ true
t_com_matches p =
    let host = p ++ codes "t.com" in
    let has : contains host (codes "t.co") ≡ true =
      contains-append p (codes "t.com") (codes "t.co") (unfold contains same in refl) in
    unfold first_match in rw has

-- The key "t.co" is looked for anywhere in a host, so no host that ends in "t.com", such as
-- microsoft.com, is ever a plain referral.
pub t_com_never_referral :
    (u : Unicode) (p own : Bytes)
    → (by_host u search_engines social_networks (p ++ codes "t.com") own).0 ≢ ref_referral
unfolding by_host
t_com_never_referral u p own e = ground (arith, t_com_matches p)
