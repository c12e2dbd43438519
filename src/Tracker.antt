-- ===== src/Tracker.antt =====
-- internal/tracker/tracker.go: the script of a website. The embedded snippet.js is an argument.
pub mod Rotation
use glimt.Base.{
  ℕ, zero, suc, ◌-◌, Bool, true, false, not, Option, none, some, List, [], ◌∷◌, ◌++◌, Bytes, codes,
  is_empty, has_prefix, trim_right, length, if◌then◌else◌,
}
use glimt.Model.{Site}
use glimt.Sites.{Registry, find_script}

pub record Handler : Type 0 where
  pub js_global : Bytes
  pub base_url : Bytes

abbrev pub or_glimt : Bytes → Bytes
or_glimt name = if is_empty name then codes "glimt" else name

-- New; TrimRight cuts the slashes at the end.
unfoldable pub new_handler : Bytes → Bytes → Handler
new_handler js_global base_url = record {
  js_global = or_glimt js_global;
  base_url = trim_right 47 base_url;
}

unfoldable pub endpoint_base : Handler → Bytes → Bytes
endpoint_base h host =
    if not (is_empty h.base_url)
    then h.base_url
    else if not (is_empty host)
    then codes "//" ++ host
    else []

-- strings.NewReplacer: the first pair whose key stands here, and how long the key is.
unfoldable pub key_here : List (Bytes × Bytes) → Bytes → Option (Bytes × ℕ)
key_here [] s = none
key_here ((key, value) ∷ pairs) s =
    if has_prefix s key then some (value, length key) else key_here pairs s

-- Replace, after `skip` more bytes of a key; no key is empty.
unfoldable pub replace_from : List (Bytes × Bytes) → ℕ → Bytes → Bytes
unfolding key_here
replace_from pairs skip [] = []
replace_from pairs (suc skip) (c ∷ s) = replace_from pairs skip s
replace_from pairs zero (c ∷ s) = elim (key_here pairs (c ∷ s)) [
  | none ↦ c ∷ replace_from pairs zero s
  | some (value, n) ↦ value ++ replace_from pairs (n - 1) s
]

unfoldable pub render : Bytes → Bytes → Bytes → Bytes → Bytes
unfolding replace_from
render snippet collect_token js_global base =
    replace_from
      ((codes "__CT__", collect_token)
        ∷ (codes "__EP__", base ++ codes "/e/" ++ collect_token)
        ∷ (codes "__G__", or_glimt js_global)
        ∷ [])
      0 snippet

-- Serve: the script, or none for 404.
unfoldable pub serve : Bytes → Handler → Bytes → Registry → Bytes → Option Bytes
unfolding render endpoint_base
serve snippet h host r tok = elim (find_script r tok) [
  | none ↦ none
  | some s ↦ some (render snippet s.collect_token h.js_global (endpoint_base h host))
]
