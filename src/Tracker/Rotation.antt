-- ===== src/Tracker/Rotation.antt =====
-- Serve of internal/tracker/tracker.go, after RegenTokens.
use glimt.Base.{ℕ, Option, none, some, ◌≡◌, ◌≢◌, refl, Bytes}
use glimt.Model.{Site}
use glimt.Store.Sql.{World, ok}
use glimt.Sites.{Registry, find_script, regen_tokens}
use glimt.Sites.Writes.{regen_revokes}
use glimt.Tracker.{Handler, serve, render, endpoint_base}

-- When RegenTokens has returned no error, a script is served under a path that is not the new one only
-- if the registry finds another website there, and it is the script with that website's collect token.
pub serve-regen_tokens :
    (snippet : Bytes) (h : Handler) (host : Bytes) (id : ℕ) (script collect : Bytes) (w : World)
    (r : Registry) (tok body : Bytes)
    → (regen_tokens id script collect w).0 ≡ ok r
    → serve snippet h host r tok ≡ some body
    → tok ≢ script
    → (s : Site) × (find_script r tok ≡ some s)
      × (s.id ≢ id)
      × (body ≡ render snippet s.collect_token h.js_global (endpoint_base h host))
unfolding serve
serve-regen_tokens snippet h host id script collect w r tok body done served other =
    from (find_script r tok) refl served
  where
    from :
        (found : Option Site)
        → find_script r tok ≡ found
        → elim found as (λ _. Option Bytes) [
          | none ↦ none
          | some s ↦ some (render snippet s.collect_token h.js_global (endpoint_base h host))
        ]
          ≡ some body
        → (s : Site) × (find_script r tok ≡ some s)
          × (s.id ≢ id)
          × (body ≡ render snippet s.collect_token h.js_global (endpoint_base h host))
    from none k e = cc
    from (some s) k e =
        (s, k, (λ own. other ((regen_revokes id script collect w r tok s done own).1 k)), cc)
