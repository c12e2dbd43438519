-- ===== src/Web/Shown.antt =====
-- What the routes of internal/web/web.go show to a request that no admin signed.
use glimt.Base.{Bool, true, false, some, ◌≡◌, Bytes}
use glimt.Sites.{Registry, find_share}
use glimt.Dashboard.Page.{Handlers}
use glimt.Dashboard.Handlers.{Page, not_found, failed, index}
use glimt.Web.{Answer, page, settings_shown, reply}

-- A page of a website is one of a public website, found by a token; no other page of the dashboard is
-- shown, and no form of it is answered.
unfoldable pub IsPublic : Registry → Answer → Type 0
IsPublic r (page (index v)) =
    (tok : Bytes) × (find_share r tok ≡ some v.site) × (v.site.public ≡ true)
IsPublic r (page not_found) = Unit
IsPublic r (page failed) = Unit
IsPublic r (page p) = ⊥
IsPublic r (settings_shown v) = ⊥
IsPublic r (reply f) = ⊥
IsPublic r a = Unit

-- The kinds of page that Share answers with.
is_share : Page → Bool
is_share not_found = true
is_share failed = true
is_share (index v) = true
is_share p = false
