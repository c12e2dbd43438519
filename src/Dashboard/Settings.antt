-- ===== src/Dashboard/Settings.antt =====
-- internal/dashboard/admin.go: the page of the settings, as far as it does not make HTML.
use glimt.Base.{Bool, ◌&&◌, not, List, [], ◌++◌, map, Bytes, codes, is_empty, if◌then◌else◌}
use glimt.Model.{Site}
use glimt.Store.Sql.{World, Result, ok, err}
use glimt.Sites.{Registry, all}
use glimt.Auth.{User, list_users}
use glimt.Dashboard.Page.{Handlers}

pub record SiteSetting : Type 0 where
  pub site : Site
  pub script_url : Bytes
  pub snippet : Bytes
  pub pixel_snippet : Bytes
  pub share_url : Bytes

-- viewData, as the settings fill it in.
pub record SettingsView : Type 0 where
  pub title : Bytes
  pub sites : List Site
  pub site_rows : List SiteSetting
  pub users : List User
  pub geo_enabled : Bool
  pub new_api_key : Bytes
  pub base_url : Bytes

-- The configured base URL, or one from the host of the request.
unfoldable pub base_for : Handlers → Bytes → Bytes
base_for h host = if is_empty h.base_url then codes "//" ++ host else h.base_url

-- The body of the loop over the websites.
unfoldable pub site_setting : Bytes → Site → SiteSetting
site_setting base s = record {
  site = s;
  script_url = base ++ codes "/s/" ++ s.script_token ++ codes ".js";
  snippet =
      codes "<script defer src=\""
      ++ base
      ++ codes "/s/"
      ++ s.script_token
      ++ codes ".js\"></script>";
  pixel_snippet =
      codes "<img src=\""
      ++ base
      ++ codes "/pixel/"
      ++ s.collect_token
      ++ codes ".gif\" alt=\"\" />";
  share_url =
      if s.public && not (is_empty s.share_token) then base ++ codes "/p/" ++ s.share_token else [];
}

unfoldable pub settings_view : Handlers → Bytes → Bytes → Registry → List User → SettingsView
unfolding base_for site_setting
settings_view h host new_api_key r users = record {
  title = codes "Settings";
  sites = all r;
  site_rows = map (site_setting (base_for h host)) (all r);
  users = users;
  geo_enabled = h.geo_enabled;
  new_api_key = new_api_key;
  base_url = base_for h host;
}

-- `users, _ := …`: nil where the query fails
abbrev pub or_none : Result (List User) → List User
or_none (ok users) = users
or_none (err e) = []

unfoldable pub render_settings : Handlers → Bytes → Bytes → Registry → World → SettingsView × World
unfolding settings_view
render_settings h host new_api_key r w =
    let (users, w') = list_users w in (settings_view h host new_api_key r (or_none users), w')

unfoldable pub settings : Handlers → Bytes → Registry → World → SettingsView × World
unfolding render_settings
settings h host r w = render_settings h host [] r w
