-- ===== src/Dashboard/Admin.antt =====
-- internal/dashboard/admin.go: the handlers that write.
--
-- A form is none where ParseForm fails; FormValue is '' for a field that is not there, and FormValue
-- reads what could be parsed. A handler takes and gives the registry, which a failing write leaves.
pub mod Guards
pub mod Staffed
use Prim.Native.String.{String}
use glimt.Base.{
  ℕ, Bool, true, false, not, Option, none, some, List, [], ◌∷◌, ◌++◌, Bytes, codes, same, is_empty,
  has_prefix, trim_prefix, ◌&&◌, ◌||◌, ltb, if◌then◌else◌,
}
use glimt.Base.Int.{ℤ, pos, negsuc}
use glimt.Model.{Site}
use glimt.Store.Sql.{Sql, World, Result, ok, err, ignore, Error, panicked}
use glimt.Sites.{Registry, Drawn, create, delete, regen_tokens, set_public}
use glimt.Auth.{
  Auth, Crypto, Cookie, User, login, logout, create_user, delete_user, list_users, set_cookie,
  clear_cookie,
}
use glimt.Query.{or_before}
use glimt.Query.Funnel.{Step, create_funnel, delete_funnel}
use glimt.Dashboard.Page.{Handlers}
use glimt.Dashboard.Settings.{SettingsView, render_settings}

-- The fields of a request's form.
pub record Form : Type 0 where
  pub parsed : Bool
  pub value : Bytes → Bytes

abbrev pub field : Form → String → Bytes
field f name = f.value (codes name)

pub data Reply : Type 0 where
  bad_form failed login_page : Reply
  see_other : Bytes → Reply
  settings_page : SettingsView → Reply

pub record State : Type 0 where
  pub registry : Registry
  pub world : World

-- strconv.ParseInt of the field; its error is left aside.
unfoldable pub form_id : Handlers → Form → ℤ
form_id h f = if f.parsed then (h.numbers.parse_int (field f "id")).0 else pos 0

-- `if id > 0 { _ = write(id) }` for a write that reloads the registry
unfoldable pub guarded : ℤ → (ℕ → Sql Registry) → State → State
guarded (negsuc n) write s = s
guarded (pos n) write s =
    let (r, w) = write n s.world in
    let written : State = elim r [
      | ok reg ↦ record { registry = reg; world = w }
      | err e ↦ record s { world = w }
    ] in
    if ltb 0 n then written else s

unfoldable pub site_delete : Handlers → Form → State → Reply × State
unfolding guarded form_id
site_delete h f s = (see_other (codes "/settings"), guarded (form_id h f) delete s)

unfoldable pub site_regen : Handlers → Form → Bytes → Bytes → State → Reply × State
unfolding guarded form_id
site_regen h f script collect s =
    (see_other (codes "/settings"), guarded (form_id h f) (λ id. regen_tokens id script collect) s)

unfoldable pub site_public : Handlers → Form → Bytes → State → Reply × State
unfolding guarded form_id
site_public h f fresh s = (
  see_other (codes "/settings"),
  guarded (form_id h f) (λ id. set_public id (same (field f "public") (codes "1")) fresh) s,
)

-- The page is made from the registry that Create has reloaded.
unfoldable pub key_page : Handlers → Bytes → Bytes → Registry → World → Reply × State
key_page h host key reg w =
    let (v, w') = render_settings h host key reg w in
    (settings_page v, record { registry = reg; world = w' })

unfoldable pub site_create :
    Handlers → (Bytes → Bytes) → ℕ → Drawn → Bytes → Form → State → Reply × State
unfolding key_page
site_create h hash_key now d host f s =
    let (r, w) = create hash_key now d (field f "name") (field f "domain") s.world in
    let made : Reply × State = elim r [
      | ok (site, key, reg) ↦ key_page h host key reg w
      | err e ↦ (failed, record s { world = w })
    ] in
    if not f.parsed
    then (bad_form, s)
    else if is_empty (field f "name")
    then (see_other (codes "/settings"), s)
    else made

unfoldable pub user_create : Crypto → Option Bytes → Form → World → Reply × World
user_create c salt f w =
    let user = field f "username" in
    let pass = field f "password" in
    let created = (ignore (create_user c salt user pass (field f "role")) w).1 in
    if not f.parsed then (bad_form, w) else (
      see_other (codes "/settings"),
      if not (is_empty user) && not (is_empty pass) then created else w,
    )

-- `if id > 0 { _ = write(id) }` for the other writes
unfoldable pub guarded_write : ℤ → (ℕ → Sql (Unit {0})) → World → World
guarded_write (negsuc n) write w = w
guarded_write (pos n) write w =
    let written = (ignore (write n) w).1 in if ltb 0 n then written else w

unfoldable pub user_delete : Handlers → Form → World → Reply × World
unfolding guarded_write form_id
user_delete h f w = (see_other (codes "/settings"), guarded_write (form_id h f) delete_user w)

-- A step of a funnel: an event after the prefix "event:", a path without it.
unfoldable pub step_of_field : Bytes → Step
step_of_field v = record {
  name = trim_prefix v (codes "event:");
  is_url = not (has_prefix v (codes "event:"));
}

unfoldable pub steps_of_form : Form → List Step
unfolding step_of_field
steps_of_form f =
    let third = if is_empty (field f "step3") then [] else step_of_field (field f "step3") ∷ [] in
    step_of_field (field f "step1") ∷ step_of_field (field f "step2") ∷ third

unfoldable pub make_funnel : Handlers → ℕ → ℤ → Form → World → World
unfolding steps_of_form
make_funnel h now (negsuc n) f w = w
make_funnel h now (pos n) f w =
    let made = (ignore (create_funnel h.json now n (field f "name") (steps_of_form f)) w).1 in
    if ltb 0 n
      && not (is_empty (field f "name"))
      && not (is_empty (field f "step1"))
      && not (is_empty (field f "step2"))
    then made
    else w

-- `itoa` is FormatInt of the site's number.
unfoldable pub funnel_create : Handlers → (ℤ → Bytes) → ℕ → Form → World → Reply × World
unfolding make_funnel
funnel_create h itoa now f w =
    let site = (h.numbers.parse_int (field f "site_id")).0 in
    if not f.parsed
    then (bad_form, w)
    else (see_other (codes "/?site=" ++ itoa site), make_funnel h now site f w)

unfoldable pub funnel_delete : Handlers → Form → World → Reply × World
unfolding guarded_write form_id
funnel_delete h f w =
    (see_other (codes "/?site=" ++ field f "site_id"), guarded_write (form_id h f) delete_funnel w)

-- A panic of the random source is answered by an error, any other error by the page.
refused : Error → Reply
refused panicked = failed
refused e = login_page

-- Login: the page again, or a cookie and the way to the start page.
unfoldable pub log_in :
    Crypto → Auth → ℕ → Option Bytes → Form → World → Reply × Option Cookie × World
unfolding refused
log_in c a now random f w =
    let (r, w') = login c a now random (field f "username") (field f "password") w in
    let tried : Reply × Option Cookie × World = elim r [
      | ok tok ↦ (see_other (codes "/"), some (set_cookie a now tok), w')
      | err e ↦ (refused e, none, w')
    ] in
    if not f.parsed then (bad_form, none, w) else tried

-- Logout, with the value of the session's cookie if there is one
unfoldable pub log_out : Auth → Option Bytes → World → Reply × Cookie × World
log_out a none w = (see_other (codes "/login"), clear_cookie a, w)
log_out a (some tok) w = (see_other (codes "/login"), clear_cookie a, (logout tok w).1)
