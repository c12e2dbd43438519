-- ===== src/Dashboard/Admin/Staffed.antt =====
-- The writing handlers of internal/dashboard/admin.go keep an admin.
use glimt.Base.{
  ℕ, Bool, true, false, not, ◌&&◌, ◌||◌, Option, some, List, ◌≡◌, refl, Bytes, is_empty, ltb,
  if◌then◌else◌, Bool-cases, inl, inr,
}
use glimt.Base.Int.{ℤ, pos, negsuc}
use glimt.Store.Tables.{Db, Website, next_id}
use glimt.Store.Sql.{Sql, World, Result-cases, ignore}
use glimt.Store.Keeps.{
  Keeps, Keeps-pure, Keeps-query, Keeps-insert, Keeps-confirm, Keeps-insert_checked, Keeps-exec,
  Keeps-bind,
}
use glimt.Sites.{
  Registry, Drawn, insert_site, uuid_taken, clashes, has_id, set_tokens, reload, create, delete,
  regen_tokens, set_public,
}
use glimt.Auth.{Crypto, delete_user}
use glimt.Auth.Admins.{IsStaffed, create_user-IsStaffed, delete_user-IsStaffed}
use glimt.Query.Funnel.{Json, Step, create_funnel, delete_funnel}
use glimt.Dashboard.Page.{Handlers}
use glimt.Dashboard.Handlers.Reading.{render_settings-Keeps}
use glimt.Dashboard.Admin.{
  Form, field, Reply, bad_form, State, form_id, guarded, guarded_write, key_page, site_create,
  site_delete, site_regen, site_public, user_create, user_delete, make_funnel, funnel_create,
  funnel_delete, steps_of_form,
}

-- The admins are all that counts.
pub same_admins : (db db' : Db) → db'.admins ≡ db.admins → IsStaffed db → IsStaffed db'
same_admins db db' e s = record {
  distinct = λ id. rw e (s.distinct id);
  some_admin = rw e s.some_admin;
}

reload-Keeps : Keeps IsStaffed reload
unfolding reload
reload-Keeps = Keeps-query IsStaffed _

insert_site-admins :
    (row : Website) (id : ℕ) (db db' : Db)
    → insert_site row db ≡ some (id, db')
    → db'.admins ≡ db.admins
unfolding insert_site
insert_site-admins row id db db' h =
    elim (Bool-cases (
      uuid_taken row.uuid db.websites
      || clashes (next_id (λ (r : Website). r.id) db.websites) row.script_token row.collect_token
          db.websites)) [
            | inl e ↦ cc (rw (insert_site, e) at h)
            | inr e ↦ cc (rw (insert_site, e) at h)
          ]

set_tokens-admins :
    (id : ℕ) (script collect : Bytes) (u : Unit {0}) (db db' : Db)
    → set_tokens id script collect db ≡ some (u, db')
    → db'.admins ≡ db.admins
unfolding set_tokens
set_tokens-admins id script collect u db db' h =
    elim (Bool-cases (has_id id db.websites && clashes id script collect db.websites)) [
      | inl e ↦ cc (rw (set_tokens, e) at h)
      | inr e ↦ cc (rw (set_tokens, e) at h)
    ]

create-Keeps :
    (hash_key : Bytes → Bytes) (now : ℕ) (d : Drawn) (name domain : Bytes)
    → Keeps IsStaffed (create hash_key now d name domain)
unfolding create
create-Keeps hash_key now d name domain =
    Keeps-bind IsStaffed _ _
      (Keeps-insert_checked IsStaffed _
        (λ id db db' s h. same_admins db db' (insert_site-admins _ id db db' h) s))
      (λ inserted.
        Keeps-bind IsStaffed _ _ (Keeps-confirm IsStaffed inserted)
          (λ id. Keeps-bind IsStaffed _ _ reload-Keeps (λ r. Keeps-pure IsStaffed _)))

delete-Keeps : (id : ℕ) → Keeps IsStaffed (delete id)
unfolding delete
delete-Keeps id =
    Keeps-bind IsStaffed _ _ (Keeps-exec IsStaffed _ (λ db. same_admins db _ refl))
      (λ _. reload-Keeps)

regen_tokens-Keeps :
    (id : ℕ) (script collect : Bytes) → Keeps IsStaffed (regen_tokens id script collect)
unfolding regen_tokens
regen_tokens-Keeps id script collect =
    Keeps-bind IsStaffed _ _
      (Keeps-insert_checked IsStaffed _
        (λ u db db' s h. same_admins db db' (set_tokens-admins id script collect u db db' h) s))
      (λ _. reload-Keeps)

set_public-Keeps :
    (id : ℕ) (public : Bool) (fresh : Bytes) → Keeps IsStaffed (set_public id public fresh)
unfolding set_public
set_public-Keeps id public fresh =
    Keeps-bind IsStaffed _ _ (Keeps-exec IsStaffed _ (λ db. same_admins db _ refl))
      (λ _. reload-Keeps)

create_funnel-Keeps :
    (json : Json) (now site : ℕ) (name : Bytes) (steps : List Step)
    → Keeps IsStaffed (create_funnel json now site name steps)
unfolding create_funnel
create_funnel-Keeps json now site name steps =
    Keeps-bind IsStaffed _ _ (Keeps-insert IsStaffed _ (λ db. same_admins db _ refl))
      (λ id. Keeps-bind IsStaffed _ _ (Keeps-confirm IsStaffed id) (λ _. Keeps-pure IsStaffed _))

delete_funnel-Keeps : (id : ℕ) → Keeps IsStaffed (delete_funnel id)
unfolding delete_funnel
delete_funnel-Keeps id = Keeps-exec IsStaffed _ (λ db. same_admins db _ refl)

choose : {A : Type 0} (P : A → Type 0) (b : Bool) (x y : A) → P x → P y → P (if b then x else y)
choose P true x y px py = px
choose P false x y px py = py

guarded-Keeps :
    (id : ℤ) (write : ℕ → Sql Registry) (s : State)
    → ((n : ℕ) → Keeps IsStaffed (write n))
    → IsStaffed s.world.db
    → IsStaffed (guarded id write s).world.db
unfolding guarded
guarded-Keeps (negsuc n) write s k p = p
guarded-Keeps (pos n) write s k p =
    let kept = (k n).at s.world p in
    choose (λ (t : State). IsStaffed t.world.db) (ltb 0 n) _ s
      (elim (Result-cases (write n s.world).0) [
        | inl (reg, q) ↦ rw q kept
        | inr (x, q) ↦ rw q kept
      ])
      p

guarded_write-Keeps :
    (id : ℤ) (write : ℕ → Sql (Unit {0})) (w : World)
    → ((n : ℕ) → Keeps IsStaffed (write n))
    → IsStaffed w.db
    → IsStaffed (guarded_write id write w).db
unfolding guarded_write ignore
guarded_write-Keeps (negsuc n) write w k p = p
guarded_write-Keeps (pos n) write w k p =
    choose (λ (v : World). IsStaffed v.db) (ltb 0 n) _ w ((k n).at w p) p

make_funnel-Keeps :
    (h : Handlers) (now : ℕ) (site : ℤ) (f : Form) (w : World)
    → IsStaffed w.db
    → IsStaffed (make_funnel h now site f w).db
unfolding make_funnel ignore
make_funnel-Keeps h now (negsuc n) f w p = p
make_funnel-Keeps h now (pos n) f w p =
    choose (λ (v : World). IsStaffed v.db) _ _ w
      ((create_funnel-Keeps h.json now n (field f "name") (steps_of_form f)).at w p) p

module _ (h : Handlers) (f : Form) where
  module _ (s : State) (p : IsStaffed s.world.db) where
    pub site_delete-Keeps : IsStaffed (site_delete h f s).1.world.db
    unfolding site_delete
    site_delete-Keeps = guarded-Keeps (form_id h f) delete s delete-Keeps p

    pub site_regen-Keeps :
        (script collect : Bytes) → IsStaffed (site_regen h f script collect s).1.world.db
    unfolding site_regen
    site_regen-Keeps script collect =
        guarded-Keeps (form_id h f) (λ id. regen_tokens id script collect) s
          (λ id. regen_tokens-Keeps id script collect) p

    pub site_public-Keeps : (fresh : Bytes) → IsStaffed (site_public h f fresh s).1.world.db
    unfolding site_public
    site_public-Keeps fresh = guarded-Keeps (form_id h f) _ s (λ id. set_public-Keeps id _ fresh) p

    pub site_create-Keeps :
        (hash_key : Bytes → Bytes) (now : ℕ) (d : Drawn) (host : Bytes)
        → IsStaffed (site_create h hash_key now d host f s).1.world.db
    unfolding site_create key_page
    site_create-Keeps hash_key now d host =
        let made = create hash_key now d (field f "name") (field f "domain") in
        let kept = (create-Keeps hash_key now d (field f "name") (field f "domain")).at s.world p in
        let page = render_settings-Keeps IsStaffed h host in
        choose (λ (r : Reply × State). IsStaffed r.1.world.db) (not f.parsed) _ _ p
          (choose (λ (r : Reply × State). IsStaffed r.1.world.db) (is_empty (field f "name")) _ _ p
            (elim (Result-cases (made s.world).0) [
              | inl ((site, key, reg), q) ↦ rw q (page key reg (made s.world).1 kept)
              | inr (x, q) ↦ rw q kept
            ]))

  module _ (w : World) (p : IsStaffed w.db) where
    pub user_delete-Keeps : IsStaffed (user_delete h f w).1.db
    unfolding user_delete
    user_delete-Keeps = guarded_write-Keeps (form_id h f) delete_user w delete_user-IsStaffed p

    pub user_create-Keeps :
        (c : Crypto) (salt : Option Bytes) → IsStaffed (user_create c salt f w).1.db
    unfolding user_create ignore
    user_create-Keeps c salt =
        let kept =
          (create_user-IsStaffed c salt (field f "username") (field f "password")
              (field f "role")).at
            w p in
        choose (λ (r : Reply × World). IsStaffed r.1.db) (not f.parsed) _ _ p
          (choose (λ (v : World). IsStaffed v.db) _ _ w kept p)

    pub funnel_delete-Keeps : IsStaffed (funnel_delete h f w).1.db
    unfolding funnel_delete
    funnel_delete-Keeps = guarded_write-Keeps (form_id h f) delete_funnel w delete_funnel-Keeps p

    pub funnel_create-Keeps :
        (itoa : ℤ → Bytes) (now : ℕ) → IsStaffed (funnel_create h itoa now f w).1.db
    unfolding funnel_create
    funnel_create-Keeps itoa now =
        choose (λ (r : Reply × World). IsStaffed r.1.db) (not f.parsed) (bad_form, w) _ p
          (make_funnel-Keeps h now ((h.numbers.parse_int (field f "site_id")).0) f w p)
