-- ===== src/Sites/Writes.antt =====
-- What the writes of internal/sites/sites.go leave in the registry.
use glimt.Base.{
  ℕ, true, false, not, some, List, [], ◌∷◌, ◌≡◌, ◌≢◌, ◌⊎◌, ◌∙◌, refl, sym, arith, Bytes, ◌==◌, keep,
  keep-passes, All, All-map, Bool-cases, inl, inr,
}
use glimt.Model.{Site}
use glimt.Store.Tables.{Db, Website}
use glimt.Store.Sql.{◌>>=◌, World, ok, exec, insert_checked}
use glimt.Store.Ensures.{Ensures, Ensures-bind, Ensures-query, Ensures-exec, Ensures-insert_checked}
use glimt.Sites.{
  Registry, site_of, registry_of, find_collect, find_script, find_id, find_share, reload, delete,
  regen_tokens, set_public, update_site, set_tokens, with_tokens, unshared,
}
use glimt.Sites.Mirror.{
  IsIndexed, registry_of-IsIndexed, find_collect_sound, find_script_sound, find_share_sound,
  find_id_sound,
}

-- Every website of the table has `P` as a site.
abbrev AllSites : (Site → Type 0) → Db → Type 0
AllSites P db = All (λ row. P (site_of row)) db.websites

reload-IsIndexed : (P : Site → Type 0) → Ensures (AllSites P) reload (λ r db. IsIndexed P r)
unfolding reload
reload-IsIndexed P =
    Ensures-query (AllSites P) (λ r db. IsIndexed P r) (λ db. registry_of db.websites)
      (λ db h. registry_of-IsIndexed P db.websites h)

-- A write and a reload.
write_reload :
    (P : Site → Type 0) (f : Db → Db)
    → ((db : Db) → AllSites P (f db))
    → Ensures (λ _. Unit {0}) (exec f >>= λ _. reload) (λ r db. IsIndexed P r)
write_reload P f h =
    Ensures-bind (λ _. Unit {0}) (λ _. AllSites P) (λ r db. IsIndexed P r) (exec f) (λ _. reload)
      (Ensures-exec (λ _. Unit {0}) (AllSites P) f (λ db _. h db)) (λ _. reload-IsIndexed P)

delete-IsIndexed :
    (id : ℕ) → Ensures (λ _. Unit {0}) (delete id) (λ r db. IsIndexed (λ s. s.id ≢ id) r)
unfolding delete
delete-IsIndexed id =
    write_reload (λ s. s.id ≢ id) _
      (λ db.
        unfold site_of in
        All-map (λ (r : Website). not (r.id == id) ≡ true) (λ r. r.id ≢ id) (λ r h e. ground arith)
          (keep (λ (r : Website). not (r.id == id)) db.websites)
          (keep-passes (λ (r : Website). not (r.id == id)) db.websites))

-- When Delete has returned no error, no lookup, by whatever token or id, finds a site with the id.
pub delete_revokes :
    (id key : ℕ) (w : World) (r : Registry) (tok : Bytes) (s : Site)
    → (delete id w).0 ≡ ok r
    → (find_collect r tok ≡ some s)
      ⊎ (find_script r tok ≡ some s)
      ⊎ (find_share r tok ≡ some s)
      ⊎ (find_id r key ≡ some s)
    → s.id ≢ id
delete_revokes id key w r tok s h found =
    let P : Site → Type 0 = λ t. t.id ≢ id in
    let i = (delete-IsIndexed id).at w r tt h in
    elim found [
      | inl e ↦ (find_collect_sound P r i s tok e).0
      | inr (inl e) ↦ (find_script_sound P r i s tok e).0
      | inr (inr (inl e)) ↦ (find_share_sound P r i s tok e).0
      | inr (inr (inr e)) ↦ (find_id_sound P r i s key e).0
    ]

All-update_site :
    (P : Website → Type 0) (id : ℕ) (set : Website → Website) (rows : List Website)
    → ((r : Website) → r.id ≡ id → P (set r))
    → ((r : Website) → r.id ≢ id → P r)
    → All P (update_site id set rows)
unfolding update_site
All-update_site P id set [] hs hr = tt
All-update_site P id set (x ∷ rows) hs hr = elim (Bool-cases (x.id == id)) [
  | inl e ↦ rw e (hs x (ground arith), All-update_site P id set rows hs hr)
  | inr e ↦ rw e (hr x (ground arith), All-update_site P id set rows hs hr)
]

-- A site under the id has been hidden.
abbrev IsHidden : ℕ → Site → Type 0
IsHidden id s = s.id ≡ id → s.public ≡ false

set_public-IsHidden :
    (id : ℕ) (fresh : Bytes)
    → Ensures (λ _. Unit {0}) (set_public id false fresh) (λ r db. IsIndexed (IsHidden id) r)
unfolding set_public
set_public-IsHidden id fresh = write_reload (IsHidden id) _ (λ db.
    unfold site_of in
    All-update_site (λ r. IsHidden id (site_of r)) id unshared db.websites (λ r e q. refl)
      (λ r ne q. absurd (ne q)))

-- When SetPublic has hidden a site and returned no error, whatever share token still finds the site
-- finds it as not public.
pub set_public_hides :
    (id : ℕ) (fresh : Bytes) (w : World) (r : Registry) (tok : Bytes) (s : Site)
    → (set_public id false fresh w).0 ≡ ok r
    → find_share r tok ≡ some s
    → s.id ≡ id
    → s.public ≡ false
set_public_hides id fresh w r tok s h e =
    (find_share_sound (IsHidden id) r ((set_public-IsHidden id fresh).at w r tt h) s tok e).0

-- A site under the id has the two tokens.
abbrev HasTokens : ℕ → Bytes → Bytes → Site → Type 0
HasTokens id script collect s = s.id ≡ id → (s.script_token ≡ script) × (s.collect_token ≡ collect)

set_tokens-AllSites :
    (id : ℕ) (script collect : Bytes) (db db' : Db)
    → set_tokens id script collect db ≡ some (tt, db')
    → AllSites (HasTokens id script collect) db'
set_tokens-AllSites id script collect db db' e =
    let updated = update_site id (with_tokens script collect) db.websites in
    let q : updated ≡ db'.websites = unfold set_tokens in ground arith in
    rw (← q) (
      unfold site_of in
      All-update_site (λ r. HasTokens id script collect (site_of r)) id (with_tokens script collect)
        db.websites (λ r m n. (refl, refl)) (λ r ne n. absurd (ne n)))

regen-IsIndexed :
    (id : ℕ) (script collect : Bytes)
    → Ensures
        (λ _. Unit {0})
        (regen_tokens id script collect)
        (λ r db. IsIndexed (HasTokens id script collect) r)
unfolding regen_tokens
regen-IsIndexed id script collect =
    Ensures-bind (λ _. Unit {0}) (λ _. AllSites (HasTokens id script collect))
      (λ r db. IsIndexed (HasTokens id script collect) r)
      (insert_checked (set_tokens id script collect)) (λ _. reload)
      (Ensures-insert_checked (λ _. Unit {0}) (λ _. AllSites (HasTokens id script collect))
        (set_tokens id script collect)
        (λ u db db' _ e. set_tokens-AllSites id script collect db db' e))
      (λ _. reload-IsIndexed (HasTokens id script collect))

-- When RegenTokens has returned no error, the site is found under no script or collect token but the
-- two new ones.
pub regen_revokes :
    (id : ℕ) (script collect : Bytes) (w : World) (r : Registry) (tok : Bytes) (s : Site)
    → (regen_tokens id script collect w).0 ≡ ok r
    → s.id ≡ id
    → (find_collect r tok ≡ some s → tok ≡ collect) × (find_script r tok ≡ some s → tok ≡ script)
regen_revokes id script collect w r tok s h own =
    let P : Site → Type 0 = HasTokens id script collect in
    let i = (regen-IsIndexed id script collect).at w r tt h in
    (
      λ e. let (p, q) = find_collect_sound P r i s tok e in sym q ∙ (p own).1,
      λ e. let (p, q) = find_script_sound P r i s tok e in sym q ∙ (p own).0,
    )
