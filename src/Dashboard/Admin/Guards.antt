-- ===== src/Dashboard/Admin/Guards.antt =====
-- The writing handlers of internal/dashboard/admin.go, with what they write.
use glimt.Base.{
  ℕ, zero, suc, ◌≢◌, true, some, [], ◌∷◌, ◌++◌, ◌≡◌, refl, sym, ap, ◌∙◌, arith, Bytes, codes,
  same_iff, has_prefix, trim_prefix, take, drop, ltb, if◌then◌else◌, Bool-cases, inl, inr,
}
use glimt.Base.Int.{pos}
use glimt.Model.{Site}
use glimt.Store.Tables.{Db}
use glimt.Store.Sql.{sound, exec, query}
use glimt.Sites.{Registry, delete, find_collect, reload}
use glimt.Sites.Writes.{delete_revokes}
use glimt.Query.Funnel.{Step}
use glimt.Dashboard.Page.{Handlers}
use glimt.Dashboard.Admin.{Form, form_id, guarded, site_delete, step_of_field}

-- What a user typed for a step.
abbrev step_text : Step → Bytes
step_text s = if s.is_url then s.name else codes "event:" ++ s.name

take-drop : (n : ℕ) (s : Bytes) → take n s ++ drop n s ≡ s
take-drop zero s = refl
take-drop (suc n) [] = refl
take-drop (suc n) (c ∷ s) = ap (λ xs. c ∷ xs) (take-drop n s)

-- The step that a funnel stores says what was typed: a name after "event:", or a path.
step_text-step_of_field : (v : Bytes) → step_text (step_of_field v) ≡ v
unfolding step_of_field trim_prefix has_prefix
step_text-step_of_field v = elim (Bool-cases (has_prefix v (codes "event:"))) [
  | inl e ↦
      let head : take 6 v ≡ codes "event:" =
        (same_iff (take 6 v) (codes "event:")).0 (ground arith) in
      rw e (ap (λ xs. xs ++ drop 6 v) (sym head) ∙ take-drop 6 v)
  | inr e ↦ rw e refl
]

one_is_positive : (n : ℕ) → ltb 0 (suc n) ≡ true
one_is_positive n = ground arith

-- Where nothing fails, a form with the number of a website deletes it: the registry in use afterwards
-- finds no website with that number under any collect token.
pub site_delete-revokes :
    (h : Handlers) (f : Form) (reg : Registry) (db : Db) (n : ℕ) (tok : Bytes) (s : Site)
    → form_id h f ≡ pos (suc n)
    → find_collect (site_delete h f (record { registry = reg; world = sound db })).1.registry tok
      ≡ some s
    → s.id ≢ suc n
unfolding site_delete guarded delete exec reload query
site_delete-revokes h f reg db n tok s e found =
    delete_revokes (suc n) 0 (sound db) _ tok s refl (inl (rw (e, one_is_positive n) at found))
