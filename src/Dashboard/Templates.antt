-- ===== src/Dashboard/Templates.antt =====
-- internal/dashboard/dashboard.go: the templates that New parses and render looks up.
--
-- html/template, which the repository only calls, is the argument `parses`: whether the files of a page
-- parse.
use glimt.Base.{
  Bool, false, Option, none, some, List, [], ◌∷◌, ◌++◌, ◌||◌, ◌≡◌, refl, Bytes, codes, same,
  if◌then◌else◌, Bool-cases, inl, inr, ℕ, All, ◌∙◌, append-nil, append_assoc,
}

abbrev pub page_names : List Bytes
page_names = codes "home" ∷ codes "index" ∷ codes "login" ∷ codes "settings" ∷ []

-- The loop of parseTemplates; `done` are the pages that have been parsed.
unfoldable pub parse_pages : (Bytes → Bool) → List Bytes → List Bytes → Option (List Bytes)
parse_pages parses [] done = some done
parse_pages parses (page ∷ pages) done =
    let rest = parse_pages parses pages (done ++ page ∷ []) in if parses page then rest else none

-- New: the pages that have a template, or an error
unfoldable pub parse_templates : (Bytes → Bool) → Option (List Bytes)
unfolding parse_pages
parse_templates parses = parse_pages parses page_names []

unfoldable pub has_page : Bytes → List Bytes → Bool
has_page page [] = false
has_page page (p ∷ pages) = same p page || has_page page pages

-- The status that render answers with.
unfoldable pub render_status : List Bytes → Bytes → ℕ
unfolding has_page
render_status pages page = if has_page page pages then 200 else 500

parse_pages-some :
    (parses : Bytes → Bool) (names done pages : List Bytes)
    → parse_pages parses names done ≡ some pages
    → pages ≡ done ++ names
unfolding parse_pages
parse_pages-some parses [] done pages h = cc (append-nil done, h)
parse_pages-some parses (n ∷ names) done pages h = elim (Bool-cases (parses n)) [
  | inl e ↦
      parse_pages-some parses names (done ++ n ∷ []) pages (rw (parse_pages, e) at h)
      ∙ append_assoc done (n ∷ []) names
  | inr e ↦ cc (rw (parse_pages, e) at h)
]

-- Where New returns no error, render finds the template of each page that a handler names.
parse_templates-render_status :
    (parses : Bytes → Bool) (pages : List Bytes)
    → parse_templates parses ≡ some pages
    → All (λ page. render_status pages page ≡ 200) page_names
unfolding parse_templates render_status has_page same
parse_templates-render_status parses pages h =
    rw (parse_pages-some parses page_names [] pages h) (refl, (refl, (refl, (refl, tt))))
