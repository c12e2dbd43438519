-- ===== src/Sites/Mirror.antt =====
-- The registry against the table that it was loaded from.
use glimt.Base.{
  ℕ, Bool, Option, none, some, List, [], ◌∷◌, ◌≡◌, ◌≢◌, refl, sym, ap, ◌∙◌, subst, arith, Bytes,
  same, same_iff, is_empty, ◌==◌, if◌then◌else◌, All, All-map, All-zip, same_refl, Option-cases,
  Bool-cases, inl, inr,
}
use glimt.Model.{Site}
use glimt.Store.Tables.{Website}
use glimt.Sites.{
  Registry, empty_registry, insert_by_name, order_by_name, bytes_less, site_of, add_site, add_rows,
  registry_of, get, get_id, find_collect, find_script, find_id, find_share,
}

-- Ordering keeps what holds of all rows, both ways.
module _ (P : Website → Type 0) where
  All-insert_by_name :
      (r : Website) (rows : List Website) → P r → All P rows → All P (insert_by_name r rows)
  unfolding insert_by_name
  All-insert_by_name r [] p h = (p, tt)
  All-insert_by_name r (x ∷ rows) p h = elim (Bool-cases (bytes_less x.name r.name)) [
    | inl e ↦ rw e (h.0, All-insert_by_name r rows p h.1)
    | inr e ↦ rw e (p, h)
  ]

  All-order_by_name : (rows : List Website) → All P rows → All P (order_by_name rows)
  unfolding order_by_name
  All-order_by_name [] h = tt
  All-order_by_name (r ∷ rows) h =
      All-insert_by_name r (order_by_name rows) h.0 (All-order_by_name rows h.1)

-- Every entry of the maps is of a site with `P`, under that site's key.
pub record IsIndexed (P : Site → Type 0) (r : Registry) : Type 0 where
  pub collect : All (λ (e : Bytes × Site). P e.1 × (e.1.collect_token ≡ e.0)) r.by_collect
  pub script : All (λ (e : Bytes × Site). P e.1 × (e.1.script_token ≡ e.0)) r.by_script
  pub id : All (λ (e : ℕ × Site). P e.1 × (e.1.id ≡ e.0)) r.by_id
  pub share : All (λ (e : Bytes × Site). P e.1 × (e.1.share_token ≡ e.0)) r.by_share

module _ (P : Site → Type 0) where
  share_entries :
      (s : Site) (m : List (Bytes × Site))
      → P s
      → All (λ (e : Bytes × Site). P e.1 × (e.1.share_token ≡ e.0)) m
      → All
          (λ (e : Bytes × Site). P e.1 × (e.1.share_token ≡ e.0))
          (if is_empty s.share_token then m else (s.share_token, s) ∷ m)
  share_entries s m p h = elim (Bool-cases (is_empty s.share_token)) [
    | inl e ↦ rw e h
    | inr e ↦ rw e ((p, refl), h)
  ]

  add_rows-IsIndexed :
      (rows : List Website) (r : Registry)
      → All (λ row. P (site_of row)) rows
      → IsIndexed P r
      → IsIndexed P (add_rows rows r)
  unfolding add_rows
  add_rows-IsIndexed [] r h i = i
  add_rows-IsIndexed (row ∷ rows) r h i = add_rows-IsIndexed rows (add_site (site_of row) r) h.1 (
      unfold add_site in
      record {
        collect = ((h.0, refl), i.collect);
        script = ((h.0, refl), i.script);
        id = ((h.0, refl), i.id);
        share = share_entries (site_of row) r.by_share h.0 i.share;
      })

  pub registry_of-IsIndexed :
      (rows : List Website) → All (λ row. P (site_of row)) rows → IsIndexed P (registry_of rows)
  unfolding registry_of
  registry_of-IsIndexed rows h =
      add_rows-IsIndexed (order_by_name rows) empty_registry
        (All-order_by_name (λ row. P (site_of row)) rows h)
        (record { collect = tt; script = tt; id = tt; share = tt })

  All-get :
      (key : Site → Bytes) (tok : Bytes) (m : List (Bytes × Site)) (s : Site)
      → All (λ (e : Bytes × Site). P e.1 × (key e.1 ≡ e.0)) m
      → get tok m ≡ some s
      → P s × (key s ≡ tok)
  unfolding get
  All-get key tok [] s h e = cc
  All-get key tok (x ∷ m) s h e = elim (Bool-cases (same x.0 tok)) [
    | inl b ↦
        let q : x.1 ≡ s = cc (rw b at e) in
        (subst P q h.0.0, ap key (sym q) ∙ h.0.1 ∙ (same_iff x.0 tok).0 b)
    | inr b ↦ All-get key tok m s h.1 (rw b at e)
  ]

  All-get_id :
      (id : ℕ) (m : List (ℕ × Site)) (s : Site)
      → All (λ (e : ℕ × Site). P e.1 × (e.1.id ≡ e.0)) m
      → get_id id m ≡ some s
      → P s × (s.id ≡ id)
  unfolding get_id
  All-get_id id [] s h e = cc
  All-get_id id (x ∷ m) s h e = elim (Bool-cases (x.0 == id)) [
    | inl b ↦
        let q : x.1 ≡ s = cc (rw b at e) in
        let k : x.0 ≡ id = ground arith in
        (subst P q h.0.0, ap (λ (t : Site). t.id) (sym q) ∙ h.0.1 ∙ k)
    | inr b ↦ All-get_id id m s h.1 (rw b at e)
  ]

  -- What is found by any key is a site with `P`, under that key.
  module _ (r : Registry) (i : IsIndexed P r) (s : Site) where
    pub find_collect_sound :
        (tok : Bytes) → find_collect r tok ≡ some s → P s × (s.collect_token ≡ tok)
    unfolding find_collect
    find_collect_sound tok = All-get (λ t. t.collect_token) tok r.by_collect s i.collect

    pub find_script_sound :
        (tok : Bytes) → find_script r tok ≡ some s → P s × (s.script_token ≡ tok)
    unfolding find_script
    find_script_sound tok = All-get (λ t. t.script_token) tok r.by_script s i.script

    pub find_share_sound : (tok : Bytes) → find_share r tok ≡ some s → P s × (s.share_token ≡ tok)
    unfolding find_share
    find_share_sound tok = All-get (λ t. t.share_token) tok r.by_share s i.share

    pub find_id_sound : (id : ℕ) → find_id r id ≡ some s → P s × (s.id ≡ id)
    unfolding find_id
    find_id_sound id = All-get_id id r.by_id s i.id

abbrev Found : Registry → Website → Type 0
Found r row = get row.collect_token r.by_collect ≢ none

get-newer :
    (tok : Bytes) (e : Bytes × Site) (m : List (Bytes × Site))
    → get tok m ≢ none
    → get tok (e ∷ m) ≢ none
unfolding get
get-newer tok e m h = ground arith

get_own :
    (s : Site) (m : List (Bytes × Site)) → get s.collect_token ((s.collect_token, s) ∷ m) ≢ none
unfolding get
get_own s m = ground (arith, same_refl s.collect_token)

add_rows-keeps :
    (tok : Bytes) (rows : List Website) (r : Registry)
    → get tok r.by_collect ≢ none
    → get tok (add_rows rows r).by_collect ≢ none
unfolding add_rows
add_rows-keeps tok [] r h = h
add_rows-keeps tok (row ∷ rows) r h =
    let s = site_of row in
    add_rows-keeps tok rows (add_site s r)
      (unfold add_site in get-newer tok (s.collect_token, s) r.by_collect h)

add_rows-Found : (rows : List Website) (r : Registry) → All (Found (add_rows rows r)) rows
unfolding add_rows
add_rows-Found [] r = tt
add_rows-Found (row ∷ rows) r = (
  add_rows-keeps row.collect_token rows (add_site (site_of row) r)
      (unfold add_site site_of in get_own (site_of row) r.by_collect),
  add_rows-Found rows (add_site (site_of row) r),
)

module _ (P : Website → Type 0) where
  of_insert_by_name :
      (r : Website) (rows : List Website) → All P (insert_by_name r rows) → P r × All P rows
  unfolding insert_by_name
  of_insert_by_name r [] h = (h.0, tt)
  of_insert_by_name r (x ∷ rows) h =
      let shape : Bool → List Website =
        λ b. if b then x ∷ insert_by_name r rows else r ∷ x ∷ rows in
      elim (Bool-cases (bytes_less x.name r.name)) [
        | inl e ↦
            let k : All P (x ∷ insert_by_name r rows) = subst (λ b. All P (shape b)) e h in
            let (p, rest) = of_insert_by_name r rows k.1 in (p, (k.0, rest))
        | inr e ↦ subst (λ b. All P (shape b)) e h
      ]

  of_order_by_name : (rows : List Website) → All P (order_by_name rows) → All P rows
  unfolding order_by_name
  of_order_by_name [] h = tt
  of_order_by_name (r ∷ rows) h =
      let (p, k) = of_insert_by_name r (order_by_name rows) h in (p, of_order_by_name rows k)

-- The UNIQUE constraint on the collect tokens.
pub record IsUnique (rows : List Website) : Type 0 where
  pub at : All (λ a. All (λ b. a.collect_token ≡ b.collect_token → a ≡ b) rows) rows

-- After a reload of a table in which no two websites have one collect token, every website of the
-- table is found under its collect token.
pub find_collect_complete :
    (rows : List Website)
    → IsUnique rows
    → All (λ row. find_collect (registry_of rows) row.collect_token ≡ some (site_of row)) rows
find_collect_complete rows u =
    let r = registry_of rows in
    let found : All (Found r) rows =
      of_order_by_name (Found r) rows
        (unfold registry_of in add_rows-Found (order_by_name rows) empty_registry) in
    All-zip (Found r) (λ a. All (λ b. a.collect_token ≡ b.collect_token → a ≡ b) rows)
      (λ row. find_collect r row.collect_token ≡ some (site_of row))
      (λ row f same_row. found_is row f same_row (find_collect r row.collect_token) refl) rows found
      u.at
  where
    found_is :
        (row : Website)
        → Found (registry_of rows) row
        → All (λ b. row.collect_token ≡ b.collect_token → row ≡ b) rows
        → (o : Option Site) → find_collect (registry_of rows) row.collect_token ≡ o
        → find_collect (registry_of rows) row.collect_token ≡ some (site_of row)
    found_is row f same_row none e = absurd (f (unfold find_collect in e))
    found_is row f same_row (some s) e =
        let P : Site → Type 0 = λ t. t.collect_token ≡ row.collect_token → t ≡ site_of row in
        let all : All (λ b. P (site_of b)) rows =
          unfold site_of in
          All-map (λ b. row.collect_token ≡ b.collect_token → row ≡ b) (λ b. P (site_of b))
            (λ b h q. sym (ap site_of (h (sym q)))) rows same_row in
        let (p, q) =
          find_collect_sound P (registry_of rows) (registry_of-IsIndexed P rows all) s
            row.collect_token e in
        e ∙ ap some (p q)

-- After a reload, a text that is the collect token of no website is not found.
pub find_collect-unknown :
    (rows : List Website) (tok : Bytes)
    → All (λ (row : Website). row.collect_token ≢ tok) rows
    → find_collect (registry_of rows) tok ≡ none
find_collect-unknown rows tok h = elim (Option-cases (find_collect (registry_of rows) tok)) [
  | inl e ↦ e
  | inr (s, e) ↦
      let P : Site → Type 0 = λ t. t.collect_token ≢ tok in
      let (p, q) =
        find_collect_sound P (registry_of rows) (registry_of-IsIndexed P rows (unfold site_of in h))
          s tok e in
      absurd (p q)
]
