-- ===== src/Dashboard/Handlers/Shared.antt =====
-- Share of internal/dashboard/dashboard.go: who sees a page without signing in, and what it shows.
use glimt.Base.{
  ℕ, Bool, true, false, not, Option, none, some, List, [], ◌∷◌, ◌≡◌, ◌≢◌, refl, sym, ap, ◌∙◌, Bytes,
  if◌then◌else◌, Bool-cases, inl, inr, same, codes, ◌&&◌,
}
use glimt.Model.{Site}
use glimt.Store.Tables.{Db}
use glimt.Store.Sql.{Sql, World, Result, ok, err, ◌>>=◌}
use glimt.Store.Reads.{Reads, Reads-pure, Reads-bind, Reads-or_before, Reads-if}
use glimt.Store.Ensures.{Ensures, Ensures-bind, Ensures-pure}
use glimt.Sites.{Registry, find_share, set_public}
use glimt.Sites.Writes.{set_public_hides}
use glimt.Query.{summary, vitals, realtime, or_before}
use glimt.Query.Series.{time_series}
use glimt.Query.Funnel.{Funnel, list_funnels}
use glimt.Query.Scoped.{
  AgreeOn, AgreeIn, AgreeOn-AgreeIn, Reads-summary, Reads-vitals, Reads-time_series, Reads-top,
  Reads-evaluate_funnel, Reads-realtime, Reads-list_funnels,
}
use glimt.Dashboard.Range.{resolve_range_params}
use glimt.Dashboard.Page.{
  Handlers, Params, View, Spec, specs, panels, funnel_data, first_funnel, build_dashboard,
}
use glimt.Dashboard.Handlers.{Page, not_found, failed, index, answer, share_of, share}

Reads-panels :
    (geo : Bool) (site from_ms to_ms : ℕ) (sps : List Spec)
    → Reads (AgreeIn site) (panels geo site from_ms to_ms sps)
unfolding panels
Reads-panels geo site from_ms to_ms [] = Reads-pure _
Reads-panels geo site from_ms to_ms (sp ∷ rest) =
    Reads-bind _ _ (Reads-top site from_ms to_ms sp.dim 8) (λ rows.
      Reads-bind _ _ (Reads-panels geo site from_ms to_ms rest) (λ others.
        Reads-if (same sp.dim (codes "country") && not geo) _ _ (Reads-pure _) (Reads-pure _)))

Reads-funnel_data :
    (site : ℕ) (f : Option Funnel) (from_ms to_ms : ℕ)
    → Reads (AgreeIn site) (funnel_data site f from_ms to_ms)
unfolding funnel_data
Reads-funnel_data site none from_ms to_ms = Reads-pure _
Reads-funnel_data site (some f) from_ms to_ms =
    Reads-or_before _ _ (Reads-evaluate_funnel site from_ms to_ms f.steps)

Reads-build_dashboard :
    (h : Handlers) (now later : ℕ) (s : Site) (key from_str to_str : Bytes)
    → Reads (AgreeIn s.id) (build_dashboard h now later s key from_str to_str)
unfolding build_dashboard
Reads-build_dashboard h now later s key from_str to_str =
    let range = resolve_range_params h.dates now key from_str to_str in
    Reads-bind _ _ (Reads-summary s.id range.from_ms range.to_ms) (λ sum.
      Reads-bind _ _ (Reads-vitals s.id range.from_ms range.to_ms) (λ speed.
        Reads-bind _ _ (Reads-time_series s.id range.from_ms range.to_ms range.interval) (λ chart.
          Reads-bind _ _ (Reads-realtime s.id later) (λ active.
            Reads-bind _ _ (Reads-or_before _ _ (Reads-list_funnels h.json s.id)) (λ funnels.
              Reads-bind _ _
                (Reads-funnel_data s.id (first_funnel funnels) range.from_ms range.to_ms)
                (λ results.
                  Reads-bind _ _
                    (Reads-panels h.geo_enabled s.id range.from_ms range.to_ms (specs h.unicode))
                    (λ ps. Reads-pure _)))))))

-- Whatever `m` reads, what `f` ensures is ensured.
Ensures-after :
    {A B : Type 0} (R : B → Db → Type 0) (m : Sql A) (f : A → Sql B)
    → ((a : A) → Ensures (λ _. Unit {0}) (f a) R)
    → Ensures (λ _. Unit {0}) (m >>= f) R
Ensures-after R m f k =
    Ensures-bind (λ _. Unit {0}) (λ a db. Unit {0}) R m f (record { at = λ w a p e. tt }) k

build_dashboard-site :
    (h : Handlers) (now later : ℕ) (s : Site) (key from_str to_str : Bytes)
    → Ensures
        (λ _. Unit {0})
        (build_dashboard h now later s key from_str to_str)
        (λ v db. v.site ≡ s)
unfolding build_dashboard
build_dashboard-site h now later s key from_str to_str =
    let range = resolve_range_params h.dates now key from_str to_str in
    Ensures-after _ (summary s.id range.from_ms range.to_ms) _ (λ sum.
      Ensures-after _ (vitals s.id range.from_ms range.to_ms) _ (λ speed.
        Ensures-after _ (time_series s.id range.from_ms range.to_ms range.interval) _ (λ chart.
          Ensures-after _ (realtime s.id later) _ (λ active.
            Ensures-after _ (or_before [] (list_funnels h.json s.id)) _ (λ funnels.
              Ensures-after _ (funnel_data s.id (first_funnel funnels) range.from_ms range.to_ms) _
                (λ results.
                  Ensures-after _
                    (panels h.geo_enabled s.id range.from_ms range.to_ms (specs h.unicode)) _
                    (λ ps. Ensures-pure _ _ _ (λ db p. refl))))))))

answer-index :
    (g : View → View) (s : Site) (m : Sql View) (w : World) (v : View)
    → ((b : View) → (g b).site ≡ b.site)
    → Ensures (λ _. Unit {0}) m (λ b db. b.site ≡ s)
    → (answer (λ b. index (g b)) m w).0 ≡ index v
    → v.site ≡ s
unfolding answer
answer-index g s m w v keeps h e = from (m w).0 refl e
  where
    from :
        (r : Result View)
        → (m w).0 ≡ r
        → (answer (λ b. index (g b)) (λ _. (r, (m w).1)) w).0 ≡ index v
        → v.site ≡ s
    from (ok b) q e =
        let made : g b ≡ v = cc in ap (λ (x : View). x.site) (sym made) ∙ keeps b ∙ h.at w b tt q
    from (err x) q e = cc

-- Where Share shows a page, it is of a public website that has the token.
pub share-index :
    (h : Handlers) (now later : ℕ) (q : Params) (tok : Bytes) (r : Registry) (w : World) (v : View)
    → (share h now later q tok r w).0 ≡ index v
    → (find_share r tok ≡ some v.site) × (v.site.public ≡ true)
unfolding share
share-index h now later q tok r w v e = from (find_share r tok) refl e
  where
    from :
        (found : Option Site)
        → find_share r tok ≡ found
        → (share_of h now later q tok found w).0 ≡ index v
        → (find_share r tok ≡ some v.site) × (v.site.public ≡ true)
    from none k e = unfold share_of in cc
    from (some s) k e = elim (Bool-cases s.public) [
      | inl p ↦
          let shown : (answer
                (λ b. index (record b { title = s.name; public = true; share_token = tok }))
                (build_dashboard h now later s q.range q.from_str q.to_str) w).0
              ≡ index v =
            unfold share_of in sym (rw p refl) ∙ e in
          let same_site : v.site ≡ s =
            answer-index (λ b. record b { title = s.name; public = true; share_token = tok }) s
              (build_dashboard h now later s q.range q.from_str q.to_str) w v (λ b. refl)
              (build_dashboard-site h now later s q.range q.from_str q.to_str) shown in
          (k ∙ ap some (sym same_site), ap (λ (x : Site). x.public) same_site ∙ p)
      | inr p ↦
          let shut : (share_of h now later q tok (some s) w).0 ≡ not_found =
            unfold share_of in rw p refl in
          let clash : not_found ≡ index v = sym shut ∙ e in cc
    ]

-- After SetPublic has hidden a website and returned no error, no token of whatever request shows a
-- page of it.
pub share-set_public :
    (id : ℕ) (fresh : Bytes) (w : World) (r : Registry) (h : Handlers) (now later : ℕ) (q : Params)
    (tok : Bytes) (w' : World) (v : View)
    → (set_public id false fresh w).0 ≡ ok r
    → (share h now later q tok r w').0 ≡ index v
    → v.site.id ≢ id
share-set_public id fresh w r h now later q tok w' v hidden shown same_id =
    let (found, public) = share-index h now later q tok r w' v shown in
    let private_site = set_public_hides id fresh w r tok v.site hidden found same_id in cc

module _ {A : Type 0} (page : A → Page) where
  abbrev answered : Result A × World → Page × World
  answered p = elim p.0 [ ok a ↦ (page a, p.1) | err e ↦ (failed, p.1) ]

  answer_from :
      (m : Sql A) (db db' : Db) (fs faults : List Bool) (r : Result A)
      → m (record { db = db; faults = fs }) ≡ (r, record { db = db; faults = faults })
      → m (record { db = db'; faults = fs }) ≡ (r, record { db = db'; faults = faults })
      → (answer page m (record { db = db; faults = fs })).0
        ≡ (answer page m (record { db = db'; faults = fs })).0
  unfolding answer
  answer_from m db db' fs faults (ok a) l k =
      ap (λ p. (answered p).0) l ∙ sym (ap (λ p. (answered p).0) k)
  answer_from m db db' fs faults (err e) l k =
      ap (λ p. (answered p).0) l ∙ sym (ap (λ p. (answered p).0) k)

guarded :
    (shut : Bool) (w w' : World) (p p' : Page × World)
    → p.0 ≡ p'.0
    → (if shut then (not_found, w) else p).0 ≡ (if shut then (not_found, w') else p').0
guarded true w w' p p' e = refl
guarded false w w' p p' e = e

-- What a share page shows, or that it fails, depends on the rows of its website only, if its number is
-- not the one that stands for all: databases that agree on these rows give the same answer.
pub share-AgreeOn :
    (h : Handlers) (now later : ℕ) (q : Params) (tok : Bytes) (r : Registry) (s : Site)
    (db db' : Db) (faults : List Bool)
    → find_share r tok ≡ some s
    → s.id ≢ 0
    → AgreeOn s.id db db'
    → (share h now later q tok r (record { db = db; faults = faults })).0
      ≡ (share h now later q tok r (record { db = db'; faults = faults })).0
unfolding share share_of
share-AgreeOn h now later q tok r s db db' faults found own agree =
    let k =
      (Reads-build_dashboard h now later s q.range q.from_str q.to_str).at db db' faults
        (AgreeOn-AgreeIn s.id db db' own agree) in
    let same_page =
      answer_from (λ v. index (record v { title = s.name; public = true; share_token = tok }))
        (build_dashboard h now later s q.range q.from_str q.to_str) db db' faults k.faults k.result
        k.left k.right in
    rw found (guarded (not s.public) _ _ _ _ same_page)

opened :
    (public : Bool) (w : World) (p : Page × World)
    → public ≡ true
    → (if not public then (not_found, w) else p).0 ≡ p.0
opened true w p e = refl
opened false w p e = cc

-- A public website whose page can be built is shown under its token.
pub share-shown :
    (h : Handlers) (now later : ℕ) (q : Params) (tok : Bytes) (r : Registry) (s : Site)
    (w w' : World) (v : View)
    → find_share r tok ≡ some s
    → s.public ≡ true
    → build_dashboard h now later s q.range q.from_str q.to_str w ≡ (ok v, w')
    → (share h now later q tok r w).0
      ≡ index (record v { title = s.name; public = true; share_token = tok })
unfolding share share_of answer
share-shown h now later q tok r s w w' v found public built = rw found (
    opened s.public _ _ public
    ∙ ap
        (λ p.
          (answered (λ b. index (record b { title = s.name; public = true; share_token = tok }))
            p).0)
        built)
