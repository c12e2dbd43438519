-- ===== src/Query/Funnel/Greedy.antt =====
-- The loop over one session's entries in EvaluateFunnel of internal/query/query.go against a plain
-- description: the first steps stand among the entries, in order.
use glimt.Base.{
  ℕ, ◌+◌, ◌≤◌, Bool, true, false, ◌&&◌, ◌||◌, List, [], ◌∷◌, ◌++◌, ◌≡◌, refl, sym, ◌∙◌, arith, leb,
  if◌then◌else◌, Bool-cases, inl, inr,
}
use glimt.Query.Funnel.{Step, Entry, matches_step, walk}

-- The steps can be found among the entries, in order, with any entries between them.
unfoldable pub embeds : List Step → List Entry → Bool
embeds [] entries = true
embeds (s ∷ steps) [] = false
embeds (s ∷ steps) (e ∷ entries) =
    let here = embeds steps entries in
    let later = embeds (s ∷ steps) entries in matches_step s e && here || later

embeds-cons :
    (s : Step) (steps : List Step) (entries : List Entry)
    → embeds (s ∷ steps) entries ≡ true
    → embeds steps entries ≡ true
unfolding embeds
embeds-cons s [] entries h = refl
embeds-cons s (t ∷ steps) [] h = cc
embeds-cons s (t ∷ steps) (e ∷ entries) h =
    ground (arith, embeds-cons s (t ∷ steps) entries, embeds-cons t steps entries)

-- A prefix of steps that can be found can be found.
pub embeds-append :
    (steps : List Step) (s : Step) (entries : List Entry)
    → embeds (steps ++ s ∷ []) entries ≡ true
    → embeds steps entries ≡ true
unfolding embeds
embeds-append [] s entries h = refl
embeds-append (t ∷ steps) s [] h = cc
embeds-append (t ∷ steps) s (e ∷ entries) h =
    ground (arith, embeds-append steps s entries, embeds-append (t ∷ steps) s entries)

-- Each count with what `f` gives for the steps up to it.
unfoldable pub add_counts : (List Step → ℕ) → List Step → List ℕ → List ℕ
add_counts f [] counts = counts
add_counts f (s ∷ steps) [] = []
add_counts f (s ∷ steps) (c ∷ counts) =
    (c + f (s ∷ [])) ∷ add_counts (λ pre. f (s ∷ pre)) steps counts

pub add_counts-same :
    (f g : List Step → ℕ) (steps : List Step) (counts : List ℕ)
    → ((pre : List Step) → f pre ≡ g pre)
    → add_counts f steps counts ≡ add_counts g steps counts
unfolding add_counts
add_counts-same f g [] counts h = refl
add_counts-same f g (s ∷ steps) [] h = refl
add_counts-same f g (s ∷ steps) (c ∷ counts) h =
    rw
      (
        h (s ∷ []),
        add_counts-same (λ pre. f (s ∷ pre)) (λ pre. g (s ∷ pre)) steps counts (λ pre. h (s ∷ pre)),
      )
      refl

pub add_counts-zero :
    (steps : List Step) (counts : List ℕ) → add_counts (λ pre. 0) steps counts ≡ counts
unfolding add_counts
add_counts-zero [] counts = refl
add_counts-zero (s ∷ steps) [] = refl
add_counts-zero (s ∷ steps) (c ∷ counts) = ground (arith, add_counts-zero steps counts)

-- The times of the entries do not fall, from `last` on.
abbrev pub Ascends : ℕ → List Entry → Type 0
Ascends last [] = Unit
Ascends last (e ∷ entries) = (last ≤ e.ts) × Ascends e.ts entries

Ascends-below : (l m : ℕ) (entries : List Entry) → l ≤ m → Ascends m entries → Ascends l entries
Ascends-below l m [] h a = tt
Ascends-below l m (e ∷ entries) h a = (omega (arith, a.0), a.1)

-- One, if the session went through the steps.
abbrev pub hit : List Entry → List Step → ℕ
hit entries steps = if embeds steps entries then 1 else 0

ap2 : (a b : ℕ) {xs ys : List ℕ} → a ≡ b → xs ≡ ys → a ∷ xs ≡ b ∷ ys
ap2 a b e q = rw (e, q) refl

hit-fit :
    (s : Step) (pre : List Step) (e : Entry) (entries : List Entry)
    → matches_step s e ≡ true
    → hit (e ∷ entries) (s ∷ pre) ≡ hit entries pre
unfolding embeds
hit-fit s pre e entries m = ground (arith, embeds-cons s pre entries)

hit-skip :
    (s : Step) (pre : List Step) (e : Entry) (entries : List Entry)
    → matches_step s e ≡ false
    → hit (e ∷ entries) (s ∷ pre) ≡ hit entries (s ∷ pre)
unfolding embeds
hit-skip s pre e entries m = ground arith

hit-none : (s : Step) (pre : List Step) → hit [] (s ∷ pre) ≡ 0
unfolding embeds
hit-none s pre = refl

hit-nil : (entries : List Entry) → hit entries [] ≡ 1
unfolding embeds
hit-nil entries = refl

leb_of : (a b : ℕ) → a ≤ b → leb a b ≡ true
leb_of a b h = ground arith

-- Taking each step at the first entry that fits misses nothing: the loop adds one to a count exactly
-- if the steps up to it can be found in the session at all.
pub walk-hit :
    (steps : List Step) (counts : List ℕ) (last : ℕ) (entries : List Entry)
    → Ascends last entries
    → walk steps counts last entries ≡ add_counts (hit entries) steps counts
unfolding walk add_counts
walk-hit [] counts last entries a = refl
walk-hit (s ∷ steps) [] last entries a = refl
walk-hit (s ∷ steps) (c ∷ counts) last [] a =
    ap2 c (c + hit [] (s ∷ [])) (omega (arith, hit-none s [])) (
      sym (
        add_counts-same (λ pre. hit [] (s ∷ pre)) (λ pre. 0) steps counts (hit-none s)
        ∙ add_counts-zero steps counts))
walk-hit (s ∷ steps) (c ∷ counts) last (e ∷ entries) a = elim (Bool-cases (matches_step s e)) [
  | inl m ↦
      rw (m, leb_of last e.ts a.0, walk-hit steps counts e.ts entries a.1)
        (ap2 (c + 1) (c + hit (e ∷ entries) (s ∷ []))
          (omega (arith, hit-fit s [] e entries m, hit-nil entries))
          (sym (
            add_counts-same (λ pre. hit (e ∷ entries) (s ∷ pre)) (hit entries) steps counts
              (λ pre. hit-fit s pre e entries m))))
  | inr m ↦
      rw
        (
          m,
          walk-hit (s ∷ steps) (c ∷ counts) last entries (Ascends-below last e.ts entries a.0 a.1),
        )
        (ap2 (c + hit entries (s ∷ [])) (c + hit (e ∷ entries) (s ∷ []))
          (omega (arith, hit-skip s [] e entries m))
          (sym (
            add_counts-same (λ pre. hit (e ∷ entries) (s ∷ pre)) (λ pre. hit entries (s ∷ pre))
              steps counts (λ pre. hit-skip s pre e entries m))))
]
