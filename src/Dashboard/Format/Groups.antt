-- ===== src/Dashboard/Format/Groups.antt =====
-- fmtNum of internal/dashboard/format.go: the digits stay, in groups of three.
use glimt.Base.{
  ℕ, ◌+◌, ◌≢◌, true, not, [], ◌∷◌, ◌≡◌, refl, ap, ◌∙◌, arith, Bytes, codes, has_prefix, same,
  length, ◌==◌, keep, All, Bool-cases, inl, inr,
}
use glimt.Dashboard.Format.{spaced, fmt_num}

abbrev pub without_blanks : Bytes → Bytes
without_blanks = keep (λ c. not (c == 32))

spaced-without_blanks :
    (n i : ℕ) (s : Bytes) → All (λ c. c ≢ 32) s → without_blanks (spaced n i s) ≡ s
unfolding spaced
spaced-without_blanks n i [] h = refl
spaced-without_blanks n i (c ∷ s) h = ground (arith, h.0, spaced-without_blanks n (i + 1) s h.1)

minus-first : (c : ℕ) (s : Bytes) → has_prefix (c ∷ s) (codes "-") ≡ true → 45 ≡ c
unfolding has_prefix same
minus-first c s e = ground arith

-- A text of a number, which has no blanks, is what fmtNum gives without its blanks.
pub fmt_num-without_blanks : (s : Bytes) → All (λ c. c ≢ 32) s → without_blanks (fmt_num s) ≡ s
unfolding fmt_num has_prefix
fmt_num-without_blanks [] h = spaced-without_blanks 0 0 [] h
fmt_num-without_blanks (c ∷ s) h = elim (Bool-cases (has_prefix (c ∷ s) (codes "-"))) [
  | inl e ↦ rw e (
      ap (λ xs. 45 ∷ xs) (spaced-without_blanks (length s) 0 s h.1)
      ∙ ap (λ a. a ∷ s) (minus-first c s e))
  | inr e ↦ rw e (spaced-without_blanks (length (c ∷ s)) 0 (c ∷ s) h)
]
