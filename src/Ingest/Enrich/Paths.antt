-- ===== src/Ingest/Enrich/Paths.antt =====
-- What cleanPath returns.
use glimt.Base.{
  ℕ, zero, suc, ◌-◌, ◌≤◌, ◌≡◌, ◌⊎◌, inl, inr, refl, arith, Bool, true, false, ◌&&◌, [], ◌∷◌, Bytes,
  codes, same, is_empty, has_suffix, trim_right, leb, ◌==◌, length, drop, if◌then◌else◌,
  length-trim_right,
}
use glimt.Ingest.Enrich.{truncate, without_slashes, clean_path}

-- The last byte is `c`.
last_is : ℕ → Bytes → Bool
last_is c [] = false
last_is c (x ∷ []) = x == c
last_is c (x ∷ y ∷ s) = last_is c (y ∷ s)

drop_to_last : (c x : ℕ) (s : Bytes) → same (drop (length s) (x ∷ s)) (c ∷ []) ≡ last_is c (x ∷ s)
unfolding last_is same
drop_to_last c x [] = ground arith
drop_to_last c x (y ∷ s) = drop_to_last c y s

has_suffix_one : (c : ℕ) (s : Bytes) → has_suffix s (c ∷ []) ≡ last_is c s
unfolding has_suffix
has_suffix_one c [] = unfold last_is same in ground arith
has_suffix_one c (x ∷ s) =
    let less : suc (length s) - 1 ≡ length s = omega arith in
    let enough : leb 1 (suc (length s)) ≡ true = ground arith in
    rw (less, enough) (drop_to_last c x s)

last_is-kept :
    (c x : ℕ) (r : Bytes)
    → last_is c r ≡ false
    → last_is c (if is_empty r && x == c then [] else x ∷ r) ≡ false
unfolding is_empty last_is
last_is-kept c x [] h = ground arith
last_is-kept c x (y ∷ r) h = h

trim_right-last : (c : ℕ) (s : Bytes) → last_is c (trim_right c s) ≡ false
unfolding trim_right
trim_right-last c [] = unfold last_is in refl
trim_right-last c (x ∷ s) = last_is-kept c x (trim_right c s) (trim_right-last c s)

truncate_short : (s : Bytes) (n : ℕ) → length s ≤ n → truncate s n ≡ s
unfolding truncate
truncate_short s n h = ground arith

without_slashes-last : (p : Bytes) → (length p ≤ 1) ⊎ (last_is b'/' (without_slashes p) ≡ false)
unfolding without_slashes
without_slashes-last p = ground (arith, has_suffix_one b'/' p, trim_right-last b'/' p)

one_byte :
    (c : ℕ) → (clean_path (c ∷ []) ≡ codes "/") ⊎ (last_is b'/' (clean_path (c ∷ [])) ≡ false)
unfolding clean_path without_slashes truncate last_is
one_byte c = ground arith

length-without_slashes : (p : Bytes) → length (without_slashes p) ≤ length p
unfolding without_slashes
length-without_slashes p = ground (arith, length-trim_right b'/' p)

-- A path of at most 512 bytes is cleaned to "/" or to a path that does not end in a slash.
pub clean_path_trailing :
    (p : Bytes)
    → length p ≤ 512
    → (clean_path p ≡ codes "/") ⊎ (has_suffix (clean_path p) (codes "/") ≡ false)
clean_path_trailing [] h = inl (unfold clean_path in refl)
clean_path_trailing (c ∷ []) h = rw (has_suffix_one b'/') (one_byte c)
clean_path_trailing (c ∷ d ∷ p) h =
    let q = c ∷ d ∷ p in
    let short =
      truncate_short (without_slashes q) 512 (omega (arith, length-without_slashes q, h)) in
    let last : last_is b'/' (without_slashes q) ≡ false = ground (arith, without_slashes-last q) in
    inr (rw (has_suffix_one b'/') (unfold clean_path in rw short last))

unfoldable pub slashes : ℕ → Bytes
slashes zero = []
slashes (suc n) = b'/' ∷ slashes n

trim_right-slashes : (n : ℕ) → trim_right b'/' (slashes n) ≡ []
unfolding trim_right slashes is_empty
trim_right-slashes zero = refl
trim_right-slashes (suc n) = rw (trim_right-slashes n)

last_is-slashes : (n : ℕ) → last_is b'/' (slashes (suc n)) ≡ true
unfolding last_is slashes
last_is-slashes zero = refl
last_is-slashes (suc n) = last_is-slashes n

-- A path of two or more slashes and nothing else is cleaned to the empty text, and not to "/", which
-- is what the empty path is cleaned to.
pub clean_path-slashes : (n : ℕ) → clean_path (slashes (suc (suc n))) ≡ []
unfolding slashes clean_path without_slashes truncate
clean_path-slashes n = ground (
  arith,
  has_suffix_one b'/' (slashes (suc (suc n))),
  last_is-slashes (suc n),
  trim_right-slashes (suc (suc n)),
)
