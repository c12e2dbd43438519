-- ===== src/Auth/Passwords.antt =====
-- The password texts of internal/auth/auth.go.
use glimt.Base.{
  split, prepend, true, Option, none, some, [], ◌∷◌, ◌++◌, ◌≡◌, ◌≢◌, ◌↔◌, refl, ap, ◌∙◌, arith,
  Bytes, codes, same, same_iff, length, All, append_assoc,
}
use glimt.Base.Int.{pos}
use glimt.Auth.{
  Crypto, pbkdf_iter, pbkdf_key_len, format_hash, hash_password, matches, verify_decoded,
  verify_parts, verify_password,
}

-- A text without a dollar sign.
abbrev pub IsPlain : Bytes → Type 0
IsPlain = All (λ c. c ≢ b'$')

split-IsPlain : (s : Bytes) → IsPlain s → split b'$' s ≡ s ∷ []
unfolding split prepend
split-IsPlain [] h = refl
split-IsPlain (c ∷ s) h = ground (arith, split-IsPlain s h.1)

split-append : (s t : Bytes) → IsPlain s → split b'$' (s ++ b'$' ∷ t) ≡ s ∷ split b'$' t
unfolding split prepend
split-append [] t h = ground arith
split-append (c ∷ s) t h = ground (arith, split-append s t h.1)

matches_iff : (o : Option Bytes) (want : Bytes) → (matches o want ≡ true) ↔ (o ≡ some want)
unfolding matches
matches_iff none want = (λ e. cc, λ e. cc)
matches_iff (some got) want = (
  λ e. ap some ((same_iff got want).0 e),
  λ e. (same_iff got want).1 (let q : got ≡ want = cc in q),
)

split-two : (s t : Bytes) → IsPlain s → IsPlain t → split b'$' (s ++ codes "$" ++ t) ≡ s ∷ t ∷ []
split-two s t hs ht =
    ap (split b'$') (append_assoc s (codes "$") t)
    ∙ split-append s t hs
    ∙ ap (λ r. s ∷ r) (split-IsPlain t ht)

split-format_hash :
    (c : Crypto) (salt dk : Bytes)
    → IsPlain (c.std_encode salt)
    → IsPlain (c.std_encode dk)
    → split b'$' (format_hash c salt dk)
      ≡ codes "pbkdf2" ∷ codes "120000" ∷ c.std_encode salt ∷ c.std_encode dk ∷ []
unfolding format_hash split prepend
split-format_hash c salt dk ps pd =
    ap (λ r. codes "pbkdf2" ∷ codes "120000" ∷ r)
      (split-two (c.std_encode salt) (c.std_encode dk) ps pd)

hash_password-some :
    (c : Crypto) (salt pw dk stored : Bytes)
    → c.key pw salt (pos pbkdf_iter) pbkdf_key_len ≡ some dk
    → hash_password c (some salt) pw ≡ some stored
    → format_hash c salt dk ≡ stored
unfolding hash_password
hash_password-some c salt pw dk stored hk h = cc (rw (hash_password, hk) at h)

verify_password-format_hash :
    (c : Crypto) (salt dk pw : Bytes)
    → length dk ≡ pbkdf_key_len
    → c.atoi (codes "120000") ≡ some (pos pbkdf_iter)
    → c.std_decode (c.std_encode salt) ≡ some salt
    → c.std_decode (c.std_encode dk) ≡ some dk
    → IsPlain (c.std_encode salt)
    → IsPlain (c.std_encode dk)
    → verify_password c (format_hash c salt dk) pw
      ≡ matches (c.key pw salt (pos pbkdf_iter) pbkdf_key_len) dk
unfolding verify_password verify_parts verify_decoded same
verify_password-format_hash c salt dk pw hl ha hs hd ps pd =
    rw (split-format_hash c salt dk ps pd, ha, hs, hd, hl) refl

-- What hashPassword stores verifies exactly the passwords from which pbkdf2 derives, with the salt
-- drawn and 120,000 iterations, the key of the password that was hashed: this one, and none that has
-- another key. It is assumed that base64 decodes what it encodes and writes no dollar sign, that Atoi
-- reads the number of iterations back, and that the key has the 32 bytes asked for.
pub verify_password-hash_password :
    (c : Crypto) (salt pw dk stored : Bytes) (pw' : Bytes)
    → c.key pw salt (pos pbkdf_iter) pbkdf_key_len ≡ some dk
    → length dk ≡ pbkdf_key_len
    → c.atoi (codes "120000") ≡ some (pos pbkdf_iter)
    → c.std_decode (c.std_encode salt) ≡ some salt
    → c.std_decode (c.std_encode dk) ≡ some dk
    → IsPlain (c.std_encode salt)
    → IsPlain (c.std_encode dk)
    → hash_password c (some salt) pw ≡ some stored
    → (verify_password c stored pw' ≡ true)
      ↔ (c.key pw' salt (pos pbkdf_iter) pbkdf_key_len ≡ some dk)
verify_password-hash_password c salt pw dk stored pw' hk hl ha hs hd ps pd h =
    rw
      (
        ← hash_password-some c salt pw dk stored hk h,
        verify_password-format_hash c salt dk pw' hl ha hs hd ps pd,
      )
      (matches_iff (c.key pw' salt (pos pbkdf_iter) pbkdf_key_len) dk)
