-- ===== src/Base/Text.antt =====
-- Go strings as lists of bytes, with the functions of package strings that the source uses.
use Prim.Native.Nat.{ℕ, zero, suc, ◌+◌, ◌-◌, ◌≤◌}
use Prim.Native.Char.{code}
use Prim.Native.String.{String}
use mathlib.Core.Path.{◌≡◌, refl}
use mathlib.Core.Logic.{◌↔◌, ◌≢◌}
use mathlib.Core.Bool.{Bool, true, false, ◌&&◌, ◌||◌}
use mathlib.Core.List.{List, [], ◌∷◌, map, reverse-cons}
use mathlib.Core.List.{reverse}
use native.Mathlib.Omega.{arith}
use glimt.Base.Tests.{ltb, leb, ◌==◌, if◌then◌else◌}
use glimt.Base.Lists.{length, take, drop, length-append, length-drop, All}

abbrev pub Bytes : Type 0
Bytes = List ℕ

-- The code points of a literal: its bytes, since every literal here is ASCII.
abbrev pub codes : String → Bytes
codes String.[] = []
codes (String.◌∷◌ c s) = code c ∷ codes s

-- a == b
unfoldable pub same : Bytes → Bytes → Bool
same [] [] = true
same [] (y ∷ ys) = false
same (x ∷ xs) [] = false
same (x ∷ xs) (y ∷ ys) = x == y && same xs ys

pub same_iff : (a b : Bytes) → (same a b ≡ true) ↔ (a ≡ b)
unfolding same
same_iff [] [] = ground arith
same_iff [] (y ∷ ys) = ground arith
same_iff (x ∷ xs) [] = ground arith
same_iff (x ∷ xs) (y ∷ ys) = ground (arith, same_iff xs ys)

pub same_refl : (a : Bytes) → same a a ≡ true
same_refl a = (same_iff a a).1 refl

pub same-false : (a b : Bytes) → a ≢ b → same a b ≡ false
same-false a b h = ground (arith, same_iff a b)

pub same_sym : (a b : Bytes) → same a b ≡ same b a
same_sym a b = ground (arith, same_iff a b, same_iff b a)

-- s == ""
unfoldable pub is_empty : Bytes → Bool
is_empty [] = true
is_empty (c ∷ s) = false

-- strings.HasSuffix
unfoldable pub has_suffix : Bytes → Bytes → Bool
has_suffix s suffix =
    leb (length suffix) (length s) && same (drop (length s - length suffix) s) suffix

-- strings.HasPrefix
unfoldable pub has_prefix : Bytes → Bytes → Bool
has_prefix s prefix = leb (length prefix) (length s) && same (take (length prefix) s) prefix

-- strings.TrimPrefix
unfoldable pub trim_prefix : Bytes → Bytes → Bytes
unfolding has_prefix
trim_prefix s prefix = if has_prefix s prefix then drop (length prefix) s else s

-- strings.Contains
unfoldable pub contains : Bytes → Bytes → Bool
unfolding has_prefix
contains [] sub = has_prefix [] sub
contains (c ∷ s) sub = has_prefix (c ∷ s) sub || contains s sub

-- strings.TrimRight(s, c) with a cutset of one byte
unfoldable pub trim_right : ℕ → Bytes → Bytes
unfolding is_empty
trim_right cut [] = []
trim_right cut (c ∷ s) =
    let rest = trim_right cut s in if is_empty rest && c == cut then [] else c ∷ rest

pub length-trim_right : (cut : ℕ) (s : Bytes) → length (trim_right cut s) ≤ length s
unfolding trim_right
length-trim_right cut [] = omega arith
length-trim_right cut (c ∷ s) = ground (arith, length-trim_right cut s)

-- strings.TrimLeft(s, c) with a cutset of one byte
unfoldable pub trim_left : ℕ → Bytes → Bytes
trim_left cut [] = []
trim_left cut (c ∷ s) = let rest = trim_left cut s in if c == cut then rest else c ∷ s

pub length-trim_left : (cut : ℕ) (s : Bytes) → length (trim_left cut s) ≤ length s
unfolding trim_left
length-trim_left cut [] = omega arith
length-trim_left cut (c ∷ s) = ground (arith, length-trim_left cut s)

-- `if i := strings.IndexByte(s, c); i >= 0 { s = s[:i] }`
unfoldable pub before : ℕ → Bytes → Bytes
before cut [] = []
before cut (c ∷ s) = let rest = before cut s in if c == cut then [] else c ∷ rest

pub length-before : (cut : ℕ) (s : Bytes) → length (before cut s) ≤ length s
unfolding before
length-before cut [] = omega arith
length-before cut (c ∷ s) = ground (arith, length-before cut s)

pub before-Lacks : (cut : ℕ) (s : Bytes) → All (λ c. c ≢ cut) (before cut s)
unfolding before
before-Lacks cut [] = tt
before-Lacks cut (c ∷ s) = ground (arith, before-Lacks cut s)

-- The width in bytes of the white space that a text begins with, 0 if it begins with none: the
-- ASCII spaces, and the UTF-8 of U+0085, U+00A0, U+1680, U+2000-200A, U+2028-2029, U+202F, U+205F
-- and U+3000.
wide_space : ℕ → ℕ → ℕ → Bool
wide_space a b c =
    a == 0xe1 && b == 0x9a && c == 0x80
    || a == 0xe2 && b == 0x80 && leb 0x80 c && (leb c 0x8a || c == 0xa8 || c == 0xa9 || c == 0xaf)
    || a == 0xe2 && b == 0x81 && c == 0x9f
    || a == 0xe3 && b == 0x80 && c == 0x80

short_space : ℕ → Bool
short_space c = leb 9 c && leb c 13 || c == 32

two_space : ℕ → ℕ → Bool
two_space a b = a == 0xc2 && (b == 0x85 || b == 0xa0)

space_width : Bytes → ℕ
unfolding wide_space short_space two_space
space_width [] = 0
space_width (a ∷ []) = if short_space a then 1 else 0
space_width (a ∷ b ∷ []) = if short_space a then 1 else if two_space a b then 2 else 0
space_width (a ∷ b ∷ c ∷ s) =
    if short_space a then 1 else if two_space a b then 2 else if wide_space a b c then 3 else 0

-- The same for the white space that a reversed text begins with.
space_width_back : Bytes → ℕ
unfolding wide_space short_space two_space
space_width_back [] = 0
space_width_back (a ∷ []) = if short_space a then 1 else 0
space_width_back (b ∷ a ∷ []) = if short_space b then 1 else if two_space a b then 2 else 0
space_width_back (c ∷ b ∷ a ∷ s) =
    if short_space c then 1 else if two_space b c then 2 else if wide_space a b c then 3 else 0

strip : (Bytes → ℕ) → ℕ → Bytes → Bytes
strip width zero s = s
strip width (suc fuel) s =
    let rest = strip width fuel (drop (width s) s) in if width s == 0 then s else rest

length-strip : (width : Bytes → ℕ) (fuel : ℕ) (s : Bytes) → length (strip width fuel s) ≤ length s
unfolding strip
length-strip width zero s = omega arith
length-strip width (suc fuel) s =
    ground (arith, length-strip width fuel (drop (width s) s), length-drop (width s) s)

-- strings.TrimSpace; every round takes a byte at least, so the length is enough fuel
unfoldable pub trim_space : Bytes → Bytes
unfolding strip space_width space_width_back
trim_space s =
    let left = strip space_width (length s) s in
    reverse (strip space_width_back (length left) (reverse left))

length-reverse : (s : Bytes) → length (reverse s) ≡ length s
length-reverse [] = refl
length-reverse (c ∷ s) =
    rw (reverse-cons c s) (omega (arith, length-append (reverse s) (c ∷ []), length-reverse s))

pub length-trim_space : (s : Bytes) → length (trim_space s) ≤ length s
unfolding trim_space
length-trim_space s =
    let left = strip space_width (length s) s in
    let kept = strip space_width_back (length left) (reverse left) in
    omega (
      arith,
      length-strip space_width (length s) s,
      length-strip space_width_back (length left) (reverse left),
      length-reverse left,
      length-reverse kept,
    )

-- What strings.ToLower and strings.ToUpper do on a text that is not all ASCII goes by Go's tables
-- of Unicode, which are not part of the repository.
pub record Unicode : Type 0 where
  pub lower_wide : Bytes → Bytes
  pub upper_wide : Bytes → Bytes

unfoldable pub is_ascii : Bytes → Bool
is_ascii [] = true
is_ascii (c ∷ s) = ltb c 128 && is_ascii s

lower_byte : ℕ → ℕ
lower_byte c = if leb b'A' c && leb c b'Z' then c + 32 else c

upper_byte : ℕ → ℕ
upper_byte c = if leb b'a' c && leb c b'z' then c - 32 else c

-- strings.ToLower
unfoldable pub to_lower : Unicode → Bytes → Bytes
unfolding is_ascii lower_byte
to_lower u s = if is_ascii s then map lower_byte s else u.lower_wide s

-- strings.ToUpper
unfoldable pub to_upper : Unicode → Bytes → Bytes
unfolding is_ascii upper_byte
to_upper u s = if is_ascii s then map upper_byte s else u.upper_wide s

-- strings.Split for a separator of one byte
unfoldable pub prepend : ℕ → List Bytes → List Bytes
prepend c [] = (c ∷ []) ∷ []
prepend c (part ∷ parts) = (c ∷ part) ∷ parts

unfoldable pub split : ℕ → Bytes → List Bytes
unfolding prepend
split sep [] = [] ∷ []
split sep (c ∷ s) = let rest = split sep s in if c == sep then [] ∷ rest else prepend c rest
