-- ===== src/Dashboard/Format.antt =====
-- internal/dashboard/format.go: the texts of numbers, durations and countries.
--
-- Numbers come as strconv.Itoa's texts. The rounding of a float64 of seconds is that of a fraction;
-- fmtPct, which formats a float64, is left out.
pub mod Groups
use Prim.Native.String.{String}
use glimt.Base.{
  ℕ, ◌+◌, ◌-◌, ◌*◌, ◌/◌, ◌%◌, Bool, true, false, ◌&&◌, ◌||◌, not, List, [], ◌∷◌, ◌++◌, map, Bytes,
  codes, same, is_empty, has_prefix, drop, take, length, ltb, leb, ◌==◌, if◌then◌else◌, trim_space,
  Unicode, to_upper,
}

-- The loop of fmtNum: `n` is the length of the text, `i` the index of the next byte.
unfoldable pub spaced : ℕ → ℕ → Bytes → Bytes
spaced n i [] = []
spaced n i (c ∷ s) =
    let rest = c ∷ spaced n (i + 1) s in if ltb 0 i && (n - i) % 3 == 0 then 32 ∷ rest else rest

unfoldable pub fmt_num : Bytes → Bytes
unfolding spaced
fmt_num s =
    if has_prefix s (codes "-")
    then codes "-" ++ spaced (length (drop 1 s)) 0 (drop 1 s)
    else spaced (length s) 0 s

-- A duration of num / den seconds, at least 0, with the texts of `itoa`.
unfoldable pub fmt_duration : (ℕ → Bytes) → ℕ → ℕ → Bytes
fmt_duration itoa num den =
    let s = (2 * num + den) / (2 * den) in
    let m = s / 60 in
    if ltb s 60
    then itoa s ++ codes "s"
    else if ltb m 60
    then itoa m ++ codes "m " ++ itoa (s % 60) ++ codes "s"
    else itoa (m / 60) ++ codes "h " ++ itoa (m % 60) ++ codes "m"

-- The bytes in UTF-8 of the regional indicator of a capital.
abbrev pub indicator : ℕ → Bytes
indicator c = 240 ∷ 159 ∷ 135 ∷ (166 + (c - 65)) ∷ []

-- Both letters of the code, or nothing.
unfoldable pub indicators : Bytes → Bytes
indicators (a ∷ b ∷ []) =
    if ltb a 65 || ltb 90 a || ltb b 65 || ltb 90 b then [] else indicator a ++ indicator b
indicators s = []

unfoldable pub flag : Unicode → Bytes → Bytes
unfolding indicators
flag u code = indicators (to_upper u (trim_space code))

unfoldable pub capitalize : Unicode → Bytes → Bytes
capitalize u s = if is_empty s then s else to_upper u (take 1 s) ++ drop 1 s

abbrev pub entry : String → String → Bytes × Bytes
entry code name = (codes code, codes name)

abbrev pub countries : List (Bytes × Bytes)
countries =
    entry "US" "United States"
    ∷ entry "GB" "United Kingdom"
    ∷ entry "DE" "Germany"
    ∷ entry "FR" "France"
    ∷ entry "NL" "Netherlands"
    ∷ entry "SE" "Sweden"
    ∷ entry "NO" "Norway"
    ∷ entry "DK" "Denmark"
    ∷ entry "FI" "Finland"
    ∷ entry "IS" "Iceland"
    ∷ entry "ES" "Spain"
    ∷ entry "IT" "Italy"
    ∷ entry "PT" "Portugal"
    ∷ entry "PL" "Poland"
    ∷ entry "CZ" "Czechia"
    ∷ entry "AT" "Austria"
    ∷ entry "CH" "Switzerland"
    ∷ entry "BE" "Belgium"
    ∷ entry "IE" "Ireland"
    ∷ entry "CA" "Canada"
    ∷ entry "AU" "Australia"
    ∷ entry "NZ" "New Zealand"
    ∷ entry "JP" "Japan"
    ∷ entry "CN" "China"
    ∷ entry "IN" "India"
    ∷ entry "BR" "Brazil"
    ∷ entry "MX" "Mexico"
    ∷ entry "RU" "Russia"
    ∷ entry "UA" "Ukraine"
    ∷ entry "TR" "Turkey"
    ∷ entry "ZA" "South Africa"
    ∷ entry "KR" "South Korea"
    ∷ entry "SG" "Singapore"
    ∷ entry "HK" "Hong Kong"
    ∷ entry "TW" "Taiwan"
    ∷ entry "ID" "Indonesia"
    ∷ entry "AR" "Argentina"
    ∷ entry "CL" "Chile"
    ∷ entry "CO" "Colombia"
    ∷ entry "GR" "Greece"
    ∷ entry "RO" "Romania"
    ∷ entry "HU" "Hungary"
    ∷ entry "BG" "Bulgaria"
    ∷ entry "HR" "Croatia"
    ∷ entry "SK" "Slovakia"
    ∷ entry "SI" "Slovenia"
    ∷ entry "EE" "Estonia"
    ∷ entry "LV" "Latvia"
    ∷ entry "LT" "Lithuania"
    ∷ entry "IL" "Israel"
    ∷ entry "AE" "UAE"
    ∷ entry "SA" "Saudi Arabia"
    ∷ entry "TH" "Thailand"
    ∷ entry "VN" "Vietnam"
    ∷ entry "PH" "Philippines"
    ∷ entry "MY" "Malaysia"
    ∷ []

unfoldable pub name_in : List (Bytes × Bytes) → Bytes → Bytes
name_in [] code = if is_empty code then codes "Unknown" else code
name_in ((c, name) ∷ rest) code = if same c code then name else name_in rest code

unfoldable pub country_name : Unicode → Bytes → Bytes
unfolding name_in
country_name u code = name_in countries (to_upper u (trim_space code))
