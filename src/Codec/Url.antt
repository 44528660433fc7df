-- ===== src/Codec/Url.antt =====
-- `url_encode` and `url_decode`.
pub mod RoundTrip
use vitex.Common.{
  ℕ, zero, suc, ◌+◌, ◌-◌, ◌*◌, ◌/◌, ◌%◌, List, [], ◌∷◌, ◌++◌, Bool, true, false, not, bit_or, leb,
  ◌==◌, ◌&&◌, ◌||◌, if◌then◌else◌,
}
use vitex.Codec.Chars.{at, isdigit, isalnum, isxdigit, tolower}

-- `strchr(unescape, v)`: the end of the string counts too.
abbrev pub unescape : List ℕ
unescape = 46 ∷ 95 ∷ 45 ∷ 36 ∷ 44 ∷ 59 ∷ 126 ∷ 40 ∷ 41 ∷ 0 ∷ []

abbrev pub strchr : List ℕ → ℕ → Bool
strchr [] v = false
strchr (c ∷ cs) v = (c == v) || strchr cs v

abbrev pub hex_lower_case : List ℕ
hex_lower_case =
    48 ∷ 49 ∷ 50 ∷ 51 ∷ 52 ∷ 53 ∷ 54 ∷ 55 ∷ 56 ∷ 57 ∷ 97 ∷ 98 ∷ 99 ∷ 100 ∷ 101 ∷ 102 ∷ []

abbrev pub is_escaped : ℕ → Bool
is_escaped v = not (isalnum v) && not (strchr unescape v)

unfoldable pub url_encode : List ℕ → List ℕ
url_encode [] = []
url_encode (v ∷ text) =
    let rest = url_encode text in
    if is_escaped v
    then 37 ∷ at hex_lower_case (v / 16) ∷ at hex_lower_case (v % 16) ∷ rest
    else v ∷ rest

abbrev pub hex_value : ℕ → ℕ
hex_value c = if isdigit (tolower c) then tolower c - 48 else tolower c - 87

abbrev pub unplus : ℕ → ℕ
unplus c = if c == 43 then 32 else c

-- A `%` counts where two more characters follow.
unfoldable pub url_decode : List ℕ → List ℕ
url_decode [] = []
url_decode (c ∷ []) = unplus c ∷ []
url_decode (c ∷ a ∷ []) = unplus c ∷ unplus a ∷ []
url_decode (c ∷ a ∷ b ∷ text) =
    let skipped = url_decode text in
    let next = url_decode (a ∷ b ∷ text) in
    if (c == 37) && (isxdigit a && isxdigit b)
    then bit_or (hex_value a * 16) (hex_value b) % 256 ∷ skipped
    else unplus c ∷ next
