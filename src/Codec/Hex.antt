-- ===== src/Codec/Hex.antt =====
-- `hex_encode` and `hex_decode`.
pub mod RoundTrip
use vitex.Common.{
  ℕ, zero, suc, ◌+◌, ◌-◌, ◌*◌, ◌/◌, ◌%◌, List, [], ◌∷◌, Bool, true, false, leb, ◌==◌, ◌&&◌, ◌||◌,
  if◌then◌else◌,
}
use vitex.Codec.Chars.{at, isxdigit}
use vitex.Codec.Url.{hex_lower_case, hex_value}

abbrev pub hex_upper_case : List ℕ
hex_upper_case = 48 ∷ 49 ∷ 50 ∷ 51 ∷ 52 ∷ 53 ∷ 54 ∷ 55 ∷ 56 ∷ 57 ∷ 65 ∷ 66 ∷ 67 ∷ 68 ∷ 69 ∷ 70 ∷ []

abbrev pub hex_set : Bool → List ℕ
hex_set upper_case = if upper_case then hex_upper_case else hex_lower_case

unfoldable pub hex_encode : List ℕ → Bool → List ℕ
hex_encode [] upper_case = []
hex_encode (c ∷ value) upper_case =
    at (hex_set upper_case) (c / 16)
    ∷ at (hex_set upper_case) (c % 16)
    ∷ hex_encode value upper_case

-- The first digit of a small byte is left out.
unfoldable pub hex_encode_odd : List ℕ → Bool → List ℕ
hex_encode_odd [] upper_case = []
hex_encode_odd (c ∷ value) upper_case =
    let rest = at (hex_set upper_case) (c % 16) ∷ hex_encode_odd value upper_case in
    if leb 16 c then at (hex_set upper_case) (c / 16) ∷ rest else rest

-- `strtol` in base 16 on two characters at most, as a byte: a text that short holds no digit behind
-- a `0x`.
abbrev pub isspace : ℕ → Bool
isspace c = (c == 32) || (leb 9 c && leb c 13)

unfoldable pub read_digits : ℕ → List ℕ → ℕ
read_digits n [] = n
read_digits n (c ∷ cs) =
    let longer = read_digits (n * 16 + hex_value c) cs in if isxdigit c then longer else n

unfoldable pub read_signed : List ℕ → ℕ
unfolding read_digits
read_signed [] = 0
read_signed (c ∷ cs) =
    if c == 45
    then (256 - read_digits 0 cs % 256) % 256
    else if c == 43
    then read_digits 0 cs % 256
    else read_digits 0 (c ∷ cs) % 256

unfoldable pub strtol : List ℕ → ℕ
unfolding read_signed
strtol [] = 0
strtol (c ∷ cs) = let later = strtol cs in if isspace c then later else read_signed (c ∷ cs)

unfoldable pub decode_pairs : List ℕ → List ℕ
unfolding strtol
decode_pairs [] = []
decode_pairs (a ∷ []) = strtol (a ∷ []) ∷ []
decode_pairs (a ∷ b ∷ value) = strtol (a ∷ b ∷ []) ∷ decode_pairs value

unfoldable pub hex_decode : List ℕ → List ℕ
unfolding decode_pairs
hex_decode (a ∷ b ∷ value) =
    if (a == 48) && (b == 120) then decode_pairs value else decode_pairs (a ∷ b ∷ value)
hex_decode value = decode_pairs value
