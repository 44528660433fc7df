-- ===== src/Codec/Base64.antt =====
-- `encode64` and `decode64` over any alphabet of 64 characters, and the two alphabets in use.
pub mod RoundTrip
use vitex.Common.{
  ℕ, zero, suc, ◌+◌, ◌-◌, ◌*◌, ◌/◌, ◌%◌, List, [], ◌∷◌, ◌++◌, Bool, true, false, not, ltb, ◌==◌,
  ◌&&◌, ◌||◌, if◌then◌else◌,
}
use vitex.Common.Lists.{length, replicate}
use vitex.Codec.Chars.{at, isalnum}

-- The place of a character among 64; 63 where it has none.
unfoldable pub offset_of64_from : ℕ → ℕ → List ℕ → ℕ → ℕ
offset_of64_from zero i source dest = 63
offset_of64_from (suc n) i [] dest = 63
offset_of64_from (suc n) i (c ∷ source) dest =
    let rest = offset_of64_from n (i + 1) source dest in if c == dest then i else rest

unfoldable pub offset_of64 : List ℕ → ℕ → ℕ
unfolding offset_of64_from
offset_of64 source dest = offset_of64_from 64 0 source dest

-- The four digits of three bytes.
abbrev pub digit0 : ℕ → ℕ
digit0 a = a / 4 % 64

abbrev pub digit1 : ℕ → ℕ → ℕ
digit1 a b = a % 4 * 16 + b / 16 % 16

abbrev pub digit2 : ℕ → ℕ → ℕ
digit2 b c = b % 16 * 4 + c / 64 % 4

abbrev pub digit3 : ℕ → ℕ
digit3 c = c % 64

-- Rows of three bytes; `=` fills up the last one where padding is wanted.
unfoldable pub encode64 : List ℕ → List ℕ → Bool → List ℕ
encode64 alphabet [] padding = []
encode64 alphabet (a ∷ []) padding =
    at alphabet (digit0 a) ∷ at alphabet (digit1 a 0) ∷ (if padding then 61 ∷ 61 ∷ [] else [])
encode64 alphabet (a ∷ b ∷ []) padding =
    at alphabet (digit0 a)
    ∷ at alphabet (digit1 a b)
    ∷ at alphabet (digit2 b 0)
    ∷ (if padding then 61 ∷ [] else [])
encode64 alphabet (a ∷ b ∷ c ∷ value) padding =
    at alphabet (digit0 a)
    ∷ at alphabet (digit1 a b)
    ∷ at alphabet (digit2 b c)
    ∷ at alphabet (digit3 c)
    ∷ encode64 alphabet value padding

-- The characters before the first `=` or the first one that is not of the alphabet.
unfoldable pub alphabetic : (ℕ → Bool) → List ℕ → List ℕ
alphabetic is_alphabetic [] = []
alphabetic is_alphabetic (c ∷ value) =
    let rest = alphabetic is_alphabetic value in
    if not (c == 61) && is_alphabetic c then c ∷ rest else []

-- The three bytes of four digits.
abbrev pub byte0 : ℕ → ℕ → ℕ
byte0 p q = (p * 4 + q / 16 % 4) % 256

abbrev pub byte1 : ℕ → ℕ → ℕ
byte1 q r = (q % 16 * 16 + r / 4 % 16) % 256

abbrev pub byte2 : ℕ → ℕ → ℕ
byte2 r s = (r % 4 * 64 + s) % 256

-- Rows of four characters; a row that is not full gives one byte less than it has characters.
unfoldable pub decode_rows : List ℕ → List ℕ → List ℕ
unfolding offset_of64
decode_rows alphabet [] = []
decode_rows alphabet (p ∷ []) = []
decode_rows alphabet (p ∷ q ∷ []) = byte0 (offset_of64 alphabet p) (offset_of64 alphabet q) ∷ []
decode_rows alphabet (p ∷ q ∷ r ∷ []) =
    byte0 (offset_of64 alphabet p) (offset_of64 alphabet q)
    ∷ byte1 (offset_of64 alphabet q) (offset_of64 alphabet r)
    ∷ []
decode_rows alphabet (p ∷ q ∷ r ∷ s ∷ value) =
    byte0 (offset_of64 alphabet p) (offset_of64 alphabet q)
    ∷ byte1 (offset_of64 alphabet q) (offset_of64 alphabet r)
    ∷ byte2 (offset_of64 alphabet r) (offset_of64 alphabet s)
    ∷ decode_rows alphabet value

unfoldable pub decode64 : List ℕ → List ℕ → (ℕ → Bool) → List ℕ
unfolding alphabetic decode_rows
decode64 alphabet value is_alphabetic = decode_rows alphabet (alphabetic is_alphabetic value)

-- From a code on, so many codes in a row.
abbrev pub codes : ℕ → ℕ → List ℕ
codes first zero = []
codes first (suc n) = first ∷ codes (first + 1) n

-- A to Z, a to z, 0 to 9, and two more.
abbrev pub base64_set : List ℕ
base64_set = codes 65 26 ++ codes 97 26 ++ codes 48 10 ++ 43 ∷ 47 ∷ []

abbrev pub base64_url_set : List ℕ
base64_url_set = codes 65 26 ++ codes 97 26 ++ codes 48 10 ++ 45 ∷ 95 ∷ []

unfoldable pub is_base64 : ℕ → Bool
is_base64 c = isalnum c || (c == 43) || (c == 47)

unfoldable pub is_base64_url : ℕ → Bool
is_base64_url c = isalnum c || (c == 45) || (c == 95)

unfoldable pub base64_encode : List ℕ → List ℕ
unfolding encode64
base64_encode value = encode64 base64_set value true

unfoldable pub base64_decode : List ℕ → List ℕ
unfolding decode64 is_base64
base64_decode value = decode64 base64_set value is_base64

unfoldable pub base64_url_encode : List ℕ → List ℕ
unfolding encode64
base64_url_encode value = encode64 base64_url_set value false

unfoldable pub base64_url_decode : List ℕ → List ℕ
unfolding decode64 is_base64_url
base64_url_decode value =
    let padding = length value % 4 in
    if padding == 0
    then decode64 base64_url_set value is_base64_url
    else decode64 base64_url_set (value ++ replicate (4 - padding) 61) is_base64_url
