-- ===== src/Codec/Examples.antt =====
-- Runs of the theorems on the text codecs at concrete texts and numbers.
use vitex.Common.{ℕ, ◌≡◌, inl, refl, arith, List, [], ◌∷◌, true, some}
use vitex.Codec.Base64.{
  base64_encode, base64_decode, base64_url_encode, base64_url_decode, base64_set, offset_of64,
}
use vitex.Codec.Base64.RoundTrip.{AllBytes, base64_lem}
use vitex.Codec.Url.{url_encode, url_decode}
use vitex.Codec.Url.RoundTrip.{url_decode-url_encode}
use vitex.Codec.Hex.{hex_encode, hex_decode}
use vitex.Codec.Hex.RoundTrip.{hex_decode-hex_encode}
use vitex.Codec.Number.{base_set, base10_to_base_n}
use vitex.Codec.Number.Radix.{read_base, read_base-base10_to_base_n}
use vitex.Codec.Utf8.{utf8}
use vitex.Codec.Utf8.RoundTrip.{IsUtf8, utf8-IsUtf8}

-- "a+%" and two bytes that are no characters.
abbrev some_bytes : List ℕ
some_bytes = 97 ∷ 43 ∷ 37 ∷ 0 ∷ 255 ∷ []

some_bytes-AllBytes : AllBytes some_bytes
some_bytes-AllBytes = (omega arith, (omega arith, (omega arith, (omega arith, (omega arith, tt)))))

url_decode-url_encode_example : url_decode (url_encode some_bytes) ≡ some_bytes
url_decode-url_encode_example = url_decode-url_encode some_bytes some_bytes-AllBytes

hex_decode-hex_encode_example : hex_decode (hex_encode some_bytes true) ≡ some_bytes
hex_decode-hex_encode_example = hex_decode-hex_encode some_bytes true some_bytes-AllBytes

read_base-base10_to_base_n_example :
    (text : List ℕ) × (base10_to_base_n 1000 36 ≡ some text)
    × (read_base (base_set 36) 36 text 0 ≡ 1000)
read_base-base10_to_base_n_example =
    read_base-base10_to_base_n 36 (omega arith) (omega arith) 1000 (λ e. ground arith) (omega arith)

utf8-IsUtf8_example : IsUtf8 (utf8 8364) 8364
utf8-IsUtf8_example = utf8-IsUtf8 8364 (inl (omega arith))

-- "M" is "TQ==", and 0 in base 64 is written as the digit for 52.
base64_test : base64_encode (77 ∷ []) ≡ 84 ∷ 81 ∷ 61 ∷ 61 ∷ []
unfolding base64_encode
base64_test = refl

zero_test : (base10_to_base_n 0 64 ≡ some (48 ∷ [])) × (read_base base64_set 64 (48 ∷ []) 0 ≡ 52)
unfolding base10_to_base_n read_base offset_of64
zero_test = (refl, refl)

base64_example :
    (base64_decode (base64_encode some_bytes) ≡ some_bytes)
    × (base64_url_decode (base64_url_encode some_bytes) ≡ some_bytes)
base64_example = base64_lem some_bytes some_bytes-AllBytes
