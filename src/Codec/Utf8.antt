-- ===== src/Codec/Utf8.antt =====
-- `utf8`: the bytes that are written for a code that is not negative; the size returned is their
-- number.
pub mod RoundTrip
use vitex.Common.{ℕ, ◌+◌, ◌*◌, ◌/◌, ◌%◌, ◌^◌, List, [], ◌∷◌, bit_or, ltb, if◌then◌else◌}

abbrev pub trail : ℕ → ℕ
trail bits = bit_or 128 (bits % 64)

abbrev pub three_bytes : ℕ → List ℕ
three_bytes code = bit_or 224 (code / 4096 % 16) ∷ trail (code / 64) ∷ trail code ∷ []

unfoldable pub utf8 : ℕ → List ℕ
utf8 code =
    if ltb code 128
    then code % 128 ∷ []
    else if ltb code 2048
    then bit_or 192 (code / 64 % 32) ∷ trail code ∷ []
    else if ltb code 55296
    then three_bytes code
    else if ltb code 57344
    then []
    else if ltb code 65536
    then three_bytes code
    else if ltb code 1114112
    then bit_or 240 (code / 262144 % 8) ∷ trail (code / 4096) ∷ trail (code / 64) ∷ trail code ∷ []
    else []
