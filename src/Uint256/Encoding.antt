-- ===== src/Uint256/Encoding.antt =====
-- `uint256::encode` and `decode` with their compact forms, on a host that stores the lowest byte
-- first: a word is swapped to the big-endian order and its bytes are then copied as they stand.
use vitex.Common.{ℕ, ◌+◌, ◌-◌, ◌*◌, ◌^◌, ◌≡◌, arith, ap, ap₂, ◌∙◌, min, List, ◌++◌}
use vitex.Common.Lists.{length, take, drop, replicate, take_all}
use vitex.Common.Bytes.{be_bytes, of_be, be_bytes-append, length-be_bytes, drop-be_bytes}
use vitex.Uint128.Word as Half
use vitex.Uint256.Word.{Uint256, IsWide, value, make}
use vitex.Uint256.Width.{bytes, bits-le, bytes_256_lem, value-lt-bytes}

pub encode : Uint256 → List ℕ
encode x =
    be_bytes 8 x.upper.upper
    ++ be_bytes 8 x.upper.lower
    ++ be_bytes 8 x.lower.upper
    ++ be_bytes 8 x.lower.lower

-- The bytes from the first that counts, with their number as the length of the list.
pub encode_compact : Uint256 → List ℕ
encode_compact x = take (bytes x) (drop (32 - bytes x) (encode x))

pub decode : List ℕ → Uint256
decode data' =
    make (Half.make (of_be (take 8 data')) (of_be (take 8 (drop 8 data'))))
      (Half.make (of_be (take 8 (drop 16 data'))) (of_be (take 8 (drop 24 data'))))

-- The bytes are copied to the front of a block of zeros.
pub decode_compact : List ℕ → Uint256
decode_compact data' =
    let n = min (length data') 32 in decode (take n data' ++ replicate (32 - n) 0)

-- Decoding the encoding of a 256-bit value gives that value back.
pub decode-encode_256 : (x : Uint256) → IsWide x → decode (encode x) ≡ x
unfolding decode encode
decode-encode_256 x w = ap₂ make (ap₂ Half.make first second) (ap₂ Half.make third fourth)
  where
    words : List ℕ
    words =
        be_bytes 8 x.upper.upper
        ++ be_bytes 8 x.upper.lower
        ++ be_bytes 8 x.lower.upper
        ++ be_bytes 8 x.lower.lower

    first : of_be (take 8 words) ≡ x.upper.upper
    first = omega (arith, w.upper_wide.upper_fits)

    second : of_be (take 8 (drop 8 words)) ≡ x.upper.lower
    second = omega (arith, w.upper_wide.lower_fits)

    third : of_be (take 8 (drop 16 words)) ≡ x.lower.upper
    third = omega (arith, w.lower_wide.upper_fits)

    fourth : of_be (take 8 (drop 24 words)) ≡ x.lower.lower
    fourth = omega (arith, w.lower_wide.lower_fits)

-- The encoding of a 256-bit value holds its 32 bytes, the highest first.
pub encode-be_bytes_256 : (x : Uint256) → IsWide x → encode x ≡ be_bytes 32 (value x)
unfolding encode
encode-be_bytes_256 x w =
    ap (λ (t : List ℕ). be_bytes 8 x.upper.upper ++ be_bytes 8 x.upper.lower ++ t)
      (be_bytes-append 8 8 x.lower.upper x.lower.lower w.lower_wide.lower_fits)
    ∙ ap (λ (t : List ℕ). be_bytes 8 x.upper.upper ++ t)
        (be_bytes-append 8 16 x.upper.lower (Half.value x.lower)
          (omega (arith, Half.value-lt x.lower w.lower_wide)))
    ∙ be_bytes-append 8 24 x.upper.upper _
        (omega (arith, Half.value-lt x.lower w.lower_wide, w.upper_wide.lower_fits))
    ∙ ap (be_bytes 32) whole
  where
    whole : x.upper.upper * 256 ^ 24 + (x.upper.lower * 256 ^ 16 + Half.value x.lower) ≡ value x
    whole = omega arith

-- The compact encoding of a 256-bit value is its lowest bytes, as many as bytes counts, the
-- highest first.
pub encode_compact-be_bytes_256 :
    (x : Uint256) → IsWide x → encode_compact x ≡ be_bytes (bytes x) (value x)
unfolding encode_compact
encode_compact-be_bytes_256 x w =
    ap (λ (t : List ℕ). take (bytes x) (drop (32 - bytes x) t))
      (encode-be_bytes_256 x w ∙ ap (λ (k : ℕ). be_bytes k (value x)) whole)
    ∙ ap (take (bytes x)) (drop-be_bytes (32 - bytes x) (bytes x) (value x) (value-lt-bytes x w))
    ∙ take_all (bytes x) (be_bytes (bytes x) (value x))
        (omega (arith, length-be_bytes (bytes x) (value x)))
  where
    whole : 32 ≡ 32 - bytes x + bytes x
    whole = omega (arith, bytes_256_lem x w, bits-le x w)
