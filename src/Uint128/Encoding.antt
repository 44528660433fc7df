-- ===== src/Uint128/Encoding.antt =====
-- `encode`, `decode` and their compact forms, on a host that stores the lowest byte first: a word
-- is swapped to the big-endian order and its bytes are then copied as they stand.
use vitex.Common.{ℕ, ◌+◌, ◌-◌, ◌*◌, ◌^◌, ◌<◌, ◌≡◌, arith, ap, ap₂, sym, ◌∙◌, min, List, ◌++◌}
use vitex.Common.Lists.{
  length, take, drop, replicate, take-append-drop, length-drop, take_all, length-replicate,
  length-append,
}
use vitex.Common.Bytes.{
  be_bytes, of_be, of_be-be_bytes, length-be_bytes, be_bytes-append, drop-be_bytes,
  of_be_from-append, of_be_from-zeros, of_be_from-scale,
}
use vitex.Uint128.Word.{Uint128, IsWide, value, make}
use vitex.Uint128.Width.{bytes, value-lt-bytes, bytes-le}

pub encode : Uint128 → List ℕ
encode x = be_bytes 8 x.upper ++ be_bytes 8 x.lower

-- The bytes from the first that counts, with their number as the length of the list.
pub encode_compact : Uint128 → List ℕ
encode_compact x = take (bytes x) (drop (16 - bytes x) (encode x))

pub decode : List ℕ → Uint128
decode data' = make (of_be (take 8 data')) (of_be (take 8 (drop 8 data')))

-- The bytes are copied to the front of a block of zeros.
pub decode_compact : List ℕ → Uint128
decode_compact data' =
    let n = min (length data') 16 in decode (take n data' ++ replicate (16 - n) 0)

-- Decoding the encoding of a 128-bit value gives that value back.
pub decode-encode : (x : Uint128) → IsWide x → decode (encode x) ≡ x
unfolding decode encode
decode-encode x w = ap₂ make upper lower
  where
    upper : of_be (take 8 (be_bytes 8 x.upper ++ be_bytes 8 x.lower)) ≡ x.upper
    upper = omega arith

    lower : of_be (take 8 (drop 8 (be_bytes 8 x.upper ++ be_bytes 8 x.lower))) ≡ x.lower
    lower = omega arith

-- The encoding holds the bytes of the whole number.
pub encode-be_bytes : (x : Uint128) → IsWide x → encode x ≡ be_bytes 16 (value x)
unfolding encode
encode-be_bytes x w = be_bytes-append 8 8 x.upper x.lower w.lower_fits

-- The compact encoding of a 128-bit value is its lowest bytes, as many as bytes counts, the
-- highest first.
pub encode_compact-be_bytes :
    (x : Uint128) → IsWide x → encode_compact x ≡ be_bytes (bytes x) (value x)
unfolding encode_compact
encode_compact-be_bytes x w =
    ap (λ (t : List ℕ). take (bytes x) (drop (16 - bytes x) t))
      (encode-be_bytes x w ∙ ap (λ (k : ℕ). be_bytes k (value x)) whole)
    ∙ ap (take (bytes x)) (drop-be_bytes (16 - bytes x) (bytes x) (value x) (value-lt-bytes x w))
    ∙ take_all (bytes x) (be_bytes (bytes x) (value x))
        (omega (arith, length-be_bytes (bytes x) (value x)))
  where
    whole : 16 ≡ 16 - bytes x + bytes x
    whole = omega (arith, bytes-le x)

-- A block of 16 bytes decodes to the number that it spells.
pub value-decode : (block : List ℕ) → length block ≡ 16 → value (decode block) ≡ of_be block
unfolding decode
value-decode block full = sym (
    ap of_be (sym (take-append-drop 8 block))
    ∙ of_be_from-append 0 (take 8 block) (drop 8 block)
    ∙ of_be_from-scale (of_be (take 8 block)) (drop 8 block)
    ∙ ap₂ (λ (n : ℕ) (t : List ℕ). of_be (take 8 block) * 256 ^ n + of_be t)
        (length-drop 8 block ∙ ap (λ (n : ℕ). n - 8) full)
        (sym (take_all 8 (drop 8 block) (omega (arith, length-drop 8 block)))))

-- Decoding the compact encoding of a 128-bit value gives the number times 256 to the power of the
-- count of bytes that were left out.
pub value-decode_compact-encode_compact :
    (x : Uint128)
    → IsWide x
    → value (decode_compact (encode_compact x)) ≡ value x * 256 ^ (16 - bytes x)
unfolding decode_compact
value-decode_compact-encode_compact x w =
    ap
      (λ (t : List ℕ).
        value (decode (take (min (length t) 16) t ++ replicate (16 - min (length t) 16) 0)))
      (encode_compact-be_bytes x w)
    ∙ ap (λ (n : ℕ). value (decode (take n body ++ replicate (16 - n) 0))) counted
    ∙ ap (λ (t : List ℕ). value (decode (t ++ replicate (16 - bytes x) 0)))
        (take_all (bytes x) body (omega (arith, length-be_bytes (bytes x) (value x))))
    ∙ value-decode (body ++ replicate (16 - bytes x) 0) filled
    ∙ of_be_from-append 0 body (replicate (16 - bytes x) 0)
    ∙ of_be_from-zeros (of_be body) (16 - bytes x)
    ∙ ap (λ (t : ℕ). t * 256 ^ (16 - bytes x)) (of_be-be_bytes (bytes x) (value x) small)
  where
    body : List ℕ
    body = be_bytes (bytes x) (value x)

    counted : min (length body) 16 ≡ bytes x
    counted = omega (arith, length-be_bytes (bytes x) (value x), bytes-le x)

    filled : length (body ++ replicate (16 - bytes x) 0) ≡ 16
    filled = omega (
      arith,
      length-append body (replicate (16 - bytes x) 0),
      length-replicate {A = ℕ} (16 - bytes x) 0,
      length-be_bytes (bytes x) (value x),
      bytes-le x,
    )

    small : value x < 256 ^ bytes x
    small = value-lt-bytes x w
