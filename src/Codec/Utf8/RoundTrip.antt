-- ===== src/Codec/Utf8/RoundTrip.antt =====
-- The bytes of a character against the encoding form that the Unicode standard gives.
use vitex.Common.{
  ℕ, ◌+◌, ◌*◌, ◌/◌, ◌%◌, ◌≡◌, ◌≤◌, ◌<◌, ◌⊎◌, inl, inr, arith, refl, List, [], ◌∷◌, bit_or, ltb,
  ltb→lt, ◌==◌, if_both, true, false,
}
use mathlib.Core.Path.{subst}
use vitex.Codec.Chars.{equal_of, all_below_lem}
use vitex.Codec.Utf8.{utf8, trail, three_bytes}

-- A character: a code that is no surrogate.
abbrev pub IsScalar : ℕ → Type 0
IsScalar code = (code < 55296) ⊎ ((57344 ≤ code) × (code < 1114112))

-- The code of a sequence of bytes that is well-formed: the leading byte tells how many follow, each
-- of these has the form 10xxxxxx, and no shorter sequence would do.
pub data IsUtf8 : List ℕ → ℕ → Type 0 where
  one : (code : ℕ) → code < 128 → IsUtf8 (code ∷ []) code
  two : (a b : ℕ) → 2 ≤ a → a < 32 → b < 64 → IsUtf8 ((192 + a) ∷ (128 + b) ∷ []) (a * 64 + b)
  three :
      (a b c : ℕ)
      → a < 16
      → b < 64
      → c < 64
      → 2048 ≤ a * 4096 + b * 64 + c
      → IsUtf8 ((224 + a) ∷ (128 + b) ∷ (128 + c) ∷ []) (a * 4096 + b * 64 + c)
  four :
      (a b c d : ℕ)
      → a < 8
      → b < 64
      → c < 64
      → d < 64
      → 65536 ≤ a * 262144 + b * 4096 + c * 64 + d
      → IsUtf8
          ((240 + a) ∷ (128 + b) ∷ (128 + c) ∷ (128 + d) ∷ [])
          (a * 262144 + b * 4096 + c * 64 + d)

or_128 : (b : ℕ) → b < 64 → bit_or 128 b ≡ 128 + b
or_128 b h = equal_of _ _ (all_below_lem 64 (λ x. bit_or 128 x == 128 + x) refl b h)

or_192 : (b : ℕ) → b < 32 → bit_or 192 b ≡ 192 + b
or_192 b h = equal_of _ _ (all_below_lem 32 (λ x. bit_or 192 x == 192 + x) refl b h)

or_224 : (b : ℕ) → b < 16 → bit_or 224 b ≡ 224 + b
or_224 b h = equal_of _ _ (all_below_lem 16 (λ x. bit_or 224 x == 224 + x) refl b h)

or_240 : (b : ℕ) → b < 8 → bit_or 240 b ≡ 240 + b
or_240 b h = equal_of _ _ (all_below_lem 8 (λ x. bit_or 240 x == 240 + x) refl b h)

trail_lem : (code : ℕ) → trail code ≡ 128 + code % 64
trail_lem code = or_128 (code % 64) (omega arith)

module _ (code : ℕ) where
  two_lem : 128 ≤ code → code < 2048 → IsUtf8 (bit_or 192 (code / 64 % 32) ∷ trail code ∷ []) code
  two_lem h k =
      let whole : code / 64 % 32 * 64 + code % 64 ≡ code = omega arith in
      rw (or_192 (code / 64 % 32) (omega arith), trail_lem code)
        (subst (IsUtf8 _) whole
          (two (code / 64 % 32) (code % 64) (omega arith) (omega arith) (omega arith)))

  three_lem : 2048 ≤ code → code < 65536 → IsUtf8 (three_bytes code) code
  three_lem h k =
      let whole : code / 4096 % 16 * 4096 + code / 64 % 64 * 64 + code % 64 ≡ code = omega arith in
      rw (or_224 (code / 4096 % 16) (omega arith), trail_lem (code / 64), trail_lem code)
        (subst (IsUtf8 _) whole (
          three (code / 4096 % 16) (code / 64 % 64) (code % 64) (omega arith) (omega arith)
            (omega arith) (omega arith)))

  four_lem :
      65536 ≤ code
      → code < 1114112
      → IsUtf8
          (bit_or 240 (code / 262144 % 8)
            ∷ trail (code / 4096)
            ∷ trail (code / 64)
            ∷ trail code
            ∷ [])
          code
  four_lem h k =
      let whole : code / 262144 % 8 * 262144
            + code / 4096 % 64 * 4096
            + code / 64 % 64 * 64
            + code % 64
          ≡ code =
        omega arith in
      rw
        (
          or_240 (code / 262144 % 8) (omega arith),
          trail_lem (code / 4096),
          trail_lem (code / 64),
          trail_lem code,
        )
        (subst (IsUtf8 _) whole (
          four (code / 262144 % 8) (code / 4096 % 64) (code / 64 % 64) (code % 64) (omega arith)
            (omega arith) (omega arith) (omega arith) (omega arith)))

-- For a code below 0x110000 that is no surrogate, utf8 writes the one well-formed sequence of
-- bytes that the encoding form of the Unicode standard gives it: the right length, the right
-- leading and trailing bytes, the bits of the code.
pub utf8-IsUtf8 : (code : ℕ) → IsScalar code → IsUtf8 (utf8 code) code
unfolding utf8
utf8-IsUtf8 code s =
    if_both P (ltb code 128)
      (λ e. subst (λ x. IsUtf8 (x ∷ []) code) (single e) (one code (ltb→lt code 128 e)))
      (λ e1.
        if_both P (ltb code 2048) (λ e. two_lem code (ground (arith, e1)) (ltb→lt code 2048 e))
          (λ e2.
            if_both P (ltb code 55296)
              (λ e. three_lem code (ground (arith, e2)) (ground (arith, e)))
              (λ e3.
                if_both P (ltb code 57344) (λ e. absurd (no_surrogate e3 e s))
                  (λ e4.
                    if_both P (ltb code 65536)
                      (λ e. three_lem code (ground (arith, e2)) (ltb→lt code 65536 e))
                      (λ e5.
                        if_both P (ltb code 1114112)
                          (λ e. four_lem code (ground (arith, e5)) (ltb→lt code 1114112 e))
                          (λ e. absurd (too_large e3 e s)))))))
  where
    P : List ℕ → Type 0
    P text = IsUtf8 text code

    single : ltb code 128 ≡ true → code ≡ code % 128
    single e = ground (arith, e)

    no_surrogate : ltb code 55296 ≡ false → ltb code 57344 ≡ true → IsScalar code → ⊥
    no_surrogate e f (inl h) = ground (arith, e, f)
    no_surrogate e f (inr (h, k)) = ground (arith, e, f)

    too_large : ltb code 55296 ≡ false → ltb code 1114112 ≡ false → IsScalar code → ⊥
    too_large e f (inl h) = ground (arith, e, f)
    too_large e f (inr (h, k)) = ground (arith, e, f)
