-- ===== src/Codec/Hex/RoundTrip.antt =====
-- What is written in hexadecimal digits is read again.
use vitex.Common.{
  ℕ, ◌/◌, ◌%◌, ◌≡◌, ◌<◌, arith, refl, ap₂, List, [], ◌∷◌, Bool, true, false, not, ◌==◌, ◌&&◌,
  if_both,
}
use vitex.Codec.Chars.{at, and_both, equal_of, all_below_lem}
use vitex.Codec.Base64.RoundTrip.{AllBytes}
use vitex.Codec.Hex.{
  hex_set, hex_encode, read_digits, read_signed, strtol, decode_pairs, hex_decode,
}

abbrev is_read : Bool → ℕ → Bool
is_read upper_case c =
    (strtol (at (hex_set upper_case) (c / 16) ∷ at (hex_set upper_case) (c % 16) ∷ []) == c)
    && not (at (hex_set upper_case) (c % 16) == 120)

read_all : (upper_case : Bool) (c : ℕ) → c < 256 → is_read upper_case c ≡ true
unfolding strtol read_signed read_digits
read_all true = all_below_lem 256 (is_read true) refl
read_all false = all_below_lem 256 (is_read false) refl

decode_pairs-hex_encode :
    (value : List ℕ) (upper_case : Bool)
    → AllBytes value
    → decode_pairs (hex_encode value upper_case) ≡ value
unfolding decode_pairs hex_encode
decode_pairs-hex_encode [] upper_case h = refl
decode_pairs-hex_encode (c ∷ value) upper_case (h, hs) =
    ap₂ (λ (x : ℕ) (t : List ℕ). x ∷ t) (equal_of _ c (and_both _ _ (read_all upper_case c h)).0)
      (decode_pairs-hex_encode value upper_case hs)

-- Decoding the hexadecimal text of any bytes, in lower or upper case, gives these bytes back; the
-- test for a leading 0x never takes a part of such a text away.
pub hex_decode-hex_encode :
    (value : List ℕ) (upper_case : Bool)
    → AllBytes value
    → hex_decode (hex_encode value upper_case) ≡ value
unfolding hex_decode hex_encode
hex_decode-hex_encode [] upper_case h = decode_pairs-hex_encode [] upper_case h
hex_decode-hex_encode (c ∷ value) upper_case (h, hs) =
    if_both (λ (t : List ℕ). t ≡ c ∷ value)
      ((at (hex_set upper_case) (c / 16) == 48) && (at (hex_set upper_case) (c % 16) == 120))
      (λ e.
        let last : not (at (hex_set upper_case) (c % 16) == 120) ≡ true =
          (and_both _ _ (read_all upper_case c h)).1 in
        let prefix : at (hex_set upper_case) (c % 16) == 120 ≡ true = (and_both _ _ e).1 in
        absurd (never _ prefix last))
      (λ e. decode_pairs-hex_encode (c ∷ value) upper_case (h, hs))
  where
    never : (b : Bool) → b ≡ true → not b ≡ true → ⊥
    never b p q = ground arith
