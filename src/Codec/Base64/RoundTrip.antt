-- ===== src/Codec/Base64/RoundTrip.antt =====
-- What is encoded with an alphabet is decoded again.
use vitex.Common.{
  ℕ, zero, suc, ◌%◌, ◌≡◌, ◌<◌, arith, refl, ap, ap₂, sym, ◌∙◌, List, [], ◌∷◌, ◌++◌, Bool, true,
  false, not, ◌==◌, ◌&&◌, if◌then◌else◌, if_both,
}
use vitex.Common.Lists.{length, replicate}
use mathlib.Core.List.{append-nil}
use vitex.Codec.Chars.{at, and_both, equal_of, all_below, all_below_lem}
use vitex.Codec.Base64.{
  offset_of64, digit0, digit1, digit2, digit3, encode64, alphabetic, byte0, byte1, byte2,
  decode_rows, decode64, base64_set, base64_url_set, is_base64, is_base64_url, base64_encode,
  base64_decode, base64_url_encode, base64_url_decode,
}

abbrev pub AllBytes : List ℕ → Type 0
AllBytes [] = Unit
AllBytes (b ∷ bs) = (b < 256) × AllBytes bs

-- The digits of an alphabet are read as they are written.
abbrev is_digit_of : List ℕ → (ℕ → Bool) → ℕ → Bool
is_digit_of alphabet ok i =
    (offset_of64 alphabet (at alphabet i) == i) && (not (at alphabet i == 61) && ok (at alphabet i))

-- Three bytes from their four digits.
byte0-digits : (a b : ℕ) → a < 256 → byte0 (digit0 a) (digit1 a b) ≡ a
byte0-digits a b h = omega arith

byte1-digits : (a b c : ℕ) → b < 256 → byte1 (digit1 a b) (digit2 b c) ≡ b
byte1-digits a b c h = omega arith

byte2-digits : (b c : ℕ) → c < 256 → byte2 (digit2 b c) (digit3 c) ≡ c
byte2-digits b c h = omega arith

module _ (alphabet : List ℕ) (ok : ℕ → Bool)
    (good : all_below 64 (is_digit_of alphabet ok) ≡ true) where
  digit_of : (i : ℕ) → i < 64 → is_digit_of alphabet ok i ≡ true
  digit_of i h = all_below_lem 64 (is_digit_of alphabet ok) good i h

  offset-at : (i : ℕ) → i < 64 → offset_of64 alphabet (at alphabet i) ≡ i
  offset-at i h = equal_of _ i (and_both _ _ (digit_of i h)).0

  taken :
      (i : ℕ) (text : List ℕ)
      → i < 64
      → alphabetic ok (at alphabet i ∷ text) ≡ at alphabet i ∷ alphabetic ok text
  unfolding alphabetic
  taken i text h =
      let valid : not (at alphabet i == 61) && ok (at alphabet i) ≡ true =
        (and_both _ _ (digit_of i h)).1 in
      rw valid refl

  -- The end of a text: nothing, or characters that fill up a row.
  alphabetic-fill : (n : ℕ) → alphabetic ok (replicate n 61) ≡ []
  unfolding alphabetic
  alphabetic-fill zero = refl
  alphabetic-fill (suc n) = refl

  taken2 :
      (i j : ℕ) (text : List ℕ)
      → i < 64
      → j < 64
      → alphabetic ok (at alphabet i ∷ at alphabet j ∷ text)
        ≡ at alphabet i ∷ at alphabet j ∷ alphabetic ok text
  taken2 i j text h k =
      taken i (at alphabet j ∷ text) h ∙ ap (λ (t : List ℕ). at alphabet i ∷ t) (taken j text k)

  decode_row2 :
      (i j : ℕ)
      → i < 64
      → j < 64
      → decode_rows alphabet (at alphabet i ∷ at alphabet j ∷ []) ≡ byte0 i j ∷ []
  unfolding decode_rows
  decode_row2 i j h k = rw (offset-at i h, offset-at j k) refl

  decode_row3 :
      (i j k : ℕ)
      → i < 64
      → j < 64
      → k < 64
      → decode_rows alphabet (at alphabet i ∷ at alphabet j ∷ at alphabet k ∷ [])
        ≡ byte0 i j ∷ byte1 j k ∷ []
  unfolding decode_rows
  decode_row3 i j k h l m = rw (offset-at i h, offset-at j l, offset-at k m) refl

  decode_row4 :
      (i j k l : ℕ) (text : List ℕ)
      → i < 64
      → j < 64
      → k < 64
      → l < 64
      → decode_rows alphabet (at alphabet i ∷ at alphabet j ∷ at alphabet k ∷ at alphabet l ∷ text)
        ≡ byte0 i j ∷ byte1 j k ∷ byte2 k l ∷ decode_rows alphabet text
  unfolding decode_rows
  decode_row4 i j k l text h m n o =
      rw (offset-at i h, offset-at j m, offset-at k n, offset-at l o) refl

  pub decode64-encode64 :
      (value : List ℕ) (padding : Bool) (n : ℕ)
      → AllBytes value
      → decode64 alphabet (encode64 alphabet value padding ++ replicate n 61) ok ≡ value
  unfolding decode64 encode64
  decode64-encode64 [] padding n h = ap (decode_rows alphabet) (alphabetic-fill n)
  decode64-encode64 (a ∷ []) padding n (h, _) =
      ap (decode_rows alphabet) (
        taken2 (digit0 a) (digit1 a 0) ((if padding then 61 ∷ 61 ∷ [] else []) ++ replicate n 61)
          (omega arith) (omega arith)
        ∙ ap (λ (t : List ℕ). at alphabet (digit0 a) ∷ at alphabet (digit1 a 0) ∷ t)
            (ending padding))
      ∙ decode_row2 (digit0 a) (digit1 a 0) (omega arith) (omega arith)
      ∙ ap (λ (x : ℕ). x ∷ []) (byte0-digits a 0 h)
    where
      ending :
          (padding : Bool)
          → alphabetic ok ((if padding then 61 ∷ 61 ∷ [] else []) ++ replicate n 61) ≡ []
      ending true = unfold alphabetic in refl
      ending false = alphabetic-fill n
  decode64-encode64 (a ∷ b ∷ []) padding n (h, (k, _)) =
      ap (decode_rows alphabet) (
        taken2 (digit0 a) (digit1 a b)
          (at alphabet (digit2 b 0) ∷ ((if padding then 61 ∷ [] else []) ++ replicate n 61))
          (omega arith) (omega arith)
        ∙ ap (λ (t : List ℕ). at alphabet (digit0 a) ∷ at alphabet (digit1 a b) ∷ t)
            (taken (digit2 b 0) ((if padding then 61 ∷ [] else []) ++ replicate n 61) (omega arith)
              ∙ ap (λ (t : List ℕ). at alphabet (digit2 b 0) ∷ t) (ending padding)))
      ∙ decode_row3 (digit0 a) (digit1 a b) (digit2 b 0) (omega arith) (omega arith) (omega arith)
      ∙ ap₂ (λ (x y : ℕ). x ∷ y ∷ []) (byte0-digits a b h) (byte1-digits a b 0 k)
    where
      ending :
          (padding : Bool)
          → alphabetic ok ((if padding then 61 ∷ [] else []) ++ replicate n 61) ≡ []
      ending true = unfold alphabetic in refl
      ending false = alphabetic-fill n
  decode64-encode64 (a ∷ b ∷ c ∷ value) padding n (h, (k, (m, hs))) =
      ap (decode_rows alphabet) (
        taken2 (digit0 a) (digit1 a b)
          (at alphabet (digit2 b c)
            ∷ at alphabet (digit3 c)
            ∷ (encode64 alphabet value padding ++ replicate n 61))
          (omega arith) (omega arith)
        ∙ ap (λ (t : List ℕ). at alphabet (digit0 a) ∷ at alphabet (digit1 a b) ∷ t)
            (taken2 (digit2 b c) (digit3 c) (encode64 alphabet value padding ++ replicate n 61)
              (omega arith) (omega arith)))
      ∙ decode_row4 (digit0 a) (digit1 a b) (digit2 b c) (digit3 c)
          (alphabetic ok (encode64 alphabet value padding ++ replicate n 61)) (omega arith)
          (omega arith) (omega arith) (omega arith)
      ∙ rw
          (
            byte0-digits a b h,
            byte1-digits a b c k,
            byte2-digits b c m,
            decode64-encode64 value padding n hs,
          )
          refl

-- Decoding the padded base64 text of any bytes gives these bytes back.
pub base64_decode-base64_encode :
    (value : List ℕ) → AllBytes value → base64_decode (base64_encode value) ≡ value
unfolding base64_decode base64_encode
base64_decode-base64_encode value h =
    ap (λ (t : List ℕ). decode64 base64_set t is_base64)
      (sym (append-nil (encode64 base64_set value true)))
    ∙ decode64-encode64 base64_set is_base64 good value true 0 h
  where
    good : all_below 64 (is_digit_of base64_set is_base64) ≡ true
    good = unfold offset_of64 is_base64 in refl

-- Decoding the unpadded base64 text of any bytes over the alphabet for addresses, which puts the
-- padding back first, gives these bytes back.
pub base64_url_decode-base64_url_encode :
    (value : List ℕ) → AllBytes value → base64_url_decode (base64_url_encode value) ≡ value
unfolding base64_url_decode base64_url_encode
base64_url_decode-base64_url_encode value h =
    if_both (λ (t : List ℕ). t ≡ value) (length text % 4 == 0)
      (λ e.
        ap (λ (t : List ℕ). decode64 base64_url_set t is_base64_url) (sym (append-nil text))
        ∙ decode64-encode64 base64_url_set is_base64_url good value false 0 h)
      (λ e. decode64-encode64 base64_url_set is_base64_url good value false _ h)
  where
    good : all_below 64 (is_digit_of base64_url_set is_base64_url) ≡ true
    good = unfold offset_of64 is_base64_url in refl

    text : List ℕ
    text = encode64 base64_url_set value false

-- Decoding the padded base64 text of any bytes gives these bytes back, and so does decoding their
-- unpadded text over the alphabet for addresses, which puts the padding back first.
pub base64_lem :
    (value : List ℕ)
    → AllBytes value
    → (base64_decode (base64_encode value) ≡ value)
      × (base64_url_decode (base64_url_encode value) ≡ value)
base64_lem value h =
    (base64_decode-base64_encode value h, base64_url_decode-base64_url_encode value h)
