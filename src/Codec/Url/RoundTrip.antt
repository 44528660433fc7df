-- ===== src/Codec/Url/RoundTrip.antt =====
-- What is percent-encoded is decoded again.
use vitex.Common.{
  ℕ, ◌*◌, ◌/◌, ◌%◌, ◌≡◌, ◌<◌, inl, inr, arith, refl, ap, ◌∙◌, List, [], ◌∷◌, Bool, true, false, not,
  bit_or, ◌==◌, ◌&&◌, if◌then◌else◌, Bool-cases,
}
use vitex.Codec.Chars.{at, isxdigit, and_both, equal_of, all_below_lem}
use vitex.Codec.Base64.RoundTrip.{AllBytes}
use vitex.Codec.Url.{is_escaped, hex_lower_case, hex_value, unplus, url_encode, url_decode}

-- A byte is read as it is written.
abbrev is_read : ℕ → Bool
is_read v =
    if is_escaped v
    then (isxdigit (at hex_lower_case (v / 16)) && isxdigit (at hex_lower_case (v % 16)))
      && (bit_or (hex_value (at hex_lower_case (v / 16)) * 16)
              (hex_value (at hex_lower_case (v % 16)))
            % 256
          == v)
    else not (v == 37) && (unplus v == v)

read_all : (v : ℕ) → v < 256 → is_read v ≡ true
read_all = all_below_lem 256 is_read refl

escaped :
    (v : ℕ) (text : List ℕ)
    → v < 256
    → is_escaped v ≡ true
    → url_decode (37 ∷ at hex_lower_case (v / 16) ∷ at hex_lower_case (v % 16) ∷ text)
      ≡ v ∷ url_decode text
unfolding url_decode
escaped v text h e =
    let checked : (isxdigit (at hex_lower_case (v / 16)) && isxdigit (at hex_lower_case (v % 16)))
          && (bit_or (hex_value (at hex_lower_case (v / 16)) * 16)
                  (hex_value (at hex_lower_case (v % 16)))
                % 256
              == v)
        ≡ true =
      rw e at (read_all v h) in
    let digits : isxdigit (at hex_lower_case (v / 16)) && isxdigit (at hex_lower_case (v % 16))
        ≡ true =
      (and_both _ _ checked).0 in
    rw digits (ap (λ (x : ℕ). x ∷ url_decode text) (equal_of _ v (and_both _ _ checked).1))

plain_byte :
    (v : ℕ) (text : List ℕ)
    → not (v == 37) ≡ true
    → unplus v ≡ v
    → url_decode (v ∷ text) ≡ v ∷ url_decode text
unfolding url_decode
plain_byte v [] p q = ap (λ (x : ℕ). x ∷ []) q
plain_byte v (a ∷ []) p q = ap (λ (x : ℕ). x ∷ unplus a ∷ []) q
plain_byte v (a ∷ b ∷ text) p q =
    let other : v == 37 ≡ false = ground (arith, p) in
    rw other (ap (λ (x : ℕ). x ∷ url_decode (a ∷ b ∷ text)) q)

-- Decoding the percent-encoded text of any bytes gives these bytes back.
pub url_decode-url_encode : (text : List ℕ) → AllBytes text → url_decode (url_encode text) ≡ text
unfolding url_encode url_decode
url_decode-url_encode [] h = refl
url_decode-url_encode (v ∷ text) (h, hs) = elim (Bool-cases (is_escaped v)) [
  | inl e ↦
      rw e (escaped v (url_encode text) h e)
      ∙ ap (λ (t : List ℕ). v ∷ t) (url_decode-url_encode text hs)
  | inr e ↦
      let (p, q) = and_both _ _ (rw e at (read_all v h)) in
      rw e (plain_byte v (url_encode text) p (equal_of _ v q))
      ∙ ap (λ (t : List ℕ). v ∷ t) (url_decode-url_encode text hs)
]
