-- ===== src/Decimal/Text/Tests.antt =====
-- Texts read and written.
use vitex.Common.{◌≡◌, refl, [], ◌∷◌}
use vitex.Decimal.Number.{is_nan, is_nan_sign, drop_zeros}
use vitex.Decimal.Text.{
  is_digit, all_digits, reverse_onto, split_point, read_parts, apply_base10, print_from, sign_text,
  is_empty, to_string,
}

-- "-12.50" is printed without its last zero.
shortened :
    to_string (apply_base10 (b'-' ∷ b'1' ∷ b'2' ∷ b'.' ∷ b'5' ∷ b'0' ∷ []))
    ≡ b'-' ∷ b'1' ∷ b'2' ∷ b'.' ∷ b'5' ∷ []
unfolding to_string apply_base10 read_parts split_point reverse_onto all_digits is_digit print_from
    sign_text is_empty is_nan is_nan_sign drop_zeros
shortened = refl

-- A text with a letter is no number.
no_number : to_string (apply_base10 (b'1' ∷ b'x' ∷ [])) ≡ b'N' ∷ b'a' ∷ b'N' ∷ []
unfolding to_string apply_base10 read_parts split_point reverse_onto all_digits is_digit print_from
    sign_text is_empty is_nan is_nan_sign drop_zeros
no_number = refl
