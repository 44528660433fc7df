-- ===== src/Decimal/Division/Laws.antt =====
-- Runs of the division, and the divisor -0.
use vitex.Common.{ℕ, zero, suc, ◌+◌, ◌≡◌, refl, [], ◌∷◌, none, some}
use vitex.Decimal.Digits.{
  char_to_int, int_to_char, sum_digit, sum_carry, sum_from, sum, subtract_digit, subtract_carry,
  subtract_from, subtract, reduce, multiply_row, multiply_from, multiply,
}
use vitex.Decimal.Digits.Compare.{compare_chars, compare_digits}
use vitex.Decimal.Number.{
  plus, minus, Decimal, is_nan, is_nan_sign, all_zeros, is_zero, pad, strip_char, strip, unlead,
  compare_num, zero_number,
}
use vitex.Decimal.Order.{same_sign, eq, gt_cases, lt_cases, gt, lt, ge}
use vitex.Decimal.Arith.{difference, total, subtract_cases, sub, product_sign, mul, one_number}
use vitex.Decimal.Division.{
  of_digit, magnitude, without_point, middle, find_digit, clear_zero, write_digit, divide_round,
  divide_digits, div, modulo_of, rem,
}

abbrev pub minus_zero : Decimal
minus_zero = record zero_number { sign = minus }

abbrev five : Decimal
five = of_digit 5

middle_lem : middle 9 ≡ 5
unfolding middle
middle_lem = refl

-- 85 / 5 = 17.
exact_division :
    div 20 (record { source = b'5' ∷ b'8' ∷ []; length = 0; sign = plus }) five
    ≡ some (record { source = b'7' ∷ b'1' ∷ []; length = 0; sign = plus })
unfolding div magnitude without_point divide_digits divide_round find_digit middle write_digit
    clear_zero is_nan is_nan_sign all_zeros is_zero pad strip_char strip unlead compare_num
    compare_chars compare_digits same_sign eq gt_cases lt_cases gt lt ge difference total
    subtract_cases sub product_sign mul char_to_int int_to_char sum_digit sum_carry sum_from sum
    subtract_digit subtract_carry subtract_from subtract reduce multiply_row multiply_from multiply
exact_division = refl

-- 1002 / 5 gives the digits 2, 0 and the character behind '9' by eleven: the running remainder "02"
-- keeps its leading zero, so that it is longer than the divisor and counts as greater.
leading_zero :
    div 20 (record { source = b'2' ∷ b'0' ∷ b'0' ∷ b'1' ∷ []; length = 0; sign = plus }) five
    ≡ some (record { source = b'D' ∷ b'0' ∷ b'2' ∷ []; length = 0; sign = plus })
unfolding div magnitude without_point divide_digits divide_round find_digit middle write_digit
    clear_zero is_nan is_nan_sign all_zeros is_zero pad strip_char strip unlead compare_num
    compare_chars compare_digits same_sign eq gt_cases lt_cases gt lt ge difference total
    subtract_cases sub product_sign mul char_to_int int_to_char sum_digit sum_carry sum_from sum
    subtract_digit subtract_carry subtract_from subtract reduce multiply_row multiply_from multiply
leading_zero = refl

-- 17 % 5 = 2.
exact_remainder :
    rem 20 (record { source = b'7' ∷ b'1' ∷ []; length = 0; sign = plus }) five ≡ some (of_digit 2)
unfolding rem modulo_of magnitude divide_digits divide_round find_digit middle write_digit
    clear_zero is_nan is_nan_sign all_zeros is_zero pad strip_char strip unlead compare_num
    compare_chars compare_digits same_sign eq gt_cases lt_cases gt lt ge difference total
    subtract_cases sub product_sign mul char_to_int int_to_char sum_digit sum_carry sum_from sum
    subtract_digit subtract_carry subtract_from subtract reduce multiply_row multiply_from multiply
exact_remainder = refl

-- With the divisor 0 the range is halved forever.
find_digit_zero : (fuel q : ℕ) → find_digit fuel zero_number q 9 one_number ≡ none
unfolding div magnitude divide_digits divide_round find_digit middle write_digit clear_zero is_nan
    is_nan_sign all_zeros is_zero pad strip_char strip unlead compare_num compare_chars
    compare_digits same_sign eq gt_cases lt_cases gt lt ge difference total subtract_cases sub
    product_sign mul char_to_int int_to_char sum_digit sum_carry sum_from sum subtract_digit
    subtract_carry subtract_from subtract reduce multiply_row multiply_from multiply
find_digit_zero zero q = refl
find_digit_zero (suc fuel) q = find_digit_zero fuel (q + 5)

-- Division of 1 by -0 does not end: no fuel is enough for it.
pub div-minus_zero : (fuel : ℕ) → div fuel one_number minus_zero ≡ none
unfolding div magnitude without_point divide_digits divide_round find_digit middle write_digit
    clear_zero is_nan is_nan_sign all_zeros is_zero pad strip_char strip unlead compare_num
    compare_chars compare_digits same_sign eq gt_cases lt_cases gt lt ge difference total
    subtract_cases sub product_sign mul char_to_int int_to_char sum_digit sum_carry sum_from sum
    subtract_digit subtract_carry subtract_from subtract reduce multiply_row multiply_from multiply
div-minus_zero fuel = rw (find_digit_zero fuel 0) refl
