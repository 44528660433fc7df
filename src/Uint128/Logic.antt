-- ===== src/Uint128/Logic.antt =====
-- The bitwise operators, half by half, and what they are on the whole number.
use vitex.Common.{◌%◌, ◌≡◌, sym, arith, bit_and, bit_or, bit_xor}
use vitex.Common.Bits.{
  digitwise-lt, digitwise-split, and-IsDigitwise, or-IsDigitwise, xor-IsDigitwise, bit_and-one,
  bit_and-zero,
}
use vitex.Uint128.Word.{Uint128, IsWide, value, make, of_word}

pub bitwise_and : Uint128 → Uint128 → Uint128
bitwise_and x y = make (bit_and x.upper y.upper) (bit_and x.lower y.lower)

pub bitwise_or : Uint128 → Uint128 → Uint128
bitwise_or x y = make (bit_or x.upper y.upper) (bit_or x.lower y.lower)

pub bitwise_xor : Uint128 → Uint128 → Uint128
bitwise_xor x y = make (bit_xor x.upper y.upper) (bit_xor x.lower y.lower)

module _ (x y : Uint128) (v : IsWide x) (w : IsWide y) where
  pub bitwise_and-IsWide : IsWide (bitwise_and x y)
  unfolding bitwise_and
  bitwise_and-IsWide = record {
    upper_fits = digitwise-lt bit_and and-IsDigitwise 64 x.upper y.upper v.upper_fits w.upper_fits;
    lower_fits = digitwise-lt bit_and and-IsDigitwise 64 x.lower y.lower v.lower_fits w.lower_fits;
  }

  pub bitwise_or-IsWide : IsWide (bitwise_or x y)
  unfolding bitwise_or
  bitwise_or-IsWide = record {
    upper_fits = digitwise-lt bit_or or-IsDigitwise 64 x.upper y.upper v.upper_fits w.upper_fits;
    lower_fits = digitwise-lt bit_or or-IsDigitwise 64 x.lower y.lower v.lower_fits w.lower_fits;
  }

  -- The bitwise and, or and exclusive or of the halves of two 128-bit values are those of the
  -- whole numbers.
  pub value-bitwise :
      (value (bitwise_and x y) ≡ bit_and (value x) (value y))
      × (value (bitwise_or x y) ≡ bit_or (value x) (value y))
      × (value (bitwise_xor x y) ≡ bit_xor (value x) (value y))
  unfolding bitwise_and bitwise_or bitwise_xor
  value-bitwise = (
    sym (
        digitwise-split bit_and and-IsDigitwise 64 x.upper x.lower y.upper y.lower v.lower_fits
          w.lower_fits),
    sym (
        digitwise-split bit_or or-IsDigitwise 64 x.upper x.lower y.upper y.lower v.lower_fits
          w.lower_fits),
    sym (
        digitwise-split bit_xor xor-IsDigitwise 64 x.upper x.lower y.upper y.lower v.lower_fits
          w.lower_fits),
  )

pub value-bitwise_and-one : (x : Uint128) → value (bitwise_and x (of_word 1)) ≡ value x % 2
unfolding bitwise_and
value-bitwise_and-one x = omega (arith, bit_and-one x.lower, bit_and-zero x.upper)
