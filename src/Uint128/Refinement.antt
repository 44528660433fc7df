-- ===== src/Uint128/Refinement.antt =====
-- The operators of `uint128` against those of the numbers below 2^128.
use vitex.Common.{◌+◌, ◌-◌, ◌*◌, ◌/◌, ◌%◌, ◌^◌, ◌≡◌, bit_and, bit_or, bit_xor, ltb, leb, ◌==◌, not}
use vitex.Uint128.Word.{Uint128, IsWide, value, to_bool, eq, ne, lt, gt, ge, le, order_lem}
use vitex.Uint128.Arith.{
  add, sub, negate, complement, value-add, value-sub, value-negate, value-complement,
}
use vitex.Uint128.Shift.{shl, shr, value-shl, value-shr}
use vitex.Uint128.Logic.{bitwise_and, bitwise_or, bitwise_xor, value-bitwise}

-- The 128-bit operators implement the arithmetic of the numbers below 2^128: +, - and the unary
-- minus modulo 2^128, ~ as the complement, &, | and ^ on the binary digits of the whole number,
-- << as multiplication by a power of two modulo 2^128 and >> as division by one, for any 128-bit
-- amount, and the test for 0 and the six comparisons decided on the numbers.
pub operators_refine :
    (x y : Uint128)
    → IsWide x
    → IsWide y
    → (value (add x y) ≡ (value x + value y) % 2 ^ 128)
      × (value (sub x y) ≡ (value x + 2 ^ 128 - value y) % 2 ^ 128)
      × (value (negate x) ≡ (2 ^ 128 - value x) % 2 ^ 128)
      × (value (complement x) ≡ 2 ^ 128 - 1 - value x)
      × ((value (bitwise_and x y) ≡ bit_and (value x) (value y))
          × (value (bitwise_or x y) ≡ bit_or (value x) (value y))
          × (value (bitwise_xor x y) ≡ bit_xor (value x) (value y)))
      × ((value (shl x y) ≡ value x * 2 ^ value y % 2 ^ 128)
          × (value (shr x y) ≡ value x / 2 ^ value y))
      × ((to_bool x ≡ not (value x == 0))
          × (eq x y ≡ value x == value y)
          × (ne x y ≡ not (value x == value y))
          × (lt x y ≡ ltb (value x) (value y))
          × (gt x y ≡ ltb (value y) (value x))
          × (le x y ≡ leb (value x) (value y))
          × (ge x y ≡ leb (value y) (value x)))
operators_refine x y v w = (
  value-add x y v w,
  value-sub x y v w,
  value-negate x v,
  value-complement x v,
  value-bitwise x y v w,
  (value-shl x y v, value-shr x y v),
  order_lem x y v w,
)
