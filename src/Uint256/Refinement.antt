-- ===== src/Uint256/Refinement.antt =====
-- The operators of `uint256` against those of the numbers below 2^256.
use vitex.Common.{◌+◌, ◌-◌, ◌*◌, ◌%◌, ◌^◌, ◌≡◌, ltb, leb, ◌==◌, not}
use vitex.Uint256.Word.{
  Uint256, IsWide, value, to_bool, eq, ne, lt, gt, le, ge, bitwise_not, order_256_lem,
}
use vitex.Uint256.Shift.{shl}
use vitex.Uint256.Shift.Laws.{value-shl_256}
use vitex.Uint256.Arith.{add, sub, value-add_256, value-sub_256, value-bitwise_not}

-- The 256-bit operators implement the arithmetic of the numbers below 2^256: + and - modulo
-- 2^256, ~ as the complement, << as multiplication by a power of two modulo 2^256 for any 256-bit
-- amount, and the test for 0 and the six comparisons decided on the numbers.
pub operators_refine_256 :
    (x y : Uint256)
    → IsWide x
    → IsWide y
    → (value (add x y) ≡ (value x + value y) % 2 ^ 256)
      × (value (sub x y) ≡ (value x + 2 ^ 256 - value y) % 2 ^ 256)
      × (value (bitwise_not x) ≡ 2 ^ 256 - 1 - value x)
      × (value (shl x y) ≡ value x * 2 ^ value y % 2 ^ 256)
      × ((to_bool x ≡ not (value x == 0))
          × (eq x y ≡ value x == value y)
          × (ne x y ≡ not (value x == value y))
          × (lt x y ≡ ltb (value x) (value y))
          × (gt x y ≡ ltb (value y) (value x))
          × (le x y ≡ leb (value x) (value y))
          × (ge x y ≡ leb (value y) (value x)))
operators_refine_256 x y v w = (
  value-add_256 x y v w,
  value-sub_256 x y v w,
  value-bitwise_not x v,
  value-shl_256 x y v w,
  order_256_lem x y v w,
)
