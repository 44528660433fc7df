-- ===== src/Uint128/Examples.antt =====
-- Runs of the 128-bit theorems at concrete numbers.
use vitex.Common.{
  ◌+◌, ◌-◌, ◌*◌, ◌/◌, ◌%◌, ◌^◌, ◌<◌, ◌≡◌, arith, bit_and, bit_or, bit_xor, ltb, leb, ◌==◌, not,
}
use vitex.Uint128.Word.{Uint128, IsWide, value, make, to_bool, eq, ne, lt, gt, ge, le}
use vitex.Uint128.Arith.{add, sub, negate, complement}
use vitex.Uint128.Shift.{shl, shr}
use vitex.Uint128.Multiply.{mul, value-mul}
use vitex.Uint128.Logic.{bitwise_and, bitwise_or, bitwise_xor}
use vitex.Uint128.Divide.{divide, IsDivision, divide-IsDivision}
use vitex.Uint128.Width.{bytes, value-lt-bytes}
use vitex.Uint128.Refinement.{operators_refine}

-- 2^127 + 2^64 - 1, whose lower half overflows in an addition, and 3 * 2^64 + 10.
abbrev big : Uint128
big = make (2 ^ 63) (2 ^ 64 - 1)

abbrev odd_one : Uint128
odd_one = make 3 10

big-IsWide : IsWide big
big-IsWide = omega arith

odd_one-IsWide : IsWide odd_one
odd_one-IsWide = omega arith

value-mul_example : value (mul big odd_one) ≡ value big * value odd_one % 2 ^ 128
value-mul_example = value-mul big odd_one big-IsWide odd_one-IsWide

divide-IsDivision_example : IsDivision big odd_one (divide big odd_one)
divide-IsDivision_example = divide-IsDivision big odd_one big-IsWide odd_one-IsWide (omega arith)

value-lt-bytes_example : value odd_one < 256 ^ bytes odd_one
value-lt-bytes_example = value-lt-bytes odd_one odd_one-IsWide

operators_refine_example :
    (value (add big odd_one) ≡ (value big + value odd_one) % 2 ^ 128)
    × (value (sub big odd_one) ≡ (value big + 2 ^ 128 - value odd_one) % 2 ^ 128)
    × (value (negate big) ≡ (2 ^ 128 - value big) % 2 ^ 128)
    × (value (complement big) ≡ 2 ^ 128 - 1 - value big)
    × ((value (bitwise_and big odd_one) ≡ bit_and (value big) (value odd_one))
        × (value (bitwise_or big odd_one) ≡ bit_or (value big) (value odd_one))
        × (value (bitwise_xor big odd_one) ≡ bit_xor (value big) (value odd_one)))
    × ((value (shl big odd_one) ≡ value big * 2 ^ value odd_one % 2 ^ 128)
        × (value (shr big odd_one) ≡ value big / 2 ^ value odd_one))
    × ((to_bool big ≡ not (value big == 0))
        × (eq big odd_one ≡ value big == value odd_one)
        × (ne big odd_one ≡ not (value big == value odd_one))
        × (lt big odd_one ≡ ltb (value big) (value odd_one))
        × (gt big odd_one ≡ ltb (value odd_one) (value big))
        × (le big odd_one ≡ leb (value big) (value odd_one))
        × (ge big odd_one ≡ leb (value odd_one) (value big)))
operators_refine_example = operators_refine big odd_one big-IsWide odd_one-IsWide
