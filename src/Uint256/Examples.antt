-- ===== src/Uint256/Examples.antt =====
-- Runs of the 256-bit theorems at concrete numbers.
use vitex.Common.{some, ◌+◌, ◌-◌, ◌*◌, ◌%◌, ◌^◌, ◌≡◌, arith, ltb, leb, ◌==◌, not}
use vitex.Uint128.Word as Half
use vitex.Uint256.Word.{
  Uint256, IsWide, value, make, of_half, to_bool, eq, ne, lt, gt, le, ge, bitwise_not,
}
use vitex.Uint256.Arith.{add, sub}
use vitex.Uint256.Refinement.{operators_refine_256}
use vitex.Uint256.Divide.{divide}
use vitex.Uint256.Divide.Rounds.{IsDivision}
use vitex.Uint256.Divide.Laws.{divide-IsDivision_256}
use vitex.Uint256.Multiply.{mul}
use vitex.Uint256.Multiply.Laws.{value-mul_256}
use vitex.Uint256.Shift.{shl}

-- 2^255 + 2^128 - 1, and a number with all four words.
abbrev big : Uint256
big = make (Half.make (2 ^ 63) 0) (Half.make (2 ^ 64 - 1) (2 ^ 64 - 1))

abbrev odd_one : Uint256
odd_one = make (Half.make 1 2) (Half.make 3 5)

abbrev amount_100 : Uint256
amount_100 = of_half (Half.of_word 100)

abbrev amount_200 : Uint256
amount_200 = of_half (Half.of_word 200)

big-IsWide : IsWide big
big-IsWide = omega arith

odd_one-IsWide : IsWide odd_one
odd_one-IsWide = omega arith

value-mul_256_example : value (mul big odd_one) ≡ value big * value odd_one % 2 ^ 256
value-mul_256_example = value-mul_256 big odd_one big-IsWide odd_one-IsWide

operators_refine_256_example :
    (value (add big odd_one) ≡ (value big + value odd_one) % 2 ^ 256)
    × (value (sub big odd_one) ≡ (value big + 2 ^ 256 - value odd_one) % 2 ^ 256)
    × (value (bitwise_not big) ≡ 2 ^ 256 - 1 - value big)
    × (value (shl big odd_one) ≡ value big * 2 ^ value odd_one % 2 ^ 256)
    × ((to_bool big ≡ not (value big == 0))
        × (eq big odd_one ≡ value big == value odd_one)
        × (ne big odd_one ≡ not (value big == value odd_one))
        × (lt big odd_one ≡ ltb (value big) (value odd_one))
        × (gt big odd_one ≡ ltb (value odd_one) (value big))
        × (le big odd_one ≡ leb (value big) (value odd_one))
        × (ge big odd_one ≡ leb (value odd_one) (value big)))
operators_refine_256_example = operators_refine_256 big odd_one big-IsWide odd_one-IsWide

divide-IsDivision_256_example :
    (qr : Uint256 × Uint256) × (divide 257 big odd_one ≡ some qr) × IsDivision big odd_one qr
divide-IsDivision_256_example =
    divide-IsDivision_256 big odd_one big-IsWide odd_one-IsWide 257 (omega arith) (omega arith)
