-- ===== src/Decimal/Order.antt =====
-- The comparison operators of `decimal`. Every test on a value that is no number is false, `!=`
-- included.
pub mod Laws
use vitex.Common.{ℕ, Bool, true, false, not, ◌&&◌, ◌||◌, ◌==◌, if◌then◌else◌}
use vitex.Decimal.Number.{Sign, nan, plus, minus, Decimal, is_nan, is_zero, compare_num}

unfoldable pub same_sign : Sign → Sign → Bool
same_sign nan nan = true
same_sign plus plus = true
same_sign minus minus = true
same_sign _ _ = false

unfoldable pub eq : Decimal → Decimal → Bool
eq left right =
    if is_nan left || is_nan right
    then false
    else compare_num left right == 0 && same_sign left.sign right.sign

unfoldable pub ne : Decimal → Decimal → Bool
ne left right = if is_nan left || is_nan right then false else not (eq left right)

-- The tests of `operator>` in their order, from the two signs, the result of `compare_num` and
-- whether both numbers are zero.
unfoldable pub gt_cases : Sign → Sign → ℕ → Bool → Bool
gt_cases plus plus check zeros = check == 1
gt_cases minus minus check zeros = check == 2
gt_cases minus plus check zeros = if zeros then false else false
gt_cases plus minus check zeros = if zeros then false else true
gt_cases _ _ check zeros = false

unfoldable pub lt_cases : Sign → Sign → ℕ → Bool → Bool
lt_cases plus plus check zeros = check == 2
lt_cases minus minus check zeros = check == 1
lt_cases minus plus check zeros = if zeros then false else true
lt_cases plus minus check zeros = if zeros then false else false
lt_cases _ _ check zeros = false

unfoldable pub gt : Decimal → Decimal → Bool
gt left right =
    if is_nan left || is_nan right
    then false
    else gt_cases left.sign right.sign (compare_num left right) (is_zero left && is_zero right)

unfoldable pub lt : Decimal → Decimal → Bool
lt left right =
    if is_nan left || is_nan right
    then false
    else lt_cases left.sign right.sign (compare_num left right) (is_zero left && is_zero right)

unfoldable pub ge : Decimal → Decimal → Bool
ge left right = if is_nan left || is_nan right then false else not (lt left right)

unfoldable pub le : Decimal → Decimal → Bool
le left right = if is_nan left || is_nan right then false else not (gt left right)
