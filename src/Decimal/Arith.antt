-- ===== src/Decimal/Arith.antt =====
-- `operator+`, `operator-`, `operator*` and the unary minus of `decimal`.
pub mod Aligned
pub mod Laws
pub mod Product
pub mod NoNumber
use vitex.Common.{ℕ, ◌+◌, ◌-◌, List, [], ◌∷◌, Bool, ◌||◌, ltb, ◌==◌, if◌then◌else◌}
use vitex.Decimal.Digits.{sum, subtract, multiply}
use vitex.Decimal.Number.{
  Sign, nan, plus, minus, Decimal, is_nan, pad, unlead, compare_num, not_a_number, zero_number,
}

-- The three outcomes of the comparison, where the magnitudes are subtracted: the sign of the
-- result where `left` is the greater one, and where `right` is.
unfoldable pub difference : Sign → Sign → Decimal → Decimal → Decimal
difference s1 s2 left right =
    let check = compare_num left right in
    if check == 0
    then zero_number
    else if check == 1
    then unlead
        (record { source = subtract left.source right.source; length = left.length; sign = s1 })
    else unlead
        (record { source = subtract right.source left.source; length = left.length; sign = s2 })

unfoldable pub total : Sign → Decimal → Decimal → Decimal
total s left right = record {
  source = sum left.source right.source;
  length = left.length;
  sign = s;
}

-- The branches of `operator+` on the two signs, for numbers of the same `length`.
unfoldable pub add_cases : Sign → Sign → Decimal → Decimal → Decimal
add_cases plus minus left right = difference plus minus left right
add_cases minus plus left right = difference minus plus left right
add_cases plus plus left right = total plus left right
add_cases minus minus left right = total minus left right
add_cases _ _ left right = not_a_number

-- The loops of `operator+` before the branches give both numbers the greater `length`.
unfoldable pub add : Decimal → Decimal → Decimal
add left right =
    if is_nan left || is_nan right
    then not_a_number
    else add_cases left.sign right.sign (pad left right.length) (pad right left.length)

unfoldable pub subtract_cases : Sign → Sign → Decimal → Decimal → Decimal
subtract_cases plus minus left right = total plus left right
subtract_cases minus plus left right = total minus left right
subtract_cases plus plus left right = difference plus minus left right
subtract_cases minus minus left right = difference minus plus left right
subtract_cases _ _ left right = not_a_number

unfoldable pub sub : Decimal → Decimal → Decimal
sub left right =
    if is_nan left || is_nan right
    then not_a_number
    else subtract_cases left.sign right.sign (pad left right.length) (pad right left.length)

unfoldable pub product_sign : Sign → Sign → Sign
product_sign minus minus = plus
product_sign plus plus = plus
product_sign _ _ = minus

unfoldable pub mul : Decimal → Decimal → Decimal
mul left right =
    if is_nan left || is_nan right
    then not_a_number
    else unlead (record {
      source = multiply left.source right.source;
      length = left.length + right.length;
      sign = product_sign left.sign right.sign;
    })

unfoldable pub negate_sign : Sign → Sign
negate_sign plus = minus
negate_sign minus = plus
negate_sign nan = nan

unfoldable pub negate : Decimal → Decimal
negate x = record x { sign = negate_sign x.sign }

-- `++` and `--` add and take away the integer 1.
abbrev pub one_number : Decimal
one_number = record { source = b'1' ∷ []; length = 0; sign = plus }

unfoldable pub increment : Decimal → Decimal
increment x = add x one_number

unfoldable pub decrement : Decimal → Decimal
decrement x = sub x one_number
