-- ===== src/Decimal/Division.antt =====
-- `operator/` and `operator%` of `decimal`: long division by decimal digits, where a digit of the
-- quotient is found by halving the range that it may be in.
pub mod Laws
use vitex.Common.{
  ℕ, zero, suc, ◌+◌, ◌-◌, ◌/◌, ◌%◌, List, [], ◌∷◌, ◌++◌, Bool, true, false, not, ◌&&◌, ◌||◌, ltb,
  ◌==◌, max, Option, none, some, ◌>>=◌, if◌then◌else◌,
}
use vitex.Common.Lists.{length, replicate}
use vitex.Decimal.Digits.{int_to_char}
use vitex.Decimal.Number.{
  Sign, nan, plus, minus, Decimal, is_nan, all_zeros, pad, unlead, compare_num, zero_number,
  not_a_number,
}
use vitex.Decimal.Order.{eq, gt, ge}
use vitex.Decimal.Arith.{sub, mul, product_sign, one_number}

-- What the assignment of an `int` from 0 to 9 gives.
abbrev pub of_digit : ℕ → Decimal
of_digit n = record { source = int_to_char n ∷ []; length = 0; sign = plus }

abbrev pub minus_one : Decimal
minus_one = record one_number { sign = minus }

-- `(x > zero) ? x : x * (-1)`.
magnitude : Decimal → Decimal
magnitude x = if gt x zero_number then x else mul x minus_one

-- The first loop moves both points until none is left.
without_point : Decimal → ℕ → Decimal
without_point x scale = unlead (record (pad x scale) { length = 0 })

-- The middle of the range from 0 to `most`, rounded up.
middle : ℕ → ℕ
middle most = if most % 2 == 0 then most / 2 else most / 2 + 1

-- `while (r >= d)`: the digit of the quotient and the remainder, or none where the fuel runs out.
pub find_digit : ℕ → Decimal → ℕ → ℕ → Decimal → Option (ℕ × Decimal)
find_digit zero d qsub most r = if ge r d then none else some (qsub, r)
find_digit (suc fuel) d qsub most r =
    let avg = middle most in
    let part = mul d (of_digit avg) in
    let above = compare_num r part == 2 in
    let rest =
      find_digit fuel d (if above then qsub else qsub + avg) (if above then avg else 9)
        (if above then r else sub r part) in
    if ge r d then rest else some (qsub, r)

-- The state of the long division: the digits of the quotient, the running remainder, and its last
-- value before it was cleared, which `operator%` keeps.
pub record Progress : Type 0 where
  pub quotient : List ℕ
  pub running : Decimal
  pub result : Decimal

clear_zero : Decimal → Decimal
clear_zero r = if all_zeros r.source then record r { source = [] } else r

write_digit : Progress → ℕ × Decimal → Progress
write_digit p (digit, r) = record {
  quotient = int_to_char digit ∷ p.quotient;
  running = clear_zero r;
  result = r;
}

-- One round: the next digit of the dividend is put below the running remainder.
pub divide_round : ℕ → Decimal → ℕ → Progress → Option Progress
divide_round fuel d c p =
    let r = record p.running { source = c ∷ p.running.source } in
    if ge r d && not (all_zeros r.source)
    then (find_digit fuel d 0 9 r >>= λ found. some (write_digit p found))
    else some (record { quotient = b'0' ∷ p.quotient; running = r; result = r })

-- The digits of the dividend, the lowest first; the highest is read first.
pub divide_digits : ℕ → Decimal → List ℕ → Progress → Option Progress
divide_digits fuel d [] p = some p
divide_digits fuel d (c ∷ cs) p = divide_digits fuel d cs p >>= λ q. divide_round fuel d c q

abbrev pub nothing_divided : Progress
nothing_divided = record {
  quotient = [];
  running = record { source = []; length = 0; sign = plus };
  result = not_a_number;
}

pub div : ℕ → Decimal → Decimal → Option Decimal
div fuel left right =
    if is_nan left || is_nan right
    then some not_a_number
    else if eq right zero_number
    then some not_a_number
    else let scale = max left.length right.length in
      let n = without_point (magnitude left) scale in
      let d = without_point (magnitude right) scale in
      let places = max left.length right.length in
      let dividend = record n { source = replicate places b'0' ++ n.source } in
      if compare_num dividend d == 2
      then some zero_number
      else divide_digits fuel d dividend.source nothing_divided >>= λ p. some (
          unlead (record {
            source = p.quotient;
            length = places;
            sign = product_sign left.sign right.sign;
          }))

-- Only integers have a remainder; a zero never has a minus sign.
pub modulo_of : Decimal → Decimal → Progress → Decimal
modulo_of left right p =
    let temp = unlead p.result in
    let s = product_sign left.sign right.sign in
    if compare_num temp zero_number == 0
    then record temp { sign = plus }
    else record temp { sign = s }

pub rem : ℕ → Decimal → Decimal → Option Decimal
rem fuel left right =
    if is_nan left || is_nan right
    then some not_a_number
    else if not (left.length == 0) || not (right.length == 0)
    then some not_a_number
    else if eq right zero_number
    then some not_a_number
    else let n = magnitude left in
      let d = magnitude right in
      let check = compare_num n d in
      if check == 0
      then some zero_number
      else if check == 2
      then some left
      else divide_digits fuel d n.source nothing_divided >>= λ p. some (modulo_of left right p)
