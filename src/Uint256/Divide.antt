-- ===== src/Uint256/Divide.antt =====
-- `uint256::divide` and the operators `/` and `%`: the divisor is moved up to the highest digit of
-- the dividend and then down again, one binary digit in each round.
pub mod Rounds
pub mod Laws
use vitex.Common.{
  ℕ, zero, suc, ◌-◌, ◌/◌, ◌≡◌, ◌<◌, arith, refl, false, ltb, Option, none, some, ◌>>=◌, ◌||◌,
  if◌then◌else◌,
}
use vitex.Uint128.Word.{of_word}
use vitex.Uint256.Word.{
  Uint256, IsWide, value, value-lt, of_half, eq, lt, gt, ge, bitwise_or, eq_lem, lt_lem, ge_lem,
}
use vitex.Uint256.Arith.{sub, value-sub_256}
use vitex.Uint256.Multiply.{mul}
use vitex.Uint256.Shift.{shl, shr}
use vitex.Uint256.Shift.Laws.{value-shr_256}
use vitex.Uint256.Width.{bits}

abbrev pub of_number : ℕ → Uint256
of_number n = of_half (of_word n)

-- The quotient and the remainder, the moved divisor and the digit of the quotient at its place.
pub record State : Type 0 where
  pub quotient : Uint256
  pub remainder : Uint256
  pub copyd : Uint256
  pub adder : Uint256

pub take_away : State → State
take_away s =
    if ge s.remainder s.copyd
    then record s { remainder = sub s.remainder s.copyd; quotient = bitwise_or s.quotient s.adder }
    else s

pub move_down : State → State
move_down s = record s { copyd = shr s.copyd (of_number 1); adder = shr s.adder (of_number 1) }

-- `while (remainder >= right)`: none where the fuel runs out.
pub divide_loop : ℕ → Uint256 → State → Option (Uint256 × Uint256)
divide_loop zero right s = if ge s.remainder right then none else some (s.quotient, s.remainder)
divide_loop (suc fuel) right s =
    let rest = divide_loop fuel right (move_down (take_away s)) in
    if ge s.remainder right then rest else some (s.quotient, s.remainder)

pub divide : ℕ → Uint256 → Uint256 → Option (Uint256 × Uint256)
divide fuel left right =
    if eq right (of_number 0)
    then some (of_number 0, of_number 0)
    else if eq right (of_number 1)
    then some (left, of_number 0)
    else if eq left right
    then some (of_number 1, of_number 0)
    else if eq left (of_number 0) || lt left right
    then some (of_number 0, left)
    else let shift = of_number (bits left - bits right) in
      let start : State = record {
        quotient = of_number 0;
        remainder = left;
        copyd = shl right shift;
        adder = shl (of_number 1) shift;
      } in
      divide_loop fuel right (if gt start.copyd left then move_down start else start)

-- `left - right * (left / right)`.
pub modulo : ℕ → Uint256 → Uint256 → Option Uint256
modulo fuel left right = do qr ← divide fuel left right; some (sub left (mul right qr.0))

-- A round takes the moved divisor away where it is not greater than the remainder.
value-take_away :
    (s : State)
    → IsWide s.remainder
    → IsWide s.copyd
    → value (take_away s).remainder ≡ (
        if ltb (value s.remainder) (value s.copyd)
        then value s.remainder
        else value s.remainder - value s.copyd)
unfolding take_away
value-take_away s v w = ground (
  arith,
  ge_lem s.remainder s.copyd v w,
  value-sub_256 s.remainder s.copyd v w,
  value-lt s.remainder v,
)

-- The end of a round halves the moved divisor and its place.
value-move_down :
    (s : State)
    → IsWide s.copyd
    → IsWide s.adder
    → (value (move_down s).copyd ≡ value s.copyd / 2)
      × (value (move_down s).adder ≡ value s.adder / 2)
unfolding move_down
value-move_down s v w = (
  value-shr_256 s.copyd (of_number 1) v (omega arith) (omega arith),
  value-shr_256 s.adder (of_number 1) w (omega arith) (omega arith),
)

-- The loop ends by its test, whatever the fuel.
divide_loop_done :
    (fuel : ℕ) (right : Uint256) (s : State)
    → ge s.remainder right ≡ false
    → divide_loop fuel right s ≡ some (s.quotient, s.remainder)
unfolding divide_loop
divide_loop_done zero right s e = rw e refl
divide_loop_done (suc fuel) right s e = rw e refl

module _ (fuel : ℕ) (left right : Uint256) (v : IsWide left) (w : IsWide right) where
  -- A zero divisor gives (0, 0) behind an assertion.
  divide_by_zero : value right ≡ 0 → divide fuel left right ≡ some (of_number 0, of_number 0)
  unfolding divide
  divide_by_zero e = rw (eq_lem right (of_number 0) w (omega arith), e) refl

  -- A smaller dividend is the remainder.
  divide_small : value left < value right → divide fuel left right ≡ some (of_number 0, left)
  unfolding divide
  divide_small less = ground (
    arith,
    eq_lem right (of_number 0) w (omega arith),
    eq_lem right (of_number 1) w (omega arith),
    eq_lem left right v w,
    eq_lem left (of_number 0) v (omega arith),
    lt_lem left right v w,
  )

  modulo_small :
      value left < value right → modulo fuel left right ≡ some (sub left (mul right (of_number 0)))
  unfolding modulo
  modulo_small less = rw (divide_small less) refl
