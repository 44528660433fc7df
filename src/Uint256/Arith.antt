-- ===== src/Uint256/Arith.antt =====
-- Addition, subtraction and what rests on them, over two 128-bit halves.
use vitex.Common.{◌+◌, ◌-◌, ◌%◌, ◌^◌, ◌≡◌, arith, if◌then◌else◌, Bool}
use vitex.Uint128.Word as Half
use vitex.Uint128.Word.{Uint128, of_word}
use vitex.Uint128.Arith as HalfArith
use vitex.Uint256.Word.{Uint256, IsWide, value, make, of_half, bitwise_not, value-lt}

-- A `bool` as an operand of 128 bits.
abbrev pub half_of_bool : Bool → Uint128
half_of_bool b = if b then of_word 1 else of_word 0

pub add : Uint256 → Uint256 → Uint256
add x y =
    let low = HalfArith.add x.lower y.lower in
    make (HalfArith.add (HalfArith.add x.upper y.upper) (half_of_bool (Half.lt low x.lower))) low

pub sub : Uint256 → Uint256 → Uint256
sub x y =
    let low = HalfArith.sub x.lower y.lower in
    make (HalfArith.sub (HalfArith.sub x.upper y.upper) (half_of_bool (Half.gt low x.lower))) low

pub increment : Uint256 → Uint256
increment x = add x (of_half (of_word 1))

pub decrement : Uint256 → Uint256
decrement x = sub x (of_half (of_word 1))

pub negate : Uint256 → Uint256
negate x = add (bitwise_not x) (of_half (of_word 1))

half_of_bool-IsWide : (b : Bool) → Half.IsWide (half_of_bool b)
half_of_bool-IsWide b = ground arith

module _ (x y : Uint256) (v : IsWide x) (w : IsWide y) where
  pub add-IsWide : IsWide (add x y)
  unfolding add
  add-IsWide = record {
    upper_wide =
        HalfArith.add-IsWide _ _ (HalfArith.add-IsWide _ _ v.upper_wide w.upper_wide)
          (half_of_bool-IsWide (Half.lt (HalfArith.add x.lower y.lower) x.lower));
    lower_wide = HalfArith.add-IsWide _ _ v.lower_wide w.lower_wide;
  }

  pub sub-IsWide : IsWide (sub x y)
  unfolding sub
  sub-IsWide = record {
    upper_wide =
        HalfArith.sub-IsWide _ _ (HalfArith.sub-IsWide _ _ v.upper_wide w.upper_wide)
          (half_of_bool-IsWide (Half.gt (HalfArith.sub x.lower y.lower) x.lower));
    lower_wide = HalfArith.sub-IsWide _ _ v.lower_wide w.lower_wide;
  }

  -- Addition of 256-bit values by halves with a carry is addition modulo 2^256.
  pub value-add_256 : value (add x y) ≡ (value x + value y) % 2 ^ 256
  unfolding add
  value-add_256 = ground (
    arith,
    HalfArith.value-add x.lower y.lower v.lower_wide w.lower_wide,
    HalfArith.value-add x.upper y.upper v.upper_wide w.upper_wide,
    HalfArith.add-IsWide x.lower y.lower v.lower_wide w.lower_wide,
    HalfArith.add-IsWide x.upper y.upper v.upper_wide w.upper_wide,
    Half.lt_lem (HalfArith.add x.lower y.lower) x.lower,
    HalfArith.value-add (HalfArith.add x.upper y.upper)
        (half_of_bool (Half.lt (HalfArith.add x.lower y.lower) x.lower)),
  )

  -- Subtraction of 256-bit values by halves with a borrow is subtraction modulo 2^256.
  pub value-sub_256 : value (sub x y) ≡ (value x + 2 ^ 256 - value y) % 2 ^ 256
  unfolding sub
  value-sub_256 = ground (
    arith,
    HalfArith.value-sub x.lower y.lower v.lower_wide w.lower_wide,
    HalfArith.value-sub x.upper y.upper v.upper_wide w.upper_wide,
    HalfArith.sub-IsWide x.lower y.lower v.lower_wide w.lower_wide,
    HalfArith.sub-IsWide x.upper y.upper v.upper_wide w.upper_wide,
    Half.gt_lem (HalfArith.sub x.lower y.lower) x.lower,
    HalfArith.value-sub (HalfArith.sub x.upper y.upper)
        (half_of_bool (Half.gt (HalfArith.sub x.lower y.lower) x.lower)),
  )

pub one-IsWide : IsWide (of_half (of_word 1))
one-IsWide = omega arith

module _ (x : Uint256) (w : IsWide x) where
  pub bitwise_not-IsWide : IsWide (bitwise_not x)
  unfolding bitwise_not
  bitwise_not-IsWide = record {
    upper_wide = HalfArith.complement-IsWide x.upper;
    lower_wide = HalfArith.complement-IsWide x.lower;
  }

  -- The complement is the distance to the largest value.
  pub value-bitwise_not : value (bitwise_not x) ≡ 2 ^ 256 - 1 - value x
  unfolding bitwise_not
  value-bitwise_not = omega (
    arith,
    HalfArith.value-complement x.upper w.upper_wide,
    HalfArith.value-complement x.lower w.lower_wide,
    Half.value-lt x.upper w.upper_wide,
    Half.value-lt x.lower w.lower_wide,
  )

  -- The unary minus of a 256-bit value is the additive inverse modulo 2^256.
  pub value-negate_256 : value (negate x) ≡ (2 ^ 256 - value x) % 2 ^ 256
  unfolding negate
  value-negate_256 = omega (
    arith,
    value-add_256 (bitwise_not x) (of_half (of_word 1)) bitwise_not-IsWide one-IsWide,
    value-bitwise_not,
    value-lt x w,
  )

  pub value-increment : value (increment x) ≡ (value x + 1) % 2 ^ 256
  unfolding increment
  value-increment = omega (arith, value-add_256 x (of_half (of_word 1)) w one-IsWide)

  pub value-decrement : value (decrement x) ≡ (value x + 2 ^ 256 - 1) % 2 ^ 256
  unfolding decrement
  value-decrement = omega (arith, value-sub_256 x (of_half (of_word 1)) w one-IsWide)
