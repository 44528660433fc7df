-- ===== src/Uint128/Word.antt =====
-- The record `uint128` of src/vitex/compute.h with the operators of compute.cpp that work on its
-- two 64-bit halves one by one: conversions, bitwise operators and comparisons.
use vitex.Common.{ℕ, ◌+◌, ◌*◌, ◌^◌, ◌<◌}
use vitex.Common.{◌≡◌, arith, Bool, not, ◌&&◌, ◌||◌, ltb, leb, ◌==◌, if◌then◌else◌}

-- The number of values of a `uint64_t`.
abbrev pub word : ℕ
word = 2 ^ 64

pub record Uint128 : Type 0 where
  pub upper : ℕ
  pub lower : ℕ

-- Both halves are 64-bit values.
pub record IsWide (x : Uint128) : Type 0 where
  pub upper_fits : x.upper < 2 ^ 64
  pub lower_fits : x.lower < 2 ^ 64

-- The number that the two halves stand for.
abbrev pub value : Uint128 → ℕ
value x = x.upper * 2 ^ 64 + x.lower

abbrev pub make : ℕ → ℕ → Uint128
make u l = record { upper = u; lower = l }

abbrev pub of_word : ℕ → Uint128
of_word l = make 0 l

pub to_bool : Uint128 → Bool
to_bool x = not (x.upper == 0) || not (x.lower == 0)

pub eq : Uint128 → Uint128 → Bool
eq x y = x.upper == y.upper && x.lower == y.lower

pub ne : Uint128 → Uint128 → Bool
ne x y = not (x.upper == y.upper) || not (x.lower == y.lower)

pub gt : Uint128 → Uint128 → Bool
gt x y = if x.upper == y.upper then ltb y.lower x.lower else ltb y.upper x.upper

pub lt : Uint128 → Uint128 → Bool
lt x y = if x.upper == y.upper then ltb x.lower y.lower else ltb x.upper y.upper

pub ge : Uint128 → Uint128 → Bool
ge x y = gt x y || eq x y

pub le : Uint128 → Uint128 → Bool
le x y = lt x y || eq x y

pub value-lt : (x : Uint128) → IsWide x → value x < 2 ^ 128
value-lt x w = omega arith

pub to_bool_lem : (x : Uint128) → to_bool x ≡ not (value x == 0)
unfolding to_bool
to_bool_lem x = ground arith

pub eq_lem : (x y : Uint128) → IsWide x → IsWide y → eq x y ≡ value x == value y
unfolding eq
eq_lem x y v w = ground arith

pub ne_lem : (x y : Uint128) → IsWide x → IsWide y → ne x y ≡ not (value x == value y)
unfolding ne
ne_lem x y v w = ground arith

pub lt_lem : (x y : Uint128) → IsWide x → IsWide y → lt x y ≡ ltb (value x) (value y)
unfolding lt
lt_lem x y v w = ground arith

pub gt_lem : (x y : Uint128) → IsWide x → IsWide y → gt x y ≡ ltb (value y) (value x)
unfolding gt
gt_lem x y v w = ground arith

pub ge_lem : (x y : Uint128) → IsWide x → IsWide y → ge x y ≡ leb (value y) (value x)
unfolding ge gt eq
ge_lem x y v w = ground arith

pub le_lem : (x y : Uint128) → IsWide x → IsWide y → le x y ≡ leb (value x) (value y)
unfolding le lt eq
le_lem x y v w = ground arith

module _ (x y : Uint128) (v : IsWide x) (w : IsWide y) where
  -- The test for 0 and the comparison operators on two 128-bit values decide what they say of the
  -- numbers.
  pub order_lem :
      (to_bool x ≡ not (value x == 0))
      × (eq x y ≡ value x == value y)
      × (ne x y ≡ not (value x == value y))
      × (lt x y ≡ ltb (value x) (value y))
      × (gt x y ≡ ltb (value y) (value x))
      × (le x y ≡ leb (value x) (value y))
      × (ge x y ≡ leb (value y) (value x))
  order_lem = (
    to_bool_lem x,
    eq_lem x y v w,
    ne_lem x y v w,
    lt_lem x y v w,
    gt_lem x y v w,
    le_lem x y v w,
    ge_lem x y v w,
  )

-- `!`, `&&` and `||`, which evaluate both operands.
logical_not : Uint128 → Bool
logical_not x = not (to_bool x)

logical_and : Uint128 → Uint128 → Bool
logical_and x y = to_bool x && to_bool y

logical_or : Uint128 → Uint128 → Bool
logical_or x y = to_bool x || to_bool y

-- The logical operators are those on the tests for 0.
logical_lem :
    (x y : Uint128)
    → (logical_not x ≡ value x == 0)
      × (logical_and x y ≡ not (value x == 0) && not (value y == 0))
      × (logical_or x y ≡ not (value x == 0) || not (value y == 0))
unfolding logical_not logical_and logical_or
logical_lem x y = ground (arith, to_bool_lem x, to_bool_lem y)
