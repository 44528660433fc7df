-- ===== src/Uint256/Word.antt =====
-- The record `uint256` of src/vitex/compute.h over two `uint128` halves: conversions, bitwise
-- operators and comparisons of compute.cpp.
use vitex.Common.{
  ℕ, ◌+◌, ◌*◌, ◌^◌, ◌<◌, ◌≡◌, arith, Bool, not, ◌&&◌, ◌||◌, ltb, leb, ◌==◌, if◌then◌else◌,
}
use vitex.Uint128.Word
use vitex.Uint128.Word.{Uint128, of_word}
use vitex.Uint128.Arith.{complement}
use vitex.Uint128.Logic

pub record Uint256 : Type 0 where
  pub upper : Uint128
  pub lower : Uint128

-- The four words are 64-bit values.
pub record IsWide (x : Uint256) : Type 0 where
  pub upper_wide : Word.IsWide x.upper
  pub lower_wide : Word.IsWide x.lower

-- The number that the two halves stand for.
abbrev pub value : Uint256 → ℕ
value x = Word.value x.upper * 2 ^ 128 + Word.value x.lower

abbrev pub make : Uint128 → Uint128 → Uint256
make u l = record { upper = u; lower = l }

abbrev pub of_half : Uint128 → Uint256
of_half l = make (of_word 0) l

pub to_bool : Uint256 → Bool
to_bool x = Word.to_bool x.upper || Word.to_bool x.lower

pub eq : Uint256 → Uint256 → Bool
eq x y = Word.eq x.upper y.upper && Word.eq x.lower y.lower

pub ne : Uint256 → Uint256 → Bool
ne x y = Word.ne x.upper y.upper || Word.ne x.lower y.lower

pub gt : Uint256 → Uint256 → Bool
gt x y = if Word.eq x.upper y.upper then Word.gt x.lower y.lower else Word.gt x.upper y.upper

pub lt : Uint256 → Uint256 → Bool
lt x y = if Word.eq x.upper y.upper then Word.lt x.lower y.lower else Word.lt x.upper y.upper

pub ge : Uint256 → Uint256 → Bool
ge x y = gt x y || eq x y

pub le : Uint256 → Uint256 → Bool
le x y = lt x y || eq x y

pub bitwise_and : Uint256 → Uint256 → Uint256
bitwise_and x y = make (Logic.bitwise_and x.upper y.upper) (Logic.bitwise_and x.lower y.lower)

unfoldable pub bitwise_or : Uint256 → Uint256 → Uint256
bitwise_or x y = make (Logic.bitwise_or x.upper y.upper) (Logic.bitwise_or x.lower y.lower)

pub bitwise_xor : Uint256 → Uint256 → Uint256
bitwise_xor x y = make (Logic.bitwise_xor x.upper y.upper) (Logic.bitwise_xor x.lower y.lower)

unfoldable pub bitwise_not : Uint256 → Uint256
bitwise_not x = make (complement x.upper) (complement x.lower)

pub to_bool_lem : (x : Uint256) → to_bool x ≡ not (value x == 0)
unfolding to_bool
to_bool_lem x = ground (arith, Word.to_bool_lem x.upper, Word.to_bool_lem x.lower)

pub value-lt : (x : Uint256) → IsWide x → value x < 2 ^ 256
value-lt x w = omega (arith, Word.value-lt x.upper w.upper_wide, Word.value-lt x.lower w.lower_wide)

module _ (x y : Uint256) (v : IsWide x) (w : IsWide y) where
  pub eq_lem : eq x y ≡ value x == value y
  unfolding eq
  eq_lem = ground (
    arith,
    Word.eq_lem x.upper y.upper v.upper_wide w.upper_wide,
    Word.eq_lem x.lower y.lower v.lower_wide w.lower_wide,
    Word.value-lt x.lower v.lower_wide,
    Word.value-lt y.lower w.lower_wide,
  )

  pub ne_lem : ne x y ≡ not (value x == value y)
  unfolding ne
  ne_lem = ground (
    arith,
    Word.ne_lem x.upper y.upper v.upper_wide w.upper_wide,
    Word.ne_lem x.lower y.lower v.lower_wide w.lower_wide,
    Word.value-lt x.lower v.lower_wide,
    Word.value-lt y.lower w.lower_wide,
  )

  pub lt_lem : lt x y ≡ ltb (value x) (value y)
  unfolding lt
  lt_lem = ground (
    arith,
    Word.eq_lem x.upper y.upper v.upper_wide w.upper_wide,
    Word.lt_lem x.upper y.upper v.upper_wide w.upper_wide,
    Word.lt_lem x.lower y.lower v.lower_wide w.lower_wide,
    Word.value-lt x.lower v.lower_wide,
    Word.value-lt y.lower w.lower_wide,
  )

  pub gt_lem : gt x y ≡ ltb (value y) (value x)
  unfolding gt
  gt_lem = ground (
    arith,
    Word.eq_lem x.upper y.upper v.upper_wide w.upper_wide,
    Word.gt_lem x.upper y.upper v.upper_wide w.upper_wide,
    Word.gt_lem x.lower y.lower v.lower_wide w.lower_wide,
    Word.value-lt x.lower v.lower_wide,
    Word.value-lt y.lower w.lower_wide,
  )

  pub ge_lem : ge x y ≡ leb (value y) (value x)
  unfolding ge
  ge_lem = ground (arith, gt_lem, eq_lem)

  pub le_lem : le x y ≡ leb (value x) (value y)
  unfolding le
  le_lem = ground (arith, lt_lem, eq_lem)

module _ (x y : Uint256) (v : IsWide x) (w : IsWide y) where
  -- The test for 0 and the comparison operators on two 256-bit values decide what they say of the
  -- numbers.
  pub order_256_lem :
      (to_bool x ≡ not (value x == 0))
      × (eq x y ≡ value x == value y)
      × (ne x y ≡ not (value x == value y))
      × (lt x y ≡ ltb (value x) (value y))
      × (gt x y ≡ ltb (value y) (value x))
      × (le x y ≡ leb (value x) (value y))
      × (ge x y ≡ leb (value y) (value x))
  order_256_lem = (
    to_bool_lem x,
    eq_lem x y v w,
    ne_lem x y v w,
    lt_lem x y v w,
    gt_lem x y v w,
    le_lem x y v w,
    ge_lem x y v w,
  )

-- `!`, `&&` and `||`, which evaluate both operands.
logical_not : Uint256 → Bool
logical_not x = not (to_bool x)

logical_and : Uint256 → Uint256 → Bool
logical_and x y = to_bool x && to_bool y

logical_or : Uint256 → Uint256 → Bool
logical_or x y = to_bool x || to_bool y

-- The logical operators are those on the tests for 0.
logical_lem :
    (x y : Uint256)
    → (logical_not x ≡ value x == 0)
      × (logical_and x y ≡ not (value x == 0) && not (value y == 0))
      × (logical_or x y ≡ not (value x == 0) || not (value y == 0))
unfolding logical_not logical_and logical_or
logical_lem x y = ground (arith, to_bool_lem x, to_bool_lem y)
