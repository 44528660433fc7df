-- ===== src/Uint128/Arith.antt =====
-- Addition, subtraction and what rests on them: `operator+`, `operator-`, `++`, `--`, `~` and the
-- unary minus. Each half is computed modulo 2^64, and the carry is a comparison.
use vitex.Common.{ℕ, ◌+◌, ◌-◌, ◌%◌, ◌^◌, ◌≡◌, arith, Bool, ltb, if◌then◌else◌}
use vitex.Uint128.Word.{Uint128, IsWide, value, make, of_word}

-- A `bool` as an operand of an addition.
abbrev pub of_bool : Bool → ℕ
of_bool b = if b then 1 else 0

pub add : Uint128 → Uint128 → Uint128
add x y =
    let low = (x.lower + y.lower) % 2 ^ 64 in
    make ((x.upper + y.upper + of_bool (ltb low x.lower)) % 2 ^ 64) low

-- `a - b` in `uint64_t`: 2^64 is added first since `-` on ℕ stops at 0.
abbrev pub sub_word : ℕ → ℕ → ℕ
sub_word a b = (a + 2 ^ 64 - b) % 2 ^ 64

pub sub : Uint128 → Uint128 → Uint128
sub x y =
    let low = sub_word x.lower y.lower in
    make (sub_word (sub_word x.upper y.upper) (of_bool (ltb x.lower low))) low

pub complement : Uint128 → Uint128
complement x = make (2 ^ 64 - 1 - x.upper) (2 ^ 64 - 1 - x.lower)

pub increment : Uint128 → Uint128
increment x = add x (of_word 1)

pub decrement : Uint128 → Uint128
decrement x = sub x (of_word 1)

pub negate : Uint128 → Uint128
negate x = add (complement x) (of_word 1)

module _ (x y : Uint128) (v : IsWide x) (w : IsWide y) where
  pub add-IsWide : IsWide (add x y)
  unfolding add
  add-IsWide = omega arith

  pub sub-IsWide : IsWide (sub x y)
  unfolding sub
  sub-IsWide = omega arith

  -- Addition of 128-bit values by halves with a carry is addition modulo 2^128.
  pub value-add : value (add x y) ≡ (value x + value y) % 2 ^ 128
  unfolding add
  value-add = ground arith

  -- Subtraction of 128-bit values by halves with a borrow is subtraction modulo 2^128.
  pub value-sub : value (sub x y) ≡ (value x + 2 ^ 128 - value y) % 2 ^ 128
  unfolding sub
  value-sub = ground arith

pub value-complement : (x : Uint128) → IsWide x → value (complement x) ≡ 2 ^ 128 - 1 - value x
unfolding complement
value-complement x w = omega arith

pub complement-IsWide : (x : Uint128) → IsWide (complement x)
unfolding complement
complement-IsWide x = omega arith

-- The unary minus of a 128-bit value is the additive inverse modulo 2^128.
pub value-negate : (x : Uint128) → IsWide x → value (negate x) ≡ (2 ^ 128 - value x) % 2 ^ 128
unfolding negate
value-negate x w = omega (
  arith,
  value-add (complement x) (of_word 1) (complement-IsWide x) (omega arith),
  value-complement x w,
)

module _ (x : Uint128) (w : IsWide x) where
  pub increment-IsWide : IsWide (increment x)
  unfolding increment
  increment-IsWide = add-IsWide x (of_word 1) w (omega arith)

  pub value-increment : value (increment x) ≡ (value x + 1) % 2 ^ 128
  unfolding increment
  value-increment = value-add x (of_word 1) w (omega arith)

  pub value-decrement : value (decrement x) ≡ (value x + 2 ^ 128 - 1) % 2 ^ 128
  unfolding decrement
  value-decrement = value-sub x (of_word 1) w (omega arith)
