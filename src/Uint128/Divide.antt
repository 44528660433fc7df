-- ===== src/Uint128/Divide.antt =====
-- `divide`: long division, one binary digit of the dividend in each round.
use vitex.Common.{
  true, sym, ℕ, zero, suc, ◌+◌, ◌-◌, ◌*◌, ◌/◌, ◌%◌, ◌^◌, ◌≤◌, ◌<◌, ◌≡◌, arith, ◌==◌, if◌then◌else◌,
  not, ◌||◌, ap, ◌∙◌, Bool-cases, if_both, inl, inr,
}
use vitex.Uint128.Word.{
  Uint128, IsWide, value, of_word, to_bool, eq, ge, lt, to_bool_lem, eq_lem, ge_lem, lt_lem,
  value-lt,
}
use vitex.Uint128.Width.{bits, bits_lem, bits-le}
use vitex.Uint128.Arith.{sub, increment, increment-IsWide, value-increment, value-sub, sub-IsWide}
use vitex.Uint128.Shift.{shl, shr, value-shl_by, value-shr_by, shl-IsWide}
use vitex.Uint128.Logic.{bitwise_and, value-bitwise_and-one}
use native.Mathlib.Nat.{div-eq_of_lt, mul-le-mul_left, div-le_self, pow-suc, div-div-eq-div-mul}

-- The remainder with the next digit of `left`, at place `x`, below it.
shift_in : Uint128 → Uint128 → ℕ → Uint128
shift_in left r x =
    let r2 = shl r (of_word 1) in
    if to_bool (bitwise_and (shr left (of_word x)) (of_word 1)) then increment r2 else r2

-- One round on the quotient and the remainder.
divide_round : Uint128 → Uint128 → ℕ → Uint128 × Uint128 → Uint128 × Uint128
divide_round left right x (q, r) =
    let q2 = shl q (of_word 1) in
    let r3 = shift_in left r x in if ge r3 right then (increment q2, sub r3 right) else (q2, r3)

divide_loop : Uint128 → Uint128 → ℕ → Uint128 × Uint128 → Uint128 × Uint128
divide_loop left right zero qr = qr
divide_loop left right (suc x) qr = divide_loop left right x (divide_round left right x qr)

-- A zero divisor gives (0, 0) behind an assertion.
pub divide : Uint128 → Uint128 → Uint128 × Uint128
divide left right =
    if eq right (of_word 0)
    then (of_word 0, of_word 0)
    else if eq right (of_word 1)
    then (left, of_word 0)
    else if eq left right
    then (of_word 1, of_word 0)
    else if eq left (of_word 0) || lt left right
    then (of_word 0, left)
    else divide_loop left right (bits left) (of_word 0, of_word 0)

-- The quotient and remainder so far divide the digits read so far.
pub record Divides (left right : Uint128) (x : ℕ) (qr : Uint128 × Uint128) : Type 0 where
  pub quotient_wide : IsWide qr.0
  pub remainder_wide : IsWide qr.1
  pub product : value qr.0 * value right + value qr.1 ≡ value left / 2 ^ x
  pub small : value qr.1 < value right

-- `qr` is the quotient and the remainder of the two numbers.
pub record IsDivision (left right : Uint128) (qr : Uint128 × Uint128) : Type 0 where
  pub quotient_wide : IsWide qr.0
  pub remainder_wide : IsWide qr.1
  pub exact : value qr.0 * value right + value qr.1 ≡ value left
  pub small : value qr.1 < value right

module _ (left right : Uint128) (v : IsWide left) (w : IsWide right) where
  -- The numbers after one round, from those before it.
  double :
      (q : Uint128) → IsWide q → 2 * value q < 2 ^ 128 → value (shl q (of_word 1)) ≡ 2 * value q
  double q wide fits = value-shl_by q 1 wide ∙ omega arith

  halve_digits : (x : ℕ) → value left / 2 ^ suc x ≡ value left / 2 ^ x / 2
  halve_digits x = rw (pow-suc 2 x) (sym (div-div-eq-div-mul (value left) (2 ^ x) 2))

  prefix-lt : (x : ℕ) → value left / 2 ^ x < 2 ^ 128
  prefix-lt x = omega (arith, div-le_self (value left) (2 ^ x), value-lt left v)

  digit_at :
      (x : ℕ)
      → x < 128
      → to_bool (bitwise_and (shr left (of_word x)) (of_word 1)) ≡ not (value left / 2 ^ x % 2 == 0)
  digit_at x h =
      to_bool_lem _
      ∙ ap (λ (t : ℕ). not (t == 0))
          (value-bitwise_and-one (shr left (of_word x))
            ∙ ap (λ (t : ℕ). t % 2) (value-shr_by left x v))

  shift_in-IsWide : (r : Uint128) (x : ℕ) → IsWide r → IsWide (shift_in left r x)
  unfolding shift_in
  shift_in-IsWide r x wide =
      ground (arith, shl-IsWide r (of_word 1) wide, increment-IsWide (shl r (of_word 1)))

  value-shift_in :
      (r : Uint128) (x : ℕ)
      → x < 128
      → IsWide r
      → value r ≤ value left / 2 ^ suc x
      → value (shift_in left r x) ≡ 2 * value r + value left / 2 ^ x % 2
  unfolding shift_in
  value-shift_in r x h wide le = ground (
    arith,
    digit_at x h,
    double r wide,
    halve_digits x,
    value-increment (shl r (of_word 1)) (shl-IsWide r (of_word 1) wide),
    prefix-lt x,
  )

  module _ (x : ℕ) (q r : Uint128) (h : x < 128) (d : Divides left right (suc x) (q, r)) where
    remainder-le : value r ≤ value left / 2 ^ suc x
    remainder-le = omega (arith, d.product)

    quotient-le : value q ≤ value left / 2 ^ suc x
    quotient-le = omega (arith, d.product, mul-le-mul_left (value q) (bound d.small))
      where
        bound : value r < value right → 1 ≤ value right
        bound k = omega arith

    doubled : value (shl q (of_word 1)) ≡ 2 * value q
    doubled = double q d.quotient_wide (omega (arith, quotient-le, halve_digits x, prefix-lt x))

    shifted : value (shift_in left r x) ≡ 2 * value r + value left / 2 ^ x % 2
    shifted = value-shift_in r x h d.remainder_wide remainder-le

    step_product : 2 * value q * value right + value (shift_in left r x) ≡ value left / 2 ^ x
    step_product = omega (arith, shifted, d.product, halve_digits x)

    next_quotient : value (increment (shl q (of_word 1))) ≡ 2 * value q + 1
    next_quotient = omega (
      arith,
      value-increment (shl q (of_word 1)) (shl-IsWide q (of_word 1) d.quotient_wide),
      doubled,
      quotient-le,
      halve_digits x,
      prefix-lt x,
    )

    next_remainder :
        ge (shift_in left r x) right ≡ true
        → (value right ≤ value (shift_in left r x))
          × (value (sub (shift_in left r x) right) ≡ value (shift_in left r x) - value right)
    next_remainder more =
        let wide = shift_in-IsWide r x d.remainder_wide in
        let covers : value right ≤ value (shift_in left r x) =
          ground (arith, ge_lem (shift_in left r x) right wide w) in
        (
          covers,
          omega (
            arith,
            value-sub (shift_in left r x) right wide w,
            value-lt (shift_in left r x) wide,
          ),
        )

    divide_round-Divides : Divides left right x (divide_round left right x (q, r))
    unfolding divide_round
    divide_round-Divides = elim (Bool-cases (ge (shift_in left r x) right)) [
      | inl more ↦ rw more (record {
        quotient_wide = increment-IsWide _ (shl-IsWide q (of_word 1) d.quotient_wide);
        remainder_wide = sub-IsWide _ _ (shift_in-IsWide r x d.remainder_wide) w;
        product = omega (
          arith,
          next_quotient,
          next_remainder more,
          step_product,
          ap (λ (t : ℕ). t * value right) next_quotient,
        );
        small = omega (arith, next_remainder more, shifted, d.small);
      })
      | inr less ↦ rw less (record {
        quotient_wide = shl-IsWide q (of_word 1) d.quotient_wide;
        remainder_wide = shift_in-IsWide r x d.remainder_wide;
        product = rw doubled step_product;
        small =
            ground
              (arith, ge_lem (shift_in left r x) right (shift_in-IsWide r x d.remainder_wide) w);
      })
    ]

  divide_loop-Divides :
      (x : ℕ) (qr : Uint128 × Uint128)
      → x ≤ 128
      → Divides left right x qr
      → Divides left right 0 (divide_loop left right x qr)
  unfolding divide_loop
  divide_loop-Divides zero qr h d = d
  divide_loop-Divides (suc x) (q, r) h d =
      divide_loop-Divides x _ (omega arith) (divide_round-Divides x q r (omega arith) d)

  nothing_read : 0 < value right → Divides left right (bits left) (of_word 0, of_word 0)
  nothing_read pos = record {
    quotient_wide = omega arith;
    remainder_wide = omega arith;
    product = omega (arith, div-eq_of_lt (bits_lem left v).below);
    small = pos;
  }

  looped :
      0 < value right
      → IsDivision left right (divide_loop left right (bits left) (of_word 0, of_word 0))
  looped pos =
      let d =
        divide_loop-Divides (bits left) (of_word 0, of_word 0) (bits-le left v)
          (nothing_read pos) in
      record {
        quotient_wide = d.quotient_wide;
        remainder_wide = d.remainder_wide;
        exact = omega (arith, d.product);
        small = d.small;
      }

  -- Where the divisor is not 0, division of 128-bit values gives 128-bit values q and r with q *
  -- right + r = left and r < right, on every branch.
  pub divide-IsDivision : 0 < value right → IsDivision left right (divide left right)
  unfolding divide
  divide-IsDivision pos =
      if_both (IsDivision left right) (eq right (of_word 0))
        (λ e. absurd (ground (arith, eq_lem right (of_word 0) w (omega arith))))
        λ _.
          if_both (IsDivision left right) (eq right (of_word 1))
            (λ e. ground (arith, eq_lem right (of_word 1) w (omega arith)))
            λ _.
              if_both (IsDivision left right) (eq left right)
                (λ e. ground (arith, eq_lem left right v w))
                λ _.
                  if_both (IsDivision left right) (eq left (of_word 0) || lt left right)
                    (λ e.
                      ground
                        (arith, eq_lem left (of_word 0) v (omega arith), lt_lem left right v w))
                    λ _. looped pos

-- Division by 0 gives (0, 0).
pub divide_by_zero : (left : Uint128) → divide left (of_word 0) ≡ (of_word 0, of_word 0)
unfolding divide
divide_by_zero left = ground (arith, eq_lem (of_word 0) (of_word 0) (omega arith) (omega arith))
