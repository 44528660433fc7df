-- ===== src/Uint256/Shift/Laws.antt =====
-- What the shifts of `uint256` do to the number.
use vitex.Common.{
  ℕ, ◌+◌, ◌-◌, ◌*◌, ◌/◌, ◌%◌, ◌^◌, ◌≤◌, ◌<◌, ◌≡◌, ◌⊎◌, inl, inr, arith, ap, sym, ◌∙◌, two-pow-pos,
  pow-sub-mul,
}
use vitex.Uint128.Word as Half
use vitex.Uint128.Word.{Uint128, of_word}
use vitex.Uint128.Arith as HalfArith
use vitex.Uint128.Shift as HalfShift
use vitex.Uint256.Word.{Uint256, IsWide, value, make, of_half, value-lt}
use vitex.Uint128.Shift.{split_bound, split_mul, mul-two-pow_split}
use vitex.Uint256.Shift.{shl, shr}
use native.Mathlib.Nat.{div-lt_iff_lt-mul, div-eq_of_lt-le, div-add-mod', mod-lt, mul_comm}

-- A right shift of a 256-bit value by 128 or more gives 0, whatever the value.
pub shr_beyond_half : (x y : Uint256) → IsWide y → 128 ≤ value y → shr x y ≡ of_half (of_word 0)
unfolding shr
shr_beyond_half x y w h =
    ground (arith, Half.to_bool_lem y.upper, Half.ge_lem y.lower (of_word 128) w.lower_wide)

module _ (u l p q : ℕ) (hl : l < 2 ^ 128) where
  -- The lower half after a right shift by the factor `p`, where `q * p = 2^128`.
  shr_low : 0 < p → q * p ≡ 2 ^ 128 → (u * q % 2 ^ 128 + l / p) % 2 ^ 128 ≡ u % p * q + l / p
  shr_low pos e = omega (
    arith,
    split_mul u q p (2 ^ 128) e,
    split_bound u q p pos,
    (div-lt_iff_lt-mul {x = l} {y = q} pos).1 (rw e hl),
  )

  shr_core :
      0 < p
      → q * p ≡ 2 ^ 128
      → u / p * 2 ^ 128 + (u * q % 2 ^ 128 + l / p) % 2 ^ 128 ≡ (u * 2 ^ 128 + l) / p
  shr_core pos e = rw (shr_low pos e) (
      sym (
        div-eq_of_lt-le p (omega (arith, div-add-mod' u p, div-add-mod' l p, crossed))
          (omega (arith, div-add-mod' u p, div-add-mod' l p, crossed, mod-lt l pos))))
    where
      crossed : u % p * (q * p) ≡ u % p * 2 ^ 128
      crossed = ap (λ (t : ℕ). u % p * t) e

  shl_core :
      u < 2 ^ 128
      → 0 < q
      → p * q ≡ 2 ^ 128
      → (u * p % 2 ^ 128 + l / q) % 2 ^ 128 * 2 ^ 128 + l * p % 2 ^ 128
        ≡ (u * 2 ^ 128 + l) * p % 2 ^ 256
  shl_core hu pos e = omega (
    arith,
    split_mul u p q (2 ^ 128) e,
    split_bound u p q pos,
    split_mul l p q (2 ^ 128) e,
    split_bound l p q pos,
    (div-lt_iff_lt-mul {x = l} {y = p} pos).1 (rw e hl),
  )

-- The numbers that the tests of the shifts compare.
module _ (s : Uint128) (w : Half.IsWide s) where
  distance : Half.value s ≤ 128 → Half.value (HalfArith.sub (of_word 128) s) ≡ 128 - Half.value s
  distance h = omega (arith, HalfArith.value-sub (of_word 128) s (omega arith) w)

  excess : 128 ≤ Half.value s → Half.value (HalfArith.sub s (of_word 128)) ≡ Half.value s - 128
  excess h = omega (arith, HalfArith.value-sub s (of_word 128) w (omega arith), Half.value-lt s w)

-- The three half shifts that a shift by less than 128 is made of.
module _ (x : Uint256) (s : Uint128) (v : IsWide x) (w : Half.IsWide s)
    (h : Half.value s < 128) where
  crossing_left :
      Half.value (HalfShift.shl x.upper (HalfArith.sub (of_word 128) s))
      ≡ Half.value x.upper * 2 ^ (128 - Half.value s) % 2 ^ 128
  crossing_left =
      HalfShift.value-shl x.upper (HalfArith.sub (of_word 128) s) v.upper_wide
      ∙ ap (λ (k : ℕ). Half.value x.upper * 2 ^ k % 2 ^ 128) (distance s w (omega arith))

  crossing_right :
      Half.value (HalfShift.shr x.lower (HalfArith.sub (of_word 128) s))
      ≡ Half.value x.lower / 2 ^ (128 - Half.value s)
  crossing_right =
      HalfShift.value-shr x.lower (HalfArith.sub (of_word 128) s) v.lower_wide
      ∙ ap (λ (k : ℕ). Half.value x.lower / 2 ^ k) (distance s w (omega arith))

  shr_near :
      value (
        make (HalfShift.shr x.upper s) (
          HalfArith.add
            (HalfShift.shl x.upper (HalfArith.sub (of_word 128) s))
            (HalfShift.shr x.lower s)))
      ≡ value x / 2 ^ Half.value s
  shr_near = omega (
    arith,
    HalfShift.value-shr x.upper s v.upper_wide,
    HalfShift.value-shr x.lower s v.lower_wide,
    crossing_left,
    HalfArith.value-add (HalfShift.shl x.upper (HalfArith.sub (of_word 128) s))
        (HalfShift.shr x.lower s) (HalfShift.shl-IsWide x.upper _ v.upper_wide)
        (HalfShift.shr-IsWide x.lower s v.lower_wide),
    shr_core (Half.value x.upper) (Half.value x.lower) (2 ^ Half.value s) (2 ^ (128 - Half.value s))
        (Half.value-lt x.lower v.lower_wide) (two-pow-pos (Half.value s))
        (mul_comm _ _ ∙ pow-sub-mul 2 (Half.value s) 128 (omega arith)),
  )

  shl_near :
      value (
        make
          (HalfArith.add
            (HalfShift.shl x.upper s)
            (HalfShift.shr x.lower (HalfArith.sub (of_word 128) s)))
          (HalfShift.shl x.lower s))
      ≡ value x * 2 ^ Half.value s % 2 ^ 256
  shl_near = omega (
    arith,
    HalfShift.value-shl x.upper s v.upper_wide,
    HalfShift.value-shl x.lower s v.lower_wide,
    crossing_right,
    HalfArith.value-add (HalfShift.shl x.upper s)
        (HalfShift.shr x.lower (HalfArith.sub (of_word 128) s))
        (HalfShift.shl-IsWide x.upper s v.upper_wide) (HalfShift.shr-IsWide x.lower _ v.lower_wide),
    shl_core (Half.value x.upper) (Half.value x.lower) (2 ^ Half.value s) (2 ^ (128 - Half.value s))
        (Half.value-lt x.lower v.lower_wide) (Half.value-lt x.upper v.upper_wide)
        (two-pow-pos (128 - Half.value s)) (pow-sub-mul 2 (Half.value s) 128 (omega arith)),
  )

-- A shift by 128 and more moves the lower half up.
shl_beyond :
    (x : Uint256) (s : Uint128)
    → IsWide x
    → Half.IsWide s
    → 128 ≤ Half.value s
    → value (make (HalfShift.shl x.lower (HalfArith.sub s (of_word 128))) (of_word 0))
      ≡ value x * 2 ^ Half.value s % 2 ^ 256
shl_beyond x s v w h = omega (
  arith,
  HalfShift.value-shl x.lower (HalfArith.sub s (of_word 128)) v.lower_wide
      ∙ ap (λ (k : ℕ). Half.value x.lower * 2 ^ k % 2 ^ 128) (excess s w h),
  mul-two-pow_split (Half.value x.lower) 128 (Half.value s) h,
  mul-two-pow_split (Half.value x.upper) 128 (Half.value s) h,
)

module _ (x y : Uint256) (v : IsWide x) (w : IsWide y) where
  -- A right shift of a 256-bit value by less than 128 stands for the number divided by that power
  -- of two, rounded down.
  pub value-shr_256 : value y < 128 → value (shr x y) ≡ value x / 2 ^ value y
  unfolding shr
  value-shr_256 h = ground (
    arith,
    shr_near x y.lower v w.lower_wide,
    Half.to_bool_lem y.upper,
    Half.ge_lem y.lower (of_word 128) w.lower_wide,
    Half.eq_lem y.lower (of_word 128) w.lower_wide,
    Half.eq_lem y.lower (of_word 0) w.lower_wide,
    Half.lt_lem y.lower (of_word 128) w.lower_wide,
    ap (λ (k : ℕ). value x / 2 ^ k) (near_amount h),
  )
    where
      near_amount : value y < 128 → value y ≡ Half.value y.lower
      near_amount k = omega arith

-- A product with a power of two that is 2^256 or more vanishes modulo 2^256.
shifted_out : (a n : ℕ) → 256 ≤ n → a * 2 ^ n % 2 ^ 256 ≡ 0
shifted_out a n h = omega (arith, ap (λ (t : ℕ). a * t) (pow-sub-mul 2 256 n h))

amount_cases :
    (y : Uint256) → (256 ≤ value y) ⊎ ((Half.value y.upper ≡ 0) × (Half.value y.lower < 256))
amount_cases y = omega arith

module _ (x y : Uint256) (v : IsWide x) (w : IsWide y) where
  shl_tests :
      Half.value y.upper ≡ 0
      → Half.value y.lower < 256
      → value (shl x y) ≡ value x * 2 ^ Half.value y.lower % 2 ^ 256
  unfolding shl
  shl_tests z h = ground (
    arith,
    shl_near x y.lower v w.lower_wide,
    shl_beyond x y.lower v w.lower_wide,
    Half.to_bool_lem y.upper,
    Half.ge_lem y.lower (of_word 256) w.lower_wide,
    Half.eq_lem y.lower (of_word 128) w.lower_wide,
    Half.eq_lem y.lower (of_word 0) w.lower_wide,
    Half.lt_lem y.lower (of_word 128) w.lower_wide,
    Half.gt_lem (of_word 256) y.lower (omega arith) w.lower_wide,
    Half.gt_lem y.lower (of_word 128) w.lower_wide (omega arith),
    value-lt x v,
  )

  -- A left shift of a 256-bit value by any 256-bit amount stands for the number times that power
  -- of two, modulo 2^256.
  pub value-shl_256 : value (shl x y) ≡ value x * 2 ^ value y % 2 ^ 256
  value-shl_256 = elim (amount_cases y) [
    | inl out ↦ rw (shifted_out (value x) (value y) out) (
        unfold shl in
        ground (arith, Half.to_bool_lem y.upper, Half.ge_lem y.lower (of_word 256) w.lower_wide))
    | inr (z, h) ↦ shl_tests z h ∙ ap (λ (k : ℕ). value x * 2 ^ k % 2 ^ 256) (low_amount z)
  ]
    where
      low_amount : Half.value y.upper ≡ 0 → Half.value y.lower ≡ value y
      low_amount z = omega arith
