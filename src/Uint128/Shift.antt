-- ===== src/Uint128/Shift.antt =====
-- The shift operators, by an amount that is itself a 128-bit number.
use vitex.Common.{
  ℕ, ◌+◌, ◌-◌, ◌*◌, ◌/◌, ◌%◌, ◌^◌, ◌≤◌, ◌<◌, ◌≡◌, arith, ltb, leb, ◌==◌, ◌⊎◌, inl, inr, not, ◌&&◌,
  ◌||◌,
}
use vitex.Common.{pow-sub-mul, two-pow-pos, if◌then◌else◌, ap, sym}
use vitex.Uint128.Word.{Uint128, IsWide, value, make, of_word, value-lt}
use native.Mathlib.Nat.{
  div-eq_of_lt, div-le_self, div-div-eq-div-mul, pow-le-pow_right, mul_comm, mod-lt, div-add-mod',
  div-lt_iff_lt-mul, div-eq_of_lt-le, mul-le-mul_right,
}

pub shl : Uint128 → Uint128 → Uint128
shl x y =
    let s = y.lower in
    if not (y.upper == 0) || leb 128 s
    then of_word 0
    else if s == 64
    then make x.lower 0
    else if s == 0
    then x
    else if ltb s 64
    then make ((x.upper * 2 ^ s % 2 ^ 64 + x.lower / 2 ^ (64 - s)) % 2 ^ 64)
        (x.lower * 2 ^ s % 2 ^ 64)
    else if ltb s 128 && ltb 64 s
    then make (x.lower * 2 ^ (s - 64) % 2 ^ 64) 0
    else of_word 0

pub shr : Uint128 → Uint128 → Uint128
shr x y =
    let s = y.lower in
    if not (y.upper == 0) || leb 128 s
    then of_word 0
    else if s == 64
    then of_word x.upper
    else if s == 0
    then x
    else if ltb s 64
    then make (x.upper / 2 ^ s) ((x.upper * 2 ^ (64 - s) % 2 ^ 64 + x.lower / 2 ^ s) % 2 ^ 64)
    else if ltb s 128 && ltb 64 s
    then of_word (x.upper / 2 ^ (s - 64))
    else of_word 0

-- A value is split at the factor `q`: the remainder, times `p`, stays below `p * q`.
pub split_bound : (u p q : ℕ) → 0 < q → u % q * p + p ≤ p * q
split_bound u p q h = omega (arith, mul-le-mul_right p (mod-lt u h))

pub split_mul : (u p q m : ℕ) → p * q ≡ m → u * p ≡ u / q * m + u % q * p
split_mul u p q m e =
    omega (arith, ap (λ (t : ℕ). t * p) (div-add-mod' u q), ap (λ (t : ℕ). u / q * t) e)

-- With `p * q = 2^64`, shifting by the factor `p` across the halves multiplies by `p`.
shl_core :
    (u l p q : ℕ)
    → u < 2 ^ 64
    → l < 2 ^ 64
    → 0 < q
    → p * q ≡ 2 ^ 64
    → (u * p % 2 ^ 64 + l / q) % 2 ^ 64 * 2 ^ 64 + l * p % 2 ^ 64 ≡ (u * 2 ^ 64 + l) * p % 2 ^ 128
shl_core u l p q hu hl pos e = omega (
  arith,
  split_mul u p q (2 ^ 64) e,
  split_bound u p q pos,
  split_mul l p q (2 ^ 64) e,
  split_bound l p q pos,
  (div-lt_iff_lt-mul {x = l} {y = p} pos).1 (rw e hl),
)

-- The lower half after a right shift: what falls out of the upper half stands above the rest.
shr_low :
    (u l p q : ℕ)
    → l < 2 ^ 64
    → 0 < p
    → q * p ≡ 2 ^ 64
    → (u * q % 2 ^ 64 + l / p) % 2 ^ 64 ≡ u % p * q + l / p
shr_low u l p q hl pos e = omega (
  arith,
  split_mul u q p (2 ^ 64) e,
  split_bound u q p pos,
  (div-lt_iff_lt-mul {x = l} {y = q} pos).1 (rw e hl),
)

shr_core :
    (u l p q : ℕ)
    → l < 2 ^ 64
    → 0 < p
    → q * p ≡ 2 ^ 64
    → u / p * 2 ^ 64 + (u * q % 2 ^ 64 + l / p) % 2 ^ 64 ≡ (u * 2 ^ 64 + l) / p
shr_core u l p q hl pos e = rw (shr_low u l p q hl pos e) (
    sym (
      div-eq_of_lt-le p (omega (arith, parts, rest, crossed))
        (omega (arith, parts, rest, crossed, mod-lt l pos))))
  where
    parts : u / p * p + u % p ≡ u
    parts = div-add-mod' u p

    rest : l / p * p + l % p ≡ l
    rest = div-add-mod' l p

    crossed : u % p * (q * p) ≡ u % p * 2 ^ 64
    crossed = ap (λ (t : ℕ). u % p * t) e

-- A product with a power of two that is 2^128 or more vanishes modulo 2^128.
shifted_out : (a n : ℕ) → 128 ≤ n → a * 2 ^ n % 2 ^ 128 ≡ 0
shifted_out a n h = omega (arith, ap (λ (t : ℕ). a * t) (pow-sub-mul 2 128 n h))

halved_out : (a n : ℕ) → a < 2 ^ 128 → 128 ≤ n → a / 2 ^ n ≡ 0
halved_out a n lt h = div-eq_of_lt (omega (arith, pow-le-pow_right {n = 2} (omega arith) h))

pub mul-two-pow_split : (a m n : ℕ) → m ≤ n → a * 2 ^ n ≡ a * 2 ^ (n - m) * 2 ^ m
mul-two-pow_split a m n h = omega (arith, ap (λ (t : ℕ). a * t) (pow-sub-mul 2 m n h))

pub div-two-pow_split : (a m n : ℕ) → m ≤ n → a / 2 ^ n ≡ a / 2 ^ m / 2 ^ (n - m)
div-two-pow_split a m n h =
    rw (← pow-sub-mul 2 m n h) (sym (div-div-eq-div-mul a (2 ^ m) (2 ^ (n - m))))

upper_half : (u l : ℕ) → l < 2 ^ 64 → (u * 2 ^ 64 + l) / 2 ^ 64 ≡ u
upper_half u l h = omega arith

module _ (u l n : ℕ) (hu : u < 2 ^ 64) (hl : l < 2 ^ 64) where
  shl_word :
      0 < n → n < 64 → value (shl (make u l) (of_word n)) ≡ (u * 2 ^ 64 + l) * 2 ^ n % 2 ^ 128
  unfolding shl
  shl_word pos h = ground (
    arith,
    shl_core u l (2 ^ n) (2 ^ (64 - n)) hu hl (two-pow-pos (64 - n))
        (pow-sub-mul 2 n 64 (omega arith)),
  )

  shl_far :
      64 < n → n < 128 → value (shl (make u l) (of_word n)) ≡ (u * 2 ^ 64 + l) * 2 ^ n % 2 ^ 128
  unfolding shl
  shl_far pos h = ground (arith, mul-two-pow_split (u * 2 ^ 64 + l) 64 n (omega arith))

  shr_word : 0 < n → n < 64 → value (shr (make u l) (of_word n)) ≡ (u * 2 ^ 64 + l) / 2 ^ n
  unfolding shr
  shr_word pos h = ground (
    arith,
    shr_core u l (2 ^ n) (2 ^ (64 - n)) hl (two-pow-pos n),
    pow-sub-mul 2 n 64 (omega arith),
    mul_comm (2 ^ n) (2 ^ (64 - n)),
  )

  shr_far : 64 < n → n < 128 → value (shr (make u l) (of_word n)) ≡ (u * 2 ^ 64 + l) / 2 ^ n
  unfolding shr
  shr_far pos h = ground (
    arith,
    div-two-pow_split (u * 2 ^ 64 + l) 64 n (omega arith),
    ap (λ (t : ℕ). t / 2 ^ (n - 64)) (upper_half u l hl),
  )

far : (y : Uint128) → (128 ≤ value y) ⊎ ((y.upper ≡ 0) × (y.lower < 128))
far y = ground arith

module _ (x y : Uint128) (v : IsWide x) where
  pub shl-IsWide : IsWide (shl x y)
  unfolding shl
  shl-IsWide = ground arith

  pub shr-IsWide : IsWide (shr x y)
  unfolding shr
  shr-IsWide = record {
    upper_fits = ground (arith, div-le_self x.upper (2 ^ y.lower));
    lower_fits = ground (arith, div-le_self x.upper (2 ^ (y.lower - 64)));
  }

  -- A left shift of a 128-bit value by any 128-bit amount stands for the number times that power
  -- of two, modulo 2^128.
  pub value-shl : value (shl x y) ≡ value x * 2 ^ value y % 2 ^ 128
  value-shl = elim (far y) [
    | inl out ↦ rw (shifted_out (value x) (value y) out) (unfold shl in ground arith)
    | inr (zero_upper, near) ↦
        unfold shl in
        ground (arith, shl_word x.upper x.lower y.lower, shl_far x.upper x.lower y.lower)
  ]

  -- A right shift of a 128-bit value by any 128-bit amount stands for the number divided by that
  -- power of two, rounded down.
  pub value-shr : value (shr x y) ≡ value x / 2 ^ value y
  value-shr = elim (far y) [
    | inl out ↦ rw (halved_out (value x) (value y) (value-lt x v) out) (unfold shr in ground arith)
    | inr (zero_upper, near) ↦
        unfold shr in
        ground (arith, shr_word x.upper x.lower y.lower, shr_far x.upper x.lower y.lower)
  ]

-- Shifts by a 64-bit amount.
pub value-shl_by :
    (x : Uint128) (n : ℕ) → IsWide x → value (shl x (of_word n)) ≡ value x * 2 ^ n % 2 ^ 128
value-shl_by x n v = rw (value-shl x (of_word n) v, of_word_value n)
  where
    of_word_value : (k : ℕ) → value (of_word k) ≡ k
    of_word_value k = omega arith

pub value-shr_by : (x : Uint128) (n : ℕ) → IsWide x → value (shr x (of_word n)) ≡ value x / 2 ^ n
value-shr_by x n v = rw (value-shr x (of_word n) v, of_word_value n)
  where
    of_word_value : (k : ℕ) → value (of_word k) ≡ k
    of_word_value k = omega arith
