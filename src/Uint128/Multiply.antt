-- ===== src/Uint128/Multiply.antt =====
-- `uint128::operator*`: schoolbook multiplication over four 32-bit digits.
use vitex.Common.{ℕ, ◌+◌, ◌*◌, ◌/◌, ◌%◌, ◌^◌, ◌≤◌, ◌<◌, ◌≡◌, arith, ap}
use vitex.Uint128.Word.{Uint128, IsWide, value, make}
use vitex.Common.{bit_or, sym, ◌∙◌}
use mathlib.Core.Path.{ap₂}
use vitex.Common.Bits.{or-disjoint}
use native.Mathlib.Nat.{mul-le-mul, mod-eq_of_lt}

-- The 32-bit digits of a 64-bit value, and sums and products in `uint64_t`.
abbrev high32 : ℕ → ℕ
high32 a = a / 2 ^ 32

abbrev low32 : ℕ → ℕ
low32 a = a % 2 ^ 32

infixl 65 ◌⊕◌
abbrev ◌⊕◌ : ℕ → ℕ → ℕ
a ⊕ b = (a + b) % 2 ^ 64

infixl 70 ◌⊗◌
abbrev ◌⊗◌ : ℕ → ℕ → ℕ
a ⊗ b = a * b % 2 ^ 64

-- `(a << 32) | b`.
join32 : ℕ → ℕ → ℕ
join32 a b = bit_or (a * 2 ^ 32 % 2 ^ 64) b

join32_sum : (a b : ℕ) → a < 2 ^ 32 → b < 2 ^ 32 → join32 a b ≡ a * 2 ^ 32 + b
unfolding join32
join32_sum a b ha hb =
    ap (λ (t : ℕ). bit_or t b) (mod-eq_of_lt {n = a * 2 ^ 32} (omega arith)) ∙ or-disjoint 32 a b hb

-- The halves of the products, collected by place. `first` to `fourth` name the words `first32` to
-- `fourth32` as they stand before they are masked.
collect : (p00 p01 p02 p03 p11 p12 p13 p22 p23 p33 : ℕ) → Uint128
collect p00 p01 p02 p03 p11 p12 p13 p22 p23 p33 =
    let fourth = low32 p03 in
    let third = low32 p02 ⊕ high32 p03 ⊕ low32 p13 ⊕ high32 fourth in
    let second = low32 p01 ⊕ high32 p02 ⊕ (low32 p12 ⊕ high32 p13) ⊕ low32 p23 ⊕ high32 third in
    let first =
      low32 p00
      ⊕ high32 p01
      ⊕ (low32 p11 ⊕ high32 p12)
      ⊕ (low32 p22 ⊕ high32 p23)
      ⊕ low32 p33
      ⊕ high32 second in
    make (join32 (low32 first) (low32 second)) (join32 (low32 third) (low32 fourth))

-- The products of the digits, the highest first. The table of the source holds sixteen; the six
-- that are never read stand for multiples of 2^128.
mul_digits : (a0 a1 a2 a3 b0 b1 b2 b3 : ℕ) → Uint128
mul_digits a0 a1 a2 a3 b0 b1 b2 b3 =
    collect (a3 ⊗ b0) (a3 ⊗ b1) (a3 ⊗ b2) (a3 ⊗ b3) (a2 ⊗ b1) (a2 ⊗ b2) (a2 ⊗ b3) (a1 ⊗ b2)
      (a1 ⊗ b3) (a0 ⊗ b3)

pub mul : Uint128 → Uint128 → Uint128
mul x y =
    mul_digits (high32 x.upper) (low32 x.upper) (high32 x.lower) (low32 x.lower) (high32 y.upper)
      (low32 y.upper) (high32 y.lower) (low32 y.lower)

module _ (p00 p01 p02 p03 p11 p12 p13 p22 p23 p33 : ℕ) (h00 : p00 < 2 ^ 64) (h01 : p01 < 2 ^ 64)
    (h02 : p02 < 2 ^ 64) (h03 : p03 < 2 ^ 64) (h11 : p11 < 2 ^ 64) (h12 : p12 < 2 ^ 64)
    (h13 : p13 < 2 ^ 64) (h22 : p22 < 2 ^ 64) (h23 : p23 < 2 ^ 64) (h33 : p33 < 2 ^ 64) where
  collect_lem :
      value (collect p00 p01 p02 p03 p11 p12 p13 p22 p23 p33)
      ≡ (p03 + (p02 + p13) * 2 ^ 32 + (p01 + p12 + p23) * 2 ^ 64 + (p00 + p11 + p22 + p33) * 2 ^ 96)
        % 2 ^ 128
  unfolding collect
  collect_lem = omega (arith, join32_sum)

collect-IsWide :
    (p00 p01 p02 p03 p11 p12 p13 p22 p23 p33 : ℕ)
    → IsWide (collect p00 p01 p02 p03 p11 p12 p13 p22 p23 p33)
unfolding collect
collect-IsWide p00 p01 p02 p03 p11 p12 p13 p22 p23 p33 = omega (arith, join32_sum)

digit_product : {a b : ℕ} → a < 2 ^ 32 → b < 2 ^ 32 → a * b ≤ 4294967295 * 4294967295
digit_product ha hb = mul-le-mul {n₂ = 4294967295} {m₂ = 4294967295} (omega arith) (omega arith)

product-lt : {a b : ℕ} → a < 2 ^ 32 → b < 2 ^ 32 → a * b < 2 ^ 64
product-lt ha hb = omega (arith, digit_product ha hb)

-- A product of two digits does not wrap around in `uint64_t`.
product_exact : {a b : ℕ} → a < 2 ^ 32 → b < 2 ^ 32 → a ⊗ b ≡ a * b
product_exact ha hb = mod-eq_of_lt (omega (arith, digit_product ha hb))

-- Four digits as a number.
abbrev of_digits : (a0 a1 a2 a3 : ℕ) → ℕ
of_digits a0 a1 a2 a3 = a0 * 2 ^ 96 + a1 * 2 ^ 64 + a2 * 2 ^ 32 + a3

module _ (a0 a1 a2 a3 b0 b1 b2 b3 : ℕ) (ha0 : a0 < 2 ^ 32) (ha1 : a1 < 2 ^ 32) (ha2 : a2 < 2 ^ 32)
    (ha3 : a3 < 2 ^ 32) (hb0 : b0 < 2 ^ 32) (hb1 : b1 < 2 ^ 32) (hb2 : b2 < 2 ^ 32)
    (hb3 : b3 < 2 ^ 32) where
  mul_digits_lem :
      value (mul_digits a0 a1 a2 a3 b0 b1 b2 b3)
      ≡ of_digits a0 a1 a2 a3 * of_digits b0 b1 b2 b3 % 2 ^ 128
  unfolding mul_digits
  mul_digits_lem =
      rw
        (
          product_exact ha3 hb0,
          product_exact ha3 hb1,
          product_exact ha3 hb2,
          product_exact ha3 hb3,
          product_exact ha2 hb1,
          product_exact ha2 hb2,
          product_exact ha2 hb3,
          product_exact ha1 hb2,
          product_exact ha1 hb3,
          product_exact ha0 hb3,
        )
        (omega (
          arith,
          collect_lem (a3 * b0) (a3 * b1) (a3 * b2) (a3 * b3) (a2 * b1) (a2 * b2) (a2 * b3)
              (a1 * b2) (a1 * b3) (a0 * b3) (product-lt ha3 hb0) (product-lt ha3 hb1)
              (product-lt ha3 hb2) (product-lt ha3 hb3) (product-lt ha2 hb1) (product-lt ha2 hb2)
              (product-lt ha2 hb3) (product-lt ha1 hb2) (product-lt ha1 hb3) (product-lt ha0 hb3),
        ))

value-of_digits :
    (x : Uint128)
    → value x ≡ of_digits (high32 x.upper) (low32 x.upper) (high32 x.lower) (low32 x.lower)
value-of_digits x = omega arith

pub mul-IsWide : (x y : Uint128) → IsWide (mul x y)
unfolding mul mul_digits
mul-IsWide x y = collect-IsWide _ _ _ _ _ _ _ _ _ _

-- The product of two 128-bit values, computed from their 32-bit digits, stands for the product of
-- the numbers modulo 2^128.
pub value-mul :
    (x y : Uint128) → IsWide x → IsWide y → value (mul x y) ≡ value x * value y % 2 ^ 128
unfolding mul
value-mul x y v w =
    mul_digits_lem (high32 x.upper) (low32 x.upper) (high32 x.lower) (low32 x.lower)
      (high32 y.upper) (low32 y.upper) (high32 y.lower) (low32 y.lower) (omega arith) (omega arith)
      (omega arith) (omega arith) (omega arith) (omega arith) (omega arith) (omega arith)
    ∙ ap₂ (λ (a b : ℕ). a * b % 2 ^ 128) (sym (value-of_digits x)) (sym (value-of_digits y))
