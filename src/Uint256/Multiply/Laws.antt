-- ===== src/Uint256/Multiply/Laws.antt =====
-- The product of `uint256::operator*` is the product of the numbers modulo 2^256.
use vitex.Common.{ℕ, ◌+◌, ◌*◌, ◌%◌, ◌^◌, ◌≤◌, ◌<◌, ◌≡◌, arith}
use vitex.Uint128.Word as Half
use vitex.Uint128.Word.{Uint128, of_word}
use vitex.Uint128.Arith as HalfArith
use vitex.Uint128.Multiply as HalfMultiply
use vitex.Uint128.Shift as HalfShift
use vitex.Uint256.Word.{Uint256, IsWide, value, make, of_half}
use vitex.Uint256.Arith.{add, value-add_256, add-IsWide}
use vitex.Uint256.Multiply.{◌⊕◌, low64, high64, third_word, second_word, first_word, assemble, mul}
use native.Mathlib.Nat.{mul-le-mul}

-- `p` is a proper 128-bit value that stands for `n`.
record Stands (p : Uint128) (n : ℕ) : Type 0 where
  wide : Half.IsWide p
  stands : Half.value p ≡ n

-- Sums that stay below 2^128 are exact.
module _ {a b : Uint128} {m n : ℕ} (v : Stands a m) (w : Stands b n) where
  Stands-add : m + n < 2 ^ 128 → Stands (a ⊕ b) (m + n)
  Stands-add h = record {
    wide = HalfArith.add-IsWide a b v.wide w.wide;
    stands = omega (arith, HalfArith.value-add a b v.wide w.wide, v.stands, w.stands);
  }

Stands-low : (p : Uint128) → Half.IsWide p → Stands (low64 p) p.lower
Stands-low p w = omega arith

Stands-high : (p : Uint128) → Half.IsWide p → Stands (high64 p) p.upper
Stands-high p w = omega arith

-- A product of two words does not wrap around in 128 bits.
word_product : (a b : ℕ) → a < 2 ^ 64 → b < 2 ^ 64 → a * b < 2 ^ 128
word_product a b ha hb = omega (
  arith,
  mul-le-mul {n₂ = 18446744073709551615} {m₂ = 18446744073709551615} (pred_le a ha) (pred_le b hb),
)
  where
    pred_le : (c : ℕ) → c < 2 ^ 64 → c ≤ 18446744073709551615
    pred_le c h = omega arith

Stands-mul :
    (a b : ℕ) → a < 2 ^ 64 → b < 2 ^ 64 → Stands (HalfMultiply.mul (of_word a) (of_word b)) (a * b)
Stands-mul a b ha hb = record {
  wide = HalfMultiply.mul-IsWide (of_word a) (of_word b);
  stands = omega (
    arith,
    HalfMultiply.value-mul (of_word a) (of_word b) (of_word-IsWide a ha) (of_word-IsWide b hb),
    word_product a b ha hb,
  );
}
  where
    of_word-IsWide : (c : ℕ) → c < 2 ^ 64 → Half.IsWide (of_word c)
    of_word-IsWide c h = omega arith

module _ (p02 p03 p13 : Uint128) (w02 : Half.IsWide p02) (w03 : Half.IsWide p03)
    (w13 : Half.IsWide p13) where
  Stands-third : Stands (third_word p02 p03 p13) (p02.lower + p03.upper + p13.lower)
  unfolding third_word
  Stands-third =
      Stands-add (Stands-add (Stands-low p02 w02) (Stands-high p03 w03) (omega arith))
        (Stands-low p13 w13) (omega arith)

module _ (p01 p02 p12 p13 p23 : Uint128) (w01 : Half.IsWide p01) (w02 : Half.IsWide p02)
    (w12 : Half.IsWide p12) (w13 : Half.IsWide p13) (w23 : Half.IsWide p23) where
  Stands-second :
      Stands
        (second_word p01 p02 p12 p13 p23)
        (p01.lower + p02.upper + (p12.lower + p13.upper) + p23.lower)
  unfolding second_word
  Stands-second =
      let left = Stands-add (Stands-low p01 w01) (Stands-high p02 w02) (omega arith) in
      let right = Stands-add (Stands-low p12 w12) (Stands-high p13 w13) (omega arith) in
      Stands-add (Stands-add left right (omega arith)) (Stands-low p23 w23) (omega arith)

module _ (p00 p01 p11 p12 p22 p23 p33 : Uint128) (w00 : Half.IsWide p00) (w01 : Half.IsWide p01)
    (w11 : Half.IsWide p11) (w12 : Half.IsWide p12) (w22 : Half.IsWide p22) (w23 : Half.IsWide p23)
    (w33 : Half.IsWide p33) where
  Stands-first :
      Stands
        (first_word p00 p01 p11 p12 p22 p23 p33)
        (p00.lower + p01.upper + (p11.lower + p12.upper) + (p22.lower + p23.upper) + p33.lower)
  unfolding first_word
  Stands-first =
      let top = Stands-add (Stands-low p00 w00) (Stands-high p01 w01) (omega arith) in
      let middle = Stands-add (Stands-low p11 w11) (Stands-high p12 w12) (omega arith) in
      let last = Stands-add (Stands-low p22 w22) (Stands-high p23 w23) (omega arith) in
      Stands-add (Stands-add (Stands-add top middle (omega arith)) last (omega arith))
        (Stands-low p33 w33) (omega arith)

module _ (first second third fourth : Uint128) {n1 n2 n3 n4 : ℕ} (s1 : Stands first n1)
    (s2 : Stands second n2) (s3 : Stands third n3) (s4 : Stands fourth n4) where
  value-assemble :
      value (assemble first second third fourth)
      ≡ (n1 * 2 ^ 192 + n2 * 2 ^ 128 + n3 * 2 ^ 64 + n4) % 2 ^ 256
  unfolding assemble
  value-assemble = omega (
    arith,
    s1.stands,
    s2.stands,
    s3.stands,
    s4.stands,
    HalfShift.value-shl_by first 64 s1.wide,
    HalfShift.value-shl_by third 64 s3.wide,
    value-add_256 A B wa wb,
    value-add_256 (add A B) C wab wc,
    value-add_256 (add (add A B) C) (of_half fourth) (add-IsWide _ _ wab wc) wd,
  )
    where
      A : Uint256
      A = make (HalfShift.shl first (of_word 64)) (of_word 0)

      B : Uint256
      B = make (of_word third.upper) (HalfShift.shl third (of_word 64))

      C : Uint256
      C = make second (of_word 0)

      zero_wide : Half.IsWide (of_word 0)
      zero_wide = omega arith

      wa : IsWide A
      wa = record {
        upper_wide = HalfShift.shl-IsWide first (of_word 64) s1.wide;
        lower_wide = zero_wide;
      }

      wb : IsWide B
      wb = record {
        upper_wide = (Stands-high third s3.wide).wide;
        lower_wide = HalfShift.shl-IsWide third (of_word 64) s3.wide;
      }

      wc : IsWide C
      wc = record { upper_wide = s2.wide; lower_wide = zero_wide }

      wd : IsWide (of_half fourth)
      wd = record { upper_wide = zero_wide; lower_wide = s4.wide }

      wab : IsWide (add A B)
      wab = add-IsWide A B wa wb

-- The product of two 256-bit values, computed from their 64-bit words, stands for the product of
-- the numbers modulo 2^256.
pub value-mul_256 :
    (x y : Uint256) → IsWide x → IsWide y → value (mul x y) ≡ value x * value y % 2 ^ 256
unfolding mul
value-mul_256 x y v w = omega (
  arith,
  value-assemble _ _ _ _
      (Stands-first p00 p01 p11 p12 p22 p23 p33 s00.wide s01.wide s11.wide s12.wide s22.wide
        s23.wide s33.wide)
      (Stands-second p01 p02 p12 p13 p23 s01.wide s02.wide s12.wide s13.wide s23.wide)
      (Stands-third p02 p03 p13 s02.wide s03.wide s13.wide) (Stands-low p03 s03.wide),
  s00.stands,
  s01.stands,
  s02.stands,
  s03.stands,
  s11.stands,
  s12.stands,
  s13.stands,
  s22.stands,
  s23.stands,
  s33.stands,
)
  where
    times : ℕ → ℕ → Uint128
    times a b = HalfMultiply.mul (of_word a) (of_word b)

    p00 : Uint128
    p00 = times x.upper.upper y.lower.lower

    s00 : Stands p00 (x.upper.upper * y.lower.lower)
    s00 = Stands-mul x.upper.upper y.lower.lower v.upper_wide.upper_fits w.lower_wide.lower_fits

    p01 : Uint128
    p01 = times x.upper.lower y.lower.lower

    s01 : Stands p01 (x.upper.lower * y.lower.lower)
    s01 = Stands-mul x.upper.lower y.lower.lower v.upper_wide.lower_fits w.lower_wide.lower_fits

    p02 : Uint128
    p02 = times x.lower.upper y.lower.lower

    s02 : Stands p02 (x.lower.upper * y.lower.lower)
    s02 = Stands-mul x.lower.upper y.lower.lower v.lower_wide.upper_fits w.lower_wide.lower_fits

    p03 : Uint128
    p03 = times x.lower.lower y.lower.lower

    s03 : Stands p03 (x.lower.lower * y.lower.lower)
    s03 = Stands-mul x.lower.lower y.lower.lower v.lower_wide.lower_fits w.lower_wide.lower_fits

    p11 : Uint128
    p11 = times x.upper.lower y.lower.upper

    s11 : Stands p11 (x.upper.lower * y.lower.upper)
    s11 = Stands-mul x.upper.lower y.lower.upper v.upper_wide.lower_fits w.lower_wide.upper_fits

    p12 : Uint128
    p12 = times x.lower.upper y.lower.upper

    s12 : Stands p12 (x.lower.upper * y.lower.upper)
    s12 = Stands-mul x.lower.upper y.lower.upper v.lower_wide.upper_fits w.lower_wide.upper_fits

    p13 : Uint128
    p13 = times x.lower.lower y.lower.upper

    s13 : Stands p13 (x.lower.lower * y.lower.upper)
    s13 = Stands-mul x.lower.lower y.lower.upper v.lower_wide.lower_fits w.lower_wide.upper_fits

    p22 : Uint128
    p22 = times x.lower.upper y.upper.lower

    s22 : Stands p22 (x.lower.upper * y.upper.lower)
    s22 = Stands-mul x.lower.upper y.upper.lower v.lower_wide.upper_fits w.upper_wide.lower_fits

    p23 : Uint128
    p23 = times x.lower.lower y.upper.lower

    s23 : Stands p23 (x.lower.lower * y.upper.lower)
    s23 = Stands-mul x.lower.lower y.upper.lower v.lower_wide.lower_fits w.upper_wide.lower_fits

    p33 : Uint128
    p33 = times x.lower.lower y.upper.upper

    s33 : Stands p33 (x.lower.lower * y.upper.upper)
    s33 = Stands-mul x.lower.lower y.upper.upper v.lower_wide.lower_fits w.upper_wide.upper_fits
