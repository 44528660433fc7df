-- ===== src/Uint256/Multiply.antt =====
-- `uint256::operator*`: schoolbook multiplication over four 64-bit digits, whose products are
-- 128-bit numbers.
pub mod Laws
use vitex.Common.{ℕ, ◌+◌, ◌-◌, ◌*◌, ◌/◌, ◌%◌, ◌^◌, ◌≤◌, ◌<◌, ◌≡◌, arith, ap, ap₂, sym, ◌∙◌}
use vitex.Uint128.Word as Half
use vitex.Uint128.Word.{Uint128, of_word}
use vitex.Uint128.Arith as HalfArith
use vitex.Uint128.Multiply as HalfMultiply
use vitex.Uint128.Shift as HalfShift
use vitex.Uint256.Word.{Uint256, IsWide, value, make, of_half}
use vitex.Uint256.Arith.{add}

infixl 65 ◌⊕◌
abbrev pub ◌⊕◌ : Uint128 → Uint128 → Uint128
a ⊕ b = HalfArith.add a b

-- The two words of a product, as numbers of their own.
abbrev pub low64 : Uint128 → Uint128
low64 p = of_word p.lower

abbrev pub high64 : Uint128 → Uint128
high64 p = of_word p.upper

-- `fourth64` to `first64`: the words of the products, collected by place.
pub third_word : (p02 p03 p12 : Uint128) → Uint128
third_word p02 p03 p13 = low64 p02 ⊕ high64 p03 ⊕ low64 p13

pub second_word : (p01 p02 p12 p13 p23 : Uint128) → Uint128
second_word p01 p02 p12 p13 p23 = low64 p01 ⊕ high64 p02 ⊕ (low64 p12 ⊕ high64 p13) ⊕ low64 p23

pub first_word : (p00 p01 p11 p12 p22 p23 p33 : Uint128) → Uint128
first_word p00 p01 p11 p12 p22 p23 p33 =
    low64 p00 ⊕ high64 p01 ⊕ (low64 p11 ⊕ high64 p12) ⊕ (low64 p22 ⊕ high64 p23) ⊕ low64 p33

-- The words are added up, each at its place.
pub assemble : (first second third fourth : Uint128) → Uint256
assemble first second third fourth =
    add
      (add
        (add (make (HalfShift.shl first (of_word 64)) (of_word 0))
          (make (of_word third.upper) (HalfShift.shl third (of_word 64))))
        (make second (of_word 0)))
      (of_half fourth)

pub mul : Uint256 → Uint256 → Uint256
mul x y =
    let times = λ (a b : ℕ). HalfMultiply.mul (of_word a) (of_word b) in
    let p00 = times x.upper.upper y.lower.lower in
    let p01 = times x.upper.lower y.lower.lower in
    let p02 = times x.lower.upper y.lower.lower in
    let p03 = times x.lower.lower y.lower.lower in
    let p11 = times x.upper.lower y.lower.upper in
    let p12 = times x.lower.upper y.lower.upper in
    let p13 = times x.lower.lower y.lower.upper in
    let p22 = times x.lower.upper y.upper.lower in
    let p23 = times x.lower.lower y.upper.lower in
    let p33 = times x.lower.lower y.upper.upper in
    assemble (first_word p00 p01 p11 p12 p22 p23 p33) (second_word p01 p02 p12 p13 p23)
      (third_word p02 p03 p13) (low64 p03)
