-- ===== src/Uint256/Shift.antt =====
-- The shift operators of `uint256`. The right shift compares its amount with 128 where the left
-- shift compares it with 256, so that its later branches for 128 and more are never reached.
pub mod Laws
pub mod Wide
use vitex.Common.{
  ℕ, ◌+◌, ◌-◌, ◌*◌, ◌/◌, ◌%◌, ◌^◌, ◌≤◌, ◌<◌, ◌≡◌, ◌⊎◌, inl, inr, arith, ap, ap₂, sym, ◌∙◌,
  if◌then◌else◌, ◌||◌, ◌&&◌, two-pow-pos, pow-sub-mul, pow-add,
}
use vitex.Uint128.Word as Half
use vitex.Uint128.Word.{Uint128, of_word}
use vitex.Uint128.Arith as HalfArith
use vitex.Uint128.Shift as HalfShift
use vitex.Uint256.Word.{Uint256, IsWide, value, make, of_half, value-lt}
use native.Mathlib.Nat.{div-lt_iff_lt-mul, div-eq_of_lt-le, div-add-mod', mod-lt, mul_comm}

pub shl : Uint256 → Uint256 → Uint256
shl x y =
    let s = y.lower in
    if Half.to_bool y.upper || Half.ge s (of_word 256)
    then of_half (of_word 0)
    else if Half.eq s (of_word 128)
    then make x.lower (of_word 0)
    else if Half.eq s (of_word 0)
    then x
    else if Half.lt s (of_word 128)
    then make
        (HalfArith.add (HalfShift.shl x.upper s)
          (HalfShift.shr x.lower (HalfArith.sub (of_word 128) s)))
        (HalfShift.shl x.lower s)
    else if Half.gt (of_word 256) s && Half.gt s (of_word 128)
    then make (HalfShift.shl x.lower (HalfArith.sub s (of_word 128))) (of_word 0)
    else of_half (of_word 0)

pub shr : Uint256 → Uint256 → Uint256
shr x y =
    let s = y.lower in
    if Half.to_bool y.upper || Half.ge s (of_word 128)
    then of_half (of_word 0)
    else if Half.eq s (of_word 128)
    then of_half x.upper
    else if Half.eq s (of_word 0)
    then x
    else if Half.lt s (of_word 128)
    then make (HalfShift.shr x.upper s) (
        HalfArith.add (HalfShift.shl x.upper (HalfArith.sub (of_word 128) s))
          (HalfShift.shr x.lower s))
    else if Half.gt (of_word 256) s && Half.gt s (of_word 128)
    then of_half (HalfShift.shr x.upper (HalfArith.sub s (of_word 128)))
    else of_half (of_word 0)
