-- ===== src/Uint256/Shift/Wide.antt =====
-- Shifts of 256-bit values give 256-bit values.
use vitex.Common.{◌||◌, ◌&&◌, arith, if_both}
use vitex.Uint128.Word as Half
use vitex.Uint128.Word.{Uint128, of_word}
use vitex.Uint128.Arith as HalfArith
use vitex.Uint128.Shift as HalfShift
use vitex.Uint256.Word.{Uint256, IsWide, make}
use vitex.Uint256.Shift.{shl, shr}

pub make-IsWide : (u l : Uint128) → Half.IsWide u → Half.IsWide l → IsWide (make u l)
make-IsWide u l v w = record { upper_wide = v; lower_wide = w }

zero-IsWide : Half.IsWide (of_word 0)
zero-IsWide = omega arith

module _ (x y : Uint256) (v : IsWide x) where
  pub shl-IsWide : IsWide (shl x y)
  unfolding shl
  shl-IsWide =
      if_both IsWide (Half.to_bool y.upper || Half.ge y.lower (of_word 256))
        (λ _. make-IsWide _ _ zero-IsWide zero-IsWide)
        λ _.
          if_both IsWide (Half.eq y.lower (of_word 128))
            (λ _. make-IsWide _ _ v.lower_wide zero-IsWide)
            λ _.
              if_both IsWide (Half.eq y.lower (of_word 0)) (λ _. v)
                λ _.
                  if_both IsWide (Half.lt y.lower (of_word 128))
                    (λ _.
                      make-IsWide _ _
                        (HalfArith.add-IsWide _ _ (HalfShift.shl-IsWide _ _ v.upper_wide)
                          (HalfShift.shr-IsWide _ _ v.lower_wide))
                        (HalfShift.shl-IsWide _ _ v.lower_wide))
                    λ _.
                      if_both IsWide
                        (Half.gt (of_word 256) y.lower && Half.gt y.lower (of_word 128))
                        (λ _. make-IsWide _ _ (HalfShift.shl-IsWide _ _ v.lower_wide) zero-IsWide)
                        λ _. make-IsWide _ _ zero-IsWide zero-IsWide

  pub shr-IsWide : IsWide (shr x y)
  unfolding shr
  shr-IsWide =
      if_both IsWide (Half.to_bool y.upper || Half.ge y.lower (of_word 128))
        (λ _. make-IsWide _ _ zero-IsWide zero-IsWide)
        λ _.
          if_both IsWide (Half.eq y.lower (of_word 128))
            (λ _. make-IsWide _ _ zero-IsWide v.upper_wide)
            λ _.
              if_both IsWide (Half.eq y.lower (of_word 0)) (λ _. v)
                λ _.
                  if_both IsWide (Half.lt y.lower (of_word 128))
                    (λ _. make-IsWide _ _ (HalfShift.shr-IsWide _ _ v.upper_wide) (
                      HalfArith.add-IsWide _ _ (HalfShift.shl-IsWide _ _ v.upper_wide)
                        (HalfShift.shr-IsWide _ _ v.lower_wide)))
                    λ _.
                      if_both IsWide
                        (Half.gt (of_word 256) y.lower && Half.gt y.lower (of_word 128))
                        (λ _. make-IsWide _ _ zero-IsWide (HalfShift.shr-IsWide _ _ v.upper_wide))
                        λ _. make-IsWide _ _ zero-IsWide zero-IsWide
