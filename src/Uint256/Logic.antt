-- ===== src/Uint256/Logic.antt =====
-- The bitwise or of 256-bit values on the whole numbers.
use vitex.Common.{◌≡◌, ap₂, sym, ◌∙◌, ◌*◌, ◌+◌, ◌^◌, ℕ, bit_or}
use vitex.Common.Bits.{digitwise-split, or-IsDigitwise}
use vitex.Uint128.Word as Half
use vitex.Uint128.Logic as HalfLogic
use vitex.Uint256.Word.{Uint256, IsWide, value, bitwise_or}

module _ (x y : Uint256) (v : IsWide x) (w : IsWide y) where
  pub bitwise_or-IsWide : IsWide (bitwise_or x y)
  unfolding bitwise_or
  bitwise_or-IsWide = record {
    upper_wide = HalfLogic.bitwise_or-IsWide x.upper y.upper v.upper_wide w.upper_wide;
    lower_wide = HalfLogic.bitwise_or-IsWide x.lower y.lower v.lower_wide w.lower_wide;
  }

  pub value-bitwise_or : value (bitwise_or x y) ≡ bit_or (value x) (value y)
  unfolding bitwise_or
  value-bitwise_or =
      ap₂ (λ (a b : ℕ). a * 2 ^ 128 + b)
        (HalfLogic.value-bitwise x.upper y.upper v.upper_wide w.upper_wide).1
        (HalfLogic.value-bitwise x.lower y.lower v.lower_wide w.lower_wide).1
      ∙ sym (
          digitwise-split bit_or or-IsDigitwise 128 (Half.value x.upper) (Half.value x.lower)
            (Half.value y.upper) (Half.value y.lower) (Half.value-lt x.lower v.lower_wide)
            (Half.value-lt y.lower w.lower_wide))
