-- ===== src/Decimal/Arith/NoNumber.antt =====
-- Operands that are no number.
use vitex.Common.{◌≡◌, refl, ◌||◌, true, false}
use vitex.Decimal.Number.{Decimal, is_nan, not_a_number}
use vitex.Decimal.Order.{eq, ne, gt, lt, ge, le}
use vitex.Decimal.Arith.{add, sub, mul}

-- Where an operand is no number, +, - and * give no number, and all six comparisons are false, !=
-- included.
pub no_number_operand :
    (left right : Decimal)
    → is_nan left || is_nan right ≡ true
    → (add left right ≡ not_a_number)
      × (sub left right ≡ not_a_number)
      × (mul left right ≡ not_a_number)
      × (eq left right ≡ false)
      × (ne left right ≡ false)
      × (lt left right ≡ false)
      × (gt left right ≡ false)
      × (le left right ≡ false)
      × (ge left right ≡ false)
unfolding add sub mul eq ne gt lt ge le
no_number_operand left right h = rw h (refl, refl, refl, refl, refl, refl, refl, refl, refl)
