-- ===== src/Decimal/Examples.antt =====
-- Runs of the decimal theorems at concrete numbers.
use vitex.Common.{◌≡◌, arith, refl, [], ◌∷◌, true, false, inl, inr}
use vitex.Decimal.Number.{plus, minus, Decimal, is_nan, is_nan_sign, zero_number}
use vitex.Decimal.Number.Laws.{IsValid}
use vitex.Decimal.Order.{gt, lt, ge, le}
use vitex.Decimal.Order.Laws.{IsNumber, orders_lem}
use vitex.Decimal.Arith.{add, sub, mul}
use vitex.Decimal.Arith.Aligned.{Stands}
use vitex.Decimal.Arith.Product.{arithmetic_lem}
use vitex.Decimal.Round.{round}
use vitex.Decimal.Round.Laws.{round-Stands}
use vitex.Decimal.Division.{div}
use vitex.Decimal.Division.Laws.{minus_zero, div-minus_zero}
use vitex.Decimal.Arith.{one_number}
use vitex.Common.{none}

-- 9.5, -12 and 007.
abbrev nine_and_half : Decimal
nine_and_half = record { source = b'5' ∷ b'9' ∷ []; length = 1; sign = plus }

abbrev minus_twelve : Decimal
minus_twelve = record { source = b'2' ∷ b'1' ∷ []; length = 0; sign = minus }

-- -1.6.
abbrev minus_sixteen : Decimal
minus_sixteen = record { source = b'6' ∷ b'1' ∷ []; length = 1; sign = minus }

abbrev padded_seven : Decimal
padded_seven = record { source = b'7' ∷ b'0' ∷ b'0' ∷ []; length = 0; sign = plus }

abbrev eight : Decimal
eight = record { source = b'8' ∷ []; length = 0; sign = plus }

nine_and_half-IsNumber : IsNumber nine_and_half
nine_and_half-IsNumber = record {
  valid = record { digits = (omega arith, (omega arith, tt)); whole = omega arith };
  lean = inl refl;
  signed = unfold is_nan is_nan_sign in refl;
}

minus_twelve-IsNumber : IsNumber minus_twelve
minus_twelve-IsNumber = record {
  valid = record { digits = (omega arith, (omega arith, tt)); whole = omega arith };
  lean = inr (omega arith);
  signed = unfold is_nan is_nan_sign in refl;
}

minus_sixteen-IsNumber : IsNumber minus_sixteen
minus_sixteen-IsNumber = record {
  valid = record { digits = (omega arith, (omega arith, tt)); whole = omega arith };
  lean = inl refl;
  signed = unfold is_nan is_nan_sign in refl;
}

zero-IsNumber : IsNumber zero_number
zero-IsNumber = record {
  valid = record { digits = (omega arith, tt); whole = omega arith };
  lean = inl refl;
  signed = unfold is_nan is_nan_sign in refl;
}

minus_zero-IsNumber : IsNumber minus_zero
minus_zero-IsNumber = record {
  valid = record { digits = (omega arith, tt); whole = omega arith };
  lean = inl refl;
  signed = unfold is_nan is_nan_sign in refl;
}

padded_seven-IsValid : IsValid padded_seven
padded_seven-IsValid = record {
  digits = (omega arith, (omega arith, (omega arith, tt)));
  whole = omega arith;
}

arithmetic_example :
    (Stands (add nine_and_half minus_twelve) 1 95 120
      × Stands (sub nine_and_half minus_twelve) 1 215 0)
    × Stands (mul nine_and_half minus_twelve) 1 0 1140
arithmetic_example =
    arithmetic_lem nine_and_half minus_twelve nine_and_half-IsNumber minus_twelve-IsNumber

-- -1.6 is rounded to 1 - 1.
round-Stands_example : Stands (round minus_sixteen 0) 0 1 1
round-Stands_example = round-Stands minus_sixteen minus_sixteen-IsNumber 0 (omega arith)

div-minus_zero_example : div 50 one_number minus_zero ≡ none
div-minus_zero_example = div-minus_zero 50

orders_example :
    ((lt minus_twelve nine_and_half ≡ true) × (gt minus_twelve nine_and_half ≡ false))
    × ((le minus_twelve nine_and_half ≡ true) × (ge minus_twelve nine_and_half ≡ false))
orders_example = orders_lem minus_twelve nine_and_half minus_twelve-IsNumber nine_and_half-IsNumber
